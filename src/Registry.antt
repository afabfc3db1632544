-- ===== src/Registry.antt =====
-- The registry's requests: crates/ocid/src/registry.rs.
pub mod Range
pub mod Route
pub mod Http
pub mod Uploads
pub mod Manifests
pub mod Push
pub mod Pull
pub mod Dispatch
