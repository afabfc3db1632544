-- ===== src/Oci.antt =====
-- crates/ocid-core/src/oci.rs: names and tags, digests, manifests.
pub mod Name
pub mod Digest
pub mod Reference
pub mod Manifest
