-- ===== src/Policy.antt =====
-- The seeding policy: crates/ocid-core/src/config.rs.
pub mod Mode
pub mod Window
pub mod Rules
pub mod Edit
