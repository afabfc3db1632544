-- ===== src/Dns.antt =====
-- Domain identities: crates/ocid-core/src/dns.rs, crates/ocid/src/dns_resolver.rs.
pub mod Zone
pub mod Record
pub mod Pins
pub mod Service
