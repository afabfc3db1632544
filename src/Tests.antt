-- ===== src/Tests.antt =====
-- The theorems at concrete data.
pub mod Data
pub mod Identities
pub mod Policies
pub mod Releases
pub mod Nodes
pub mod Zones
pub mod Codecs
pub mod Daemons
pub mod Commands
pub mod Requests
