-- ===== src/Common/Config.antt =====
-- common/config_values.go: configuration maps, the sources found in them, and their values.
pub mod Values
pub mod Generate
pub mod Prefixes
pub mod Maps
pub mod Normal
pub mod Refresh
pub mod Resolved
pub mod Clients
pub mod Pipeline
pub mod Retries
