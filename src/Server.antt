-- ===== src/Server.antt =====
-- The crate crates/secd-web: the server.
pub mod Db
pub mod Sha256
pub mod Headers
pub mod Audit
pub mod Sessions
pub mod Sample
pub mod Decode
pub mod Device
pub mod Vault
pub mod Auth
