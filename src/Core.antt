-- ===== src/Core.antt =====
-- The crate crates/secd-core.
pub mod NameError
pub mod Name
pub mod Provider
pub mod Error
pub mod Hex
pub mod Aead
pub mod Wrap
pub mod Redact
