-- ===== src/Client.antt =====
-- The command line and the terminal screens of the directory src.
pub mod Form
pub mod Bundles
pub mod Tree
pub mod Http
pub mod Remote
pub mod Payload
pub mod View
pub mod Register
pub mod Forge
pub mod With
