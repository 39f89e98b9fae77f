-- ===== src/Config.antt =====
-- native/src/config.rs: the registry of the servers that the broker may call.
pub mod Expand
pub mod Types
pub mod Normal
pub mod Merge
pub mod Load
