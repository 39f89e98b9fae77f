-- ===== src/Artifacts.antt =====
-- native/src/artifacts.rs: the bounded store of artifacts.
pub mod State
pub mod Host
pub mod Reader
pub mod Registry
pub mod Retention
pub mod Upload
pub mod Create
pub mod Range
pub mod Save
pub mod Dispatch
pub mod Bounds
pub mod Sound
pub mod Steps
pub mod Limits
pub mod Closed
pub mod Roundtrip
pub mod Torn
pub mod Pages
pub mod Isolation
pub mod Saved
pub mod Permits
