-- ===== src/Supervisor.antt =====
-- native/src/supervisor.rs: the captured output of a run, the history of runs, and the one run at a time.
pub mod Output
pub mod History
pub mod Slot
pub mod Execute
pub mod Life
pub mod Jobs
pub mod Reader
pub mod Forward
