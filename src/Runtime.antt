-- ===== src/Runtime.antt =====
-- apps/contextctl-daemon/src/runtime: how the daemon admits work, schedules model inference and
-- shuts down.
pub mod Lane
pub mod Batches
pub mod Scheduler
pub mod Profile
pub mod Deadline
pub mod Lifecycle
