-- ===== src/Scheduler.antt =====
-- src/scheduler.c.
pub mod Exclusive
pub mod State
pub mod View
pub mod Lasting
pub mod Dispatch
pub mod Tick
pub mod Sigchld
pub mod Create
pub mod Start
