-- ===== src/Task.antt =====
-- kernel/src/task: process identifiers, processes and the scheduler's table.
pub mod Pid
pub mod Process
pub mod Scheduler
pub mod Executor
pub mod Load
