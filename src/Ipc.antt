-- ===== src/Ipc.antt =====
-- kernel/src/ipc: endpoints between processes and the tasks of the kernel.
pub mod Endpoint
pub mod Orphans
