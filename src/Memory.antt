-- ===== src/Memory.antt =====
-- kernel/src/memory: physical frames.
pub mod Phys
