-- ===== src/Kcore.antt =====
-- The crate libs/tarnos-kcore: the kernel's data structures that need no hardware.
pub mod Ring
pub mod Bitmap
pub mod CapTable
pub mod Endpoint
