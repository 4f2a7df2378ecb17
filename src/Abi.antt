-- ===== src/Abi.antt =====
-- The crate libs/tarnos-abi: the types that cross between kernel and userland.
pub mod Message
pub mod ShortName
pub mod Status
pub mod Number
pub mod Errors
