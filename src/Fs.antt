-- ===== src/Fs.antt =====
-- kernel/src/fs and kernel/src/driver/block.rs: the FAT12 reader over a block device.
pub mod Block
pub mod Fat
