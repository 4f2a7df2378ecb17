-- ===== src/Driver.antt =====
-- kernel/src/driver and kernel/src/arch/x86_64/pci.rs: the disk driver.
pub mod VirtioBlk
pub mod Pci
