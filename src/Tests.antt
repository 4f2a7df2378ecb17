-- ===== src/Tests.antt =====
-- Runs of the code on concrete inputs, and the theorems at them.
mod Kcore
mod Fs
mod Abi
mod Task
mod Steps
mod Ipc
mod Memory
mod Syscall
mod Elf
mod Device
mod Executor
mod Disk
mod Pci
mod Heap
mod Runtime
