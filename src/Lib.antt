-- ===== src/Lib.antt =====
-- A model of the core of TarnOS, a small kernel in Rust: its data structures, its process scheduler,
-- its system calls, its program loader, its file reader and its wire formats.
--
-- The parts and how they interact. The kernel core (libs/tarnos-kcore) has the structures that do not
-- touch hardware: a ring buffer, a bitmap, a capability table and the state machine of an IPC
-- endpoint. An endpoint keeps its waiting senders in a ring buffer; the scheduler
-- (kernel/src/task/scheduler.rs) keeps its ready queue in one and names processes by a `Pid`; a
-- process holds a capability table. The wire formats (libs/tarnos-abi) are what a process and the
-- kernel say to each other in registers. The file reader (kernel/src/fs/fat.rs) reads a FAT12 volume
-- from any block device. An endpoint of the kernel (kernel/src/ipc/endpoint.rs) wakes the process that
-- waited, through the scheduler; the frame allocator (kernel/src/memory/phys.rs) keeps two bitmaps. The
-- system calls (kernel/src/arch/x86_64/syscall.rs) find an endpoint in the caller's capability table and
-- call the endpoints and the scheduler; the loader (kernel/src/elf.rs) fills a new process's memory. A
-- program makes them through its runtime (libs/tarnos-rt), which sets the registers and reads the
-- answer back. The executor (kernel/src/task/executor.rs) runs the kernel's own tasks from a ring
-- buffer; the disk driver (kernel/src/driver/virtio_blk.rs) is the block device of the file reader.
--
-- Files. Prelude has the shared notation, lists as arrays, words and bytes.
--   Kcore/Ring, Kcore/Bitmap, Kcore/CapTable, Kcore/Endpoint: ring.rs, bitmap.rs, captable.rs and
--     endpoint.rs of libs/tarnos-kcore/src, one function for each method. Ring/Fifo and
--     Endpoint/Rendezvous say what the ring and the endpoint promise, without the array.
--   Abi/Message, Abi/ShortName, Abi/Status, Abi/Errors, Abi/Number: libs/tarnos-abi/src/lib.rs.
--   Fs/Block: the trait of kernel/src/driver/block.rs, as an interface. Fs/Fat and Fs/Fat/Read:
--     kernel/src/fs/fat.rs, its pure functions and those that read the device; Fs/Fat/Root: its volume.
--   Task/Pid, Task/Process: kernel/src/task/mod.rs, the process of kernel/src/task/process.rs and its
--     registers. Task/Load: how kernel/src/task/process.rs makes a process from an image. Task/Scheduler: kernel/src/task/scheduler.rs, the table and the wakes;
--     Task/Scheduler/Termination: the end of a process; Task/Scheduler/Wait: the wait for it;
--     Task/Scheduler/Dispatch: what a core runs next; Task/Scheduler/Kill: exits, kills and evictions;
--     Task/Scheduler/Invariant: what the table, the queue and the cores have to do with each other;
--     Task/Scheduler/Steps: the calls of all cores as steps of one machine.
--   Ipc/Endpoint: kernel/src/ipc/endpoint.rs, over the slot of Kcore/Endpoint and the scheduler.
--     Ipc/Orphans: `wake_orphaned_receivers` of kernel/src/task/scheduler.rs, over all endpoints.
--   Memory/Phys: kernel/src/memory/phys.rs, over the bitmap.
--   Syscall: kernel/src/arch/x86_64/syscall.rs, the calls on processes, capabilities and endpoints;
--     Syscall/Heap, Syscall/Range and Syscall/Transfer: `sys_sbrk`, `validate_write_range` and
--     `copy_into_user_range` of it; Syscall/Device: the reads of the disk and of a file;
--     Syscall/Spawn: `sys_spawn`; Syscall/Dispatch: `syscall_dispatch`, over all of them.
--   Runtime: libs/tarnos-rt/src/syscall.rs, the wrappers that a program calls; its children put them
--     together with the kernel's calls. Runtime/UserHeap: libs/tarnos-rt/src/heap.rs.
--   Task/Executor: kernel/src/task/executor.rs.
--   Driver/VirtioBlk: kernel/src/driver/virtio_blk.rs, a read request; Driver/VirtioBlk/Chain has the
--     view of a device. Driver/Pci: kernel/src/arch/x86_64/pci.rs, registers and the search of the bus.
--   Elf: kernel/src/elf.rs, a segment; Elf/Load: the checks of the file and the loop over the segments.
--   Tests: runs on concrete inputs.
--
-- How the code is translated. A method on `&mut self` returns the new value; an index or a number of
-- the machine is a native number, with `% 2 ^ 64` where a sum can wrap. A Rust function that holds
-- the scheduler's lock is one step. Parameters are code that is not in the repository: the bit test of
-- the crate bitflags (`RightsOps`), the frames of the crate x86_64 (`FrameOps`), its page tables
-- (`Pages`, `PageTable`, `Mapper`), and a task's waker (`W`). A block device is a parameter that returns
-- as many bytes as it was asked for, as the type of the buffer demands. So are the instruction
-- `syscall` (`syscall`), the future of a task (`poll`), and the disk that works on the memory of the
-- driver (`step`, and `mmio` when the driver writes a register), with the service that its
-- specification describes (`Disk`), and the crate linked_list_allocator (`Allocator`).
--
-- Fuel and bounds. Loops over an array or a table are structural, with the number of rounds that the
-- source has. `cluster_chain` goes at most `total_clusters` rounds, which is the test that the source
-- makes. `take_and_finalize_slot` calls itself through `reap_children_of`: the fuel bounds how deep,
-- and one more than the slots of the table is enough, since each call empties a slot first.
-- `check_pages` has three rounds more than the buffer has whole pages, and so has `copy_pages`;
-- `copy_file` has as many as there are bytes. The loops of the executor and of the disk driver wait
-- for others: there is enough fuel if the tasks make finitely many wakes, and if the disk serves a
-- read that it is told of.
--
-- Not modelled: the setting up of devices and the lists of their capabilities, page tables, the interrupt
-- and switch paths in assembly, the start of the machine, locks, and printing. Of the scheduler,
-- the timed wait between the rounds of a kill and the trace of dispatches are left out. A change
-- of a capability table is not a step of Task/Scheduler/Steps, since it leaves the queue and the
-- cores as they are.
pub mod Prelude
pub mod Abi
pub mod Kcore
pub mod Fs
pub mod Task
pub mod Tests
pub mod Ipc
pub mod Memory
pub mod Syscall
pub mod Elf
pub mod Runtime
pub mod Driver
