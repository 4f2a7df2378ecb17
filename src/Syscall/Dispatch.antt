-- ===== src/Syscall/Dispatch.antt =====
-- kernel/src/arch/x86_64/syscall.rs: `syscall_dispatch`, which picks the handler by the number in `rax`. The
-- parts of the machine that a handler works on are the section's parameters.
use tarn_os.Prelude.{ℕ, List, Option, none, some, ◌==◌, if◌then◌else◌}
use tarn_os.Abi.Number
use tarn_os.Abi.Errors.{no_such_syscall, invalid_target}
use tarn_os.Fs.Block.{BlockDevice}
use tarn_os.Fs.Fat.{Fat12Volume}
use tarn_os.Task.Process.{TrapFrame, Process}
use tarn_os.Task.Scheduler.Dispatch.{Selectors, Switched, on_timer_tick}
use tarn_os.Task.Scheduler.Kill.{on_syscall_exit}
use tarn_os.Syscall.{
  Kernel, Flags, Outcome, refuses, current_process, sys_send, sys_recv, sys_grant,
  sys_process_start, sys_wait, sys_kill,
}
use tarn_os.Task.Load.{Images}
use tarn_os.Syscall.Spawn.{sys_spawn}
use tarn_os.Syscall.Heap
use tarn_os.Syscall.Heap.{Pages, Grown}
use tarn_os.Syscall.Range.{PageTable}
use tarn_os.Syscall.Device.{Attempt, sys_block_read, sys_file_read}

-- What the calling process works with, beside the kernel's tables: the pages of its heap, its bytes,
-- the disk and the volume.
pub record Machine (D M : Type 0) : Type 0 where
  pub kernel : Kernel
  pub heap : M
  pub bytes : ℕ → ℕ
  pub attached : Option D
  pub root : Option Fat12Volume

module _ {D M : Type 0} (flags : Flags) (read_right : ℕ) (sel : Selectors) (images : Images)
    (modules : List (List ℕ × List ℕ)) (device : BlockDevice D) (table : PageTable)
    (pages : Pages M) where
  pub data Handled : Type 0 where
    yields : Switched → Handled
    exits : Option (Switched × List Process) → Handled
    calls : Outcome → Handled
    spawns : Outcome × Option D → Handled
    grows : Grown pages → Handled
    reads : Attempt × Option D → Handled

  abbrev pub grow_heap : Machine D M → TrapFrame → Option Process → Handled
  grow_heap m frame none = calls (refuses frame invalid_target m.kernel)
  grow_heap m frame (some p) = grows (Heap.sys_sbrk pages frame.rdi p.heap_end m.heap)

  unfoldable pub syscall_dispatch : Machine D M → ℕ → TrapFrame → Handled
  syscall_dispatch m core frame =
      if frame.rax == Number.yield
      then yields (on_timer_tick sel m.kernel.scheduler core frame)
      else if frame.rax == Number.send
      then calls (sys_send flags m.kernel core frame)
      else if frame.rax == Number.recv
      then calls (sys_recv flags m.kernel core frame)
      else if frame.rax == Number.exit
      then exits (on_syscall_exit sel m.kernel.scheduler core frame)
      else if frame.rax == Number.spawn
      then spawns (sys_spawn device images modules m.root m.kernel core frame m.attached)
      else if frame.rax == Number.grant
      then calls (sys_grant flags m.kernel core frame)
      else if frame.rax == Number.process_start
      then calls (sys_process_start m.kernel core frame)
      else if frame.rax == Number.wait
      then calls (sys_wait m.kernel core frame)
      else if frame.rax == Number.kill
      then calls (sys_kill m.kernel core frame)
      else if frame.rax == Number.sbrk
      then grow_heap m frame (current_process m.kernel.scheduler core)
      else if frame.rax == Number.block_read
      then reads
          (sys_block_read device flags.ops read_right table m.kernel core frame m.bytes m.attached)
      else if frame.rax == Number.file_read
      then reads (
          sys_file_read device flags.ops read_right table m.kernel core frame m.root m.bytes
            m.attached)
      else calls (refuses frame no_such_syscall m.kernel)
