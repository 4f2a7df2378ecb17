-- ===== src/Runtime/Spawn.antt =====
-- libs/tarnos-rt/src/syscall.rs against kernel/src/arch/x86_64/syscall.rs: what `sys_spawn` tells the program,
-- and what it does to the table.
use tarn_os.Prelude.{ℕ, ◌^◌, ◌≡◌, ◌<◌, ◌≤◌, List, some, none, Option, ◌==◌, if◌then◌else◌}
use tarn_os.Prelude.Int.{to_i64, to_u64}
use tarn_os.Abi.Errors.{SyscallError, from_retval, as_retval}
use tarn_os.Kcore.CapTable
use tarn_os.Kcore.CapTable.{ok, err}
use tarn_os.Elf.{Space}
use tarn_os.Elf.Load.{crashes, load}
use tarn_os.Task.Pid
use tarn_os.Task.Pid.{Pid}
use tarn_os.Task.Process.{TrapFrame, Process, suspended}
use tarn_os.Task.Load.{Images}
use tarn_os.Task.Scheduler
use tarn_os.Task.Scheduler.{Scheduler, occupied_mut, allocate_pid}
use tarn_os.Syscall.{Kernel, Outcome, answers, fails, with_rax, refuses}
use tarn_os.Syscall.Spawn.{answer_spawn}
use tarn_os.Syscall.Spawn
use tarn_os.Runtime.{spawn_regs, sys_spawn}

-- A child as the kernel makes it: suspended, under the new `Pid`, and with no capability.
pub record IsChild (pid : Pid) (parent : Option Pid) (child : Process) : Type 0 where
  pub idle : child.state ≡ suspended
  pub own : child.pid ≡ pid
  pub of : child.parent ≡ parent
  pub powerless : child.cap_table ≡ CapTable.new

-- The new `Pid` names the child, and every other one what it named before.
abbrev pub Adds : Scheduler → Scheduler → Process → Type 0
Adds before after child =
    (q : Pid)
    → q < 2 ^ 64
    → occupied_mut after q ≡ (if q == child.pid then some child else occupied_mut before q)

-- What a call of `sys_spawn` on the table `s` came to, for the kernel and for the program.
pub data Spawned (images : Images) (s : Scheduler) (parent : Option Pid) (regs : TrapFrame)
    (name : List ℕ) : Outcome → Type 0 where
  panicked :
      (bytes : List ℕ) (space : Space)
      → load images.canonical images.mapper bytes space ≡ crashes
      → Spawned images s parent regs name fails
  refused :
      (after : Kernel) (e : SyscallError)
      → ((q : Pid) → occupied_mut after.scheduler q ≡ occupied_mut s q)
      → sys_spawn (λ f. with_rax (spawn_regs regs name) (to_u64 (as_retval e))) regs name ≡ err e
      → Spawned images s parent regs name (refuses (spawn_regs regs name) e after)
  named :
      (after : Kernel) (child : Process)
      → IsChild (allocate_pid s).0 parent child
      → Adds s after.scheduler child
      → sys_spawn (λ f. with_rax (spawn_regs regs name) (allocate_pid s).0) regs name
        ≡ ok (allocate_pid s).0
      → Spawned images s parent regs name
          (answers (with_rax (spawn_regs regs name) (allocate_pid s).0) after)
  misread :
      (after : Kernel) (child : Process)
      → IsChild (allocate_pid s).0 parent child
      → Adds s after.scheduler child
      → 2 ^ 63 ≤ (allocate_pid s).0
      → sys_spawn (λ f. with_rax (spawn_regs regs name) (allocate_pid s).0) regs name
        ≡ err (from_retval (to_i64 (allocate_pid s).0))
      → Spawned images s parent regs name
          (answers (with_rax (spawn_regs regs name) (allocate_pid s).0) after)

abbrev pub pid_of : Option Process → Option Pid
pid_of none = none
pid_of (some p) = some p.pid
