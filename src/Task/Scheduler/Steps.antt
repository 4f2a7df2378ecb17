-- ===== src/Task/Scheduler/Steps.antt =====
-- kernel/src/task/scheduler.rs: the calls of all cores as steps of one machine, and what holds of every
-- state that they reach. Each call under one lock is one step, and the cores' steps come in any order.
pub mod Safety
pub mod Frames
pub mod Turns
pub mod Eviction
use tarn_os.Prelude.{ℕ, false, ◌<◌, ◌^◌, ◌≡◌, List, Option, none, some}
use tarn_os.Abi.Status.{ExitStatus}
use tarn_os.Task.Pid.{Pid}
use tarn_os.Task.Process.{TrapFrame, ProcessState, Process, WakeResult}
use tarn_os.Task.Scheduler.{
  Scheduler, new, ok, is_stale, allocate_pid, release_reservation, spawn, spawn_suspended,
  start_child, wake_blocked_process, block_current_process, current_at,
}
use tarn_os.Task.Scheduler.Wait.{Waited, returns, switches, wait_for_child}
use tarn_os.Task.Scheduler.Dispatch.{
  Selectors, Switched, idles, resumes, on_timer_tick, switch_to_next_or_halt, idle_round,
}
use tarn_os.Task.Scheduler.Kill.{end_current, terminates, kill_round, on_reschedule_ipi}
use tarn_os.Task.Scheduler.Invariant.Create.{IsNew}

-- The scheduler that a core leaves behind.
pub data After : Switched → Scheduler → Type 0 where
  idled : {s : Scheduler} → After (idles s) s
  resumed : {f : TrapFrame} {s : Scheduler} → After (resumes f s) s

abbrev pub left : Waited → Scheduler
left (returns frame s) = s
left (switches s) = s

-- One call. A frame that a core hands over is that of the process it runs, and may be any frame. A call in
-- which an assertion fails stops the machine: it leads to no state. A `Pid` of a caller is a `u64`. A new process has the `Pid` of
-- a reserved slot. A round of a kill is of a target that is not stale.
pub data Step (sel : Selectors) : Scheduler → Scheduler → Type 0 where
  allocates : (s : Scheduler) → Step sel s (allocate_pid s).1
  releases : (s : Scheduler) (pid : Pid) → Step sel s (release_reservation s pid)
  spawns :
      (s t : Scheduler) (p : Process)
      → IsNew s p
      → p.state ≡ ProcessState.ready
      → spawn s p ≡ ok t
      → Step sel s t
  spawns_suspended :
      (s t : Scheduler) (p : Process)
      → IsNew s p
      → p.state ≡ ProcessState.suspended
      → spawn_suspended s p ≡ ok t
      → Step sel s t
  starts :
      (s t : Scheduler) (target caller : Pid)
      → target < 2 ^ 64
      → start_child s target caller ≡ ok t
      → Step sel s t
  wakes :
      (s : Scheduler) (pid : Pid) (result : WakeResult)
      → pid < 2 ^ 64
      → Step sel s (wake_blocked_process s pid result)
  blocks :
      (s : Scheduler) (core : ℕ) (frame : TrapFrame) (pid : Pid)
      → current_at s core ≡ some pid
      → Step sel s (block_current_process s core frame)
  waits :
      (s : Scheduler) (core : ℕ) (frame : TrapFrame) (target caller : Pid)
      → current_at s core ≡ some caller
      → caller < 2 ^ 64
      → Step sel s (left (wait_for_child s core frame target caller))
  ticks :
      (s t : Scheduler) (core : ℕ) (frame : TrapFrame) (pid : Pid)
      → current_at s core ≡ some pid
      → After (on_timer_tick sel s core frame) t
      → Step sel s t
  ticks_idle :
      (s t : Scheduler) (core : ℕ) (frame : TrapFrame)
      → current_at s core ≡ none
      → After (on_timer_tick sel s core frame) t
      → Step sel s t
  halts :
      (s t : Scheduler) (core : ℕ) (outgoing : Option ℕ)
      → After (switch_to_next_or_halt sel s core outgoing) t
      → Step sel s t
  polls : (s t : Scheduler) (core : ℕ) → After (idle_round sel s core) t → Step sel s t
  ends :
      (s t : Scheduler) (core : ℕ) (status : ExitStatus) (outgoing : Option ℕ)
      (drops : List Process)
      → end_current s core status ≡ some (outgoing, t, drops)
      → Step sel s t
  kills :
      (s t : Scheduler) (target : Pid) (drops : List Process)
      → is_stale s target ≡ false
      → target < 2 ^ 64
      → kill_round s target ≡ terminates (some (t, drops))
      → Step sel s t
  evicted :
      (s t : Scheduler) (core evict : ℕ) (frame : TrapFrame)
      → After (on_reschedule_ipi sel s core evict frame) t
      → Step sel s t

-- What the steps reach from the kernel's first state.
pub data Reachable (sel : Selectors) : Scheduler → Type 0 where
  start : Reachable sel new
  step : (s t : Scheduler) → Reachable sel s → Step sel s t → Reachable sel t
