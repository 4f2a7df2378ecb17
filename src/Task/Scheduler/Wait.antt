-- ===== src/Task/Scheduler/Wait.antt =====
-- kernel/src/task/scheduler.rs: `wait_for_child`, up to the switch to the next process.
use tarn_os.Prelude.{
  ℕ, zero, suc, [], ◌∷◌, ◌≡◌, refl, false, List, some, ◌==◌, ==_refl, if◌then◌else◌, set, get_or,
}
use tarn_os.Abi.Status.{ExitStatus, to_regs}
use tarn_os.Abi.Errors.{invalid_target, as_retval}
use tarn_os.Prelude.Int.{to_u64}
use tarn_os.Task.Pid
use tarn_os.Task.Pid.{Pid}
use tarn_os.Task.Process.{TrapFrame, wait_completed, wake_frame}
use tarn_os.Task.Scheduler.{
  Slot, Scheduler, slot_at, put_slot, is_stale, is_pid, block_current_process,
}

-- The frame that the caller goes on with, or the state in which `switch_to_next_or_halt` is called.
pub data Waited : Type 0 where
  returns : TrapFrame → Scheduler → Waited
  switches : Scheduler → Waited

abbrev pub refused : TrapFrame → TrapFrame
refused frame = record frame { rax = to_u64 (as_retval invalid_target) }

abbrev pub status_frame : ExitStatus → TrapFrame → TrapFrame
status_frame status frame =
    let (kind, code) = to_regs status in record frame { rax = 0; rdi = kind; rsi = code }

abbrev pub wait_on : Scheduler → ℕ → TrapFrame → Pid → Pid → Slot → Waited
wait_on s core frame target caller Slot.empty = returns (refused frame) s
wait_on s core frame target caller Slot.reserved = returns (refused frame) s
wait_on s core frame target caller (Slot.zombie parent status) =
    if parent == caller
    then returns (status_frame status frame) (put_slot s (Pid.index target) Slot.empty)
    else returns (refused frame) s
wait_on s core frame target caller (Slot.occupied p) =
    if is_pid caller p.parent
    then switches (
        block_current_process
          (put_slot s (Pid.index target) (Slot.occupied (record p { wait_waiter = some caller })))
          core frame)
    else returns (refused frame) s

unfoldable pub wait_for_child : Scheduler → ℕ → TrapFrame → Pid → Pid → Waited
wait_for_child s core frame target caller =
    if is_stale s target
    then returns (refused frame) s
    else wait_on s core frame target caller (slot_at s (Pid.index target))

emptied : (xs : List Slot) (i : ℕ) → get_or (set xs i Slot.empty) i Slot.empty ≡ Slot.empty
emptied [] i = refl
emptied (x ∷ xs) zero = refl
emptied (x ∷ xs) (suc i) = emptied xs i

-- A child that ended is waited for at most once: its parent's wait returns, with the registers that
-- a wake by the child's end would have set, and after it every wait for that `Pid`, on any core and
-- by any caller, is refused and changes nothing.
pub wait_for_child-zombie :
    (s : Scheduler) (core other_core : ℕ) (frame other_frame : TrapFrame)
    (target caller other : Pid) (status : ExitStatus)
    → is_stale s target ≡ false
    → slot_at s (Pid.index target) ≡ Slot.zombie caller status
    → (t : Scheduler) × (wait_for_child s core frame target caller
        ≡ returns (wake_frame (wait_completed status) frame) t)
      × (wait_for_child t other_core other_frame target other ≡ returns (refused other_frame) t)
unfolding wait_for_child wake_frame
wait_for_child-zombie s core other_core frame other_frame target caller other status fresh slot = (
  put_slot s (Pid.index target) Slot.empty,
  rw (fresh, slot, ==_refl caller) refl,
  rw (fresh, emptied s.processes (Pid.index target)) refl,
)
