-- ===== src/Task/Scheduler/Invariant/Block.antt =====
-- The invariant is kept when a process stops running.
use tarn_os.Prelude.{
  ℕ, ◌≤◌, ◌<◌, ◌≡◌, ◌≢◌, refl, sym, subst, ap, ◌∙◌, none, some, arith, Option-cases, inl, inr, set,
  ℕ_discrete,
}
use tarn_os.Task.Pid
use tarn_os.Task.Pid.{Pid, index-generation-new}
use tarn_os.Task.Process.{TrapFrame, ProcessState, Process, apply_wake_result}
use tarn_os.Task.Scheduler.{
  Slot, Scheduler, max_processes, slot_at, current_at, set_current, blocked_as,
  block_current_process,
}
use tarn_os.Task.Scheduler.Wakeups.{block_lem, in_table}
use tarn_os.Task.Scheduler.Invariant.{holders, running_of, ready_bit, running_bit, IsConsistent}
use tarn_os.Task.Scheduler.Invariant.Counts.{holders-release}
use tarn_os.Task.Scheduler.Invariant.Put.{release-IsConsistent}
use tarn_os.Task.Scheduler.Invariant.Wake.{Found, occupant, release_to_queue, stay_off_queue}

-- A slot that counts for `pid` holds the process of that name.
pub of_running :
    (slot : Slot) (pid : Pid)
    → 0 < running_of slot pid
    → (p : Process) × (slot ≡ Slot.occupied p) × (p.pid ≡ pid) × (p.state ≡ ProcessState.running)
of_running Slot.empty pid h = absurd (omega arith)
of_running Slot.reserved pid h = absurd (omega arith)
of_running (Slot.zombie parent status) pid h = absurd (omega arith)
of_running (Slot.occupied p) pid h = (p, refl, ground arith, state p.state (ground arith))
  where
    state : (s : ProcessState) → running_bit s ≢ 0 → s ≡ ProcessState.running
    state ProcessState.ready n = absurd (n refl)
    state ProcessState.running n = refl
    state ProcessState.blocked n = absurd (n refl)
    state ProcessState.suspended n = absurd (n refl)

pub running_le_one : (slot : Slot) (pid : Pid) → running_of slot pid ≤ 1
running_le_one Slot.empty pid = omega arith
running_le_one Slot.reserved pid = omega arith
running_le_one (Slot.zombie parent status) pid = omega arith
running_le_one (Slot.occupied p) pid = ground arith

-- What a core runs, once the core has let it go: the process is still in its slot, and no core runs
-- it or any other of that slot.
pub record Stopped (s : Scheduler) (core : ℕ) (pid : Pid) (p : Process) : Type 0 where
  pub consistent : IsConsistent (set_current s core none)
  pub found : Found (set_current s core none) pid p
  pub state : p.state ≡ ProcessState.running
  pub free : (r : Pid) → Pid.index r ≡ Pid.index pid → holders r (set s.current core none) ≡ 0

pub current-Stopped :
    (s : Scheduler) (core : ℕ) (pid : Pid)
    → IsConsistent s
    → current_at s core ≡ some pid
    → (p : Process) × Stopped s core pid p
unfolding set_current
current-Stopped s core pid w cur =
    let (p, slot, own, state) =
      of_running (slot_at s (Pid.index pid)) pid
        (omega (arith, w.held pid, holders-release pid s.current core cur)) in
    let inside : Pid.index pid < max_processes =
      omega (arith, in_table s.processes (Pid.index pid) p slot, w.slots) in
    let (_, _, waiter) = occupant s w (Pid.index pid) p inside slot in
    let clear = release-IsConsistent s core w in
    (
      p,
      record {
        consistent = clear;
        found = record { inside = inside; slot = slot; own = own; waiter = waiter };
        state = state;
        free = λ r e. elim (ℕ_discrete pid r) [
          | yes same ↦
              subst (λ k. holders k (set s.current core none) ≡ 0) same
                (omega (
                  arith,
                  holders-release pid s.current core cur,
                  w.held pid,
                  running_le_one (slot_at s (Pid.index pid)) pid,
                ))
          | no apart ↦
              let other : p.pid ≢ r = λ e'. apart (sym own ∙ e') in
              let nothing : running_of (Slot.occupied p) r ≡ 0 = ground (arith, other) in
              omega (
                arith,
                clear.held r,
                ap (λ k. running_of (slot_at s k) r) e ∙ ap (λ x. running_of x r) slot ∙ nothing,
              )
        ];
      },
    )

pub block_current_process-IsConsistent :
    (s : Scheduler) (core : ℕ) (frame : TrapFrame) (pid : Pid)
    → IsConsistent s
    → current_at s core ≡ some pid
    → IsConsistent (block_current_process s core frame)
unfolding set_current apply_wake_result
block_current_process-IsConsistent s core frame pid w cur =
    let (p, t) = current-Stopped s core pid w cur in
    let b = block_lem s core frame pid p cur t.found.slot in
    subst IsConsistent (sym b) (elim (Option-cases p.pending_wake) [
      | inl e ↦ rw e (
          stay_off_queue (set_current s core none) t.consistent pid p t.found
            (record (blocked_as p frame) { pending_wake = none }) refl (ap ready_bit t.state) t.free
            refl t.found.waiter)
      | inr (result, e) ↦ rw e (
          release_to_queue (set_current s core none) t.consistent pid p t.found
            (apply_wake_result (record (blocked_as p frame) { pending_wake = none }) result) refl
            (ap ready_bit t.state) t.free refl t.found.waiter)
    ])
