-- ===== src/Task/Scheduler/Wakeups.antt =====
-- kernel/src/task/scheduler.rs: a wake and the block that it answers, in either order.
use tarn_os.Prelude.{
  ℕ, zero, suc, ◌<◌, ◌≡◌, refl, sym, ap, ◌∙◌, false, List, [], ◌∷◌, Option, none, some, arith,
  length, set, get_or, get_or-set_self, set-set, Bool-cases, inl, inr,
}
use tarn_os.Task.Pid
use tarn_os.Task.Pid.{Pid}
use tarn_os.Task.Process.{TrapFrame, WakeResult, Process, apply_wake_result}
use tarn_os.Task.Scheduler.{
  Slot, occupied, empty, Scheduler, slot_at, is_stale, process_in, occupied_mut, current_at,
  is_blocked, enqueue, put_slot, settle, set_current, blocked_as, woken, wake_blocked_process,
  block_current_process,
}

process_in-some : (slot : Slot) (p : Process) → process_in slot ≡ some p → slot ≡ occupied p
process_in-some Slot.empty p e = cc
process_in-some Slot.reserved p e = cc
process_in-some (Slot.occupied q) p e = cc e
process_in-some (Slot.zombie q status) p e = cc

-- A process stands inside the table.
pub in_table :
    (xs : List Slot) (i : ℕ) (p : Process) → get_or xs i empty ≡ occupied p → i < length xs
in_table [] i p e = cc
in_table (x ∷ xs) zero p e = omega arith
in_table (x ∷ xs) (suc i) p e = omega (arith, in_table xs i p e)

-- A process that a `Pid` names is in the slot of its index, and the `Pid` is not stale.
pub occupied_mut-some :
    (s : Scheduler) (pid : Pid) (p : Process)
    → occupied_mut s pid ≡ some p
    → (is_stale s pid ≡ false) × (slot_at s (Pid.index pid) ≡ occupied p)
unfolding occupied_mut
occupied_mut-some s pid p e = elim (Bool-cases (is_stale s pid)) [
  | inl stale ↦ let bad : none ≡ some p = rw stale at e in cc bad
  | inr fresh ↦
      let found : process_in (slot_at s (Pid.index pid)) ≡ some p = rw fresh at e in
      (fresh, process_in-some (slot_at s (Pid.index pid)) p found)
]

-- A block of the process that the core runs.
pub block_lem :
    (s : Scheduler) (core : ℕ) (frame : TrapFrame) (pid : Pid) (p : Process)
    → current_at s core ≡ some pid
    → slot_at s (Pid.index pid) ≡ occupied p
    → block_current_process s core frame
      ≡ set_current (settle s pid (blocked_as p frame) p.pending_wake) core none
unfolding block_current_process
block_lem s core frame pid p cur slot = rw (cur, slot) refl

wake_lem :
    (s : Scheduler) (pid : Pid) (p : Process) (result : WakeResult)
    → occupied_mut s pid ≡ some p
    → wake_blocked_process s pid result ≡ woken s pid result p
unfolding wake_blocked_process
wake_lem s pid p result e = rw e refl

occupied_mut-put_slot :
    (s : Scheduler) (pid : Pid) (p q : Process)
    → occupied_mut s pid ≡ some p
    → occupied_mut (put_slot s (Pid.index pid) (occupied q)) pid ≡ some q
unfolding occupied_mut
occupied_mut-put_slot s pid p q e =
    let (fresh, slot) = occupied_mut-some s pid p e in
    rw
      (
        fresh,
        get_or-set_self s.processes (Pid.index pid) (occupied q) empty
            (in_table s.processes (Pid.index pid) p slot),
      )
      refl

early :
    (s : Scheduler) (core : ℕ) (frame : TrapFrame) (pid : Pid) (p : Process) (result : WakeResult)
    → current_at s core ≡ some pid
    → occupied_mut s pid ≡ some p
    → is_blocked p.state ≡ false
    → block_current_process (wake_blocked_process s pid result) core frame
      ≡ set_current
          (settle
            (put_slot s (Pid.index pid) (occupied (record p { pending_wake = some result })))
            pid
            (blocked_as (record p { pending_wake = some result }) frame)
            (some result))
          core
          none
early s core frame pid p result cur e running =
    let (fresh, slot) = occupied_mut-some s pid p e in
    let q = record p { pending_wake = some result } in
    let t = put_slot s (Pid.index pid) (occupied q) in
    let w : wake_blocked_process s pid result ≡ t = rw (wake_lem s pid p result e, running) refl in
    rw w (
      block_lem t core frame pid q cur (
        get_or-set_self s.processes (Pid.index pid) (occupied q) empty
          (in_table s.processes (Pid.index pid) p slot)))

late :
    (s : Scheduler) (core : ℕ) (frame : TrapFrame) (pid : Pid) (p : Process) (result : WakeResult)
    → current_at s core ≡ some pid
    → occupied_mut s pid ≡ some p
    → p.pending_wake ≡ none
    → wake_blocked_process (block_current_process s core frame) pid result
      ≡ woken
          (set_current (put_slot s (Pid.index pid) (occupied (blocked_as p frame))) core none)
          pid
          result
          (blocked_as p frame)
unfolding set_current occupied_mut
late s core frame pid p result cur e idle =
    let (fresh, slot) = occupied_mut-some s pid p e in
    let t = set_current (put_slot s (Pid.index pid) (occupied (blocked_as p frame))) core none in
    let b : block_current_process s core frame ≡ t =
      block_lem s core frame pid p cur slot ∙ rw idle refl in
    rw b (
      wake_lem t pid (blocked_as p frame) result
        (occupied_mut-put_slot s pid p (blocked_as p frame) e))

-- A wake is never lost. For the process that a core runs, with no wake pending, a wake that comes
-- before the process blocks and one that comes after leave the scheduler in the same state.
pub wake_before_block :
    (s : Scheduler) (core : ℕ) (frame : TrapFrame) (pid : Pid) (p : Process) (result : WakeResult)
    → current_at s core ≡ some pid
    → occupied_mut s pid ≡ some p
    → is_blocked p.state ≡ false
    → p.pending_wake ≡ none
    → block_current_process (wake_blocked_process s pid result) core frame
      ≡ wake_blocked_process (block_current_process s core frame) pid result
unfolding set_current apply_wake_result
wake_before_block s core frame pid p result cur e running idle =
    early s core frame pid p result cur e running
    ∙ ap ending
        (set-set s.processes i (occupied (record p { pending_wake = some result })) (done none))
    ∙ ap (λ w. ending (set s.processes i (done w))) (sym idle)
    ∙ ap ending (sym (set-set s.processes i (occupied (blocked_as p frame)) (done p.pending_wake)))
    ∙ sym (late s core frame pid p result cur e idle)
  where
    i : ℕ
    i = Pid.index pid

    done : Option WakeResult → Slot
    done w = occupied (apply_wake_result (record (blocked_as p frame) { pending_wake = w }) result)

    ending : List Slot → Scheduler
    ending xs = enqueue (set_current (record s { processes = xs }) core none) pid
