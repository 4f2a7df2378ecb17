-- ===== src/Task/Scheduler/Invariant/Wake.antt =====
-- The invariant is kept when a process blocks, is woken, or is started.
use tarn_os.Prelude.{
  ℕ, ◌≤◌, ◌<◌, ◌^◌, ◌≡◌, refl, sym, subst, ap, ap₂, ◌∙◌, true, false, some, ◌==◌, if◌then◌else◌,
  arith, Bool-cases, Option-cases, inl, inr,
}
use tarn_os.Task.Pid
use tarn_os.Task.Pid.{Pid, index-generation-new, new-index-generation}
use tarn_os.Task.Process.{ProcessState, Process, WakeResult, apply_wake_result}
use tarn_os.Task.Scheduler.{
  Slot, Scheduler, max_processes, slot_at, put_slot, generation_at, enqueue, is_stale, occupied_mut,
  is_blocked, wake_blocked_process,
}
use tarn_os.Task.Scheduler.Wakeups.{occupied_mut-some}
use tarn_os.Task.Scheduler.Invariant.{
  holders, ready_of, running_of, ready_slot, ready_bit, running_bit, Named, IsSound, IsConsistent,
}
use tarn_os.Task.Scheduler.Invariant.Put.{keep-IsConsistent, ready-IsConsistent}

pub is_stale-false :
    (s : Scheduler) (pid : Pid)
    → is_stale s pid ≡ false
    → (Pid.index pid < max_processes) × (generation_at s (Pid.index pid) ≡ Pid.generation pid)
is_stale-false s pid h = ground arith

-- The process that a `Pid` names: its slot, and that its own `Pid` is that one.
pub record Found (s : Scheduler) (pid : Pid) (p : Process) : Type 0 where
  pub inside : Pid.index pid < max_processes
  pub slot : slot_at s (Pid.index pid) ≡ Slot.occupied p
  pub own : p.pid ≡ pid
  pub waiter : IsSound p

module _ (s : Scheduler) (w : IsConsistent s) where
  -- The occupant of a slot.
  pub occupant :
      (i : ℕ) (p : Process)
      → i < max_processes
      → slot_at s i ≡ Slot.occupied p
      → (Pid.index p.pid ≡ i) × (Pid.new i (generation_at s i) ≡ p.pid) × IsSound p
  occupant i p inside slot =
      let (name, waiter) = subst (Named i (generation_at s i)) slot (w.named i) in
      (
        ap Pid.index name
            ∙ (index-generation-new i (generation_at s i) (omega arith) (w.small i)).0,
        sym name,
        waiter,
      )

  pub occupied_mut-Found :
      (pid : Pid) (p : Process) → pid < 2 ^ 64 → occupied_mut s pid ≡ some p → Found s pid p
  occupied_mut-Found pid p word e =
      let (fresh, slot) = occupied_mut-some s pid p e in
      let (inside, g) = is_stale-false s pid fresh in
      let (_, name, waiter) = occupant (Pid.index pid) p inside slot in
      record {
        inside = inside;
        slot = slot;
        own = sym name ∙ ap (Pid.new (Pid.index pid)) g ∙ new-index-generation pid word;
        waiter = waiter;
      }

is_blocked-eq : (state : ProcessState) → is_blocked state ≡ true → state ≡ ProcessState.blocked
is_blocked-eq ProcessState.ready e = cc
is_blocked-eq ProcessState.running e = cc
is_blocked-eq ProcessState.blocked e = refl
is_blocked-eq ProcessState.suspended e = cc

not_ready : (p : Process) (r : Pid) → ready_bit p.state ≡ 0 → ready_of (Slot.occupied p) r ≡ 0
not_ready p r h = ground (arith, h)

not_running : (p : Process) (r : Pid) → running_bit p.state ≡ 0 → running_of (Slot.occupied p) r ≡ 0
not_running p r h = ground (arith, h)

module _ (s : Scheduler) (w : IsConsistent s) (pid : Pid) (p : Process) (f : Found s pid p) where
  name_here :
      (q : Process)
      → q.pid ≡ p.pid
      → IsSound q
      → Named (Pid.index pid) (generation_at s (Pid.index pid)) (Slot.occupied q)
  name_here q same waiter = (same ∙ sym (occupant s w (Pid.index pid) p f.inside f.slot).1, waiter)

  -- The process stays as it is for the queue and for the cores.
  pub same_state-IsConsistent :
      (q : Process)
      → q.pid ≡ p.pid
      → q.state ≡ p.state
      → IsSound q
      → IsConsistent (put_slot s (Pid.index pid) (Slot.occupied q))
  same_state-IsConsistent q same state waiter =
      keep-IsConsistent s w (Pid.index pid) f.inside (Slot.occupied q)
        (λ r.
          ap (λ x. ready_of x r) f.slot
          ∙ ap₂ (λ a b. if a == r then ready_bit b else 0) (sym same) (sym state))
        (ap ready_slot f.slot ∙ ap ready_bit (sym state))
        (λ r e.
          subst (λ k. holders r s.current ≤ k)
            (ap (λ k. running_of (slot_at s k) r) e
              ∙ ap (λ x. running_of x r) f.slot
              ∙ ap₂ (λ a b. if a == r then running_bit b else 0) (sym same) (sym state))
            (w.held r))
        (name_here q same waiter)

  -- No core runs a process that is not running.
  pub not_held :
      running_bit p.state ≡ 0 → (r : Pid) → Pid.index r ≡ Pid.index pid → holders r s.current ≡ 0
  not_held still r e = omega (
    arith,
    w.held r,
    ap (λ k. running_of (slot_at s k) r) e
        ∙ ap (λ x. running_of x r) f.slot
        ∙ not_running p r still,
  )

  -- A process that is not ready and that no core runs becomes ready.
  pub release_to_queue :
      (q : Process)
      → q.pid ≡ p.pid
      → ready_bit p.state ≡ 0
      → ((r : Pid) → Pid.index r ≡ Pid.index pid → holders r s.current ≡ 0)
      → q.state ≡ ProcessState.ready
      → IsSound q
      → IsConsistent (enqueue (put_slot s (Pid.index pid) (Slot.occupied q)) pid)
  release_to_queue q same idle free state waiter =
      subst (λ k. IsConsistent (enqueue (put_slot s (Pid.index pid) (Slot.occupied q)) k))
        (same ∙ f.own)
        (ready-IsConsistent s (Pid.index pid) q w f.inside (ap Pid.index (same ∙ f.own)) state
          (λ r. ap (λ x. ready_of x r) f.slot ∙ not_ready p r idle) (ap ready_slot f.slot ∙ idle)
          free (name_here q same waiter))

  -- A process that is not ready and that no core runs stays off the queue.
  pub stay_off_queue :
      (q : Process)
      → q.pid ≡ p.pid
      → ready_bit p.state ≡ 0
      → ((r : Pid) → Pid.index r ≡ Pid.index pid → holders r s.current ≡ 0)
      → ready_bit q.state ≡ 0
      → IsSound q
      → IsConsistent (put_slot s (Pid.index pid) (Slot.occupied q))
  stay_off_queue q same idle free off waiter =
      keep-IsConsistent s w (Pid.index pid) f.inside (Slot.occupied q)
        (λ r. ap (λ x. ready_of x r) f.slot ∙ not_ready p r idle ∙ sym (not_ready q r off))
        (ap ready_slot f.slot ∙ idle ∙ sym off) (λ r e. omega (arith, free r e))
        (name_here q same waiter)

pub wake_blocked_process-IsConsistent :
    (s : Scheduler) (pid : Pid) (result : WakeResult)
    → IsConsistent s
    → pid < 2 ^ 64
    → IsConsistent (wake_blocked_process s pid result)
unfolding wake_blocked_process apply_wake_result
wake_blocked_process-IsConsistent s pid result w word = elim (Option-cases (occupied_mut s pid)) [
  | inl e ↦ rw e w
  | inr (p, e) ↦
      let f = occupied_mut-Found s w pid p word e in
      rw e (elim (Bool-cases (is_blocked p.state)) [
        | inl b ↦
            let state = is_blocked-eq p.state b in
            rw b (
              release_to_queue s w pid p f (apply_wake_result p result) refl (ap ready_bit state)
                (not_held s w pid p f (ap running_bit state)) refl f.waiter)
        | inr b ↦ rw b (
            same_state-IsConsistent s w pid p f (record p { pending_wake = some result }) refl refl
              f.waiter)
      ])
]
