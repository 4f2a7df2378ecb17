-- ===== src/Task/Scheduler/Invariant/Put.antt =====
-- The invariant is kept when one slot changes with what the queue and the cores say of it.
use tarn_os.Prelude.{
  ℕ, ◌+◌, ◌≤◌, ◌<◌, ◌≡◌, ◌≢◌, refl, sym, subst, ap, ◌∙◌, List, [], ◌∷◌, ◌++◌, none, length,
  length-append, length-set, set, get_or-set_self, get_or-set_ne, arith, ℕ_discrete,
}
use tarn_os.Kcore.Ring
use tarn_os.Kcore.Ring.{RingBuffer}
use tarn_os.Kcore.Ring.Refine.{Represents, push_with_room}
use tarn_os.Task.Pid
use tarn_os.Task.Pid.{Pid}
use tarn_os.Task.Process.{ProcessState, Process}
use tarn_os.Task.Scheduler.{
  Slot, Scheduler, max_processes, slot_at, put_slot, generation_at, enqueue, set_current,
}
use tarn_os.Task.Scheduler.Invariant.{
  occurrences, holders, ready_of, running_of, ready_slot, ready_bit, Named, IsConsistent,
}
use tarn_os.Task.Scheduler.Invariant.Counts.{
  occurrences-append, holders-clear, total_ready_lt, total_ready-set,
}

pub put_same :
    (s : Scheduler) (i j : ℕ) (v : Slot)
    → i < length s.processes
    → i ≡ j
    → slot_at (put_slot s i v) j ≡ v
put_same s i j v h e =
    subst (λ k. slot_at (put_slot s i v) k ≡ v) e (get_or-set_self s.processes i v Slot.empty h)

module _ (s : Scheduler) (w : IsConsistent s) (i : ℕ) (inside : i < max_processes) (v : Slot) where
  in_table : i < length s.processes
  in_table = omega (arith, w)

  pub put-IsConsistent :
      (queue : RingBuffer Pid) (ys : List Pid)
      → Represents queue ys
      → queue.capacity ≡ max_processes
      → ((p : Pid) → Pid.index p ≡ i → occurrences p ys ≡ ready_of v p)
      → ((p : Pid) → Pid.index p ≢ i → occurrences p ys ≡ occurrences p w.queue)
      → length ys + ready_slot (slot_at s i) ≡ length w.queue + ready_slot v
      → ((p : Pid) → Pid.index p ≡ i → holders p s.current ≤ running_of v p)
      → Named i (generation_at s i) v
      → IsConsistent (record s { processes = set s.processes i v; ready_queue = queue })
  put-IsConsistent queue ys rep cap here other count run name = record {
    slots = length-set s.processes i v ∙ w.slots;
    counters = w.counters;
    cores = w.cores;
    small = w.small;
    queue = ys;
    represents = rep;
    capacity = cap;
    queued = λ p. elim (ℕ_discrete (Pid.index p) i) [
      | yes e ↦
          here p e ∙ ap (λ x. ready_of x p) (sym (put_same s i (Pid.index p) v in_table (sym e)))
      | no ne ↦
          other p ne
          ∙ w.queued p
          ∙ ap (λ x. ready_of x p)
              (sym (get_or-set_ne s.processes i (Pid.index p) v Slot.empty (λ e. ne (sym e))))
    ];
    counted = omega (arith, count, w.counted, total_ready-set s.processes i v in_table);
    held = λ p. elim (ℕ_discrete (Pid.index p) i) [
      | yes e ↦
          subst (λ x. holders p s.current ≤ running_of x p)
            (sym (put_same s i (Pid.index p) v in_table (sym e))) (run p e)
      | no ne ↦
          subst (λ x. holders p s.current ≤ running_of x p)
            (sym (get_or-set_ne s.processes i (Pid.index p) v Slot.empty (λ e. ne (sym e))))
            (w.held p)
    ];
    named = λ j. elim (ℕ_discrete i j) [
      | yes e ↦
          subst (λ k. Named k (generation_at s k) (slot_at (put_slot s i v) k)) e
            (subst (Named i (generation_at s i)) (sym (put_same s i i v in_table refl)) name)
      | no ne ↦
          subst (Named j (generation_at s j)) (sym (get_or-set_ne s.processes i j v Slot.empty ne))
            (w.named j)
    ];
  }

  -- A slot that is as ready as before.
  pub keep-IsConsistent :
      ((p : Pid) → ready_of (slot_at s i) p ≡ ready_of v p)
      → ready_slot (slot_at s i) ≡ ready_slot v
      → ((p : Pid) → Pid.index p ≡ i → holders p s.current ≤ running_of v p)
      → Named i (generation_at s i) v
      → IsConsistent (put_slot s i v)
  keep-IsConsistent same total run name =
      put-IsConsistent s.ready_queue w.queue w.represents w.capacity
        (λ p e. w.queued p ∙ ap (λ k. ready_of (slot_at s k) p) e ∙ same p) (λ p ne. refl)
        (omega (arith, total)) run name

-- A process that becomes ready, in a slot that held no ready one, goes to the back of the queue.
pub ready-IsConsistent :
    (s : Scheduler) (i : ℕ) (q : Process)
    → IsConsistent s
    → i < max_processes
    → Pid.index q.pid ≡ i
    → q.state ≡ ProcessState.ready
    → ((p : Pid) → ready_of (slot_at s i) p ≡ 0)
    → ready_slot (slot_at s i) ≡ 0
    → ((p : Pid) → Pid.index p ≡ i → holders p s.current ≡ 0)
    → Named i (generation_at s i) (Slot.occupied q)
    → IsConsistent (enqueue (put_slot s i (Slot.occupied q)) q.pid)
ready-IsConsistent s i q w inside at_i is_ready before total free name =
    let bit : ready_bit q.state ≡ 1 = ap ready_bit is_ready in
    let table : i < length s.processes = omega (arith, w.slots) in
    let room : length w.queue ≢ s.ready_queue.capacity = (λ e.
      omega (arith, total_ready_lt s.processes i table total, w.counted, w.slots, w.capacity, e)) in
    let (_, rep, cap) = push_with_room s.ready_queue w.queue q.pid w.represents room in
    put-IsConsistent s w i inside (Slot.occupied q) (Ring.push s.ready_queue q.pid).1
      (w.queue ++ q.pid ∷ []) rep (cap ∙ w.capacity)
      (λ p e.
        let none_yet : occurrences p w.queue ≡ 0 =
          w.queued p ∙ ap (λ k. ready_of (slot_at s k) p) e ∙ before p in
        ground (arith, occurrences-append p w.queue (q.pid ∷ []), none_yet, bit))
      (λ p ne.
        let other : q.pid ≢ p = λ e. ne (ap Pid.index (sym e) ∙ at_i) in
        ground (arith, occurrences-append p w.queue (q.pid ∷ []), other))
      (omega (arith, length-append w.queue (q.pid ∷ []), bit, total))
      (λ p e. omega (arith, free p e)) name

-- A core that stops running leaves the invariant.
pub release-IsConsistent :
    (s : Scheduler) (core : ℕ) → IsConsistent s → IsConsistent (set_current s core none)
unfolding set_current
release-IsConsistent s core w = record {
  slots = w.slots;
  counters = w.counters;
  cores = length-set s.current core none ∙ w.cores;
  small = w.small;
  queue = w.queue;
  represents = w.represents;
  capacity = w.capacity;
  queued = w.queued;
  counted = w.counted;
  held = λ p. omega (arith, w.held p, holders-clear p s.current core);
  named = w.named;
}
