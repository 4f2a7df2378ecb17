-- ===== src/Task/Scheduler/Invariant/Front.antt =====
-- The process at the front of the queue is taken by a core; an assertion fails only on its saved frame.
use tarn_os.Prelude.{
  ℕ, zero, suc, ◌+◌, ◌≤◌, ◌<◌, ◌≡◌, ◌≢◌, refl, sym, subst, ap, ◌∙◌, true, false, not, ◌&&◌, ◌||◌,
  List, ◌∷◌, none, some, ◌==◌, ==_iff, ==_ne, ==_refl, arith, Option-cases, inl, inr, Bool,
  Bool-cases, false, ◌⊎◌, length, length-set, set, get_or-set_ne, ℕ_discrete,
}
use tarn_os.Kcore.Ring
use tarn_os.Kcore.Ring.{RingBuffer}
use tarn_os.Kcore.Ring.Refine.{Represents, pop_front}
use tarn_os.Task.Pid
use tarn_os.Task.Pid.{Pid, index-generation-new}
use tarn_os.Task.Process.{ProcessState, Process}
use tarn_os.Task.Scheduler.{
  Slot, Scheduler, max_processes, max_cores, slot_at, put_slot, generation_at, is_stale, is_pid,
  current_at, set_current,
}
use tarn_os.Task.Scheduler.Wakeups.{in_table}
use tarn_os.Task.Scheduler.Dispatch.{
  Selectors, resumes, panics, running_elsewhere, is_user_frame, switch_to,
}
use tarn_os.Task.Scheduler.Invariant.{
  occurrences, holders, ready_of, running_of, ready_slot, ready_bit, running_bit, IsConsistent,
}
use tarn_os.Task.Scheduler.Invariant.Counts.{holders-take, holders-positive}
use tarn_os.Task.Scheduler.Invariant.Put.{put_same, put-IsConsistent}
use tarn_os.Task.Scheduler.Invariant.Wake.{Found, occupant, not_held}

-- A slot that counts for `pid` as ready holds the process of that name.
of_ready :
    (slot : Slot) (pid : Pid)
    → 0 < ready_of slot pid
    → (p : Process) × (slot ≡ Slot.occupied p) × (p.pid ≡ pid) × (p.state ≡ ProcessState.ready)
of_ready Slot.empty pid h = absurd (omega arith)
of_ready Slot.reserved pid h = absurd (omega arith)
of_ready (Slot.zombie parent status) pid h = absurd (omega arith)
of_ready (Slot.occupied p) pid h = (p, refl, ground arith, state p.state (ground arith))
  where
    state : (s : ProcessState) → ready_bit s ≢ 0 → s ≡ ProcessState.ready
    state ProcessState.ready n = refl
    state ProcessState.running n = absurd (n refl)
    state ProcessState.blocked n = absurd (n refl)
    state ProcessState.suspended n = absurd (n refl)

-- A process that no core but `core` runs passes the test on the other cores.
not_elsewhere :
    (rounds other : ℕ) (s : Scheduler) (core : ℕ) (pid : Pid)
    → holders pid (set s.current core none) ≡ 0
    → running_elsewhere rounds other s core pid ≡ false
unfolding running_elsewhere
not_elsewhere zero other s core pid h = refl
not_elsewhere (suc rounds) other s core pid h =
    rw (not_elsewhere rounds (other + 1) s core pid h)
      (here (ℕ_discrete other core) (Option-cases (current_at s other)))
  where
    here :
        Dec (other ≡ core)
        → (current_at s other ≡ none) ⊎ ((q : Pid) × (current_at s other ≡ some q))
        → (not (other == core) && is_pid pid (current_at s other) || false) ≡ false
    here (yes e) c = rw ((==_iff other core).1 e) refl
    here (no ne) (inl e) = rw (==_ne other core ne, e) refl
    here (no ne) (inr (q, e)) =
        let apart : q ≢ pid = (λ same. omega (
          arith,
          h,
          holders-positive pid (set s.current core none) other
              (get_or-set_ne s.current core other none none (λ k. ne (sym k)) ∙ e ∙ ap some same),
        )) in
        rw (==_ne other core ne, e, ==_ne q pid apart) refl

-- Whether the frame that the process of a slot has saved passes the assertions of `switch_to`.
abbrev pub slot_passes : Selectors → Slot → Bool
slot_passes sel Slot.empty = true
slot_passes sel Slot.reserved = true
slot_passes sel (Slot.zombie parent status) = true
slot_passes sel (Slot.occupied p) = is_user_frame sel p.trap_frame

pub switch_to-bad :
    (sel : Selectors) (s : Scheduler) (core : ℕ) (pid : Pid) (p : Process)
    → slot_at s (Pid.index pid) ≡ Slot.occupied p
    → is_user_frame sel p.trap_frame ≡ false
    → switch_to sel s core pid ≡ panics
unfolding switch_to set_current
switch_to-bad sel s core pid p slot bad =
    elim (Bool-cases
      (running_elsewhere max_cores 0 s core pid || is_stale (set_current s core (some pid)) pid)) [
        | inl e ↦ rw e refl
        | inr e ↦ elim (Bool-cases (p.pid == pid)) [
          | inl own ↦ rw (e, slot, own, bad) refl
          | inr other ↦ rw (e, slot, other) refl
        ]
      ]

-- A core takes a running process that no core holds.
hold-IsConsistent :
    (s : Scheduler) (core : ℕ) (pid : Pid)
    → IsConsistent (set_current s core none)
    → holders pid (set s.current core none) ≡ 0
    → running_of (slot_at s (Pid.index pid)) pid ≡ 1
    → IsConsistent (set_current s core (some pid))
unfolding set_current
hold-IsConsistent s core pid w free runs = record {
  slots = w.slots;
  counters = w.counters;
  cores = length-set s.current core (some pid) ∙ sym (length-set s.current core none) ∙ w.cores;
  small = w.small;
  queue = w.queue;
  represents = w.represents;
  capacity = w.capacity;
  queued = w.queued;
  counted = w.counted;
  held = λ p. elim (ℕ_discrete pid p) [
    | yes e ↦
        subst
          (λ k. holders k (set s.current core (some pid)) ≤ running_of (slot_at s (Pid.index k)) k)
          e (ground (arith, holders-take pid pid s.current core, free, runs))
    | no ne ↦ ground (arith, holders-take p pid s.current core, w.held p, ne)
  ];
  named = w.named;
}

module _ (t : Scheduler) (core : ℕ) (w : IsConsistent (set_current t core none)) (pid : Pid)
    (rest : List Pid) (front : w.queue ≡ pid ∷ rest) where
  -- The process at the front of the queue.
  pub record Front : Type 0 where
    pub p : Process
    pub found : Found (set_current t core none) pid p
    pub state : p.state ≡ ProcessState.ready
    pub name : Pid.new (Pid.index pid) (generation_at t (Pid.index pid)) ≡ p.pid
    pub gen : generation_at t (Pid.index pid) ≡ Pid.generation pid

  pub the_front : Front
  unfolding set_current
  the_front =
      let one : 0 < ready_of (slot_at t (Pid.index pid)) pid =
        ground (arith, ==_refl pid, ap (occurrences pid) front, w.queued pid) in
      let (p, slot, own, state) = of_ready (slot_at t (Pid.index pid)) pid one in
      let inside : Pid.index pid < max_processes =
        omega (arith, in_table t.processes (Pid.index pid) p slot, w.slots) in
      let (_, name, waiter) = occupant (set_current t core none) w (Pid.index pid) p inside slot in
      record {
        p = p;
        found = record { inside = inside; slot = slot; own = own; waiter = waiter };
        state = state;
        name = name;
        gen =
            sym
              (index-generation-new (Pid.index pid) (generation_at t (Pid.index pid)) (omega arith)
                (w.small (Pid.index pid))).1
            ∙ ap Pid.generation (name ∙ own);
      }

  abbrev next : Scheduler
  next = record t { ready_queue = (Ring.pop t.ready_queue).1 }

  -- The process that was at the front is running, and `core` holds nothing yet.
  started-IsConsistent :
      (f : Front)
      → IsConsistent (
          set_current
            (put_slot next
              (Pid.index pid)
              (Slot.occupied (record f.p { state = ProcessState.running })))
            core
            none)
  unfolding set_current
  started-IsConsistent f =
      let i = Pid.index pid in
      let v = Slot.occupied (record f.p { state = ProcessState.running }) in
      let (_, rep, cap, _) =
        pop_front t.ready_queue pid rest (subst (Represents t.ready_queue) front w.represents) in
      let one : occurrences pid w.queue ≡ 1 =
        w.queued pid
        ∙ ap (λ x. ready_of x pid) f.found.slot
        ∙ ground (arith, ==_refl pid, f.found.own, ap ready_bit f.state) in
      put-IsConsistent (set_current t core none) w i f.found.inside v (Ring.pop t.ready_queue).1
        rest rep (cap ∙ w.capacity)
        (λ r e.
          let was =
            w.queued r
            ∙ ap (λ k. ready_of (slot_at t k) r) e
            ∙ ap (λ x. ready_of x r) f.found.slot in
          ground (arith, ap (occurrences r) front, was, f.found.own, ap ready_bit f.state))
        (λ r ne.
          let apart : pid ≢ r = λ e. ne (ap Pid.index (sym e)) in
          ground (arith, ap (occurrences r) front, apart))
        (omega (arith, ap length front, ap ready_slot f.found.slot, ap ready_bit f.state))
        (λ r e. omega (
          arith,
          not_held (set_current t core none) w pid f.p f.found (ap running_bit f.state) r e,
        ))
        (sym f.name, f.found.waiter)

  -- The core now runs it.
  pub taken-IsConsistent :
      (f : Front)
      → IsConsistent (
          set_current
            (put_slot next
              (Pid.index pid)
              (Slot.occupied (record f.p { state = ProcessState.running })))
            core
            (some pid))
  unfolding set_current
  taken-IsConsistent f =
      let i = Pid.index pid in
      let running = Slot.occupied (record f.p { state = ProcessState.running }) in
      let runs : running_of running pid ≡ 1 = ground (arith, ==_refl pid, f.found.own) in
      hold-IsConsistent (put_slot next i running) core pid (started-IsConsistent f)
        (not_held (set_current t core none) w pid f.p f.found (ap running_bit f.state) pid refl)
        (ap (λ x. running_of x pid)
            (put_same t i i running (in_table t.processes i f.p f.found.slot) refl)
          ∙ runs)

  -- What the core runs then.
  abbrev pub taken : Process → Scheduler
  taken p =
      set_current
        (put_slot next (Pid.index pid) (Slot.occupied (record p { state = ProcessState.running })))
        core (some pid)

  pub switch_to_front :
      (sel : Selectors)
      → is_user_frame sel the_front.p.trap_frame ≡ true
      → switch_to sel next core pid ≡ resumes the_front.p.trap_frame (taken the_front.p)
  unfolding switch_to set_current
  switch_to_front sel pass =
      let f = the_front in
      let alone =
        not_elsewhere max_cores 0 next core pid (
          not_held (set_current t core none) w pid f.p f.found (ap running_bit f.state) pid refl) in
      let fresh : is_stale (set_current next core (some pid)) pid ≡ false =
        ground (arith, f.found.inside, f.gen) in
      rw (alone, fresh, f.found.slot, (==_iff f.p.pid pid).1 f.found.own, pass) refl
