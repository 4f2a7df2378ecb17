-- ===== src/Task/Scheduler/Invariant/Clear.antt =====
-- The invariant is kept when a process is taken off the queue, the cores and the table.
use tarn_os.Prelude.{
  ℕ, zero, suc, ◌+◌, ◌≤◌, ◌<◌, ◌≡◌, ◌≢◌, refl, sym, subst, ap, ◌∙◌, false, List, [], ◌∷◌, Option,
  none, some, ==_ne, ==_refl, arith, Bool-cases, ◌⊎◌, inl, inr, length, set, get_or, get_or-set_ne,
  ℕ_discrete,
}
use tarn_os.Kcore.Ring.{RingBuffer}
use tarn_os.Task.Pid
use tarn_os.Task.Pid.{Pid, index-generation-new}
use tarn_os.Task.Process.{Process}
use tarn_os.Task.Scheduler.{
  Slot, Scheduler, max_processes, max_cores, slot_at, is_pid, current_at, set_current,
}
use tarn_os.Task.Scheduler.Termination.{remove_from_ready_queue, clear_current, vacated}
use tarn_os.Task.Scheduler.Queue.{
  without, remove_from_ready_queue-capacity, remove_from_ready_queue-Represents,
}
use tarn_os.Task.Scheduler.Invariant.{
  occurrences, holders, ready_of, running_of, ready_slot, IsConsistent,
}
use tarn_os.Task.Scheduler.Invariant.Counts.{occurrences-without, length-without}
use tarn_os.Task.Scheduler.Invariant.Put.{put-IsConsistent, release-IsConsistent}

clear_current-IsConsistent :
    (s : Scheduler) (rounds core : ℕ) (pid : Pid)
    → IsConsistent s
    → IsConsistent (clear_current s rounds core pid)
unfolding clear_current
clear_current-IsConsistent s zero core pid w = w
clear_current-IsConsistent s (suc rounds) core pid w =
    elim (Bool-cases (is_pid pid (current_at s core))) [
      | inl e ↦ rw e (
          clear_current-IsConsistent (set_current s core none) rounds (core + 1) pid
            (release-IsConsistent s core w))
      | inr e ↦ rw e (clear_current-IsConsistent s rounds (core + 1) pid w)
    ]

module _ (s : Scheduler) (rounds core : ℕ) (pid : Pid) where
  clear_current_hit :
      current_at s core ≡ some pid
      → clear_current s (suc rounds) core pid
        ≡ clear_current (set_current s core none) rounds (core + 1) pid
  unfolding clear_current
  clear_current_hit e = rw (e, ==_refl pid) refl

  clear_current_miss :
      is_pid pid (current_at s core) ≡ false
      → clear_current s (suc rounds) core pid ≡ clear_current s rounds (core + 1) pid
  unfolding clear_current
  clear_current_miss e = rw e refl

pub hit_or_miss :
    (pid : Pid) (o : Option Pid) → (o ≡ some pid) ⊎ ((is_pid pid o ≡ false) × (o ≢ some pid))
hit_or_miss pid none = inr (refl, cc)
hit_or_miss pid (some q) = elim (ℕ_discrete q pid) [
  | yes e ↦ inl (ap some e)
  | no ne ↦ inr (==_ne q pid ne, λ e. ne (cc e))
]

-- The loop changes nothing but what the cores run.
clear_current-record :
    (s : Scheduler) (rounds core : ℕ) (pid : Pid) (xs : List Slot) (queue : RingBuffer Pid)
    → clear_current (record s { processes = xs; ready_queue = queue }) rounds core pid
      ≡ record (clear_current s rounds core pid) { processes = xs; ready_queue = queue }
unfolding clear_current set_current
clear_current-record s zero core pid xs queue = refl
clear_current-record s (suc rounds) core pid xs queue =
    let with_table : Scheduler → Scheduler =
      λ t. record t { processes = xs; ready_queue = queue } in
    elim (hit_or_miss pid (current_at s core)) [
      | inl e ↦
          clear_current_hit (with_table s) rounds core pid e
          ∙ clear_current-record (set_current s core none) rounds (core + 1) pid xs queue
          ∙ ap with_table (sym (clear_current_hit s rounds core pid e))
      | inr (e, _) ↦
          clear_current_miss (with_table s) rounds core pid e
          ∙ clear_current-record s rounds (core + 1) pid xs queue
          ∙ ap with_table (sym (clear_current_miss s rounds core pid e))
    ]

clear_current-before :
    (s : Scheduler) (rounds core k : ℕ) (pid : Pid)
    → k < core
    → current_at (clear_current s rounds core pid) k ≡ current_at s k
unfolding clear_current set_current
clear_current-before s zero core k pid h = refl
clear_current-before s (suc rounds) core k pid h = elim (hit_or_miss pid (current_at s core)) [
  | inl e ↦
      ap (λ t. current_at t k) (clear_current_hit s rounds core pid e)
      ∙ clear_current-before (set_current s core none) rounds (core + 1) k pid (omega arith)
      ∙ get_or-set_ne s.current core k none none (omega arith)
  | inr (e, _) ↦
      ap (λ t. current_at t k) (clear_current_miss s rounds core pid e)
      ∙ clear_current-before s rounds (core + 1) k pid (omega arith)
]

emptied : (xs : List (Option Pid)) (i : ℕ) → get_or (set xs i none) i none ≡ none
emptied [] i = refl
emptied (x ∷ xs) zero = refl
emptied (x ∷ xs) (suc i) = emptied xs i

-- One round of the loop, which leaves `t`, and the rounds after it.
from_here :
    (s t : Scheduler) (rounds core k : ℕ) (pid : Pid)
    → clear_current s (suc rounds) core pid ≡ clear_current t rounds (core + 1) pid
    → current_at t core ≢ some pid
    → core ≤ k
    → (core + 1 ≤ k → current_at (clear_current t rounds (core + 1) pid) k ≢ some pid)
    → current_at (clear_current s (suc rounds) core pid) k ≢ some pid
from_here s t rounds core k pid e ne low after bad =
    let moved = ap (λ x. current_at x k) (sym e) ∙ bad in
    elim (ℕ_discrete core k) [
      | yes same ↦ ne (
          ap (current_at t) same
          ∙ sym (clear_current-before t rounds (core + 1) k pid (omega arith))
          ∙ moved)
      | no apart ↦ after (omega arith) moved
    ]

-- No core that the loop went over runs `pid`.
cleared :
    (s : Scheduler) (rounds core k : ℕ) (pid : Pid)
    → core ≤ k
    → k < core + rounds
    → current_at (clear_current s rounds core pid) k ≢ some pid
unfolding set_current
cleared s zero core k pid low high = absurd (omega arith)
cleared s (suc rounds) core k pid low high = elim (hit_or_miss pid (current_at s core)) [
  | inl e ↦
      from_here s (set_current s core none) rounds core k pid
        (clear_current_hit s rounds core pid e)
        (λ bad.
          let none_left : none ≡ some pid = sym (emptied s.current core) ∙ bad in cc none_left)
        low (λ l. cleared (set_current s core none) rounds (core + 1) k pid l (omega arith))
  | inr (e, ne) ↦
      from_here s s rounds core k pid (clear_current_miss s rounds core pid e) ne low
        (λ l. cleared s rounds (core + 1) k pid l (omega arith))
]

-- A list in which no place names `p`.
pub holders-none :
    (p : Pid) (cores : List (Option Pid))
    → ((k : ℕ) → k < length cores → get_or cores k none ≢ some p)
    → holders p cores ≡ 0
holders-none p [] h = refl
holders-none p (none ∷ cores) h = holders-none p cores (λ k l. h (suc k) (omega arith))
holders-none p (some q ∷ cores) h =
    let apart : q ≢ p = λ e. h 0 (omega arith) (ap some e) in
    ground (arith, apart, holders-none p cores (λ k l. h (suc k) (omega arith)))

module _ (s : Scheduler) (pid : Pid) (p : Process) (w : IsConsistent s)
    (inside : Pid.index pid < max_processes) (slot : slot_at s (Pid.index pid) ≡ Slot.occupied p)
    (own : p.pid ≡ pid) where
  abbrev quiet : Scheduler
  quiet = record (clear_current s max_cores 0 pid) {
    processes = s.processes;
    ready_queue = s.ready_queue;
  }

  quiet-IsConsistent : IsConsistent quiet
  quiet-IsConsistent =
      subst IsConsistent (clear_current-record s max_cores 0 pid s.processes s.ready_queue)
        (clear_current-IsConsistent s max_cores 0 pid w)

  gone : holders pid quiet.current ≡ 0
  gone =
      holders-none pid quiet.current
        (λ k h. cleared s max_cores 0 k pid (omega arith) (omega (arith, quiet-IsConsistent.cores)))

  pub vacated-IsConsistent : IsConsistent (vacated s pid)
  unfolding remove_from_ready_queue
  vacated-IsConsistent =
      let i = Pid.index pid in
      let c = quiet-IsConsistent in
      let queue = (remove_from_ready_queue s pid).ready_queue in
      let here : (r : Pid)
          → Pid.index r ≡ i
          → (occurrences r c.queue ≡ ready_of (Slot.occupied p) r)
            × (holders r quiet.current ≤ running_of (Slot.occupied p) r) =
        λ r e. (
          c.queued r ∙ ap (λ k. ready_of (slot_at s k) r) e ∙ ap (λ x. ready_of x r) slot,
          subst (λ k. holders r quiet.current ≤ k)
              (ap (λ k. running_of (slot_at s k) r) e ∙ ap (λ x. running_of x r) slot) (c.held r),
        ) in
      subst IsConsistent
        (sym (clear_current-record s max_cores 0 pid (set s.processes i Slot.empty) queue))
        (put-IsConsistent quiet c i inside Slot.empty queue (without pid c.queue)
          (remove_from_ready_queue-Represents s c.queue pid c.represents c.capacity)
          (remove_from_ready_queue-capacity s pid)
          (λ r e. ground (arith, occurrences-without r pid c.queue, (here r e).0, own))
          (λ r ne.
            let apart : pid ≢ r = λ e. ne (ap Pid.index (sym e)) in
            ground (arith, occurrences-without r pid c.queue, apart))
          (ground (arith, length-without pid c.queue, (here pid refl).0, own, ap ready_slot slot))
          (λ r e. elim (ℕ_discrete pid r) [
            | yes same ↦ subst (λ k. holders k quiet.current ≤ 0) same (omega (arith, gone))
            | no apart ↦ ground (arith, (here r e).1, own, apart)
          ])
          tt)
