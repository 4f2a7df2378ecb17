-- ===== src/Task/Scheduler/Ends.antt =====
-- kernel/src/task/scheduler.rs: the processes in the table, counted, and the steps that lose none.
use tarn_os.Prelude.{
  ℕ, zero, suc, ◌+◌, ◌≤◌, ◌≡◌, refl, sym, ap, ◌==◌, List, [], ◌∷◌, length, set, get_or, Bool-cases,
  Option-cases, inl, inr, Option, none, some, arith,
}
use tarn_os.Abi.Status.{ExitStatus}
use tarn_os.Task.Pid
use tarn_os.Task.Pid.{Pid}
use tarn_os.Task.Process.{WakeResult, wait_completed, Process, apply_wake_result}
use tarn_os.Task.Scheduler.{
  Slot, empty, occupied, zombie, Scheduler, slot_at, put_slot, is_pid, process_in,
  wake_blocked_process, occupied_mut, is_blocked, set_current, current_at, enqueue,
}
use tarn_os.Task.Scheduler.Termination.{
  remove_from_ready_queue, clear_current, swept, resolve, vacated,
}
use tarn_os.Task.Scheduler.Wakeups.{occupied_mut-some}

abbrev pub weight : Slot → ℕ
weight Slot.empty = 0
weight Slot.reserved = 0
weight (Slot.occupied p) = 1
weight (Slot.zombie parent status) = 0

-- How many slots of a table hold a process.
unfoldable pub count_occupied : List Slot → ℕ
count_occupied [] = 0
count_occupied (slot ∷ slots) = weight slot + count_occupied slots

count_occupied-set :
    (xs : List Slot) (i : ℕ) (v : Slot)
    → weight v ≡ weight (get_or xs i empty)
    → count_occupied (set xs i v) ≡ count_occupied xs
unfolding count_occupied
count_occupied-set [] i v e = refl
count_occupied-set (x ∷ xs) zero v e = omega (arith, e)
count_occupied-set (x ∷ xs) (suc i) v e = ap (λ k. weight x + k) (count_occupied-set xs i v e)

pub count_occupied-vacate :
    (xs : List Slot) (i : ℕ) (p : Process)
    → process_in (get_or xs i empty) ≡ some p
    → suc (count_occupied (set xs i empty)) ≡ count_occupied xs
unfolding count_occupied
count_occupied-vacate [] i p e = cc
count_occupied-vacate (Slot.empty ∷ xs) zero p e = cc
count_occupied-vacate (Slot.reserved ∷ xs) zero p e = cc
count_occupied-vacate (Slot.zombie q status ∷ xs) zero p e = cc
count_occupied-vacate (Slot.occupied q ∷ xs) zero p e = omega arith
count_occupied-vacate (x ∷ xs) (suc i) p e = omega (arith, count_occupied-vacate xs i p e)

pub weight-set_le :
    (xs : List Slot) (i k : ℕ) (v : Slot)
    → weight v ≤ weight (get_or xs i empty)
    → weight (get_or (set xs i v) k empty) ≤ weight (get_or xs k empty)
weight-set_le [] i k v h = omega arith
weight-set_le (x ∷ xs) zero zero v h = h
weight-set_le (x ∷ xs) zero (suc k) v h = omega arith
weight-set_le (x ∷ xs) (suc i) zero v h = omega arith
weight-set_le (x ∷ xs) (suc i) (suc k) v h = weight-set_le xs i k v h

pub weight-set_empty : (xs : List Slot) (i : ℕ) → weight (get_or (set xs i empty) i empty) ≡ 0
weight-set_empty [] i = refl
weight-set_empty (x ∷ xs) zero = refl
weight-set_empty (x ∷ xs) (suc i) = weight-set_empty xs i

-- From the table `s` with `drops` taken out, to `t` with `more`: no process appears or is lost.
pub record Ends (s : Scheduler) (drops : List Process) (t : Scheduler) (more : List Process)
    : Type 0 where
  pub kept : count_occupied t.processes + length more ≡ count_occupied s.processes + length drops
  pub fewer : count_occupied t.processes ≤ count_occupied s.processes
  pub none_new : (k : ℕ) → weight (slot_at t k) ≤ weight (slot_at s k)

pub Ends-trans :
    {s t u : Scheduler} {a b c : List Process} → Ends s a t b → Ends t b u c → Ends s a u c
Ends-trans x y = record {
  kept = omega (arith, x.kept, y.kept);
  fewer = omega (arith, x.fewer, y.fewer);
  none_new = λ k. omega (arith, x.none_new k, y.none_new k);
}

pub Ends-refl : (s : Scheduler) (drops : List Process) → Ends s drops s drops
Ends-refl s drops = record { kept = refl; fewer = omega arith; none_new = λ k. omega arith }

-- A slot replaced by one as full.
pub Ends-put :
    (s : Scheduler) (i : ℕ) (slot : Slot) (drops : List Process)
    → weight slot ≡ weight (slot_at s i)
    → Ends s drops (put_slot s i slot) drops
Ends-put s i slot drops e = record {
  kept = ap (λ k. k + length drops) (count_occupied-set s.processes i slot e);
  fewer = omega (arith, count_occupied-set s.processes i slot e);
  none_new = λ k. weight-set_le s.processes i k slot (omega (arith, e));
}

Ends-processes :
    (s t : Scheduler) (drops : List Process) → t.processes ≡ s.processes → Ends s drops t drops
Ends-processes s t drops e = record {
  kept = ap (λ xs. count_occupied xs + length drops) e;
  fewer = omega (arith, ap count_occupied e);
  none_new = λ k. omega (arith, ap (λ xs. weight (get_or xs k empty)) e);
}

clear_current-processes :
    (rounds core : ℕ) (s : Scheduler) (pid : Pid)
    → (clear_current s rounds core pid).processes ≡ s.processes
unfolding clear_current set_current
clear_current-processes zero core s pid = refl
clear_current-processes (suc rounds) core s pid =
    elim (Bool-cases (is_pid pid (current_at s core))) [
      | inl e ↦
          rw (e, clear_current)
            (clear_current-processes rounds (core + 1) (set_current s core none) pid)
      | inr e ↦ rw (e, clear_current) (clear_current-processes rounds (core + 1) s pid)
    ]

pub vacated-processes :
    (s : Scheduler) (pid : Pid) → (vacated s pid).processes ≡ set s.processes (Pid.index pid) empty
unfolding remove_from_ready_queue
vacated-processes s pid =
    clear_current-processes 8 0 (remove_from_ready_queue (put_slot s (Pid.index pid) empty) pid) pid

Ends-wake :
    (s : Scheduler) (pid : Pid) (result : WakeResult) (drops : List Process)
    → Ends s drops (wake_blocked_process s pid result) drops
unfolding wake_blocked_process
Ends-wake s pid result drops = elim (Option-cases (occupied_mut s pid)) [
  | inl e ↦ rw e (Ends-refl s drops)
  | inr (p, e) ↦
      let (_, slot) = occupied_mut-some s pid p e in
      let i = Pid.index pid in
      let same : 1 ≡ weight (slot_at s i) = ap weight (sym slot) in
      let put = λ (q : Process). Ends-put s i (occupied q) drops same in
      rw e (elim (Bool-cases (is_blocked p.state)) [
        | inl b ↦
            let q = apply_wake_result p result in
            rw b (
              Ends-trans (put q) (
                Ends-processes (put_slot s i (occupied q)) (enqueue (put_slot s i (occupied q)) pid)
                  drops refl))
        | inr b ↦ rw b (put (record p { pending_wake = some result }))
      ])
]

pub weight-occupied_slot : (slot : Slot) → weight slot ≡ 0 → process_in slot ≡ none
weight-occupied_slot Slot.empty e = refl
weight-occupied_slot Slot.reserved e = refl
weight-occupied_slot (Slot.occupied p) e = absurd (omega (arith, e))
weight-occupied_slot (Slot.zombie p status) e = refl

pub Ends-resolve :
    (s : Scheduler) (pid : Pid) (status : ExitStatus) (waiter parent : Option Pid)
    (drops : List Process)
    → weight (slot_at s (Pid.index pid)) ≡ 0
    → Ends s drops (resolve s pid status waiter parent) drops
Ends-resolve s pid status (some w) parent drops e = Ends-wake s w (wait_completed status) drops
Ends-resolve s pid status none (some q) drops e =
    Ends-put s (Pid.index pid) (zombie q status) drops (sym e)
Ends-resolve s pid status none none drops e = Ends-refl s drops

pub weight-swept : (slot : Slot) (exiting : Pid) → weight (swept slot exiting) ≡ weight slot
weight-swept Slot.empty exiting = refl
weight-swept Slot.reserved exiting = refl
weight-swept (Slot.occupied p) exiting = elim (Bool-cases (is_pid exiting p.parent)) [
  | inl e ↦ rw e refl
  | inr e ↦ rw e refl
]
weight-swept (Slot.zombie q status) exiting = elim (Bool-cases (q == exiting)) [
  | inl e ↦ rw e refl
  | inr e ↦ rw e refl
]
