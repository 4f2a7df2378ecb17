-- ===== src/Task/Scheduler/Teardown.antt =====
-- kernel/src/task/scheduler.rs: a termination ends, however far its orphans cascade, and takes each
-- process that it kills out of the table exactly once.
use tarn_os.Prelude.{
  ℕ, zero, suc, ◌+◌, ◌<◌, ◌≤◌, ◌≡◌, refl, ap, ◌∙◌, List, [], ◌∷◌, ◌++◌, length, length-append,
  get_or, Bool-cases, Option-cases, inl, inr, Option, none, some, arith,
}
use tarn_os.Abi.Status.{ExitStatus, killed}
use tarn_os.Task.Pid
use tarn_os.Task.Pid.{Pid}
use tarn_os.Task.Process.{Process}
use tarn_os.Task.Scheduler.{
  Slot, empty, Scheduler, max_processes, slot_at, put_slot, process_in, generation_at,
}
use tarn_os.Task.Scheduler.Termination.{
  swept, is_orphaned_suspended, resolve, vacated, reap_children_of, take_and_finalize_slot,
  Teardown,
}
use tarn_os.Task.Scheduler.Ends.{
  weight, count_occupied, count_occupied-vacate, weight-set_le, weight-set_empty, Ends, Ends-trans,
  Ends-refl, Ends-put, vacated-processes, Ends-resolve, weight-swept, weight-occupied_slot,
}

-- The answer `r` is a table and list that `s` and `drops` end as.
abbrev Finishes : Scheduler → List Process → Option Teardown → Type 0
Finishes s drops r =
    (t : Scheduler) × (more : List Process) × (r ≡ some (t, more)) × Ends s drops t more

module _ (finalize : Scheduler → Pid → ExitStatus → List Process → Option Teardown) (fuel : ℕ)
    (total : (s : Scheduler) (pid : Pid) (status : ExitStatus) (drops : List Process)
      → count_occupied s.processes < fuel
      → Finishes s drops (finalize s pid status drops)) where
  reap_children_of-Finishes :
      (rounds i : ℕ) (exiting : Pid) (s : Scheduler) (drops : List Process)
      → count_occupied s.processes < fuel
      → Finishes s drops (reap_children_of finalize rounds i exiting s drops)
  unfolding reap_children_of
  reap_children_of-Finishes zero i exiting s drops h = (s, drops, refl, Ends-refl s drops)
  reap_children_of-Finishes (suc rounds) i exiting s drops h =
      elim (Bool-cases (is_orphaned_suspended (slot_at s i) exiting)) [
        | inl e ↦
            let (t, more, ends, x) = total s (Pid.new i (generation_at s i)) killed drops h in
            let (u, rest, answer, y) =
              reap_children_of-Finishes rounds (i + 1) exiting t more (omega (arith, x.fewer)) in
            (u, rest, rw (e, ends) answer, Ends-trans x y)
        | inr e ↦
            let next = put_slot s i (swept (slot_at s i) exiting) in
            let x =
              Ends-put s i (swept (slot_at s i) exiting) drops
                (weight-swept (slot_at s i) exiting) in
            let (u, rest, answer, y) =
              reap_children_of-Finishes rounds (i + 1) exiting next drops
                (omega (arith, x.fewer)) in
            (u, rest, rw e answer, Ends-trans x y)
      ]

-- The extracted process, and its slot empty.
Ends-vacated :
    (s : Scheduler) (pid : Pid) (p : Process) (drops t_drops : List Process) (t : Scheduler)
    → process_in (slot_at s (Pid.index pid)) ≡ some p
    → Ends (vacated s pid) drops t t_drops
    → Ends s drops t (t_drops ++ p ∷ [])
Ends-vacated s pid p drops t_drops t e x =
    let i = Pid.index pid in
    let processes = vacated-processes s pid in
    let count = ap count_occupied processes in
    let fewer = count_occupied-vacate s.processes i p e in
    record {
      kept = omega (arith, x.kept, count, fewer, length-append t_drops (p ∷ []));
      fewer = omega (arith, x.fewer, count, fewer);
      none_new = λ k. omega (
        arith,
        x.none_new k,
        ap (λ xs. weight (get_or xs k empty)) processes,
        weight-set_le s.processes i k empty (omega arith),
      );
    }

finalize_with_fuel :
    (fuel : ℕ) (s : Scheduler) (pid : Pid) (status : ExitStatus) (drops : List Process)
    → count_occupied s.processes < fuel
    → (t : Scheduler) × (more : List Process) × (take_and_finalize_slot fuel s pid status drops
        ≡ some (t, more))
      × Ends s drops t more
      × (process_in (slot_at t (Pid.index pid)) ≡ none)
unfolding take_and_finalize_slot
finalize_with_fuel zero s pid status drops h = absurd (omega arith)
finalize_with_fuel (suc fuel) s pid status drops h =
    elim (Option-cases (process_in (slot_at s (Pid.index pid)))) [
      | inl e ↦ (s, drops, rw (e, take_and_finalize_slot) refl, Ends-refl s drops, e)
      | inr (p, e) ↦
          let v = vacated s pid in
          let r = resolve v pid status p.wait_waiter p.parent in
          let processes = vacated-processes s pid in
          let gone : weight (slot_at v (Pid.index pid)) ≡ 0 =
            ap (λ xs. weight (get_or xs (Pid.index pid) empty)) processes
            ∙ weight-set_empty s.processes (Pid.index pid) in
          let x = Ends-resolve v pid status p.wait_waiter p.parent drops gone in
          let small : count_occupied r.processes < fuel = omega (
            arith,
            x.fewer,
            ap count_occupied processes,
            count_occupied-vacate s.processes (Pid.index pid) p e,
          ) in
          let (t, more, answer, y) =
            reap_children_of-Finishes (take_and_finalize_slot fuel) fuel
              (λ s' pid' status' drops' small'.
                let (t, more, answer, x', _) =
                  finalize_with_fuel fuel s' pid' status' drops' small' in
                (t, more, answer, x'))
              max_processes 0 pid r drops small in
          (
            t,
            more ++ p ∷ [],
            rw (e, take_and_finalize_slot, answer) refl,
            Ends-vacated s pid p drops more t e (Ends-trans x y),
            weight-occupied_slot (slot_at t (Pid.index pid))
                (omega (arith, y.none_new (Pid.index pid), x.none_new (Pid.index pid), gone)),
          )
    ]

count_occupied_le : (xs : List Slot) → count_occupied xs ≤ length xs
unfolding count_occupied
count_occupied_le [] = omega arith
count_occupied_le (Slot.empty ∷ xs) = omega (arith, count_occupied_le xs)
count_occupied_le (Slot.reserved ∷ xs) = omega (arith, count_occupied_le xs)
count_occupied_le (Slot.occupied p ∷ xs) = omega (arith, count_occupied_le xs)
count_occupied_le (Slot.zombie p status ∷ xs) = omega (arith, count_occupied_le xs)

-- A termination in a table of `max_processes` slots always ends, within that many nested ones. Then
-- the slot of the `Pid` holds no process, no slot that held none holds one, and the processes
-- handed over to be dropped are as many as the processes that left the table.
pub take_and_finalize_slot-Ends :
    (s : Scheduler) (pid : Pid) (status : ExitStatus) (drops : List Process)
    → length s.processes ≡ max_processes
    → (t : Scheduler) × (more : List Process) × (take_and_finalize_slot
          (max_processes + 1)
          s
          pid
          status
          drops
        ≡ some (t, more))
      × Ends s drops t more
      × (process_in (slot_at t (Pid.index pid)) ≡ none)
take_and_finalize_slot-Ends s pid status drops sized =
    finalize_with_fuel (max_processes + 1) s pid status drops
      (omega (arith, sized, count_occupied_le s.processes))
