-- ===== src/Task/Scheduler/Invariant/Finalize.antt =====
-- The invariant is kept when a process ends, however far its orphans cascade.
use tarn_os.Prelude.{
  ℕ, zero, suc, ◌+◌, ◌≤◌, ◌<◌, ◌≡◌, refl, sym, subst, ap, ◌∙◌, List, [], ◌∷◌, ◌++◌, Option, none,
  some, ◌==◌, arith, Bool-cases, Option-cases, inl, inr, get_or,
}
use tarn_os.Abi.Status.{ExitStatus, killed}
use tarn_os.Task.Pid
use tarn_os.Task.Pid.{Pid, index-generation-new}
use tarn_os.Task.Process.{Process, wait_completed}
use tarn_os.Task.Scheduler.{
  Slot, Scheduler, max_processes, slot_at, put_slot, generation_at, process_in, is_pid,
}
use tarn_os.Task.Scheduler.Termination.{
  swept, is_orphaned_suspended, resolve, vacated, reap_children_of, take_and_finalize_slot,
  Teardown,
}
use tarn_os.Task.Scheduler.Ends.{vacated-processes}
use tarn_os.Task.Scheduler.Wakeups.{in_table}
use tarn_os.Task.Scheduler.Teardown.{take_and_finalize_slot-Ends}
use tarn_os.Task.Scheduler.Invariant.{
  holders, ready_of, running_of, ready_slot, Named, IsWord, IsConsistent,
}
use tarn_os.Task.Scheduler.Invariant.Put.{put_same, keep-IsConsistent}
use tarn_os.Task.Scheduler.Invariant.Wake.{occupant, wake_blocked_process-IsConsistent}
use tarn_os.Task.Scheduler.Invariant.Create.{empty-IsConsistent}
use tarn_os.Task.Scheduler.Invariant.Clear.{vacated-IsConsistent}

-- The slot that `pid` names by its index holds no process of another name.
abbrev pub Owns : Scheduler → Pid → Type 0
Owns s pid = (p : Process) → process_in (slot_at s (Pid.index pid)) ≡ some p → p.pid ≡ pid

-- What holds of a slot holds of it after the sweep, if it does not depend on the parent of a process and
-- does not tell a zombie from an empty slot.
swept-keeps :
    (P : Slot → Type 0) (v : Slot) (exiting : Pid)
    → P v
    → ((p : Process) → v ≡ Slot.occupied p → P (Slot.occupied (record p { parent = none })))
    → ((parent : Pid) (status : ExitStatus) → v ≡ Slot.zombie parent status → P Slot.empty)
    → P (swept v exiting)
swept-keeps P Slot.empty exiting h a b = h
swept-keeps P Slot.reserved exiting h a b = h
swept-keeps P (Slot.occupied p) exiting h a b = elim (Bool-cases (is_pid exiting p.parent)) [
  | inl e ↦ rw e (a p refl)
  | inr e ↦ rw e h
]
swept-keeps P (Slot.zombie parent status) exiting h a b = elim (Bool-cases (parent == exiting)) [
  | inl e ↦ rw e (b parent status refl)
  | inr e ↦ rw e h
]

swept-IsConsistent :
    (s : Scheduler) (i : ℕ) (exiting : Pid)
    → IsConsistent s
    → i < max_processes
    → IsConsistent (put_slot s i (swept (slot_at s i) exiting))
swept-IsConsistent s i exiting w inside =
    let v = slot_at s i in
    keep-IsConsistent s w i inside (swept v exiting)
      (λ r.
        swept-keeps (λ x. ready_of v r ≡ ready_of x r) v exiting refl
          (λ p e. ap (λ x. ready_of x r) e) (λ q status e. ap (λ x. ready_of x r) e))
      (swept-keeps (λ x. ready_slot v ≡ ready_slot x) v exiting refl (λ p e. ap ready_slot e)
        (λ q status e. ap ready_slot e))
      (λ r at_i.
        let before : holders r s.current ≤ running_of v r =
          subst (λ k. holders r s.current ≤ running_of (slot_at s k) r) at_i (w.held r) in
        swept-keeps (λ x. holders r s.current ≤ running_of x r) v exiting before
          (λ p e. subst (λ x. holders r s.current ≤ running_of x r) e before)
          (λ q status e. subst (λ x. holders r s.current ≤ running_of x r) e before))
      (swept-keeps (Named i (generation_at s i)) v exiting (w.named i)
        (λ p e. subst (Named i (generation_at s i)) e (w.named i)) (λ q status e. tt))

resolve-IsConsistent :
    (s : Scheduler) (pid : Pid) (status : ExitStatus) (waiter parent : Option Pid)
    → IsConsistent s
    → Pid.index pid < max_processes
    → slot_at s (Pid.index pid) ≡ Slot.empty
    → IsWord waiter
    → IsConsistent (resolve s pid status waiter parent)
resolve-IsConsistent s pid status (some waiter) parent w inside slot word =
    wake_blocked_process-IsConsistent s waiter (wait_completed status) w word
resolve-IsConsistent s pid status none (some parent) w inside slot word =
    empty-IsConsistent s (Pid.index pid) Slot.empty (Slot.zombie parent status) w inside slot
      (λ p. refl) (λ p. refl) refl (λ p. refl) refl tt
resolve-IsConsistent s pid status none none w inside slot word = w

pub process_in-some : (v : Slot) (p : Process) → process_in v ≡ some p → v ≡ Slot.occupied p
process_in-some Slot.empty p e = cc
process_in-some Slot.reserved p e = cc
process_in-some (Slot.occupied q) p e = let same : q ≡ p = cc in ap Slot.occupied same
process_in-some (Slot.zombie parent status) p e = cc

-- A slot's own name.
named-Owns :
    (s : Scheduler) (i : ℕ)
    → IsConsistent s
    → i < max_processes
    → Owns s (Pid.new i (generation_at s i))
named-Owns s i w inside p e =
    let (at_i, _) = index-generation-new i (generation_at s i) (omega arith) (w.small i) in
    let (_, name, _) =
      occupant s w i p inside
        (process_in-some (slot_at s i) p (subst (λ k. process_in (slot_at s k) ≡ some p) at_i e)) in
    sym name

-- What a call that answers `some` leaves is consistent.
abbrev Keeps : Option Teardown → Type 0
Keeps r = (t : Scheduler) (more : List Process) → r ≡ some (t, more) → IsConsistent t

module _ (finalize : Scheduler → Pid → ExitStatus → List Process → Option Teardown)
    (keeps : (s : Scheduler) (pid : Pid) (status : ExitStatus) (drops : List Process)
      → IsConsistent s
      → Owns s pid
      → Keeps (finalize s pid status drops)) where
  reap_children_of-Keeps :
      (rounds i : ℕ) (exiting : Pid) (s : Scheduler) (drops : List Process)
      → IsConsistent s
      → i + rounds ≤ max_processes
      → Keeps (reap_children_of finalize rounds i exiting s drops)
  unfolding reap_children_of
  reap_children_of-Keeps zero i exiting s drops w h t more e =
      let same : s ≡ t = cc in subst IsConsistent same w
  reap_children_of-Keeps (suc rounds) i exiting s drops w h t more e =
      elim (Bool-cases (is_orphaned_suspended (slot_at s i) exiting)) [
        | inl orphan ↦
            elim (Option-cases (finalize s (Pid.new i (generation_at s i)) killed drops)) [
              | inl stuck ↦ let bad : none ≡ some (t, more) = rw (orphan, stuck) at e in cc bad
              | inr ((u, rest), ends) ↦
                  reap_children_of-Keeps rounds (i + 1) exiting u rest
                    (keeps s (Pid.new i (generation_at s i)) killed drops w
                      (named-Owns s i w (omega arith)) u rest ends)
                    (omega arith) t more (rw (orphan, ends) at e)
            ]
        | inr other ↦
            reap_children_of-Keeps rounds (i + 1) exiting
              (put_slot s i (swept (slot_at s i) exiting)) drops
              (swept-IsConsistent s i exiting w (omega arith)) (omega arith) t more (rw other at e)
      ]

finalize_with_fuel-Keeps :
    (fuel : ℕ) (s : Scheduler) (pid : Pid) (status : ExitStatus) (drops : List Process)
    → IsConsistent s
    → Owns s pid
    → Keeps (take_and_finalize_slot fuel s pid status drops)
unfolding take_and_finalize_slot
finalize_with_fuel-Keeps zero s pid status drops w owns t more e = cc
finalize_with_fuel-Keeps (suc fuel) s pid status drops w owns t more e =
    elim (Option-cases (process_in (slot_at s (Pid.index pid)))) [
      | inl free ↦
          let answer : some (s, drops) ≡ some (t, more) = rw (free, take_and_finalize_slot) at e in
          let same : s ≡ t = cc in subst IsConsistent same w
      | inr (p, held) ↦
          let slot = process_in-some (slot_at s (Pid.index pid)) p held in
          let inside : Pid.index pid < max_processes =
            omega (arith, in_table s.processes (Pid.index pid) p slot, w.slots) in
          let v = vacated s pid in
          let here : slot_at v (Pid.index pid) ≡ Slot.empty =
            ap (λ xs. get_or xs (Pid.index pid) Slot.empty) (vacated-processes s pid)
            ∙ put_same s (Pid.index pid) (Pid.index pid) Slot.empty (omega (arith, w.slots)) refl in
          let (_, _, sound) = occupant s w (Pid.index pid) p inside slot in
          let after =
            resolve-IsConsistent v pid status p.wait_waiter p.parent
              (vacated-IsConsistent s pid p w inside slot (owns p held)) inside here sound in
          let rest =
            reap_children_of (take_and_finalize_slot fuel) max_processes 0 pid
              (resolve v pid status p.wait_waiter p.parent) drops in
          elim (Option-cases rest) [
            | inl stuck ↦
                let bad : none ≡ some (t, more) = rw (held, stuck, take_and_finalize_slot) at e in
                cc bad
            | inr ((u, more'), ends) ↦
                let answer : some (u, more' ++ p ∷ []) ≡ some (t, more) =
                  rw (held, ends, take_and_finalize_slot) at e in
                let same : u ≡ t = cc in
                subst IsConsistent same (
                  reap_children_of-Keeps (take_and_finalize_slot fuel)
                    (finalize_with_fuel-Keeps fuel) max_processes 0 pid
                    (resolve v pid status p.wait_waiter p.parent) drops after (omega arith) u more'
                    ends)
          ]
    ]

-- The end of a process, with the cascade over its orphans, always finishes, and leaves a consistent
-- scheduler consistent, if the slot that the `Pid` names by its index holds no process of another name.
pub take_and_finalize_slot-IsConsistent :
    (s : Scheduler) (pid : Pid) (status : ExitStatus) (drops : List Process)
    → IsConsistent s
    → Owns s pid
    → (t : Scheduler) × (more : List Process) × (take_and_finalize_slot
          (max_processes + 1)
          s
          pid
          status
          drops
        ≡ some (t, more))
      × IsConsistent t
take_and_finalize_slot-IsConsistent s pid status drops w owns =
    let (t, more, answer, _, _) = take_and_finalize_slot-Ends s pid status drops w.slots in
    (
      t,
      more,
      answer,
      finalize_with_fuel-Keeps (max_processes + 1) s pid status drops w owns t more answer,
    )
