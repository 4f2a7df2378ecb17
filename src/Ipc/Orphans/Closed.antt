-- ===== src/Ipc/Orphans/Closed.antt =====
-- Which endpoints `wake_orphaned_receivers` closes, and what becomes of their slots.
use tarn_os.Prelude.{
  ℕ, zero, suc, ◌≡◌, refl, sym, subst, ap, ap₂, ◌∙◌, ◌⊎◌, Bool, true, false, not, ◌&&◌, ◌||◌, List,
  [], ◌∷◌, ◌++◌, ◌==◌, ==_iff, ==_ne, if◌then◌else◌, get_or, set, get_or-set_ne, Bool-cases, inl,
  inr, ℕ_discrete,
}
use tarn_os.Kcore.CapTable
use tarn_os.Kcore.CapTable.{RightsOps}
use tarn_os.Kcore.Endpoint.{task, process, nobody, Slot, receiver_waiting}
use tarn_os.Task.Process.{Process}
use tarn_os.Task.Scheduler
use tarn_os.Task.Scheduler.{Scheduler, wake_blocked_process}
use tarn_os.Ipc.Endpoint.{EndpointSlot, taken}
use tarn_os.Ipc.Orphans.{
  send_targets, member, still_has_a_live_sender, without_sender, orphaned, Endpoints, closed,
  close_one, close_all, wake_orphaned_receivers,
}

-- A process that died could send on `n`.
abbrev pub could_send : RightsOps → List Process → ℕ → Bool
could_send rights [] n = false
could_send rights (p ∷ dying) n =
    member n (send_targets rights (CapTable.iter p.cap_table)) || could_send rights dying n

-- No process waits to receive.
abbrev pub closed_slot : EndpointSlot → EndpointSlot
closed_slot (receiver_waiting (process pid)) = Slot.empty
closed_slot (receiver_waiting (task waker)) = receiver_waiting (task waker)
closed_slot (receiver_waiting nobody) = receiver_waiting nobody
closed_slot Slot.empty = Slot.empty
closed_slot (Slot.senders_waiting queue) = Slot.senders_waiting queue

closed_twice : (slot : EndpointSlot) → closed_slot (closed_slot slot) ≡ closed_slot slot
closed_twice (receiver_waiting (process pid)) = refl
closed_twice (receiver_waiting (task waker)) = refl
closed_twice (receiver_waiting nobody) = refl
closed_twice Slot.empty = refl
closed_twice (Slot.senders_waiting queue) = refl

and_false : (a : Bool) → (a && false) ≡ false
and_false true = refl
and_false false = refl

both : (a b c : Bool) → (a && c || b && c) ≡ ((a || b) && c)
both true b true = refl
both true true false = refl
both true false false = refl
both false b c = refl

module _ (rights : RightsOps) (slots : List Scheduler.Slot) (n : ℕ) where
  member-append : (xs ys : List ℕ) → member n (xs ++ ys) ≡ (member n xs || member n ys)
  member-append [] ys = refl
  member-append (x ∷ xs) ys = elim (Bool-cases (x == n)) [
    | inl e ↦ rw e refl
    | inr e ↦ rw e (member-append xs ys)
  ]

  member-without_sender :
      (ns : List ℕ)
      → member n (without_sender rights slots ns)
        ≡ (member n ns && not (still_has_a_live_sender rights slots n))
  member-without_sender [] = refl
  member-without_sender (m ∷ ms) =
      here (Bool-cases (still_has_a_live_sender rights slots m)) (ℕ_discrete m n)
        (member-without_sender ms)
    where
      ms' : List ℕ
      ms' = without_sender rights slots ms

      here :
          (still_has_a_live_sender rights slots m ≡ true)
            ⊎ (still_has_a_live_sender rights slots m ≡ false)
          → Dec (m ≡ n)
          → member n ms' ≡ (member n ms && not (still_has_a_live_sender rights slots n))
          → member n (if still_has_a_live_sender rights slots m then ms' else m ∷ ms')
            ≡ ((m == n || member n ms) && not (still_has_a_live_sender rights slots n))
      here (inl e) (yes same) again =
          let live : still_has_a_live_sender rights slots n ≡ true =
            subst (λ k. still_has_a_live_sender rights slots k ≡ true) same e in
          rw (e, (==_iff m n).1 same, live)
            (again ∙ ap (λ b. member n ms && not b) live ∙ and_false (member n ms))
      here (inl e) (no apart) again = rw (e, ==_ne m n apart) again
      here (inr e) (yes same) again =
          let dead : still_has_a_live_sender rights slots n ≡ false =
            subst (λ k. still_has_a_live_sender rights slots k ≡ false) same e in
          rw (e, (==_iff m n).1 same, dead) refl
      here (inr e) (no apart) again = rw (e, ==_ne m n apart) again

  pub member-orphaned :
      (dying : List Process)
      → member n (orphaned rights slots dying)
        ≡ (could_send rights dying n && not (still_has_a_live_sender rights slots n))
  unfolding orphaned
  member-orphaned [] = refl
  member-orphaned (p ∷ dying) =
      member-append (without_sender rights slots (send_targets rights (CapTable.iter p.cap_table)))
        (orphaned rights slots dying)
      ∙ ap₂ ◌||◌ (member-without_sender (send_targets rights (CapTable.iter p.cap_table)))
          (member-orphaned dying)
      ∙ both (member n (send_targets rights (CapTable.iter p.cap_table)))
          (could_send rights dying n) (not (still_has_a_live_sender rights slots n))

pub emptied :
    (xs : List EndpointSlot) (i : ℕ) → get_or (set xs i Slot.empty) i Slot.empty ≡ Slot.empty
emptied [] i = refl
emptied (x ∷ xs) zero = refl
emptied (x ∷ xs) (suc i) = emptied xs i

-- An endpoint where no process waits to receive.
kept :
    (slots : List EndpointSlot) (m n : ℕ)
    → closed_slot (get_or slots m Slot.empty) ≡ get_or slots m Slot.empty
    → get_or slots n Slot.empty
      ≡ (if m == n then closed_slot (get_or slots n Slot.empty) else get_or slots n Slot.empty)
kept slots m n e = elim (ℕ_discrete m n) [
  | yes same ↦ rw ((==_iff m n).1 same) (
      subst (λ k. get_or slots k Slot.empty ≡ closed_slot (get_or slots k Slot.empty)) same (sym e))
  | no apart ↦ rw (==_ne m n apart) refl
]

close_one_slot :
    (s : Endpoints) (m n : ℕ)
    → get_or (close_one s m).slots n Slot.empty
      ≡ (if m == n then closed_slot (get_or s.slots n Slot.empty) else get_or s.slots n Slot.empty)
close_one_slot s m n = here (get_or s.slots m Slot.empty) refl
  where
    here :
        (v : EndpointSlot)
        → get_or s.slots m Slot.empty ≡ v
        → get_or
            (closed s m (taken (record { slot = v; scheduler = s.scheduler; wakes = [] }) v)).slots
            n
            Slot.empty
          ≡ (if m == n
              then closed_slot (get_or s.slots n Slot.empty)
              else get_or s.slots n Slot.empty)
    here (receiver_waiting (process pid)) e = elim (ℕ_discrete m n) [
      | yes same ↦ rw ((==_iff m n).1 same) (
          subst
            (λ k.
              get_or (set s.slots m Slot.empty) k Slot.empty
              ≡ closed_slot (get_or s.slots k Slot.empty))
            same (emptied s.slots m ∙ ap closed_slot (sym e)))
      | no apart ↦ rw (==_ne m n apart) (get_or-set_ne s.slots m n Slot.empty Slot.empty apart)
    ]
    here (receiver_waiting (task waker)) e = kept s.slots m n (ap closed_slot e ∙ sym e)
    here (receiver_waiting nobody) e = kept s.slots m n (ap closed_slot e ∙ sym e)
    here Slot.empty e = kept s.slots m n (ap closed_slot e ∙ sym e)
    here (Slot.senders_waiting queue) e = kept s.slots m n (ap closed_slot e ∙ sym e)

close_all_slot :
    (ns : List ℕ) (s : Endpoints) (n : ℕ)
    → get_or (close_all ns s).slots n Slot.empty ≡ (
        if member n ns
        then closed_slot (get_or s.slots n Slot.empty)
        else get_or s.slots n Slot.empty)
unfolding close_all
close_all_slot [] s n = refl
close_all_slot (m ∷ ms) s n =
    close_all_slot ms (close_one s m) n
    ∙ ap (λ v. if member n ms then closed_slot v else v) (close_one_slot s m n)
    ∙ merge (m == n) (member n ms) (get_or s.slots n Slot.empty)
  where
    merge :
        (a b : Bool) (v : EndpointSlot)
        → (if b
            then closed_slot (if a then closed_slot v else v)
            else (if a then closed_slot v else v))
          ≡ (if a || b then closed_slot v else v)
    merge true true v = closed_twice v
    merge true false v = refl
    merge false true v = refl
    merge false false v = refl

-- After `wake_orphaned_receivers`, no process waits to receive on an endpoint that one of the dying
-- processes could send on and that no process of the table can send on; every other endpoint, and each on which
-- no process waited to receive, has the slot that it had.
pub wake_orphaned_receivers_slot :
    (rights : RightsOps) (dying : List Process) (s : Endpoints) (n : ℕ)
    → get_or (wake_orphaned_receivers rights dying s).slots n Slot.empty ≡ (
        if could_send rights dying n && not (still_has_a_live_sender rights s.scheduler.processes n)
        then closed_slot (get_or s.slots n Slot.empty)
        else get_or s.slots n Slot.empty)
unfolding wake_orphaned_receivers
wake_orphaned_receivers_slot rights dying s n =
    close_all_slot (orphaned rights s.scheduler.processes dying) s n
    ∙ ap (λ b. if b then closed_slot (get_or s.slots n Slot.empty) else get_or s.slots n Slot.empty)
        (member-orphaned rights s.scheduler.processes n dying)
