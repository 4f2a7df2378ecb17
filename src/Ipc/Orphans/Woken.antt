-- ===== src/Ipc/Orphans/Woken.antt =====
-- kernel/src/task/scheduler.rs: which processes `wake_orphaned_receivers` wakes, by the capabilities of the
-- processes.
use tarn_os.Prelude.{
  ℕ, ◌≡◌, ◌≢◌, refl, sym, subst, ap, ◌∙◌, ◌⊎◌, inl, inr, Bool, true, false, not, ◌&&◌, ◌||◌, List,
  [], ◌∷◌, ◌==◌, ==_iff, ==_ne, if◌then◌else◌, get_or, set, get_or-set_ne, Bool-cases, ℕ_discrete,
}
use tarn_os.Kcore.CapTable
use tarn_os.Kcore.CapTable.{RightsOps, CapabilitySlot}
use tarn_os.Kcore.Endpoint.{task, process, nobody, Slot, receiver_waiting}
use tarn_os.Task.Pid.{Pid}
use tarn_os.Task.Process.{KernelObjectRef, peer_closed_result, Process}
use tarn_os.Task.Scheduler
use tarn_os.Task.Scheduler.{Scheduler, wake_blocked_process}
use tarn_os.Ipc.Endpoint.{EndpointSlot, taken}
use tarn_os.Ipc.Orphans.{
  send_right, send_targets, member, still_has_a_live_sender, may_send, endpoint_and, orphaned,
  Endpoints, closed, close_all, wake_orphaned_receivers,
}
use tarn_os.Ipc.Orphans.Closed.{could_send, member-orphaned, emptied, wake_orphaned_receivers_slot}

abbrev pub In : {A : Type 0} → A → List A → Type 0
In x [] = ⊥
In x (y ∷ ys) = (y ≡ x) ⊎ In x ys

-- Wake each process with `PeerClosed`, in order.
abbrev pub wake_each : List Pid → Scheduler → Scheduler
wake_each [] s = s
wake_each (pid ∷ pids) s = wake_each pids (wake_blocked_process s pid peer_closed_result)

-- One of the capabilities is for endpoint `n`, with the right to send.
abbrev pub Sends : RightsOps → ℕ → List (CapabilitySlot KernelObjectRef) → Type 0
Sends rights n slots =
    (slot : CapabilitySlot KernelObjectRef) × In slot slots
    × (rights.contains slot.rights send_right ≡ true)
    × (slot.object ≡ KernelObjectRef.endpoint n)

abbrev pub CanSend : RightsOps → ℕ → Process → Type 0
CanSend rights n p = Sends rights n (CapTable.iter p.cap_table)

-- One of the dying processes could send on `n`, and no process of the table can.
pub record IsOrphan (rights : RightsOps) (dying : List Process) (table : List Scheduler.Slot)
    (n : ℕ) : Type 0 where
  pub sender : Process
  pub dies : In sender dying
  pub could : CanSend rights n sender
  pub alone : (q : Process) → In (Scheduler.occupied q) table → ¬ CanSend rights n q

or_right : (a b : Bool) → b ≡ true → (a || b) ≡ true
or_right true b e = refl
or_right false b e = e

or_cases : (a b : Bool) → (a || b) ≡ true → (a ≡ true) ⊎ (b ≡ true)
or_cases true b e = inl refl
or_cases false b e = inr e

orphan_split : (a b : Bool) → (a && not b) ≡ true → (a ≡ true) × (b ≡ false)
orphan_split true false e = (refl, refl)
orphan_split true true e = cc
orphan_split false b e = cc

module _ (rights : RightsOps) (n : ℕ) where
  step_sound :
      (b : Bool) (o : KernelObjectRef) (more : List ℕ)
      → member n (if b then endpoint_and o more else more) ≡ true
      → ((b ≡ true) × (o ≡ KernelObjectRef.endpoint n)) ⊎ (member n more ≡ true)
  step_sound true (KernelObjectRef.endpoint m) more h = elim (ℕ_discrete m n) [
    | yes e ↦ inl (refl, ap KernelObjectRef.endpoint e)
    | no ne ↦ inr (rw (==_ne m n ne) at h)
  ]
  step_sound true KernelObjectRef.block_device more h = inr h
  step_sound true KernelObjectRef.fs_root more h = inr h
  step_sound false o more h = inr h

  step_later :
      (b : Bool) (o : KernelObjectRef) (more : List ℕ)
      → member n more ≡ true
      → member n (if b then endpoint_and o more else more) ≡ true
  step_later true (KernelObjectRef.endpoint m) more h = elim (ℕ_discrete m n) [
    | yes e ↦ rw ((==_iff m n).1 e) refl
    | no ne ↦ rw (==_ne m n ne) h
  ]
  step_later true KernelObjectRef.block_device more h = h
  step_later true KernelObjectRef.fs_root more h = h
  step_later false o more h = h

  step_here :
      (b : Bool) (o : KernelObjectRef) (more : List ℕ)
      → b ≡ true
      → o ≡ KernelObjectRef.endpoint n
      → member n (if b then endpoint_and o more else more) ≡ true
  step_here b o more e f = rw (e, f, (==_iff n n).1 refl) refl

  targets_sound :
      (slots : List (CapabilitySlot KernelObjectRef))
      → member n (send_targets rights slots) ≡ true
      → Sends rights n slots
  unfolding send_targets
  targets_sound [] e = cc
  targets_sound (x ∷ xs) e =
      elim (step_sound (rights.contains x.rights send_right) x.object (send_targets rights xs) e) [
        | inl (may, on) ↦ (x, inl refl, may, on)
        | inr rest ↦ let (slot, held, may, on) = targets_sound xs rest in (slot, inr held, may, on)
      ]

  targets_complete :
      (slots : List (CapabilitySlot KernelObjectRef))
      → Sends rights n slots
      → member n (send_targets rights slots) ≡ true
  unfolding send_targets
  targets_complete [] (slot, held, may, on) = absurd held
  targets_complete (x ∷ xs) (slot, inl same, may, on) =
      step_here (rights.contains x.rights send_right) x.object (send_targets rights xs)
        (ap (λ (c : CapabilitySlot KernelObjectRef). rights.contains c.rights send_right) same
          ∙ may)
        (ap (λ (c : CapabilitySlot KernelObjectRef). c.object) same ∙ on)
  targets_complete (x ∷ xs) (slot, inr held, may, on) =
      step_later (rights.contains x.rights send_right) x.object (send_targets rights xs)
        (targets_complete xs (slot, held, may, on))

  could_send_sound :
      (dying : List Process)
      → could_send rights dying n ≡ true
      → (p : Process) × In p dying × CanSend rights n p
  could_send_sound [] e = cc
  could_send_sound (p ∷ dying) e =
      elim (or_cases (member n (send_targets rights (CapTable.iter p.cap_table)))
        (could_send rights dying n) e) [
          | inl here ↦ (p, inl refl, targets_sound (CapTable.iter p.cap_table) here)
          | inr rest ↦ let (q, dies, can) = could_send_sound dying rest in (q, inr dies, can)
        ]

  could_send_complete :
      (dying : List Process) (p : Process)
      → In p dying
      → CanSend rights n p
      → could_send rights dying n ≡ true
  could_send_complete [] p held can = absurd held
  could_send_complete (q ∷ dying) p (inl same) can =
      let here =
        targets_complete (CapTable.iter q.cap_table) (subst (CanSend rights n) (sym same) can) in
      rw here refl
  could_send_complete (q ∷ dying) p (inr held) can =
      or_right (member n (send_targets rights (CapTable.iter q.cap_table)))
        (could_send rights dying n) (could_send_complete dying p held can)

  live_complete :
      (table : List Scheduler.Slot) (q : Process)
      → In (Scheduler.occupied q) table
      → CanSend rights n q
      → still_has_a_live_sender rights table n ≡ true
  unfolding still_has_a_live_sender
  live_complete [] q held can = absurd held
  live_complete (slot ∷ table) q (inl same) can =
      let here : may_send rights slot n ≡ true =
        ap (λ x. may_send rights x n) same ∙ targets_complete (CapTable.iter q.cap_table) can in
      rw here refl
  live_complete (slot ∷ table) q (inr held) can =
      or_right (may_send rights slot n) (still_has_a_live_sender rights table n)
        (live_complete table q held can)

  live_sound :
      (table : List Scheduler.Slot)
      → still_has_a_live_sender rights table n ≡ true
      → (q : Process) × In (Scheduler.occupied q) table × CanSend rights n q
  unfolding still_has_a_live_sender
  live_sound [] e = cc
  live_sound (slot ∷ table) e =
      elim (or_cases (may_send rights slot n) (still_has_a_live_sender rights table n) e) [
        | inl here ↦ at slot here
        | inr rest ↦ let (q, held, can) = live_sound table rest in (q, inr held, can)
      ]
    where
      at :
          (v : Scheduler.Slot)
          → may_send rights v n ≡ true
          → (q : Process) × In (Scheduler.occupied q) (v ∷ table) × CanSend rights n q
      at Scheduler.empty h = cc
      at Scheduler.reserved h = cc
      at (Scheduler.zombie parent status) h = cc
      at (Scheduler.occupied p) h = (p, inl refl, targets_sound (CapTable.iter p.cap_table) h)

  orphaned-IsOrphan :
      (dying : List Process) (table : List Scheduler.Slot)
      → member n (orphaned rights table dying) ≡ true
      → IsOrphan rights dying table n
  orphaned-IsOrphan dying table e =
      let (could, dead) =
        orphan_split (could_send rights dying n) (still_has_a_live_sender rights table n)
          (sym (member-orphaned rights table n dying) ∙ e) in
      let (p, dies, can) = could_send_sound dying could in
      record {
        sender = p;
        dies = dies;
        could = can;
        alone = λ q held may.
            let live = live_complete table q held may in
            let bad : true ≡ false = sym live ∙ dead in cc bad;
      }

  IsOrphan-orphaned :
      (dying : List Process) (table : List Scheduler.Slot)
      → IsOrphan rights dying table n
      → member n (orphaned rights table dying) ≡ true
  IsOrphan-orphaned dying table o =
      let could = could_send_complete dying o.sender o.dies o.could in
      let dead : still_has_a_live_sender rights table n ≡ false =
        elim (Bool-cases (still_has_a_live_sender rights table n)) [
          | inr e ↦ e
          | inl e ↦ let (q, held, can) = live_sound table e in absurd (o.alone q held can)
        ] in
      member-orphaned rights table n dying ∙ rw (could, dead) refl

-- What became of an endpoint's slot, and which processes were woken, by `closes`.
pub record Closes (Orphan : ℕ → Type 0) (s after : Endpoints) : Type 0 where
  pub woken : List Pid
  pub wakes : after.scheduler ≡ wake_each woken s.scheduler
  pub only :
      (pid : Pid)
      → In pid woken
      → (n : ℕ) × Orphan n × (get_or s.slots n Slot.empty ≡ receiver_waiting (process pid))
  pub every :
      (pid : Pid) (n : ℕ)
      → Orphan n
      → get_or s.slots n Slot.empty ≡ receiver_waiting (process pid)
      → In pid woken

close_all-Closes :
    (ns : List ℕ) (s : Endpoints) → Closes (λ n. member n ns ≡ true) s (close_all ns s)
unfolding close_all
close_all-Closes [] s = record {
  woken = [];
  wakes = refl;
  only = λ pid h. absurd h;
  every = λ pid n h e. cc h;
}
close_all-Closes (m ∷ ms) s = here (close_all-Closes ms) (get_or s.slots m Slot.empty) refl
  where
    -- An endpoint where no process waits is passed over.
    passed :
        Closes (λ n. member n ms ≡ true) s (close_all ms s)
        → ((pid : Pid) → get_or s.slots m Slot.empty ≢ receiver_waiting (process pid))
        → Closes (λ n. member n (m ∷ ms) ≡ true) s (close_all ms s)
    passed c idle = record {
      woken = c.woken;
      wakes = c.wakes;
      only = λ pid h. let (n, o, e) = c.only pid h in (n, or_right (m == n) (member n ms) o, e);
      every = λ pid n o e. elim (ℕ_discrete m n) [
        | yes same ↦ absurd (idle pid (ap (λ k. get_or s.slots k Slot.empty) same ∙ e))
        | no ne ↦ c.every pid n (rw (==_ne m n ne) at o) e
      ];
    }

    here :
        ((t : Endpoints) → Closes (λ n. member n ms ≡ true) t (close_all ms t))
        → (v : EndpointSlot) → get_or s.slots m Slot.empty ≡ v
        → Closes
            (λ n. member n (m ∷ ms) ≡ true)
            s
            (close_all ms
              (closed s m (taken (record { slot = v; scheduler = s.scheduler; wakes = [] }) v)))
    here ih (receiver_waiting (process pid)) e =
        let s' : Endpoints = record {
          slots = set s.slots m Slot.empty;
          scheduler = wake_blocked_process s.scheduler pid peer_closed_result;
        } in
        let c = ih s' in
        record {
          woken = pid ∷ c.woken;
          wakes = c.wakes;
          only = λ p h. elim h [
            | inl same ↦
                (m, rw ((==_iff m m).1 refl) refl, e ∙ ap (λ k. receiver_waiting (process k)) same)
            | inr rest ↦
                let (n, o, f) = c.only p rest in
                let apart : m ≢ n = (λ same.
                  let gone : Slot.empty ≡ receiver_waiting (process p) =
                    sym (emptied s.slots m)
                    ∙ ap (λ k. get_or (set s.slots m Slot.empty) k Slot.empty) same
                    ∙ f in
                  cc gone) in
                (
                  n,
                  or_right (m == n) (member n ms) o,
                  sym (get_or-set_ne s.slots m n Slot.empty Slot.empty apart) ∙ f,
                )
          ];
          every = λ p n o f. elim (ℕ_discrete m n) [
            | yes same ↦
                let twice : receiver_waiting (process pid) ≡ receiver_waiting (process p) =
                  sym e ∙ ap (λ k. get_or s.slots k Slot.empty) same ∙ f in
                inl (cc twice)
            | no ne ↦ inr (
                c.every p n (rw (==_ne m n ne) at o)
                  (get_or-set_ne s.slots m n Slot.empty Slot.empty ne ∙ f))
          ];
        }
    here ih (receiver_waiting (task waker)) e = passed (ih s) (λ pid h. cc (sym e ∙ h))
    here ih (receiver_waiting nobody) e = passed (ih s) (λ pid h. cc (sym e ∙ h))
    here ih Slot.empty e = passed (ih s) (λ pid h. cc (sym e ∙ h))
    here ih (Slot.senders_waiting queue) e = passed (ih s) (λ pid h. cc (sym e ∙ h))

-- The wakes, and what became of the endpoints.
pub record ClosesAll (Orphan : ℕ → Type 0) (s after : Endpoints) : Type 0 where
  pub closes : Closes Orphan s after
  pub emptied_slot :
      (n : ℕ) (pid : Pid)
      → Orphan n
      → get_or s.slots n Slot.empty ≡ receiver_waiting (process pid)
      → get_or after.slots n Slot.empty ≡ Slot.empty
  pub kept_slot :
      (n : ℕ) → ¬ Orphan n → get_or after.slots n Slot.empty ≡ get_or s.slots n Slot.empty

-- `wake_orphaned_receivers` wakes with `PeerClosed` exactly the processes that wait to receive on an endpoint
-- that one of the dying processes could send on and that no process of the table can send on, by the
-- capabilities of the processes. The scheduler is changed by these wakes only; each of these endpoints
-- is empty then, and an endpoint that is not of that kind is as it was.
pub wake_orphaned_receivers-ClosesAll :
    (rights : RightsOps) (dying : List Process) (s : Endpoints)
    → ClosesAll
        (IsOrphan rights dying s.scheduler.processes)
        s
        (wake_orphaned_receivers rights dying s)
unfolding wake_orphaned_receivers
wake_orphaned_receivers-ClosesAll rights dying s =
    let table = s.scheduler.processes in
    let c = close_all-Closes (orphaned rights table dying) s in
    record {
      closes = record {
        woken = c.woken;
        wakes = c.wakes;
        only = λ pid h.
            let (n, o, e) = c.only pid h in (n, orphaned-IsOrphan rights n dying table o, e);
        every = λ pid n o e. c.every pid n (IsOrphan-orphaned rights n dying table o) e;
      };
      emptied_slot = λ n pid o e.
          let orphan =
            sym (member-orphaned rights table n dying) ∙ IsOrphan-orphaned rights n dying table o in
          wake_orphaned_receivers_slot rights dying s n ∙ rw (orphan, e) refl;
      kept_slot = λ n no_orphan.
          elim (Bool-cases
            (could_send rights dying n && not (still_has_a_live_sender rights table n))) [
              | inl e ↦ absurd (
                  no_orphan (
                    orphaned-IsOrphan rights n dying table
                      (member-orphaned rights table n dying ∙ e)))
              | inr e ↦ wake_orphaned_receivers_slot rights dying s n ∙ rw e refl
            ];
    }
