-- ===== src/Task/Scheduler/Invariant/Create.antt =====
-- The invariant is kept when a process is named, created or started.
use tarn_os.Prelude.{
  ℕ, ◌+◌, ◌%◌, ◌<◌, ◌^◌, ◌≡◌, refl, sym, subst, ap, ◌∙◌, Bool, true, false, not, ◌||◌, some, leb,
  if◌then◌else◌, arith, Option-cases, inl, inr, length-set, set, get_or, get_or-set, get_or-set_ne,
  ℕ_discrete,
}
use tarn_os.Abi.Errors.{invalid_target}
use tarn_os.Task.Pid
use tarn_os.Task.Pid.{Pid, index-generation-new}
use tarn_os.Task.Process.{ProcessState, Process}
use tarn_os.Task.Scheduler.{
  Slot, Scheduler, max_processes, slot_at, put_slot, generation_at, enqueue, occupied_mut,
  is_suspended, is_pid, find_free, allocate_pid, ok, err, spawn, spawn_suspended, start_child,
}
use tarn_os.Task.Scheduler.Names.{find_free-some}
use tarn_os.Task.Scheduler.Invariant.{
  holders, ready_of, running_of, ready_slot, ready_bit, running_bit, Named, IsSound, IsConsistent,
}
use tarn_os.Task.Scheduler.Invariant.Put.{put_same, keep-IsConsistent, ready-IsConsistent}
use tarn_os.Task.Scheduler.Invariant.Wake.{occupied_mut-Found, release_to_queue, not_held}

is_suspended-eq :
    (state : ProcessState) → is_suspended state ≡ true → state ≡ ProcessState.suspended
is_suspended-eq ProcessState.ready e = cc
is_suspended-eq ProcessState.running e = cc
is_suspended-eq ProcessState.blocked e = cc
is_suspended-eq ProcessState.suspended e = refl

guarded :
    (a b : Bool) (x t : Scheduler)
    → (if not a || not b then err invalid_target else ok x) ≡ ok t
    → (b ≡ true) × (x ≡ t)
guarded true true x t h = (refl, cc h)
guarded true false x t h = cc
guarded false b x t h = cc

-- A successful `start_child` found a suspended process and made it ready.
start_child-ok :
    (s t : Scheduler) (target caller : Pid)
    → start_child s target caller ≡ ok t
    → (p : Process) × (occupied_mut s target ≡ some p)
      × (is_suspended p.state ≡ true)
      × (enqueue
            (put_slot s
              (Pid.index target)
              (Slot.occupied (record p { state = ProcessState.ready })))
            target
          ≡ t)
unfolding start_child
start_child-ok s t target caller h = elim (Option-cases (occupied_mut s target)) [
  | inl e ↦ let bad : err invalid_target ≡ ok t = rw (e, start_child) at h in cc bad
  | inr (p, e) ↦
      let (a, b) =
        guarded (is_pid caller p.parent) (is_suspended p.state) _ t (rw (e, start_child) at h) in
      (p, e, a, b)
]

pub start_child-IsConsistent :
    (s t : Scheduler) (target caller : Pid)
    → IsConsistent s
    → target < 2 ^ 64
    → start_child s target caller ≡ ok t
    → IsConsistent t
start_child-IsConsistent s t target caller w word h =
    let (p, e, state, same) = start_child-ok s t target caller h in
    let f = occupied_mut-Found s w target p word e in
    let suspended = is_suspended-eq p.state state in
    subst IsConsistent same (
      release_to_queue s w target p f (record p { state = ProcessState.ready }) refl
        (ap ready_bit suspended) (not_held s w target p f (ap running_bit suspended)) refl f.waiter)

-- A process that its creator made under the `Pid` of a reserved slot.
pub record IsNew (s : Scheduler) (p : Process) : Type 0 where
  pub inside : Pid.index p.pid < max_processes
  pub reservation : slot_at s (Pid.index p.pid) ≡ Slot.reserved
  pub own : p.pid ≡ Pid.new (Pid.index p.pid) (generation_at s (Pid.index p.pid))
  pub waiter : IsSound p

above : (k : ℕ) → k < max_processes → leb max_processes k ≡ false
above k h = ground arith

-- No core runs a process of a reserved slot.
reserved_free :
    (s : Scheduler) (i : ℕ)
    → IsConsistent s
    → slot_at s i ≡ Slot.reserved
    → (r : Pid) → Pid.index r ≡ i
    → holders r s.current ≡ 0
reserved_free s i w e r at_i =
    omega (arith, w.held r, ap (λ k. running_of (slot_at s k) r) at_i ∙ ap (λ x. running_of x r) e)

pub spawn-IsConsistent :
    (s t : Scheduler) (p : Process)
    → IsConsistent s
    → IsNew s p
    → p.state ≡ ProcessState.ready
    → spawn s p ≡ ok t
    → IsConsistent t
unfolding spawn
spawn-IsConsistent s t p w n state h =
    let i = Pid.index p.pid in
    let same : enqueue (put_slot s i (Slot.occupied p)) p.pid ≡ t =
      let e : ok (enqueue (put_slot s i (Slot.occupied p)) p.pid) ≡ ok t =
        rw (above i n.inside) at h in
      cc e in
    subst IsConsistent same (
      ready-IsConsistent s i p w n.inside refl state (λ r. ap (λ x. ready_of x r) n.reservation)
        (ap ready_slot n.reservation) (reserved_free s i w n.reservation) (n.own, n.waiter))

pub spawn_suspended-IsConsistent :
    (s t : Scheduler) (p : Process)
    → IsConsistent s
    → IsNew s p
    → p.state ≡ ProcessState.suspended
    → spawn_suspended s p ≡ ok t
    → IsConsistent t
unfolding spawn_suspended
spawn_suspended-IsConsistent s t p w n state h =
    let i = Pid.index p.pid in
    let same : put_slot s i (Slot.occupied p) ≡ t =
      let e : ok (put_slot s i (Slot.occupied p)) ≡ ok t = rw (above i n.inside) at h in cc e in
    let off : ready_bit p.state ≡ 0 = ap ready_bit state in
    subst IsConsistent same (
      keep-IsConsistent s w i n.inside (Slot.occupied p)
        (λ r. ap (λ x. ready_of x r) n.reservation ∙ sym (ground (arith, off)))
        (ap ready_slot n.reservation ∙ sym off)
        (λ r e. omega (arith, reserved_free s i w n.reservation r e)) (n.own, n.waiter))

-- A slot that holds nothing takes another thing that is no process.
pub empty-IsConsistent :
    (s : Scheduler) (i : ℕ) (old v : Slot)
    → IsConsistent s
    → i < max_processes
    → slot_at s i ≡ old
    → ((p : Pid) → ready_of old p ≡ 0)
    → ((p : Pid) → running_of old p ≡ 0)
    → ready_slot old ≡ 0
    → ((p : Pid) → ready_of v p ≡ 0)
    → ready_slot v ≡ 0
    → Named i (generation_at s i) v
    → IsConsistent (put_slot s i v)
empty-IsConsistent s i old v w inside e a b c a' c' name =
    keep-IsConsistent s w i inside v (λ p. ap (λ x. ready_of x p) e ∙ a p ∙ sym (a' p))
      (ap ready_slot e ∙ c ∙ sym c')
      (λ p at_i. omega (
        arith,
        w.held p,
        ap (λ k. running_of (slot_at s k) p) at_i ∙ ap (λ x. running_of x p) e ∙ b p,
      ))
      name

-- The counter of a reserved slot may change.
generation-IsConsistent :
    (s : Scheduler) (i g : ℕ)
    → IsConsistent s
    → slot_at s i ≡ Slot.reserved
    → i < max_processes
    → g < 2 ^ 32
    → IsConsistent (record s { generations = set s.generations i g })
generation-IsConsistent s i g w e inside word = record {
  slots = w.slots;
  counters = length-set s.generations i g ∙ w.counters;
  cores = w.cores;
  small =
      λ j. ground (arith, get_or-set s.generations i j g 0 (omega (arith, w.counters)), w.small j);
  queue = w.queue;
  represents = w.represents;
  capacity = w.capacity;
  queued = w.queued;
  counted = w.counted;
  held = w.held;
  named = λ j. elim (ℕ_discrete i j) [
    | yes same ↦
        subst (λ k. Named k (get_or (set s.generations i g) k 0) (slot_at s k)) same
          (subst (Named i (get_or (set s.generations i g) i 0)) (sym e) tt)
    | no apart ↦
        subst (λ k. Named j k (slot_at s j)) (sym (get_or-set_ne s.generations i j g 0 apart))
          (w.named j)
  ];
}

pub allocate_pid-IsConsistent : (s : Scheduler) → IsConsistent s → IsConsistent (allocate_pid s).1
unfolding allocate_pid
allocate_pid-IsConsistent s w = elim (Option-cases (find_free s max_processes 0)) [
  | inl e ↦ rw (e, allocate_pid) w
  | inr (i, e) ↦
      let (free, small) = find_free-some s max_processes 0 i e in
      let inside : i < max_processes = omega (arith, small) in
      let held = put_same s i i Slot.reserved (omega (arith, w.slots)) refl in
      rw (e, allocate_pid)
        (generation-IsConsistent (put_slot s i Slot.reserved) i ((generation_at s i + 1) % 2 ^ 32)
          (empty-IsConsistent s i Slot.empty Slot.reserved w inside free (λ p. refl) (λ p. refl)
            refl (λ p. refl) refl tt)
          held inside (omega arith))
]
