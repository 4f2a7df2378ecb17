-- ===== src/Task/Scheduler/Names.antt =====
-- kernel/src/task/scheduler.rs: what a `Pid` names, before and after a slot is given out.
use tarn_os.Prelude.{
  ℕ, zero, suc, ◌+◌, ◌^◌, ◌%◌, ◌<◌, ◌≡◌, ◌≢◌, refl, sym, subst, ap, ap₂, ◌∙◌, Bool, true, false,
  not, ◌&&◌, ◌||◌, Bool-cases, Option-cases, inl, inr, Option, none, some, arith, List, [], ◌∷◌,
  length, set, get_or, get_or-set_self, get_or-set_ne, set-set, ◌==◌, ==_iff, ==_ne, leb,
  if◌then◌else◌, ℕ_discrete,
}
use tarn_os.Task.Pid
use tarn_os.Task.Pid.{Pid, new_lem, new-index-generation, index-generation-new}
use tarn_os.Task.Process.{Process}
use tarn_os.Task.Scheduler.{
  Slot, empty, reserved, occupied, Scheduler, max_processes, slot_at, generation_at, is_empty_slot,
  is_stale, process_in, unreserved, occupied_mut, release_reservation, find_free, allocate_pid,
  spawn, enqueue, ok,
}

-- The table has its slots, and a generation for each.
pub record IsTable (s : Scheduler) : Type 0 where
  pub slots : length s.processes ≡ max_processes
  pub counters : length s.generations ≡ max_processes

empty_slot : (slot : Slot) → is_empty_slot slot ≡ true → slot ≡ empty
empty_slot Slot.empty e = refl
empty_slot Slot.reserved e = cc
empty_slot (Slot.occupied p) e = cc
empty_slot (Slot.zombie p status) e = cc

and_left : (a b : Bool) → (a && b) ≡ true → a ≡ true
and_left true b e = refl
and_left false b e = e

pub find_free-some :
    (s : Scheduler) (rounds i k : ℕ)
    → find_free s rounds i ≡ some k
    → (slot_at s k ≡ empty) × (k < i + rounds)
unfolding find_free
find_free-some s zero i k e = cc
find_free-some s (suc rounds) i k e =
    elim (Bool-cases (is_empty_slot (slot_at s i) && not (get_or s.stack_busy i false))) [
      | inl here_free ↦
          let here : i ≡ k = let h : some i ≡ some k = rw here_free at e in cc h in
          (
            ap (slot_at s) (sym here) ∙ empty_slot (slot_at s i) (and_left _ _ here_free),
            omega (arith, here),
          )
      | inr taken ↦
          let (free, bound) = find_free-some s rounds (i + 1) k (rw taken at e) in
          (free, omega (arith, bound))
    ]

-- What a `Pid` of another slot names does not depend on the slot.
either : (b : Bool) (x : Option Process) → (if b || true then none else x) ≡ none
either true x = refl
either false x = refl

in_range : (k : ℕ) → k < max_processes → leb max_processes k ≡ false
in_range k h = ground arith

module _ (s : Scheduler) (i g : ℕ) (slot : Slot) where
  given : Scheduler
  given = record s { generations = set s.generations i g; processes = set s.processes i slot }

  elsewhere : (q : Pid) → i ≢ Pid.index q → occupied_mut given q ≡ occupied_mut s q
  unfolding given occupied_mut
  elsewhere q apart =
      rw
        (
          get_or-set_ne s.generations i (Pid.index q) g 0 apart,
          get_or-set_ne s.processes i (Pid.index q) slot empty apart,
        )
        refl

  stale :
      (q : Pid)
      → IsTable s
      → i < max_processes
      → i ≡ Pid.index q
      → g ≢ Pid.generation q
      → occupied_mut given q ≡ none
  unfolding given occupied_mut
  stale q table small here other =
      let now : get_or (set s.generations i g) (Pid.index q) 0 ≡ g =
        subst (λ k. get_or (set s.generations i g) k 0 ≡ g) here
          (get_or-set_self s.generations i g 0 (omega (arith, table))) in
      rw (now, ==_ne g (Pid.generation q) other) (either (leb max_processes (Pid.index q)) _)

  named :
      (q : Pid) (p : Process)
      → IsTable s
      → i < max_processes
      → i ≡ Pid.index q
      → g ≡ Pid.generation q
      → slot ≡ occupied p
      → occupied_mut given q ≡ some p
  unfolding given occupied_mut
  named q p table small here same full =
      let now : get_or (set s.generations i g) (Pid.index q) 0 ≡ g =
        subst (λ k. get_or (set s.generations i g) k 0 ≡ g) here
          (get_or-set_self s.generations i g 0 (omega (arith, table))) in
      let there : get_or (set s.processes i slot) (Pid.index q) empty ≡ occupied p =
        subst (λ k. get_or (set s.processes i slot) k empty ≡ occupied p) here
          (get_or-set_self s.processes i slot empty (omega (arith, table)) ∙ full) in
      rw
        (
          in_range (Pid.index q) (omega (arith, here)),
          now,
          (==_iff g (Pid.generation q)).1 same,
          there,
        )
        refl

unnamed : (s : Scheduler) (q : Pid) → slot_at s (Pid.index q) ≡ empty → occupied_mut s q ≡ none
unfolding occupied_mut
unnamed s q e = elim (Bool-cases (is_stale s q)) [ inl h ↦ rw h refl | inr h ↦ rw (h, e) refl ]

-- A process put in an empty slot under the slot's next generation is what exactly one `Pid` names.
given-names :
    (s : Scheduler) (i g : ℕ) (process : Process) (q : Pid)
    → IsTable s
    → i < max_processes
    → g < 2 ^ 32
    → slot_at s i ≡ empty
    → process.pid ≡ Pid.new i g
    → q < 2 ^ 64
    → occupied_mut (given s i g (occupied process)) q
      ≡ (if q == process.pid then some process else occupied_mut s q)
given-names s i g process q table small word free mine range =
    let (at_i, at_g) = index-generation-new i g (omega arith) word in
    elim (ℕ_discrete q process.pid) [
      | yes e ↦ rw ((==_iff q process.pid).1 e) (
          named s i g (occupied process) q process table small
            (sym at_i ∙ ap Pid.index (sym (e ∙ mine)))
            (sym at_g ∙ ap Pid.generation (sym (e ∙ mine))) refl)
      | no ne ↦ rw (==_ne q process.pid ne) (elim (ℕ_discrete i (Pid.index q)) [
        | no apart ↦ elsewhere s i g (occupied process) q apart
        | yes here ↦
            stale s i g (occupied process) q table small here (λ same.
              ne
                (sym (new-index-generation q range) ∙ ap₂ Pid.new (sym here) (sym same) ∙ sym mine))
            ∙ sym (unnamed s q (ap (slot_at s) (sym here) ∙ free))
      ])
    ]

abbrev next_generation : Scheduler → ℕ → ℕ
next_generation s i = (generation_at s i + 1) % 2 ^ 32

allocate_pid-some :
    (s : Scheduler) (i : ℕ)
    → find_free s max_processes 0 ≡ some i
    → allocate_pid s ≡ (Pid.new i (next_generation s i), given s i (next_generation s i) reserved)
unfolding allocate_pid given
allocate_pid-some s i e = rw (e, allocate_pid) refl

allocate_pid-none :
    (s : Scheduler)
    → find_free s max_processes 0 ≡ none
    → allocate_pid s ≡ (Pid.new max_processes 0, s)
unfolding allocate_pid
allocate_pid-none s e = rw (e, allocate_pid) refl

pub allocate_pid-lt : (s : Scheduler) → (allocate_pid s).0 < 2 ^ 64
allocate_pid-lt s = elim (Option-cases (find_free s max_processes 0)) [
  | inl e ↦
      rw (allocate_pid-none s e)
        (omega (arith, new_lem max_processes 0 (omega arith) (omega arith)))
  | inr (i, e) ↦
      let (_, small) = find_free-some s max_processes 0 i e in
      let g = next_generation s i in
      rw (allocate_pid-some s i e) (omega (arith, new_lem i g (omega (arith, small)) (omega arith)))
]

reserved_names_none :
    (s : Scheduler) (q : Pid) → slot_at s (Pid.index q) ≡ reserved → occupied_mut s q ≡ none
unfolding occupied_mut
reserved_names_none s q e = elim (Bool-cases (is_stale s q)) [
  | inl h ↦ rw h refl
  | inr h ↦ rw (h, e) refl
]

-- Reserving a slot changes what no `Pid` names.
pub allocate_pid-names :
    (s : Scheduler) (q : Pid) → IsTable s → occupied_mut (allocate_pid s).1 q ≡ occupied_mut s q
allocate_pid-names s q table = elim (Option-cases (find_free s max_processes 0)) [
  | inl e ↦ rw (allocate_pid-none s e) refl
  | inr (i, e) ↦
      let (free, small) = find_free-some s max_processes 0 i e in
      let g = next_generation s i in
      rw (allocate_pid-some s i e) (elim (ℕ_discrete i (Pid.index q)) [
        | no apart ↦ elsewhere s i g reserved q apart
        | yes here ↦
            reserved_names_none (given s i g reserved) q (given_slot s i g q table small here)
            ∙ sym (unnamed s q (ap (slot_at s) (sym here) ∙ free))
      ])
]
  where
    given_slot :
        (t : Scheduler) (i g : ℕ) (p : Pid)
        → IsTable t
        → i < max_processes
        → i ≡ Pid.index p
        → slot_at (given t i g reserved) (Pid.index p) ≡ reserved
    given_slot t i g p tab small here =
        unfold given in
        subst (λ k. get_or (set t.processes i reserved) k empty ≡ reserved) here
          (get_or-set_self t.processes i reserved empty (omega (arith, tab)))

-- What a slot names once a reservation of it is given back.
slot_names : (slot : Slot) → process_in (unreserved slot) ≡ process_in slot
slot_names Slot.empty = refl
slot_names Slot.reserved = refl
slot_names (Slot.occupied p) = refl
slot_names (Slot.zombie p status) = refl

release_slot :
    (slots : List Slot) (i j : ℕ)
    → process_in (get_or (set slots i (unreserved (get_or slots i empty))) j empty)
      ≡ process_in (get_or slots j empty)
release_slot [] i j = refl
release_slot (x ∷ slots) zero zero = slot_names x
release_slot (x ∷ slots) zero (suc j) = refl
release_slot (x ∷ slots) (suc i) zero = refl
release_slot (x ∷ slots) (suc i) (suc j) = release_slot slots i j

-- Neither does giving a reservation back.
pub release_reservation-names :
    (s : Scheduler) (p q : Pid) → occupied_mut (release_reservation s p) q ≡ occupied_mut s q
unfolding release_reservation occupied_mut
release_reservation-names s p q = elim (Bool-cases (is_stale s p)) [
  | inl e ↦ rw e refl
  | inr e ↦ rw e (
      ap (λ x. if is_stale s q then none else x)
        (release_slot s.processes (Pid.index p) (Pid.index q)))
]

spawned : Scheduler → ℕ → ℕ → Process → Scheduler
unfolding given
spawned s i g process = enqueue (given s i g (occupied process)) process.pid

spawn-given :
    (s : Scheduler) (i g : ℕ) (process : Process)
    → i < max_processes
    → g < 2 ^ 32
    → process.pid ≡ Pid.new i g
    → spawn (given s i g reserved) process ≡ ok (spawned s i g process)
unfolding spawn given spawned
spawn-given s i g process small word mine =
    let (at_i, _) = index-generation-new i g (omega arith) word in
    let place : Pid.index process.pid ≡ i = ap Pid.index mine ∙ at_i in
    rw (place, in_range i small, set-set s.processes i reserved (occupied process)) refl

-- A new process is what its `Pid` names, and nothing else changes its name. When `allocate_pid`
-- finds a slot, spawning a process under the `Pid` that it answers succeeds; before, that `Pid`
-- named no process; after, it names this one, and every other `Pid`, those of the slot's earlier
-- processes too, names what it named before.
pub spawn-allocate_pid :
    (s : Scheduler) (process : Process) (q : Pid)
    → IsTable s
    → Pid.index (allocate_pid s).0 < max_processes
    → process.pid ≡ (allocate_pid s).0
    → q < 2 ^ 64
    → (occupied_mut s process.pid ≡ none)
      × (u : Scheduler) × (spawn (allocate_pid s).1 process ≡ ok u)
      × (occupied_mut u q ≡ (if q == process.pid then some process else occupied_mut s q))
unfolding spawned occupied_mut
spawn-allocate_pid s process q table found mine range =
    elim (Option-cases (find_free s max_processes 0)) [
      | inl e ↦
          let bad : Pid.index (Pid.new max_processes 0) < max_processes =
            rw (allocate_pid-none s e) at found in
          absurd (omega (arith, index-generation-new max_processes 0 (omega arith) (omega arith)))
      | inr (i, e) ↦
          let g = next_generation s i in
          let a = allocate_pid-some s i e in
          let (free, small) = find_free-some s max_processes 0 i e in
          let word : g < 2 ^ 32 = omega arith in
          let name : process.pid ≡ Pid.new i g = mine ∙ ap (λ r. r.0) a in
          let (at_i, _) = index-generation-new i g (omega arith) word in
          (
            unnamed s process.pid (ap (slot_at s) (ap Pid.index name ∙ at_i) ∙ free),
            spawned s i g process,
            ap (λ r. spawn r.1 process) a ∙ spawn-given s i g process small word name,
            given-names s i g process q table small word free name range,
          )
    ]
