-- ===== src/Task/Scheduler/Invariant/Counts.antt =====
-- How the counts of the invariant move when a slot, the queue or a core changes.
use tarn_os.Prelude.{
  ℕ, zero, suc, ◌+◌, ◌≤◌, ◌<◌, ◌≡◌, List, [], ◌∷◌, ◌++◌, Option, none, some, ◌==◌, ==_iff,
  if◌then◌else◌, length, set, get_or, arith,
}
use tarn_os.Task.Pid.{Pid}
use tarn_os.Task.Scheduler.{Slot}
use tarn_os.Task.Scheduler.Queue.{without}
use tarn_os.Task.Scheduler.Invariant.{occurrences, holders, ready_slot, total_ready}

pub occurrences-append :
    (p : Pid) (xs ys : List Pid) → occurrences p (xs ++ ys) ≡ occurrences p xs + occurrences p ys
occurrences-append p [] ys = omega arith
occurrences-append p (x ∷ xs) ys = omega (arith, occurrences-append p xs ys)

pub occurrences-without :
    (p target : Pid) (xs : List Pid)
    → occurrences p (without target xs) ≡ (if target == p then 0 else occurrences p xs)
unfolding without
occurrences-without p target [] = ground arith
occurrences-without p target (x ∷ xs) = ground (arith, occurrences-without p target xs)

pub length-without :
    (target : Pid) (xs : List Pid) → length (without target xs) + occurrences target xs ≡ length xs
unfolding without
length-without target [] = omega arith
length-without target (x ∷ xs) = ground (arith, length-without target xs)

pub holders-clear :
    (p : Pid) (cores : List (Option Pid)) (core : ℕ)
    → holders p (set cores core none) ≤ holders p cores
holders-clear p [] core = omega arith
holders-clear p (none ∷ cores) zero = omega arith
holders-clear p (some q ∷ cores) zero = ground arith
holders-clear p (none ∷ cores) (suc core) = holders-clear p cores core
holders-clear p (some q ∷ cores) (suc core) = ground (arith, holders-clear p cores core)

-- A core that ran `p` runs one process less.
pub holders-release :
    (p : Pid) (cores : List (Option Pid)) (core : ℕ)
    → get_or cores core none ≡ some p
    → holders p (set cores core none) + 1 ≡ holders p cores
holders-release p [] core e = cc
holders-release p (none ∷ cores) zero e = cc
holders-release p (some q ∷ cores) zero e =
    let same : q ≡ p = cc in rw ((==_iff q p).1 same) (omega arith)
holders-release p (none ∷ cores) (suc core) e = holders-release p cores core e
holders-release p (some q ∷ cores) (suc core) e = omega (arith, holders-release p cores core e)

pub holders-take :
    (p q : Pid) (cores : List (Option Pid)) (core : ℕ)
    → holders p (set cores core (some q))
      ≤ holders p (set cores core none) + (if q == p then 1 else 0)
holders-take p q [] core = omega arith
holders-take p q (none ∷ cores) zero = ground arith
holders-take p q (some r ∷ cores) zero = ground arith
holders-take p q (none ∷ cores) (suc core) = holders-take p q cores core
holders-take p q (some r ∷ cores) (suc core) = omega (arith, holders-take p q cores core)

-- A core that runs `p` counts.
pub holders-positive :
    (p : Pid) (cores : List (Option Pid)) (core : ℕ)
    → get_or cores core none ≡ some p
    → 0 < holders p cores
holders-positive p cores core e = omega (arith, holders-release p cores core e)

pub ready_slot_le_one : (slot : Slot) → ready_slot slot ≤ 1
ready_slot_le_one Slot.empty = omega arith
ready_slot_le_one Slot.reserved = omega arith
ready_slot_le_one (Slot.zombie parent status) = omega arith
ready_slot_le_one (Slot.occupied p) = ground arith

pub total_ready_le : (xs : List Slot) → total_ready xs ≤ length xs
total_ready_le [] = omega arith
total_ready_le (x ∷ xs) = omega (arith, total_ready_le xs, ready_slot_le_one x)

-- A slot that holds no ready process leaves room.
pub total_ready_lt :
    (xs : List Slot) (i : ℕ)
    → i < length xs
    → ready_slot (get_or xs i Slot.empty) ≡ 0
    → total_ready xs < length xs
total_ready_lt [] i h e = absurd (omega arith)
total_ready_lt (x ∷ xs) zero h e = omega (arith, e, total_ready_le xs)
total_ready_lt (x ∷ xs) (suc i) h e =
    omega (arith, total_ready_lt xs i (omega arith) e, ready_slot_le_one x)

pub total_ready-set :
    (xs : List Slot) (i : ℕ) (v : Slot)
    → i < length xs
    → total_ready (set xs i v) + ready_slot (get_or xs i Slot.empty) ≡ total_ready xs + ready_slot v
total_ready-set [] i v h = absurd (omega arith)
total_ready-set (x ∷ xs) zero v h = omega arith
total_ready-set (x ∷ xs) (suc i) v h = omega (arith, total_ready-set xs i v (omega arith))
