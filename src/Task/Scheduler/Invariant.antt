-- ===== src/Task/Scheduler/Invariant.antt =====
-- kernel/src/task/scheduler.rs: the invariant of the table, the ready queue and the cores.
pub mod Counts
pub mod Put
pub mod Wake
pub mod Block
pub mod Create
pub mod Front
pub mod Run
pub mod Tick
pub mod Clear
pub mod Finalize
pub mod Kill
use tarn_os.Prelude.{
  ℕ, zero, suc, ◌+◌, ◌^◌, ◌≤◌, ◌<◌, ◌≡◌, List, [], ◌∷◌, Option, none, some, ◌==◌, if◌then◌else◌,
  length,
}
use tarn_os.Kcore.Ring.Refine.{Represents}
use tarn_os.Task.Pid
use tarn_os.Task.Pid.{Pid}
use tarn_os.Task.Process.{ProcessState, Process}
use tarn_os.Task.Scheduler.{Slot, Scheduler, max_processes, max_cores, slot_at, generation_at}

abbrev pub occurrences : Pid → List Pid → ℕ
occurrences p [] = 0
occurrences p (q ∷ qs) = (if q == p then 1 else 0) + occurrences p qs

-- How many cores run `p`.
abbrev pub holders : Pid → List (Option Pid) → ℕ
holders p [] = 0
holders p (none ∷ cores) = holders p cores
holders p (some q ∷ cores) = (if q == p then 1 else 0) + holders p cores

abbrev pub ready_bit : ProcessState → ℕ
ready_bit ProcessState.ready = 1
ready_bit ProcessState.running = 0
ready_bit ProcessState.blocked = 0
ready_bit ProcessState.suspended = 0

abbrev pub running_bit : ProcessState → ℕ
running_bit ProcessState.ready = 0
running_bit ProcessState.running = 1
running_bit ProcessState.blocked = 0
running_bit ProcessState.suspended = 0

-- 1 where the slot holds the process `p`, ready or running, and 0 elsewhere.
abbrev pub ready_of : Slot → Pid → ℕ
ready_of Slot.empty p = 0
ready_of Slot.reserved p = 0
ready_of (Slot.zombie parent status) p = 0
ready_of (Slot.occupied q) p = if q.pid == p then ready_bit q.state else 0

abbrev pub running_of : Slot → Pid → ℕ
running_of Slot.empty p = 0
running_of Slot.reserved p = 0
running_of (Slot.zombie parent status) p = 0
running_of (Slot.occupied q) p = if q.pid == p then running_bit q.state else 0

abbrev pub ready_slot : Slot → ℕ
ready_slot Slot.empty = 0
ready_slot Slot.reserved = 0
ready_slot (Slot.zombie parent status) = 0
ready_slot (Slot.occupied q) = ready_bit q.state

abbrev pub total_ready : List Slot → ℕ
total_ready [] = 0
total_ready (slot ∷ slots) = ready_slot slot + total_ready slots

abbrev pub IsWord : Option Pid → Type 0
IsWord none = Unit {0}
IsWord (some pid) = pid < 2 ^ 64

-- A process whose waiter is a `u64`.
abbrev pub IsSound : Process → Type 0
IsSound p = IsWord p.wait_waiter

-- What slot `i` of generation `g` may hold: a process of that name.
abbrev pub Named : ℕ → ℕ → Slot → Type 0
Named i g Slot.empty = Unit {0}
Named i g Slot.reserved = Unit {0}
Named i g (Slot.zombie parent status) = Unit {0}
Named i g (Slot.occupied p) = (p.pid ≡ Pid.new i g) × IsSound p

-- The queue holds each ready process once and nothing else; a process that a core runs is running,
-- and no two cores run one; every process stands in the slot and under the generation that its
-- `Pid` names. The frames that processes saved may be any.
pub record IsConsistent (s : Scheduler) : Type 0 where
  pub slots : length s.processes ≡ max_processes
  pub counters : length s.generations ≡ max_processes
  pub cores : length s.current ≡ max_cores
  pub small : (i : ℕ) → generation_at s i < 2 ^ 32
  pub queue : List Pid
  pub represents : Represents s.ready_queue queue
  pub capacity : s.ready_queue.capacity ≡ max_processes
  pub queued : (p : Pid) → occurrences p queue ≡ ready_of (slot_at s (Pid.index p)) p
  pub counted : length queue ≡ total_ready s.processes
  pub held : (p : Pid) → holders p s.current ≤ running_of (slot_at s (Pid.index p)) p
  pub named : (i : ℕ) → Named i (generation_at s i) (slot_at s i)
