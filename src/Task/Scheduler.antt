-- ===== src/Task/Scheduler.antt =====
-- kernel/src/task/scheduler.rs: the process table, the ready queue and what each core runs. The
-- scheduler's lock makes each function here one atomic step. Interrupts that only wake idle cores,
-- the trace of dispatches and printing have no effect on this state and are left out.
pub mod Termination
pub mod Dispatch
pub mod Kill
pub mod Invariant
pub mod Steps
pub mod Wait
pub mod Names
pub mod Wakeups
pub mod Queue
pub mod Ends
pub mod Teardown
use tarn_os.Prelude.{
  ℕ, zero, suc, ◌+◌, ◌-◌, ◌%◌, ◌^◌, Bool, true, false, not, ◌&&◌, ◌||◌, List, [], ◌∷◌, ◌++◌, Option,
  none, some, ◌==◌, ltb, leb, if◌then◌else◌, length, get_or, get_elem?, set, replicate,
}
use tarn_os.Abi.Status.{ExitStatus, killed, to_regs}
use tarn_os.Abi.Errors.{SyscallError, resource_exhausted, invalid_target, as_retval}
use tarn_os.Prelude.Int.{to_u64}
use tarn_os.Kcore.Ring
use tarn_os.Kcore.Ring.{RingBuffer}
use tarn_os.Task.Pid
use tarn_os.Task.Pid.{Pid}
use tarn_os.Task.Process.{
  TrapFrame, ProcessState, ready, running, blocked, suspended, WakeResult, wait_completed, Process,
  apply_wake_result,
}

-- `MAX_PROCESSES` and `MAX_CORES`.
abbrev pub max_processes : ℕ
max_processes = 16

abbrev pub max_cores : ℕ
max_cores = 8

pub data Slot : Type 0 where
  empty reserved : Slot
  occupied : Process → Slot
  zombie : Pid → ExitStatus → Slot

-- `Inner`, with `STACK_BUSY` and each core's published copy of `current` beside it (0 for no
-- process).
pub record Scheduler : Type 0 where
  pub processes : List Slot
  pub generations : List ℕ
  pub ready_queue : RingBuffer Pid
  pub current : List (Option Pid)
  pub published : List ℕ
  pub stack_busy : List Bool

unfoldable pub new : Scheduler
new = record {
  processes = replicate max_processes empty;
  generations = replicate max_processes 0;
  ready_queue = Ring.new max_processes;
  current = replicate max_cores none;
  published = replicate max_cores 0;
  stack_busy = replicate max_processes false;
}

abbrev pub slot_at : Scheduler → ℕ → Slot
slot_at s i = get_or s.processes i empty

abbrev pub generation_at : Scheduler → ℕ → ℕ
generation_at s i = get_or s.generations i 0

abbrev pub put_slot : Scheduler → ℕ → Slot → Scheduler
put_slot s i slot = record s { processes = set s.processes i slot }

-- The answer of `push` is dropped, as the source drops it.
abbrev pub enqueue : Scheduler → Pid → Scheduler
enqueue s p = record s { ready_queue = (Ring.push s.ready_queue p).1 }

abbrev pub is_empty_slot : Slot → Bool
is_empty_slot empty = true
is_empty_slot reserved = false
is_empty_slot (occupied p) = false
is_empty_slot (zombie p status) = false

-- The search of `allocate_pid`: the first of `rounds` slots from `i` on that is empty and whose
-- kernel stack no core still runs on.
unfoldable pub find_free : Scheduler → ℕ → ℕ → Option ℕ
find_free s zero i = none
find_free s (suc rounds) i =
    let rest = find_free s rounds (i + 1) in
    if is_empty_slot (slot_at s i) && not (get_or s.stack_busy i false) then some i else rest

-- `allocate_pid`; the generation is a `u32`.
unfoldable pub allocate_pid : Scheduler → Pid × Scheduler
allocate_pid s = elim (find_free s max_processes 0) [
  | none ↦ (Pid.new max_processes 0, s)
  | some i ↦
      let g = (generation_at s i + 1) % 2 ^ 32 in
      (
        Pid.new i g,
        record s { generations = set s.generations i g; processes = set s.processes i reserved },
      )
]

abbrev pub is_stale : Scheduler → Pid → Bool
is_stale s p =
    leb max_processes (Pid.index p) || not (generation_at s (Pid.index p) == Pid.generation p)

abbrev pub unreserved : Slot → Slot
unreserved reserved = empty
unreserved empty = empty
unreserved (occupied p) = occupied p
unreserved (zombie p status) = zombie p status

unfoldable pub release_reservation : Scheduler → Pid → Scheduler
release_reservation s p =
    if is_stale s p then s else put_slot s (Pid.index p) (unreserved (slot_at s (Pid.index p)))

pub data Result : Type 0 where
  ok : Scheduler → Result
  err : SyscallError → Result

unfoldable pub spawn : Scheduler → Process → Result
spawn s process =
    if leb max_processes (Pid.index process.pid)
    then err resource_exhausted
    else ok (enqueue (put_slot s (Pid.index process.pid) (occupied process)) process.pid)

unfoldable pub spawn_suspended : Scheduler → Process → Result
spawn_suspended s process =
    if leb max_processes (Pid.index process.pid)
    then err resource_exhausted
    else ok (put_slot s (Pid.index process.pid) (occupied process))

abbrev pub process_in : Slot → Option Process
process_in empty = none
process_in reserved = none
process_in (occupied p) = some p
process_in (zombie p status) = none

-- `occupied_mut`: the process that a `Pid` names, if its generation is the slot's.
unfoldable pub occupied_mut : Scheduler → Pid → Option Process
occupied_mut s p = if is_stale s p then none else process_in (slot_at s (Pid.index p))

abbrev pub published_pid : Option Pid → ℕ
published_pid none = 0
published_pid (some p) = p

unfoldable pub set_current : Scheduler → ℕ → Option Pid → Scheduler
set_current s core pid = record s {
  current = set s.current core pid;
  published = set s.published core (published_pid pid);
}

abbrev pub current_at : Scheduler → ℕ → Option Pid
current_at s core = get_or s.current core none

abbrev pub is_pid : Pid → Option Pid → Bool
is_pid p none = false
is_pid p (some q) = q == p

abbrev pub is_suspended : ProcessState → Bool
is_suspended ready = false
is_suspended running = false
is_suspended blocked = false
is_suspended suspended = true

abbrev pub is_blocked : ProcessState → Bool
is_blocked ready = false
is_blocked running = false
is_blocked blocked = true
is_blocked suspended = false

unfoldable pub start_child : Scheduler → Pid → Pid → Result
start_child s target caller = elim (occupied_mut s target) [
  | none ↦ err invalid_target
  | some p ↦
      if not (is_pid caller p.parent) || not (is_suspended p.state)
      then err invalid_target
      else ok
          (enqueue (put_slot s (Pid.index target) (occupied (record p { state = ready }))) target)
]

-- `wake_blocked_process_locked` on the process that `pid` names.
abbrev pub woken : Scheduler → Pid → WakeResult → Process → Scheduler
woken s pid result p =
    if is_blocked p.state
    then enqueue (put_slot s (Pid.index pid) (occupied (apply_wake_result p result))) pid
    else put_slot s (Pid.index pid) (occupied (record p { pending_wake = some result }))

abbrev pub woken_if : Scheduler → Pid → WakeResult → Option Process → Scheduler
woken_if s pid result none = s
woken_if s pid result (some p) = woken s pid result p

unfoldable pub wake_blocked_process : Scheduler → Pid → WakeResult → Scheduler
wake_blocked_process s pid result = woken_if s pid result (occupied_mut s pid)

-- What `block_current_process_locked` does with the slot of the process that the core runs. A wake
-- that came before the process blocked is used up.
abbrev pub blocked_as : Process → TrapFrame → Process
blocked_as p frame = record p { trap_frame = frame; state = blocked }

abbrev pub settle : Scheduler → Pid → Process → Option WakeResult → Scheduler
settle s pid p none = put_slot s (Pid.index pid) (occupied p)
settle s pid p (some result) =
    enqueue
      (put_slot s (Pid.index pid)
        (occupied (apply_wake_result (record p { pending_wake = none }) result)))
      pid

abbrev pub block_slot : Scheduler → Pid → TrapFrame → Slot → Scheduler
block_slot s pid frame empty = s
block_slot s pid frame reserved = s
block_slot s pid frame (zombie p status) = s
block_slot s pid frame (occupied p) = settle s pid (blocked_as p frame) p.pending_wake

abbrev pub block_on : Scheduler → ℕ → TrapFrame → Option Pid → Scheduler
block_on s core frame none = s
block_on s core frame (some pid) =
    set_current (block_slot s pid frame (slot_at s (Pid.index pid))) core none

unfoldable pub block_current_process : Scheduler → ℕ → TrapFrame → Scheduler
unfolding set_current
block_current_process s core frame = block_on s core frame (current_at s core)
