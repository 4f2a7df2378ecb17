-- ===== src/Task/Scheduler/Termination.antt =====
-- kernel/src/task/scheduler.rs: the end of a process, and of the orphans that it leaves suspended.
use tarn_os.Prelude.{
  ℕ, zero, suc, ◌+◌, Bool, false, ◌&&◌, List, [], ◌∷◌, ◌++◌, Option, none, some, ◌==◌,
  if◌then◌else◌,
}
use tarn_os.Abi.Status.{ExitStatus, killed}
use tarn_os.Kcore.Ring
use tarn_os.Kcore.Ring.{RingBuffer}
use tarn_os.Task.Pid
use tarn_os.Task.Pid.{Pid}
use tarn_os.Task.Process.{wait_completed, Process}
use tarn_os.Task.Scheduler.{
  max_processes, max_cores, Slot, Scheduler, slot_at, generation_at, put_slot, process_in,
  set_current, current_at, is_pid, is_suspended, wake_blocked_process, empty, reserved, occupied,
  zombie,
}

-- The loop of `remove_from_ready_queue`: a round pops one entry and keeps it unless it is `target`.
unfoldable pub drain : ℕ → RingBuffer Pid → Pid → RingBuffer Pid → RingBuffer Pid
drain zero queue target kept = kept
drain (suc rounds) queue target kept =
    let (front, rest) = Ring.pop queue in
    elim front [
      | none ↦ kept
      | some p ↦ drain rounds rest target (if p == target then kept else (Ring.push kept p).1)
    ]

unfoldable pub remove_from_ready_queue : Scheduler → Pid → Scheduler
unfolding drain
remove_from_ready_queue s target = record s {
  ready_queue = drain s.ready_queue.len s.ready_queue target (Ring.new max_processes);
}

-- The loop of `take_and_finalize_slot` over the cores, `rounds` of them from `core` on.
unfoldable pub clear_current : Scheduler → ℕ → ℕ → Pid → Scheduler
unfolding set_current
clear_current s zero core pid = s
clear_current s (suc rounds) core pid =
    clear_current (if is_pid pid (current_at s core) then set_current s core none else s) rounds
      (core + 1) pid

-- What a termination leaves: the table, and the processes whose memory is yet to be dropped.
abbrev pub Teardown : Type 0
Teardown = Scheduler × List Process

-- A slot of the sweep of `reap_children_of` that is not killed.
abbrev pub swept : Slot → Pid → Slot
swept empty exiting = empty
swept reserved exiting = reserved
swept (occupied p) exiting =
    if is_pid exiting p.parent then occupied (record p { parent = none }) else occupied p
swept (zombie parent status) exiting = if parent == exiting then empty else zombie parent status

abbrev pub is_orphaned_suspended : Slot → Pid → Bool
is_orphaned_suspended empty exiting = false
is_orphaned_suspended reserved exiting = false
is_orphaned_suspended (zombie p status) exiting = false
is_orphaned_suspended (occupied p) exiting = is_pid exiting p.parent && is_suspended p.state

-- `reap_children_of`, `rounds` slots from `i` on; `finalize` is `take_and_finalize_slot`. `none` if
-- a call of that runs out of fuel.
unfoldable pub reap_children_of :
    (Scheduler → Pid → ExitStatus → List Process → Option Teardown)
    → ℕ
    → ℕ
    → Pid
    → Scheduler
    → List Process
    → Option Teardown
reap_children_of finalize zero i exiting s drops = some (s, drops)
reap_children_of finalize (suc rounds) i exiting s drops =
    if is_orphaned_suspended (slot_at s i) exiting
    then elim (finalize s (Pid.new i (generation_at s i)) killed drops) [
      | none ↦ none
      | some (t, more) ↦ reap_children_of finalize rounds (i + 1) exiting t more
    ]
    else reap_children_of finalize rounds (i + 1) exiting
        (put_slot s i (swept (slot_at s i) exiting)) drops

-- What becomes of the slot of a process that ended, and of whoever waits for it.
abbrev pub resolve : Scheduler → Pid → ExitStatus → Option Pid → Option Pid → Scheduler
resolve s pid status (some waiter) parent = wake_blocked_process s waiter (wait_completed status)
resolve s pid status none (some parent) = put_slot s (Pid.index pid) (zombie parent status)
resolve s pid status none none = s

abbrev pub vacated : Scheduler → Pid → Scheduler
vacated s pid =
    clear_current (remove_from_ready_queue (put_slot s (Pid.index pid) empty) pid) max_cores 0 pid

-- `take_and_finalize_slot`. The fuel bounds how deep terminations of children nest.
unfoldable pub take_and_finalize_slot :
    ℕ → Scheduler → Pid → ExitStatus → List Process → Option Teardown
take_and_finalize_slot zero s pid status drops = none
take_and_finalize_slot (suc fuel) s pid status drops =
    elim (process_in (slot_at s (Pid.index pid))) [
      | none ↦ some (s, drops)
      | some p ↦
          elim (reap_children_of (take_and_finalize_slot fuel) max_processes 0 pid
            (resolve (vacated s pid) pid status p.wait_waiter p.parent) drops) [
              | none ↦ none
              | some (t, more) ↦ some (t, more ++ p ∷ [])
            ]
    ]
