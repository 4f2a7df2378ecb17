-- ===== src/Tests/Steps.antt =====
-- kernel/src/task/scheduler.rs: two processes that the kernel starts, and the first ticks.
use tarn_os.Prelude.{
  false, true, ap, get_or-replicate, zero, suc, ◌↔◌, ℕ, ◌≡◌, refl, none, some, List, [], ◌∷◌, arith,
}
use tarn_os.Kcore.Ring
use tarn_os.Kcore.Ring.Refine.{Represents, new-Represents, push_with_room, pop_front}
use tarn_os.Task.Pid
use tarn_os.Task.Pid.{Pid}
use tarn_os.Task.Process.{TrapFrame, ProcessState, Process}
use tarn_os.Task.Scheduler.{
  Slot, Scheduler, new, Result, ok, err, is_stale, max_processes, slot_at, process_in, current_at,
  set_current, find_free, allocate_pid, spawn,
}
use tarn_os.Task.Scheduler.Dispatch.{
  Selectors, Switched, panics, idles, resumes, running_elsewhere, switch_to, on_timer_tick,
  switch_to_next_or_halt, idle_round,
}
use tarn_os.Task.Scheduler.Kill.{terminates, kill_round, on_reschedule_ipi}
use tarn_os.Task.Scheduler.Invariant.{IsConsistent, holders, occurrences}
use tarn_os.Task.Scheduler.Invariant.Front.{slot_passes}
use tarn_os.Task.Scheduler.Invariant.Run.{front_passes}
use tarn_os.Task.Scheduler.Invariant.Finalize.{Owns}
use tarn_os.Task.Scheduler.Steps.{After, resumed, Reachable, start, step, allocates, spawns, polls}
use tarn_os.Task.Scheduler.Steps.Safety.{
  Reachable-IsConsistent, one_core, fresh-Owns, Reachable-panics,
}
use tarn_os.Task.Scheduler.Steps.Frames.{lone_tick-panics}
use tarn_os.Task.Scheduler.Steps.Turns.{ticks, queued_runs}
use tarn_os.Task.Scheduler.Steps.Eviction.{evicted_ends}
use tarn_os.Tests.Task.{blank, process_of}

abbrev sel : Selectors
sel = record { user_code = 0x23; user_data = 0x1b }

abbrev user_frame : TrapFrame
user_frame = record blank { cs = 0x23; ss = 0x1b; rip = 0x40_0000; rsp = 0x7fff_0000 }

abbrev ready_process : Pid → Process
ready_process pid = record (process_of pid ProcessState.ready none) { trap_frame = user_frame }

abbrev first_pid : Pid
first_pid = 0x1_0000_0000

abbrev second_pid : Pid
second_pid = 0x1_0000_0001

abbrev spawned : Result → Scheduler
spawned (ok s) = s
spawned (err e) = new

abbrev switched : Switched → Scheduler
switched panics = new
switched (idles s) = s
switched (resumes frame s) = s

abbrev one_reserved : Scheduler
one_reserved = (allocate_pid new).1

abbrev one_spawned : Scheduler
one_spawned = spawned (spawn one_reserved (ready_process first_pid))

abbrev one_running : Scheduler
one_running = switched (idle_round sel one_spawned 0)

abbrev two_reserved : Scheduler
two_reserved = (allocate_pid one_running).1

-- Core 0 runs the first process, and the second is in the queue.
abbrev two_started : Scheduler
two_started = spawned (spawn two_reserved (ready_process second_pid))

one_spawned-Reachable : Reachable sel one_spawned
unfolding spawn allocate_pid find_free new Pid.new Pid.index Pid.generation
one_spawned-Reachable =
    step one_reserved one_spawned (step new one_reserved start (allocates new)) (
      spawns one_reserved one_spawned (ready_process first_pid)
        (record { inside = omega arith; reservation = refl; own = refl; waiter = tt }) refl refl)

one_running-Reachable : Reachable sel one_running
unfolding idle_round switch_to running_elsewhere set_current spawn allocate_pid find_free new
    Pid.new Pid.index Pid.generation Ring.pop Ring.push Ring.new
one_running-Reachable =
    step one_spawned one_running one_spawned-Reachable (polls one_spawned one_running 0 resumed)

two_started-Reachable : Reachable sel two_started
unfolding idle_round switch_to running_elsewhere set_current spawn allocate_pid find_free new
    Pid.new Pid.index Pid.generation Ring.pop Ring.push Ring.new
two_started-Reachable =
    step two_reserved two_started
      (step one_running two_reserved one_running-Reachable (allocates one_running))
      (spawns two_reserved two_started (ready_process second_pid)
        (record { inside = omega arith; reservation = refl; own = refl; waiter = tt }) refl refl)

one_queue : Represents one_running.ready_queue []
unfolding idle_round switch_to running_elsewhere set_current spawn allocate_pid find_free new
    Pid.new Pid.index Pid.generation Ring.pop Ring.push Ring.new
one_queue =
    let empty_queue = new-Represents {T = Pid} max_processes (omega arith) (omega arith) in
    let (_, pushed, _) =
      push_with_room (Ring.new max_processes) [] first_pid empty_queue (λ e. omega arith) in
    let (_, popped, _, _) =
      pop_front (Ring.push (Ring.new max_processes) first_pid).1 first_pid [] pushed in
    popped

two_queue : Represents two_started.ready_queue (second_pid ∷ [])
unfolding idle_round switch_to running_elsewhere set_current spawn allocate_pid find_free new
    Pid.new Pid.index Pid.generation Ring.pop Ring.push Ring.new
two_queue =
    let (_, pushed, _) =
      push_with_room one_running.ready_queue [] second_pid one_queue (λ e. omega arith) in
    pushed

first_runs : current_at one_running 0 ≡ some first_pid
unfolding idle_round switch_to running_elsewhere set_current spawn allocate_pid find_free new
    Pid.new Pid.index Pid.generation Ring.pop Ring.push Ring.new
first_runs = refl

first_still_runs : current_at two_started 0 ≡ some first_pid
unfolding idle_round switch_to running_elsewhere set_current spawn allocate_pid find_free new
    Pid.new Pid.index Pid.generation Ring.pop Ring.push Ring.new
first_still_runs = refl

Reachable-IsConsistent_example : IsConsistent two_started
Reachable-IsConsistent_example = Reachable-IsConsistent sel two_started two_started-Reachable

second_fresh : is_stale two_started second_pid ≡ false
unfolding idle_round switch_to running_elsewhere set_current spawn allocate_pid find_free new
    Pid.new Pid.index Pid.generation Ring.pop Ring.push Ring.new
second_fresh = refl

second_owned : Owns two_started second_pid
second_owned =
    fresh-Owns two_started second_pid (Reachable-IsConsistent sel two_started two_started-Reachable)
      second_fresh (omega arith)

abbrev core_0 : ℕ
core_0 = 0

one_core_example :
    (core_0 ≡ core_0)
    × ((xs : List Pid) × Represents two_started.ready_queue xs × (occurrences first_pid xs ≡ 0))
one_core_example =
    one_core sel two_started first_pid 0 0 two_started-Reachable first_still_runs first_still_runs

front_fits : front_passes sel two_started ≡ true
unfolding idle_round switch_to running_elsewhere set_current spawn allocate_pid find_free new
    Pid.new Pid.index Pid.generation Ring.pop Ring.push Ring.new
front_fits = refl

all_fit : (i : ℕ) → slot_passes sel (slot_at two_started i) ≡ true
unfolding idle_round switch_to running_elsewhere set_current spawn allocate_pid find_free new
    Pid.new Pid.index Pid.generation Ring.pop Ring.push Ring.new
all_fit zero = refl
all_fit (suc zero) = refl
all_fit (suc (suc i)) = ap (slot_passes sel) (get_or-replicate 14 i Slot.empty)

Reachable-panics_example :
    ((switch_to_next_or_halt sel two_started 0 none ≡ panics)
      ↔ (front_passes sel two_started ≡ false))
    × ((idle_round sel two_started 0 ≡ panics) ↔ (front_passes sel two_started ≡ false))
Reachable-panics_example = Reachable-panics sel two_started 0 none two_started-Reachable

queued_runs_example :
    (t : Scheduler) × (ticks sel 1 two_started 0 (λ k. user_frame) ≡ some t)
    × (current_at t 0 ≡ some second_pid)
queued_runs_example =
    queued_runs sel two_started 0 (λ k. user_frame) first_pid second_pid [] [] two_started-Reachable
      first_still_runs (λ k. refl) all_fit two_queue

evicted_ends_example :
    (t : Scheduler) × After (on_reschedule_ipi sel two_started 0 first_pid user_frame) t
    × (holders first_pid t.current ≡ 0)
    × ((u : Scheduler) × (drops : List Process) × (kill_round t first_pid
          ≡ terminates (some (u, drops)))
        × (process_in (slot_at u (Pid.index first_pid)) ≡ none))
evicted_ends_example =
    evicted_ends sel two_started 0 user_frame first_pid two_started-Reachable first_still_runs
      (λ e. omega (arith, e)) front_fits

-- The process sets its stack pointer beyond the lower half and yields.
abbrev high_stack : TrapFrame
high_stack = record user_frame { rsp = 0x8000_0000_0000 }

lone_tick-panics_example : on_timer_tick sel one_running 0 high_stack ≡ panics
lone_tick-panics_example =
    lone_tick-panics sel one_running 0 high_stack first_pid one_running-Reachable first_runs
      one_queue refl
