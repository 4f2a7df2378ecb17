-- ===== src/Tests/Task.antt =====
-- kernel/src/task/scheduler.rs: a table with a parent and a child.
use tarn_os.Prelude.{
  ◌+◌, ◌≡◌, ◌<◌, refl, List, [], ◌∷◌, Option, none, some, false, arith, replicate, if◌then◌else◌,
  ◌==◌,
}
use tarn_os.Abi.Status.{faulted, killed}
use tarn_os.Kcore.Ring
use tarn_os.Kcore.Ring.Refine.{Represents, new-Represents, push_with_room}
use tarn_os.Task.Pid
use tarn_os.Task.Pid.{Pid}
use tarn_os.Task.Process.{
  TrapFrame, Process, ready, running, suspended, send_completed, ProcessState,
}
use tarn_os.Task.Scheduler.{
  is_stale, put_slot, Scheduler, empty, occupied, zombie, max_processes, slot_at, process_in,
  allocate_pid, find_free, spawn, ok, occupied_mut, wake_blocked_process, block_current_process,
}
use tarn_os.Task.Scheduler.Termination.{
  reap_children_of, clear_current, remove_from_ready_queue, take_and_finalize_slot,
}
use tarn_os.Task.Scheduler.Names.{IsTable, spawn-allocate_pid}
use tarn_os.Task.Scheduler.Wakeups.{wake_before_block}
use tarn_os.Task.Scheduler.Ends.{Ends}
use tarn_os.Task.Scheduler.Teardown.{take_and_finalize_slot-Ends}

abbrev pub blank : TrapFrame
blank = record {
  r15 = 0;
  r14 = 0;
  r13 = 0;
  r12 = 0;
  r11 = 0;
  r10 = 0;
  r9 = 0;
  r8 = 0;
  rbp = 0;
  rdi = 0;
  rsi = 0;
  rdx = 0;
  rcx = 0;
  rbx = 0;
  rax = 0;
  rip = 0;
  cs = 0;
  rflags = 0;
  rsp = 0;
  ss = 0;
}

abbrev pub process_of : Pid → ProcessState → Option Pid → Process
process_of pid state parent = record {
  pid = pid;
  trap_frame = blank;
  cap_table = [];
  state = state;
  parent = parent;
  wait_waiter = none;
  pending_wake = none;
  heap_end = 0;
}

-- The first `Pid` of slot 0 and that of slot 1.
abbrev pub parent_pid : Pid
parent_pid = 0x1_0000_0000

abbrev pub child_pid : Pid
child_pid = 0x1_0000_0001

abbrev parent_process : Process
parent_process = process_of parent_pid running none

-- Core 0 runs the parent; its child is not started.
abbrev pub family : Scheduler
family = record {
  processes =
      occupied parent_process
      ∷ occupied (process_of child_pid suspended (some parent_pid))
      ∷ replicate 14 empty;
  generations = 1 ∷ 1 ∷ replicate 14 0;
  ready_queue = (Ring.push (Ring.push (Ring.new max_processes) child_pid).1 parent_pid).1;
  current = some parent_pid ∷ replicate 7 none;
  published = parent_pid ∷ replicate 7 0;
  stack_busy = replicate 16 false;
}

-- The parent ends, and its suspended child is killed with it: the child's slot stays a zombie that
-- is kept for the parent.
orphan_slot :
    (t : Scheduler) × (more : List Process) × (take_and_finalize_slot 17 family parent_pid faulted
        []
      ≡ some (t, more))
    × (slot_at t 0 ≡ empty)
    × (slot_at t 1 ≡ zombie parent_pid killed)
unfolding take_and_finalize_slot Pid.index Pid.generation Pid.new reap_children_of clear_current
    remove_from_ready_queue
orphan_slot = (_, _, refl, refl, refl)

named : occupied_mut family parent_pid ≡ some parent_process
unfolding occupied_mut Pid.index Pid.generation
named = refl

wake_before_block_example :
    block_current_process (wake_blocked_process family parent_pid send_completed) 0 blank
    ≡ wake_blocked_process (block_current_process family 0 blank) parent_pid send_completed
wake_before_block_example =
    wake_before_block family 0 blank parent_pid parent_process send_completed refl named refl refl

take_and_finalize_slot-Ends_example :
    (t : Scheduler) × (more : List Process) × (take_and_finalize_slot
        (max_processes + 1)
        family
        parent_pid
        killed
        []
      ≡ some (t, more))
    × Ends family [] t more
    × (process_in (slot_at t (Pid.index parent_pid)) ≡ none)
take_and_finalize_slot-Ends_example = take_and_finalize_slot-Ends family parent_pid killed [] refl

family_queue : Represents family.ready_queue (child_pid ∷ parent_pid ∷ [])
unfolding Ring.new
family_queue =
    let first =
      push_with_room (Ring.new max_processes) [] child_pid
        (new-Represents max_processes (omega arith) (omega arith)) (λ e. omega arith) in
    (push_with_room (Ring.push (Ring.new max_processes) child_pid).1 (child_pid ∷ []) parent_pid
      first.1 (λ e. omega (arith, first.2))).1

family_capacity : family.ready_queue.capacity ≡ max_processes
unfolding Ring.new Ring.push
family_capacity = refl

abbrev third_pid : Pid
third_pid = 0x1_0000_0002

abbrev third_process : Process
third_process = process_of third_pid ready none

family-IsTable : IsTable family
family-IsTable = record { slots = refl; counters = refl }

third_is_next : third_process.pid ≡ (allocate_pid family).0
unfolding allocate_pid find_free Pid.new
third_is_next = refl

third_slot : Pid.index (allocate_pid family).0 < max_processes
unfolding allocate_pid find_free Pid.new Pid.index
third_slot = omega arith

spawn-allocate_pid_example :
    (occupied_mut family third_pid ≡ none)
    × (u : Scheduler) × (spawn (allocate_pid family).1 third_process ≡ ok u)
    × (occupied_mut u parent_pid
        ≡ (if parent_pid == third_pid then some third_process else occupied_mut family parent_pid))
spawn-allocate_pid_example =
    spawn-allocate_pid family third_process parent_pid family-IsTable third_slot third_is_next
      (omega arith)

-- The child ended before its parent waits.
abbrev ended : Scheduler
ended = put_slot family 1 (zombie parent_pid faulted)

ended_fresh :
    (is_stale ended child_pid ≡ false)
    × (slot_at ended (Pid.index child_pid) ≡ zombie parent_pid faulted)
unfolding Pid.index Pid.generation
ended_fresh = (refl, refl)
