-- ===== src/Task/Scheduler/Steps/Frames.antt =====
-- kernel/src/task/scheduler.rs: the assertions of `switch_to` on the frame that a process brings in.
use tarn_os.Prelude.{ℕ, ◌≡◌, refl, false, some, [], arith}
use tarn_os.Kcore.Ring
use tarn_os.Kcore.Ring.Refine.{Represents, push_with_room, pop_front}
use tarn_os.Task.Pid
use tarn_os.Task.Pid.{Pid, new-index-generation}
use tarn_os.Task.Process.{TrapFrame, ProcessState, Process}
use tarn_os.Task.Scheduler.{Slot, Scheduler, current_at, set_current, put_slot, enqueue}
use tarn_os.Task.Scheduler.Dispatch.{Selectors, panics, is_user_frame, on_timer_tick}
use tarn_os.Task.Scheduler.Invariant.Put.{put_same}
use tarn_os.Task.Scheduler.Invariant.Front.{switch_to-bad}
use tarn_os.Task.Scheduler.Invariant.Block.{current-Stopped}
use tarn_os.Task.Scheduler.Steps.{Reachable}
use tarn_os.Task.Scheduler.Steps.Safety.{Reachable-IsConsistent}

-- In every state that the calls of the cores reach: a tick of a core that runs a process, with nothing in
-- the queue, fails an assertion of `switch_to` if the frame that it interrupts is not a user frame.
pub lone_tick-panics :
    (sel : Selectors) (s : Scheduler) (core : ℕ) (frame : TrapFrame) (pid : Pid)
    → Reachable sel s
    → current_at s core ≡ some pid
    → Represents s.ready_queue []
    → is_user_frame sel frame ≡ false
    → on_timer_tick sel s core frame ≡ panics
unfolding on_timer_tick set_current
lone_tick-panics sel s core frame pid reached cur rep bad =
    let w = Reachable-IsConsistent sel s reached in
    let (p, stop) = current-Stopped s core pid w cur in
    let i = Pid.index pid in
    let q : Process = record p { trap_frame = frame; state = ProcessState.ready } in
    let (_, pushed, _) =
      push_with_room s.ready_queue [] pid rep (λ e. omega (arith, w.capacity, e)) in
    let (answer, _, _, _) = pop_front (Ring.push s.ready_queue pid).1 pid [] pushed in
    let slot = put_same s i i (Slot.occupied q) (omega (arith, stop.found.inside, w.slots)) refl in
    let u = enqueue (put_slot s i (Slot.occupied q)) pid in
    rw (cur, stop.found.slot, answer)
      (switch_to-bad sel (record u { ready_queue = (Ring.pop u.ready_queue).1 }) core pid q slot
        bad)
