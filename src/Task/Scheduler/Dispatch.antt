-- ===== src/Task/Scheduler/Dispatch.antt =====
-- kernel/src/task/scheduler.rs: what a core runs next. Of the registers of the core itself, its page
-- table, its kernel stack and the trace of dispatches, nothing is kept here; the tasks of the kernel
-- that a core polls before it goes on are steps of their own.
use tarn_os.Prelude.{
  ℕ, zero, suc, ◌+◌, ◌^◌, Bool, false, not, ◌&&◌, ◌||◌, Option, none, some, ◌==◌, ltb,
  if◌then◌else◌, set,
}
use tarn_os.Kcore.Ring
use tarn_os.Kcore.Ring.{RingBuffer}
use tarn_os.Task.Pid
use tarn_os.Task.Pid.{Pid}
use tarn_os.Task.Process.{TrapFrame, ready, running, Process}
use tarn_os.Task.Scheduler.{
  Slot, Scheduler, max_cores, slot_at, put_slot, enqueue, is_stale, set_current, current_at, is_pid,
}

-- The selectors of user code and user data that the core's descriptor table has.
pub record Selectors : Type 0 where
  pub user_code : ℕ
  pub user_data : ℕ

-- What an entry of the scheduler ends in: a failed assertion, the core's idle loop, or the frame that
-- the core resumes.
pub data Switched : Type 0 where
  panics : Switched
  idles : Scheduler → Switched
  resumes : TrapFrame → Scheduler → Switched

-- The loop of `switch_to` over the other cores, `rounds` cores from `other` on.
unfoldable pub running_elsewhere : ℕ → ℕ → Scheduler → ℕ → Pid → Bool
running_elsewhere zero other s core pid = false
running_elsewhere (suc rounds) other s core pid =
    let rest = running_elsewhere rounds (other + 1) s core pid in
    not (other == core) && is_pid pid (current_at s other) || rest

-- The assertions of `switch_to` on the frame of the process.
abbrev pub is_user_frame : Selectors → TrapFrame → Bool
is_user_frame sel f =
    f.cs == sel.user_code && ltb f.rip (2 ^ 47) && f.ss == sel.user_data && ltb f.rsp (2 ^ 47)

abbrev pub resumed : Selectors → Scheduler → Pid → Process → Switched
resumed sel s pid p =
    if p.pid == pid && is_user_frame sel p.trap_frame
    then resumes p.trap_frame
        (put_slot s (Pid.index pid) (Slot.occupied (record p { state = running })))
    else panics

abbrev pub switch_slot : Selectors → Scheduler → Pid → Slot → Switched
switch_slot sel s pid Slot.empty = panics
switch_slot sel s pid Slot.reserved = panics
switch_slot sel s pid (Slot.zombie parent status) = panics
switch_slot sel s pid (Slot.occupied p) = resumed sel s pid p

unfoldable pub switch_to : Selectors → Scheduler → ℕ → Pid → Switched
unfolding set_current running_elsewhere
switch_to sel s core pid =
    let t = set_current s core (some pid) in
    if running_elsewhere max_cores 0 s core pid || is_stale t pid
    then panics
    else switch_slot sel t pid (slot_at t (Pid.index pid))

-- The process that a tick interrupts goes to the back of the queue with the frame that was captured.
abbrev pub requeue_slot : Scheduler → Pid → TrapFrame → Slot → Scheduler
requeue_slot s pid frame Slot.empty = s
requeue_slot s pid frame Slot.reserved = s
requeue_slot s pid frame (Slot.zombie parent status) = s
requeue_slot s pid frame (Slot.occupied p) =
    enqueue
      (put_slot s (Pid.index pid) (Slot.occupied (record p { trap_frame = frame; state = ready })))
      pid

abbrev pub requeue : Scheduler → TrapFrame → Option Pid → Scheduler
requeue s frame none = s
requeue s frame (some pid) = requeue_slot s pid frame (slot_at s (Pid.index pid))

-- The front of the queue, or `otherwise` where it is empty.
abbrev pub dispatch : Selectors → ℕ → Switched → Scheduler → Option Pid × RingBuffer Pid → Switched
dispatch sel core otherwise s (none, queue) = otherwise
dispatch sel core otherwise s (some pid, queue) =
    switch_to sel (record s { ready_queue = queue }) core pid

unfoldable pub on_timer_tick : Selectors → Scheduler → ℕ → TrapFrame → Switched
on_timer_tick sel s core frame =
    let t = requeue s frame (current_at s core) in
    dispatch sel core (resumes frame t) t (Ring.pop t.ready_queue)

abbrev pub clear_stack_busy : Scheduler → Option ℕ → Scheduler
clear_stack_busy s none = s
clear_stack_busy s (some index) = record s { stack_busy = set s.stack_busy index false }

abbrev pub finished : Option ℕ → Switched → Switched
finished outgoing panics = panics
finished outgoing (idles s) = idles (clear_stack_busy s outgoing)
finished outgoing (resumes frame s) = resumes frame (clear_stack_busy s outgoing)

-- `switch_to_next_or_halt`, with `finish_switch` and with the start of the idle loop: the busy mark of
-- the stack that the core leaves is cleared in either. An empty queue stays as it is.
unfoldable pub switch_to_next_or_halt : Selectors → Scheduler → ℕ → Option ℕ → Switched
switch_to_next_or_halt sel s core outgoing =
    finished outgoing (dispatch sel core (idles s) s (Ring.pop s.ready_queue))

-- One round of the idle loop.
unfoldable pub idle_round : Selectors → Scheduler → ℕ → Switched
idle_round sel s core = dispatch sel core (idles s) s (Ring.pop s.ready_queue)
