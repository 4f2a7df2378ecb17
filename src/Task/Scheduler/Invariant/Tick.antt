-- ===== src/Task/Scheduler/Invariant/Tick.antt =====
-- Every entry that dispatches keeps the invariant.
use tarn_os.Prelude.{
  ℕ, ◌≡◌, refl, subst, ap, ◌∙◌, List, [], ◌∷◌, Option, none, some, arith, inl, inr, ◌⊎◌, length,
}
use tarn_os.Kcore.Ring
use tarn_os.Kcore.Ring.{RingBuffer}
use tarn_os.Kcore.Ring.Refine.{Represents, pop_refines}
use tarn_os.Kcore.Ring.Fifo
use tarn_os.Task.Pid
use tarn_os.Task.Pid.{Pid, index-generation-new}
use tarn_os.Task.Process.{TrapFrame, ProcessState, Process}
use tarn_os.Task.Scheduler.{Slot, Scheduler, slot_at, put_slot, enqueue, current_at, set_current}
use tarn_os.Task.Scheduler.Wakeups.{in_table}
use tarn_os.Task.Scheduler.Dispatch.{
  Selectors, Switched, panics, idles, resumes, dispatch, idle_round, on_timer_tick,
  clear_stack_busy, finished, switch_to_next_or_halt,
}
use tarn_os.Task.Scheduler.Invariant.{occurrences, ready_of, ready_bit, IsConsistent}
use tarn_os.Task.Scheduler.Invariant.Put.{put_same, release-IsConsistent}
use tarn_os.Task.Scheduler.Invariant.Wake.{release_to_queue}
use tarn_os.Task.Scheduler.Invariant.Block.{current-Stopped}
use tarn_os.Task.Scheduler.Invariant.Run.{Proper, stopped, idle, run, dispatch-Proper}

-- A core with an empty queue idles.
pub idle_round-Proper :
    (sel : Selectors) (s : Scheduler) (core : ℕ) → IsConsistent s → Proper (idle_round sel s core)
unfolding idle_round
idle_round-Proper sel s core w =
    dispatch-Proper sel s core (idles s) (release-IsConsistent s core w) (λ e. idle w)

busy-IsConsistent :
    (s : Scheduler) (outgoing : Option ℕ)
    → IsConsistent s
    → IsConsistent (clear_stack_busy s outgoing)
busy-IsConsistent s none w = w
busy-IsConsistent s (some index) w = record {
  slots = w.slots;
  counters = w.counters;
  cores = w.cores;
  small = w.small;
  queue = w.queue;
  represents = w.represents;
  capacity = w.capacity;
  queued = w.queued;
  counted = w.counted;
  held = w.held;
  named = w.named;
}

finished-Proper : (outgoing : Option ℕ) (r : Switched) → Proper r → Proper (finished outgoing r)
finished-Proper outgoing panics stopped = stopped
finished-Proper outgoing (idles s) (idle w) = idle (busy-IsConsistent s outgoing w)
finished-Proper outgoing (resumes f s) (run w) = run (busy-IsConsistent s outgoing w)

-- A core that leaves a kernel stack, in a consistent scheduler, fails an assertion, or idles or resumes a
-- process, and the scheduler is consistent then.
pub switch_to_next_or_halt-Proper :
    (sel : Selectors) (s : Scheduler) (core : ℕ) (outgoing : Option ℕ)
    → IsConsistent s
    → Proper (switch_to_next_or_halt sel s core outgoing)
unfolding switch_to_next_or_halt
switch_to_next_or_halt-Proper sel s core outgoing w =
    finished-Proper outgoing (dispatch sel core (idles s) s (Ring.pop s.ready_queue))
      (dispatch-Proper sel s core (idles s) (release-IsConsistent s core w) (λ e. idle w))

module _ (sel : Selectors) (s : Scheduler) (core : ℕ) (frame : TrapFrame) (w : IsConsistent s) where
  -- A tick of a core that runs a process: the core resumes a process, and the scheduler is consistent
  -- then, or it fails an assertion.
  pub on_timer_tick-Proper :
      (pid : Pid) → current_at s core ≡ some pid → Proper (on_timer_tick sel s core frame)
  unfolding on_timer_tick set_current
  on_timer_tick-Proper pid cur =
      let (p, t) = current-Stopped s core pid w cur in
      let q : Process = record p { trap_frame = frame; state = ProcessState.ready } in
      let after =
        release_to_queue (set_current s core none) t.consistent pid p t.found q refl
          (ap ready_bit t.state) t.free refl t.found.waiter in
      let one : ready_of (slot_at (put_slot s (Pid.index pid) (Slot.occupied q)) (Pid.index pid))
            pid
          ≡ 1 =
        ap (λ x. ready_of x pid)
          (put_same s (Pid.index pid) (Pid.index pid) (Slot.occupied q)
            (in_table s.processes (Pid.index pid) p t.found.slot) refl)
        ∙ ground (arith, t.found.own) in
      rw (cur, t.found.slot)
        (dispatch-Proper sel (enqueue (put_slot s (Pid.index pid) (Slot.occupied q)) pid) core _
          after (λ e. absurd (omega (arith, ap (occurrences pid) e, after.queued pid, one))))

  -- A tick of an idle core, in a consistent scheduler: it resumes what it did and nothing changes, or it
  -- resumes a process and the scheduler is consistent then, or it fails an assertion.
  pub on_timer_tick_idle :
      current_at s core ≡ none
      → (on_timer_tick sel s core frame ≡ resumes frame s) ⊎ Proper (on_timer_tick sel s core frame)
  unfolding on_timer_tick Fifo.pop set_current
  on_timer_tick_idle cur = rw cur (here clear.queue refl)
    where
      clear : IsConsistent (set_current s core none)
      clear = release-IsConsistent s core w

      here :
          (queue : List Pid)
          → clear.queue ≡ queue
          → (dispatch sel core (resumes frame s) s (Ring.pop s.ready_queue) ≡ resumes frame s)
            ⊎ Proper (dispatch sel core (resumes frame s) s (Ring.pop s.ready_queue))
      here [] e =
          let (answer, _, _) =
            pop_refines s.ready_queue [] (subst (Represents s.ready_queue) e clear.represents) in
          rw answer (inl refl)
      here (pid ∷ rest) e = inr (
          dispatch-Proper sel s core (resumes frame s) clear
            (λ none_left. absurd (omega (arith, ap length none_left, ap length e))))
