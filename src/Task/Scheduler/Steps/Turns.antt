-- ===== src/Task/Scheduler/Steps/Turns.antt =====
-- kernel/src/task/scheduler.rs: the ticks of a core give every process of the queue its turn.
use tarn_os.Prelude.{
  ℕ, zero, suc, ◌<◌, ◌≡◌, ◌≢◌, refl, sym, true, set, subst, ap, ◌∙◌, Option, none, some, List, [],
  ◌∷◌, ◌++◌, append_assoc, arith, length, get_or, get_or-set_self,
}
use tarn_os.Kcore.Ring
use tarn_os.Kcore.Ring.Refine.{Represents, push_with_room, Represents-unique}
use tarn_os.Task.Pid
use tarn_os.Task.Pid.{Pid}
use tarn_os.Task.Process.{TrapFrame, ProcessState, Process}
use tarn_os.Task.Scheduler.{Slot, Scheduler, slot_at, put_slot, enqueue, current_at, set_current}
use tarn_os.Task.Scheduler.Dispatch.{
  Selectors, Switched, panics, idles, resumes, is_user_frame, on_timer_tick,
}
use tarn_os.Task.Scheduler.Invariant.{ready_slot, ready_bit, IsConsistent}
use tarn_os.Task.Scheduler.Invariant.Counts.{total_ready_lt}
use tarn_os.Task.Scheduler.Invariant.Wake.{release_to_queue}
use tarn_os.Task.Scheduler.Invariant.Block.{current-Stopped}
use tarn_os.Task.Scheduler.Invariant.Front.{slot_passes}
use tarn_os.Task.Scheduler.Invariant.Run.{pid_passes, dispatch-Dispatched}
use tarn_os.Task.Scheduler.Steps.{Reachable}
use tarn_os.Task.Scheduler.Steps.Safety.{Reachable-IsConsistent}

abbrev pub left_by : Switched → Option Scheduler
left_by panics = none
left_by (idles s) = some s
left_by (resumes frame s) = some s

-- `n` ticks of one core, while the others do nothing; tick `k` from the end interrupts with `frames k`.
-- `none` if an assertion fails.
unfoldable pub ticks : Selectors → ℕ → Scheduler → ℕ → (ℕ → TrapFrame) → Option Scheduler
ticks sel zero s core frames = some s
ticks sel (suc n) s core frames = elim (left_by (on_timer_tick sel s core (frames n))) [
  | none ↦ none
  | some t ↦ ticks sel n t core frames
]

in_cores :
    (cores : List (Option Pid)) (core : ℕ) (pid : Pid)
    → get_or cores core none ≡ some pid
    → core < length cores
in_cores [] core pid e = cc
in_cores (c ∷ cores) zero pid e = omega arith
in_cores (c ∷ cores) (suc core) pid e = omega (arith, in_cores cores core pid e)

-- A tick with a queue that is not empty: the core runs the front, and what it ran is at the back.
record Turned (sel : Selectors) (core : ℕ) (pid : Pid) (queue : List Pid) (r : Switched)
    : Type 0 where
  after : Scheduler
  left : left_by r ≡ some after
  consistent : IsConsistent after
  represents : Represents after.ready_queue queue
  runs : current_at after core ≡ some pid
  saved : (i : ℕ) → slot_passes sel (slot_at after i) ≡ true

set_slot-passes :
    (sel : Selectors) (slots : List Slot) (i : ℕ) (v : Slot)
    → slot_passes sel v ≡ true
    → ((j : ℕ) → slot_passes sel (get_or slots j Slot.empty) ≡ true)
    → (j : ℕ) → slot_passes sel (get_or (set slots i v) j Slot.empty) ≡ true
set_slot-passes sel [] i v pass all j = all j
set_slot-passes sel (x ∷ slots) zero v pass all zero = pass
set_slot-passes sel (x ∷ slots) zero v pass all (suc j) = all (suc j)
set_slot-passes sel (x ∷ slots) (suc i) v pass all zero = all 0
set_slot-passes sel (x ∷ slots) (suc i) v pass all (suc j) =
    set_slot-passes sel slots i v pass (λ k. all (suc k)) j

pid-passes :
    (sel : Selectors) (s : Scheduler)
    → ((i : ℕ) → slot_passes sel (slot_at s i) ≡ true)
    → (pid : Option Pid) → pid_passes sel s pid ≡ true
pid-passes sel s all none = refl
pid-passes sel s all (some pid) = all (Pid.index pid)

tick-Turned :
    (sel : Selectors) (s : Scheduler) (core : ℕ) (frame : TrapFrame) (current pid : Pid)
    (rest : List Pid)
    → IsConsistent s
    → current_at s core ≡ some current
    → is_user_frame sel frame ≡ true
    → ((i : ℕ) → slot_passes sel (slot_at s i) ≡ true)
    → Represents s.ready_queue (pid ∷ rest)
    → Turned sel core pid (rest ++ current ∷ []) (on_timer_tick sel s core frame)
unfolding on_timer_tick set_current
tick-Turned sel s core frame current pid rest w cur user all rep =
    let (p, stop) = current-Stopped s core current w cur in
    let q : Process = record p { trap_frame = frame; state = ProcessState.ready } in
    let t = enqueue (put_slot s (Pid.index current) (Slot.occupied q)) current in
    let clear =
      release_to_queue (set_current s core none) stop.consistent current p stop.found q refl
        (ap ready_bit stop.state) stop.free refl stop.found.waiter in
    let room : length (pid ∷ rest) ≢ s.ready_queue.capacity = (λ e. omega (
      arith,
      total_ready_lt s.processes (Pid.index current) (omega (arith, stop.found.inside, w.slots))
          (ap ready_slot stop.found.slot ∙ ap ready_bit stop.state),
      ap length (Represents-unique s.ready_queue (pid ∷ rest) w.queue rep w.represents),
      w.counted,
      w.slots,
      w.capacity,
      e,
    )) in
    let (_, pushed, _) = push_with_room s.ready_queue (pid ∷ rest) current rep room in
    let kept : (i : ℕ) → slot_passes sel (slot_at t i) ≡ true =
      set_slot-passes sel s.processes (Pid.index current) (Slot.occupied q) user all in
    let d =
      dispatch-Dispatched sel t core (resumes frame t) pid (rest ++ current ∷ []) clear
        (Represents-unique t.ready_queue clear.queue (pid ∷ rest ++ current ∷ []) clear.represents
          pushed)
        (pid-passes sel t kept (Ring.pop t.ready_queue).0) in
    record {
      after = d.after;
      left = rw (cur, stop.found.slot) (ap left_by d.result);
      consistent = d.consistent;
      represents = d.queue;
      runs =
          ap (λ cores. get_or cores core none) d.cores
          ∙ get_or-set_self s.current core (some pid) none (in_cores s.current core current cur);
      saved = λ i.
          ap (λ slots. slot_passes sel (get_or slots i Slot.empty)) d.table
          ∙ set_slot-passes sel t.processes (Pid.index pid)
              (Slot.occupied (record d.p { state = ProcessState.running }))
              (ap (slot_passes sel) (sym d.saved) ∙ kept (Pid.index pid)) kept i;
    }

ticks_first :
    (sel : Selectors) (n : ℕ) (s t : Scheduler) (core : ℕ) (frames : ℕ → TrapFrame)
    → left_by (on_timer_tick sel s core (frames n)) ≡ some t
    → ticks sel (suc n) s core frames ≡ ticks sel n t core frames
unfolding ticks
ticks_first sel n s t core frames e = rw (e, ticks) refl

turn :
    (sel : Selectors) (s : Scheduler) (core : ℕ) (frames : ℕ → TrapFrame) (current pid : Pid)
    (before behind : List Pid)
    → IsConsistent s
    → current_at s core ≡ some current
    → ((k : ℕ) → is_user_frame sel (frames k) ≡ true)
    → ((i : ℕ) → slot_passes sel (slot_at s i) ≡ true)
    → Represents s.ready_queue (before ++ pid ∷ behind)
    → (t : Scheduler) × (ticks sel (suc (length before)) s core frames ≡ some t)
      × (current_at t core ≡ some pid)
unfolding ticks
turn sel s core frames current pid [] behind w cur user all rep =
    let d = tick-Turned sel s core (frames 0) current pid behind w cur (user 0) all rep in
    (d.after, ticks_first sel 0 s d.after core frames d.left, d.runs)
turn sel s core frames current pid (q ∷ before) behind w cur user all rep =
    let d =
      tick-Turned sel s core (frames (suc (length before))) current q (before ++ pid ∷ behind) w cur
        (user (suc (length before))) all rep in
    let (t, e, runs) =
      turn sel d.after core frames q pid before (behind ++ current ∷ []) d.consistent d.runs user
        d.saved
        (subst (Represents d.after.ready_queue) (append_assoc before (pid ∷ behind) (current ∷ []))
          d.represents) in
    (t, ticks_first sel (suc (length before)) s d.after core frames d.left ∙ e, runs)

-- In every state that the calls of the cores reach in which each process of the table has saved a user
-- frame: a process of the queue with `n` others before it is what a core runs after its next `n + 1`
-- ticks, if the other cores do nothing, the core runs a process and each tick interrupts it with a user
-- frame. No assertion fails in these ticks.
pub queued_runs :
    (sel : Selectors) (s : Scheduler) (core : ℕ) (frames : ℕ → TrapFrame) (current pid : Pid)
    (before behind : List Pid)
    → Reachable sel s
    → current_at s core ≡ some current
    → ((k : ℕ) → is_user_frame sel (frames k) ≡ true)
    → ((i : ℕ) → slot_passes sel (slot_at s i) ≡ true)
    → Represents s.ready_queue (before ++ pid ∷ behind)
    → (t : Scheduler) × (ticks sel (suc (length before)) s core frames ≡ some t)
      × (current_at t core ≡ some pid)
queued_runs sel s core frames current pid before behind reached =
    turn sel s core frames current pid before behind (Reachable-IsConsistent sel s reached)
