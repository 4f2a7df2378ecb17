-- ===== src/Task/Scheduler/Steps/Safety.antt =====
-- What holds of every state that the scheduler reaches.
use tarn_os.Prelude.{
  ℕ, ◌+◌, ◌≤◌, ◌<◌, ◌^◌, ◌≡◌, refl, sym, subst, ap, ◌∙◌, false, Option, none, some, List, [], ◌⊎◌,
  ◌↔◌, inl, inr, arith, get_or-replicate, get_or-set_ne, ℕ_discrete, set, Bool-cases, ◌==◌,
}
use tarn_os.Kcore.Ring
use tarn_os.Kcore.Ring.Refine.{Represents, new-Represents}
use tarn_os.Task.Pid
use tarn_os.Task.Pid.{Pid, new-index-generation}
use tarn_os.Task.Process.{TrapFrame, ProcessState, Process}
use tarn_os.Task.Scheduler.{
  Slot, Scheduler, new, current_at, slot_at, generation_at, max_processes, is_stale,
}
use tarn_os.Task.Scheduler.Wait.{Waited, returns, switches}
use tarn_os.Task.Scheduler.Dispatch.{
  Selectors, Switched, resumes, panics, idles, dispatch, finished, idle_round,
  switch_to_next_or_halt,
}
use tarn_os.Task.Scheduler.Kill.{Round, evicts, terminates, kill_round}
use tarn_os.Task.Scheduler.Invariant.{
  occurrences, holders, ready_of, running_of, ready_bit, running_bit, Named, IsConsistent,
}
use tarn_os.Task.Scheduler.Invariant.Counts.{holders-release, holders-positive}
use tarn_os.Task.Scheduler.Invariant.Wake.{
  is_stale-false, occupant, wake_blocked_process-IsConsistent,
}
use tarn_os.Task.Scheduler.Invariant.Block.{block_current_process-IsConsistent}
use tarn_os.Task.Scheduler.Invariant.Create.{
  start_child-IsConsistent, spawn-IsConsistent, spawn_suspended-IsConsistent,
  allocate_pid-IsConsistent,
}
use tarn_os.Task.Scheduler.Invariant.Run.{Proper, stopped, idle, run, front_passes, dispatch-panics}
use tarn_os.Task.Scheduler.Invariant.Put.{release-IsConsistent}
use tarn_os.Task.Scheduler.Invariant.Tick.{
  on_timer_tick-Proper, on_timer_tick_idle, switch_to_next_or_halt-Proper, idle_round-Proper,
}
use tarn_os.Task.Scheduler.Invariant.Finalize.{Owns, process_in-some}
use tarn_os.Task.Scheduler.Invariant.Kill.{
  Settled, RoundEnds, end_current-IsConsistent, release_reservation-IsConsistent,
  wait_for_child-Settled, kill_round-RoundEnds, on_reschedule_ipi-Proper,
}
use tarn_os.Task.Scheduler.Steps.{
  After, idled, resumed, left, Step, allocates, releases, spawns, spawns_suspended, starts, wakes,
  blocks, waits, ticks, ticks_idle, halts, polls, ends, kills, evicted, Reachable, start, step,
}

new-IsConsistent : IsConsistent new
unfolding new
new-IsConsistent =
    let free : (i : ℕ) → slot_at new i ≡ Slot.empty =
      λ i. get_or-replicate max_processes i Slot.empty in
    let zeros : (i : ℕ) → generation_at new i ≡ 0 = λ i. get_or-replicate max_processes i 0 in
    record {
      slots = refl;
      counters = refl;
      cores = refl;
      small = λ i. omega (arith, zeros i);
      queue = [];
      represents = new-Represents max_processes (omega arith) (omega arith);
      capacity = unfold Ring.new in refl;
      queued = λ p. sym (ap (λ x. ready_of x p) (free (Pid.index p)));
      counted = refl;
      held = λ p. omega arith;
      named = λ i. subst (Named i (generation_at new i)) (sym (free i)) tt;
    }

After-IsConsistent : {r : Switched} {t : Scheduler} → Proper r → After r t → IsConsistent t
After-IsConsistent stopped a = elim a [ ]
After-IsConsistent (idle w) idled = w
After-IsConsistent (run w) resumed = w

After-resumes : (frame : TrapFrame) (s t : Scheduler) → After (resumes frame s) t → s ≡ t
After-resumes frame s _ resumed = refl

-- A core that resumes what it did changes nothing.
same_or-IsConsistent :
    (s t : Scheduler) (frame : TrapFrame) {r : Switched}
    → IsConsistent s
    → (r ≡ resumes frame s) ⊎ Proper r
    → After r t
    → IsConsistent t
same_or-IsConsistent s t frame w (inl e) a =
    subst IsConsistent (After-resumes frame s t (subst (λ x. After x t) e a)) w
same_or-IsConsistent s t frame w (inr proper) a = After-IsConsistent proper a

left-IsConsistent : (r : Waited) → Settled r → IsConsistent (left r)
left-IsConsistent (returns frame s) w = w
left-IsConsistent (switches s) w = w

-- A `Pid` that is not stale owns its slot.
pub fresh-Owns :
    (s : Scheduler) (target : Pid)
    → IsConsistent s
    → is_stale s target ≡ false
    → target < 2 ^ 64
    → Owns s target
fresh-Owns s target w fresh word p e =
    let (inside, gen) = is_stale-false s target fresh in
    let (_, name, _) =
      occupant s w (Pid.index target) p inside
        (process_in-some (slot_at s (Pid.index target)) p e) in
    sym name ∙ ap (Pid.new (Pid.index target)) gen ∙ new-index-generation target word

terminated-IsConsistent :
    (s : Scheduler) (target : Pid) (t : Scheduler) (drops : List Process) (r : Round)
    → r ≡ terminates (some (t, drops))
    → RoundEnds s target r
    → IsConsistent t
terminated-IsConsistent s target t drops (evicts core) e h = cc
terminated-IsConsistent s target t drops (terminates r) e (_, (u, more, answer, after, _)) =
    let same_answer : r ≡ some (t, drops) = cc e in
    let both : some (u, more) ≡ some (t, drops) = sym answer ∙ same_answer in
    let same : u ≡ t = cc both in subst IsConsistent same after

pub step-IsConsistent :
    (sel : Selectors) (s t : Scheduler) → IsConsistent s → Step sel s t → IsConsistent t
step-IsConsistent sel _ _ w (allocates s) = allocate_pid-IsConsistent s w
step-IsConsistent sel _ _ w (releases s pid) = release_reservation-IsConsistent s pid w
step-IsConsistent sel _ _ w (spawns s t p is_new state e) =
    spawn-IsConsistent s t p w is_new state e
step-IsConsistent sel _ _ w (spawns_suspended s t p is_new state e) =
    spawn_suspended-IsConsistent s t p w is_new state e
step-IsConsistent sel _ _ w (starts s t target caller word e) =
    start_child-IsConsistent s t target caller w word e
step-IsConsistent sel _ _ w (wakes s pid result word) =
    wake_blocked_process-IsConsistent s pid result w word
step-IsConsistent sel _ _ w (blocks s core frame pid cur) =
    block_current_process-IsConsistent s core frame pid w cur
step-IsConsistent sel _ _ w (waits s core frame target caller cur word) =
    left-IsConsistent _ (wait_for_child-Settled s core frame target caller w cur word)
step-IsConsistent sel _ _ w (ticks s t core frame pid cur after) =
    After-IsConsistent (on_timer_tick-Proper sel s core frame w pid cur) after
step-IsConsistent sel _ _ w (ticks_idle s t core frame cur after) =
    same_or-IsConsistent s t frame w (on_timer_tick_idle sel s core frame w cur) after
step-IsConsistent sel _ _ w (halts s t core outgoing after) =
    After-IsConsistent (switch_to_next_or_halt-Proper sel s core outgoing w) after
step-IsConsistent sel _ _ w (polls s t core after) =
    After-IsConsistent (idle_round-Proper sel s core w) after
step-IsConsistent sel _ _ w (ends s t core status outgoing drops e) =
    let (o, u, more, answer, after) = end_current-IsConsistent s core status w in
    let both : some (o, u, more) ≡ some (outgoing, t, drops) = sym answer ∙ e in
    let same : u ≡ t = cc both in subst IsConsistent same after
step-IsConsistent sel _ _ w (kills s t target drops fresh word e) =
    terminated-IsConsistent s target t drops (kill_round s target) e
      (kill_round-RoundEnds s target w (fresh-Owns s target w fresh word))
step-IsConsistent sel _ _ w (evicted s t core evict frame after) =
    same_or-IsConsistent s t frame w (on_reschedule_ipi-Proper sel s core evict frame w) after

-- Every state that the calls of the cores reach, in any order, from the kernel's first one is
-- consistent: the queue holds each ready process once and nothing else, a process that a core runs is
-- running and no other core runs it, and every process stands in the slot and under the generation
-- that its `Pid` names.
pub Reachable-IsConsistent : (sel : Selectors) (s : Scheduler) → Reachable sel s → IsConsistent s
Reachable-IsConsistent sel _ start = new-IsConsistent
Reachable-IsConsistent sel _ (step r s reached taken) =
    step-IsConsistent sel r s (Reachable-IsConsistent sel r reached) taken

ready_or_running : (slot : Slot) (pid : Pid) → ready_of slot pid + running_of slot pid ≤ 1
ready_or_running Slot.empty pid = omega arith
ready_or_running Slot.reserved pid = omega arith
ready_or_running (Slot.zombie parent status) pid = omega arith
ready_or_running (Slot.occupied p) pid = elim (Bool-cases (p.pid == pid)) [
  | inl e ↦ rw e (bits p.state)
  | inr e ↦ rw e (omega arith)
]
  where
    bits : (state : ProcessState) → ready_bit state + running_bit state ≤ 1
    bits ProcessState.ready = omega arith
    bits ProcessState.running = omega arith
    bits ProcessState.blocked = omega arith
    bits ProcessState.suspended = omega arith

-- In every state that the calls of the cores reach, no two cores run one process, and a process that a
-- core runs does not stand in the queue.
pub one_core :
    (sel : Selectors) (s : Scheduler) (pid : Pid) (a b : ℕ)
    → Reachable sel s
    → current_at s a ≡ some pid
    → current_at s b ≡ some pid
    → (a ≡ b) × ((xs : List Pid) × Represents s.ready_queue xs × (occurrences pid xs ≡ 0))
one_core sel s pid a b reached at_a at_b =
    let w = Reachable-IsConsistent sel s reached in
    let one = ready_or_running (slot_at s (Pid.index pid)) pid in
    let here : 0 < holders pid s.current = holders-positive pid s.current a at_a in
    (
      elim (ℕ_discrete a b) [
        | yes e ↦ e
        | no ne ↦ absurd (
            omega (
              arith,
              one,
              w.held pid,
              holders-release pid s.current a at_a,
              holders-positive pid (set s.current a none) b
                  (get_or-set_ne s.current a b none none ne ∙ at_b),
            ))
      ],
      (w.queue, w.represents, omega (arith, one, w.held pid, w.queued pid, here)),
    )

finished-panics :
    (outgoing : Option ℕ) (r : Switched) → (finished outgoing r ≡ panics) ↔ (r ≡ panics)
finished-panics outgoing panics = (λ e. refl, λ e. refl)
finished-panics outgoing (idles s) = (λ e. cc, λ e. cc)
finished-panics outgoing (resumes f s) = (λ e. cc, λ e. cc)

pub switch-panics :
    (sel : Selectors) (s : Scheduler) (core : ℕ) (outgoing : Option ℕ)
    → IsConsistent s
    → (switch_to_next_or_halt sel s core outgoing ≡ panics) ↔ (front_passes sel s ≡ false)
unfolding switch_to_next_or_halt
switch-panics sel s core outgoing w =
    let exact = dispatch-panics sel s core (idles s) (release-IsConsistent s core w) (λ e. cc) in
    let through =
      finished-panics outgoing (dispatch sel core (idles s) s (Ring.pop s.ready_queue)) in
    (λ e. exact.0 (through.0 e), λ e. through.1 (exact.1 e))

-- In every state that the calls of the cores reach, whatever frames they hand over: when a core goes to the
-- next process, and when an idle core polls the queue, an assertion of `switch_to` fails exactly if the
-- process at the front of the queue has saved a frame that is not a user frame.
pub Reachable-panics :
    (sel : Selectors) (s : Scheduler) (core : ℕ) (outgoing : Option ℕ)
    → Reachable sel s
    → ((switch_to_next_or_halt sel s core outgoing ≡ panics) ↔ (front_passes sel s ≡ false))
      × ((idle_round sel s core ≡ panics) ↔ (front_passes sel s ≡ false))
unfolding idle_round
Reachable-panics sel s core outgoing reached =
    let w = Reachable-IsConsistent sel s reached in
    (
      switch-panics sel s core outgoing w,
      dispatch-panics sel s core (idles s) (release-IsConsistent s core w) (λ e. cc),
    )
