-- ===== src/Task/Scheduler/Steps/Eviction.antt =====
-- kernel/src/task/scheduler.rs: a core that is asked to let a process go does, and the kill finishes.
use tarn_os.Prelude.{
  ℕ, zero, suc, ◌+◌, ◌≡◌, ◌≢◌, refl, sym, true, subst, ap, ◌∙◌, Option, none, some, List, [], ◌∷◌,
  arith, ==_refl, ==_iff, ==_ne, inl, inr,
}
use tarn_os.Abi.Status.{killed}
use tarn_os.Kcore.Ring
use tarn_os.Kcore.Ring.Refine.{Represents, pop_refines}
use tarn_os.Kcore.Ring.Fifo
use tarn_os.Task.Pid
use tarn_os.Task.Pid.{Pid}
use tarn_os.Task.Process.{TrapFrame, Process}
use tarn_os.Task.Scheduler.{Scheduler, max_cores, slot_at, current_at, set_current, process_in}
use tarn_os.Task.Scheduler.Teardown.{take_and_finalize_slot-Ends}
use tarn_os.Task.Scheduler.Dispatch.{
  Selectors, Switched, panics, idles, resumes, dispatch, finished, switch_to_next_or_halt,
}
use tarn_os.Task.Scheduler.Kill.{
  mark_stack_busy, terminates, owning_core, kill_round, on_reschedule_ipi,
}
use tarn_os.Task.Scheduler.Invariant.{occurrences, holders, ready_of, ready_bit, IsConsistent}
use tarn_os.Task.Scheduler.Invariant.Counts.{holders-take, holders-clear, holders-positive}
use tarn_os.Task.Scheduler.Invariant.Block.{current-Stopped}
use tarn_os.Task.Scheduler.Invariant.Run.{
  Proper, idle, run, Dispatched, front_passes, dispatch-cases,
}
use tarn_os.Task.Scheduler.Invariant.Put.{release-IsConsistent}
use tarn_os.Task.Scheduler.Invariant.Tick.{switch_to_next_or_halt-Proper}
use tarn_os.Task.Scheduler.Invariant.Kill.{mark-IsConsistent}
use tarn_os.Task.Scheduler.Invariant.Clear.{hit_or_miss}
use tarn_os.Task.Scheduler.Steps.{After, idled, resumed, Reachable}
use tarn_os.Task.Scheduler.Steps.Safety.{Reachable-IsConsistent, switch-panics}

-- No core runs `target` in what a switch leaves.
abbrev Leaves : Pid → Switched → Type 0
Leaves target panics = Unit {0}
Leaves target (idles s) = holders target s.current ≡ 0
Leaves target (resumes frame s) = holders target s.current ≡ 0

dispatch-Leaves :
    (sel : Selectors) (s : Scheduler) (core : ℕ) (target : Pid)
    → IsConsistent (set_current s core none)
    → holders target s.current ≡ 0
    → ready_of (slot_at s (Pid.index target)) target ≡ 0
    → Leaves target (dispatch sel core (idles s) s (Ring.pop s.ready_queue))
unfolding set_current Fifo.pop
dispatch-Leaves sel s core target w free off = here w.queue refl
  where
    taken :
        (pid : Pid) (rest : List Pid) {r : Switched}
        → w.queue ≡ pid ∷ rest
        → Dispatched s core pid rest r
        → Leaves target r
    taken pid rest e d =
        let apart : pid ≢ target = (λ same.
          let hit = (==_iff pid target).1 same in
          let count : occurrences target (pid ∷ rest) ≡ 0 =
            ap (occurrences target) (sym e) ∙ w.queued target ∙ off in
          ground (arith, hit, count)) in
        subst (Leaves target) (sym d.result) (
          ap (holders target) d.cores
          ∙ ground (
            arith,
            holders-take target pid s.current core,
            holders-clear target s.current core,
            free,
            apart,
          ))

    here :
        (queue : List Pid)
        → w.queue ≡ queue
        → Leaves target (dispatch sel core (idles s) s (Ring.pop s.ready_queue))
    here [] e =
        let (answer, _, _) =
          pop_refines s.ready_queue [] (subst (Represents s.ready_queue) e w.represents) in
        rw answer free
    here (pid ∷ rest) e = elim (dispatch-cases sel s core (idles s) pid rest w e) [
      | inl (_, d) ↦ taken pid rest e d
      | inr (_, bad) ↦ subst (Leaves target) (sym bad) tt
    ]

finished-Leaves :
    (target : Pid) (outgoing : Option ℕ) (r : Switched)
    → Leaves target r
    → Leaves target (finished outgoing r)
finished-Leaves target outgoing panics h = h
finished-Leaves target none (idles s) h = h
finished-Leaves target (some index) (idles s) h = h
finished-Leaves target none (resumes frame s) h = h
finished-Leaves target (some index) (resumes frame s) h = h

-- A switch that fails no assertion leaves a scheduler.
after_of :
    (target : Pid) (r : Switched)
    → Proper r
    → r ≢ panics
    → Leaves target r
    → (t : Scheduler) × After r t × IsConsistent t × (holders target t.current ≡ 0)
after_of target (idles s) (idle w) n h = (s, idled, w, h)
after_of target (resumes frame s) (run w) n h = (s, resumed, w, h)
after_of target panics w n h = absurd (n refl)

owning_core_free :
    (s : Scheduler) (target : Pid) (rounds core : ℕ)
    → holders target s.current ≡ 0
    → owning_core rounds core s target ≡ none
unfolding owning_core
owning_core_free s target zero core h = refl
owning_core_free s target (suc rounds) core h = elim (hit_or_miss target (current_at s core)) [
  | inl hit ↦ absurd (omega (arith, h, holders-positive target s.current core hit))
  | inr (miss, _) ↦ rw (miss, owning_core) (owning_core_free s target rounds (core + 1) h)
]

-- In every state that the calls of the cores reach in which the process at the front of the queue, if there
-- is one, has saved a user frame: when a core that runs `target` is interrupted to let it go, no
-- assertion fails, and in the state that the core leaves no core runs `target`. There the
-- next round of the kill does not interrupt a core again: the termination finishes and the slot of
-- `target` holds no process. A `Pid` of a process is not 0.
pub evicted_ends :
    (sel : Selectors) (s : Scheduler) (core : ℕ) (frame : TrapFrame) (target : Pid)
    → Reachable sel s
    → current_at s core ≡ some target
    → target ≢ 0
    → front_passes sel s ≡ true
    → (t : Scheduler) × After (on_reschedule_ipi sel s core target frame) t
      × (holders target t.current ≡ 0)
      × ((u : Scheduler) × (drops : List Process) × (kill_round t target
            ≡ terminates (some (u, drops)))
          × (process_in (slot_at u (Pid.index target)) ≡ none))
unfolding on_reschedule_ipi set_current switch_to_next_or_halt kill_round
evicted_ends sel s core frame target reached cur nonzero pass =
    let w = Reachable-IsConsistent sel s reached in
    let (p, stop) = current-Stopped s core target w cur in
    let i = Pid.index target in
    let m = mark_stack_busy (set_current s core none) i in
    let clear = mark-IsConsistent (set_current s core none) i stop.consistent in
    let off : ready_of (slot_at m i) target ≡ 0 =
      ap (λ x. ready_of x target) stop.found.slot ∙ ground (arith, ap ready_bit stop.state) in
    let lets =
      finished-Leaves target (some i) (dispatch sel core (idles m) m (Ring.pop m.ready_queue)) (
        dispatch-Leaves sel m core target (release-IsConsistent m core clear)
          (stop.free target refl) off) in
    let (t, after, done, free) =
      after_of target (switch_to_next_or_halt sel m core (some i))
        (switch_to_next_or_halt-Proper sel m core (some i) clear)
        (λ e. cc (pass, (switch-panics sel m core (some i) clear).0 e)) lets in
    let (u, drops, answer, _, gone) = take_and_finalize_slot-Ends t target killed [] done.slots in
    (
      t,
      rw (==_ne target 0 nonzero, cur, ==_refl target) after,
      free,
      (u, drops, rw (owning_core_free t target max_cores 0 free, answer) refl, gone),
    )
