-- ===== src/Task/Scheduler/Invariant/Run.antt =====
-- Dispatch from a consistent scheduler.
use tarn_os.Prelude.{
  ℕ, ◌≡◌, ◌≢◌, ◌↔◌, refl, sym, subst, ap, ◌∙◌, Bool, true, false, List, [], ◌∷◌, Option, none, some,
  ◌⊎◌, inl, inr, Bool-cases, set,
}
use tarn_os.Kcore.Ring
use tarn_os.Kcore.Ring.{RingBuffer}
use tarn_os.Kcore.Ring.Refine.{Represents, pop_front, pop_refines}
use tarn_os.Kcore.Ring.Fifo
use tarn_os.Task.Pid
use tarn_os.Task.Pid.{Pid}
use tarn_os.Task.Process.{TrapFrame, ProcessState, Process}
use tarn_os.Task.Scheduler.{Slot, Scheduler, slot_at, set_current}
use tarn_os.Task.Scheduler.Dispatch.{
  Selectors, Switched, panics, idles, resumes, is_user_frame, dispatch,
}
use tarn_os.Task.Scheduler.Invariant.{IsConsistent}
use tarn_os.Task.Scheduler.Invariant.Front.{
  slot_passes, switch_to-bad, the_front, taken, taken-IsConsistent, switch_to_front,
}

-- A core that fails an assertion, or goes idle or resumes a process in a consistent scheduler.
pub data Proper : Switched → Type 0 where
  stopped : Proper panics
  idle : {s : Scheduler} → IsConsistent s → Proper (idles s)
  run : {f : TrapFrame} {s : Scheduler} → IsConsistent s → Proper (resumes f s)

-- Whether the process at the front of the queue, if there is one, has saved a frame that passes the
-- assertions.
abbrev pub pid_passes : Selectors → Scheduler → Option Pid → Bool
pid_passes sel s none = true
pid_passes sel s (some pid) = slot_passes sel (slot_at s (Pid.index pid))

abbrev pub front_passes : Selectors → Scheduler → Bool
front_passes sel s = pid_passes sel s (Ring.pop s.ready_queue).0

-- A core took the front `pid` of the queue, with the frame that was saved, and `rest` is left.
pub record Dispatched (t : Scheduler) (core : ℕ) (pid : Pid) (rest : List Pid) (r : Switched)
    : Type 0 where
  pub p : Process
  pub after : Scheduler
  pub saved : slot_at t (Pid.index pid) ≡ Slot.occupied p
  pub result : r ≡ resumes p.trap_frame after
  pub consistent : IsConsistent after
  pub queue : Represents after.ready_queue rest
  pub cores : after.current ≡ set t.current core (some pid)
  pub generations : after.generations ≡ t.generations
  pub table :
      after.processes
      ≡ set t.processes (Pid.index pid) (Slot.occupied (record p { state = ProcessState.running }))

-- The front of the queue is taken, or an assertion fails on the frame that it saved.
pub dispatch-cases :
    (sel : Selectors) (t : Scheduler) (core : ℕ) (otherwise : Switched) (pid : Pid)
    (rest : List Pid) (w : IsConsistent (set_current t core none))
    → w.queue ≡ pid ∷ rest
    → ((front_passes sel t ≡ true)
        × Dispatched t core pid rest (dispatch sel core otherwise t (Ring.pop t.ready_queue)))
      ⊎ ((front_passes sel t ≡ false)
          × (dispatch sel core otherwise t (Ring.pop t.ready_queue) ≡ panics))
unfolding set_current
dispatch-cases sel t core otherwise pid rest w e =
    let (answer, left, _, _) =
      pop_front t.ready_queue pid rest (subst (Represents t.ready_queue) e w.represents) in
    let f = the_front t core w pid rest e in
    let same : front_passes sel t ≡ is_user_frame sel f.p.trap_frame =
      ap (pid_passes sel t) answer ∙ ap (slot_passes sel) f.found.slot in
    elim (Bool-cases (is_user_frame sel f.p.trap_frame)) [
      | inl pass ↦ inl (
        same ∙ pass,
        record {
          p = f.p;
          after = taken t core w pid rest e f.p;
          saved = f.found.slot;
          result = rw answer (switch_to_front t core w pid rest e sel pass);
          consistent = taken-IsConsistent t core w pid rest e f;
          queue = left;
          cores = refl;
          generations = refl;
          table = refl;
        },
      )
      | inr bad ↦ inr (
        same ∙ bad,
        rw answer (
            switch_to-bad sel (record t { ready_queue = (Ring.pop t.ready_queue).1 }) core pid f.p
              f.found.slot bad),
      )
    ]

pub dispatch-Dispatched :
    (sel : Selectors) (t : Scheduler) (core : ℕ) (otherwise : Switched) (pid : Pid)
    (rest : List Pid) (w : IsConsistent (set_current t core none))
    → w.queue ≡ pid ∷ rest
    → front_passes sel t ≡ true
    → Dispatched t core pid rest (dispatch sel core otherwise t (Ring.pop t.ready_queue))
dispatch-Dispatched sel t core otherwise pid rest w e pass =
    elim (dispatch-cases sel t core otherwise pid rest w e) [
      | inl (_, d) ↦ d
      | inr (bad, _) ↦ absurd (cc (bad, pass))
    ]

module _ (sel : Selectors) (t : Scheduler) (core : ℕ) (otherwise : Switched)
    (w : IsConsistent (set_current t core none)) where
  -- An empty queue.
  dispatch-empty :
      w.queue ≡ []
      → (dispatch sel core otherwise t (Ring.pop t.ready_queue) ≡ otherwise)
        × (front_passes sel t ≡ true)
  unfolding set_current Fifo.pop
  dispatch-empty e =
      let (answer, _, _) =
        pop_refines t.ready_queue [] (subst (Represents t.ready_queue) e w.represents) in
      (rw answer refl, ap (pid_passes sel t) answer)

  -- A core that has let go of what it ran takes the front of the queue.
  pub dispatch-Proper :
      (w.queue ≡ [] → Proper otherwise)
      → Proper (dispatch sel core otherwise t (Ring.pop t.ready_queue))
  dispatch-Proper h = here w.queue refl
    where
      here :
          (queue : List Pid)
          → w.queue ≡ queue
          → Proper (dispatch sel core otherwise t (Ring.pop t.ready_queue))
      here [] e = subst Proper (sym (dispatch-empty e).0) (h e)
      here (pid ∷ rest) e = elim (dispatch-cases sel t core otherwise pid rest w e) [
        | inl (_, d) ↦ subst Proper (sym d.result) (run d.consistent)
        | inr (_, bad) ↦ subst Proper (sym bad) stopped
      ]

  -- An assertion fails exactly on the frame of the process at the front.
  pub dispatch-panics :
      otherwise ≢ panics
      → (dispatch sel core otherwise t (Ring.pop t.ready_queue) ≡ panics)
        ↔ (front_passes sel t ≡ false)
  dispatch-panics h = here w.queue refl
    where
      here :
          (queue : List Pid)
          → w.queue ≡ queue
          → (dispatch sel core otherwise t (Ring.pop t.ready_queue) ≡ panics)
            ↔ (front_passes sel t ≡ false)
      here [] e =
          let (same, pass) = dispatch-empty e in
          (λ bad. absurd (h (sym same ∙ bad)), λ bad. absurd (cc (bad, pass)))
      here (pid ∷ rest) e = elim (dispatch-cases sel t core otherwise pid rest w e) [
        | inl (pass, d) ↦ (λ bad. absurd (cc (bad, d.result)), λ bad. absurd (cc (bad, pass)))
        | inr (bad, fails) ↦ (λ _. bad, λ _. fails)
      ]
