-- ===== src/Task/Scheduler/Invariant/Kill.antt =====
-- The invariant is kept when a process exits, is killed, or is waited for.
use tarn_os.Prelude.{
  ℕ, zero, suc, ◌+◌, ◌≤◌, ◌<◌, ◌^◌, ◌≡◌, ◌≢◌, refl, sym, subst, ap, ◌∙◌, not, ◌||◌, List, [],
  Option, none, some, ◌==◌, ==_refl, arith, Bool-cases, Option-cases, inl, inr, ◌⊎◌, ℕ_discrete,
}
use tarn_os.Abi.Status.{ExitStatus, killed}
use tarn_os.Task.Pid
use tarn_os.Task.Pid.{Pid}
use tarn_os.Task.Process.{TrapFrame, Process}
use tarn_os.Task.Scheduler.{
  Slot, Scheduler, max_processes, max_cores, slot_at, put_slot, generation_at, process_in, is_stale,
  is_pid, current_at, set_current, unreserved, release_reservation,
}
use tarn_os.Task.Scheduler.Teardown.{take_and_finalize_slot-Ends}
use tarn_os.Task.Scheduler.Wait.{Waited, returns, switches, wait_for_child, wait_on}
use tarn_os.Task.Scheduler.Dispatch.{Selectors, resumes}
use tarn_os.Task.Scheduler.Kill.{
  mark_stack_busy, end_current, owning_core, Round, evicts, terminates, kill_round,
  on_reschedule_ipi,
}
use tarn_os.Task.Scheduler.Invariant.{
  holders, ready_of, running_of, ready_slot, Named, IsConsistent,
}
use tarn_os.Task.Scheduler.Invariant.Put.{keep-IsConsistent, release-IsConsistent}
use tarn_os.Task.Scheduler.Invariant.Wake.{is_stale-false, occupant}
use tarn_os.Task.Scheduler.Invariant.Block.{current-Stopped, block_current_process-IsConsistent}
use tarn_os.Task.Scheduler.Invariant.Create.{empty-IsConsistent}
use tarn_os.Task.Scheduler.Invariant.Clear.{hit_or_miss, holders-none}
use tarn_os.Task.Scheduler.Invariant.Finalize.{
  Owns, process_in-some, take_and_finalize_slot-IsConsistent,
}
use tarn_os.Task.Scheduler.Invariant.Run.{Proper}
use tarn_os.Task.Scheduler.Invariant.Tick.{switch_to_next_or_halt-Proper}

pub mark-IsConsistent :
    (s : Scheduler) (index : ℕ) → IsConsistent s → IsConsistent (mark_stack_busy s index)
mark-IsConsistent s index w = record {
  slots = w.slots;
  counters = w.counters;
  cores = w.cores;
  small = w.small;
  queue = w.queue;
  represents = w.represents;
  capacity = w.capacity;
  queued = w.queued;
  counted = w.counted;
  held = w.held;
  named = w.named;
}

-- The core's own process ends: the cascade finishes and the scheduler is consistent then.
pub end_current-IsConsistent :
    (s : Scheduler) (core : ℕ) (status : ExitStatus)
    → IsConsistent s
    → (outgoing : Option ℕ) × (t : Scheduler) × (drops : List Process) × (end_current s core status
        ≡ some (outgoing, t, drops))
      × IsConsistent t
unfolding end_current set_current
end_current-IsConsistent s core status w = elim (Option-cases (current_at s core)) [
  | inl e ↦ (none, s, [], rw e refl, w)
  | inr (pid, e) ↦
      let (p, stop) = current-Stopped s core pid w e in
      let owns : Owns s pid = λ q at_slot.
        let same : p ≡ q =
          (let both : Slot.occupied p ≡ Slot.occupied q =
              sym stop.found.slot ∙ process_in-some (slot_at s (Pid.index pid)) q at_slot in
            cc both) in
        ap (λ x. x.pid) (sym same) ∙ stop.found.own in
      let (t, drops, answer, after) =
        take_and_finalize_slot-IsConsistent (mark_stack_busy s (Pid.index pid)) pid status []
          (mark-IsConsistent s (Pid.index pid) w) owns in
      (some (Pid.index pid), t, drops, rw (e, answer) refl, after)
]

-- A slot that is written again.
same_slot-IsConsistent :
    (s : Scheduler) (i : ℕ) (v : Slot)
    → IsConsistent s
    → i < max_processes
    → slot_at s i ≡ v
    → IsConsistent (put_slot s i v)
same_slot-IsConsistent s i v w inside e =
    keep-IsConsistent s w i inside v (λ r. ap (λ x. ready_of x r) e) (ap ready_slot e)
      (λ r at_i.
        subst (λ k. holders r s.current ≤ k)
          (ap (λ k. running_of (slot_at s k) r) at_i ∙ ap (λ x. running_of x r) e) (w.held r))
      (subst (Named i (generation_at s i)) e (w.named i))

pub release_reservation-IsConsistent :
    (s : Scheduler) (pid : Pid) → IsConsistent s → IsConsistent (release_reservation s pid)
unfolding release_reservation
release_reservation-IsConsistent s pid w = elim (Bool-cases (is_stale s pid)) [
  | inl e ↦ rw e w
  | inr e ↦ rw e (here (slot_at s (Pid.index pid)) refl (is_stale-false s pid e).0)
]
  where
    here :
        (v : Slot)
        → slot_at s (Pid.index pid) ≡ v
        → Pid.index pid < max_processes
        → IsConsistent (put_slot s (Pid.index pid) (unreserved v))
    here Slot.empty e inside = same_slot-IsConsistent s (Pid.index pid) Slot.empty w inside e
    here Slot.reserved e inside =
        empty-IsConsistent s (Pid.index pid) Slot.reserved Slot.empty w inside e (λ p. refl)
          (λ p. refl) refl (λ p. refl) refl tt
    here (Slot.zombie parent status) e inside =
        same_slot-IsConsistent s (Pid.index pid) (Slot.zombie parent status) w inside e
    here (Slot.occupied p) e inside =
        same_slot-IsConsistent s (Pid.index pid) (Slot.occupied p) w inside e

-- A wait that returns at once leaves a consistent scheduler, and so does one that blocks, whose core
-- goes on with `switch_to_next_or_halt`.
abbrev pub Settled : Waited → Type 0
Settled (returns frame s) = IsConsistent s
Settled (switches s) = IsConsistent s

module _ (s : Scheduler) (core : ℕ) (frame : TrapFrame) (target caller : Pid) (w : IsConsistent s)
    (cur : current_at s core ≡ some caller) (word : caller < 2 ^ 64) where
  wait_on-Settled :
      (v : Slot)
      → slot_at s (Pid.index target) ≡ v
      → Pid.index target < max_processes
      → Settled (wait_on s core frame target caller v)
  wait_on-Settled Slot.empty e inside = w
  wait_on-Settled Slot.reserved e inside = w
  wait_on-Settled (Slot.zombie parent status) e inside = elim (Bool-cases (parent == caller)) [
    | inl b ↦ rw b (
        empty-IsConsistent s (Pid.index target) (Slot.zombie parent status) Slot.empty w inside e
          (λ p. refl) (λ p. refl) refl (λ p. refl) refl tt)
    | inr b ↦ rw b w
  ]
  wait_on-Settled (Slot.occupied p) e inside = elim (Bool-cases (is_pid caller p.parent)) [
    | inl b ↦
        let (_, name, sound) = occupant s w (Pid.index target) p inside e in
        let q : Process = record p { wait_waiter = some caller } in
        rw b (
          block_current_process-IsConsistent (put_slot s (Pid.index target) (Slot.occupied q)) core
            frame caller
            (keep-IsConsistent s w (Pid.index target) inside (Slot.occupied q)
              (λ r. ap (λ x. ready_of x r) e) (ap ready_slot e)
              (λ r at_i.
                subst (λ k. holders r s.current ≤ k)
                  (ap (λ k. running_of (slot_at s k) r) at_i ∙ ap (λ x. running_of x r) e)
                  (w.held r))
              (sym name, word))
            cur)
    | inr b ↦ rw b w
  ]

  -- `SYS_WAIT` of a process that its core runs leaves a consistent scheduler
  -- consistent, on every branch.
  pub wait_for_child-Settled : Settled (wait_for_child s core frame target caller)
  unfolding wait_for_child
  wait_for_child-Settled = elim (Bool-cases (is_stale s target)) [
    | inl e ↦ rw e w
    | inr e ↦
        rw e (wait_on-Settled (slot_at s (Pid.index target)) refl (is_stale-false s target e).0)
  ]

-- No core runs a process that `owning_core` does not find.
owning_core-none :
    (s : Scheduler) (target : Pid) (rounds core k : ℕ)
    → owning_core rounds core s target ≡ none
    → core ≤ k
    → k < core + rounds
    → current_at s k ≢ some target
unfolding owning_core
owning_core-none s target zero core k h low high e = absurd (omega arith)
owning_core-none s target (suc rounds) core k h low high e =
    elim (hit_or_miss target (current_at s core)) [
      | inl hit ↦ let bad : some core ≡ none = rw (hit, ==_refl target, owning_core) at h in cc bad
      | inr (miss, ne) ↦ elim (ℕ_discrete core k) [
        | yes same ↦ ne (ap (current_at s) same ∙ e)
        | no apart ↦
            owning_core-none s target rounds (core + 1) k (rw (miss, owning_core) at h)
              (omega arith) (omega arith) e
      ]
    ]

owning_core-some :
    (s : Scheduler) (target : Pid) (rounds core k : ℕ)
    → owning_core rounds core s target ≡ some k
    → current_at s k ≡ some target
unfolding owning_core
owning_core-some s target zero core k h = cc
owning_core-some s target (suc rounds) core k h = elim (hit_or_miss target (current_at s core)) [
  | inl hit ↦
      let found : some core ≡ some k = rw (hit, ==_refl target, owning_core) at h in
      let same : core ≡ k = cc in subst (λ x. current_at s x ≡ some target) same hit
  | inr (miss, ne) ↦ owning_core-some s target rounds (core + 1) k (rw (miss, owning_core) at h)
]

-- What a round of `terminate_process` ends in: the core that it interrupts runs the target, or no core
-- runs it, the termination finishes, and the scheduler is consistent then, with no process in the slot.
abbrev pub RoundEnds : Scheduler → Pid → Round → Type 0
RoundEnds s target (evicts core) = current_at s core ≡ some target
RoundEnds s target (terminates r) =
    (holders target s.current ≡ 0)
    × ((t : Scheduler) × (drops : List Process) × (r ≡ some (t, drops))
        × IsConsistent t
        × (process_in (slot_at t (Pid.index target)) ≡ none))

-- A round of `terminate_process`, in a consistent scheduler, on a `Pid` whose slot holds no process of
-- another name: it interrupts a core that runs the target, or no core runs the target, its termination
-- finishes, and the scheduler is consistent then and has no process in that slot.
pub kill_round-RoundEnds :
    (s : Scheduler) (target : Pid)
    → IsConsistent s
    → Owns s target
    → RoundEnds s target (kill_round s target)
unfolding kill_round
kill_round-RoundEnds s target w owns = elim (Option-cases (owning_core max_cores 0 s target)) [
  | inr (core, e) ↦ rw e (owning_core-some s target max_cores 0 core e)
  | inl e ↦
      let (t, drops, answer, after) =
        take_and_finalize_slot-IsConsistent s target killed [] w owns in
      let (u, more, answer', _, gone) = take_and_finalize_slot-Ends s target killed [] w.slots in
      let both : some (u, more) ≡ some (t, drops) = sym answer' ∙ answer in
      let same : u ≡ t = cc both in
      rw e (
        holders-none target s.current (λ k h.
            owning_core-none s target max_cores 0 k e (omega arith) (omega (arith, w.cores))),
        (
          t,
          drops,
          answer,
          after,
          subst (λ x. process_in (slot_at x (Pid.index target)) ≡ none) same gone,
        ),
      )
]

-- A core that is asked to let a process go: it resumes what it did and nothing changes, or it goes on with
-- another process or idles, and the scheduler is consistent then, or it fails an assertion.
pub on_reschedule_ipi-Proper :
    (sel : Selectors) (s : Scheduler) (core evict : ℕ) (frame : TrapFrame)
    → IsConsistent s
    → (on_reschedule_ipi sel s core evict frame ≡ resumes frame s)
      ⊎ Proper (on_reschedule_ipi sel s core evict frame)
unfolding on_reschedule_ipi set_current
on_reschedule_ipi-Proper sel s core evict frame w =
    elim (Bool-cases (evict == 0 || not (is_pid evict (current_at s core)))) [
      | inl e ↦ rw e (inl refl)
      | inr e ↦ rw e (
          inr (
            switch_to_next_or_halt-Proper sel
              (mark_stack_busy (set_current s core none) (Pid.index evict)) core
              (some (Pid.index evict))
              (mark-IsConsistent (set_current s core none) (Pid.index evict)
                (release-IsConsistent s core w))))
    ]
