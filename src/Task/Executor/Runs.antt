-- ===== src/Task/Executor/Runs.antt =====
-- kernel/src/task/executor.rs: the states that spawns, wakes and runs lead to, and when a run ends.
use tarn_os.Prelude.{
  ℕ, ◌≡◌, refl, sym, ap, ◌∙◌, subst, true, false, ◌||◌, [], ◌∷◌, ◌++◌, some, ◌==◌, if◌then◌else◌,
  length, arith, Bool-cases, inl, inr, ℕ_discrete,
}
use tarn_os.Kcore.Ring
use tarn_os.Kcore.Ring.{RingBuffer}
use tarn_os.Kcore.Ring.Refine.{push_with_room, push_when_full, new-Represents}
use tarn_os.Task.Executor.{
  TaskId, Executor, Polled, ready_queue_capacity, find, keys, new, spawn, wake_task, poll_each,
  drain, run_ready_tasks,
}
use tarn_os.Task.Executor.Owed.{
  in_list, is_some, owed, in_list-snoc, present-insert, present-keys, Kept, wake_task-Kept,
  poll_each-Kept, drain-Ran,
}

module _ {F W : Type 0} (poll : W → TaskId → F → Polled F W) where
  -- A task is spawned while the queue has room, an interrupt wakes a task, or a run ends.
  pub data Step : Executor F W → Executor F W → Type 0 where
    spawns :
        (s : Executor F W) (id : TaskId) (f : F)
        → (Ring.push s.ready id).0 ≡ true
        → Step s (spawn poll s id f)
    wakes : (s : Executor F W) (id : TaskId) → Step s (wake_task poll s id)
    runs : (s t : Executor F W) (fuel : ℕ) → run_ready_tasks poll fuel s ≡ some t → Step s t

  pub data Reachable : Executor F W → Type 0 where
    starts : (w : W) → Reachable (new poll w)
    steps : {s t : Executor F W} → Reachable s → Step s t → Reachable t

  spawn-Kept :
      (s : Executor F W) (id : TaskId) (f : F)
      → (Ring.push s.ready id).0 ≡ true
      → Kept poll [] s
      → Kept poll [] (spawn poll s id f)
  unfolding spawn
  spawn-Kept s id f done kept = elim (ℕ_discrete (length kept.queue) s.ready.capacity) [
    | yes full ↦
        let e = push_when_full s.ready kept.queue id kept.ready full in
        let bad : false ≡ true = rw e at done in cc bad
    | no room ↦
        let (_, rep, size) = push_with_room s.ready kept.queue id kept.ready room in
        record {
          queue = kept.queue ++ id ∷ [];
          ready = rep;
          size = size ∙ kept.size;
          pending = λ j o p. queued j (kept.pending j) o (sym (present-insert id j f s.tasks) ∙ p);
        }
  ]
    where
      queued :
          (j : TaskId)
          → (owed j s.history ≡ true
              → is_some (find j s.tasks) ≡ true
              → (s.overflowed || in_list j kept.queue || false) ≡ true)
          → (id == j || owed j s.history) ≡ true
          → (id == j || is_some (find j s.tasks)) ≡ true
          → (s.overflowed || in_list j (kept.queue ++ id ∷ []) || false) ≡ true
      queued j before o p = ground (arith, in_list-snoc j id kept.queue, before, o, p)

  all_due :
      (s : Executor F W)
      → Kept poll [] s
      → Kept poll (keys s.tasks) (record s { overflowed = false })
  all_due s kept = record {
    queue = kept.queue;
    ready = kept.ready;
    size = kept.size;
    pending = λ j o p. ground (arith, present-keys j s.tasks, p);
  }

  pub run_calm :
      (fuel : ℕ) (s : Executor F W)
      → s.overflowed ≡ false
      → drain poll fuel s ≡ run_ready_tasks poll fuel s
  unfolding run_ready_tasks
  run_calm fuel s calm =
      let after = poll_each poll (keys s.tasks) (record s { overflowed = false }) in
      sym (ap (λ b. if b then some after else drain poll fuel s) calm)

  run-Kept :
      (fuel : ℕ) (s t : Executor F W)
      → run_ready_tasks poll fuel s ≡ some t
      → Kept poll [] s
      → Kept poll [] t
  unfolding run_ready_tasks
  run-Kept fuel s t e kept = elim (Bool-cases s.overflowed) [
    | inl over ↦
        let after = poll_each poll (keys s.tasks) (record s { overflowed = false }) in
        let done : some after ≡ some t =
          sym (ap (λ b. if b then some after else drain poll fuel s) over) ∙ e in
        let same : after ≡ t = cc done in
        subst (Kept poll []) same
          (poll_each-Kept poll (keys s.tasks) (record s { overflowed = false }) (all_due s kept))
    | inr calm ↦
        (drain-Ran poll fuel s t kept.queue kept.ready kept.size kept.pending
          (run_calm fuel s calm ∙ e)).kept
  ]

  Step-Kept : {s t : Executor F W} → Step s t → Kept poll [] s → Kept poll [] t
  Step-Kept (spawns s id f done) kept = spawn-Kept s id f done kept
  Step-Kept (wakes s id) kept = wake_task-Kept poll [] s id kept
  Step-Kept (runs s t fuel e) kept = run-Kept fuel s t e kept

  -- No wake is lost: in every state that spawns into a queue with room, wakes at any time and runs lead to,
  -- a task that was spawned or woken after its last poll, and is not done, is in the ready queue, or
  -- the next run polls every task.
  pub Reachable-Kept : {s : Executor F W} → Reachable s → Kept poll [] s
  unfolding new Ring.new
  Reachable-Kept (starts w) = record {
    queue = [];
    ready = new-Represents ready_queue_capacity (omega arith) (omega arith);
    size = refl;
    pending = λ j o p. cc o;
  }
  Reachable-Kept (steps r step) = Step-Kept step (Reachable-Kept r)

  -- A run that starts and ends without an overflow leaves no task that waits for a poll.
  pub run-settles :
      (fuel : ℕ) (s t : Executor F W) (id : TaskId)
      → Reachable s
      → s.overflowed ≡ false
      → run_ready_tasks poll fuel s ≡ some t
      → t.overflowed ≡ false
      → is_some (find id t.tasks) ≡ true
      → owed id t.history ≡ false
  run-settles fuel s t id r calm e still there =
      let kept = Reachable-Kept r in
      let ran =
        drain-Ran poll fuel s t kept.queue kept.ready kept.size kept.pending
          (run_calm fuel s calm ∙ e) in
      ran.settled id still there
