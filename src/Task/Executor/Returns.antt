-- ===== src/Task/Executor/Returns.antt =====
-- kernel/src/task/executor.rs: when the loop over the ready queue ends.
use tarn_os.Prelude.{
  ℕ, zero, suc, ◌+◌, ◌≡◌, ◌≤◌, ◌<◌, refl, sym, ap, ◌∙◌, subst, false, if◌then◌else◌, Bool-cases,
  inl, inr, List, [], ◌∷◌, ◌++◌, Option, none, some, length, arith, ℕ_discrete, length-append,
}
use tarn_os.Kcore.Ring
use tarn_os.Kcore.Ring.Fifo
use tarn_os.Kcore.Ring.Refine.{Represents, push_with_room, push_when_full, pop_front, pop_refines}
use tarn_os.Task.Executor.{
  TaskId, Executor, Polled, polled, find, insert, wake_task, wake_all, settle, poll_future,
  poll_task, drain, poll_each, run_ready_tasks, keys,
}
use tarn_os.Task.Executor.Runs.{run_calm}

module _ {F W : Type 0} (poll : W → TaskId → F → Polled F W) where
  -- The queue holds at most `n` tasks, in the world `w`.
  record Holds (n : ℕ) (w : W) (s : Executor F W) : Type 0 where
    queue : List TaskId
    ready : Represents s.ready queue
    short : length queue ≤ n
    same_world : s.world ≡ w

  wake_task-Holds :
      (n : ℕ) (w : W) (s : Executor F W) (id : TaskId)
      → Holds n w s
      → Holds (n + 1) w (wake_task poll s id)
  unfolding wake_task
  wake_task-Holds n w s id h = elim (ℕ_discrete (length h.queue) s.ready.capacity) [
    | yes full ↦
        let e = push_when_full s.ready h.queue id h.ready full in
        rw e (record {
          queue = h.queue;
          ready = h.ready;
          short = omega (arith, h.short);
          same_world = h.same_world;
        })
    | no room ↦
        let (_, rep, _) = push_with_room s.ready h.queue id h.ready room in
        record {
          queue = h.queue ++ id ∷ [];
          ready = rep;
          short = omega (arith, h.short, length-append h.queue (id ∷ []));
          same_world = h.same_world;
        }
  ]

  wake_all-Holds :
      (n : ℕ) (w : W) (ids : List TaskId) (s : Executor F W)
      → Holds n w s
      → Holds (length ids + n) w (wake_all poll ids s)
  unfolding wake_all
  wake_all-Holds n w [] s h = let e : n ≡ 0 + n = omega arith in subst (λ k. Holds k w s) e h
  wake_all-Holds n w (id ∷ ids) s h =
      let e : length ids + (n + 1) ≡ length (id ∷ ids) + n = omega arith in
      subst (λ k. Holds k w (wake_all poll ids (wake_task poll s id))) e
        (wake_all-Holds (n + 1) w ids (wake_task poll s id) (wake_task-Holds n w s id h))

  settle-Holds :
      (n : ℕ) (w : W) (id : TaskId) (r : Option F) (s : Executor F W)
      → Holds n w s
      → Holds n w (settle poll id r s)
  settle-Holds n w id none s h = record {
    queue = h.queue;
    ready = h.ready;
    short = h.short;
    same_world = h.same_world;
  }
  settle-Holds n w id (some f) s h = record {
    queue = h.queue;
    ready = h.ready;
    short = h.short;
    same_world = h.same_world;
  }

  -- `budget` bounds the wakes that the futures still make: a poll takes from it as many as it wakes.
  module _ (budget : W → ℕ)
      (spends : (w : W) (id : TaskId) (f : F)
        → budget (poll w id f).world + length (poll w id f).wakes ≤ budget w) where
    -- What a poll leaves: the queue and the budget together do not grow.
    polls-Holds :
        (s : Executor F W) (id : TaskId) (f : Option F) (n : ℕ)
        → Holds n s.world s
        → (m : ℕ) × (w : W) × Holds m w (poll_future poll s id f)
          × (m + budget w ≤ n + budget s.world)
    polls-Holds s id none n h = (n, s.world, h, omega arith)
    polls-Holds s id (some f) n h =
        let p = poll s.world id f in
        let start : Executor F W = record s {
          wakers = insert id tt s.wakers;
          history = polled id ∷ s.history;
          world = p.world;
        } in
        let begun : Holds n p.world start = record {
          queue = h.queue;
          ready = h.ready;
          short = h.short;
          same_world = refl;
        } in
        (
          length p.wakes + n,
          p.world,
          settle-Holds (length p.wakes + n) p.world id p.future (wake_all poll p.wakes start)
              (wake_all-Holds n p.world p.wakes start begun),
          omega (arith, spends s.world id f),
        )

    drain-ends :
        (fuel n : ℕ) (s : Executor F W) (queue : List TaskId)
        → Represents s.ready queue
        → length queue ≤ n
        → n + budget s.world < fuel
        → (t : Executor F W) × (drain poll fuel s ≡ some t)
    unfolding drain poll_task Fifo.pop
    drain-ends zero n s queue rep short enough = absurd (omega arith)
    drain-ends (suc fuel) n s [] rep short enough =
        let (front, _, _) = pop_refines s.ready [] rep in
        (record s { ready = (Ring.pop s.ready).1 }, rw (drain, front) refl)
    drain-ends (suc fuel) n s (id ∷ queue) rep short enough =
        let (front, rep', _, _) = pop_front s.ready id queue rep in
        let popped : Executor F W = record s { ready = (Ring.pop s.ready).1 } in
        let start : Holds (length queue) s.world popped = record {
          queue = queue;
          ready = rep';
          short = omega arith;
          same_world = refl;
        } in
        let (m, w, after, less) = polls-Holds popped id (find id s.tasks) (length queue) start in
        let same = ap budget after.same_world in
        let (t, e) =
          drain-ends fuel m (poll_task poll popped id) after.queue after.ready after.short
            (omega (arith, less, same, enough, short)) in
        (t, rw (drain, front) e)

    -- If the futures have a budget of wakes, then every run ends: it needs at most one round more than there
    -- are tasks in the queue and wakes in the budget together.
    pub run_ready_tasks_ends :
        (fuel : ℕ) (s : Executor F W) (queue : List TaskId)
        → Represents s.ready queue
        → length queue + budget s.world < fuel
        → (t : Executor F W) × (run_ready_tasks poll fuel s ≡ some t)
    unfolding run_ready_tasks
    run_ready_tasks_ends fuel s queue rep enough = elim (Bool-cases s.overflowed) [
      | inl over ↦
          let after = poll_each poll (keys s.tasks) (record s { overflowed = false }) in
          (after, ap (λ b. if b then some after else drain poll fuel s) over)
      | inr calm ↦
          let (t, e) = drain-ends fuel (length queue) s queue rep (omega arith) enough in
          (t, sym (run_calm poll fuel s calm) ∙ e)
    ]
