-- ===== src/Tests/Executor.antt =====
-- kernel/src/task/executor.rs: two tasks, of which the first wakes the second once.
use tarn_os.Prelude.{
  ℕ, zero, suc, ◌+◌, ◌≡◌, ◌≤◌, refl, true, false, List, [], ◌∷◌, Option, some, none, ◌==◌,
  if◌then◌else◌, length, arith,
}
use tarn_os.Kcore.Ring
use tarn_os.Kcore.Ring.Refine.{Represents, new-Represents, push_with_room}
use tarn_os.Task.Executor.{
  TaskId, Executor, Polled, find, insert, remove, new, spawn, wake_task, wake_all, poll_task, drain,
  run_ready_tasks,
}
use tarn_os.Task.Executor.Owed.{is_some, owed, Kept}
use tarn_os.Task.Executor.Runs.{spawns, Reachable, starts, steps, Reachable-Kept, run-settles}
use tarn_os.Task.Executor.Returns.{run_ready_tasks_ends}

-- A future is the number of polls that it waits for; the world is the number of wakes that are left. While some are left, each
-- poll of task 0 wakes task 1.
abbrev wakes_of : ℕ → TaskId → List TaskId
wakes_of zero id = []
wakes_of (suc left) id = if id == 0 then 1 ∷ [] else []

abbrev world_of : ℕ → TaskId → ℕ
world_of zero id = 0
world_of (suc left) id = if id == 0 then left else suc left

abbrev future_of : ℕ → Option ℕ
future_of zero = none
future_of (suc waits) = some waits

abbrev poll : ℕ → TaskId → ℕ → Polled ℕ ℕ
poll w id f = record { wakes = wakes_of w id; future = future_of f; world = world_of w id }

abbrev two_tasks : Executor ℕ ℕ
two_tasks = spawn poll (spawn poll (new poll 3) 0 5) 1 2

two_tasks-Reachable : Reachable poll two_tasks
unfolding spawn new Ring.new Ring.push
two_tasks-Reachable =
    steps (steps (starts 3) (spawns (new poll 3) 0 5 refl))
      (spawns (spawn poll (new poll 3) 0 5) 1 2 refl)

Reachable-Kept_example : Kept poll [] two_tasks
Reachable-Kept_example = Reachable-Kept poll two_tasks-Reachable

ran :
    (t : Executor ℕ ℕ) × (run_ready_tasks poll 10 two_tasks ≡ some t)
    × (t.overflowed ≡ false)
    × (is_some (find 1 t.tasks) ≡ true)
unfolding run_ready_tasks drain poll_task wake_all wake_task spawn new find insert remove Ring.new
    Ring.push Ring.pop
ran = (_, refl, refl, refl)

run-settles_example : owed 1 ran.0.history ≡ false
unfolding spawn new
run-settles_example =
    run-settles poll 10 two_tasks ran.0 1 two_tasks-Reachable refl ran.1 ran.2 ran.3

spends : (w : ℕ) (id : TaskId) (f : ℕ) → (poll w id f).world + length (poll w id f).wakes ≤ w
spends zero id f = omega arith
spends (suc left) id f = ground arith

two_ready : Represents two_tasks.ready (0 ∷ 1 ∷ [])
unfolding spawn new wake_task Ring.push Ring.new
two_ready =
    let empty_queue = new-Represents {T = TaskId} 64 (omega arith) (omega arith) in
    let (_, one, _) = push_with_room (Ring.new 64) [] 0 empty_queue (λ e. omega arith) in
    let (_, two, _) =
      push_with_room (Ring.push (Ring.new 64) 0).1 (0 ∷ []) 1 one (λ e. omega (arith, e)) in
    two

run_ready_tasks_ends_example : (t : Executor ℕ ℕ) × (run_ready_tasks poll 6 two_tasks ≡ some t)
unfolding spawn new
run_ready_tasks_ends_example =
    run_ready_tasks_ends poll (λ w. w) spends 6 two_tasks (0 ∷ 1 ∷ []) two_ready (omega arith)
