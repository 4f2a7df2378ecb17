-- ===== src/Task/Executor.antt =====
-- kernel/src/task/executor.rs: the executor of kernel tasks, its ready queue and its wakers. A future and
-- what it works on are parameters: one poll may wake tasks, and answers whether the future is
-- ready. `history` records wakes and polls, newest first, for the theorems; the code does not
-- keep it. The executor's lock makes a run one step.
pub mod Owed
pub mod Runs
pub mod Returns
use tarn_os.Prelude.{
  ℕ, zero, suc, ◌+◌, ◌%◌, ◌^◌, Bool, true, false, List, [], ◌∷◌, Option, none, some, ◌==◌, ltb, not,
  ◌||◌, if◌then◌else◌,
}
use tarn_os.Kcore.Ring
use tarn_os.Kcore.Ring.{RingBuffer}

pub data Event : Type 0 where
  woken polled : ℕ → Event

-- `TaskId`.
abbrev pub TaskId : Type 0
TaskId = ℕ

-- `READY_QUEUE_CAPACITY`.
abbrev pub ready_queue_capacity : ℕ
ready_queue_capacity = 64

-- A `BTreeMap`: pairs in the order of their keys.
module _ {F : Type 0} where
  unfoldable pub find : TaskId → List (TaskId × F) → Option F
  find id [] = none
  find id ((key, f) ∷ m) = if key == id then some f else find id m

  unfoldable pub insert : TaskId → F → List (TaskId × F) → List (TaskId × F)
  insert id f [] = (id, f) ∷ []
  insert id f ((key, g) ∷ m) =
      let rest = insert id f m in
      if key == id
      then (id, f) ∷ m
      else if ltb id key
      then (id, f) ∷ (key, g) ∷ m
      else (key, g) ∷ rest

  unfoldable pub remove : TaskId → List (TaskId × F) → List (TaskId × F)
  remove id [] = []
  remove id ((key, g) ∷ m) = let rest = remove id m in if key == id then m else (key, g) ∷ rest

  unfoldable pub keys : List (TaskId × F) → List TaskId
  keys [] = []
  keys ((key, f) ∷ m) = key ∷ keys m

-- The executor with `READY_QUEUE`, `OVERFLOWED` and the counter of `TaskId::new`.
pub record Executor (F W : Type 0) : Type 0 where
  pub next : ℕ
  pub tasks : List (TaskId × F)
  pub wakers : List (TaskId × Unit {0})
  pub ready : RingBuffer TaskId
  pub overflowed : Bool
  pub world : W
  pub history : List Event

-- One poll of a future: the tasks that it woke, in order, and the future, or `none` if it is ready.
pub record Polled (F W : Type 0) : Type 0 where
  pub wakes : List TaskId
  pub future : Option F
  pub world : W

module _ {F W : Type 0} (poll : W → TaskId → F → Polled F W) where
  unfoldable pub new : W → Executor F W
  new w = record {
    next = 0;
    tasks = [];
    wakers = [];
    ready = Ring.new ready_queue_capacity;
    overflowed = false;
    world = w;
    history = [];
  }

  -- `Task::new`.
  unfoldable pub task_new : Executor F W → TaskId × Executor F W
  task_new s = (s.next, record s { next = (s.next + 1) % 2 ^ 64 })

  -- The answer of the push is ignored.
  unfoldable pub spawn : Executor F W → TaskId → F → Executor F W
  spawn s id f = record s {
    tasks = insert id f s.tasks;
    ready = (Ring.push s.ready id).1;
    history = woken id ∷ s.history;
  }

  unfoldable pub wake_task : Executor F W → TaskId → Executor F W
  wake_task s id =
      let (done, ready) = Ring.push s.ready id in
      record s {
        ready = ready;
        overflowed = not done || s.overflowed;
        history = woken id ∷ s.history;
      }

  unfoldable pub wake_all : List TaskId → Executor F W → Executor F W
  unfolding wake_task
  wake_all [] s = s
  wake_all (id ∷ ids) s = wake_all ids (wake_task s id)

  -- What is left to do after a poll.
  abbrev pub settle : TaskId → Option F → Executor F W → Executor F W
  settle id none s = record s { tasks = remove id s.tasks; wakers = remove id s.wakers }
  settle id (some f) s = record s { tasks = insert id f s.tasks }

  abbrev pub poll_future : Executor F W → TaskId → Option F → Executor F W
  poll_future s id none = s
  poll_future s id (some f) =
      let p = poll s.world id f in
      let with_waker : Executor F W = record s {
        wakers = insert id tt s.wakers;
        history = polled id ∷ s.history;
        world = p.world;
      } in
      settle id p.future (wake_all p.wakes with_waker)

  unfoldable pub poll_task : Executor F W → TaskId → Executor F W
  unfolding wake_all
  poll_task s id = poll_future s id (find id s.tasks)

  unfoldable pub poll_each : List TaskId → Executor F W → Executor F W
  unfolding poll_task
  poll_each [] s = s
  poll_each (id ∷ ids) s = poll_each ids (poll_task s id)

  -- The loop over the ready queue; `none` is the loop out of fuel.
  unfoldable pub drain : ℕ → Executor F W → Option (Executor F W)
  unfolding poll_task
  drain zero s = none
  drain (suc fuel) s =
      let (front, ready) = Ring.pop s.ready in
      let popped : Executor F W = record s { ready = ready } in
      elim front [ none ↦ some popped | some id ↦ drain fuel (poll_task popped id) ]

  -- `run_ready_tasks_locked`.
  unfoldable pub run_ready_tasks : ℕ → Executor F W → Option (Executor F W)
  unfolding drain poll_each
  run_ready_tasks fuel s =
      if s.overflowed
      then some (poll_each (keys s.tasks) (record s { overflowed = false }))
      else drain fuel s
