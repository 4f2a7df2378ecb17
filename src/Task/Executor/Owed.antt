-- ===== src/Task/Executor/Owed.antt =====
-- kernel/src/task/executor.rs: no wake of a task is lost.
use tarn_os.Prelude.{
  ℕ, zero, suc, ◌≡◌, refl, sym, ◌∙◌, subst, Bool, true, false, ◌||◌, ◌&&◌, not, List, [], ◌∷◌, ◌++◌,
  Option, none, some, ◌==◌, ==_iff, length, arith, Bool-cases, inl, inr, ℕ_discrete,
}
use tarn_os.Kcore.Ring
use tarn_os.Kcore.Ring.{RingBuffer}
use tarn_os.Kcore.Ring.Fifo
use tarn_os.Kcore.Ring.Refine.{Represents, push_with_room, push_when_full, pop_front, pop_refines}
use tarn_os.Task.Executor.{
  TaskId, Event, woken, polled, Executor, Polled, ready_queue_capacity, find, insert, remove, keys,
  wake_task, wake_all, settle, poll_future, poll_task, poll_each, drain,
}

abbrev pub in_list : TaskId → List TaskId → Bool
in_list id [] = false
in_list id (x ∷ xs) = x == id || in_list id xs

abbrev pub is_some : {A : Type 0} → Option A → Bool
is_some none = false
is_some (some a) = true

-- The task was woken after its last poll.
abbrev pub owed : TaskId → List Event → Bool
owed id [] = false
owed id (woken other ∷ h) = other == id || owed id h
owed id (polled other ∷ h) = not (other == id) && owed id h

pub in_list-snoc :
    (id x : TaskId) (xs : List TaskId) → in_list id (xs ++ x ∷ []) ≡ (in_list id xs || x == id)
in_list-snoc id x [] = ground arith
in_list-snoc id x (y ∷ xs) = ground (arith, in_list-snoc id x xs)

module _ {F : Type 0} where
  pub present-insert :
      (id j : TaskId) (f : F) (m : List (TaskId × F))
      → is_some (find j (insert id f m)) ≡ (id == j || is_some (find j m))
  unfolding find insert
  present-insert id j f [] = ground arith
  present-insert id j f ((key, g) ∷ m) = ground (arith, present-insert id j f m)

  present-remove :
      (id j : TaskId) (m : List (TaskId × F))
      → is_some (find j (remove id m)) ≡ true
      → is_some (find j m) ≡ true
  unfolding find remove
  present-remove id j [] h = h
  present-remove id j ((key, g) ∷ m) h = elim (Bool-cases (key == j)) [
    | inl e ↦ rw e refl
    | inr e ↦ elim (Bool-cases (key == id)) [
      | inl d ↦ rw e (rw d at h)
      | inr d ↦ rw e (present-remove id j m (rw (d, e) at h))
    ]
  ]

  pub present-keys : (j : TaskId) (m : List (TaskId × F)) → in_list j (keys m) ≡ is_some (find j m)
  unfolding find keys
  present-keys j [] = refl
  present-keys j ((key, g) ∷ m) = ground (arith, present-keys j m)

module _ {F W : Type 0} (poll : W → TaskId → F → Polled F W) where
  -- Every task that was woken after its last poll will be polled: it is in the queue, or among those
  -- that are `due`, or the next run polls all tasks.
  pub record Kept (due : List TaskId) (s : Executor F W) : Type 0 where
    pub queue : List TaskId
    pub ready : Represents s.ready queue
    pub size : s.ready.capacity ≡ ready_queue_capacity
    pub pending :
        (id : TaskId)
        → owed id s.history ≡ true
        → is_some (find id s.tasks) ≡ true
        → (s.overflowed || in_list id queue || in_list id due) ≡ true

  pub wake_task-Kept :
      (due : List TaskId) (s : Executor F W) (id : TaskId)
      → Kept due s
      → Kept due (wake_task poll s id)
  unfolding wake_task
  wake_task-Kept due s id kept = elim (ℕ_discrete (length kept.queue) s.ready.capacity) [
    | yes full ↦
        let e = push_when_full s.ready kept.queue id kept.ready full in
        rw e (record {
          queue = kept.queue;
          ready = kept.ready;
          size = kept.size;
          pending = λ j o p. refl;
        })
    | no room ↦
        let (done, rep, size) = push_with_room s.ready kept.queue id kept.ready room in
        record {
          queue = kept.queue ++ id ∷ [];
          ready = rep;
          size = size ∙ kept.size;
          pending = λ j o p. pushed j done (kept.pending j) o p;
        }
  ]
    where
      pushed :
          (j : TaskId)
          → (Ring.push s.ready id).0 ≡ true
          → (owed j s.history ≡ true
              → is_some (find j s.tasks) ≡ true
              → (s.overflowed || in_list j kept.queue || in_list j due) ≡ true)
          → (id == j || owed j s.history) ≡ true
          → is_some (find j s.tasks) ≡ true
          → (not (Ring.push s.ready id).0
              || s.overflowed
              || in_list j (kept.queue ++ id ∷ [])
              || in_list j due)
            ≡ true
      pushed j done before o p = ground (arith, in_list-snoc j id kept.queue, before, done, o, p)

  wake_all-Kept :
      (due ids : List TaskId) (s : Executor F W) → Kept due s → Kept due (wake_all poll ids s)
  unfolding wake_all
  wake_all-Kept due [] s kept = kept
  wake_all-Kept due (id ∷ ids) s kept =
      wake_all-Kept due ids (wake_task poll s id) (wake_task-Kept due s id kept)

  tasks-wake_all : (ids : List TaskId) (s : Executor F W) → (wake_all poll ids s).tasks ≡ s.tasks
  unfolding wake_all wake_task
  tasks-wake_all [] s = refl
  tasks-wake_all (id ∷ ids) s = tasks-wake_all ids (wake_task poll s id)

  settle-Kept :
      (due : List TaskId) (id : TaskId) (r : Option F) (s : Executor F W)
      → is_some (find id s.tasks) ≡ true
      → Kept due s
      → Kept due (settle poll id r s)
  settle-Kept due id none s there kept = record {
    queue = kept.queue;
    ready = kept.ready;
    size = kept.size;
    pending = λ j o p. kept.pending j o (present-remove id j s.tasks p);
  }
  settle-Kept due id (some f) s there kept = record {
    queue = kept.queue;
    ready = kept.ready;
    size = kept.size;
    pending = λ j o p. kept.pending j o (still j (sym (present-insert id j f s.tasks) ∙ p));
  }
    where
      still :
          (j : TaskId)
          → (id == j || is_some (find j s.tasks)) ≡ true
          → is_some (find j s.tasks) ≡ true
      still j h = elim (Bool-cases (id == j)) [
        | inl e ↦ subst (λ i. is_some (find i s.tasks) ≡ true) ((==_iff id j).0 e) there
        | inr e ↦ rw e at h
      ]

  poll_future-Kept :
      (due : List TaskId) (s : Executor F W) (id : TaskId) (f : Option F)
      → find id s.tasks ≡ f
      → Kept (id ∷ due) s
      → Kept due (poll_future poll s id f)
  poll_future-Kept due s id none e kept = record {
    queue = kept.queue;
    ready = kept.ready;
    size = kept.size;
    pending = λ j o p. absent j (kept.pending j o p) p;
  }
    where
      absent :
          (j : TaskId)
          → (s.overflowed || in_list j kept.queue || (id == j || in_list j due)) ≡ true
          → is_some (find j s.tasks) ≡ true
          → (s.overflowed || in_list j kept.queue || in_list j due) ≡ true
      absent j h p = elim (Bool-cases (id == j)) [
        | inl same ↦
            let bad : is_some (find id s.tasks) ≡ true =
              subst (λ i. is_some (find i s.tasks) ≡ true) (sym ((==_iff id j).0 same)) p in
            let worse : false ≡ true = rw e at bad in cc worse
        | inr other ↦ ground (arith, other, h)
      ]
  poll_future-Kept due s id (some f) e kept =
      let p = poll s.world id f in
      let start : Executor F W = record s {
        wakers = insert id tt s.wakers;
        history = polled id ∷ s.history;
        world = p.world;
      } in
      let begun : Kept due start = record {
        queue = kept.queue;
        ready = kept.ready;
        size = kept.size;
        pending = λ j o there. ground (arith, kept.pending j, o, there);
      } in
      let there : is_some (find id (wake_all poll p.wakes start).tasks) ≡ true =
        rw (tasks-wake_all p.wakes start, e) refl in
      settle-Kept due id p.future (wake_all poll p.wakes start) there
        (wake_all-Kept due p.wakes start begun)

  pub poll_each-Kept :
      (ids : List TaskId) (s : Executor F W) → Kept ids s → Kept [] (poll_each poll ids s)
  unfolding poll_each poll_task
  poll_each-Kept [] s kept = kept
  poll_each-Kept (id ∷ ids) s kept =
      poll_each-Kept ids (poll_task poll s id)
        (poll_future-Kept ids s id (find id s.tasks) refl kept)

  -- What one run leaves behind: no wake is lost, and unless a wake found the queue full, there is no
  -- task that still waits for a poll.
  pub record Ran (t : Executor F W) : Type 0 where
    pub kept : Kept [] t
    pub settled :
        (id : TaskId)
        → t.overflowed ≡ false
        → is_some (find id t.tasks) ≡ true
        → owed id t.history ≡ false

  pub drain-Ran :
      (fuel : ℕ) (s t : Executor F W) (queue : List TaskId)
      → Represents s.ready queue
      → s.ready.capacity ≡ ready_queue_capacity
      → ((id : TaskId)
          → owed id s.history ≡ true
          → is_some (find id s.tasks) ≡ true
          → (s.overflowed || in_list id queue || false) ≡ true)
      → drain poll fuel s ≡ some t
      → Ran t
  unfolding drain poll_task Fifo.pop
  drain-Ran zero s t queue rep size pending e = cc
  drain-Ran (suc fuel) s t [] rep size pending e =
      let (front, rep', size') = pop_refines s.ready [] rep in
      let popped : Executor F W = record s { ready = (Ring.pop s.ready).1 } in
      let same : popped ≡ t = (let h : some popped ≡ some t = rw (drain, front) at e in cc h) in
      subst Ran same (record {
        kept = record { queue = []; ready = rep'; size = size' ∙ size; pending = pending };
        settled = λ id calm there. elim (Bool-cases (owed id s.history)) [
          | inl o ↦ let bad = pending id o there in ground (arith, bad, calm)
          | inr o ↦ o
        ];
      })
  drain-Ran (suc fuel) s t (id ∷ queue) rep size pending e =
      let (front, rep', size', _) = pop_front s.ready id queue rep in
      let popped : Executor F W = record s { ready = (Ring.pop s.ready).1 } in
      let due : Kept (id ∷ []) popped = record {
        queue = queue;
        ready = rep';
        size = size' ∙ size;
        pending = λ j o p. ground (arith, pending j o p);
      } in
      let after = poll_future-Kept [] popped id (find id s.tasks) refl due in
      drain-Ran fuel (poll_task poll popped id) t after.queue after.ready after.size after.pending
        (rw (drain, front) at e)
