-- ===== src/Task/Scheduler/Queue.antt =====
-- kernel/src/task/scheduler.rs: `remove_from_ready_queue` leaves the rest of the queue as it is.
use tarn_os.Prelude.{
  ℕ, suc, zero, ◌+◌, ◌≤◌, ◌≡◌, refl, subst, ◌∙◌, List, [], ◌∷◌, ◌++◌, append-nil, append_assoc,
  Bool-cases, Option-cases, inl, inr, some, arith, length, length-append, ◌==◌, if◌then◌else◌,
}
use tarn_os.Kcore.Ring
use tarn_os.Kcore.Ring.{RingBuffer}
use tarn_os.Kcore.Ring.Refine.{
  Represents, length-Represents, new-Represents, push_with_room, pop_front,
}
use tarn_os.Task.Pid.{Pid}
use tarn_os.Task.Scheduler.{Scheduler, max_processes}
use tarn_os.Task.Scheduler.Termination.{drain, remove_from_ready_queue}

-- The entries of a queue that are not `target`, in order.
unfoldable pub without : Pid → List Pid → List Pid
without target [] = []
without target (p ∷ ps) = let rest = without target ps in if p == target then rest else p ∷ rest

abbrev keep : RingBuffer Pid → Pid → Pid → RingBuffer Pid
keep kept p target = if p == target then kept else (Ring.push kept p).1

drain-some :
    (rounds : ℕ) (queue : RingBuffer Pid) (target : Pid) (kept : RingBuffer Pid) (p : Pid)
    → (Ring.pop queue).0 ≡ some p
    → drain (suc rounds) queue target kept
      ≡ drain rounds (Ring.pop queue).1 target (keep kept p target)
unfolding drain
drain-some rounds queue target kept p e = rw (e, drain) refl

drain-Represents :
    (xs : List Pid) (queue : RingBuffer Pid) (target : Pid) (kept : RingBuffer Pid) (ks : List Pid)
    → Represents queue xs
    → Represents kept ks
    → kept.capacity ≡ max_processes
    → length ks + length xs ≤ max_processes
    → Represents (drain (length xs) queue target kept) (ks ++ without target xs)
unfolding drain without
drain-Represents [] queue target kept ks from into cap room = rw (append-nil ks) into
drain-Represents (p ∷ xs) queue target kept ks from into cap room =
    let (front, rest, _, _) = pop_front queue p xs from in
    rw (drain-some (length xs) queue target kept p front) (elim (Bool-cases (p == target)) [
      | inl hit ↦
          rw hit (drain-Represents xs (Ring.pop queue).1 target kept ks rest into cap (omega arith))
      | inr miss ↦
          let (_, more, cap') = push_with_room kept ks p into (λ e. omega arith) in
          rw miss (
            subst (Represents (drain (length xs) (Ring.pop queue).1 target (Ring.push kept p).1))
              (append_assoc ks (p ∷ []) (without target xs))
              (drain-Represents xs (Ring.pop queue).1 target (Ring.push kept p).1 (ks ++ p ∷ [])
                rest more (cap' ∙ cap) (omega (arith, length-append ks (p ∷ [])))))
    ])

push-capacity : (r : RingBuffer Pid) (p : Pid) → (Ring.push r p).1.capacity ≡ r.capacity
unfolding Ring.push
push-capacity r p = elim (Bool-cases (r.len == r.capacity)) [
  | inl e ↦ rw e refl
  | inr e ↦ rw e refl
]

drain-capacity :
    (rounds : ℕ) (queue : RingBuffer Pid) (target : Pid) (kept : RingBuffer Pid)
    → (drain rounds queue target kept).capacity ≡ kept.capacity
unfolding drain
drain-capacity zero queue target kept = refl
drain-capacity (suc rounds) queue target kept = elim (Option-cases (Ring.pop queue).0) [
  | inl e ↦ rw (e, drain) refl
  | inr (p, e) ↦ rw (drain-some rounds queue target kept p e) (
      drain-capacity rounds (Ring.pop queue).1 target (keep kept p target)
      ∙ elim (Bool-cases (p == target)) [
        | inl hit ↦ rw hit refl
        | inr miss ↦ rw miss (push-capacity kept p)
      ])
]

pub remove_from_ready_queue-capacity :
    (s : Scheduler) (target : Pid)
    → (remove_from_ready_queue s target).ready_queue.capacity ≡ max_processes
unfolding remove_from_ready_queue Ring.new
remove_from_ready_queue-capacity s target =
    drain-capacity s.ready_queue.len s.ready_queue target (Ring.new max_processes)

-- Of a valid ready queue, `remove_from_ready_queue` keeps exactly the entries other than `target`,
-- in their order: every copy of `target` goes, none of the others is lost to a full queue.
pub remove_from_ready_queue-Represents :
    (s : Scheduler) (xs : List Pid) (target : Pid)
    → Represents s.ready_queue xs
    → s.ready_queue.capacity ≡ max_processes
    → Represents (remove_from_ready_queue s target).ready_queue (without target xs)
unfolding remove_from_ready_queue
remove_from_ready_queue-Represents s xs target rep cap =
    subst
      (λ n. Represents (drain n s.ready_queue target (Ring.new max_processes)) (without target xs))
      (length-Represents s.ready_queue xs rep)
      (drain-Represents xs s.ready_queue target (Ring.new max_processes) [] rep
        (new-Represents max_processes (omega arith) (omega arith)) (unfold Ring.new in refl)
        (omega (arith, length-Represents s.ready_queue xs rep, rep.valid)))
