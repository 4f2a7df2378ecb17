-- ===== src/Ipc/Endpoint/Hand.antt =====
-- kernel/src/ipc/endpoint.rs: what a send and a receive do to each other.
use tarn_os.Prelude.{ℕ, ◌≡◌, refl, sym, Option, some, arith, subst}
use tarn_os.Abi.Message.{Message}
use tarn_os.Kcore.Ring
use tarn_os.Kcore.Endpoint
use tarn_os.Kcore.Endpoint.{
  Waiter, task, process, nobody, SendOutcome, RecvOutcome, Slot, receiver_waiting, one_sender,
}
use tarn_os.Kcore.Endpoint.Rendezvous.{Rendezvous, send, recv}
use tarn_os.Kcore.Endpoint.Refine.{Stands, try_send_refines, try_recv_refines}
use tarn_os.Task.Pid.{Pid}
use tarn_os.Task.Process.{send_completed}
use tarn_os.Task.Scheduler.{max_processes}
use tarn_os.Ipc.Endpoint.{
  System, SendResult, RecvResult, wake_process, wake_task, wake_receiver, wake_sender, receipt,
  try_send, try_recv, after_recv, after_send, hand_over, answered, EndpointSlot,
}

-- A slot where one sender waits gives its message and is empty again.
pub one_sender-try_recv :
    (message : Message) (sender other : Waiter ℕ Pid)
    → Endpoint.try_recv (one_sender max_processes message sender) other
      ≡ some (RecvOutcome.delivered message sender, Slot.empty)
unfolding Endpoint.try_recv one_sender Ring.new Ring.push Ring.pop Ring.is_empty
one_sender-try_recv message sender other = refl

-- The sender first: the send waits, a receive then gets its message and wakes the sender, and the
-- slot is empty again.
pub send_first :
    (s : System) (message : Message) (sender target : Pid)
    → s.slot ≡ Slot.empty
    → (t : System) × (try_send s message sender ≡ some (SendResult.blocked, t))
      × (try_recv t target
          ≡ some (RecvResult.delivered message, wake_process s sender send_completed))
unfolding try_send try_recv wake_sender Endpoint.try_send
send_first s message sender target e = (
  record s { slot = one_sender max_processes message (process sender) },
  rw e refl,
  rw (one_sender-try_recv message (process sender) (process target), ← e) refl,
)

-- The receiver first: the receive waits, a send then completes at once, the waiting process is woken
-- with the tag and the first three words of the message in its registers, and the slot is empty
-- again.
pub recv_first :
    (s : System) (message : Message) (sender target : Pid)
    → s.slot ≡ Slot.empty
    → (t : System) × (try_recv s target ≡ some (RecvResult.blocked, t))
      × (try_send t message sender
          ≡ some (SendResult.delivered, wake_process s target (receipt message)))
unfolding try_send try_recv wake_sender wake_receiver Endpoint.try_send Endpoint.try_recv
recv_first s message sender target e = (
  record s { slot = receiver_waiting (process target) },
  rw e refl,
  rw (one_sender-try_recv message nobody (process target), ← e) refl,
)

-- An answer that is no panic, with a slot that stands for some rendezvous.
abbrev pub Answers : {R : Type 0} → Option (R × System) → Type 0
Answers {R} answer =
    (result : R) × (t : System) × (r : Rendezvous ℕ Pid Message) × (answer ≡ some (result, t))
    × Stands max_processes t.slot r

slot-wake_sender : (s : System) (w : Waiter ℕ Pid) → (wake_sender s w).slot ≡ s.slot
unfolding wake_sender
slot-wake_sender s (task waker) = refl
slot-wake_sender s (process pid) = refl
slot-wake_sender s nobody = refl

after_recv-Answers :
    (s : System) (out : RecvOutcome ℕ Pid Message) (slot : EndpointSlot)
    (r : Rendezvous ℕ Pid Message)
    → Stands max_processes slot r
    → Answers (after_recv s (some (out, slot)))
after_recv-Answers s (RecvOutcome.delivered message sender) slot r st =
    let t = wake_sender (record s { slot = slot }) sender in
    let same : slot ≡ t.slot = sym (slot-wake_sender (record s { slot = slot }) sender) in
    (RecvResult.delivered message, t, r, refl, subst (λ x. Stands max_processes x r) same st)
after_recv-Answers s RecvOutcome.enqueued slot r st =
    (RecvResult.blocked, record s { slot = slot }, r, refl, st)
after_recv-Answers s RecvOutcome.queue_full slot r st =
    (RecvResult.queue_full, record s { slot = slot }, r, refl, st)

-- A receive on a slot that stands for a rendezvous does not panic, and leaves one that does.
pub try_recv-Answers :
    (s : System) (pid : Pid) (r : Rendezvous ℕ Pid Message)
    → Stands max_processes s.slot r
    → Answers (try_recv s pid)
unfolding try_recv
try_recv-Answers s pid r st =
    let (slot, e, next) =
      try_recv_refines max_processes (omega arith) (omega arith) s.slot r (process pid) st in
    rw e (after_recv-Answers s (recv r (process pid)).0 slot (recv r (process pid)).1 next)

hand_over-Answers :
    (pid : Pid) (result : SendResult) (answer : Option (RecvResult × System))
    → Answers answer
    → Answers (answered result (hand_over pid answer))
hand_over-Answers pid result answer (RecvResult.delivered message, t, r, e, st) =
    rw e (result, wake_process t pid (receipt message), r, refl, st)
hand_over-Answers pid result answer (RecvResult.blocked, t, r, e, st) =
    rw e (result, t, r, refl, st)
hand_over-Answers pid result answer (RecvResult.queue_full, t, r, e, st) =
    rw e (result, t, r, refl, st)

after_send-Answers :
    (s : System) (out : SendOutcome ℕ Pid) (slot : EndpointSlot) (r : Rendezvous ℕ Pid Message)
    → Stands max_processes slot r
    → Answers (after_send s (out, slot))
unfolding wake_receiver
after_send-Answers s (SendOutcome.delivered (task waker)) slot r st =
    (SendResult.delivered, wake_task (record s { slot = slot }) waker, r, refl, st)
after_send-Answers s (SendOutcome.delivered (process pid)) slot r st =
    hand_over-Answers pid SendResult.delivered (try_recv (record s { slot = slot }) pid)
      (try_recv-Answers (record s { slot = slot }) pid r st)
after_send-Answers s (SendOutcome.delivered nobody) slot r st =
    (SendResult.delivered, record s { slot = slot }, r, refl, st)
after_send-Answers s SendOutcome.enqueued slot r st =
    (SendResult.blocked, record s { slot = slot }, r, refl, st)
after_send-Answers s SendOutcome.queue_full slot r st =
    (SendResult.queue_full, record s { slot = slot }, r, refl, st)

-- A send on a slot that stands for a rendezvous does not panic, also where it hands its message to
-- a waiting process at once, and leaves a slot that stands for a rendezvous.
pub try_send-Answers :
    (s : System) (message : Message) (sender : Pid) (r : Rendezvous ℕ Pid Message)
    → Stands max_processes s.slot r
    → Answers (try_send s message sender)
unfolding try_send
try_send-Answers s message sender r st =
    let (_, next) =
      try_send_refines max_processes (omega arith) (omega arith) s.slot r message (process sender)
        st in
    after_send-Answers s (Endpoint.try_send max_processes s.slot message (process sender)).0
      (Endpoint.try_send max_processes s.slot message (process sender)).1
      (send max_processes r message (process sender)).1 next
