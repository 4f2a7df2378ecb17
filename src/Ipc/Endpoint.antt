-- ===== src/Ipc/Endpoint.antt =====
-- kernel/src/ipc/endpoint.rs: the rendezvous of the slot, followed by the wake of whoever waited.
-- The lock of the slot and that of the scheduler make each call of either one step. `MessagePayload`
-- of ipc/message.rs has one case, a `Message` inline.
pub mod Hand
use tarn_os.Prelude.{ℕ, Bool, true, false, List, [], ◌∷◌, ◌++◌, Option, none, some, get_or}
use tarn_os.Abi.Message.{Message}
use tarn_os.Kcore.Endpoint
use tarn_os.Kcore.Endpoint.{
  Waiter, task, process, nobody, SendOutcome, RecvOutcome, Slot, receiver_waiting,
}
use tarn_os.Task.Pid.{Pid}
use tarn_os.Task.Process.{WakeResult, send_completed, recv_completed}
use tarn_os.Task.Scheduler.{Scheduler, max_processes, wake_blocked_process}

-- A waker of a task is a number; `wakes` are those that were called, first call first.
abbrev pub EndpointWaiter : Type 0
EndpointWaiter = Waiter ℕ Pid

abbrev pub EndpointSlot : Type 0
EndpointSlot = Slot ℕ Pid Message

pub record System : Type 0 where
  pub slot : EndpointSlot
  pub scheduler : Scheduler
  pub wakes : List ℕ

pub data SendResult : Type 0 where
  delivered blocked queue_full : SendResult

pub data RecvResult : Type 0 where
  delivered : Message → RecvResult
  blocked queue_full : RecvResult

abbrev pub wake_task : System → ℕ → System
wake_task s waker = record s { wakes = s.wakes ++ waker ∷ [] }

abbrev pub wake_process : System → Pid → WakeResult → System
wake_process s pid result = record s { scheduler = wake_blocked_process s.scheduler pid result }

unfoldable pub wake_sender : System → EndpointWaiter → System
wake_sender s (task waker) = wake_task s waker
wake_sender s (process pid) = wake_process s pid send_completed
wake_sender s nobody = s

-- What a receive does after the slot answered.
abbrev pub after_recv :
    System → Option (RecvOutcome ℕ Pid Message × EndpointSlot) → Option (RecvResult × System)
after_recv s none = none
after_recv s (some (RecvOutcome.delivered message sender, slot)) =
    some (RecvResult.delivered message, wake_sender (record s { slot = slot }) sender)
after_recv s (some (RecvOutcome.enqueued, slot)) =
    some (RecvResult.blocked, record s { slot = slot })
after_recv s (some (RecvOutcome.queue_full, slot)) =
    some (RecvResult.queue_full, record s { slot = slot })

-- `Endpoint::try_recv`; `none` is a panic of the slot.
unfoldable pub try_recv : System → Pid → Option (RecvResult × System)
unfolding wake_sender
try_recv s pid = after_recv s (Endpoint.try_recv s.slot (process pid))

-- What a receiver finds in its registers.
abbrev pub receipt : Message → WakeResult
receipt m = recv_completed m.tag (get_or m.words 0 0) (get_or m.words 1 0) (get_or m.words 2 0)

abbrev pub hand_over : Pid → Option (RecvResult × System) → Option System
hand_over pid none = none
hand_over pid (some (RecvResult.delivered message, s)) = some (wake_process s pid (receipt message))
hand_over pid (some (RecvResult.blocked, s)) = some s
hand_over pid (some (RecvResult.queue_full, s)) = some s

unfoldable pub wake_receiver : System → EndpointWaiter → Option System
unfolding try_recv
wake_receiver s (task waker) = some (wake_task s waker)
wake_receiver s (process pid) = hand_over pid (try_recv s pid)
wake_receiver s nobody = some s

abbrev pub answered : SendResult → Option System → Option (SendResult × System)
answered r none = none
answered r (some s) = some (r, s)

abbrev pub after_send : System → SendOutcome ℕ Pid × EndpointSlot → Option (SendResult × System)
after_send s (SendOutcome.delivered receiver, slot) =
    answered SendResult.delivered (wake_receiver (record s { slot = slot }) receiver)
after_send s (SendOutcome.enqueued, slot) = some (SendResult.blocked, record s { slot = slot })
after_send s (SendOutcome.queue_full, slot) = some (SendResult.queue_full, record s { slot = slot })

-- `Endpoint::try_send`.
unfoldable pub try_send : System → Message → Pid → Option (SendResult × System)
unfolding wake_receiver
try_send s message sender =
    after_send s (Endpoint.try_send max_processes s.slot message (process sender))

abbrev pub taken : System → EndpointSlot → Option Pid × System
taken s (receiver_waiting (process pid)) = (some pid, record s { slot = Slot.empty })
taken s (receiver_waiting (task waker)) = (none, s)
taken s (receiver_waiting nobody) = (none, s)
taken s Slot.empty = (none, s)
taken s (Slot.senders_waiting queue) = (none, s)

unfoldable pub take_waiting_process_receiver : System → Option Pid × System
take_waiting_process_receiver s = taken s s.slot

-- `SendFuture::poll`: the future's message goes in, and what is left of it comes out. The Boolean
-- is true for `Poll::Ready`.
abbrev pub polled_send :
    System
    → ℕ
    → Message
    → SendOutcome ℕ Pid × EndpointSlot
    → Option (Bool × Option Message × System)
polled_send s waker message (SendOutcome.delivered receiver, slot) =
    elim (wake_receiver (record s { slot = slot }) receiver) [
      | none ↦ none
      | some t ↦ some (true, none, t)
    ]
polled_send s waker message (SendOutcome.enqueued, slot) =
    some (false, none, record s { slot = slot })
polled_send s waker message (SendOutcome.queue_full, slot) =
    some (false, some message, wake_task (record s { slot = slot }) waker)

unfoldable pub poll_send : System → ℕ → Option Message → Option (Bool × Option Message × System)
unfolding wake_receiver
poll_send s waker none = some (true, none, s)
poll_send s waker (some message) =
    polled_send s waker message (Endpoint.try_send max_processes s.slot message (task waker))

-- `RecvFuture::poll`: the message for `Poll::Ready`.
abbrev pub polled_recv :
    System
    → ℕ
    → Option (RecvOutcome ℕ Pid Message × EndpointSlot)
    → Option (Option Message × System)
polled_recv s waker none = none
polled_recv s waker (some (RecvOutcome.delivered message sender, slot)) =
    some (some message, wake_sender (record s { slot = slot }) sender)
polled_recv s waker (some (RecvOutcome.enqueued, slot)) = some (none, record s { slot = slot })
polled_recv s waker (some (RecvOutcome.queue_full, slot)) =
    some (none, wake_task (record s { slot = slot }) waker)

unfoldable pub poll_recv : System → ℕ → Option (Option Message × System)
unfolding wake_sender
poll_recv s waker = polled_recv s waker (Endpoint.try_recv s.slot (task waker))
