-- ===== src/Kcore/Endpoint.antt =====
-- libs/tarnos-kcore/src/endpoint.rs: the rendezvous state machine behind an IPC endpoint. A method
-- that takes `&mut self` returns the new slot after its outcome. `W` is a task's `Waker`.
pub mod Rendezvous
pub mod Refine
pub mod Delivery
use tarn_os.Prelude.{ℕ, Bool, true, false, Option, none, some, if◌then◌else◌}
use tarn_os.Kcore.Ring
use tarn_os.Kcore.Ring.{RingBuffer}

pub data Waiter (W P : Type 0) : Type 0 where
  task : W → Waiter W P
  process : P → Waiter W P
  nobody : Waiter W P

pub data SendOutcome (W P : Type 0) : Type 0 where
  delivered : Waiter W P → SendOutcome W P
  enqueued queue_full : SendOutcome W P

pub data RecvOutcome (W P M : Type 0) : Type 0 where
  delivered : M → Waiter W P → RecvOutcome W P M
  enqueued queue_full : RecvOutcome W P M

pub data Slot (W P M : Type 0) : Type 0 where
  empty : Slot W P M
  senders_waiting : RingBuffer (M × Waiter W P) → Slot W P M
  receiver_waiting : Waiter W P → Slot W P M

module _ {W P M : Type 0} where
  unfoldable pub new : Slot W P M
  new = empty

  -- A queue of capacity `n` that holds one sender.
  unfoldable pub one_sender : ℕ → M → Waiter W P → Slot W P M
  one_sender n message sender = senders_waiting (Ring.push (Ring.new n) (message, sender)).1

  -- `n` is the const parameter `N`, the capacity of the sender queue.
  unfoldable pub try_send : ℕ → Slot W P M → M → Waiter W P → SendOutcome W P × Slot W P M
  unfolding one_sender
  try_send n (receiver_waiting receiver) message sender =
      (SendOutcome.delivered receiver, one_sender n message nobody)
  try_send n empty message sender = (SendOutcome.enqueued, one_sender n message sender)
  try_send n (senders_waiting queue) message sender =
      let (pushed, queue') = Ring.push queue (message, sender) in
      (if pushed then SendOutcome.enqueued else SendOutcome.queue_full, senders_waiting queue')

  -- `none` is the panic of `expect` on a `SendersWaiting` that holds nobody.
  unfoldable pub try_recv : Slot W P M → Waiter W P → Option (RecvOutcome W P M × Slot W P M)
  try_recv (senders_waiting queue) receiver =
      let (front, rest) = Ring.pop queue in
      elim front [
        | none ↦ none
        | some (message, sender) ↦ some (
          RecvOutcome.delivered message sender,
          if Ring.is_empty rest then empty else senders_waiting rest,
        )
      ]
  try_recv empty receiver = some (RecvOutcome.enqueued, receiver_waiting receiver)
  try_recv (receiver_waiting waiting) receiver =
      some (RecvOutcome.queue_full, receiver_waiting waiting)
