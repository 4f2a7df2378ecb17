-- ===== src/Kcore/Endpoint/Rendezvous.antt =====
-- What an endpoint promises: a first-in first-out queue of senders, or one waiting receiver.
use tarn_os.Prelude.{ℕ, List, [], ◌∷◌, ◌++◌, length, ◌==◌, if◌then◌else◌}
use tarn_os.Kcore.Endpoint.{Waiter, nobody, SendOutcome, RecvOutcome}

-- `senders` holds at least one sender where the endpoint is not idle.
pub data Rendezvous (W P M : Type 0) : Type 0 where
  senders : List (M × Waiter W P) → Rendezvous W P M
  receiver : Waiter W P → Rendezvous W P M

module _ {W P M : Type 0} where
  unfoldable pub send : ℕ → Rendezvous W P M → M → Waiter W P → SendOutcome W P × Rendezvous W P M
  send n (receiver waiting) message sender =
      (SendOutcome.delivered waiting, senders ((message, nobody) ∷ []))
  send n (senders queue) message sender =
      if length queue == n
      then (SendOutcome.queue_full, senders queue)
      else (SendOutcome.enqueued, senders (queue ++ (message, sender) ∷ []))

  unfoldable pub recv : Rendezvous W P M → Waiter W P → RecvOutcome W P M × Rendezvous W P M
  recv (senders []) waiter = (RecvOutcome.enqueued, receiver waiter)
  recv (senders ((message, sender) ∷ queue)) waiter =
      (RecvOutcome.delivered message sender, senders queue)
  recv (receiver waiting) waiter = (RecvOutcome.queue_full, receiver waiting)
