-- ===== src/Kcore/Endpoint/Refine.antt =====
-- A `Slot` behaves as a rendezvous, and `try_recv` never panics.
use tarn_os.Prelude.{
  ℕ, ◌^◌, ◌≤◌, ◌<◌, ◌≡◌, refl, sym, subst, ◌∙◌, List, [], ◌∷◌, ◌++◌, some, arith, length, ==_iff,
  ==_ne, ℕ_discrete,
}
use tarn_os.Kcore.Ring
use tarn_os.Kcore.Ring.{RingBuffer}
use tarn_os.Kcore.Ring.Fifo
use tarn_os.Kcore.Ring.Refine.{
  Represents, new-Represents, push_refines, push_with_room, push_when_full, pop_front,
}
use tarn_os.Kcore.Endpoint.{
  Waiter, nobody, Slot, empty, senders_waiting, receiver_waiting, new, one_sender, try_send,
  try_recv,
}
use tarn_os.Kcore.Endpoint.Rendezvous.{Rendezvous, senders, receiver, send, recv}

module _ {W P M : Type 0} (n : ℕ) where
  -- A slot and the rendezvous that it stands for. `SendersWaiting` is never left empty.
  pub data Stands : Slot W P M → Rendezvous W P M → Type 0 where
    idle : Stands empty (senders [])
    waiting : (w : Waiter W P) → Stands (receiver_waiting w) (receiver w)
    queued :
        (q : RingBuffer (M × Waiter W P)) (first : M × Waiter W P) (rest : List (M × Waiter W P))
        → q.capacity ≡ n
        → Represents q (first ∷ rest)
        → Stands (senders_waiting q) (senders (first ∷ rest))

  module _ (positive : 0 < n) (small : n ≤ 2 ^ 63) where
    one_sender-Stands : (m : M) (w : Waiter W P) → Stands (one_sender n m w) (senders ((m, w) ∷ []))
    unfolding one_sender
    one_sender-Stands m w =
        let (answer, rep, size) =
          push_refines (Ring.new n) [] (m, w) (new-Represents n positive small) in
        queued (Ring.push (Ring.new n) (m, w)).1 (m, w) [] (size ∙ new_capacity)
          (subst (Represents (Ring.push (Ring.new n) (m, w)).1) alone rep)
      where
        new_capacity : (Ring.new {T = M × Waiter W P} n).capacity ≡ n
        new_capacity = unfold Ring.new in refl

        alone :
            (Fifo.push {T = M × Waiter W P} (Ring.new {T = M × Waiter W P} n).capacity [] (m, w)).1
            ≡ (m, w) ∷ []
        alone = unfold Ring.new Fifo.push in rw (==_ne 0 n (omega arith))

    -- `try_send` has the outcome that the rendezvous has, and leaves the slot standing for what
    -- the rendezvous becomes.
    pub try_send_refines :
        (s : Slot W P M) (r : Rendezvous W P M) (m : M) (w : Waiter W P)
        → Stands s r
        → ((try_send n s m w).0 ≡ (send n r m w).0) × Stands (try_send n s m w).1 (send n r m w).1
    unfolding send try_send
    try_send_refines _ _ m w idle = rw (==_ne 0 n (omega arith)) (refl, one_sender-Stands m w)
    try_send_refines _ _ m w (waiting _) = (refl, one_sender-Stands m nobody)
    try_send_refines _ _ m w (queued q first rest size rep) =
        elim (ℕ_discrete (length (first ∷ rest)) n) [
          | yes full ↦
              let e = push_when_full q (first ∷ rest) (m, w) rep (full ∙ sym size) in
              rw ((==_iff (length (first ∷ rest)) n).1 full, e) (refl, queued q first rest size rep)
          | no room ↦
              let (answer, after, same) =
                push_with_room q (first ∷ rest) (m, w) rep (λ e. room (e ∙ size)) in
              rw (==_ne (length (first ∷ rest)) n room, answer)
                (
                  refl,
                  queued (Ring.push q (m, w)).1 first (rest ++ (m, w) ∷ []) (same ∙ size) after,
                )
        ]

    -- `try_recv` never panics, has the outcome that the rendezvous has, and leaves the slot
    -- standing for what the rendezvous becomes.
    pub try_recv_refines :
        (s : Slot W P M) (r : Rendezvous W P M) (w : Waiter W P)
        → Stands s r
        → (t : Slot W P M) × (try_recv s w ≡ some ((recv r w).0, t)) × Stands t (recv r w).1
    unfolding recv try_recv
    try_recv_refines _ _ w idle = (receiver_waiting w, refl, waiting w)
    try_recv_refines _ _ w (waiting v) = (receiver_waiting v, refl, waiting v)
    try_recv_refines _ _ w (queued q first [] size rep) =
        let (answer, rest, same, none_left) = pop_front q first [] rep in
        (empty, rw (answer, try_recv, none_left), idle)
    try_recv_refines _ _ w (queued q first (next ∷ more) size rep) =
        let (answer, rest, same, some_left) = pop_front q first (next ∷ more) rep in
        (
          senders_waiting (Ring.pop q).1,
          rw (answer, try_recv, some_left, ==_ne (length (next ∷ more)) 0 (omega arith)),
          queued (Ring.pop q).1 next more (same ∙ size) rest,
        )

    pub new-Stands : Stands new (senders [])
    unfolding new
    new-Stands = idle
