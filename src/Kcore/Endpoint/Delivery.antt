-- ===== src/Kcore/Endpoint/Delivery.antt =====
-- Any history of sends and receives on one slot: every message that a send was told is accepted is
-- received exactly once, in the order of the sends, or is still waiting.
use tarn_os.Prelude.{
  ℕ, ◌^◌, ◌≤◌, ◌<◌, ◌≡◌, refl, sym, ap, ◌∙◌, List, [], ◌∷◌, ◌++◌, map, Option, none, some,
  append-nil, append_assoc, length, ◌==◌, Bool-cases, inl, inr,
}
use mathlib.Core.List.{map-append}
use tarn_os.Kcore.Endpoint.{Waiter, SendOutcome, RecvOutcome, Slot, new, try_send, try_recv}
use tarn_os.Kcore.Endpoint.Rendezvous.{Rendezvous, senders, receiver, send, recv}
use tarn_os.Kcore.Endpoint.Refine.{Stands, try_send_refines, try_recv_refines, new-Stands}

pub data Event (W P M : Type 0) : Type 0 where
  sends : M → Waiter W P → Event W P M
  receives : Waiter W P → Event W P M

module _ {W P M : Type 0} where
  -- The message of a send that did not fail.
  abbrev pub accepted : M → SendOutcome W P → List M
  accepted m (SendOutcome.delivered w) = m ∷ []
  accepted m SendOutcome.enqueued = m ∷ []
  accepted m SendOutcome.queue_full = []

  abbrev pub received : RecvOutcome W P M → List M
  received (RecvOutcome.delivered m w) = m ∷ []
  received RecvOutcome.enqueued = []
  received RecvOutcome.queue_full = []

  -- Messages accepted and messages received, each in order, with the slot at the end; `none` if a
  -- call panics.
  unfoldable pub run : ℕ → Slot W P M → List (Event W P M) → Option (List M × List M × Slot W P M)
  run n s [] = some ([], [], s)
  run n s (sends m w ∷ events) =
      let (out, s') = try_send n s m w in
      elim (run n s' events) [
        | none ↦ none
        | some (sent, got, t) ↦ some (accepted m out ++ sent, got, t)
      ]
  run n s (receives w ∷ events) = elim (try_recv s w) [
    | none ↦ none
    | some (out, s') ↦ elim (run n s' events) [
      | none ↦ none
      | some (sent, got, t) ↦ some (sent, received out ++ got, t)
    ]
  ]

  abbrev pub pending : Rendezvous W P M → List M
  pending (senders queue) = map (λ e. e.0) queue
  pending (receiver w) = []

  pending-send :
      (n : ℕ) (r : Rendezvous W P M) (m : M) (w : Waiter W P)
      → pending r ++ accepted m (send n r m w).0 ≡ pending (send n r m w).1
  unfolding send
  pending-send n (receiver v) m w = refl
  pending-send n (senders queue) m w = elim (Bool-cases (length queue == n)) [
    | inl full ↦ rw full (append-nil _)
    | inr room ↦ rw room (sym (map-append (λ (e : M × Waiter W P). e.0) queue ((m, w) ∷ [])))
  ]

  pending-recv :
      (r : Rendezvous W P M) (w : Waiter W P)
      → pending r ≡ received (recv r w).0 ++ pending (recv r w).1
  unfolding recv
  pending-recv (receiver v) w = refl
  pending-recv (senders []) w = refl
  pending-recv (senders (e ∷ queue)) w = refl

-- How a history ends that starts from a slot which stands for `r`.
pub record Conserved {W P M : Type 0} (n : ℕ) (r : Rendezvous W P M)
    (result : Option (List M × List M × Slot W P M)) : Type 0 where
  pub sent : List M
  pub got : List M
  pub slot : Slot W P M
  pub end_state : Rendezvous W P M
  pub returns : result ≡ some (sent, got, slot)
  pub stands : Stands n slot end_state
  pub balance : pending r ++ sent ≡ got ++ pending end_state

module _ {W P M : Type 0} (n : ℕ) (positive : 0 < n) (small : n ≤ 2 ^ 63) where
  run-Conserved :
      (events : List (Event W P M)) (s : Slot W P M) (r : Rendezvous W P M)
      → Stands n s r
      → Conserved n r (run n s events)
  unfolding run
  run-Conserved [] s r st = record {
    sent = [];
    got = [];
    slot = s;
    end_state = r;
    returns = refl;
    stands = st;
    balance = append-nil (pending r);
  }
  run-Conserved (sends m w ∷ events) s r st =
      let (out, next) = try_send_refines n positive small s r m w st in
      let c = run-Conserved events (try_send n s m w).1 (send n r m w).1 next in
      let taken = accepted m (try_send n s m w).0 in
      record {
        sent = taken ++ c.sent;
        got = c.got;
        slot = c.slot;
        end_state = c.end_state;
        returns = rw (c.returns, run);
        stands = c.stands;
        balance =
            sym (append_assoc (pending r) taken c.sent)
            ∙ ap (λ l. l ++ c.sent) (ap (λ o. pending r ++ accepted m o) out ∙ pending-send n r m w)
            ∙ c.balance;
      }
  run-Conserved (receives w ∷ events) s r st =
      let (t, e, next) = try_recv_refines n positive small s r w st in
      let c = run-Conserved events t (recv r w).1 next in
      let given = received (recv r w).0 in
      record {
        sent = c.sent;
        got = given ++ c.got;
        slot = c.slot;
        end_state = c.end_state;
        returns = rw (e, run, c.returns);
        stands = c.stands;
        balance =
            ap (λ l. l ++ c.sent) (pending-recv r w)
            ∙ append_assoc given (pending (recv r w).1) c.sent
            ∙ ap (◌++◌ given) c.balance
            ∙ sym (append_assoc given c.got (pending c.end_state));
      }

  -- From a new endpoint of a capacity from 1 to 2^63, in any history of sends and receives: no call
  -- panics, and the accepted messages, in the order of their sends, are the received messages, in
  -- the order of the receives, followed by the messages that still wait.
  pub new-Conserved : (events : List (Event W P M)) → Conserved n (senders []) (run n new events)
  new-Conserved events = run-Conserved events new (senders []) (new-Stands n positive small)
