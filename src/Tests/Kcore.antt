-- ===== src/Tests/Kcore.antt =====
-- libs/tarnos-kcore: small histories of each structure.
use tarn_os.Prelude.{ℕ, ◌+◌, ◌≡◌, refl, true, false, List, [], ◌∷◌, none, some, arith, ltb}
use tarn_os.Prelude.Bits.{trailing_zeros}
use tarn_os.Abi.Errors.{permission_denied, bad_capability}
use tarn_os.Kcore.Ring
use tarn_os.Kcore.Ring.{RingBuffer}
use tarn_os.Kcore.Ring.Fifo
use tarn_os.Kcore.Ring.Fifo.{Op, put, get, pushed, popped}
use tarn_os.Kcore.Ring.Refine
use tarn_os.Kcore.Ring.Refine.{run_refines, new-Represents}
use tarn_os.Kcore.Bitmap
use tarn_os.Kcore.Bitmap.{
  Bitmap, set_free, set_used, is_free, free_count, allocate, capacity, usable_frame_range,
}
use tarn_os.Kcore.Bitmap.Valid.{IsValid, new-IsValid, set_free-IsValid}
use tarn_os.Kcore.Bitmap.Allocate.{Claims, allocate-Claims}
use tarn_os.Kcore.CapTable
use tarn_os.Kcore.CapTable.{CapTable, CapabilitySlot, RightsOps, insert, lookup, iter, ok, err}
use tarn_os.Kcore.Endpoint
use tarn_os.Kcore.Endpoint.{Waiter, process, nobody, Slot, one_sender, try_send, try_recv}
use tarn_os.Kcore.Endpoint.Rendezvous.{senders, send, recv}
use tarn_os.Kcore.Endpoint.Refine.{Stands, try_send_refines, try_recv_refines, new-Stands}
use tarn_os.Kcore.Endpoint.Delivery
use tarn_os.Kcore.Endpoint.Delivery.{Event, sends, receives, Conserved, new-Conserved}

abbrev history : List (Op ℕ)
history = put 5 ∷ put 6 ∷ put 7 ∷ get ∷ put 8 ∷ get ∷ get ∷ get ∷ []

-- A ring of two slots: the third value is refused, and the head goes round.
history-run :
    Refine.run (Ring.new 2) history
    ≡ pushed true
      ∷ pushed true
      ∷ pushed false
      ∷ popped (some 5)
      ∷ pushed true
      ∷ popped (some 6)
      ∷ popped (some 8)
      ∷ popped none
      ∷ []
unfolding Refine.run Ring.new Ring.push Ring.pop
history-run = refl

run_refines_example : Refine.run (Ring.new 2) history ≡ Fifo.run 2 [] history
unfolding Ring.new
run_refines_example =
    run_refines history (Ring.new 2) [] (new-Represents 2 (omega arith) (omega arith))

-- Two words, with 70 and 3 free.
abbrev two_words : Bitmap
two_words = set_free (set_free (Bitmap.new 2) 70) 3

two_words-IsValid : IsValid two_words
two_words-IsValid =
    set_free-IsValid (set_free (Bitmap.new 2) 70) 3
      (set_free-IsValid (Bitmap.new 2) 70 (new-IsValid 2))

two_words-allocate : (allocate two_words).0 ≡ some 3
unfolding allocate set_free Bitmap.new set_used trailing_zeros
two_words-allocate = refl

allocate-Claims_example : Claims two_words (allocate two_words)
allocate-Claims_example = allocate-Claims two_words two_words-IsValid

abbrev any_of : RightsOps
any_of = record { contains = λ held required. ltb required (held + 1) }

abbrev table : CapTable ℕ
table = some (record { object = 9; rights = 1 }) ∷ []

abbrev granted : CapabilitySlot ℕ
granted = record { object = 4; rights = 2 }

-- A slot past the end grows the table; the slots between stay empty.
grown_lookup :
    (lookup any_of (insert table 2 granted) 2 1 ≡ ok granted)
    × (lookup any_of (insert table 2 granted) 2 3 ≡ err permission_denied)
    × (lookup any_of (insert table 2 granted) 1 1 ≡ err bad_capability)
unfolding lookup insert CapTable.get
grown_lookup = (refl, refl, refl)

abbrev events : List (Event ℕ ℕ ℕ)
events =
    receives (process 1)
    ∷ sends 11 (process 2)
    ∷ sends 12 (process 3)
    ∷ sends 13 (process 4)
    ∷ receives (process 1)
    ∷ receives (process 5)
    ∷ []

new-Conserved_example : Conserved 2 (senders []) (Delivery.run 2 Endpoint.new events)
new-Conserved_example = new-Conserved 2 (omega arith) (omega arith) events

abbrev message : ℕ
message = 11

abbrev caller : ℕ → Waiter ℕ ℕ
caller p = process p

-- An endpoint where one process waits to send.
abbrev one_waits : Slot ℕ ℕ ℕ
one_waits = (try_send 2 Endpoint.new 11 (caller 2)).1

one_waits-Stands : Stands 2 one_waits (send 2 (senders []) message (caller 2)).1
one_waits-Stands =
    (try_send_refines 2 (omega arith) (omega arith) Endpoint.new (senders []) message (caller 2)
      (new-Stands 2 (omega arith) (omega arith))).1

try_send_refines_example :
    ((try_send 2 one_waits (message + 1) (caller 3)).0
      ≡ (send 2 (send 2 (senders []) message (caller 2)).1 (message + 1) (caller 3)).0)
    × Stands 2
        (try_send 2 one_waits (message + 1) (caller 3)).1
        (send 2 (send 2 (senders []) message (caller 2)).1 (message + 1) (caller 3)).1
try_send_refines_example =
    try_send_refines 2 (omega arith) (omega arith) one_waits
      (send 2 (senders []) message (caller 2)).1 (message + 1) (caller 3) one_waits-Stands

try_recv_refines_example :
    (t : Slot ℕ ℕ ℕ) × (try_recv one_waits (caller 4)
      ≡ some ((recv (send 2 (senders []) message (caller 2)).1 (caller 4)).0, t))
    × Stands 2 t (recv (send 2 (senders []) message (caller 2)).1 (caller 4)).1
try_recv_refines_example =
    try_recv_refines 2 (omega arith) (omega arith) one_waits
      (send 2 (senders []) message (caller 2)).1 (caller 4) one_waits-Stands
