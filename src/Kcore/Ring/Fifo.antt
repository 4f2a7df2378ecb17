-- ===== src/Kcore/Ring/Fifo.antt =====
-- What a `RingBuffer` promises: a queue of at most `capacity` values, oldest first.
use tarn_os.Prelude.{
  ℕ, Bool, true, false, List, [], ◌∷◌, ◌++◌, Option, none, some, length, ◌==◌, if◌then◌else◌,
}

-- What a client can ask, and what it sees of a call.
pub data Op {ℓ} (T : Type ℓ) : Type ℓ where
  put : T → Op T
  get : Op T

pub data Reply {ℓ} (T : Type ℓ) : Type ℓ where
  pushed : Bool → Reply T
  popped : Option T → Reply T

module _ {ℓ} {T : Type ℓ} where
  unfoldable pub push : ℕ → List T → T → Bool × List T
  push cap xs value = if length xs == cap then (false, xs) else (true, xs ++ value ∷ [])

  unfoldable pub pop : List T → Option T × List T
  pop [] = (none, [])
  pop (x ∷ xs) = (some x, xs)

  unfoldable pub run : ℕ → List T → List (Op T) → List (Reply T)
  run cap xs [] = []
  run cap xs (put v ∷ ops) = let (done, ys) = push cap xs v in pushed done ∷ run cap ys ops
  run cap xs (get ∷ ops) = let (out, ys) = pop xs in popped out ∷ run cap ys ops
