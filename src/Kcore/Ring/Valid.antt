-- ===== src/Kcore/Ring/Valid.antt =====
-- The representation invariant of `RingBuffer`: indices stay in the array, sums do not wrap.
use tarn_os.Prelude.{ℕ, ◌^◌, ◌≤◌, ◌<◌, ◌≡◌, Option, length, length-set, length-replicate, arith}
use tarn_os.Kcore.Ring.{RingBuffer, new, push_index, push, pop}

pub record IsValid {ℓ} {T : Type ℓ} (r : RingBuffer T) : Type ℓ where
  pub sized : length r.buffer ≡ r.capacity
  pub positive : 0 < r.capacity
  pub small : r.capacity ≤ 2 ^ 63
  pub head_in : r.head < r.capacity
  pub len_in : r.len ≤ r.capacity

none_of {ℓ} : (T : Type ℓ) → Option T
none_of T = Option.none

module _ {ℓ} {T : Type ℓ} where
  pub new-IsValid : (n : ℕ) → 0 < n → n ≤ 2 ^ 63 → IsValid (new {T = T} n)
  unfolding new none_of
  new-IsValid n p q = ground (arith, length-replicate n (none_of T))

  pub push-IsValid : (r : RingBuffer T) (value : T) → IsValid r → IsValid (push r value).1
  unfolding push
  push-IsValid r value v = ground (arith, length-set r.buffer (push_index r) (Option.some value))

  pub pop-IsValid : (r : RingBuffer T) → IsValid r → IsValid (pop r).1
  unfolding pop none_of
  pop-IsValid r v = ground (arith, length-set r.buffer r.head (none_of T))
