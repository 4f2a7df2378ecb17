-- ===== src/Kcore/Ring.antt =====
-- libs/tarnos-kcore/src/ring.rs: `RingBuffer<T, N>`, a FIFO over a fixed array of `Option<T>`.
-- A method that takes `&mut self` returns the new buffer after its result. `usize` has 64 bits.
pub mod Fifo
pub mod Valid
pub mod Refine
use tarn_os.Prelude.{
  ℕ, ◌+◌, ◌-◌, ◌%◌, ◌^◌, Bool, true, false, List, [], Option, none, some, ◌==◌, if◌then◌else◌, set,
  get_or, replicate,
}

-- `capacity` is the const parameter `N`.
pub record RingBuffer {ℓ} (T : Type ℓ) : Type ℓ where
  pub buffer : List (Option T)
  pub capacity : ℕ
  pub head : ℕ
  pub len : ℕ

-- `usize` addition.
abbrev pub add_usize : ℕ → ℕ → ℕ
add_usize a b = (a + b) % 2 ^ 64

module _ {ℓ} {T : Type ℓ} where
  unfoldable pub new : ℕ → RingBuffer T
  new n = record { buffer = replicate n none; capacity = n; head = 0; len = 0 }

  unfoldable pub is_empty : RingBuffer T → Bool
  is_empty r = r.len == 0

  unfoldable pub is_full : RingBuffer T → Bool
  is_full r = r.len == r.capacity

  -- The slot that `push` writes.
  abbrev pub push_index : RingBuffer T → ℕ
  push_index r = add_usize r.head r.len % r.capacity

  unfoldable pub push : RingBuffer T → T → Bool × RingBuffer T
  push r value = if r.len == r.capacity then (false, r) else (
    true,
    record r { buffer = set r.buffer (push_index r) (some value); len = add_usize r.len 1 },
  )

  -- `take` leaves `None` in the slot that is read.
  unfoldable pub pop : RingBuffer T → Option T × RingBuffer T
  pop r = if r.len == 0 then (none, r) else (
    get_or r.buffer r.head none,
    record r {
      buffer = set r.buffer r.head none;
      head = add_usize r.head 1 % r.capacity;
      len = r.len - 1;
    },
  )
