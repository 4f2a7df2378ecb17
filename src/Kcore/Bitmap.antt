-- ===== src/Kcore/Bitmap.antt =====
-- libs/tarnos-kcore/src/bitmap.rs: `Bitmap<WORDS>`, a set of indices in 64-bit words (a set bit
-- is a free index), and `usable_frame_range`. A method that takes `&mut self` returns the new map.
-- `usize` and `u64` have 64 bits. A read of a word that is not there gives 0, and a write there
-- changes nothing: `Valid` shows that no call makes one.
pub mod Valid
pub mod Laws
pub mod Allocate
pub mod Count
pub mod Range
use tarn_os.Prelude.{
  ℕ, zero, suc, ◌+◌, ◌-◌, ◌*◌, ◌/◌, ◌%◌, ◌^◌, Bool, true, false, not, ◌&&◌, ◌||◌, List, [], ◌∷◌,
  Option, none, some, ◌==◌, ltb, leb, if◌then◌else◌, get_or, set, replicate, bit_and, bit_or,
}
use tarn_os.Prelude.Bits.{complement, count_ones, trailing_zeros}

-- `word_count` is the const parameter `WORDS`.
pub record Bitmap : Type 0 where
  pub words : List ℕ
  pub word_count : ℕ
  pub frame_count : ℕ

-- `CAPACITY`.
abbrev pub capacity : Bitmap → ℕ
capacity b = b.word_count * 64

unfoldable pub new : ℕ → Bitmap
new n = record { words = replicate n 0; word_count = n; frame_count = 0 }

abbrev pub word : Bitmap → ℕ → ℕ
word b i = get_or b.words (i / 64) 0

unfoldable pub set_free : Bitmap → ℕ → Bitmap
set_free b index = if leb (capacity b) index then b else record b {
  words = set b.words (index / 64) (bit_or (word b index) (2 ^ (index % 64)));
  frame_count = if leb b.frame_count index then index + 1 else b.frame_count;
}

unfoldable pub set_used : Bitmap → ℕ → Bitmap
set_used b index = if leb (capacity b) index then b else record b {
  words = set b.words (index / 64) (bit_and (word b index) (complement 64 (2 ^ (index % 64))));
}

unfoldable pub is_free : Bitmap → ℕ → Bool
is_free b index = ltb index (capacity b) && not (bit_and (word b index) (2 ^ (index % 64)) == 0)

-- The sum that `free_count` takes over the words.
unfoldable pub sum_ones : List ℕ → ℕ
sum_ones [] = 0
sum_ones (w ∷ ws) = count_ones 64 w + sum_ones ws

unfoldable pub free_count : Bitmap → ℕ
free_count b = sum_ones b.words

abbrev pub div_ceil : ℕ → ℕ → ℕ
div_ceil a d = if a % d == 0 then a / d else a / d + 1

-- The loop of `allocate`: `rounds` words are left from word `i` on.
unfoldable pub scan : Bitmap → ℕ → ℕ → Option ℕ × Bitmap
scan b zero i = (none, b)
scan b (suc rounds) i =
    let rest = scan b rounds (i + 1) in
    let w = get_or b.words i 0 in
    let index = i * 64 + trailing_zeros 64 w in
    if w == 0 then rest else (some index, set_used b index)

unfoldable pub allocate : Bitmap → Option ℕ × Bitmap
unfolding scan
allocate b = scan b (div_ceil b.frame_count 64) 0

-- The range runs from the first number up to the second. `none` is a panic of a debug build: a sum that
-- does not fit in 64 bits, or a division by 0.
unfoldable pub usable_frame_range : ℕ → ℕ → ℕ → Option (ℕ × ℕ)
usable_frame_range base length frame_size =
    if frame_size == 0 || leb (2 ^ 64) (base + length)
    then none
    else some (div_ceil base frame_size, (base + length) / frame_size)
