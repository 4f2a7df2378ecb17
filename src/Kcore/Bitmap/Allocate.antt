-- ===== src/Kcore/Bitmap/Allocate.antt =====
-- `allocate` claims the lowest free index, and fails only when nothing is free.
use native.Mathlib.Decide.{dec_lt}
use tarn_os.Prelude.{
  ℕ, zero, suc, ◌+◌, ◌*◌, ◌/◌, ◌%◌, ◌≤◌, ◌<◌, ◌≡◌, ◌≢◌, true, false, arith, Option, none, some,
  ℕ_discrete, get_or, ==_iff, ==_ne,
}
use tarn_os.Prelude.Bits.{bit-zero, trailing_zeros, IsLowestBit, trailing_zeros-IsLowestBit}
use tarn_os.Kcore.Bitmap.{Bitmap, set_used, is_free, scan, allocate, div_ceil}
use tarn_os.Kcore.Bitmap.Valid.{IsValid, free_bit, is_free-free_bit, set_used-IsValid}

-- What one call of `allocate` on `b` may answer, with the map that it leaves.
pub data Claims (b : Bitmap) : Option ℕ × Bitmap → Type 0 where
  nothing : ((j : ℕ) → is_free b j ≡ false) → Claims b (none, b)
  lowest :
      (index : ℕ)
      → is_free b index ≡ true
      → ((j : ℕ) → j < index → is_free b j ≡ false)
      → Claims b (some index, set_used b index)

-- No index below word `i` is free.
abbrev Below : Bitmap → ℕ → Type 0
Below b i = (j : ℕ) → j < i * 64 → free_bit b j ≡ 0

Below-zero_word : (b : Bitmap) (i : ℕ) → get_or b.words i 0 ≡ 0 → Below b i → Below b (i + 1)
Below-zero_word b i e below j h = elim (dec_lt j (i * 64)) [
  | yes lt ↦ below j lt
  | no ge ↦ let here : j / 64 ≡ i = omega arith in rw (here, e) (bit-zero (j % 64))
]

module _ (b : Bitmap) (v : IsValid b) where
  -- The lowest bit of the first word that is not 0.
  first_word :
      (i : ℕ)
      → get_or b.words i 0 ≢ 0
      → Below b i
      → let index = i * 64 + trailing_zeros 64 (get_or b.words i 0) in
        (free_bit b index ≡ 1) × ((j : ℕ) → j < index → free_bit b j ≡ 0)
  first_word i ne below =
      (rw (here k low.below, there k low.below) low.is_set, λ j l. before j l (dec_lt j (i * 64)))
    where
      k : ℕ
      k = trailing_zeros 64 (get_or b.words i 0)

      low : IsLowestBit 64 (get_or b.words i 0) k
      low = trailing_zeros-IsLowestBit 64 (get_or b.words i 0) (v.small i) ne

      here : (t : ℕ) → t < 64 → (i * 64 + t) / 64 ≡ i
      here t h = omega arith

      there : (t : ℕ) → t < 64 → (i * 64 + t) % 64 ≡ t
      there t h = omega arith

      before : (j : ℕ) → j < i * 64 + k → Dec (j < i * 64) → free_bit b j ≡ 0
      before j l (yes lt) = below j lt
      before j l (no ge) =
          let word : j / 64 ≡ i = omega (arith, low.below) in
          rw word (low.lowest (j % 64) (omega (arith, low.below)))

  scan-Claims :
      (rounds i : ℕ) → b.frame_count ≤ (i + rounds) * 64 → Below b i → Claims b (scan b rounds i)
  unfolding scan
  scan-Claims zero i enough below = nothing (λ j. all_used j (dec_lt j b.frame_count))
    where
      all_used : (j : ℕ) → Dec (j < b.frame_count) → is_free b j ≡ false
      all_used j (yes l) = rw (is_free-free_bit b j) (ground (arith, below j (omega arith)))
      all_used j (no l) = rw (is_free-free_bit b j) (ground (arith, v.counted j))
  scan-Claims (suc rounds) i enough below = elim (ℕ_discrete (get_or b.words i 0) 0) [
    | yes e ↦
        rw ((==_iff (get_or b.words i 0) 0).1 e)
          (scan-Claims rounds (i + 1) (omega arith) (Below-zero_word b i e below))
    | no ne ↦
        let (found, under) = first_word i ne below in
        rw (==_ne (get_or b.words i 0) 0 ne)
          (lowest _ (free_of _ found) (λ j l. used_of j (under j l)))
  ]
    where
      free_of : (j : ℕ) → free_bit b j ≡ 1 → is_free b j ≡ true
      free_of j e = rw (is_free-free_bit b j, e) (ground (arith, v.counted j e, v.seeded))

      used_of : (j : ℕ) → free_bit b j ≡ 0 → is_free b j ≡ false
      used_of j e = rw (is_free-free_bit b j, e) (ground arith)

-- `allocate` claims the lowest free index and marks it used, or finds that nothing is free and
-- changes nothing.
pub allocate-Claims : (b : Bitmap) → IsValid b → Claims b (allocate b)
unfolding allocate
allocate-Claims b v =
    scan-Claims b v (div_ceil b.frame_count 64) 0 (ground arith) (λ j l. absurd (omega arith))

pub allocate-IsValid : (b : Bitmap) → IsValid b → IsValid (allocate b).1
allocate-IsValid b v = go (allocate-Claims b v)
  where
    go : {r : Option ℕ × Bitmap} → Claims b r → IsValid r.1
    go (nothing h) = v
    go (lowest index h l) = set_used-IsValid b index v
