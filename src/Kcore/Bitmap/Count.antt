-- ===== src/Kcore/Bitmap/Count.antt =====
-- `free_count` counts the free indices: freeing and claiming move it by one.
use tarn_os.Prelude.{
  ℕ, zero, suc, ◌+◌, ◌/◌, ◌%◌, ◌^◌, ◌<◌, ◌≡◌, sym, ap, subst, ==_refl, ◌∙◌, true, arith, List, [],
  ◌∷◌, Option, some, get_or, set, bit_or, length,
}
use tarn_os.Prelude.Bits.{bit-le_one, count_ones, count_ones_one_more}
use tarn_os.Kcore.Bitmap.{
  Bitmap, capacity, word, set_free, set_used, is_free, sum_ones, free_count, allocate,
}
use tarn_os.Kcore.Bitmap.Valid.{
  IsValid, free_bit, is_free-free_bit, words-set_free, words-set_used, cleared, bit_set_word,
  bit_set_word_ne, bit-cleared_word, bit-cleared-word_ne, set_used-IsValid, free_bit-set_used,
  capacity-set_used,
}
use tarn_os.Kcore.Bitmap.Allocate.{Claims, nothing, lowest, allocate-Claims}

sum_ones-set :
    (ws : List ℕ) (i v : ℕ)
    → i < length ws
    → sum_ones (set ws i v) + count_ones 64 (get_or ws i 0) ≡ sum_ones ws + count_ones 64 v
unfolding sum_ones
sum_ones-set [] i v h = absurd (omega arith)
sum_ones-set (w ∷ ws) zero v h = omega arith
sum_ones-set (w ∷ ws) (suc i) v h = omega (arith, sum_ones-set ws i v (omega arith))

-- Freeing an index that was used adds one to the count.
free_count-set_free :
    (b : Bitmap) (index : ℕ)
    → IsValid b
    → index < capacity b
    → free_bit b index ≡ 0
    → free_count (set_free b index) ≡ free_count b + 1
unfolding free_count
free_count-set_free b index v h used =
    rw (words-set_free b index h)
      (omega (arith, sum_ones-set b.words (index / 64) after (omega arith), one_more))
  where
    after : ℕ
    after = bit_or (word b index) (2 ^ (index % 64))

    one_more : count_ones 64 after ≡ count_ones 64 (word b index) + 1
    one_more =
        count_ones_one_more 64 (index % 64) after (word b index) (omega arith)
          (bit_set_word b index) used (λ i l ne. bit_set_word_ne b index i ne)

free_count-set_used :
    (b : Bitmap) (index : ℕ)
    → IsValid b
    → index < capacity b
    → free_bit b index ≡ 1
    → free_count b ≡ free_count (set_used b index) + 1
unfolding free_count
free_count-set_used b index v h free =
    rw (words-set_used b index h)
      (omega (arith, sum_ones-set b.words (index / 64) after (omega arith), one_more))
  where
    after : ℕ
    after = cleared b index

    one_more : count_ones 64 (word b index) ≡ count_ones 64 after + 1
    one_more =
        count_ones_one_more 64 (index % 64) (word b index) after (omega arith) free
          (bit-cleared_word b index) (λ i l ne. sym (bit-cleared-word_ne b index i l ne))

free_inside :
    (b : Bitmap) (index : ℕ)
    → is_free b index ≡ true
    → (index < capacity b) × (free_bit b index ≡ 1)
free_inside b index h =
    ground (arith, is_free-free_bit b index, bit-le_one (word b index) (index % 64))

pub claimed :
    {b : Bitmap} {r : Option ℕ × Bitmap} (index : ℕ)
    → Claims b r
    → r.0 ≡ some index
    → (is_free b index ≡ true) × (r.1 ≡ set_used b index)
claimed index (nothing h) e = cc
claimed {b} index (lowest i free least) e =
    let same : i ≡ index = cc in (subst (λ k. is_free b k ≡ true) same free, ap (set_used b) same)

-- A successful `allocate` takes one index from the count.
pub free_count-allocate :
    (b : Bitmap) (index : ℕ)
    → IsValid b
    → (allocate b).0 ≡ some index
    → free_count b ≡ free_count (allocate b).1 + 1
free_count-allocate b index v e =
    let (free, after) = claimed index (allocate-Claims b v) e in
    let (inside, set_bit) = free_inside b index free in
    rw after (free_count-set_used b index v inside set_bit)

-- An `allocate` followed by freeing what it claimed leaves the count where it was.
pub free_count-set_free-allocate :
    (b : Bitmap) (index : ℕ)
    → IsValid b
    → (allocate b).0 ≡ some index
    → free_count (set_free (allocate b).1 index) ≡ free_count b
free_count-set_free-allocate b index v e =
    let (free, after) = claimed index (allocate-Claims b v) e in
    let (inside, set_bit) = free_inside b index free in
    let gone : free_bit (set_used b index) index ≡ 0 =
      free_bit-set_used b index index v.sized inside ∙ rw (==_refl index) in
    rw after (
      free_count-set_free (set_used b index) index (set_used-IsValid b index v)
        (omega (arith, capacity-set_used b index)) gone
      ∙ sym (free_count-set_used b index v inside set_bit))
