-- ===== src/Kcore/Bitmap/Valid.antt =====
-- The representation invariant of `Bitmap`, and the meaning of one bit.
use tarn_os.Prelude.{
  ℕ, ◌+◌, ◌/◌, ◌%◌, ◌^◌, ◌≤◌, ◌<◌, ◌≡◌, ◌≢◌, ap, Bool, true, false, not, ◌&&◌, List, arith, ◌==◌,
  ltb, if◌then◌else◌, length, length-set, length-replicate, get_or, set, get_or-set_self,
  get_or-set_ne, get_or-replicate, bit_and, bit_or, max, ℕ_discrete, ==_iff, ==_ne, get_or-set, inl,
  inr,
}
use native.Mathlib.Decide.{dec_lt}
use native.Mathlib.Nat.{one-le-pow, pow-le-pow_right}
use tarn_os.Prelude.Bits.{
  bit, bit-le_one, bit-cases, bit-bit_or, bit-bit_and, bit-pow_self, bit-pow_ne, bit-complement,
  complement, bit_or-lt, bit_and-lt, bit_and-pow, bit-zero,
}
use tarn_os.Kcore.Bitmap.{Bitmap, capacity, word, new, set_free, set_used, is_free}

-- Whether `index` is free, read off its bit.
abbrev pub free_bit : Bitmap → ℕ → ℕ
free_bit b index = bit (word b index) (index % 64)

pub record IsValid (b : Bitmap) : Type 0 where
  pub sized : length b.words ≡ b.word_count
  pub small : (i : ℕ) → get_or b.words i 0 < 2 ^ 64
  pub seeded : b.frame_count ≤ capacity b
  pub counted : (index : ℕ) → free_bit b index ≡ 1 → index < b.frame_count

pub pow-lt : (k : ℕ) → k < 64 → 2 ^ k < 2 ^ 64
pow-lt k h = omega (arith, pow-le-pow_right {n = 2} (omega arith) {i = k} {j = 63} (omega arith))

-- Any bit of `bit_and w (2 ^ k)` other than bit `k` is 0.
pub bit_and-pow_test : (w k : ℕ) → not (bit_and w (2 ^ k) == 0) ≡ (bit w k == 1)
bit_and-pow_test w k = elim (bit-cases w k) [
  | inl e ↦ rw (bit_and-pow w k, e) (ground arith)
  | inr e ↦ rw (bit_and-pow w k, e) (ground (arith, one-le-pow k 2))
]

pub is_free-free_bit :
    (b : Bitmap) (index : ℕ) → is_free b index ≡ (ltb index (capacity b) && (free_bit b index == 1))
unfolding is_free
is_free-free_bit b index = rw (bit_and-pow_test (word b index) (index % 64))

-- After a write to the word that holds `index`, bit `j` has the value of one bit of the new word
-- or the old value; `hit` says which bit of the new word differs.
module _ (b : Bitmap) (index v hit : ℕ) (sized : length b.words ≡ b.word_count)
    (inside : index < capacity b) (at_index : bit v (index % 64) ≡ hit)
    (elsewhere : (k : ℕ) → k < 64 → index % 64 ≢ k → bit v k ≡ bit (word b index) k) where
  bit_written :
      (j : ℕ)
      → bit (get_or (set b.words (index / 64) v) (j / 64) 0) (j % 64)
        ≡ (if index == j then hit else free_bit b j)
  bit_written j = elim (ℕ_discrete index j) [
    | yes e ↦
        rw ((==_iff index j).1 e, ← e, get_or-set_self b.words (index / 64) v 0 (omega arith))
          at_index
    | no ne ↦ rw (==_ne index j ne) (other j ne (ℕ_discrete (index / 64) (j / 64)))
  ]
    where
      other :
          (j : ℕ)
          → index ≢ j
          → Dec (index / 64 ≡ j / 64)
          → bit (get_or (set b.words (index / 64) v) (j / 64) 0) (j % 64) ≡ free_bit b j
      other j ne (yes same) =
          rw (← same, get_or-set_self b.words (index / 64) v 0 (omega arith))
            (elsewhere (j % 64) (omega arith) (omega arith))
      other j ne (no apart) =
          ap (λ w. bit w (j % 64)) (get_or-set_ne b.words (index / 64) (j / 64) v 0 apart)

pub words-set_free :
    (b : Bitmap) (index : ℕ)
    → index < capacity b
    → (set_free b index).words ≡ set b.words (index / 64) (bit_or (word b index) (2 ^ (index % 64)))
unfolding set_free
words-set_free b index h = ground arith

pub words-set_used :
    (b : Bitmap) (index : ℕ)
    → index < capacity b
    → (set_used b index).words
      ≡ set b.words (index / 64) (bit_and (word b index) (complement 64 (2 ^ (index % 64))))
unfolding set_used
words-set_used b index h = ground arith

pub bit_set_word :
    (b : Bitmap) (index : ℕ) → bit (bit_or (word b index) (2 ^ (index % 64))) (index % 64) ≡ 1
bit_set_word b index = omega (
  arith,
  bit-bit_or (word b index) (2 ^ (index % 64)) (index % 64),
  bit-pow_self (index % 64),
  bit-le_one (word b index) (index % 64),
)

pub bit_set_word_ne :
    (b : Bitmap) (index k : ℕ)
    → index % 64 ≢ k
    → bit (bit_or (word b index) (2 ^ (index % 64))) k ≡ bit (word b index) k
bit_set_word_ne b index k ne =
    omega (arith, bit-bit_or (word b index) (2 ^ (index % 64)) k, bit-pow_ne (index % 64) k ne)

-- The word that `set_used` writes.
abbrev pub cleared : Bitmap → ℕ → ℕ
cleared b index = bit_and (word b index) (complement 64 (2 ^ (index % 64)))

pub bit-cleared_word : (b : Bitmap) (index : ℕ) → bit (cleared b index) (index % 64) ≡ 0
bit-cleared_word b index = omega (
  arith,
  bit-bit_and (word b index) (complement 64 (2 ^ (index % 64))) (index % 64),
  bit-complement 64 (2 ^ (index % 64)) (index % 64) (pow-lt (index % 64) (omega arith))
      (omega arith),
  bit-pow_self (index % 64),
)

pub bit-cleared-word_ne :
    (b : Bitmap) (index k : ℕ)
    → k < 64
    → index % 64 ≢ k
    → bit (cleared b index) k ≡ bit (word b index) k
bit-cleared-word_ne b index k l ne = omega (
  arith,
  bit-bit_and (word b index) (complement 64 (2 ^ (index % 64))) k,
  bit-complement 64 (2 ^ (index % 64)) k (pow-lt (index % 64) (omega arith)) l,
  bit-pow_ne (index % 64) k ne,
  bit-le_one (word b index) k,
)

pub free_bit-set_free :
    (b : Bitmap) (index j : ℕ)
    → length b.words ≡ b.word_count
    → index < capacity b
    → free_bit (set_free b index) j ≡ (if index == j then 1 else free_bit b j)
free_bit-set_free b index j sized h = rw (words-set_free b index h) (
    bit_written b index (bit_or (word b index) (2 ^ (index % 64))) 1 sized h (bit_set_word b index)
      (λ k l ne. bit_set_word_ne b index k ne) j)

pub free_bit-set_used :
    (b : Bitmap) (index j : ℕ)
    → length b.words ≡ b.word_count
    → index < capacity b
    → free_bit (set_used b index) j ≡ (if index == j then 0 else free_bit b j)
free_bit-set_used b index j sized h = rw (words-set_used b index h) (
    bit_written b index (cleared b index) 0 sized h (bit-cleared_word b index)
      (bit-cleared-word_ne b index) j)

pub new-IsValid : (n : ℕ) → IsValid (new n)
unfolding new
new-IsValid n = record {
  sized = length-replicate n 0;
  small = λ i. rw (get_or-replicate {A = ℕ} n i 0) (omega arith);
  seeded = omega arith;
  counted = λ i e. absurd (
      omega (
        arith,
        e,
        ap (λ w. bit w (i % 64)) (get_or-replicate {A = ℕ} n (i / 64) 0),
        bit-zero (i % 64),
      ));
}

small-set :
    (ws : List ℕ) (i v : ℕ)
    → ((j : ℕ) → get_or ws j 0 < 2 ^ 64)
    → v < 2 ^ 64
    → i < length ws
    → (j : ℕ) → get_or (set ws i v) j 0 < 2 ^ 64
small-set ws i v h hv l j = rw (get_or-set ws i j v 0 l) (split (i == j))
  where
    split : (t : Bool) → (if t then v else get_or ws j 0) < 2 ^ 64
    split true = hv
    split false = h j

pub set_free_out : (b : Bitmap) (index : ℕ) → capacity b ≤ index → set_free b index ≡ b
unfolding set_free
set_free_out b index h = ground arith

pub set_used_out : (b : Bitmap) (index : ℕ) → capacity b ≤ index → set_used b index ≡ b
unfolding set_used
set_used_out b index h = ground arith

pub capacity-set_free : (b : Bitmap) (index : ℕ) → (set_free b index).word_count ≡ b.word_count
unfolding set_free
capacity-set_free b index = ground arith

pub capacity-set_used : (b : Bitmap) (index : ℕ) → (set_used b index).word_count ≡ b.word_count
unfolding set_used
capacity-set_used b index = ground arith

frame_count-set_free :
    (b : Bitmap) (index : ℕ)
    → index < capacity b
    → (set_free b index).frame_count ≡ max b.frame_count (index + 1)
unfolding set_free
frame_count-set_free b index h = ground arith

frame_count-set_used : (b : Bitmap) (index : ℕ) → (set_used b index).frame_count ≡ b.frame_count
unfolding set_used
frame_count-set_used b index = ground arith

-- Freeing any index, in range or not, keeps the invariant.
pub set_free-IsValid : (b : Bitmap) (index : ℕ) → IsValid b → IsValid (set_free b index)
set_free-IsValid b index v = elim (dec_lt index (capacity b)) [
  | no out ↦ rw (set_free_out b index (omega arith)) v
  | yes h ↦ record {
    sized = rw (words-set_free b index h, length-set, capacity-set_free b index) v.sized;
    small = rw (words-set_free b index h) (
        small-set b.words (index / 64) _ v.small
          (bit_or-lt 64 (word b index) (2 ^ (index % 64)) (v.small (index / 64))
            (pow-lt (index % 64) (omega arith)))
          (omega arith));
    seeded = omega (arith, frame_count-set_free b index h, capacity-set_free b index);
    counted = λ j e.
        ground (
          arith,
          frame_count-set_free b index h,
          free_bit-set_free b index j v.sized h,
          v.counted j,
        );
  }
]

-- Marking any index used, in range or not, keeps the invariant.
pub set_used-IsValid : (b : Bitmap) (index : ℕ) → IsValid b → IsValid (set_used b index)
set_used-IsValid b index v = elim (dec_lt index (capacity b)) [
  | no out ↦ rw (set_used_out b index (omega arith)) v
  | yes h ↦ record {
    sized = rw (words-set_used b index h, length-set, capacity-set_used b index) v.sized;
    small = rw (words-set_used b index h) (
        small-set b.words (index / 64) _ v.small
          (bit_and-lt 64 (word b index) (complement 64 (2 ^ (index % 64))) (v.small (index / 64)))
          (omega arith));
    seeded = omega (arith, frame_count-set_used b index, capacity-set_used b index);
    counted = λ j e.
        ground
          (arith, frame_count-set_used b index, free_bit-set_used b index j v.sized h, v.counted j);
  }
]
