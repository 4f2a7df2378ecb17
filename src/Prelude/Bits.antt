-- ===== src/Prelude/Bits.antt =====
-- Single bits of a machine word: the digit recursion behind `bit_and` and `bit_or`, and what
-- a word with one bit set or cleared does to every other bit.
use Prim.Native.Nat.{ℕ, zero, suc, ◌+◌, ◌-◌, ◌*◌, ◌/◌, ◌%◌, ◌^◌, ◌≤◌, ◌<◌, min, max}
use Prim.Native.Nat.{bit_and, bit_or, digits, bitwise, bit_and-bitwise, bit_or-bitwise}
use mathlib.Core.Path.{◌≡◌, refl, sym, ap, ◌∙◌}
use mathlib.Core.Logic.{◌≢◌, ◌⊎◌, inl, inr}
use native.Mathlib.Nat.{le_refl, pow-suc}
use native.Mathlib.Omega.{arith}

-- The library computes a bit operation digit by digit, on as much fuel as the first word is large.
-- Any fuel that is not smaller gives the same word.
module _ (beyond : ℕ → ℕ) (op : ℕ → ℕ → ℕ) where
  settled :
      (bound fuel x y : ℕ)
      → fuel ≤ bound
      → x ≤ fuel
      → digits beyond op fuel x y ≡ bitwise beyond op x y
  settled bound zero zero y small enough = refl
  settled bound (suc k) zero y small enough = refl
  settled bound zero (suc x) y small enough = absurd (omega arith)
  settled zero (suc k) (suc x) y small enough = absurd (omega arith)
  settled (suc bound) (suc k) (suc x) y small enough =
      let half = suc x / 2 in
      let long = settled bound k half (y / 2) (omega arith) (omega arith) in
      let short = settled bound x half (y / 2) (omega arith) (omega arith) in
      ap (λ t. t * 2 + op (suc x % 2) (y % 2)) (long ∙ sym short)

  low_digit :
      (x y : ℕ)
      → bitwise beyond op (suc x) y
        ≡ bitwise beyond op (suc x / 2) (y / 2) * 2 + op (suc x % 2) (y % 2)
  low_digit x y =
      ap (λ t. t * 2 + op (suc x % 2) (y % 2))
        (settled x x (suc x / 2) (y / 2) (omega arith) (omega arith))

pub bit_or_step : (v w : ℕ) → bit_or v w ≡ bit_or (v / 2) (w / 2) * 2 + max (v % 2) (w % 2)
bit_or_step v w =
    bit_or-bitwise v w
    ∙ lowest v
    ∙ sym (ap (λ t. t * 2 + max (v % 2) (w % 2)) (bit_or-bitwise (v / 2) (w / 2)))
  where
    lowest :
        (v : ℕ)
        → bitwise (λ y. y) max v w ≡ bitwise (λ y. y) max (v / 2) (w / 2) * 2 + max (v % 2) (w % 2)
    lowest zero = omega arith
    lowest (suc x) = low_digit (λ y. y) max x w

pub bit_and_step : (v w : ℕ) → bit_and v w ≡ bit_and (v / 2) (w / 2) * 2 + min (v % 2) (w % 2)
bit_and_step v w =
    bit_and-bitwise v w
    ∙ lowest v
    ∙ sym (ap (λ t. t * 2 + min (v % 2) (w % 2)) (bit_and-bitwise (v / 2) (w / 2)))
  where
    lowest :
        (v : ℕ)
        → bitwise (λ y. 0) min v w ≡ bitwise (λ y. 0) min (v / 2) (w / 2) * 2 + min (v % 2) (w % 2)
    lowest zero = omega arith
    lowest (suc x) = low_digit (λ y. 0) min x w

-- Bit `i` of a word, as 0 or 1.
abbrev pub bit : ℕ → ℕ → ℕ
bit w zero = w % 2
bit w (suc i) = bit (w / 2) i

pub bit-le_one : (w i : ℕ) → bit w i ≤ 1
bit-le_one w zero = omega arith
bit-le_one w (suc i) = bit-le_one (w / 2) i

pub bit-cases : (w i : ℕ) → (bit w i ≡ 0) ⊎ (bit w i ≡ 1)
bit-cases w i = omega (arith, bit-le_one w i)

pub bit-bit_or : (a b i : ℕ) → bit (bit_or a b) i ≡ max (bit a i) (bit b i)
bit-bit_or a b zero = omega (arith, bit_or_step a b)
bit-bit_or a b (suc i) =
    let e : bit_or a b / 2 ≡ bit_or (a / 2) (b / 2) = omega (arith, bit_or_step a b) in
    rw e (bit-bit_or (a / 2) (b / 2) i)

pub bit-bit_and : (a b i : ℕ) → bit (bit_and a b) i ≡ min (bit a i) (bit b i)
bit-bit_and a b zero = omega (arith, bit_and_step a b)
bit-bit_and a b (suc i) =
    let e : bit_and a b / 2 ≡ bit_and (a / 2) (b / 2) = omega (arith, bit_and_step a b) in
    rw e (bit-bit_and (a / 2) (b / 2) i)

pub bit-zero : (i : ℕ) → bit 0 i ≡ 0
bit-zero zero = refl
bit-zero (suc i) = bit-zero i

half-pow : (k : ℕ) → 2 ^ suc k / 2 ≡ 2 ^ k
half-pow k = omega (arith, pow-suc 2 k)

pub bit-pow_self : (k : ℕ) → bit (2 ^ k) k ≡ 1
bit-pow_self zero = refl
bit-pow_self (suc k) = ap (λ w. bit w k) (half-pow k) ∙ bit-pow_self k

pub bit-pow_ne : (k i : ℕ) → k ≢ i → bit (2 ^ k) i ≡ 0
bit-pow_ne zero zero h = absurd (h refl)
bit-pow_ne zero (suc i) h = bit-zero i
bit-pow_ne (suc k) zero h = omega (arith, pow-suc 2 k)
bit-pow_ne (suc k) (suc i) h = ap (λ w. bit w i) (half-pow k) ∙ bit-pow_ne k i (λ e. h (ap suc e))

-- The complement of a word of `n` bits, as `!w` computes it.
abbrev pub complement : ℕ → ℕ → ℕ
complement n w = 2 ^ n - 1 - w

pub bit-complement : (n w i : ℕ) → w < 2 ^ n → i < n → bit (complement n w) i ≡ 1 - bit w i
bit-complement zero w i h lt = absurd (omega arith)
bit-complement (suc n) w zero h lt = omega (arith, pow-suc 2 n)
bit-complement (suc n) w (suc i) h lt =
    let e : complement (suc n) w / 2 ≡ complement n (w / 2) = omega (arith, pow-suc 2 n) in
    rw e (bit-complement n (w / 2) i (omega (arith, pow-suc 2 n)) (omega arith))

pub bit_or-lt : (n a b : ℕ) → a < 2 ^ n → b < 2 ^ n → bit_or a b < 2 ^ n
bit_or-lt zero a b p q =
    let e : a ≡ 0 = omega arith in let e' : b ≡ 0 = omega arith in rw (e, e') (omega arith)
bit_or-lt (suc n) a b p q = omega (
  arith,
  bit_or_step a b,
  pow-suc 2 n,
  bit_or-lt n (a / 2) (b / 2) (omega (arith, pow-suc 2 n)) (omega (arith, pow-suc 2 n)),
)

pub bit_and-lt : (n a b : ℕ) → a < 2 ^ n → bit_and a b < 2 ^ n
bit_and-lt zero a b p = let e : a ≡ 0 = omega arith in rw e (omega (arith, bit_and-bitwise 0 b))
bit_and-lt (suc n) a b p = omega (
  arith,
  bit_and_step a b,
  pow-suc 2 n,
  bit_and-lt n (a / 2) (b / 2) (omega (arith, pow-suc 2 n)),
)

bit_and-zero : (n a : ℕ) → a ≤ n → bit_and a 0 ≡ 0
bit_and-zero n zero h = bit_and-bitwise 0 0
bit_and-zero zero (suc a) h = absurd (omega arith)
bit_and-zero (suc n) (suc a) h =
    omega (arith, bit_and_step (suc a) 0, bit_and-zero n (suc a / 2) (omega arith))

pub bit_and-pow : (w k : ℕ) → bit_and w (2 ^ k) ≡ bit w k * 2 ^ k
bit_and-pow w zero = omega (arith, bit_and_step w 1, bit_and-zero (w / 2) (w / 2) (le_refl _))
bit_and-pow w (suc k) =
    let e : 2 ^ suc k / 2 ≡ 2 ^ k = half-pow k in
    let even : 2 ^ suc k % 2 ≡ 0 = omega (arith, pow-suc 2 k) in
    let step : bit_and w (2 ^ suc k) ≡ bit_and (w / 2) (2 ^ k) * 2 =
      rw (bit_and_step w (2 ^ suc k), e, even) (omega arith) in
    omega (
      arith,
      step,
      bit_and-pow (w / 2) k,
      pow-suc 2 k,
      ap (λ (t : ℕ). bit (w / 2) k * t) (pow-suc 2 k),
    )

-- `u64::count_ones` and `u64::trailing_zeros` on a word of `n` bits.
pub count_ones : ℕ → ℕ → ℕ
count_ones zero w = 0
count_ones (suc n) w = w % 2 + count_ones n (w / 2)

unfoldable pub trailing_zeros : ℕ → ℕ → ℕ
trailing_zeros zero w = 0
trailing_zeros (suc n) w =
    let rest = trailing_zeros n (w / 2) in elim (w % 2) [ zero ↦ suc rest | suc _ ↦ 0 ]

parity : (w : ℕ) → (w % 2 ≡ 0) ⊎ (w % 2 ≡ 1)
parity w = omega arith

-- In a word that is not 0, `trailing_zeros` is the lowest bit that is set.
pub record IsLowestBit (n w k : ℕ) : Type 0 where
  pub below : k < n
  pub is_set : bit w k ≡ 1
  pub lowest : (j : ℕ) → j < k → bit w j ≡ 0

lowest_even :
    (w k : ℕ)
    → w % 2 ≡ 0
    → ((j : ℕ) → j < k → bit (w / 2) j ≡ 0)
    → (j : ℕ) → j < suc k
    → bit w j ≡ 0
lowest_even w k even h zero l = even
lowest_even w k even h (suc j) l = h j (omega arith)

pub trailing_zeros-IsLowestBit :
    (n w : ℕ) → w < 2 ^ n → w ≢ 0 → IsLowestBit n w (trailing_zeros n w)
unfolding trailing_zeros
trailing_zeros-IsLowestBit zero w h ne = absurd (ne (omega arith))
trailing_zeros-IsLowestBit (suc n) w h ne = elim (parity w) [
  | inl even ↦
      let rest = trailing_zeros-IsLowestBit n (w / 2) (omega (arith, pow-suc 2 n)) (omega arith) in
      rw (even, trailing_zeros)
        (record {
          below = omega (arith, rest.below);
          is_set = rest.is_set;
          lowest = lowest_even w (trailing_zeros n (w / 2)) even rest.lowest;
        })
  | inr odd ↦
      rw (odd, trailing_zeros)
        (record { below = omega arith; is_set = odd; lowest = λ j l. absurd (omega arith) })
]

count_ones-cong :
    (n a b : ℕ) → ((i : ℕ) → i < n → bit a i ≡ bit b i) → count_ones n a ≡ count_ones n b
unfolding count_ones
count_ones-cong zero a b h = refl
count_ones-cong (suc n) a b h =
    omega
      (arith, h 0 (omega arith), count_ones-cong n (a / 2) (b / 2) (λ i l. h (suc i) (omega arith)))

-- One more bit set is one more in the count.
pub count_ones_one_more :
    (n k a b : ℕ)
    → k < n
    → bit a k ≡ 1
    → bit b k ≡ 0
    → ((i : ℕ) → i < n → k ≢ i → bit a i ≡ bit b i)
    → count_ones n a ≡ count_ones n b + 1
unfolding count_ones
count_ones_one_more zero k a b l p q h = absurd (omega arith)
count_ones_one_more (suc n) zero a b l p q h =
    omega (
      arith,
      p,
      q,
      count_ones-cong n (a / 2) (b / 2) (λ i l. h (suc i) (omega arith) (omega arith)),
    )
count_ones_one_more (suc n) (suc k) a b l p q h = omega (
  arith,
  h 0 (omega arith) (omega arith),
  count_ones_one_more n k (a / 2) (b / 2) (omega arith) p q
      (λ i l ne. h (suc i) (omega arith) (omega arith)),
)

bit_or_comm_below : (n a b : ℕ) → a ≤ n → b ≤ n → bit_or a b ≡ bit_or b a
bit_or_comm_below zero zero zero p q = refl
bit_or_comm_below zero zero (suc b) p q = absurd (omega arith)
bit_or_comm_below zero (suc a) b p q = absurd (omega arith)
bit_or_comm_below (suc n) a b p q = omega (
  arith,
  bit_or_step a b,
  bit_or_step b a,
  bit_or_comm_below n (a / 2) (b / 2) (omega arith) (omega arith),
)

pub bit_or_comm : (a b : ℕ) → bit_or a b ≡ bit_or b a
bit_or_comm a b = bit_or_comm_below (a + b) a b (omega arith) (omega arith)

zero-bit_or : (b : ℕ) → bit_or 0 b ≡ b
zero-bit_or b = bit_or-bitwise 0 b

-- A word and the bits above it do not overlap.
pub bit_or_high : (k a b : ℕ) → a < 2 ^ k → bit_or a (b * 2 ^ k) ≡ a + b * 2 ^ k
bit_or_high zero a b h = let e : a ≡ 0 = omega arith in rw (e, zero-bit_or (b * 1)) (omega arith)
bit_or_high (suc k) a b h =
    let twice : b * 2 ^ suc k ≡ b * 2 ^ k * 2 = ap (λ t. b * t) (pow-suc 2 k) ∙ omega arith in
    let half : b * 2 ^ k * 2 / 2 ≡ b * 2 ^ k = omega arith in
    let step : bit_or a (b * 2 ^ suc k)
        ≡ bit_or (a / 2) (b * 2 ^ k) * 2 + max (a % 2) (b * 2 ^ k * 2 % 2) =
      rw (twice, bit_or_step a (b * 2 ^ k * 2), half) refl in
    omega (arith, step, twice, bit_or_high k (a / 2) b (omega (arith, pow-suc 2 k)))
