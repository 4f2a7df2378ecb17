-- ===== src/Task/Pid.antt =====
-- kernel/src/task/mod.rs: `Pid`, a table index and a generation in one 64-bit word.
use native.Mathlib.Nat.{
  pow-suc, one-le-pow, add-mul-mod_self_left, mod-eq_of_lt, mod-lt, div-add-mod,
}
use Prim.Native.Nat.{bit_and-bitwise}
use tarn_os.Prelude.{
  ℕ, zero, suc, ◌+◌, ◌*◌, ◌/◌, ◌%◌, ◌^◌, ◌<◌, ◌≤◌, ◌-◌, min, ◌≡◌, refl, ap, ◌∙◌, bit_and, bit_or,
  arith,
}
use tarn_os.Prelude.Bits.{bit_or_high, bit_and_step}

-- The word of a `Pid`. `new` shifts the generation by 32 bits, and `generation` casts to `u32`.
abbrev pub Pid : Type 0
Pid = ℕ

unfoldable pub new : ℕ → ℕ → Pid
new i g = bit_or i (g * 2 ^ 32 % 2 ^ 64)

unfoldable pub index : Pid → ℕ
index p = bit_and p 0xffff_ffff

unfoldable pub generation : Pid → ℕ
generation p = p / 2 ^ 32 % 2 ^ 32

bit_and_zero : (k a : ℕ) → a ≤ k → bit_and a 0 ≡ 0
bit_and_zero k zero h = bit_and-bitwise 0 0
bit_and_zero zero (suc a) h = absurd (omega arith)
bit_and_zero (suc k) (suc a) h =
    omega (arith, bit_and_step (suc a) 0, bit_and_zero k (suc a / 2) (omega arith))

mod_double : (a m : ℕ) → 0 < m → a % (m * 2) ≡ a / 2 % m * 2 + a % 2
mod_double a m h =
    ap (λ t. t % (m * 2)) split
    ∙ add-mul-mod_self_left (a / 2 % m * 2 + a % 2) (m * 2) (a / 2 / m)
    ∙ mod-eq_of_lt (omega (arith, mod-lt (a / 2) h))
  where
    split : a ≡ a / 2 % m * 2 + a % 2 + m * 2 * (a / 2 / m)
    split = omega (arith, div-add-mod (a / 2) m)

bit_and_low : (k a : ℕ) → bit_and a (2 ^ k - 1) ≡ a % 2 ^ k
bit_and_low zero a = bit_and_zero a a (omega arith) ∙ omega arith
bit_and_low (suc k) a =
    let half : (2 ^ suc k - 1) / 2 ≡ 2 ^ k - 1 = omega (arith, pow-suc 2 k) in
    let odd : (2 ^ suc k - 1) % 2 ≡ 1 = omega (arith, pow-suc 2 k, one-le-pow k 2) in
    let step : bit_and a (2 ^ suc k - 1) ≡ bit_and (a / 2) (2 ^ k - 1) * 2 + min (a % 2) 1 =
      rw (bit_and_step a (2 ^ suc k - 1), half, odd) refl in
    omega (
      arith,
      step,
      bit_and_low k (a / 2),
      mod_double a (2 ^ k) (one-le-pow k 2 (omega arith)),
      ap (λ t. a % t) (pow-suc 2 k),
    )

pub index_lem : (p : Pid) → index p ≡ p % 2 ^ 32
unfolding index
index_lem p = bit_and_low 32 p

pub new_lem : (i g : ℕ) → i < 2 ^ 32 → g < 2 ^ 32 → new i g ≡ i + g * 2 ^ 32
unfolding new
new_lem i g hi hg =
    let whole : g * 2 ^ 32 % 2 ^ 64 ≡ g * 2 ^ 32 = omega arith in rw whole (bit_or_high 32 i g hi)

-- A `Pid` gives back the index and the generation that it was made of.
pub index-generation-new :
    (i g : ℕ) → i < 2 ^ 32 → g < 2 ^ 32 → (index (new i g) ≡ i) × (generation (new i g) ≡ g)
unfolding generation
index-generation-new i g hi hg =
    let e = new_lem i g hi hg in (index_lem (new i g) ∙ omega (arith, e), omega (arith, e))

-- A `Pid` is determined by its index and its generation.
pub new-index-generation : (p : Pid) → p < 2 ^ 64 → new (index p) (generation p) ≡ p
unfolding generation
new-index-generation p h =
    rw (new_lem (index p) (p / 2 ^ 32 % 2 ^ 32) (omega (arith, index_lem p)) (omega arith))
      (omega (arith, index_lem p))
