-- ===== src/Kcore/Bitmap/Range.antt =====
-- `usable_frame_range` names the frames that lie wholly inside a byte range.
use native.Mathlib.Decide.{dec_le}
use native.Mathlib.Nat.{le-div_iff_mul-le, div-lt_iff_lt-mul, div-add-mod', mul-mod_left}
use tarn_os.Prelude.{
  ℕ, none, some, leb, ◌||◌, ◌==◌, Bool-cases, inl, inr, ◌+◌, ◌*◌, ◌/◌, ◌%◌, ◌^◌, ◌≤◌, ◌<◌, ◌≡◌, ◌≢◌,
  ◌↔◌, ap, ◌∙◌, arith, ℕ_discrete, ==_iff, ==_ne,
}
use tarn_os.Kcore.Bitmap.{div_ceil, usable_frame_range}

exact_up : (base size i : ℕ) → base % size ≡ 0 → base / size ≤ i → base ≤ i * size
exact_up base size i e h = grind (arith, div-add-mod' base size)

exact_down : (base size i : ℕ) → 0 < size → base ≤ i * size → base / size ≤ i
exact_down base size i pos h = elim (dec_le (base / size) i) [
  | yes p ↦ p
  | no p ↦
      absurd
        (grind (arith, (le-div_iff_mul-le {k = size} {x = i + 1} {y = base} pos).0 (omega arith)))
]

ragged_up : (base size i : ℕ) → 0 < size → base / size + 1 ≤ i → base ≤ i * size
ragged_up base size i pos h =
    omega (arith, (div-lt_iff_lt-mul {k = size} {x = base} {y = i} pos).0 (omega arith))

ragged_down : (base size i : ℕ) → 0 < size → base % size ≢ 0 → base ≤ i * size → base / size + 1 ≤ i
ragged_down base size i pos ne h =
    let apart : base ≢ i * size = λ e. ne (ap (λ t. t % size) e ∙ mul-mod_left i size) in
    omega (arith, (div-lt_iff_lt-mul {k = size} {x = base} {y = i} pos).1 (omega arith))

div_ceil-le_iff : (base size i : ℕ) → 0 < size → (div_ceil base size ≤ i) ↔ (base ≤ i * size)
div_ceil-le_iff base size i pos = elim (ℕ_discrete (base % size) 0) [
  | yes e ↦ rw ((==_iff (base % size) 0).1 e) (exact_up base size i e, exact_down base size i pos)
  | no ne ↦
      rw (==_ne (base % size) 0 ne) (ragged_up base size i pos, ragged_down base size i pos ne)
]

-- Where the range's end fits in 64 bits, frame `i` is in the range exactly when all of its bytes are in
-- `[base, base + length)`.
pub usable_frame_range_iff :
    (base length size i first last : ℕ)
    → usable_frame_range base length size ≡ some (first, last)
    → ((first ≤ i) × (i < last)) ↔ ((base ≤ i * size) × ((i + 1) * size ≤ base + length))
unfolding usable_frame_range
usable_frame_range_iff base length size i first last e =
    elim (Bool-cases (size == 0 || leb (2 ^ 64) (base + length))) [
      | inl bad ↦ let none_there : none ≡ some (first, last) = rw bad at e in absurd (cc none_there)
      | inr fine ↦
          let range : some (div_ceil base size, (base + length) / size) ≡ some (first, last) =
            rw fine at e in
          let start : div_ceil base size ≡ first = cc range in
          let end : (base + length) / size ≡ last = cc range in
          let pos : 0 < size = ground (arith, fine) in
          let (up, down) = div_ceil-le_iff base size i pos in
          let (out, inward) = le-div_iff_mul-le {k = size} {x = i + 1} {y = base + length} pos in
          (
            λ (h, l). (up (omega (arith, h, start)), out (omega (arith, l, end))),
            λ (h, l). (omega (arith, down h, start), omega (arith, inward l, end)),
          )
    ]
