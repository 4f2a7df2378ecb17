-- ===== src/Elf/Copy.antt =====
-- The copy of a file's bytes, page by page, writes each byte once at its address and ends.
use native.Mathlib.Decide.{dec_lt}
use tarn_os.Prelude.{
  ℕ, zero, suc, ◌+◌, ◌-◌, ◌/◌, ◌%◌, ◌≡◌, ◌<◌, ◌≤◌, refl, subst, ap, ◌∙◌, true, List, [], ◌∷◌,
  get_or, length, drop, length-drop, min, arith,
}
use tarn_os.Elf.{Space, done, is_mapped, written, copy_file}

-- The bytes of `s` with those of `bytes` laid over them from `vaddr` on.
abbrev pub overlaid : Space → ℕ → List ℕ → Space
overlaid s vaddr bytes = written s vaddr (length bytes) bytes

pub get_or-drop : (n i : ℕ) (xs : List ℕ) → get_or (drop n xs) i 0 ≡ get_or xs (n + i) 0
get_or-drop zero i xs = ap (λ k. get_or xs k 0) (omega arith)
get_or-drop (suc n) i [] = refl
get_or-drop (suc n) i (x ∷ xs) =
    get_or-drop n i xs
    ∙ ap (λ k. get_or (x ∷ xs) k 0) (let e : suc (n + i) ≡ suc n + i = omega arith in e)

-- A first part and the rest are laid over a space as the whole is.
joined :
    (s : Space) (vaddr n a : ℕ) (bytes : List ℕ)
    → n ≤ length bytes
    → (overlaid (written s vaddr n bytes) (vaddr + n) (drop n bytes)).bytes a
      ≡ (overlaid s vaddr bytes).bytes a
joined s vaddr n a bytes h = elim (dec_lt a (vaddr + n)) [
  | yes low ↦ ground (arith, low, length-drop n bytes)
  | no high ↦
      let there : get_or (drop n bytes) (a - (vaddr + n)) 0 ≡ get_or bytes (a - vaddr) 0 =
        get_or-drop n (a - (vaddr + n)) bytes ∙ ap (λ k. get_or bytes k 0) (omega arith) in
      ground (arith, high, length-drop n bytes, there)
]

-- A copy into pages that are mapped ends, and lays the bytes over the space.
pub copy_file-overlaid :
    (fuel vaddr : ℕ) (bytes : List ℕ) (s : Space)
    → length bytes ≤ fuel
    → ((k : ℕ) → k < length bytes → is_mapped ((vaddr + k) / 4096) s.pages ≡ true)
    → (t : Space) × (copy_file fuel vaddr bytes s ≡ done t)
      × (t.pages ≡ s.pages)
      × ((a : ℕ) → t.bytes a ≡ (overlaid s vaddr bytes).bytes a)
unfolding copy_file
copy_file-overlaid fuel vaddr [] s h all = (s, refl, refl, λ a. ground arith)
copy_file-overlaid zero vaddr (b ∷ bs) s h all = absurd (omega arith)
copy_file-overlaid (suc fuel) vaddr (b ∷ bs) s h all =
    let n = min (length (b ∷ bs)) (4096 - vaddr % 4096) in
    let some_bytes : 0 < n = omega arith in
    let first : is_mapped (vaddr / 4096) s.pages ≡ true =
      subst (λ a. is_mapped (a / 4096) s.pages ≡ true) (omega arith) (all 0 (omega arith)) in
    let (t, e, pages, same) =
      copy_file-overlaid fuel (vaddr + n) (drop n (b ∷ bs)) (written s vaddr n (b ∷ bs))
        (omega (arith, length-drop n (b ∷ bs)))
        (λ k l.
          subst (λ a. is_mapped (a / 4096) s.pages ≡ true) (omega arith)
            (all (n + k) (omega (arith, length-drop n (b ∷ bs))))) in
    (t, rw first e, pages, λ a. same a ∙ joined s vaddr n a (b ∷ bs) (omega arith))
