-- ===== src/Syscall/Range.antt =====
-- kernel/src/arch/x86_64/syscall.rs: `validate_write_range`, the check of a user's buffer. The walk of the
-- page table and the test on its flags are the kernel's and the crate x86_64's, and parameters.
use native.Mathlib.Decide.{dec_lt}
use tarn_os.Prelude.{
  refl, ◌&&◌, ℕ, zero, suc, ◌+◌, ◌*◌, ◌/◌, ◌%◌, ◌^◌, ◌-◌, ◌≡◌, ◌<◌, ◌≤◌, subst, ap, ◌∙◌, Bool, true,
  false, Option, none, some, ltb, leb, if◌then◌else◌, min, arith, Bool-cases, inl, inr, ◌⊎◌,
}

-- `canonical` is the test of `VirtAddr::new`, which panics where it fails; `translate` gives a page's flags.
pub record PageTable : Type 0 where
  pub canonical : ℕ → Bool
  pub translate : ℕ → Option ℕ
  pub contains_required : ℕ → Bool

-- The buffer's end, or the error `InvalidArgument`, or a panic; `spins` is the loop out of fuel.
pub data Checked : Type 0 where
  ends_at : ℕ → Checked
  invalid crashes spins : Checked

module _ (table : PageTable) where
  abbrev pub flags_fit : Option ℕ → Bool
  flags_fit none = false
  flags_fit (some flags) = table.contains_required flags

  -- A page that the check lets pass.
  abbrev pub page_fits : ℕ → Bool
  page_fits page = table.canonical page && flags_fit (table.translate page)

  unfoldable pub check_pages : ℕ → ℕ → ℕ → Checked
  check_pages zero page_addr end = spins
  check_pages (suc fuel) page_addr end =
      let rest = check_pages fuel (min (page_addr + 4096) (2 ^ 64 - 1)) end in
      if ltb page_addr end
      then if table.canonical page_addr
        then if flags_fit (table.translate page_addr) then rest else invalid
        else crashes
      else ends_at end

  unfoldable pub validate_write_range : ℕ → ℕ → Checked
  unfolding check_pages
  validate_write_range ptr len =
      let end = ptr + len in
      if leb (2 ^ 64) end then invalid else check_pages (len / 4096 + 3) (ptr / 4096 * 4096) end

  -- What an answer says of the pages of the bytes from `start` to `end`.
  pub data Verdict (start end : ℕ) : Checked → Type 0 where
    writable :
        ((a : ℕ) → start ≤ a → a < end → page_fits (a / 4096 * 4096) ≡ true)
        → Verdict start end (ends_at end)
    refused_at :
        (page : ℕ)
        → start < page + 4096
        → page < end
        → flags_fit (table.translate page) ≡ false
        → Verdict start end invalid
    crashed_at :
        (page : ℕ)
        → start < page + 4096
        → page < end
        → table.canonical page ≡ false
        → Verdict start end crashes
    overflows : 2 ^ 64 ≤ end → Verdict start end invalid

  pub next_whole :
      (page end : ℕ)
      → page % 4096 ≡ 0
      → end < 2 ^ 64
      → (min (page + 4096) (2 ^ 64 - 1) % 4096 ≡ 0) ⊎ (end ≤ min (page + 4096) (2 ^ 64 - 1))
  next_whole page end whole small = elim (dec_lt (page + 4096) (2 ^ 64)) [
    | yes h ↦ inl (
        let e : min (page + 4096) (2 ^ 64 - 1) ≡ page + 4096 = omega arith in
        ap (λ k. k % 4096) e ∙ omega (arith, whole))
    | no h ↦ inr (omega arith)
  ]

  -- The first page passed, and the verdict on the rest is one on the whole.
  widen :
      (page end : ℕ)
      → page < end
      → page % 4096 ≡ 0
      → page_fits page ≡ true
      → end < 2 ^ 64
      → (r : Checked) → Verdict (min (page + 4096) (2 ^ 64 - 1)) end r
      → Verdict page end r
  widen page end before whole fits small (ends_at _) (writable h) = writable (λ a low high.
      elim (dec_lt a (page + 4096)) [
        | yes here ↦
            let same : page ≡ a / 4096 * 4096 = omega (arith, whole) in
            subst (λ k. page_fits k ≡ true) same fits
        | no later ↦ h a (omega arith) high
      ])
  widen page end before whole fits small invalid (refused_at q s l f) =
      refused_at q (omega arith) l f
  widen page end before whole fits small crashes (crashed_at q s l f) =
      crashed_at q (omega arith) l f
  widen page end before whole fits small invalid (overflows h) = overflows h
  widen page end before whole fits small spins bad = elim bad [ ]

  check_pages-Verdict :
      (fuel page end : ℕ)
      → end < 2 ^ 64
      → (page % 4096 ≡ 0) ⊎ (end ≤ page)
      → 0 < fuel
      → end + 4096 ≤ page + 4096 * fuel
      → Verdict page end (check_pages fuel page end)
  unfolding check_pages
  check_pages-Verdict zero page end small whole some_fuel enough = absurd (omega arith)
  check_pages-Verdict (suc fuel) page end small whole some_fuel enough =
      elim (Bool-cases (ltb page end)) [
        | inr e ↦ rw e (writable (λ a low high. absurd (ground (arith, e))))
        | inl e ↦ elim (Bool-cases (table.canonical page)) [
          | inr c ↦ rw (e, c) (crashed_at page (omega arith) (ground (arith, e)) c)
          | inl c ↦ elim (Bool-cases (flags_fit (table.translate page))) [
            | inr f ↦ rw (e, c, f) (refused_at page (omega arith) (ground (arith, e)) f)
            | inl f ↦
                let before : page < end = ground (arith, e) in
                let both : page_fits page ≡ true = rw (c, f) refl in
                rw (e, c, f)
                  (widen page end before (omega (arith, whole, before)) both small
                    (check_pages fuel (min (page + 4096) (2 ^ 64 - 1)) end)
                    (check_pages-Verdict fuel (min (page + 4096) (2 ^ 64 - 1)) end small
                      (next_whole page end (omega (arith, whole, before)) small) (omega arith)
                      (omega arith)))
          ]
        ]
      ]

  -- The check of a user's buffer always ends. It answers the buffer's end only if every byte is in a page with
  -- the required flags; it is refused only if the end overflows or a page of the buffer lacks them; and
  -- it panics only at a page of the buffer whose address is not canonical.
  pub validate_write_range-Verdict :
      (ptr len : ℕ) → Verdict (ptr / 4096 * 4096) (ptr + len) (validate_write_range ptr len)
  unfolding validate_write_range
  validate_write_range-Verdict ptr len = elim (Bool-cases (leb (2 ^ 64) (ptr + len))) [
    | inl e ↦ rw e (overflows (ground (arith, e)))
    | inr e ↦ rw e (
        check_pages-Verdict (len / 4096 + 3) (ptr / 4096 * 4096) (ptr + len) (ground (arith, e))
          (inl (omega arith)) (omega arith) (omega arith))
  ]
