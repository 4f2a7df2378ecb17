-- ===== src/Syscall/Transfer.antt =====
-- kernel/src/arch/x86_64/syscall.rs: `copy_into_user_range`. The bytes of
-- the process's memory are a function of the address; a page that is mapped has a frame of its own.
use tarn_os.Prelude.{
  ℕ, zero, suc, ◌+◌, ◌*◌, ◌/◌, ◌%◌, ◌^◌, ◌-◌, ◌≡◌, ◌<◌, ◌≤◌, refl, subst, ◌∙◌, true, ◌&&◌, Option,
  none, some, List, get_or, length, ltb, leb, if◌then◌else◌, min, max, arith, Bool-cases, inl, inr,
  ◌⊎◌,
}
use tarn_os.Syscall.Range.{
  PageTable, Checked, ends_at, invalid, crashes, spins, page_fits, validate_write_range, Verdict,
  writable, validate_write_range-Verdict, next_whole,
}

module _ (table : PageTable) where
  -- The part of `src` that falls in the page at `page_addr`.
  abbrev pub chunk_written : ℕ → ℕ → ℕ → List ℕ → (ℕ → ℕ) → ℕ → ℕ
  chunk_written page_addr end ptr src bytes a =
      let copy_start = max ptr page_addr in
      let copy_end = min end (min (page_addr + 4096) (2 ^ 64 - 1)) in
      if leb copy_start a && ltb a copy_end then get_or src (a - ptr) 0 else bytes a

  -- `none` is a panic, or the loop out of fuel.
  unfoldable pub copy_pages : ℕ → ℕ → ℕ → ℕ → List ℕ → (ℕ → ℕ) → Option (ℕ → ℕ)
  copy_pages zero page_addr end ptr src bytes = none
  copy_pages (suc fuel) page_addr end ptr src bytes =
      let rest =
        copy_pages fuel (min (page_addr + 4096) (2 ^ 64 - 1)) end ptr src
          (chunk_written page_addr end ptr src bytes) in
      if ltb page_addr end then if page_fits table page_addr then rest else none else some bytes

  unfoldable pub copy_into_user_range : ℕ → List ℕ → (ℕ → ℕ) → Option (ℕ → ℕ)
  unfolding copy_pages
  copy_into_user_range ptr src bytes =
      copy_pages (length src / 4096 + 3) (ptr / 4096 * 4096) (ptr + length src) ptr src bytes

  -- The bytes of `src` at `ptr` and the old ones elsewhere.
  abbrev pub laid : ℕ → List ℕ → (ℕ → ℕ) → ℕ → ℕ
  laid ptr src bytes a =
      if leb ptr a && ltb a (ptr + length src) then get_or src (a - ptr) 0 else bytes a

  copy_pages-laid :
      (fuel page end ptr : ℕ) (src : List ℕ) (bytes : ℕ → ℕ)
      → end < 2 ^ 64
      → (page % 4096 ≡ 0) ⊎ (end ≤ page)
      → 0 < fuel
      → end + 4096 ≤ page + 4096 * fuel
      → ((a : ℕ) → page ≤ a → a < end → page_fits table (a / 4096 * 4096) ≡ true)
      → (after : ℕ → ℕ) × (copy_pages fuel page end ptr src bytes ≡ some after)
        × ((a : ℕ)
            → after a
              ≡ (if leb (max ptr page) a && ltb a end then get_or src (a - ptr) 0 else bytes a))
  unfolding copy_pages
  copy_pages-laid zero page end ptr src bytes small whole some_fuel enough fits =
      absurd (omega arith)
  copy_pages-laid (suc fuel) page end ptr src bytes small whole some_fuel enough fits =
      elim (Bool-cases (ltb page end)) [
        | inr e ↦ (bytes, rw e refl, λ a. ground (arith, e))
        | inl e ↦
            let before : page < end = ground (arith, e) in
            let aligned : page % 4096 ≡ 0 = omega (arith, whole, before) in
            let here : page_fits table page ≡ true =
              subst (λ k. page_fits table k ≡ true) (omega (arith, aligned))
                (fits page (omega arith) before) in
            let (after, done, same) =
              copy_pages-laid fuel (min (page + 4096) (2 ^ 64 - 1)) end ptr src
                (chunk_written page end ptr src bytes) small
                (next_whole table page end aligned small) (omega arith) (omega arith)
                (λ a low high. fits a (omega arith) high) in
            (after, rw (e, here) done, λ a. same a ∙ ground (arith, before, small))
      ]

  fits_word :
      (ptr len : ℕ) → validate_write_range table ptr len ≡ ends_at (ptr + len) → ptr + len < 2 ^ 64
  unfolding validate_write_range
  fits_word ptr len e = elim (Bool-cases (leb (2 ^ 64) (ptr + len))) [
    | inl big ↦ let bad : invalid ≡ ends_at (ptr + len) = rw big at e in cc bad
    | inr small ↦ ground (arith, small)
  ]

  passed :
      (start end : ℕ) (r : Checked)
      → r ≡ ends_at end
      → Verdict table start end r
      → (a : ℕ) → start ≤ a
      → a < end
      → page_fits table (a / 4096 * 4096) ≡ true
  passed start end (ends_at _) e (writable h) = h
  passed start end invalid e v = cc
  passed start end crashes e v = cc
  passed start end spins e v = cc

  -- A copy of no more bytes than were checked ends, does not panic, and writes the bytes and nothing else.
  pub copy_into_user_range-laid :
      (ptr len : ℕ) (src : List ℕ) (bytes : ℕ → ℕ)
      → validate_write_range table ptr len ≡ ends_at (ptr + len)
      → length src ≤ len
      → (after : ℕ → ℕ) × (copy_into_user_range ptr src bytes ≡ some after)
        × ((a : ℕ) → after a ≡ laid ptr src bytes a)
  unfolding copy_into_user_range
  copy_into_user_range-laid ptr len src bytes e short =
      let end = ptr + length src in
      let fits =
        passed (ptr / 4096 * 4096) (ptr + len) (validate_write_range table ptr len) e
          (validate_write_range-Verdict table ptr len) in
      let (after, done, same) =
        copy_pages-laid (length src / 4096 + 3) (ptr / 4096 * 4096) end ptr src bytes
          (omega (arith, fits_word ptr len e, short)) (inl (omega arith)) (omega arith)
          (omega arith) (λ a low high. fits a low (omega (arith, high, short))) in
      (after, done, λ a. same a ∙ ground arith)
