-- ===== src/Elf/Segment.antt =====
-- A segment that is loaded has the file's bytes, then zeros, in pages of the user's part of memory.
use tarn_os.Prelude.{
  ℕ, zero, suc, ◌+◌, ◌-◌, ◌/◌, ◌^◌, ◌≡◌, ◌<◌, ◌≤◌, refl, ap, ◌∙◌, Bool, true, ◌&&◌, ◌||◌, List, [],
  ◌∷◌, ◌==◌, ltb, leb, if◌then◌else◌, get_or, length, take, drop, length-drop, length-take, arith,
  Bool-cases, inl, inr, ◌⊎◌,
}
use tarn_os.Elf.{
  ElfError, ProgramHeader, user_space_min, user_space_max, Space, Answer, no_frame, refused, mapped,
  Mapper, Loading, fails, done, zeroed, answered, then_do, map_pages, is_mapped, copy_segment,
  segment_flags, load_segment,
}
use tarn_os.Elf.Copy.{overlaid, get_or-drop, copy_file-overlaid}

-- The pages `first`, …, `first + rounds - 1` are mapped and zero, and the rest is as it was.
data Maps (first rounds : ℕ) (s : Space) : Loading → Type 0 where
  stopped : (e : ElfError) → Maps first rounds s (fails e)
  all :
      (t : Space)
      → ((a : ℕ)
          → t.bytes a
            ≡ (if leb first (a / 4096) && ltb (a / 4096) (first + rounds) then 0 else s.bytes a))
      → ((page : ℕ) → first ≤ page → page < first + rounds → is_mapped page t.pages ≡ true)
      → ((page : ℕ) → is_mapped page s.pages ≡ true → is_mapped page t.pages ≡ true)
      → Maps first rounds s (done t)

map_pages-Maps :
    (mapper : Mapper) (flags : Bool × Bool) (rounds first : ℕ) (s : Space)
    → Maps first rounds s (map_pages mapper flags rounds first s)
unfolding map_pages
map_pages-Maps mapper flags zero first s =
    all s (λ a. ground arith) (λ page low high. absurd (omega arith)) (λ page h. h)
map_pages-Maps mapper flags (suc rounds) first s =
    here (mapper.map_to s.pages first flags)
      (map_pages-Maps mapper flags rounds (first + 1) (zeroed s first))
  where
    widen : (r : Loading) → Maps (first + 1) rounds (zeroed s first) r → Maps first (suc rounds) s r
    widen r (stopped e) = stopped e
    widen r (all t zeros new old) =
        all t (λ a. zeros a ∙ ground arith)
          (λ page low high. elim (Bool-cases (first == page)) [
            | inl e ↦ old page (rw e refl)
            | inr e ↦ new page (ground (arith, e)) (omega arith)
          ])
          (λ page h.
            old page (elim (Bool-cases (first == page)) [ inl e ↦ rw e refl | inr e ↦ rw e h ]))

    here :
        (answer : Answer)
        → Maps
            (first + 1)
            rounds
            (zeroed s first)
            (map_pages mapper flags rounds (first + 1) (zeroed s first))
        → Maps first
            (suc rounds)
            s
            (then_do (answered s first answer) (map_pages mapper flags rounds (first + 1)))
    here no_frame after = stopped ElfError.out_of_memory
    here refused after = stopped ElfError.map_failed
    here mapped after = widen _ after

get_or-take : (n i : ℕ) (xs : List ℕ) → i < n → get_or (take n xs) i 0 ≡ get_or xs i 0
get_or-take zero i xs h = absurd (omega arith)
get_or-take (suc n) i [] h = refl
get_or-take (suc n) zero (x ∷ xs) h = refl
get_or-take (suc n) (suc i) (x ∷ xs) h = get_or-take n i xs (omega arith)

-- What a segment is loaded as: rejected with an error, or in the user's part of memory, with its bytes
-- of the file, then zeros, and the rest of memory, outside its pages, as before.
pub data Loads (phdr : ProgramHeader) (image : List ℕ) (s : Space) : Loading → Type 0 where
  rejected : (e : ElfError) → Loads phdr image s (fails e)
  loaded :
      (t : Space)
      → user_space_min ≤ phdr.p_vaddr
      → phdr.p_vaddr + phdr.p_memsz ≤ user_space_max
      → phdr.p_offset + phdr.p_filesz ≤ length image
      → ((k : ℕ)
          → k < phdr.p_filesz
          → t.bytes (phdr.p_vaddr + k) ≡ get_or image (phdr.p_offset + k) 0)
      → ((k : ℕ) → phdr.p_filesz ≤ k → k < phdr.p_memsz → t.bytes (phdr.p_vaddr + k) ≡ 0)
      → ((a : ℕ) → a / 4096 < phdr.p_vaddr / 4096 → t.bytes a ≡ s.bytes a)
      → ((a : ℕ) → (phdr.p_vaddr + phdr.p_memsz - 1) / 4096 < a / 4096 → t.bytes a ≡ s.bytes a)
      → Loads phdr image s (done t)

module _ (phdr : ProgramHeader) (image : List ℕ) (s : Space) (low : user_space_min ≤ phdr.p_vaddr)
    (high : phdr.p_vaddr + phdr.p_memsz ≤ user_space_max) (part : phdr.p_filesz ≤ phdr.p_memsz)
    (file : phdr.p_offset + phdr.p_filesz ≤ length image) (some_bytes : 0 < phdr.p_memsz) where
  abbrev content : List ℕ
  content = take phdr.p_filesz (drop phdr.p_offset image)

  length_content : length content ≡ phdr.p_filesz
  length_content = omega (
    arith,
    length-take phdr.p_filesz (drop phdr.p_offset image),
    length-drop phdr.p_offset image,
    file,
  )

  content_at : (k : ℕ) → k < phdr.p_filesz → get_or content k 0 ≡ get_or image (phdr.p_offset + k) 0
  content_at k h =
      get_or-take phdr.p_filesz k (drop phdr.p_offset image) h ∙ get_or-drop phdr.p_offset k image

  inside :
      (k : ℕ)
      → k < phdr.p_filesz
      → (m : Space)
      → (overlaid m phdr.p_vaddr content).bytes (phdr.p_vaddr + k)
        ≡ get_or image (phdr.p_offset + k) 0
  inside k h m =
      let there : get_or content (phdr.p_vaddr + k - phdr.p_vaddr) 0
          ≡ get_or image (phdr.p_offset + k) 0 =
        ap (λ i. get_or content i 0) (omega arith) ∙ content_at k h in
      ground (arith, length_content, h, there)

  outside :
      (a : ℕ) (m : Space)
      → (a < phdr.p_vaddr) ⊎ (phdr.p_vaddr + phdr.p_filesz ≤ a)
      → (overlaid m phdr.p_vaddr content).bytes a ≡ m.bytes a
  outside a m (inl h) = ground (arith, length_content, h)
  outside a m (inr h) = ground (arith, length_content, h)

  copied-Loads :
      (r : Loading)
      → Maps
          (phdr.p_vaddr / 4096)
          ((phdr.p_vaddr + phdr.p_memsz - 1) / 4096 + 1 - phdr.p_vaddr / 4096)
          s
          r
      → Loads phdr image s (then_do r (copy_segment phdr image))
  copied-Loads r (stopped e) = rejected e
  copied-Loads r (all m zeros new old) =
      let fits : leb (phdr.p_offset + phdr.p_filesz) (length image) ≡ true = ground (arith, file) in
      let (t, e, _, same) =
        copy_file-overlaid (length content) phdr.p_vaddr content m (omega arith) (λ k h.
          new ((phdr.p_vaddr + k) / 4096) (omega arith)
            (omega (arith, length_content, part, h, some_bytes))) in
      rw (fits, e)
        (loaded t low high file (λ k h. same (phdr.p_vaddr + k) ∙ inside k h m)
          (λ k h l.
            same (phdr.p_vaddr + k)
            ∙ outside (phdr.p_vaddr + k) m (inr (omega arith))
            ∙ zeros (phdr.p_vaddr + k)
            ∙ ground (arith, l, low, some_bytes))
          (λ a h. same a ∙ outside a m (inl (omega arith)) ∙ zeros a ∙ ground (arith, h))
          (λ a h.
            same a
            ∙ outside a m (inr (omega (arith, part, some_bytes)))
            ∙ zeros a
            ∙ ground (arith, h)))

-- A segment of at least one byte is rejected with an error, or loaded: it is in the user's part of memory, its
-- bytes are those of the file and then zeros, and memory outside its pages is as before. Loading it
-- never panics, however malformed the header is, and for every mapper.
pub load_segment-Loads :
    (mapper : Mapper) (phdr : ProgramHeader) (image : List ℕ) (s : Space)
    → 0 < phdr.p_memsz
    → Loads phdr image s (load_segment mapper phdr image s)
unfolding load_segment
load_segment-Loads mapper phdr image s some_bytes =
    let seg_end = phdr.p_vaddr + phdr.p_memsz in
    let file_end = phdr.p_offset + phdr.p_filesz in
    let first = phdr.p_vaddr / 4096 in
    elim (Bool-cases
      (leb (2 ^ 64) seg_end || ltb phdr.p_vaddr user_space_min || ltb user_space_max seg_end)) [
        | inl e ↦ rw e (rejected ElfError.segment_out_of_range)
        | inr a ↦ elim (Bool-cases (ltb phdr.p_memsz phdr.p_filesz)) [
          | inl e ↦ rw (a, e) (rejected ElfError.segment_out_of_range)
          | inr b ↦ elim (Bool-cases (leb (2 ^ 64) file_end || ltb (length image) file_end)) [
            | inl e ↦ rw (a, b, e) (rejected ElfError.segment_exceeds_file)
            | inr c ↦
                rw (a, b, c)
                  (copied-Loads phdr image s (ground (arith, a)) (ground (arith, a))
                    (ground (arith, b)) (ground (arith, c)) some_bytes _
                    (map_pages-Maps mapper (segment_flags phdr.p_flags)
                      ((seg_end - 1) / 4096 + 1 - first) first s))
          ]
        ]
      ]
