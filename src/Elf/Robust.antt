-- ===== src/Elf/Robust.antt =====
-- No image makes the loader panic.
use tarn_os.Prelude.{
  ℕ, zero, suc, ◌+◌, ◌*◌, ◌^◌, ◌≡◌, ◌≢◌, ◌≤◌, refl, sym, subst, ap, ◌∙◌, Bool, true, not, ◌||◌,
  List, Option, none, some, ◌==◌, ltb, leb, get_or, length, arith, Bool-cases, inl, inr, take, drop,
}
use native.Mathlib.Nat.{mul-le-mul_right}
use tarn_os.Prelude.Bytes.{from_le}
use tarn_os.Elf.{
  ProgramHeader, Space, Mapper, Loading, panics, fails, done, read, then_do, load_segment,
}
use tarn_os.Elf.Segment.{Loads, load_segment-Loads}
use tarn_os.Elf.Load.{
  crashes, read_header, FileHeader, read_file_header, load_header, load_headers, entered,
  load_checked, has_magic, load,
}

read-some :
    (n off : ℕ) (image : List ℕ) → off + n ≤ length image → (w : ℕ) × (read n image off ≡ some w)
unfolding read
read-some n off image h =
    let fits : leb (off + n) (length image) ≡ true = ground (arith, h) in
    (from_le (take n (drop off image)), rw (fits, read) refl)

read_header-some :
    (image : List ℕ) (base : ℕ)
    → base + 48 ≤ length image
    → (phdr : ProgramHeader) × (read_header image base ≡ some phdr)
unfolding read_header
read_header-some image base h =
    let (u, a) = read-some 4 base image (omega arith) in
    let (v, b) = read-some 4 (base + 4) image (omega arith) in
    let (w, c) = read-some 8 (base + 8) image (omega arith) in
    let (x, d) = read-some 8 (base + 16) image (omega arith) in
    let (y, e) = read-some 8 (base + 32) image (omega arith) in
    let (z, f) = read-some 8 (base + 40) image (omega arith) in
    (
      record { p_type = u; p_flags = v; p_offset = w; p_vaddr = x; p_filesz = y; p_memsz = z },
      rw (a, b, c, d, e, f) refl,
    )

read_file_header-some :
    (image : List ℕ)
    → 64 ≤ length image
    → (header : FileHeader) × (read_file_header image ≡ some header)
unfolding read_file_header
read_file_header-some image h =
    let (u, a) = read-some 2 16 image (omega arith) in
    let (v, b) = read-some 2 18 image (omega arith) in
    let (w, c) = read-some 8 24 image (omega arith) in
    let (x, d) = read-some 8 32 image (omega arith) in
    let (y, e) = read-some 2 54 image (omega arith) in
    let (z, f) = read-some 2 56 image (omega arith) in
    (
      record { e_type = u; e_machine = v; e_entry = w; e_phoff = x; e_phentsize = y; e_phnum = z },
      rw (a, b, c, d, e, f) refl,
    )

Loads-no_panic :
    (phdr : ProgramHeader) (image : List ℕ) (s : Space) (r : Loading)
    → Loads phdr image s r
    → r ≢ panics
Loads-no_panic phdr image s panics bad e = elim bad [ ]
Loads-no_panic phdr image s (fails x) h e = cc
Loads-no_panic phdr image s (done t) h e = cc

then_do-no_panic :
    (r : Loading) (f : Space → Loading)
    → r ≢ panics
    → ((s : Space) → f s ≢ panics)
    → then_do r f ≢ panics
then_do-no_panic panics f a b e = a refl
then_do-no_panic (fails x) f a b e = cc
then_do-no_panic (done s) f a b e = b s e

load_header-no_panic :
    (mapper : Mapper) (image : List ℕ) (s : Space) (phdr : ProgramHeader)
    → load_header mapper image s (some phdr) ≢ panics
load_header-no_panic mapper image s phdr =
    elim (Bool-cases (not (phdr.p_type == 1) || phdr.p_memsz == 0)) [
      | inl e ↦ rw e (λ bad. cc)
      | inr e ↦ rw e (
          Loads-no_panic phdr image s (load_segment mapper phdr image s)
            (load_segment-Loads mapper phdr image s (ground (arith, e))))
    ]

load_headers-no_panic :
    (mapper : Mapper) (image : List ℕ) (header : FileHeader) (rounds i : ℕ) (s : Space)
    → i + rounds ≤ header.e_phnum
    → 56 ≤ header.e_phentsize
    → header.e_phoff + header.e_phnum * header.e_phentsize ≤ length image
    → load_headers mapper image header rounds i s ≢ panics
unfolding load_headers
load_headers-no_panic mapper image header zero i s h size whole = λ e. cc
load_headers-no_panic mapper image header (suc rounds) i s h size whole =
    let base = header.e_phoff + i * header.e_phentsize in
    let room : (i + 1) * header.e_phentsize ≤ header.e_phnum * header.e_phentsize =
      mul-le-mul_right header.e_phentsize (omega arith) in
    let (phdr, found) = read_header-some image base (omega (arith, room, whole, size)) in
    then_do-no_panic (load_header mapper image s (read_header image base))
      (load_headers mapper image header rounds (i + 1))
      (subst (λ o. load_header mapper image s o ≢ panics) (sym found)
        (load_header-no_panic mapper image s phdr))
      (λ t. load_headers-no_panic mapper image header rounds (i + 1) t (omega arith) size whole)

-- The entry point that the header of an image names.
abbrev pub entry_of : Option FileHeader → ℕ
entry_of none = 0
entry_of (some header) = header.e_entry

entered-no_crash :
    (canonical : ℕ → Bool) (entry : ℕ) (r : Loading)
    → canonical entry ≡ true
    → r ≢ panics
    → entered canonical entry r ≢ crashes
entered-no_crash canonical entry panics c h = λ e. h refl
entered-no_crash canonical entry (fails x) c h = λ e. cc
entered-no_crash canonical entry (done s) c h = rw c (λ e. cc)

load_checked-no_crash :
    (canonical : ℕ → Bool) (mapper : Mapper) (image : List ℕ) (s : Space) (header : FileHeader)
    → canonical header.e_entry ≡ true
    → load_checked canonical mapper image s (some header) ≢ crashes
load_checked-no_crash canonical mapper image s header c =
    let phdrs_end = header.e_phoff + header.e_phnum * header.e_phentsize in
    elim (Bool-cases (not (header.e_type == 2))) [
      | inl e ↦ rw e (λ x. cc)
      | inr a ↦ elim (Bool-cases (not (header.e_machine == 62))) [
        | inl e ↦ rw (a, e) (λ x. cc)
        | inr b ↦ elim (Bool-cases (ltb header.e_phentsize 56)) [
          | inl e ↦ rw (a, b, e) (λ x. cc)
          | inr d ↦ elim (Bool-cases (leb (2 ^ 64) phdrs_end || ltb (length image) phdrs_end)) [
            | inl e ↦ rw (a, b, d, e) (λ x. cc)
            | inr e ↦
                rw (a, b, d, e)
                  (entered-no_crash canonical header.e_entry _ c (
                    load_headers-no_panic mapper image header header.e_phnum 0 s (omega arith)
                      (ground (arith, d)) (ground (arith, e))))
          ]
        ]
      ]
    ]

-- For no image, however malformed, and no mapper does `load` panic, if `VirtAddr::new` accepts the entry
-- point that the header names: no slice is out of range, and no byte is copied to a page that was not mapped.
pub load-no_crash :
    (canonical : ℕ → Bool) (mapper : Mapper) (image : List ℕ) (s : Space)
    → canonical (entry_of (read_file_header image)) ≡ true
    → load canonical mapper image s ≢ crashes
unfolding load
load-no_crash canonical mapper image s c = elim (Bool-cases (ltb (length image) 64)) [
  | inl e ↦ rw e (λ x. cc)
  | inr a ↦ elim (Bool-cases (not (has_magic image))) [
    | inl e ↦ rw (a, e) (λ x. cc)
    | inr b ↦ elim (Bool-cases (not (get_or image 4 0 == 2))) [
      | inl e ↦ rw (a, b, e) (λ x. cc)
      | inr d ↦ elim (Bool-cases (not (get_or image 5 0 == 1))) [
        | inl e ↦ rw (a, b, d, e) (λ x. cc)
        | inr e ↦
            let (header, found) = read_file_header-some image (ground (arith, a)) in
            rw (a, b, d, e)
              (subst (λ o. load_checked canonical mapper image s o ≢ crashes) (sym found)
                (load_checked-no_crash canonical mapper image s header
                  (ap (λ o. canonical (entry_of o)) (sym found) ∙ c)))
      ]
    ]
  ]
]
