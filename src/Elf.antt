-- ===== src/Elf.antt =====
-- kernel/src/elf.rs: the checks of an image and the loading of its segments. The page tables and the
-- frames are those of the crate x86_64 and of the kernel's allocator: a `Mapper` says how they answer,
-- and a `Space` has the bytes at the addresses of the process and the pages that were mapped for it.
pub mod Copy
pub mod Segment
pub mod Load
pub mod Robust
use tarn_os.Prelude.{
  ℕ, zero, suc, ◌+◌, ◌-◌, ◌*◌, ◌/◌, ◌%◌, ◌^◌, Bool, true, false, not, ◌&&◌, ◌||◌, List, [], ◌∷◌,
  Option, none, some, ◌==◌, ltb, leb, if◌then◌else◌, get_or, length, take, drop, min,
}
use tarn_os.Prelude.Bytes.{from_le}

abbrev pub user_space_min : ℕ
user_space_min = 0x1000

-- `USER_HEAP_START` of task/process.rs.
abbrev pub user_space_max : ℕ
user_space_max = 0x4000_0000

pub data ElfError : Type 0 where
  too_short bad_magic not_elf64 not_little_endian not_executable : ElfError
  wrong_machine segment_out_of_range segment_exceeds_file out_of_memory map_failed : ElfError

pub record ProgramHeader : Type 0 where
  pub p_type : ℕ
  pub p_flags : ℕ
  pub p_offset : ℕ
  pub p_vaddr : ℕ
  pub p_filesz : ℕ
  pub p_memsz : ℕ

-- `n` bytes at `off`, or `none` where the slice is out of range and the code panics.
abbrev pub slice : List ℕ → ℕ → ℕ → Option (List ℕ)
slice image off n = if leb (off + n) (length image) then some (take n (drop off image)) else none

-- `read_u16`, `read_u32` and `read_u64` are this at 2, 4 and 8.
unfoldable pub read : ℕ → List ℕ → ℕ → Option ℕ
read n image off = elim (slice image off n) [ none ↦ none | some bytes ↦ some (from_le bytes) ]

pub record Space : Type 0 where
  pub bytes : ℕ → ℕ
  pub pages : List ℕ

-- How the allocator and the page table answer to a page, given the pages mapped so far.
pub data Answer : Type 0 where
  no_frame refused mapped : Answer

pub record Mapper : Type 0 where
  pub map_to : List ℕ → ℕ → Bool × Bool → Answer

-- What a part of the loading ends in; the first is a panic.
pub data Loading : Type 0 where
  panics : Loading
  fails : ElfError → Loading
  done : Space → Loading

-- A page of zeros.
abbrev pub zeroed : Space → ℕ → Space
zeroed s page = record {
  bytes = λ a. if a / 4096 == page then 0 else s.bytes a;
  pages = page ∷ s.pages;
}

abbrev pub answered : Space → ℕ → Answer → Loading
answered s page no_frame = fails ElfError.out_of_memory
answered s page refused = fails ElfError.map_failed
answered s page mapped = done (zeroed s page)

abbrev pub then_do : Loading → (Space → Loading) → Loading
then_do panics f = panics
then_do (fails e) f = fails e
then_do (done s) f = f s

-- The loop over `Page::range_inclusive`, `rounds` pages from `page` on.
unfoldable pub map_pages : Mapper → Bool × Bool → ℕ → ℕ → Space → Loading
map_pages mapper flags zero page s = done s
map_pages mapper flags (suc rounds) page s =
    then_do (answered s page (mapper.map_to s.pages page flags))
      (map_pages mapper flags rounds (page + 1))

abbrev pub is_mapped : ℕ → List ℕ → Bool
is_mapped page [] = false
is_mapped page (p ∷ ps) = p == page || is_mapped page ps

-- `copy_nonoverlapping` of the first `n` of `bytes` to `vaddr`.
abbrev pub written : Space → ℕ → ℕ → List ℕ → Space
written s vaddr n bytes = record s {
  bytes = λ a. if leb vaddr a && ltb a (vaddr + n) then get_or bytes (a - vaddr) 0 else s.bytes a;
}

-- The loop that copies, page by page. The fuel bounds the rounds; each copies at least one byte.
unfoldable pub copy_file : ℕ → ℕ → List ℕ → Space → Loading
copy_file fuel vaddr [] s = done s
copy_file zero vaddr (b ∷ bs) s = panics
copy_file (suc fuel) vaddr (b ∷ bs) s =
    let n = min (length (b ∷ bs)) (4096 - vaddr % 4096) in
    let rest = copy_file fuel (vaddr + n) (drop n (b ∷ bs)) (written s vaddr n (b ∷ bs)) in
    if is_mapped (vaddr / 4096) s.pages then rest else panics

-- Whether a segment is to be writable and whether it is not to be executable: bits 1 and 0 of its flags.
abbrev pub segment_flags : ℕ → Bool × Bool
segment_flags p_flags = (not (p_flags / 2 % 2 == 0), p_flags % 2 == 0)

abbrev pub copy_slice : ProgramHeader → Space → Option (List ℕ) → Loading
copy_slice phdr s none = panics
copy_slice phdr s (some bytes) = copy_file (length bytes) phdr.p_vaddr bytes s

abbrev pub copy_segment : ProgramHeader → List ℕ → Space → Loading
copy_segment phdr image s = copy_slice phdr s (slice image phdr.p_offset phdr.p_filesz)

unfoldable pub load_segment : Mapper → ProgramHeader → List ℕ → Space → Loading
unfolding map_pages copy_file
load_segment mapper phdr image s =
    let seg_end = phdr.p_vaddr + phdr.p_memsz in
    let file_end = phdr.p_offset + phdr.p_filesz in
    let first = phdr.p_vaddr / 4096 in
    let last = (seg_end - 1) / 4096 in
    if leb (2 ^ 64) seg_end || ltb phdr.p_vaddr user_space_min || ltb user_space_max seg_end
    then fails ElfError.segment_out_of_range
    else if ltb phdr.p_memsz phdr.p_filesz
    then fails ElfError.segment_out_of_range
    else if leb (2 ^ 64) file_end || ltb (length image) file_end
    then fails ElfError.segment_exceeds_file
    else then_do (map_pages mapper (segment_flags phdr.p_flags) (last + 1 - first) first s)
        (copy_segment phdr image)
