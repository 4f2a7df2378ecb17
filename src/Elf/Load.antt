-- ===== src/Elf/Load.antt =====
-- kernel/src/elf.rs: `load`, the checks of the file's header and the loop over its segments.
use tarn_os.Prelude.{
  ℕ, zero, suc, ◌+◌, ◌*◌, ◌^◌, Bool, not, ◌&&◌, ◌||◌, List, Option, none, some, ◌==◌, ltb, leb,
  if◌then◌else◌, get_or, length,
}
use tarn_os.Elf.{
  ElfError, ProgramHeader, Space, Mapper, Loading, panics, fails, done, read, then_do, load_segment,
}

infixl 5 ◌>>=◌
-- A read that is out of range ends the call.
abbrev ◌>>=◌ : {A B : Type 0} → Option A → (A → Option B) → Option B
none >>= f = none
some a >>= f = f a

-- What `load` ends in; `VirtAddr::new` of the crate x86_64 panics on an address that is not canonical.
pub data Loaded : Type 0 where
  crashes : Loaded
  rejects : ElfError → Loaded
  enters : ℕ → Space → Loaded

-- The fields of the program header at `base`; `none` if a slice is out of range.
unfoldable pub read_header : List ℕ → ℕ → Option ProgramHeader
unfolding read
read_header image base = do
  p_type ← read 4 image base
  p_flags ← read 4 image (base + 4)
  p_offset ← read 8 image (base + 8)
  p_vaddr ← read 8 image (base + 16)
  p_filesz ← read 8 image (base + 32)
  p_memsz ← read 8 image (base + 40)
  some (record {
    p_type = p_type;
    p_flags = p_flags;
    p_offset = p_offset;
    p_vaddr = p_vaddr;
    p_filesz = p_filesz;
    p_memsz = p_memsz;
  })

pub record FileHeader : Type 0 where
  pub e_type : ℕ
  pub e_machine : ℕ
  pub e_entry : ℕ
  pub e_phoff : ℕ
  pub e_phentsize : ℕ
  pub e_phnum : ℕ

unfoldable pub read_file_header : List ℕ → Option FileHeader
unfolding read
read_file_header image = do
  e_type ← read 2 image 16
  e_machine ← read 2 image 18
  e_entry ← read 8 image 24
  e_phoff ← read 8 image 32
  e_phentsize ← read 2 image 54
  e_phnum ← read 2 image 56
  some (record {
    e_type = e_type;
    e_machine = e_machine;
    e_entry = e_entry;
    e_phoff = e_phoff;
    e_phentsize = e_phentsize;
    e_phnum = e_phnum;
  })

-- One program header: those that are not to be loaded, or are empty, are passed over.
abbrev pub load_header : Mapper → List ℕ → Space → Option ProgramHeader → Loading
load_header mapper image s none = panics
load_header mapper image s (some phdr) =
    if not (phdr.p_type == 1) || phdr.p_memsz == 0 then done s else load_segment mapper phdr image s

-- The loop over the program headers, `rounds` of them from the `i`-th on.
unfoldable pub load_headers : Mapper → List ℕ → FileHeader → ℕ → ℕ → Space → Loading
unfolding read_header
load_headers mapper image header zero i s = done s
load_headers mapper image header (suc rounds) i s =
    then_do
      (load_header mapper image s (read_header image (header.e_phoff + i * header.e_phentsize)))
      (load_headers mapper image header rounds (i + 1))

abbrev pub entered : (ℕ → Bool) → ℕ → Loading → Loaded
entered canonical entry panics = crashes
entered canonical entry (fails e) = rejects e
entered canonical entry (done s) = if canonical entry then enters entry s else crashes

abbrev pub load_checked : (ℕ → Bool) → Mapper → List ℕ → Space → Option FileHeader → Loaded
load_checked canonical mapper image s none = crashes
load_checked canonical mapper image s (some header) =
    let phdrs_end = header.e_phoff + header.e_phnum * header.e_phentsize in
    if not (header.e_type == 2)
    then rejects ElfError.not_executable
    else if not (header.e_machine == 62)
    then rejects ElfError.wrong_machine
    else if ltb header.e_phentsize 56
    then rejects ElfError.too_short
    else if leb (2 ^ 64) phdrs_end || ltb (length image) phdrs_end
    then rejects ElfError.too_short
    else entered canonical header.e_entry (load_headers mapper image header header.e_phnum 0 s)

abbrev pub has_magic : List ℕ → Bool
has_magic image =
    get_or image 0 0 == 0x7f
    && get_or image 1 0 == 0x45
    && get_or image 2 0 == 0x4c
    && get_or image 3 0 == 0x46

-- `canonical` is the test that `VirtAddr::new` makes.
unfoldable pub load : (ℕ → Bool) → Mapper → List ℕ → Space → Loaded
unfolding load_headers read_file_header
load canonical mapper image s =
    if ltb (length image) 64
    then rejects ElfError.too_short
    else if not (has_magic image)
    then rejects ElfError.bad_magic
    else if not (get_or image 4 0 == 2)
    then rejects ElfError.not_elf64
    else if not (get_or image 5 0 == 1)
    then rejects ElfError.not_little_endian
    else load_checked canonical mapper image s (read_file_header image)
