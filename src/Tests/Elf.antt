-- ===== src/Tests/Elf.antt =====
-- kernel/src/elf.rs: a segment of two bytes, and an image that is too short.
use tarn_os.Prelude.{◌≢◌, refl, true, [], ◌∷◌, arith}
use tarn_os.Elf.{ProgramHeader, Space, Mapper, mapped, load_segment}
use tarn_os.Elf.Segment.{Loads, load_segment-Loads}
use tarn_os.Elf.Load.{crashes, load}
use tarn_os.Elf.Robust.{load-no_crash}

abbrev willing : Mapper
willing = record { map_to = λ so_far page flags. mapped }

abbrev blank : Space
blank = record { bytes = λ a. 0; pages = [] }

abbrev two_bytes : ProgramHeader
two_bytes = record {
  p_type = 1;
  p_flags = 5;
  p_offset = 1;
  p_vaddr = 0x1000;
  p_filesz = 2;
  p_memsz = 8;
}

load_segment-Loads_example :
    Loads two_bytes (7 ∷ 8 ∷ 9 ∷ []) blank (load_segment willing two_bytes (7 ∷ 8 ∷ 9 ∷ []) blank)
load_segment-Loads_example =
    load_segment-Loads willing two_bytes (7 ∷ 8 ∷ 9 ∷ []) blank (omega arith)

load-no_crash_example : load (λ a. true) willing (0x7f ∷ []) blank ≢ crashes
load-no_crash_example = load-no_crash (λ a. true) willing (0x7f ∷ []) blank refl
