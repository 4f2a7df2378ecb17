-- ===== src/Tests/Memory.antt =====
-- kernel/src/memory/phys.rs: three frames from one entry of the memory map.
use tarn_os.Prelude.{ℕ, ◌≡◌, refl, true, List, [], ◌∷◌, Option, none, some}
use tarn_os.Prelude.Bits.{trailing_zeros}
use tarn_os.Kcore.Bitmap
use tarn_os.Kcore.Bitmap.{set_used, is_free, set_free, allocate, usable_frame_range}
use tarn_os.Memory.Phys
use tarn_os.Memory.Phys.{
  FrameOps, Entry, BitmapFrameAllocator, seed, populate, allocate_frame, deallocate_frame,
}
use tarn_os.Memory.Phys.Frames.{
  IsSound, populate-new-IsSound, Allocates, allocate_frame-Allocates, allocate_frame-IsSound,
  deallocate_frame-allocate_frame,
}

-- A frame that is its start address.
abbrev addresses : FrameOps ℕ
addresses = record {
  from_start_address = λ a. some a;
  start_address = λ a. a;
  of_aligned = λ a h k. (a, refl, refl);
}

abbrev entries : List Entry
entries = record { base = 0x2000; length = 0x3000; usable = true } ∷ []

abbrev populated : Option BitmapFrameAllocator → BitmapFrameAllocator
populated none = Phys.new
populated (some a) = a

abbrev seeded : BitmapFrameAllocator
seeded = populated (populate Phys.new entries)

populate_ends : populate Phys.new entries ≡ some seeded
unfolding populate usable_frame_range
populate_ends = refl

seeded-IsSound : IsSound seeded
seeded-IsSound = populate-new-IsSound entries seeded populate_ends

allocate_frame-Allocates_example : Allocates addresses seeded (allocate_frame addresses seeded)
allocate_frame-Allocates_example = allocate_frame-Allocates addresses seeded seeded-IsSound

abbrev after_one : BitmapFrameAllocator
after_one = record seeded { bitmap = set_used seeded.bitmap 2 }

first_frame : allocate_frame addresses seeded ≡ some (some 0x2000, after_one)
unfolding allocate_frame allocate populate seed Phys.new Bitmap.new set_free usable_frame_range
    trailing_zeros
first_frame = refl

deallocate_frame-allocate_frame_example :
    (u : BitmapFrameAllocator) × (deallocate_frame addresses after_one 0x2000 ≡ some u)
    × (is_free u.bitmap 2 ≡ is_free seeded.bitmap 2)
deallocate_frame-allocate_frame_example =
    deallocate_frame-allocate_frame addresses seeded after_one 0x2000 2 seeded-IsSound first_frame

after_one-IsSound : IsSound after_one
after_one-IsSound =
    allocate_frame-IsSound addresses seeded after_one 0x2000 seeded-IsSound first_frame

abbrev given_back : BitmapFrameAllocator
given_back = record seeded { bitmap = set_free after_one.bitmap 2 }

back : deallocate_frame addresses after_one 0x2000 ≡ some given_back
unfolding deallocate_frame is_free populate seed Phys.new Bitmap.new set_free set_used
    usable_frame_range
back = refl
