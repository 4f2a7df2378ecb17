-- ===== src/Memory/Phys.antt =====
-- kernel/src/memory/phys.rs: the frame allocator over two bitmaps. `debug_assert!` and a sum that does
-- not fit are taken as in a debug build; a panic is `none`.
pub mod Frames
use tarn_os.Prelude.{
  ℕ, zero, suc, ◌+◌, ◌-◌, ◌*◌, ◌/◌, ◌%◌, ◌^◌, ◌<◌, ◌≡◌, Bool, true, false, not, ◌&&◌, List, [], ◌∷◌,
  Option, none, some, ◌==◌, if◌then◌else◌,
}
use tarn_os.Kcore.Bitmap
use tarn_os.Kcore.Bitmap.{Bitmap, set_free, is_free, allocate, usable_frame_range}

-- `FRAME_SIZE` and `BITMAP_WORDS`.
abbrev pub frame_size : ℕ
frame_size = 4096

abbrev pub bitmap_words : ℕ
bitmap_words = 65536

-- What the code uses of the crate x86_64: a frame has a start address, and there is one for each
-- aligned address of at most 52 bits. `none` is a panic of `PhysAddr::new` or of `expect`.
pub record FrameOps (F : Type 0) : Type 0 where
  pub from_start_address : ℕ → Option F
  pub start_address : F → ℕ
  pub of_aligned :
      (a : ℕ)
      → a % frame_size ≡ 0
      → a < 2 ^ 52
      → (f : F) × (from_start_address a ≡ some f) × (start_address f ≡ a)

-- An entry of the memory map; `usable` says that its type is `MEMMAP_USABLE`.
pub record Entry : Type 0 where
  pub base : ℕ
  pub length : ℕ
  pub usable : Bool

pub record BitmapFrameAllocator : Type 0 where
  pub bitmap : Bitmap
  pub usable : Bitmap

unfoldable pub new : BitmapFrameAllocator
new = record { bitmap = Bitmap.new bitmap_words; usable = Bitmap.new bitmap_words }

-- The frames `first`, `first + 1` and so on, `count` of them.
unfoldable pub seed : ℕ → ℕ → BitmapFrameAllocator → BitmapFrameAllocator
seed zero first a = a
seed (suc count) first a =
    seed count (first + 1)
      (record { bitmap = set_free a.bitmap first; usable = set_free a.usable first })

abbrev pub seed_range : Option (ℕ × ℕ) → BitmapFrameAllocator → Option BitmapFrameAllocator
seed_range none a = none
seed_range (some (first, last)) a = some (seed (last - first) first a)

-- A round of the loop of `populate`.
abbrev pub seed_entry : BitmapFrameAllocator → Entry → Option BitmapFrameAllocator
seed_entry a entry =
    if entry.usable
    then seed_range (usable_frame_range entry.base entry.length frame_size) a
    else some a

unfoldable pub populate : BitmapFrameAllocator → List Entry → Option BitmapFrameAllocator
unfolding seed
populate a [] = some a
populate a (entry ∷ entries) = elim (seed_entry a entry) [
  | none ↦ none
  | some b ↦ populate b entries
]

module _ {F : Type 0} (frames : FrameOps F) where
  abbrev pub framed : BitmapFrameAllocator → Option F → Option (Option F × BitmapFrameAllocator)
  framed a none = none
  framed a (some f) = some (some f, a)

  abbrev pub claimed_frame :
      BitmapFrameAllocator → Option ℕ × Bitmap → Option (Option F × BitmapFrameAllocator)
  claimed_frame a (none, bitmap) = some (none, record a { bitmap = bitmap })
  claimed_frame a (some index, bitmap) =
      framed (record a { bitmap = bitmap })
        (frames.from_start_address (index * frame_size % 2 ^ 64))

  unfoldable pub allocate_frame : BitmapFrameAllocator → Option (Option F × BitmapFrameAllocator)
  allocate_frame a = claimed_frame a (allocate a.bitmap)

  unfoldable pub deallocate_frame : BitmapFrameAllocator → F → Option BitmapFrameAllocator
  deallocate_frame a frame =
      let index = frames.start_address frame / frame_size in
      if is_free a.usable index && not (is_free a.bitmap index)
      then some (record a { bitmap = set_free a.bitmap index })
      else none
