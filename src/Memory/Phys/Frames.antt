-- ===== src/Memory/Phys/Frames.antt =====
-- kernel/src/memory/phys.rs: no frame is handed out twice, or handed out without being usable.
use tarn_os.Prelude.{
  ℕ, zero, suc, ◌+◌, ◌-◌, ◌*◌, ◌/◌, ◌%◌, ◌^◌, ◌<◌, ◌≡◌, refl, sym, ap, ◌∙◌, Bool, true, false, not,
  ◌&&◌, List, [], ◌∷◌, Option, none, some, ◌==◌, ==_refl, if◌then◌else◌, ltb, Bool-cases,
  Option-cases, inl, inr, arith, subst, ℕ_discrete, ==_iff, ==_ne, lt→ltb,
}
use tarn_os.Kcore.Bitmap
use tarn_os.Kcore.Bitmap.{
  Bitmap, capacity, set_free, set_used, is_free, allocate, usable_frame_range,
}
use tarn_os.Kcore.Bitmap.Valid.{
  IsValid, new-IsValid, set_free-IsValid, set_used-IsValid, capacity-set_free, capacity-set_used,
}
use tarn_os.Kcore.Bitmap.Laws.{is_free-set_free, is_free-set_used}
use tarn_os.Kcore.Bitmap.Allocate.{Claims, nothing, lowest, allocate-Claims}
use tarn_os.Memory.Phys
use tarn_os.Memory.Phys.{
  FrameOps, Entry, BitmapFrameAllocator, bitmap_words, frame_size, new, seed, seed_range,
  seed_entry, populate, allocate_frame, deallocate_frame,
}

-- Both maps are valid and of the size that the kernel gives them, and a free frame is a usable one.
pub record IsSound (a : BitmapFrameAllocator) : Type 0 where
  pub valid : IsValid a.bitmap
  pub usable_valid : IsValid a.usable
  pub sized : a.bitmap.word_count ≡ bitmap_words
  pub usable_sized : a.usable.word_count ≡ bitmap_words
  pub owned : (j : ℕ) → is_free a.bitmap j ≡ true → is_free a.usable j ≡ true

free_both :
    (b u : Bitmap) (index j : ℕ)
    → IsValid b
    → IsValid u
    → b.word_count ≡ u.word_count
    → (is_free b j ≡ true → is_free u j ≡ true)
    → is_free (set_free b index) j ≡ true
    → is_free (set_free u index) j ≡ true
free_both b u index j v w same owned h =
    let same_capacity : capacity u ≡ capacity b = ap (λ k. k * 64) (sym same) in
    rw (is_free-set_free u index j w, same_capacity)
      (split (index == j && ltb index (capacity b)) (rw (is_free-set_free b index j v) at h))
  where
    split :
        (t : Bool)
        → (if t then true else is_free b j) ≡ true
        → (if t then true else is_free u j) ≡ true
    split true h = refl
    split false h = owned h

seed-IsSound :
    (count first : ℕ) (a : BitmapFrameAllocator) → IsSound a → IsSound (seed count first a)
unfolding seed
seed-IsSound zero first a s = s
seed-IsSound (suc count) first a s =
    seed-IsSound count (first + 1)
      (record { bitmap = set_free a.bitmap first; usable = set_free a.usable first })
      (record {
        valid = set_free-IsValid a.bitmap first s.valid;
        usable_valid = set_free-IsValid a.usable first s.usable_valid;
        sized = capacity-set_free a.bitmap first ∙ s.sized;
        usable_sized = capacity-set_free a.usable first ∙ s.usable_sized;
        owned = λ j h.
            free_both a.bitmap a.usable first j s.valid s.usable_valid
              (s.sized ∙ sym s.usable_sized) (s.owned j) h;
      })

seed_range-IsSound :
    (range : Option (ℕ × ℕ)) (a b : BitmapFrameAllocator)
    → IsSound a
    → seed_range range a ≡ some b
    → IsSound b
seed_range-IsSound none a b s e = cc
seed_range-IsSound (some (first, last)) a b s e =
    let same : seed (last - first) first a ≡ b = cc in
    subst IsSound same (seed-IsSound (last - first) first a s)

seed_entry-IsSound :
    (entry : Entry) (a b : BitmapFrameAllocator)
    → IsSound a
    → seed_entry a entry ≡ some b
    → IsSound b
seed_entry-IsSound entry a b s e = elim (Bool-cases entry.usable) [
  | inl yes_usable ↦
      seed_range-IsSound (usable_frame_range entry.base entry.length frame_size) a b s
        (rw yes_usable at e)
  | inr other ↦ let same : some a ≡ some b = rw other at e in subst IsSound (cc same) s
]

populate-IsSound :
    (entries : List Entry) (a b : BitmapFrameAllocator)
    → IsSound a
    → populate a entries ≡ some b
    → IsSound b
unfolding populate
populate-IsSound [] a b s e = let same : a ≡ b = cc in subst IsSound same s
populate-IsSound (entry ∷ entries) a b s e = elim (Option-cases (seed_entry a entry)) [
  | inl bad ↦ let no_end : none ≡ some b = rw (bad, populate) at e in absurd (cc no_end)
  | inr (c, first) ↦
      populate-IsSound entries c b (seed_entry-IsSound entry a c s first)
        (rw (first, populate) at e)
]

in_capacity : (b : Bitmap) (index : ℕ) → is_free b index ≡ true → index < capacity b
unfolding is_free
in_capacity b index h = ground arith

-- Setting what was free used, and then free again, changes no answer.
restored :
    (b : Bitmap) (index j : ℕ)
    → IsValid b
    → is_free b index ≡ true
    → (if index == j && ltb index (capacity (set_used b index))
        then true
        else is_free (set_used b index) j)
      ≡ is_free b j
restored b index j v free = elim (ℕ_discrete index j) [
  | yes e ↦
      let inside : ltb index (capacity (set_used b index)) ≡ true =
        lt→ltb index (capacity (set_used b index))
          (omega (arith, in_capacity b index free, capacity-set_used b index)) in
      rw ((==_iff index j).1 e, inside) (sym free ∙ ap (is_free b) e)
  | no ne ↦ rw (==_ne index j ne) (is_free-set_used b index j v ∙ rw (==_ne index j ne) refl)
]

and_left : (x y : Bool) → (x && y) ≡ true → x ≡ true
and_left true y e = refl
and_left false y e = e

and_false : (x : Bool) → (x && false) ≡ false
and_false true = refl
and_false false = refl

-- From the memory map, every frame that is free is usable, and both maps are valid.
pub populate-new-IsSound :
    (entries : List Entry) (a : BitmapFrameAllocator) → populate new entries ≡ some a → IsSound a
unfolding new
populate-new-IsSound entries a = populate-IsSound entries new a (record {
  valid = new-IsValid bitmap_words;
  usable_valid = new-IsValid bitmap_words;
  sized = unfold Bitmap.new in refl;
  usable_sized = unfold Bitmap.new in refl;
  owned = λ j h. h;
})

module _ {F : Type 0} (frames : FrameOps F) where
  -- What `allocate_frame` answers when it claims a frame.
  pub record Grants (a : BitmapFrameAllocator) (f : F) (t : BitmapFrameAllocator) : Type 0 where
    pub index : ℕ
    pub address : frames.start_address f ≡ index * frame_size
    pub was_free : is_free a.bitmap index ≡ true
    pub marked : t ≡ record a { bitmap = set_used a.bitmap index }

  pub data Allocates (a : BitmapFrameAllocator)
      : Option (Option F × BitmapFrameAllocator) → Type 0 where
    exhausted : ((j : ℕ) → is_free a.bitmap j ≡ false) → Allocates a (some (none, a))
    granted : (f : F) (t : BitmapFrameAllocator) → Grants a f t → Allocates a (some (some f, t))

  -- `allocate_frame` of a sound allocator does not panic: it hands out a free frame and marks it
  -- used, or no frame is free and it changes nothing.
  pub allocate_frame-Allocates :
      (a : BitmapFrameAllocator) → IsSound a → Allocates a (allocate_frame frames a)
  unfolding allocate_frame
  allocate_frame-Allocates a s = go (allocate a.bitmap) (allocate-Claims a.bitmap s.valid)
    where
      go :
          (answer : Option ℕ × Bitmap)
          → Claims a.bitmap answer
          → Allocates a (Phys.claimed_frame frames a answer)
      go _ (nothing h) = exhausted h
      go _ (lowest index free least) =
          let small : index < 4194304 = omega (arith, in_capacity a.bitmap index free, s.sized) in
          let whole : index * frame_size % 2 ^ 64 ≡ index * frame_size = omega arith in
          let (f, e, at_f) = frames.of_aligned (index * frame_size) (omega arith) (omega arith) in
          rw (whole, e)
            (granted f (record a { bitmap = set_used a.bitmap index })
              (record { index = index; address = at_f; was_free = free; marked = refl }))

  Allocates-Grants :
      {a : BitmapFrameAllocator} {answer : Option (Option F × BitmapFrameAllocator)} (f : F)
      (t : BitmapFrameAllocator)
      → Allocates a answer
      → answer ≡ some (some f, t)
      → Grants a f t
  Allocates-Grants f t (exhausted h) e = cc
  Allocates-Grants {a} f t (granted g u grant) e =
      let same_f : g ≡ f = cc in
      let same_t : u ≡ t = cc in
      subst (λ k. Grants a f k) same_t (subst (λ k. Grants a k u) same_f grant)

  frame_index :
      (f : F) (index : ℕ)
      → frames.start_address f ≡ index * frame_size
      → frames.start_address f / frame_size ≡ index
  frame_index f index e = omega (arith, e)

  -- A frame that `allocate_frame` handed out goes back: `deallocate_frame` takes it without a panic,
  -- and then every frame is free exactly where it was free before the allocation.
  pub deallocate_frame-allocate_frame :
      (a t : BitmapFrameAllocator) (f : F) (j : ℕ)
      → IsSound a
      → allocate_frame frames a ≡ some (some f, t)
      → (u : BitmapFrameAllocator) × (deallocate_frame frames t f ≡ some u)
        × (is_free u.bitmap j ≡ is_free a.bitmap j)
  unfolding deallocate_frame
  deallocate_frame-allocate_frame a t f j s e =
      let g = Allocates-Grants f t (allocate_frame-Allocates a s) e in
      let b = set_used a.bitmap g.index in
      let v = set_used-IsValid a.bitmap g.index s.valid in
      let index : frames.start_address f / frame_size ≡ g.index = frame_index f g.index g.address in
      let mine : is_free a.usable g.index ≡ true = s.owned g.index g.was_free in
      let gone : is_free b g.index ≡ false =
        is_free-set_used a.bitmap g.index g.index s.valid ∙ rw (==_refl g.index) refl in
      (
        record a { bitmap = set_free b g.index },
        rw (g.marked, index, mine, gone) refl,
        is_free-set_free b g.index j v ∙ restored a.bitmap g.index j s.valid g.was_free,
      )

  -- A frame that was just given back is refused: giving it back again panics.
  pub deallocate_frame-twice :
      (a u : BitmapFrameAllocator) (f : F)
      → IsSound a
      → deallocate_frame frames a f ≡ some u
      → deallocate_frame frames u f ≡ none
  unfolding deallocate_frame
  deallocate_frame-twice a u f s e = elim (Bool-cases test) [
    | inl held ↦
        let b = set_free a.bitmap index in
        let same : record a { bitmap = b } ≡ u =
          let h : some (record a { bitmap = b }) ≡ some u = rw held at e in cc h in
        let inside : ltb index (capacity a.bitmap) ≡ true = lt→ltb index (capacity a.bitmap) (
          omega (
            arith,
            in_capacity a.usable index (and_left (is_free a.usable index) _ held),
            s.sized,
            s.usable_sized,
          )) in
        let now : is_free b index ≡ true =
          is_free-set_free a.bitmap index index s.valid ∙ rw (==_refl index, inside) refl in
        subst (λ x. deallocate_frame frames x f ≡ none) same
          (rw (now, and_false (is_free a.usable index)) refl)
    | inr refused ↦ let h : none ≡ some u = rw refused at e in cc h
  ]
    where
      index : ℕ
      index = frames.start_address f / frame_size

      test : Bool
      test = is_free a.usable index && not (is_free a.bitmap index)

  -- Handing out a frame leaves the allocator sound.
  pub allocate_frame-IsSound :
      (a t : BitmapFrameAllocator) (f : F)
      → IsSound a
      → allocate_frame frames a ≡ some (some f, t)
      → IsSound t
  allocate_frame-IsSound a t f s e =
      let g = Allocates-Grants f t (allocate_frame-Allocates a s) e in
      subst IsSound (sym g.marked) (record {
        valid = set_used-IsValid a.bitmap g.index s.valid;
        usable_valid = s.usable_valid;
        sized = capacity-set_used a.bitmap g.index ∙ s.sized;
        usable_sized = s.usable_sized;
        owned = λ j h. s.owned j (
            still (g.index == j) (is_free a.bitmap j)
              (rw (is_free-set_used a.bitmap g.index j s.valid) at h));
      })
    where
      still : (t x : Bool) → (if t then false else x) ≡ true → x ≡ true
      still true x h = cc
      still false x h = h
