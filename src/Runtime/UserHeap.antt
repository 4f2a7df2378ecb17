-- ===== src/Runtime/UserHeap.antt =====
-- libs/tarnos-rt/src/heap.rs: a program's allocator, over the crate linked_list_allocator and the break that
-- `sys_sbrk` of kernel/src/arch/x86_64/syscall.rs moves. The heap belongs to one program, and nothing
-- else in it moves the break.
use tarn_os.Prelude.{
  ℕ, ◌+◌, ◌*◌, ◌%◌, ◌^◌, ◌≡◌, ◌<◌, refl, sym, ap, ◌∙◌, Bool, true, false, Option, some, none, max,
  ◌==◌, if◌then◌else◌, arith, Bool-cases, inl, inr,
}
use tarn_os.Kcore.CapTable.{Result, ok, err}
use tarn_os.Syscall.Heap.{
  Pages, PagesLaws, HeapMapped, is_ok, user_heap_start, sys_sbrk, sys_sbrk-HeapMapped,
}

-- `LockedHeap` of the crate.
pub record Allocator (A : Type 0) : Type 0 where
  pub init : A → ℕ → ℕ → A
  pub extend : A → ℕ → A
  pub allocate_first_fit : A → ℕ → ℕ → Option ℕ × A
  pub deallocate : A → ℕ → ℕ → ℕ → A

-- What the crate documents of the memory that an allocator has: its start and its size.
pub record AllocatorLaws {A : Type 0} (inner : Allocator A) : Type 0 where
  pub start : A → ℕ
  pub size : A → ℕ
  pub init_start : (a : A) (from n : ℕ) → start (inner.init a from n) ≡ from
  pub init_size : (a : A) (from n : ℕ) → size (inner.init a from n) ≡ n
  pub extend_start : (a : A) (n : ℕ) → start (inner.extend a n) ≡ start a
  pub extend_size : (a : A) (n : ℕ) → size (inner.extend a n) ≡ size a + n
  pub allocate_start :
      (a : A) (n align : ℕ) → start (inner.allocate_first_fit a n align).1 ≡ start a
  pub allocate_size : (a : A) (n align : ℕ) → size (inner.allocate_first_fit a n align).1 ≡ size a
  pub deallocate_start : (a : A) (p n align : ℕ) → start (inner.deallocate a p n align) ≡ start a
  pub deallocate_size : (a : A) (p n align : ℕ) → size (inner.deallocate a p n align) ≡ size a

-- `MIN_GROW_BYTES`.
abbrev pub min_grow_bytes : ℕ
min_grow_bytes = 16 * 1024

-- The program's allocator, and the break and the memory that the kernel keeps for it.
pub record UserHeap (A M : Type 0) : Type 0 where
  pub inner : A
  pub initialized : Bool
  pub heap_end : ℕ
  pub memory : M

module _ {A M : Type 0} (allocator : Allocator A) (pages : Pages M) where
  abbrev pub grown : ℕ → UserHeap A M → Result ℕ × ℕ × M → Bool × UserHeap A M
  grown min_bytes h (err e, heap_end, memory) =
      (false, record h { heap_end = heap_end; memory = memory })
  grown min_bytes h (ok old_end, heap_end, memory) = (
    true,
    record h {
      inner =
          if h.initialized
          then allocator.extend h.inner min_bytes
          else allocator.init h.inner old_end min_bytes;
      initialized = true;
      heap_end = heap_end;
      memory = memory;
    },
  )

  unfoldable pub grow : ℕ → UserHeap A M → Bool × UserHeap A M
  grow min_bytes h = grown min_bytes h (sys_sbrk pages (min_bytes % 2 ^ 64) h.heap_end h.memory)

  -- The second attempt; a null pointer is `none`.
  abbrev pub try_again : ℕ → ℕ → Bool × UserHeap A M → Option ℕ × UserHeap A M
  try_again size align (false, h) = (none, h)
  try_again size align (true, h) =
      let (p, inner) = allocator.allocate_first_fit h.inner size align in
      (p, record h { inner = inner })

  -- The first attempt, or what follows it.
  abbrev pub first_fit : UserHeap A M → Option ℕ × UserHeap A M → Option ℕ → Option ℕ × UserHeap A M
  first_fit tried otherwise none = otherwise
  first_fit tried otherwise (some p) = (some p, tried)

  unfoldable pub alloc : ℕ → ℕ → UserHeap A M → Option ℕ × UserHeap A M
  unfolding grow
  alloc size align h =
      let (p, inner) = allocator.allocate_first_fit h.inner size align in
      let tried : UserHeap A M = record h { inner = inner } in
      first_fit tried (try_again size align (grow (max size min_grow_bytes) tried)) p

  unfoldable pub dealloc : ℕ → ℕ → ℕ → UserHeap A M → UserHeap A M
  dealloc p size align h =
      if p == 0 then h else record h { inner = allocator.deallocate h.inner p size align }

  module _ (laws : AllocatorLaws allocator) (page_laws : PagesLaws pages) where
    -- The allocator's memory is what lies between the start of the heap and the break, and all of it is mapped.
    pub record Owns (h : UserHeap A M) : Type 0 where
      pub mapped : HeapMapped pages h.heap_end h.memory
      pub fresh : h.initialized ≡ false → h.heap_end ≡ user_heap_start
      pub from : h.initialized ≡ true → laws.start h.inner ≡ user_heap_start
      pub upto : h.initialized ≡ true → user_heap_start + laws.size h.inner ≡ h.heap_end

    sys_sbrk_old_end :
        (rdi old_end v : ℕ) (m : M) → (sys_sbrk pages rdi old_end m).0 ≡ ok v → v ≡ old_end
    unfolding sys_sbrk
    sys_sbrk_old_end rdi old_end v m h = ground (arith, h)

    -- What the kernel answered, taken over by the allocator.
    grown-Owns :
        (n : ℕ) (h : UserHeap A M) (r : Result ℕ) (heap_end : ℕ) (memory : M)
        → Owns h
        → HeapMapped pages heap_end memory
        → heap_end ≡ (if is_ok pages r then h.heap_end + n else h.heap_end)
        → ((v : ℕ) → r ≡ ok v → v ≡ h.heap_end)
        → Owns (grown n h (r, heap_end, memory)).1
    grown-Owns n h (err e) heap_end memory owns mapped moved old = record {
      mapped = mapped;
      fresh = λ i. moved ∙ owns.fresh i;
      from = owns.from;
      upto = λ i. owns.upto i ∙ sym moved;
    }
    grown-Owns n h (ok v) heap_end memory owns mapped moved old = elim (Bool-cases h.initialized) [
      | inl old_heap ↦
          let same : (if h.initialized
                then allocator.extend h.inner n
                else allocator.init h.inner v n)
              ≡ allocator.extend h.inner n =
            ap (λ b. if b then allocator.extend h.inner n else allocator.init h.inner v n)
              old_heap in
          record {
            mapped = mapped;
            fresh = λ i. cc i;
            from = λ i. ap laws.start same ∙ laws.extend_start h.inner n ∙ owns.from old_heap;
            upto = λ i.
                ap (λ a. user_heap_start + laws.size a) same
                ∙ omega (arith, laws.extend_size h.inner n, owns.upto old_heap, moved);
          }
      | inr new_heap ↦
          let same : (if h.initialized
                then allocator.extend h.inner n
                else allocator.init h.inner v n)
              ≡ allocator.init h.inner v n =
            ap (λ b. if b then allocator.extend h.inner n else allocator.init h.inner v n)
              new_heap in
          record {
            mapped = mapped;
            fresh = λ i. cc i;
            from = λ i.
                ap laws.start same ∙ laws.init_start h.inner v n ∙ old v refl ∙ owns.fresh new_heap;
            upto = λ i.
                ap (λ a. user_heap_start + laws.size a) same
                ∙ omega (arith, laws.init_size h.inner v n, owns.fresh new_heap, moved);
          }
    ]

    grow-Owns : (n : ℕ) (h : UserHeap A M) → n < 2 ^ 64 → Owns h → Owns (grow n h).1
    unfolding grow
    grow-Owns n h small owns =
        let rdi = n % 2 ^ 64 in
        let (mapped, moved) =
          sys_sbrk-HeapMapped pages page_laws rdi h.heap_end h.memory owns.mapped in
        let whole : rdi ≡ n = omega arith in
        let answer = sys_sbrk pages rdi h.heap_end h.memory in
        grown-Owns n h answer.0 answer.1 answer.2 owns mapped
          (moved ∙ ap (λ k. if is_ok pages answer.0 then h.heap_end + k else h.heap_end) whole)
          (λ v e. sys_sbrk_old_end rdi h.heap_end v h.memory e)

    kept-Owns :
        (h : UserHeap A M) (inner : A)
        → laws.start inner ≡ laws.start h.inner
        → laws.size inner ≡ laws.size h.inner
        → Owns h
        → Owns (record h { inner = inner })
    kept-Owns h inner start size owns = record {
      mapped = owns.mapped;
      fresh = owns.fresh;
      from = λ i. start ∙ owns.from i;
      upto = λ i. ap (λ k. user_heap_start + k) size ∙ owns.upto i;
    }

    try_again-Owns :
        (size align : ℕ) (done : Bool) (h : UserHeap A M)
        → Owns h
        → Owns (try_again size align (done, h)).1
    try_again-Owns size align false h owns = owns
    try_again-Owns size align true h owns =
        kept-Owns h (allocator.allocate_first_fit h.inner size align).1
          (laws.allocate_start h.inner size align) (laws.allocate_size h.inner size align) owns

    first_fit-Owns :
        (tried : UserHeap A M) (otherwise : Option ℕ × UserHeap A M) (p : Option ℕ)
        → Owns tried
        → Owns otherwise.1
        → Owns (first_fit tried otherwise p).1
    first_fit-Owns tried otherwise none a b = b
    first_fit-Owns tried otherwise (some p) a b = a

    dealloc-Owns : (p size align : ℕ) (h : UserHeap A M) → Owns h → Owns (dealloc p size align h)
    unfolding dealloc
    dealloc-Owns p size align h owns = elim (Bool-cases (p == 0)) [
      | inl null ↦ rw null owns
      | inr real ↦ rw real (
          kept-Owns h (allocator.deallocate h.inner p size align)
            (laws.deallocate_start h.inner p size align) (laws.deallocate_size h.inner p size align)
            owns)
    ]

    -- An allocation, whether it finds room, grows the heap or fails, and a release leave the allocator with
    -- the memory from the start of the heap to the break and no other, all of it mapped.
    pub alloc-dealloc-Owns :
        (size align p : ℕ) (h : UserHeap A M)
        → size < 2 ^ 64
        → Owns h
        → Owns (alloc size align h).1 × Owns (dealloc p size align h)
    unfolding alloc
    alloc-dealloc-Owns size align p h small owns =
        let answer = allocator.allocate_first_fit h.inner size align in
        let tried : UserHeap A M = record h { inner = answer.1 } in
        let kept =
          kept-Owns h answer.1 (laws.allocate_start h.inner size align)
            (laws.allocate_size h.inner size align) owns in
        let more = grow (max size min_grow_bytes) tried in
        let grown_kept =
          try_again-Owns size align more.0 more.1
            (grow-Owns (max size min_grow_bytes) tried (omega (arith, small)) kept) in
        (
          first_fit-Owns tried (try_again size align more) answer.0 kept grown_kept,
          dealloc-Owns p size align h owns,
        )
