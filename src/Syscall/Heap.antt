-- ===== src/Syscall/Heap.antt =====
-- kernel/src/arch/x86_64/syscall.rs: `align_up` and `sys_sbrk`. The page tables are those of the crate
-- x86_64, with the frames of the kernel's allocator.
use native.Mathlib.Decide.{dec_lt}
use tarn_os.Prelude.{
  ℕ, zero, suc, ◌+◌, ◌-◌, ◌*◌, ◌/◌, ◌%◌, ◌^◌, ◌≡◌, ◌<◌, ◌≤◌, refl, subst, Bool, true, false, ltb,
  leb, if◌then◌else◌, arith, Bool-cases, inl, inr,
}
use tarn_os.Prelude.Int.{to_i64, is_negative}
use tarn_os.Abi.Errors.{invalid_argument, resource_exhausted}
use tarn_os.Kcore.CapTable.{Result, ok, err}

abbrev pub user_heap_start : ℕ
user_heap_start = 0x4000_0000

abbrev pub user_heap_max_size : ℕ
user_heap_max_size = 64 * 1024 * 1024

-- `align` is a power of two: the mask `!(align - 1)` keeps the multiples of it.
unfoldable pub align_up : ℕ → ℕ → ℕ
align_up addr align = (addr + align - 1) % 2 ^ 64 / align * align

-- The next multiple of the size of a page.
align_up-page :
    (a : ℕ)
    → a < 2 ^ 63
    → (a ≤ align_up a 4096) × (align_up a 4096 < a + 4096) × (align_up a 4096 % 4096 ≡ 0)
unfolding align_up
align_up-page a h = omega arith

-- The memory of the process that the core runs: take a frame and map it at a page, with whether that
-- succeeded, and whether a page is mapped.
pub record Pages (M : Type 0) : Type 0 where
  pub map_page : M → ℕ → Bool × M
  pub is_mapped : M → ℕ → Bool

-- A page that was mapped is there, and so are those that were there before.
pub record PagesLaws {M : Type 0} (pages : Pages M) : Type 0 where
  pub maps :
      (m : M) (a : ℕ)
      → (pages.map_page m a).0 ≡ true
      → pages.is_mapped (pages.map_page m a).1 a ≡ true
  pub keeps :
      (m : M) (a b : ℕ)
      → pages.is_mapped m b ≡ true
      → pages.is_mapped (pages.map_page m a).1 b ≡ true

module _ {M : Type 0} (pages : Pages M) where
  -- The loop over the new pages, `rounds` of them from `addr` on; it stops at the first that fails.
  unfoldable pub map_range : ℕ → ℕ → M → Bool × M
  map_range zero addr m = (true, m)
  map_range (suc rounds) addr m =
      let (done, next) = pages.map_page m addr in
      let rest = map_range rounds (addr + 4096) next in if done then rest else (false, next)

  -- The answer, the end of the heap and the memory.
  abbrev pub Grown : Type 0
  Grown = Result ℕ × ℕ × M

  abbrev pub mapped_to : ℕ → ℕ → Bool × M → Grown
  mapped_to old_end new_end (done, m) =
      if done then (ok old_end, new_end, m) else (err resource_exhausted, old_end, m)

  -- `sys_sbrk` of the register `rdi`, for a process whose heap ends at `old_end`.
  unfoldable pub sys_sbrk : ℕ → ℕ → M → Grown
  unfolding map_range align_up
  sys_sbrk rdi old_end m =
      let new_end = old_end + rdi in
      let old_top = align_up old_end 4096 in
      let new_top = align_up new_end 4096 in
      if is_negative (to_i64 rdi)
      then (err invalid_argument, old_end, m)
      else if leb (2 ^ 64) new_end
      then (err invalid_argument, old_end, m)
      else if ltb user_heap_max_size (new_end - user_heap_start)
      then (err invalid_argument, old_end, m)
      else mapped_to old_end new_end (map_range ((new_top - old_top) / 4096) old_top m)

  abbrev pub is_ok : Result ℕ → Bool
  is_ok (ok n) = true
  is_ok (err e) = false

  -- Every byte of the heap is in a page that is mapped, and the heap is within its bounds.
  pub record HeapMapped (heap_end : ℕ) (m : M) : Type 0 where
    pub above : user_heap_start ≤ heap_end
    pub below : heap_end ≤ user_heap_start + user_heap_max_size
    pub pages_of :
        (a : ℕ) → user_heap_start ≤ a → a < heap_end → pages.is_mapped m (a / 4096 * 4096) ≡ true

  module _ (laws : PagesLaws pages) where
    map_range-keeps :
        (rounds addr b : ℕ) (m : M)
        → pages.is_mapped m b ≡ true
        → pages.is_mapped (map_range rounds addr m).1 b ≡ true
    unfolding map_range
    map_range-keeps zero addr b m h = h
    map_range-keeps (suc rounds) addr b m h =
        let next = laws.keeps m addr b h in
        elim (Bool-cases (pages.map_page m addr).0) [
          | inl e ↦ rw e (map_range-keeps rounds (addr + 4096) b (pages.map_page m addr).1 next)
          | inr e ↦ rw e next
        ]

    map_range-maps :
        (rounds addr a : ℕ) (m : M)
        → (map_range rounds addr m).0 ≡ true
        → addr % 4096 ≡ 0
        → addr ≤ a
        → a < addr + 4096 * rounds
        → pages.is_mapped (map_range rounds addr m).1 (a / 4096 * 4096) ≡ true
    unfolding map_range
    map_range-maps zero addr a m ends whole low high = absurd (omega arith)
    map_range-maps (suc rounds) addr a m ends whole low high =
        elim (Bool-cases (pages.map_page m addr).0) [
          | inr e ↦ let bad : false ≡ true = rw e at ends in cc bad
          | inl e ↦
              let rest : (map_range rounds (addr + 4096) (pages.map_page m addr).1).0 ≡ true =
                rw e at ends in
              rw e (elim (dec_lt a (addr + 4096)) [
                | yes here ↦
                    let page : addr ≡ a / 4096 * 4096 = omega arith in
                    map_range-keeps rounds (addr + 4096) (a / 4096 * 4096) (pages.map_page m addr).1
                      (subst (λ k. pages.is_mapped (pages.map_page m addr).1 k ≡ true) page
                        (laws.maps m addr e))
                | no there ↦
                    map_range-maps rounds (addr + 4096) a (pages.map_page m addr).1 rest
                      (omega arith) (omega arith) (omega arith)
              ])
        ]

    grown-HeapMapped :
        (old_end new_end : ℕ) (m : M)
        → HeapMapped old_end m
        → old_end ≤ new_end
        → new_end ≤ user_heap_start + user_heap_max_size
        → (map_range
            ((align_up new_end 4096 - align_up old_end 4096) / 4096)
            (align_up old_end 4096)
            m).0
          ≡ true
        → HeapMapped new_end
            (map_range
              ((align_up new_end 4096 - align_up old_end 4096) / 4096)
              (align_up old_end 4096)
              m).1
    grown-HeapMapped old_end new_end m w more small ends =
        let old_top = align_up old_end 4096 in
        let rounds = (align_up new_end 4096 - old_top) / 4096 in
        let (up, near, whole) = align_up-page old_end (omega (arith, w.below)) in
        let (up', _, whole') = align_up-page new_end (omega arith) in
        record {
          above = omega (arith, w.above);
          below = small;
          pages_of = λ a from_start h. elim (dec_lt a old_top) [
            | no beyond ↦
                map_range-maps rounds old_top a m ends whole (omega arith)
                  (omega (arith, whole, whole', up'))
            | yes before ↦
                map_range-keeps rounds old_top (a / 4096 * 4096) m (elim (dec_lt a old_end) [
                  | yes old ↦ w.pages_of a from_start old
                  | no last ↦
                      let page : (old_top - 4096) / 4096 * 4096 ≡ a / 4096 * 4096 =
                        omega (arith, whole, near) in
                      subst (λ k. pages.is_mapped m k ≡ true) page
                        (w.pages_of (old_top - 4096) (omega (arith, w.above, whole, near))
                          (omega (arith, near, w.above, whole)))
                ])
          ];
        }

    kept-HeapMapped :
        (old_end : ℕ) (m : M) (rounds addr : ℕ)
        → HeapMapped old_end m
        → HeapMapped old_end (map_range rounds addr m).1
    kept-HeapMapped old_end m rounds addr w = record {
      above = w.above;
      below = w.below;
      pages_of = λ a from_start h.
          map_range-keeps rounds addr (a / 4096 * 4096) m (w.pages_of a from_start h);
    }

    -- `SYS_SBRK`, on every branch: the heap stays within its bounds and every byte of it in a page that is
    -- mapped. It ends where it did or, if the answer is the old end, as many bytes later as the caller asked
    -- for.
    pub sys_sbrk-HeapMapped :
        (rdi old_end : ℕ) (m : M)
        → HeapMapped old_end m
        → HeapMapped (sys_sbrk rdi old_end m).1 (sys_sbrk rdi old_end m).2
          × ((sys_sbrk rdi old_end m).1
              ≡ (if is_ok (sys_sbrk rdi old_end m).0 then old_end + rdi else old_end))
    unfolding sys_sbrk
    sys_sbrk-HeapMapped rdi old_end m w =
        let new_end = old_end + rdi in
        let old_top = align_up old_end 4096 in
        let rounds = (align_up new_end 4096 - old_top) / 4096 in
        elim (Bool-cases (is_negative (to_i64 rdi))) [
          | inl e ↦ rw e (w, refl)
          | inr a ↦ elim (Bool-cases (leb (2 ^ 64) new_end)) [
            | inl e ↦ rw (a, e) (w, refl)
            | inr b ↦ elim (Bool-cases (ltb user_heap_max_size (new_end - user_heap_start))) [
              | inl e ↦ rw (a, b, e) (w, refl)
              | inr c ↦ elim (Bool-cases (map_range rounds old_top m).0) [
                | inl e ↦
                    rw (a, b, c, e)
                      (
                        grown-HeapMapped old_end new_end m w (omega arith)
                            (ground (arith, c, w.above)) e,
                        refl,
                      )
                | inr e ↦ rw (a, b, c, e) (kept-HeapMapped old_end m rounds old_top w, refl)
              ]
            ]
          ]
        ]
