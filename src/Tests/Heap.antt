-- ===== src/Tests/Heap.antt =====
-- libs/tarnos-rt/src/heap.rs: a program's first allocation.
use tarn_os.Prelude.{ℕ, ◌+◌, refl, false, [], List, some, none, leb, if◌then◌else◌, arith}
use tarn_os.Syscall.Heap.{user_heap_start}
use tarn_os.Runtime.UserHeap.{
  Allocator, AllocatorLaws, UserHeap, alloc, dealloc, Owns, alloc-dealloc-Owns,
}
use tarn_os.Tests.Syscall.{pages, pages-Laws}

-- An allocator that only goes forward.
record Bump : Type 0 where
  start : ℕ
  size : ℕ
  next : ℕ

abbrev bump : Allocator Bump
bump = record {
  init = λ a from n. record { start = from; size = n; next = from };
  extend = λ a n. record a { size = a.size + n };
  allocate_first_fit = λ a n align. (
    if leb (a.next + n) (a.start + a.size) then some a.next else none,
    record a { next = if leb (a.next + n) (a.start + a.size) then a.next + n else a.next },
  );
  deallocate = λ a p n align. a;
}

bump-Laws : AllocatorLaws bump
bump-Laws = record {
  start = λ a. a.start;
  size = λ a. a.size;
  init_start = λ a from n. refl;
  init_size = λ a from n. refl;
  extend_start = λ a n. refl;
  extend_size = λ a n. refl;
  allocate_start = λ a n align. refl;
  allocate_size = λ a n align. refl;
  deallocate_start = λ a p n align. refl;
  deallocate_size = λ a p n align. refl;
}

abbrev fresh : UserHeap Bump (List ℕ)
fresh = record {
  inner = record { start = 0; size = 0; next = 0 };
  initialized = false;
  heap_end = user_heap_start;
  memory = [];
}

fresh-Owns : Owns bump pages bump-Laws pages-Laws fresh
fresh-Owns = record {
  mapped = record {
    above = omega arith;
    below = omega arith;
    pages_of = λ a low high. absurd (omega arith);
  };
  fresh = λ i. refl;
  from = λ i. cc i;
  upto = λ i. cc i;
}

alloc-dealloc-Owns_example :
    Owns bump pages bump-Laws pages-Laws (alloc bump pages 100 8 fresh).1
    × Owns bump pages bump-Laws pages-Laws (dealloc bump pages user_heap_start 100 8 fresh)
alloc-dealloc-Owns_example =
    alloc-dealloc-Owns bump pages bump-Laws pages-Laws 100 8 user_heap_start fresh (omega arith)
      fresh-Owns
