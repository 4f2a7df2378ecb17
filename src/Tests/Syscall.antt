-- ===== src/Tests/Syscall.antt =====
-- kernel/src/arch/x86_64/syscall.rs: a grant, a growing heap and a user's buffer.
use tarn_os.Prelude.{
  ℕ, ◌+◌, ◌*◌, ◌/◌, ◌%◌, ◌≡◌, refl, Bool, true, false, ◌||◌, List, [], ◌∷◌, none, some, replicate,
  ◌==◌, ==_refl, if◌then◌else◌, arith, Bool-cases, inl, inr,
}
use tarn_os.Kcore.CapTable
use tarn_os.Kcore.CapTable.{RightsOps, CapabilitySlot, ok}
use tarn_os.Kcore.Endpoint.{Slot}
use tarn_os.Task.Pid
use tarn_os.Task.Process.{KernelObjectRef, ProcessState, TrapFrame, Process}
use tarn_os.Task.Scheduler
use tarn_os.Task.Scheduler.{Scheduler, occupied_mut}
use tarn_os.Syscall.{Kernel, Flags, answers, with_process, current_process, sys_grant}
use tarn_os.Syscall.Grant.{Held, sys_grant-Held}
use tarn_os.Syscall.Heap.{
  user_heap_start, Pages, PagesLaws, HeapMapped, is_ok, sys_sbrk, sys_sbrk-HeapMapped,
}
use tarn_os.Syscall.Range.{
  PageTable, ends_at, check_pages, Verdict, validate_write_range, validate_write_range-Verdict,
}
use tarn_os.Tests.Task.{blank, process_of, parent_pid, child_pid, family}

abbrev flags : Flags
flags = record {
  ops = record { contains = λ held required. held == required };
  truncate = λ bits. bits % 8;
  send_right = 1;
  recv_right = 2;
}

abbrev console : CapabilitySlot KernelObjectRef
console = record { object = KernelObjectRef.endpoint 0; rights = 1 }

-- The parent, on core 0, has the console; its child is not started.
abbrev kernel : Kernel
kernel = record {
  scheduler = record family {
    processes =
        Scheduler.occupied (record (process_of parent_pid ProcessState.running none) {
          cap_table = some console ∷ [];
        })
        ∷ Scheduler.occupied (process_of child_pid ProcessState.suspended (some parent_pid))
        ∷ replicate 14 Scheduler.empty;
  };
  endpoints = Slot.empty ∷ [];
  wakes = [];
}

abbrev grant_frame : TrapFrame
grant_frame = record blank { rax = 5; rdi = child_pid; r10 = 1 }

abbrev richer_child : Process
richer_child = record (process_of child_pid ProcessState.suspended (some parent_pid)) {
  cap_table = some console ∷ [];
}

abbrev after_grant : Kernel
after_grant = record kernel {
  scheduler = Scheduler.put_slot kernel.scheduler 1 (Scheduler.occupied richer_child);
}

grants : sys_grant flags kernel 0 grant_frame ≡ answers (record grant_frame { rax = 0 }) after_grant
unfolding sys_grant with_process current_process occupied_mut Pid.index Pid.generation CapTable.get
    CapTable.insert
grants = refl

has_console : CapTable.get richer_child.cap_table 0 ≡ ok console
unfolding CapTable.get
has_console = refl

sys_grant-Held_example : Held flags.ops kernel.scheduler console
sys_grant-Held_example =
    sys_grant-Held flags kernel after_grant 0 grant_frame (record grant_frame { rax = 0 }) 1 0
      richer_child console ==_refl grants refl has_console

abbrev pub in_list : ℕ → List ℕ → Bool
in_list a [] = false
in_list a (b ∷ bs) = b == a || in_list a bs

abbrev pub pages : Pages (List ℕ)
pages = record { map_page = λ m a. (true, a ∷ m); is_mapped = λ m a. in_list a m }

pub pages-Laws : PagesLaws pages
pages-Laws = record {
  maps = λ m a e. rw (==_refl a) refl;
  keeps = λ m a b h. elim (Bool-cases (a == b)) [ inl e ↦ rw e refl | inr e ↦ rw e h ];
}

sys_sbrk-HeapMapped_example :
    HeapMapped pages
      (sys_sbrk pages 100 user_heap_start []).1
      (sys_sbrk pages 100 user_heap_start []).2
    × ((sys_sbrk pages 100 user_heap_start []).1 ≡ (
        if is_ok pages (sys_sbrk pages 100 user_heap_start []).0
        then user_heap_start + 100
        else user_heap_start))
sys_sbrk-HeapMapped_example = sys_sbrk-HeapMapped pages pages-Laws 100 user_heap_start [] (record {
  above = omega arith;
  below = omega arith;
  pages_of = λ a low high. absurd (omega arith);
})

abbrev one_page : PageTable
one_page = record {
  canonical = λ a. true;
  translate = λ a. if a == 4096 then some 7 else none;
  contains_required = λ bits. bits == 7;
}

validate_write_range-Verdict_example :
    Verdict one_page (5000 / 4096 * 4096) (5000 + 10) (validate_write_range one_page 5000 10)
validate_write_range-Verdict_example = validate_write_range-Verdict one_page 5000 10

buffer_checked : validate_write_range one_page 5000 2 ≡ ends_at 5002
unfolding validate_write_range check_pages
buffer_checked = refl
