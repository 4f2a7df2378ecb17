-- ===== src/Task/Load.antt =====
-- kernel/src/task/process.rs: how a process is made from an image, and the programs that the boot loader
-- shipped. The page tables and the frames are those of a `Mapper`; the process has no address space here.
use tarn_os.Prelude.{
  ℕ, zero, suc, ◌+◌, ◌-◌, ◌/◌, Bool, true, false, List, [], ◌∷◌, Option, none, some, if◌then◌else◌,
}
use tarn_os.Fs.Fat.{same_bytes}
use tarn_os.Elf.{Space, Mapper, mapped, no_frame, refused}
use tarn_os.Elf.Load.{Loaded, crashes, rejects, enters, load}
use tarn_os.Kcore.CapTable
use tarn_os.Task.Pid.{Pid}
use tarn_os.Task.Process.{TrapFrame, ready, Process}
use tarn_os.Task.Scheduler.Dispatch.{Selectors}
use tarn_os.Syscall.Heap.{user_heap_start}

-- `USER_STACK_TOP`, `USER_STACK_PAGES` and `RFLAGS_IF_AND_RESERVED`.
abbrev pub user_stack_top : ℕ
user_stack_top = 0x7fff_ffff_f000

abbrev pub user_stack_pages : ℕ
user_stack_pages = 4

abbrev pub rflags_if_and_reserved : ℕ
rflags_if_and_reserved = 0x202

-- `TrapFrame::initial_user_frame`.
abbrev pub initial_user_frame : Selectors → ℕ → ℕ → TrapFrame
initial_user_frame sel entry stack_top = record {
  r15 = 0;
  r14 = 0;
  r13 = 0;
  r12 = 0;
  r11 = 0;
  r10 = 0;
  r9 = 0;
  r8 = 0;
  rbp = 0;
  rdi = 0;
  rsi = 0;
  rdx = 0;
  rcx = 0;
  rbx = 0;
  rax = 0;
  rip = entry;
  cs = sel.user_code;
  rflags = rflags_if_and_reserved;
  rsp = stack_top;
  ss = sel.user_data;
}

-- The loop over the pages of the stack, `rounds` pages from `page` on, writable and not executable, and
-- whether each has a frame and is mapped. `so_far` are the pages that the process has.
unfoldable pub map_stack : Mapper → ℕ → ℕ → List ℕ → Bool
map_stack mapper zero page so_far = true
map_stack mapper (suc rounds) page so_far =
    let rest = map_stack mapper rounds (page + 1) (page ∷ so_far) in
    elim (mapper.map_to so_far page (true, true)) [
      | mapped ↦ rest
      | no_frame ↦ false
      | refused ↦ false
    ]

-- `Process::new`.
unfoldable pub new_process : Selectors → Mapper → Pid → Space → ℕ → Option Pid → Option Process
unfolding map_stack CapTable.new
new_process sel mapper pid space entry parent =
    if map_stack mapper user_stack_pages (user_stack_top / 4096 - user_stack_pages) space.pages
    then some (record {
      pid = pid;
      trap_frame = initial_user_frame sel entry user_stack_top;
      cap_table = CapTable.new;
      state = ready;
      parent = parent;
      wait_waiter = none;
      pending_wake = none;
      heap_end = user_heap_start;
    })
    else none

-- What `Process::from_elf` ends in; the first is a panic of `load`.
pub data Created : Type 0 where
  broken : Created
  unmade : Created
  made : Process → Created

abbrev pub made_of : Option Process → Created
made_of none = unmade
made_of (some p) = made p

abbrev pub started : Selectors → Mapper → Pid → Option Pid → Loaded → Created
started sel mapper pid parent crashes = broken
started sel mapper pid parent (rejects e) = unmade
started sel mapper pid parent (enters entry space) =
    made_of (new_process sel mapper pid space entry parent)

-- What a new process is made with: the test of `VirtAddr::new`, the page tables, the selectors of the core and
-- `AddressSpace::new`, which answers `none` if it has no frame.
pub record Images : Type 0 where
  pub canonical : ℕ → Bool
  pub mapper : Mapper
  pub selectors : Selectors
  pub fresh : Option Space

unfoldable pub from_elf : Images → Pid → List ℕ → Option Pid → Created
unfolding new_process
from_elf images pid elf_bytes parent = elim images.fresh [
  | none ↦ unmade
  | some space ↦
      started images.selectors images.mapper pid parent
        (load images.canonical images.mapper elf_bytes space)
]

-- The registry holds a name and its bytes for each module; the first of a name counts.
unfoldable pub lookup_spawnable_module : List (List ℕ × List ℕ) → List ℕ → Option (List ℕ)
unfolding same_bytes
lookup_spawnable_module [] name = none
lookup_spawnable_module ((n, bytes) ∷ modules) name =
    if same_bytes n name then some bytes else lookup_spawnable_module modules name
