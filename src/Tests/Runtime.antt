-- ===== src/Tests/Runtime.antt =====
-- libs/tarnos-rt/src/syscall.rs: calls of a program and the kernel's answers.
use tarn_os.Prelude.{
  ℕ, ◌%◌, ◌≡◌, refl, true, false, List, [], ◌∷◌, ◌++◌, some, none, replicate, ◌==◌, arith,
}
use tarn_os.Prelude.Int.{pos}
use tarn_os.Abi.Message.{Message}
use tarn_os.Abi.Status.{exited}
use tarn_os.Kcore.CapTable
use tarn_os.Kcore.CapTable.{ok, CapabilitySlot}
use tarn_os.Kcore.Endpoint.{Slot, process, receiver_waiting}
use tarn_os.Task.Pid
use tarn_os.Task.Process.{
  KernelObjectRef, Process, ProcessState, TrapFrame, wake_frame, wait_completed,
}
use tarn_os.Task.Scheduler
use tarn_os.Task.Scheduler.{Scheduler, occupied_mut, allocate_pid}
use tarn_os.Ipc.Endpoint.{receipt, wake_process}
use tarn_os.Syscall.{
  Kernel, Flags, Outcome, answers, with_rax, resolve_endpoint, current_process, system_of,
  with_system,
}
use tarn_os.Syscall
use tarn_os.Syscall.Spawn
use tarn_os.Elf.{mapped, read}
use tarn_os.Elf.Load.{load, load_headers, read_file_header}
use tarn_os.Task.Load.{Images, made, from_elf, new_process, map_stack}
use tarn_os.Runtime.{send_regs, wait_regs, sys_send, sys_recv, sys_wait}
use tarn_os.Runtime.Rendezvous.{send_reaches_recv}
use tarn_os.Runtime.Trip.{sys_wait_status}
use tarn_os.Tests.Task.{blank, process_of, parent_pid, child_pid, family}

abbrev flags : Flags
flags = record {
  ops = record { contains = λ held required. held == required };
  truncate = λ bits. bits % 8;
  send_right = 1;
  recv_right = 2;
}

abbrev console : CapabilitySlot KernelObjectRef
console = record { object = KernelObjectRef.endpoint 0; rights = 1 }

abbrev parent : Process
parent = record (process_of parent_pid ProcessState.running none) { cap_table = some console ∷ [] }

-- The parent may send on an endpoint where its child waits.
abbrev kernel : Kernel
kernel = record {
  scheduler = record family {
    processes =
        Scheduler.occupied parent
        ∷ Scheduler.occupied (process_of child_pid ProcessState.blocked (some parent_pid))
        ∷ replicate 14 Scheduler.empty;
  };
  endpoints = receiver_waiting (process child_pid) ∷ [];
  wakes = [];
}

may_send : resolve_endpoint flags.ops kernel.scheduler 0 0 flags.send_right ≡ ok (0, parent_pid)
unfolding resolve_endpoint current_process occupied_mut Pid.index Pid.generation CapTable.lookup
    CapTable.get
may_send = refl

abbrev message : Message
message = record { tag = 7; words = 1 ∷ 2 ∷ 3 ∷ 4 ∷ [] }

send_reaches_recv_example :
    (Syscall.sys_send flags kernel 0 (send_regs blank 0 message)
      ≡ answers (with_rax (send_regs blank 0 message) 0) (
          with_system kernel 0 (
            wake_process
              (record (system_of kernel 0) { slot = Slot.empty })
              child_pid
              (receipt message))))
    × (sys_send (λ f. with_rax f 0) blank 0 message ≡ ok tt)
    × (sys_recv (wake_frame (receipt message)) blank 0
        ≡ ok (record { tag = 7; words = 1 ∷ 2 ∷ 3 ∷ 0 ∷ [] }))
send_reaches_recv_example =
    send_reaches_recv flags kernel 0 0 0 0 7 1 2 3 4 blank blank parent_pid child_pid (omega arith)
      may_send refl

-- The child ended with the code 3.
abbrev bereaved : Kernel
bereaved = record kernel {
  scheduler = record kernel.scheduler {
    processes =
        Scheduler.occupied parent
        ∷ Scheduler.zombie parent_pid (exited (pos 3))
        ∷ replicate 14 Scheduler.empty;
  };
}

parent_runs : current_process bereaved.scheduler 0 ≡ some parent
unfolding current_process occupied_mut Pid.index Pid.generation
parent_runs = refl

child_named : Scheduler.is_stale bereaved.scheduler child_pid ≡ false
unfolding Pid.index Pid.generation
child_named = refl

child_slot :
    Scheduler.slot_at bereaved.scheduler (Pid.index child_pid)
    ≡ Scheduler.zombie parent_pid (exited (pos 3))
unfolding Pid.index
child_slot = refl

sys_wait_status_example :
    (back : TrapFrame) × (after : Kernel) × (Syscall.sys_wait bereaved 0 (wait_regs blank child_pid)
      ≡ answers back after)
    × (sys_wait (λ f. back) blank child_pid ≡ ok (exited (pos 3)))
    × (sys_wait (λ f. wake_frame (wait_completed (exited (pos 3))) blank) blank child_pid
        ≡ ok (exited (pos 3)))
sys_wait_status_example =
    sys_wait_status bereaved 0 child_pid blank blank parent (exited (pos 3)) parent_runs
      (omega arith) child_named child_slot

abbrev images : Images
images = record {
  canonical = λ a. true;
  mapper = record { map_to = λ so_far page flags. mapped };
  selectors = record { user_code = 51; user_data = 43 };
  fresh = some (record { bytes = λ a. 0; pages = [] });
}

-- One program of the boot loader's: an image for the machine 62 without segments, entered at 0x1000.
abbrev image : List ℕ
image =
    0x7f ∷ 0x45 ∷ 0x4c ∷ 0x46 ∷ 2 ∷ 1 ∷ replicate 10 0
    ++ 2 ∷ 0 ∷ 62 ∷ 0 ∷ replicate 5 0
    ++ 0x10 ∷ replicate 28 0
    ++ 56 ∷ replicate 9 0

abbrev modules : List (List ℕ × List ℕ)
modules = ([], image) ∷ []

child_made :
    (p : Process) × (from_elf images (allocate_pid kernel.scheduler).0 image (some parent_pid)
      ≡ made p)
    × (p.trap_frame.rip ≡ 0x1000)
unfolding from_elf new_process map_stack load load_headers read_file_header read
child_made = (_, refl, refl)
