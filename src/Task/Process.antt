-- ===== src/Task/Process.antt =====
-- kernel/src/task/process.rs, and the register frame of arch/x86_64/context_switch.rs. A process has
-- no address space here: the scheduler's table only carries it along.
use tarn_os.Prelude.{ℕ, Option}
use tarn_os.Abi.Status.{ExitStatus, to_regs}
use tarn_os.Abi.Errors.{peer_closed, as_retval}
use tarn_os.Prelude.Int.{to_u64}
use tarn_os.Kcore.CapTable.{CapTable}
use tarn_os.Task.Pid.{Pid}

-- `TrapFrame`.
pub record TrapFrame : Type 0 where
  pub r15 : ℕ
  pub r14 : ℕ
  pub r13 : ℕ
  pub r12 : ℕ
  pub r11 : ℕ
  pub r10 : ℕ
  pub r9 : ℕ
  pub r8 : ℕ
  pub rbp : ℕ
  pub rdi : ℕ
  pub rsi : ℕ
  pub rdx : ℕ
  pub rcx : ℕ
  pub rbx : ℕ
  pub rax : ℕ
  pub rip : ℕ
  pub cs : ℕ
  pub rflags : ℕ
  pub rsp : ℕ
  pub ss : ℕ

pub data ProcessState : Type 0 where
  ready running blocked suspended : ProcessState

-- `KernelObjectRef`. An endpoint is named by a number: two `Arc`s point to one endpoint exactly
-- when their numbers are equal.
pub data KernelObjectRef : Type 0 where
  endpoint : ℕ → KernelObjectRef
  block_device fs_root : KernelObjectRef

-- `WakeResult` of task/scheduler.rs.
pub data WakeResult : Type 0 where
  send_completed : WakeResult
  recv_completed : ℕ → ℕ → ℕ → ℕ → WakeResult
  wait_completed : ExitStatus → WakeResult
  peer_closed_result : WakeResult

pub record Process : Type 0 where
  pub pid : Pid
  pub trap_frame : TrapFrame
  pub cap_table : CapTable KernelObjectRef
  pub state : ProcessState
  pub parent : Option Pid
  pub wait_waiter : Option Pid
  pub pending_wake : Option WakeResult
  pub heap_end : ℕ

-- The registers that a wake leaves for the process.
unfoldable pub wake_frame : WakeResult → TrapFrame → TrapFrame
wake_frame send_completed f = record f { rax = 0 }
wake_frame (recv_completed tag w0 w1 w2) f = record f {
  rax = 0;
  rdi = tag;
  rsi = w0;
  rdx = w1;
  r10 = w2;
}
wake_frame (wait_completed status) f =
    let (kind, code) = to_regs status in record f { rax = 0; rdi = kind; rsi = code }
wake_frame peer_closed_result f = record f { rax = to_u64 (as_retval peer_closed) }

-- `apply_wake_result`.
unfoldable pub apply_wake_result : Process → WakeResult → Process
unfolding wake_frame
apply_wake_result p result = record p { trap_frame = wake_frame result p.trap_frame; state = ready }
