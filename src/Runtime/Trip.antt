-- ===== src/Runtime/Trip.antt =====
-- libs/tarnos-rt/src/syscall.rs against kernel/src/arch/x86_64/syscall.rs: what a program's call asks of
-- the kernel, and what the program makes of the answer.
use tarn_os.Prelude.{ℕ, ◌^◌, ◌≡◌, ◌<◌, ◌≤◌, refl, ap, false, some, arith}
use tarn_os.Prelude.Int.{ℤ, pos, negsuc, to_i64, to_u64, to_i32, IsI32}
use tarn_os.Abi.Errors.{SyscallError, as_retval, from_retval, from_retval-as_retval}
use tarn_os.Abi.Status.{ExitStatus, exited, IsStatus, from_regs-to_regs}
use tarn_os.Kcore.CapTable.{ok, err}
use tarn_os.Task.Pid
use tarn_os.Task.Pid.{Pid}
use tarn_os.Task.Process.{TrapFrame, Process, wait_completed, wake_frame}
use tarn_os.Task.Scheduler.{Scheduler, Slot, slot_at, is_stale}
use tarn_os.Task.Scheduler.Dispatch.{Selectors}
use tarn_os.Task.Scheduler.Kill.{on_syscall_exit, terminate_current_process}
use tarn_os.Task.Scheduler.Wait.{wait_for_child-zombie}
use tarn_os.Syscall.{
  Kernel, message_of, message_frame, with_rax, cap_index, current_process, answers,
}
use tarn_os.Syscall
use tarn_os.Runtime.{decode, wait_regs, exit_regs, status_back, sys_wait}

-- An error in `rax` comes out as that error.
pub decode-refused :
    {A : Type 0} (frame : TrapFrame) (e : SyscallError) (value : A)
    → decode (with_rax frame (to_u64 (as_retval e))) value ≡ err e
unfolding decode
decode-refused frame e value =
    let (negative, same) = from_retval-as_retval e in rw (negative, same) refl

pub decode-small :
    {A : Type 0} (back : TrapFrame) (value : A) → back.rax < 2 ^ 63 → decode back value ≡ ok value
unfolding decode
decode-small back value h = ground (arith, h)

pub decode-large :
    {A : Type 0} (back : TrapFrame) (value : A)
    → 2 ^ 63 ≤ back.rax
    → back.rax < 2 ^ 64
    → decode back value ≡ err (from_retval (to_i64 back.rax))
unfolding decode
decode-large back value h k = ground (arith, h, k)

-- The registers of a wait that ends, read back.
wake-wait :
    (frame regs : TrapFrame) (target : ℕ) (status : ExitStatus)
    → IsStatus status
    → sys_wait (λ f. wake_frame (wait_completed status) frame) regs target ≡ ok status
unfolding sys_wait decode status_back wake_frame
wake-wait frame regs target status h = ap ok (from_regs-to_regs status h)

-- A program that waits for its child learns how the child ended. If the child ended before, the kernel
-- answers at once and the program's call returns that status; if the program blocked, its call
-- returns the status that the scheduler wakes it with.
pub sys_wait_status :
    (k : Kernel) (core target : ℕ) (regs frame : TrapFrame) (caller : Process) (status : ExitStatus)
    → current_process k.scheduler core ≡ some caller
    → IsStatus status
    → is_stale k.scheduler target ≡ false
    → slot_at k.scheduler (Pid.index target) ≡ Slot.zombie caller.pid status
    → (back : TrapFrame) × (after : Kernel) × (Syscall.sys_wait k core (wait_regs regs target)
        ≡ answers back after)
      × (sys_wait (λ f. back) regs target ≡ ok status)
      × (sys_wait (λ f. wake_frame (wait_completed status) frame) regs target ≡ ok status)
unfolding Syscall.sys_wait wait_regs
sys_wait_status k core target regs frame caller status runs legal fresh slot =
    let request = wait_regs regs target in
    let (t, e, _) =
      wait_for_child-zombie k.scheduler core core request request target caller.pid caller.pid
        status fresh slot in
    (
      wake_frame (wait_completed status) request,
      record k { scheduler = t },
      rw (Syscall.sys_wait, runs, e) refl,
      wake-wait request regs target status legal,
      wake-wait frame regs target status legal,
    )

-- The code that a program exits with is the one that its parent's wait returns.
pub sys_exit-sys_wait :
    (sel : Selectors) (s : Scheduler) (core target : ℕ) (regs parent_regs frame : TrapFrame)
    (code : ℤ)
    → IsI32 code
    → (on_syscall_exit sel s core (exit_regs regs code)
        ≡ terminate_current_process sel s core (exited code))
      × (sys_wait (λ f. wake_frame (wait_completed (exited code)) frame) parent_regs target
          ≡ ok (exited code))
unfolding on_syscall_exit exit_regs
sys_exit-sys_wait sel s core target regs parent_regs frame code small = (
  ap (λ c. terminate_current_process sel s core (exited c)) (low_half code small),
  wake-wait frame parent_regs target (exited code) small,
)
  where
    low_half : (c : ℤ) → IsI32 c → to_i32 (to_u64 c) ≡ c
    low_half (pos n) h = ground arith
    low_half (negsuc n) h = ground arith
