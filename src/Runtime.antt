-- ===== src/Runtime.antt =====
-- libs/tarnos-rt/src/syscall.rs: the wrappers of the system calls. The instruction `syscall` is a parameter
-- that takes the registers to those on return; the registers that a wrapper does not set are the
-- program's. A buffer is its address and its length.

pub mod Trip
pub mod UserHeap
pub mod Reads
pub mod Spawn
pub mod Rendezvous
use tarn_os.Prelude.{ℕ, List, [], ◌∷◌, get_or, if◌then◌else◌}
use tarn_os.Prelude.Int.{ℤ, to_i64, to_u64, is_negative}
use tarn_os.Abi.Number
use tarn_os.Abi.Errors.{SyscallError, from_retval}
use tarn_os.Abi.Message.{Message}
use tarn_os.Abi.ShortName.{pack_short_name}
use tarn_os.Abi.Status.{ExitStatus, from_regs}
use tarn_os.Kcore.CapTable.{Result, ok, err}
use tarn_os.Task.Process.{TrapFrame}

-- `if retval < 0 { Err(..) } else { Ok(..) }`.
unfoldable pub decode : {A : Type 0} → TrapFrame → A → Result A
decode back value =
    if is_negative (to_i64 back.rax) then err (from_retval (to_i64 back.rax)) else ok value

-- The registers at each `syscall`.
unfoldable pub yield_regs : TrapFrame → TrapFrame
yield_regs regs = record regs { rax = Number.yield }

unfoldable pub send_regs : TrapFrame → ℕ → Message → TrapFrame
send_regs regs cap message = record regs {
  rax = Number.send;
  rdi = cap;
  rsi = message.tag;
  rdx = get_or message.words 0 0;
  r10 = get_or message.words 1 0;
  r8 = get_or message.words 2 0;
  r9 = get_or message.words 3 0;
}

unfoldable pub recv_regs : TrapFrame → ℕ → TrapFrame
recv_regs regs cap = record regs { rax = Number.recv; rdi = cap }

unfoldable pub spawn_regs : TrapFrame → List ℕ → TrapFrame
spawn_regs regs name =
    let (lo, hi, len) = pack_short_name name in
    record regs { rax = Number.spawn; rdi = lo; rsi = hi; rdx = len }

unfoldable pub grant_regs : TrapFrame → ℕ → ℕ → ℕ → ℕ → TrapFrame
grant_regs regs target_pid src_cap dest_cap rights = record regs {
  rax = Number.grant;
  rdi = target_pid;
  rsi = src_cap;
  rdx = dest_cap;
  r10 = rights;
}

unfoldable pub process_start_regs : TrapFrame → ℕ → TrapFrame
process_start_regs regs target_pid = record regs { rax = Number.process_start; rdi = target_pid }

unfoldable pub wait_regs : TrapFrame → ℕ → TrapFrame
wait_regs regs target_pid = record regs { rax = Number.wait; rdi = target_pid }

unfoldable pub kill_regs : TrapFrame → ℕ → TrapFrame
kill_regs regs target_pid = record regs { rax = Number.kill; rdi = target_pid }

unfoldable pub sbrk_regs : TrapFrame → ℤ → TrapFrame
sbrk_regs regs increment = record regs { rax = Number.sbrk; rdi = to_u64 increment }

unfoldable pub block_read_regs : TrapFrame → ℕ → ℕ → ℕ → ℕ → TrapFrame
block_read_regs regs cap lba buf sector_count = record regs {
  rax = Number.block_read;
  rdi = cap;
  rsi = lba;
  rdx = buf;
  r10 = sector_count;
  r8 = 0;
  r9 = 0;
}

unfoldable pub file_read_regs : TrapFrame → ℕ → List ℕ → ℕ → ℕ → TrapFrame
file_read_regs regs cap name buf buf_len =
    let (name_lo, name_hi, name_len) = pack_short_name name in
    record regs {
      rax = Number.file_read;
      rdi = cap;
      rsi = name_lo;
      rdx = name_hi;
      r10 = name_len;
      r8 = buf;
      r9 = buf_len;
    }

unfoldable pub exit_regs : TrapFrame → ℤ → TrapFrame
exit_regs regs code = record regs { rax = Number.exit; rdi = to_u64 code }

-- What a wrapper makes of the registers on return.
unfoldable pub message_back : TrapFrame → Message
message_back back = record { tag = back.rdi; words = back.rsi ∷ back.rdx ∷ back.r10 ∷ 0 ∷ [] }

unfoldable pub status_back : TrapFrame → ExitStatus
status_back back = from_regs back.rdi back.rsi

module _ (syscall : TrapFrame → TrapFrame) (regs : TrapFrame) where
  unfoldable pub sys_send : ℕ → Message → Result (Unit {0})
  unfolding decode send_regs
  sys_send cap message = decode (syscall (send_regs regs cap message)) tt

  unfoldable pub sys_recv : ℕ → Result Message
  unfolding decode recv_regs message_back
  sys_recv cap = let back = syscall (recv_regs regs cap) in decode back (message_back back)

  unfoldable pub sys_spawn : List ℕ → Result ℕ
  unfolding decode spawn_regs
  sys_spawn name = let back = syscall (spawn_regs regs name) in decode back back.rax

  unfoldable pub sys_grant : ℕ → ℕ → ℕ → ℕ → Result (Unit {0})
  unfolding decode grant_regs
  sys_grant target_pid src_cap dest_cap rights =
      decode (syscall (grant_regs regs target_pid src_cap dest_cap rights)) tt

  unfoldable pub sys_process_start : ℕ → Result (Unit {0})
  unfolding decode process_start_regs
  sys_process_start target_pid = decode (syscall (process_start_regs regs target_pid)) tt

  unfoldable pub sys_wait : ℕ → Result ExitStatus
  unfolding decode wait_regs status_back
  sys_wait target_pid =
      let back = syscall (wait_regs regs target_pid) in decode back (status_back back)

  unfoldable pub sys_kill : ℕ → Result (Unit {0})
  unfolding decode kill_regs
  sys_kill target_pid = decode (syscall (kill_regs regs target_pid)) tt

  unfoldable pub sys_sbrk : ℤ → Result ℕ
  unfolding decode sbrk_regs
  sys_sbrk increment = let back = syscall (sbrk_regs regs increment) in decode back back.rax

  unfoldable pub sys_block_read : ℕ → ℕ → ℕ → ℕ → Result (Unit {0})
  unfolding decode block_read_regs
  sys_block_read cap lba buf sector_count =
      decode (syscall (block_read_regs regs cap lba buf sector_count)) tt

  unfoldable pub sys_file_read : ℕ → List ℕ → ℕ → ℕ → Result ℕ
  unfolding decode file_read_regs
  sys_file_read cap name buf buf_len =
      let back = syscall (file_read_regs regs cap name buf buf_len) in decode back back.rax
