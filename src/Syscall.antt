-- ===== src/Syscall.antt =====
-- kernel/src/arch/x86_64/syscall.rs: the system calls that work on processes, capabilities and endpoints.
-- The registers of a call are those of its frame; a call of the scheduler or of an endpoint is one
-- step. A user's memory, its heap and the devices are in other modules or left out.
pub mod Grant
pub mod Heap
pub mod Range
pub mod Transfer
pub mod Device
pub mod Spawn
pub mod Dispatch
use tarn_os.Prelude.{
  ℕ, ◌+◌, ◌%◌, ◌^◌, Bool, true, false, not, ◌||◌, List, [], ◌∷◌, Option, none, some, ◌==◌,
  if◌then◌else◌, get_or, set,
}
use tarn_os.Prelude.Int.{to_u64}
use tarn_os.Abi.Message.{Message}
use tarn_os.Abi.ShortName.{unpack_short_name}
use tarn_os.Abi.Errors.{
  SyscallError, bad_capability, permission_denied, resource_exhausted, invalid_target,
  no_such_program, spawn_failed, as_retval,
}
use tarn_os.Kcore.CapTable
use tarn_os.Kcore.CapTable.{Result, ok, err, RightsOps, CapabilitySlot, CapTable}
use tarn_os.Kcore.Endpoint.{Slot}
use tarn_os.Task.Pid
use tarn_os.Task.Pid.{Pid}
use tarn_os.Task.Process.{TrapFrame, KernelObjectRef, suspended, Process}
use tarn_os.Task.Scheduler
use tarn_os.Task.Scheduler.{
  Scheduler, put_slot, current_at, occupied_mut, is_pid, is_suspended, allocate_pid,
  release_reservation, spawn_suspended, start_child, block_current_process,
}
use tarn_os.Task.Scheduler.Wait.{Waited, returns, switches, wait_for_child}
use tarn_os.Task.Scheduler.Kill.{is_killable}
use tarn_os.Ipc.Endpoint
use tarn_os.Ipc.Endpoint.{EndpointSlot, System, SendResult, RecvResult}

-- The endpoints by number, and the wakers of tasks that were called.
pub record Kernel : Type 0 where
  pub scheduler : Scheduler
  pub endpoints : List EndpointSlot
  pub wakes : List ℕ

-- The bits of `Rights`, of the crate bitflags.
pub record Flags : Type 0 where
  pub ops : RightsOps
  pub truncate : ℕ → ℕ
  pub send_right : ℕ
  pub recv_right : ℕ

-- How a call ends: the caller goes on with the frame, or it blocked and its core goes on with
-- `switch_to_next_or_halt`, or the rounds of a kill follow, or the kernel panics.
pub data Outcome : Type 0 where
  answers : TrapFrame → Kernel → Outcome
  blocks : Kernel → Outcome
  kills : Pid → Kernel → Outcome
  fails : Outcome

abbrev pub with_rax : TrapFrame → ℕ → TrapFrame
with_rax frame value = record frame { rax = value }

abbrev pub refuses : TrapFrame → SyscallError → Kernel → Outcome
refuses frame e k = answers (with_rax frame (to_u64 (as_retval e))) k

abbrev pub cap_index : ℕ → ℕ
cap_index register = register % 2 ^ 32

-- `with_process` with a closure that returns the process as it leaves it.
unfoldable pub with_process :
    {R : Type 0} → Scheduler → Pid → (Process → Process × R) → Option (R × Scheduler)
with_process s pid f = elim (occupied_mut s pid) [
  | none ↦ none
  | some p ↦ let (q, r) = f p in some (r, put_slot s (Pid.index pid) (Scheduler.occupied q))
]

-- `with_current_process` with a closure that only reads.
abbrev pub named_process : Scheduler → Option Pid → Option Process
named_process s none = none
named_process s (some pid) = occupied_mut s pid

unfoldable pub current_process : Scheduler → ℕ → Option Process
current_process s core = named_process s (current_at s core)

abbrev pub endpoint_of : Pid → KernelObjectRef → Result (ℕ × Pid)
endpoint_of pid (KernelObjectRef.endpoint n) = ok (n, pid)
endpoint_of pid KernelObjectRef.block_device = err bad_capability
endpoint_of pid KernelObjectRef.fs_root = err bad_capability

abbrev pub endpoint_in : Pid → Result (CapabilitySlot KernelObjectRef) → Result (ℕ × Pid)
endpoint_in pid (err e) = err e
endpoint_in pid (ok slot) = endpoint_of pid slot.object

unfoldable pub resolve_endpoint : RightsOps → Scheduler → ℕ → ℕ → ℕ → Result (ℕ × Pid)
resolve_endpoint rights s core index required = elim (current_process s core) [
  | none ↦ err bad_capability
  | some p ↦ endpoint_in p.pid (CapTable.lookup rights p.cap_table index required)
]

abbrev pub system_of : Kernel → ℕ → System
system_of k n = record {
  slot = get_or k.endpoints n Slot.empty;
  scheduler = k.scheduler;
  wakes = k.wakes;
}

abbrev pub with_system : Kernel → ℕ → System → Kernel
with_system k n system = record {
  scheduler = system.scheduler;
  endpoints = set k.endpoints n system.slot;
  wakes = system.wakes;
}

abbrev pub blocked : Kernel → ℕ → TrapFrame → Outcome
blocked k core frame =
    blocks (record k { scheduler = block_current_process k.scheduler core frame })

abbrev pub sent : Kernel → ℕ → ℕ → TrapFrame → Option (SendResult × System) → Outcome
sent k core n frame none = fails
sent k core n frame (some (SendResult.delivered, system)) =
    answers (with_rax frame 0) (with_system k n system)
sent k core n frame (some (SendResult.blocked, system)) =
    blocked (with_system k n system) core frame
sent k core n frame (some (SendResult.queue_full, system)) =
    refuses frame resource_exhausted (with_system k n system)

abbrev pub message_of : TrapFrame → Message
message_of frame = record {
  tag = frame.rsi;
  words = frame.rdx ∷ frame.r10 ∷ frame.r8 ∷ frame.r9 ∷ [];
}

abbrev pub send_on : Kernel → ℕ → TrapFrame → Result (ℕ × Pid) → Outcome
send_on k core frame (err e) = refuses frame e k
send_on k core frame (ok (n, pid)) =
    sent k core n frame (Endpoint.try_send (system_of k n) (message_of frame) pid)

unfoldable pub sys_send : Flags → Kernel → ℕ → TrapFrame → Outcome
unfolding resolve_endpoint
sys_send flags k core frame =
    send_on k core frame
      (resolve_endpoint flags.ops k.scheduler core (cap_index frame.rdi) flags.send_right)

abbrev pub message_frame : TrapFrame → Message → TrapFrame
message_frame frame message = record frame {
  rax = 0;
  rdi = message.tag;
  rsi = get_or message.words 0 0;
  rdx = get_or message.words 1 0;
  r10 = get_or message.words 2 0;
}

abbrev pub received : Kernel → ℕ → ℕ → TrapFrame → Option (RecvResult × System) → Outcome
received k core n frame none = fails
received k core n frame (some (RecvResult.delivered message, system)) =
    answers (message_frame frame message) (with_system k n system)
received k core n frame (some (RecvResult.blocked, system)) =
    blocked (with_system k n system) core frame
received k core n frame (some (RecvResult.queue_full, system)) =
    refuses frame resource_exhausted (with_system k n system)

abbrev pub recv_on : Kernel → ℕ → TrapFrame → Result (ℕ × Pid) → Outcome
recv_on k core frame (err e) = refuses frame e k
recv_on k core frame (ok (n, pid)) = received k core n frame (Endpoint.try_recv (system_of k n) pid)

unfoldable pub sys_recv : Flags → Kernel → ℕ → TrapFrame → Outcome
unfolding resolve_endpoint
sys_recv flags k core frame =
    recv_on k core frame
      (resolve_endpoint flags.ops k.scheduler core (cap_index frame.rdi) flags.recv_right)

-- What the caller of `SYS_GRANT` may pass on, and its `Pid`.
abbrev pub offered :
    RightsOps → ℕ → Pid → Result (CapabilitySlot KernelObjectRef) → Result (KernelObjectRef × Pid)
offered rights requested pid (err e) = err e
offered rights requested pid (ok slot) =
    if rights.contains slot.rights requested then ok (slot.object, pid) else err permission_denied

abbrev pub granted : Pid → ℕ → KernelObjectRef → ℕ → Process → Process × Result (Unit {0})
granted caller index object rights child =
    if not (is_pid caller child.parent) || not (is_suspended child.state)
    then (child, err invalid_target)
    else (
      record child {
        cap_table =
            CapTable.insert child.cap_table index (record { object = object; rights = rights });
      },
      ok tt,
    )

abbrev pub answer_grant : TrapFrame → Kernel → Option (Result (Unit {0}) × Scheduler) → Outcome
answer_grant frame k none = refuses frame invalid_target k
answer_grant frame k (some (err e, s)) = refuses frame e (record k { scheduler = s })
answer_grant frame k (some (ok done, s)) = answers (with_rax frame 0) (record k { scheduler = s })

abbrev pub grant_to : Kernel → TrapFrame → ℕ → Result (KernelObjectRef × Pid) → Outcome
grant_to k frame requested (err e) = refuses frame e k
grant_to k frame requested (ok (object, caller)) =
    answer_grant frame k
      (with_process k.scheduler frame.rdi (granted caller (cap_index frame.rdx) object requested))

abbrev pub resolve_grant :
    Flags → Kernel → TrapFrame → ℕ → Option Process → Result (KernelObjectRef × Pid)
resolve_grant flags k frame requested none = err bad_capability
resolve_grant flags k frame requested (some p) =
    offered flags.ops requested p.pid (CapTable.get p.cap_table (cap_index frame.rsi))

unfoldable pub sys_grant : Flags → Kernel → ℕ → TrapFrame → Outcome
unfolding with_process current_process
sys_grant flags k core frame =
    let requested = flags.truncate (frame.r10 % 2 ^ 8) in
    grant_to k frame requested
      (resolve_grant flags k frame requested (current_process k.scheduler core))

abbrev pub started : TrapFrame → Kernel → Scheduler.Result → Outcome
started frame k (Scheduler.ok s) = answers (with_rax frame 0) (record k { scheduler = s })
started frame k (Scheduler.err e) = refuses frame e k

unfoldable pub sys_process_start : Kernel → ℕ → TrapFrame → Outcome
unfolding current_process
sys_process_start k core frame = elim (current_process k.scheduler core) [
  | none ↦ refuses frame invalid_target k
  | some p ↦ started frame k (start_child k.scheduler frame.rdi p.pid)
]

abbrev pub waited : Kernel → Waited → Outcome
waited k (returns frame s) = answers frame (record k { scheduler = s })
waited k (switches s) = blocks (record k { scheduler = s })

unfoldable pub sys_wait : Kernel → ℕ → TrapFrame → Outcome
unfolding current_process
sys_wait k core frame = elim (current_process k.scheduler core) [
  | none ↦ refuses frame invalid_target k
  | some p ↦ waited k (wait_for_child k.scheduler core frame frame.rdi p.pid)
]

-- Up to the rounds of the kill, after which `rax` is 0.
unfoldable pub sys_kill : Kernel → ℕ → TrapFrame → Outcome
unfolding current_process
sys_kill k core frame = elim (current_process k.scheduler core) [
  | none ↦ refuses frame invalid_target k
  | some p ↦
      if is_killable k.scheduler frame.rdi p.pid
      then kills frame.rdi k
      else refuses frame invalid_target k
]
