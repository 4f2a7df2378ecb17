-- ===== src/Runtime/Rendezvous.antt =====
-- libs/tarnos-rt/src/syscall.rs against kernel/src/arch/x86_64/syscall.rs: a message from one program to
-- another.
use tarn_os.Prelude.{ℕ, ◌^◌, ◌≡◌, ◌<◌, refl, [], ◌∷◌, get_or, arith}
use tarn_os.Abi.Message.{Message}
use tarn_os.Kcore.CapTable.{ok}
use tarn_os.Kcore.Endpoint.{Slot, process, receiver_waiting, nobody}
use tarn_os.Kcore.Endpoint
use tarn_os.Task.Pid.{Pid}
use tarn_os.Task.Process.{TrapFrame, wake_frame}
use tarn_os.Ipc.Endpoint.{receipt, wake_process, wake_receiver, try_send}
use tarn_os.Ipc.Endpoint.Hand.{one_sender-try_recv}
use tarn_os.Syscall.{
  Kernel, Flags, answers, with_rax, cap_index, resolve_endpoint, system_of, with_system, message_of,
  send_on, sent,
}
use tarn_os.Syscall
use tarn_os.Runtime.{send_regs, sys_send, sys_recv}

-- A program that receives has blocked on an endpoint, and another sends on it: the kernel takes the capability
-- index and the message from the registers as the sender passed them, answers the sender with
-- success, empties the endpoint and wakes the receiver, whose call returns the message's tag and
-- first three words, and 0 for the fourth.
pub send_reaches_recv :
    (flags : Flags) (k : Kernel) (core n cap other_cap tag w0 w1 w2 w3 : ℕ)
    (regs other_regs : TrapFrame) (sender target : Pid)
    → cap < 2 ^ 32
    → resolve_endpoint flags.ops k.scheduler core cap flags.send_right ≡ ok (n, sender)
    → get_or k.endpoints n Slot.empty ≡ receiver_waiting (process target)
    → let m : Message = record { tag = tag; words = w0 ∷ w1 ∷ w2 ∷ w3 ∷ [] } in
      let request = send_regs regs cap m in
      (Syscall.sys_send flags k core request
        ≡ answers (with_rax request 0) (
            with_system k n
              (wake_process (record (system_of k n) { slot = Slot.empty }) target (receipt m))))
      × (sys_send (λ f. with_rax f 0) regs cap m ≡ ok tt)
      × (sys_recv (wake_frame (receipt m)) other_regs other_cap
          ≡ ok (record { tag = tag; words = w0 ∷ w1 ∷ w2 ∷ 0 ∷ [] }))
unfolding Syscall.sys_send sys_send sys_recv try_send wake_receiver Endpoint.try_send wake_frame
send_reaches_recv flags k core n cap other_cap tag w0 w1 w2 w3 regs other_regs sender target small
      found waits =
    let m : Message = record { tag = tag; words = w0 ∷ w1 ∷ w2 ∷ w3 ∷ [] } in
    let whole : cap_index cap ≡ cap = omega arith in
    (rw (whole, found, waits, one_sender-try_recv m nobody (process target)) refl, refl, refl)
