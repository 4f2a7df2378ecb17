-- ===== src/Ipc/Orphans.antt =====
-- kernel/src/task/scheduler.rs: `wake_orphaned_receivers`, over the endpoints by their numbers.
pub mod Closed
pub mod Woken
use tarn_os.Prelude.{
  ℕ, zero, suc, ◌≡◌, ◌≢◌, refl, sym, subst, ap, ◌∙◌, Bool, true, false, not, ◌||◌, List, [], ◌∷◌,
  ◌++◌, Option, none, some, ◌==◌, ==_iff, ==_ne, ==_refl, if◌then◌else◌, get_or, set, get_or-set_ne,
  length, Bool-cases, inl, inr, ℕ_discrete, arith,
}
use tarn_os.Kcore.CapTable
use tarn_os.Kcore.CapTable.{RightsOps, CapabilitySlot, CapTable}
use tarn_os.Kcore.Endpoint.{Waiter, task, process, nobody, Slot, receiver_waiting}
use tarn_os.Task.Pid.{Pid}
use tarn_os.Task.Process.{KernelObjectRef, peer_closed_result, Process}
use tarn_os.Task.Scheduler
use tarn_os.Task.Scheduler.{Scheduler, wake_blocked_process}
use tarn_os.Ipc.Endpoint.{EndpointSlot, System, taken, take_waiting_process_receiver}

-- `Rights::SEND`.
abbrev pub send_right : ℕ
send_right = 1

abbrev pub member : ℕ → List ℕ → Bool
member n [] = false
member n (m ∷ ms) = m == n || member n ms

abbrev pub endpoint_and : KernelObjectRef → List ℕ → List ℕ
endpoint_and (KernelObjectRef.endpoint n) rest = n ∷ rest
endpoint_and KernelObjectRef.block_device rest = rest
endpoint_and KernelObjectRef.fs_root rest = rest

module _ (rights : RightsOps) where
  -- The endpoint that a capability may send on.
  abbrev pub sends_to : CapabilitySlot KernelObjectRef → List ℕ → List ℕ
  sends_to slot more =
      if rights.contains slot.rights send_right then endpoint_and slot.object more else more

  -- The endpoints that a table may send on, in the order of its slots.
  unfoldable pub send_targets : List (CapabilitySlot KernelObjectRef) → List ℕ
  send_targets [] = []
  send_targets (slot ∷ slots) = sends_to slot (send_targets slots)

  abbrev pub may_send : Scheduler.Slot → ℕ → Bool
  may_send Scheduler.empty n = false
  may_send Scheduler.reserved n = false
  may_send (Scheduler.zombie parent status) n = false
  may_send (Scheduler.occupied p) n = member n (send_targets (CapTable.iter p.cap_table))

  unfoldable pub still_has_a_live_sender : List Scheduler.Slot → ℕ → Bool
  still_has_a_live_sender [] n = false
  still_has_a_live_sender (slot ∷ slots) n = may_send slot n || still_has_a_live_sender slots n

  abbrev pub without_sender : List Scheduler.Slot → List ℕ → List ℕ
  without_sender slots [] = []
  without_sender slots (n ∷ ns) =
      if still_has_a_live_sender slots n
      then without_sender slots ns
      else n ∷ without_sender slots ns

  -- The first pass: the endpoints of the processes that died that nobody can send on any more.
  unfoldable pub orphaned : List Scheduler.Slot → List Process → List ℕ
  orphaned slots [] = []
  orphaned slots (p ∷ dying) =
      without_sender slots (send_targets (CapTable.iter p.cap_table)) ++ orphaned slots dying

-- All endpoints, by number, with the scheduler.
pub record Endpoints : Type 0 where
  pub slots : List EndpointSlot
  pub scheduler : Scheduler

-- Take the process that waits to receive, if there is one, and wake it.
abbrev pub closed : Endpoints → ℕ → Option Pid × System → Endpoints
closed s n (none, system) = s
closed s n (some pid, system) = record {
  slots = set s.slots n system.slot;
  scheduler = wake_blocked_process system.scheduler pid peer_closed_result;
}

abbrev pub close_one : Endpoints → ℕ → Endpoints
close_one s n = closed s n (
    taken (record { slot = get_or s.slots n Slot.empty; scheduler = s.scheduler; wakes = [] })
      (get_or s.slots n Slot.empty))

-- The second pass.
unfoldable pub close_all : List ℕ → Endpoints → Endpoints
close_all [] s = s
close_all (n ∷ ns) s = close_all ns (close_one s n)

unfoldable pub wake_orphaned_receivers : RightsOps → List Process → Endpoints → Endpoints
wake_orphaned_receivers rights dying s = close_all (orphaned rights s.scheduler.processes dying) s
