-- ===== src/Tests/Ipc.antt =====
-- kernel/src/ipc/endpoint.rs: a message between two processes.
use tarn_os.Prelude.{[], ◌∷◌, none, some, ◌==◌}
use tarn_os.Abi.Message.{Message}
use tarn_os.Kcore.CapTable.{RightsOps}
use tarn_os.Kcore.Endpoint.{Slot, process, receiver_waiting}
use tarn_os.Kcore.Endpoint.Rendezvous.{senders}
use tarn_os.Kcore.Endpoint.Refine.{idle}
use tarn_os.Task.Process.{ProcessState, KernelObjectRef, Process}
use tarn_os.Task.Scheduler
use tarn_os.Ipc.Endpoint.{System, try_send}
use tarn_os.Tests.Task.{process_of}
use tarn_os.Ipc.Orphans.{Endpoints, wake_orphaned_receivers}
use tarn_os.Ipc.Orphans.Woken.{IsOrphan, ClosesAll, wake_orphaned_receivers-ClosesAll}
use tarn_os.Ipc.Endpoint.Hand.{Answers, try_send-Answers}

abbrev quiet : System
quiet = record { slot = Slot.empty; scheduler = Scheduler.new; wakes = [] }

abbrev note : Message
note = record { tag = 7; words = 1 ∷ 2 ∷ 3 ∷ 4 ∷ [] }

try_send-Answers_example : Answers (try_send quiet note 5)
try_send-Answers_example = try_send-Answers quiet note 5 (senders []) idle

abbrev flags : RightsOps
flags = record { contains = λ held required. held == required }

-- A process that could send on endpoint 0, where process 6 waits to receive.
abbrev gone : Process
gone = record (process_of 5 ProcessState.running none) {
  cap_table = some (record { object = KernelObjectRef.endpoint 0; rights = 1 }) ∷ [];
}

abbrev endpoints : Endpoints
endpoints = record { slots = receiver_waiting (process 6) ∷ []; scheduler = Scheduler.new }

wake_orphaned_receivers-ClosesAll_example :
    ClosesAll
      (IsOrphan flags (gone ∷ []) Scheduler.new.processes)
      endpoints
      (wake_orphaned_receivers flags (gone ∷ []) endpoints)
wake_orphaned_receivers-ClosesAll_example =
    wake_orphaned_receivers-ClosesAll flags (gone ∷ []) endpoints
