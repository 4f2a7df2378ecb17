-- ===== src/Task/Scheduler/Kill.antt =====
-- kernel/src/task/scheduler.rs: a process that exits, one that another process kills, and the request
-- to a core to let go of what it runs. The memory of the processes that end is dropped by the caller.
use tarn_os.Prelude.{
  ℕ, zero, suc, ◌+◌, Bool, true, false, not, ◌||◌, List, [], Option, none, some, ◌==◌,
  if◌then◌else◌, set,
}
use tarn_os.Prelude.Int.{to_i32}
use tarn_os.Abi.Status.{ExitStatus, exited, killed}
use tarn_os.Task.Pid
use tarn_os.Task.Pid.{Pid}
use tarn_os.Task.Process.{TrapFrame, Process}
use tarn_os.Task.Scheduler.{
  Scheduler, max_processes, max_cores, current_at, set_current, is_pid, occupied_mut,
}
use tarn_os.Task.Scheduler.Termination.{Teardown, take_and_finalize_slot}
use tarn_os.Task.Scheduler.Dispatch.{Selectors, Switched, resumes, switch_to_next_or_halt}

abbrev pub mark_stack_busy : Scheduler → ℕ → Scheduler
mark_stack_busy s index = record s { stack_busy = set s.stack_busy index true }

-- One termination, with the fuel that always suffices.
abbrev pub terminate_slot : Scheduler → Pid → ExitStatus → Option Teardown
terminate_slot s pid status = take_and_finalize_slot (max_processes + 1) s pid status []

-- The first half of `terminate_current_process`: the process that the core runs ends. The answer has the
-- index of the stack that the core is still on. Other cores may act before the second half, which is
-- `switch_to_next_or_halt` with that index.
abbrev pub ended : Option Pid → Option Teardown → Option (Option ℕ × Scheduler × List Process)
ended pid none = none
ended none (some (t, drops)) = some (none, t, drops)
ended (some pid) (some (t, drops)) = some (some (Pid.index pid), t, drops)

abbrev pub end_of :
    Scheduler → ExitStatus → Option Pid → Option (Option ℕ × Scheduler × List Process)
end_of s status none = ended none (some (s, []))
end_of s status (some pid) =
    ended (some pid) (terminate_slot (mark_stack_busy s (Pid.index pid)) pid status)

unfoldable pub end_current :
    Scheduler → ℕ → ExitStatus → Option (Option ℕ × Scheduler × List Process)
end_current s core status = end_of s status (current_at s core)

-- `terminate_current_process` with nothing in between.
unfoldable pub terminate_current_process :
    Selectors → Scheduler → ℕ → ExitStatus → Option (Switched × List Process)
unfolding end_current
terminate_current_process sel s core status = elim (end_current s core status) [
  | none ↦ none
  | some (outgoing, t, drops) ↦ some (switch_to_next_or_halt sel t core outgoing, drops)
]

unfoldable pub on_syscall_exit :
    Selectors → Scheduler → ℕ → TrapFrame → Option (Switched × List Process)
unfolding terminate_current_process
on_syscall_exit sel s core frame = terminate_current_process sel s core (exited (to_i32 frame.rdi))

-- The check of `terminate_process`.
abbrev pub is_child_of : Pid → Option Process → Bool
is_child_of caller none = false
is_child_of caller (some p) = is_pid caller p.parent

unfoldable pub is_killable : Scheduler → Pid → Pid → Bool
is_killable s target caller = is_child_of caller (occupied_mut s target)

-- The first of `rounds` cores from `core` on that runs `target`.
unfoldable pub owning_core : ℕ → ℕ → Scheduler → Pid → Option ℕ
owning_core zero core s target = none
owning_core (suc rounds) core s target =
    let rest = owning_core rounds (core + 1) s target in
    if is_pid target (current_at s core) then some core else rest

-- One round of the loop of `terminate_process`: the core that is asked to let the target go, or the
-- termination.
pub data Round : Type 0 where
  evicts : ℕ → Round
  terminates : Option Teardown → Round

abbrev pub round_of : Scheduler → Pid → Option ℕ → Round
round_of s target (some core) = evicts core
round_of s target none = terminates (terminate_slot s target killed)

unfoldable pub kill_round : Scheduler → Pid → Round
unfolding owning_core
kill_round s target = round_of s target (owning_core max_cores 0 s target)

-- `on_reschedule_ipi`; `evict` is the request that was swapped out, 0 for none.
unfoldable pub on_reschedule_ipi : Selectors → Scheduler → ℕ → ℕ → TrapFrame → Switched
unfolding set_current
on_reschedule_ipi sel s core evict frame =
    if evict == 0 || not (is_pid evict (current_at s core))
    then resumes frame s
    else switch_to_next_or_halt sel (mark_stack_busy (set_current s core none) (Pid.index evict))
        core (some (Pid.index evict))
