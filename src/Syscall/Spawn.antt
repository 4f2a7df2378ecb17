-- ===== src/Syscall/Spawn.antt =====
-- kernel/src/arch/x86_64/syscall.rs: `sys_spawn`. The program is one that the boot loader shipped, or a file of
-- the volume.
use tarn_os.Prelude.{ℕ, List, Option, none, some}
use tarn_os.Abi.ShortName.{unpack_short_name}
use tarn_os.Abi.Errors.{invalid_target, no_such_program, spawn_failed}
use tarn_os.Fs.Block.{BlockDevice}
use tarn_os.Fs.Fat.{Fat12Volume}
use tarn_os.Fs.Fat
use tarn_os.Fs.Fat.Read.{read_file}
use tarn_os.Fs.Fat.Root.{with_root}
use tarn_os.Task.Pid.{Pid}
use tarn_os.Task.Process.{TrapFrame, suspended, Process}
use tarn_os.Task.Scheduler
use tarn_os.Task.Scheduler.{Scheduler, allocate_pid, release_reservation, spawn_suspended}
use tarn_os.Task.Load.{Images, Created, broken, unmade, made, from_elf, lookup_spawnable_module}
use tarn_os.Syscall.{Kernel, Outcome, answers, fails, with_rax, refuses, current_process}

abbrev pub answer_spawn : TrapFrame → Kernel → Pid → Scheduler.Result → Scheduler → Outcome
answer_spawn frame k child (Scheduler.ok s) before =
    answers (with_rax frame child) (record k { scheduler = s })
answer_spawn frame k child (Scheduler.err e) before =
    refuses frame e (record k { scheduler = before })

abbrev pub loaded : TrapFrame → Kernel → Pid → Scheduler → Created → Outcome
loaded frame k child s broken = fails
loaded frame k child s unmade =
    refuses frame spawn_failed (record k { scheduler = release_reservation s child })
loaded frame k child s (made p) =
    answer_spawn frame k child (spawn_suspended s (record p { state = suspended })) s

-- `.and_then(Result::ok)`.
abbrev pub read_ok : Option (Fat.Result (List ℕ)) → Option (List ℕ)
read_ok none = none
read_ok (some (Fat.err e)) = none
read_ok (some (Fat.ok bytes)) = some bytes

module _ {D : Type 0} (device : BlockDevice D) (images : Images) (modules : List (List ℕ × List ℕ))
    (root : Option Fat12Volume) where
  -- The bytes of a program, and the device after the search.
  unfoldable pub find_program : List ℕ → Option D → Option (List ℕ) × Option D
  unfolding with_root
  find_program name attached = elim (lookup_spawnable_module modules name) [
    | some bytes ↦ (some bytes, attached)
    | none ↦
        let (r, after) = with_root root attached (λ v dev. read_file device v name dev) in
        (read_ok r, after)
  ]

  abbrev pub spawn_found : Kernel → TrapFrame → Pid → Option (List ℕ) → Outcome
  spawn_found k frame caller none = refuses frame no_such_program k
  spawn_found k frame caller (some bytes) =
      let (child, s) = allocate_pid k.scheduler in
      loaded frame k child s (from_elf images child bytes (some caller))

  abbrev pub spawn_for : Kernel → TrapFrame → Option D → Option Process → Outcome × Option D
  spawn_for k frame attached none = (refuses frame invalid_target k, attached)
  spawn_for k frame attached (some p) =
      let (found, after) =
        find_program (unpack_short_name frame.rdi frame.rsi frame.rdx) attached in
      (spawn_found k frame p.pid found, after)

  unfoldable pub sys_spawn : Kernel → ℕ → TrapFrame → Option D → Outcome × Option D
  unfolding current_process find_program
  sys_spawn k core frame attached = spawn_for k frame attached (current_process k.scheduler core)
