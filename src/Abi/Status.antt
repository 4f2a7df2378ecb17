-- ===== src/Abi/Status.antt =====
-- libs/tarnos-abi/src/lib.rs: `ExitStatus` and its two registers.
use tarn_os.Prelude.{ℕ, ◌≡◌, refl, ap, ◌==◌, if◌then◌else◌}
use tarn_os.Prelude.Int.{ℤ, to_u32, to_i32, IsI32, to_i32-to_u32}

pub data ExitStatus : Type 0 where
  exited : ℤ → ExitStatus
  faulted killed : ExitStatus

unfoldable pub to_regs : ExitStatus → ℕ × ℕ
to_regs (exited code) = (0, to_u32 code)
to_regs faulted = (1, 0)
to_regs killed = (2, 0)

unfoldable pub from_regs : ℕ → ℕ → ExitStatus
from_regs kind code =
    if kind == 0 then exited (to_i32 code) else if kind == 1 then faulted else killed

-- The code of an `Exited` is an `i32`.
abbrev pub IsStatus : ExitStatus → Type 0
IsStatus (exited code) = IsI32 code
IsStatus faulted = Unit {0}
IsStatus killed = Unit {0}

-- A status survives the two registers that carry it to a waiting parent.
pub from_regs-to_regs : (s : ExitStatus) → IsStatus s → from_regs (to_regs s).0 (to_regs s).1 ≡ s
unfolding from_regs to_regs
from_regs-to_regs (exited code) h = ap exited (to_i32-to_u32 code h)
from_regs-to_regs faulted h = refl
from_regs-to_regs killed h = refl
