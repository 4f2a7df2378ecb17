-- ===== src/Abi/Errors.antt =====
-- libs/tarnos-abi/src/lib.rs: `SyscallError` and the negative return value that carries it.
use tarn_os.Prelude.{ℕ, ◌≡◌, refl, true, ◌==◌, if◌then◌else◌}
use tarn_os.Prelude.Int.{ℤ, negate, unsigned_abs, is_negative, to_u64, to_i64}

pub data SyscallError : Type 0 where
  no_such_syscall bad_capability permission_denied resource_exhausted : SyscallError
  no_such_program invalid_target spawn_failed invalid_argument : SyscallError
  peer_closed io_out_of_range io_error no_such_file : SyscallError

-- The discriminants.
unfoldable pub discriminant : SyscallError → ℕ
discriminant no_such_syscall = 1
discriminant bad_capability = 2
discriminant permission_denied = 3
discriminant resource_exhausted = 4
discriminant no_such_program = 5
discriminant invalid_target = 6
discriminant spawn_failed = 7
discriminant invalid_argument = 8
discriminant peer_closed = 9
discriminant io_out_of_range = 10
discriminant io_error = 11
discriminant no_such_file = 12

unfoldable pub as_retval : SyscallError → ℤ
unfolding discriminant
as_retval e = negate (discriminant e)

unfoldable pub from_retval : ℤ → SyscallError
from_retval retval =
    let n = unsigned_abs retval in
    if n == 2
    then bad_capability
    else if n == 3
    then permission_denied
    else if n == 4
    then resource_exhausted
    else if n == 5
    then no_such_program
    else if n == 6
    then invalid_target
    else if n == 7
    then spawn_failed
    else if n == 8
    then invalid_argument
    else if n == 9
    then peer_closed
    else if n == 10
    then io_out_of_range
    else if n == 11
    then io_error
    else if n == 12
    then no_such_file
    else no_such_syscall

-- Every error survives the return register: it is stored in `rax` as an unsigned word, is read
-- back as a negative number, and decodes to itself.
pub from_retval-as_retval :
    (e : SyscallError)
    → (is_negative (to_i64 (to_u64 (as_retval e))) ≡ true)
      × (from_retval (to_i64 (to_u64 (as_retval e))) ≡ e)
unfolding from_retval as_retval
from_retval-as_retval no_such_syscall = (refl, refl)
from_retval-as_retval bad_capability = (refl, refl)
from_retval-as_retval permission_denied = (refl, refl)
from_retval-as_retval resource_exhausted = (refl, refl)
from_retval-as_retval no_such_program = (refl, refl)
from_retval-as_retval invalid_target = (refl, refl)
from_retval-as_retval spawn_failed = (refl, refl)
from_retval-as_retval invalid_argument = (refl, refl)
from_retval-as_retval peer_closed = (refl, refl)
from_retval-as_retval io_out_of_range = (refl, refl)
from_retval-as_retval io_error = (refl, refl)
from_retval-as_retval no_such_file = (refl, refl)
