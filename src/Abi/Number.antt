-- ===== src/Abi/Number.antt =====
-- libs/tarnos-abi/src/lib.rs: the numbers of the system calls, `SYS_YIELD` and so on.
use tarn_os.Prelude.{ℕ}

abbrev pub yield : ℕ
yield = 0

abbrev pub send : ℕ
send = 1

abbrev pub recv : ℕ
recv = 2

abbrev pub exit : ℕ
exit = 3

abbrev pub spawn : ℕ
spawn = 4

abbrev pub grant : ℕ
grant = 5

abbrev pub process_start : ℕ
process_start = 6

abbrev pub wait : ℕ
wait = 7

abbrev pub kill : ℕ
kill = 8

abbrev pub sbrk : ℕ
sbrk = 9

abbrev pub block_read : ℕ
block_read = 10

abbrev pub file_read : ℕ
file_read = 11
