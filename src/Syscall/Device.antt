-- ===== src/Syscall/Device.antt =====
-- kernel/src/arch/x86_64/syscall.rs: `sys_block_read` and `sys_file_read`. The page table and the bytes are
-- those of the caller's address space; the device and the volume are the kernel's singletons.

pub mod Served
use tarn_os.Prelude.{
  ℕ, ◌+◌, ◌*◌, ◌%◌, ◌^◌, Bool, true, false, ◌||◌, List, Option, none, some, ◌==◌, ltb,
  if◌then◌else◌, min, length, take,
}
use tarn_os.Prelude.Int.{to_u64}
use tarn_os.Abi.Errors.{
  SyscallError, as_retval, bad_capability, invalid_argument, io_out_of_range, io_error,
  no_such_file,
}
use tarn_os.Abi.ShortName.{unpack_short_name}
use tarn_os.Kcore.CapTable
use tarn_os.Kcore.CapTable.{Result, ok, err, RightsOps, CapabilitySlot}
use tarn_os.Fs.Block.{sector_size, BlockDevice, ReadResult, read, failed, out_of_range}
use tarn_os.Fs.Fat.{FatError, Fat12Volume}
use tarn_os.Fs.Fat
use tarn_os.Fs.Fat.Read.{read_file}
use tarn_os.Fs.Fat.Root.{with_root}
use tarn_os.Task.Process.{TrapFrame, KernelObjectRef, Process}
use tarn_os.Syscall.{Kernel, current_process, cap_index}
use tarn_os.Syscall.Range.{
  PageTable, Checked, ends_at, invalid, crashes, spins, validate_write_range,
}
use tarn_os.Syscall.Transfer.{copy_into_user_range}

-- What the closure of a call returns, an answer or an error, with the caller's bytes as they are then, and
-- where it does not return.
pub data Attempt : Type 0 where
  done : ℕ → (ℕ → ℕ) → Attempt
  refused : SyscallError → (ℕ → ℕ) → Attempt
  panics hangs : Attempt

-- `MAX_SECTORS_PER_REQUEST`.
abbrev pub max_sectors : ℕ
max_sectors = 8

abbrev pub is_block_device : KernelObjectRef → Bool
is_block_device (KernelObjectRef.endpoint n) = false
is_block_device KernelObjectRef.block_device = true
is_block_device KernelObjectRef.fs_root = false

abbrev pub is_fs_root : KernelObjectRef → Bool
is_fs_root (KernelObjectRef.endpoint n) = false
is_fs_root KernelObjectRef.block_device = false
is_fs_root KernelObjectRef.fs_root = true

abbrev pub slot_of_kind :
    (KernelObjectRef → Bool) → Result (CapabilitySlot KernelObjectRef) → Option SyscallError
slot_of_kind kind (err e) = some e
slot_of_kind kind (ok slot) = if kind slot.object then none else some bad_capability

-- The error of the closure that looks the capability up.
unfoldable pub object_error :
    RightsOps → ℕ → (KernelObjectRef → Bool) → Option Process → ℕ → Option SyscallError
object_error ops right kind none index = some bad_capability
object_error ops right kind (some p) index =
    slot_of_kind kind (CapTable.lookup ops p.cap_table index right)

abbrev pub fat_error : FatError → SyscallError
fat_error Fat.no_such_file = no_such_file
fat_error Fat.name_too_long = invalid_argument
fat_error _ = io_error

-- `ops` and `read_right` are those of `Rights`.
module _ {D : Type 0} (device : BlockDevice D) (ops : RightsOps) (read_right : ℕ)
    (table : PageTable) where
  abbrev pub copied : ℕ → Option (ℕ → ℕ) → Attempt
  copied answer none = panics
  copied answer (some after) = done answer after

  abbrev pub block_answer : ℕ → (ℕ → ℕ) → ReadResult → Attempt
  block_answer ptr bytes (read sectors) = copied 0 (copy_into_user_range table ptr sectors bytes)
  block_answer ptr bytes (failed out_of_range) = refused io_out_of_range bytes
  block_answer ptr bytes (failed _) = refused io_error bytes

  -- `with_device` of the read, and the copy.
  abbrev pub block_transfer : ℕ → ℕ → ℕ → (ℕ → ℕ) → Option D → Attempt × Option D
  block_transfer lba len ptr bytes none = (refused io_error bytes, none)
  block_transfer lba len ptr bytes (some dev) =
      let (r, dev') = device.read_sectors dev lba len in (block_answer ptr bytes r, some dev')

  abbrev pub file_answer : ℕ → ℕ → (ℕ → ℕ) → Fat.Result (List ℕ) → Attempt
  file_answer ptr len bytes (Fat.err e) = refused (fat_error e) bytes
  file_answer ptr len bytes (Fat.ok content) =
      let copy_len = min (length content) len in
      copied copy_len (copy_into_user_range table ptr (take copy_len content) bytes)

  abbrev pub file_outcome :
      ℕ → ℕ → (ℕ → ℕ) → Option (Fat.Result (List ℕ)) × Option D → Attempt × Option D
  file_outcome ptr len bytes (none, attached) = (refused bad_capability bytes, attached)
  file_outcome ptr len bytes (some r, attached) = (file_answer ptr len bytes r, attached)

  -- `with_root` of the read, and the copy.
  unfoldable pub file_transfer :
      Option Fat12Volume → List ℕ → ℕ → ℕ → (ℕ → ℕ) → Option D → Attempt × Option D
  unfolding with_root
  file_transfer root name ptr len bytes attached =
      file_outcome ptr len bytes (with_root root attached (λ v dev. read_file device v name dev))

  -- The check of the buffer before a transfer.
  abbrev pub after_check : (ℕ → ℕ) → Checked → Option D → Attempt × Option D → Attempt × Option D
  after_check bytes (ends_at end) attached transfer = transfer
  after_check bytes invalid attached transfer = (refused invalid_argument bytes, attached)
  after_check bytes crashes attached transfer = (panics, attached)
  after_check bytes spins attached transfer = (hangs, attached)

  abbrev pub allowed :
      (ℕ → ℕ) → Option SyscallError → Checked → Option D → Attempt × Option D → Attempt × Option D
  allowed bytes (some e) checked attached transfer = (refused e bytes, attached)
  allowed bytes none checked attached transfer = after_check bytes checked attached transfer

  unfoldable pub sys_block_read : Kernel → ℕ → TrapFrame → (ℕ → ℕ) → Option D → Attempt × Option D
  unfolding object_error current_process
  sys_block_read k core frame bytes attached =
      let sector_count = frame.r10 in
      let len = sector_count * sector_size in
      if sector_count == 0 || ltb max_sectors sector_count
      then (refused invalid_argument bytes, attached)
      else allowed bytes
          (object_error ops read_right is_block_device (current_process k.scheduler core)
            (cap_index frame.rdi))
          (validate_write_range table frame.rdx len) attached
          (block_transfer frame.rsi len frame.rdx bytes attached)

  unfoldable pub sys_file_read :
      Kernel → ℕ → TrapFrame → Option Fat12Volume → (ℕ → ℕ) → Option D → Attempt × Option D
  unfolding object_error current_process file_transfer
  sys_file_read k core frame root bytes attached =
      allowed bytes
        (object_error ops read_right is_fs_root (current_process k.scheduler core)
          (cap_index frame.rdi))
        (validate_write_range table frame.r8 frame.r9) attached
        (file_transfer root (unpack_short_name frame.rsi frame.rdx frame.r10) frame.r8 frame.r9
          bytes attached)

-- The registers that the caller gets back.
abbrev pub answer_frame : TrapFrame → Attempt → Option TrapFrame
answer_frame frame (done n bytes) = some (record frame { rax = n })
answer_frame frame (refused e bytes) = some (record frame { rax = to_u64 (as_retval e) })
answer_frame frame panics = none
answer_frame frame hangs = none
