-- ===== src/Syscall/Device/Served.antt =====
-- kernel/src/arch/x86_64/syscall.rs: what `sys_block_read` and `sys_file_read` do for their caller.
use tarn_os.Prelude.{
  ℕ, ◌+◌, ◌*◌, ◌/◌, ◌≡◌, ◌<◌, ◌≤◌, refl, ap, Bool, true, false, ◌||◌, List, Option, none, some,
  ◌==◌, ltb, min, length, take, length-take, arith, Bool-cases, inl, inr,
}
use tarn_os.Abi.Errors.{SyscallError}
use tarn_os.Abi.ShortName.{unpack_short_name}
use tarn_os.Kcore.CapTable
use tarn_os.Kcore.CapTable.{Result, ok, err, RightsOps, CapabilitySlot}
use tarn_os.Fs.Block.{
  sector_size, BlockDevice, ReadResult, read, failed, buffer_not_sector_aligned, out_of_range,
  request_too_large, device_error,
}
use tarn_os.Fs.Fat.{Fat12Volume}
use tarn_os.Fs.Fat
use tarn_os.Fs.Fat.Read.{read_file}
use tarn_os.Task.Process.{TrapFrame, KernelObjectRef, Process}
use tarn_os.Syscall.{Kernel, current_process, cap_index}
use tarn_os.Syscall.Range.{
  PageTable, Checked, ends_at, invalid, crashes, spins, validate_write_range, Verdict, writable,
  refused_at, crashed_at, overflows, validate_write_range-Verdict,
}
use tarn_os.Syscall.Transfer.{laid, copy_into_user_range, copy_into_user_range-laid}
use tarn_os.Syscall.Device.{
  Attempt, done, refused, panics, max_sectors, is_block_device, is_fs_root, slot_of_kind,
  object_error, copied, block_answer, block_transfer, file_answer, file_transfer, after_check,
  allowed, sys_block_read, sys_file_read,
}

-- The process of the core holds `right` on an object of a kind, at an index of its table.
pub record Holds (ops : RightsOps) (right : ℕ) (kind : KernelObjectRef → Bool)
    (process : Option Process) (index : ℕ) : Type 0 where
  pub holder : Process
  pub slot : CapabilitySlot KernelObjectRef
  pub runs : process ≡ some holder
  pub found : CapTable.lookup ops holder.cap_table index right ≡ ok slot
  pub of_kind : kind slot.object ≡ true

-- What a call with a buffer of `len` bytes at `ptr` did: an error leaves the caller's bytes as they were. `Delivery dev n src dev'` is that the device
-- gave the bytes `src` for the answer `n`.
pub data Served {D : Type 0} (table : PageTable) (Allowed : Type 0) (ptr len : ℕ) (bytes : ℕ → ℕ)
    (attached : Option D) (Delivery : D → ℕ → List ℕ → D → Type 0)
    : Attempt × Option D → Type 0 where
  turned_away :
      (e : SyscallError)
      → Served table Allowed ptr len bytes attached Delivery (refused e bytes, attached)
  crashed :
      Allowed
      → (page : ℕ) → ptr / 4096 * 4096 < page + 4096
      → page < ptr + len
      → table.canonical page ≡ false
      → Served table Allowed ptr len bytes attached Delivery (panics, attached)
  undelivered :
      Allowed
      → (dev dev' : D) → attached ≡ some dev
      → (e : SyscallError)
      → Served table Allowed ptr len bytes attached Delivery (refused e bytes, some dev')
  delivered :
      Allowed
      → (dev dev' : D) → attached ≡ some dev
      → (n : ℕ) (src : List ℕ) → Delivery dev n src dev'
      → length src ≤ len
      → (after : ℕ → ℕ) → ((a : ℕ) → after a ≡ laid table ptr src bytes a)
      → Served table Allowed ptr len bytes attached Delivery (done n after, some dev')

slot_of_kind-none :
    (kind : KernelObjectRef → Bool) (r : Result (CapabilitySlot KernelObjectRef))
    → slot_of_kind kind r ≡ none
    → (slot : CapabilitySlot KernelObjectRef) × (r ≡ ok slot) × (kind slot.object ≡ true)
slot_of_kind-none kind (err e) h = cc
slot_of_kind-none kind (ok slot) h = (slot, refl, ground (arith, h))

object_error-Holds :
    (ops : RightsOps) (right : ℕ) (kind : KernelObjectRef → Bool) (process : Option Process)
    (index : ℕ)
    → object_error ops right kind process index ≡ none
    → Holds ops right kind process index
unfolding object_error
object_error-Holds ops right kind none index h = cc
object_error-Holds ops right kind (some p) index h =
    let (slot, found, of_kind) =
      slot_of_kind-none kind (CapTable.lookup ops p.cap_table index right) h in
    record { holder = p; slot = slot; runs = refl; found = found; of_kind = of_kind }

module _ {D : Type 0} (device : BlockDevice D) (ops : RightsOps) (read_right : ℕ)
    (table : PageTable) where
  module _ {Allowed : Type 0} {ptr len : ℕ} {bytes : ℕ → ℕ} {attached : Option D}
      {Delivery : D → ℕ → List ℕ → D → Type 0} where
    checked-Served :
        (r : Checked) (transfer : Attempt × Option D)
        → Allowed
        → validate_write_range table ptr len ≡ r
        → Verdict table (ptr / 4096 * 4096) (ptr + len) r
        → (validate_write_range table ptr len ≡ ends_at (ptr + len)
            → Served table Allowed ptr len bytes attached Delivery transfer)
        → Served table Allowed ptr len bytes attached Delivery
            (after_check device ops read_right table bytes r attached transfer)
    checked-Served (ends_at _) transfer may e (writable h) served = served e
    checked-Served invalid transfer may e (refused_at p low high f) served = turned_away _
    checked-Served invalid transfer may e (overflows h) served = turned_away _
    checked-Served crashes transfer may e (crashed_at p low high f) served =
        crashed may p low high f
    checked-Served spins transfer may e bad served = elim bad [ ]

    allowed-Served :
        (o : Option SyscallError) (transfer : Attempt × Option D)
        → (o ≡ none → Allowed)
        → (Allowed
            → validate_write_range table ptr len ≡ ends_at (ptr + len)
            → Served table Allowed ptr len bytes attached Delivery transfer)
        → Served table Allowed ptr len bytes attached Delivery (
            allowed device ops read_right table bytes o
              (validate_write_range table ptr len)
              attached
              transfer)
    allowed-Served (some e) transfer may served = turned_away e
    allowed-Served none transfer may served =
        checked-Served (validate_write_range table ptr len) transfer (may refl) refl
          (validate_write_range-Verdict table ptr len) (served (may refl))

    copied-Served :
        (dev dev' : D) (n : ℕ) (src : List ℕ)
        → Allowed
        → attached ≡ some dev
        → validate_write_range table ptr len ≡ ends_at (ptr + len)
        → length src ≤ len
        → Delivery dev n src dev'
        → Served table Allowed ptr len bytes attached Delivery (
          copied device ops read_right table n (copy_into_user_range table ptr src bytes),
          some dev',
        )
    copied-Served dev dev' n src may is_attached checked short delivery =
        let (after, e, same) = copy_into_user_range-laid table ptr len src bytes checked short in
        rw e (delivered may dev dev' is_attached n src delivery short after same)

  -- The sectors that the device read, all of them.
  abbrev pub SectorsOf : ℕ → ℕ → D → ℕ → List ℕ → D → Type 0
  SectorsOf lba len dev n src dev' =
      (n ≡ 0) × (length src ≡ len) × (device.read_sectors dev lba len ≡ (read src, dev'))

  -- The start of what `read_file` returned for the name, as much as fits.
  abbrev pub StartOfFile : Option Fat12Volume → List ℕ → ℕ → D → ℕ → List ℕ → D → Type 0
  StartOfFile root name len dev n src dev' =
      (v : Fat12Volume) × (content : List ℕ) × (root ≡ some v)
      × (read_file device v name dev ≡ (Fat.ok content, dev'))
      × (src ≡ take n content)
      × (n ≡ min (length content) len)

  block_transfer-Served :
      {Allowed : Type 0} {bytes : ℕ → ℕ} (lba len ptr : ℕ) (dev : D)
      → Allowed
      → validate_write_range table ptr len ≡ ends_at (ptr + len)
      → (r : ReadResult) (dev' : D) → device.read_sectors dev lba len ≡ (r, dev')
      → Served table Allowed ptr len bytes
          (some dev)
          (SectorsOf lba len)
          (block_answer device ops read_right table ptr bytes r, some dev')
  block_transfer-Served lba len ptr dev may checked (read src) dev' e =
      let filled = device.read_length dev lba len (ap (λ q. q.0) e) in
      copied-Served dev dev' 0 src may refl checked (omega (arith, filled)) (refl, filled, e)
  block_transfer-Served lba len ptr dev may checked (failed buffer_not_sector_aligned) dev' e =
      undelivered may dev dev' refl _
  block_transfer-Served lba len ptr dev may checked (failed out_of_range) dev' e =
      undelivered may dev dev' refl _
  block_transfer-Served lba len ptr dev may checked (failed request_too_large) dev' e =
      undelivered may dev dev' refl _
  block_transfer-Served lba len ptr dev may checked (failed device_error) dev' e =
      undelivered may dev dev' refl _

  -- `sys_block_read` always ends. It touches the device only for a caller that holds the right to read
  -- a block device at the index it named; it answers 0 only with all sectors that it asked for in its
  -- buffer and no other byte changed; an error changes no byte; and it panics only at a page of the
  -- buffer whose address is not canonical.
  pub sys_block_read-Served :
      (k : Kernel) (core : ℕ) (frame : TrapFrame) (bytes : ℕ → ℕ) (attached : Option D)
      → Served table
          (Holds ops read_right is_block_device
            (current_process k.scheduler core)
            (cap_index frame.rdi))
          frame.rdx
          (frame.r10 * sector_size)
          bytes
          attached
          (SectorsOf frame.rsi (frame.r10 * sector_size))
          (sys_block_read device ops read_right table k core frame bytes attached)
  unfolding sys_block_read
  sys_block_read-Served k core frame bytes attached =
      let len = frame.r10 * sector_size in
      elim (Bool-cases (frame.r10 == 0 || ltb max_sectors frame.r10)) [
        | inl e ↦ rw e (turned_away _)
        | inr e ↦ rw e (
            allowed-Served
              (object_error ops read_right is_block_device (current_process k.scheduler core)
                (cap_index frame.rdi))
              (block_transfer device ops read_right table frame.rsi len frame.rdx bytes attached)
              (object_error-Holds ops read_right is_block_device (current_process k.scheduler core)
                (cap_index frame.rdi))
              (λ may checked. served attached may checked))
      ]
    where
      served :
          {Allowed : Type 0} (a : Option D)
          → Allowed
          → validate_write_range table frame.rdx (frame.r10 * sector_size)
            ≡ ends_at (frame.rdx + frame.r10 * sector_size)
          → Served table Allowed frame.rdx
              (frame.r10 * sector_size)
              bytes
              a
              (SectorsOf frame.rsi (frame.r10 * sector_size))
              (block_transfer device ops read_right table frame.rsi
                (frame.r10 * sector_size)
                frame.rdx
                bytes
                a)
      served none may checked = turned_away _
      served (some dev) may checked =
          let answer = device.read_sectors dev frame.rsi (frame.r10 * sector_size) in
          block_transfer-Served frame.rsi (frame.r10 * sector_size) frame.rdx dev may checked
            answer.0 answer.1 refl

  file_answer-Served :
      {Allowed : Type 0} {bytes : ℕ → ℕ} (v : Fat12Volume) (name : List ℕ) (ptr len : ℕ) (dev : D)
      → Allowed
      → validate_write_range table ptr len ≡ ends_at (ptr + len)
      → (r : Fat.Result (List ℕ)) (dev' : D) → read_file device v name dev ≡ (r, dev')
      → Served table Allowed ptr len bytes
          (some dev)
          (StartOfFile (some v) name len)
          (file_answer device ops read_right table ptr len bytes r, some dev')
  file_answer-Served v name ptr len dev may checked (Fat.err e) dev' h =
      undelivered may dev dev' refl _
  file_answer-Served v name ptr len dev may checked (Fat.ok content) dev' h =
      let n = min (length content) len in
      copied-Served dev dev' n (take n content) may refl checked
        (omega (arith, length-take n content)) (v, content, refl, h, refl, refl)

  -- `sys_file_read` always ends. It touches the device only for a caller that holds the right to read
  -- the root of the file system at the index it named; it answers n only with the first n bytes that
  -- `read_file` returned for the name in its buffer and no other byte changed, n being the smaller of
  -- their number and the buffer's size; an error changes no byte; and it panics only at a page of the buffer whose address is
  -- not canonical.
  pub sys_file_read-Served :
      (k : Kernel) (core : ℕ) (frame : TrapFrame) (root : Option Fat12Volume) (bytes : ℕ → ℕ)
      (attached : Option D)
      → Served table
          (Holds ops read_right is_fs_root (current_process k.scheduler core) (cap_index frame.rdi))
          frame.r8
          frame.r9
          bytes
          attached
          (StartOfFile root (unpack_short_name frame.rsi frame.rdx frame.r10) frame.r9)
          (sys_file_read device ops read_right table k core frame root bytes attached)
  unfolding sys_file_read file_transfer
  sys_file_read-Served k core frame root bytes attached =
      allowed-Served
        (object_error ops read_right is_fs_root (current_process k.scheduler core)
          (cap_index frame.rdi))
        (file_transfer device ops read_right table root
          (unpack_short_name frame.rsi frame.rdx frame.r10) frame.r8 frame.r9 bytes attached)
        (object_error-Holds ops read_right is_fs_root (current_process k.scheduler core)
          (cap_index frame.rdi))
        (λ may checked. served root attached may checked)
    where
      served :
          {Allowed : Type 0} (volume : Option Fat12Volume) (a : Option D)
          → Allowed
          → validate_write_range table frame.r8 frame.r9 ≡ ends_at (frame.r8 + frame.r9)
          → Served table Allowed frame.r8 frame.r9 bytes a
              (StartOfFile volume (unpack_short_name frame.rsi frame.rdx frame.r10) frame.r9)
              (file_transfer device ops read_right table volume
                (unpack_short_name frame.rsi frame.rdx frame.r10)
                frame.r8
                frame.r9
                bytes
                a)
      served none a may checked = turned_away _
      served (some v) none may checked = turned_away _
      served (some v) (some dev) may checked =
          let name = unpack_short_name frame.rsi frame.rdx frame.r10 in
          let answer = read_file device v name dev in
          file_answer-Served v name frame.r8 frame.r9 dev may checked answer.0 answer.1 refl
