-- ===== src/Driver/VirtioBlk.antt =====
-- kernel/src/driver/virtio_blk.rs: a read request, from the checks to the copy out of the buffer. Memory that driver
-- and device share is a function of the address of a field: each field is read and written by one
-- address at one width. `step` is what the device does to it between two looks of the driver, and `mmio`
-- what it does when the driver writes a register of it.
pub mod Chain
pub mod Read
use tarn_os.Prelude.{
  ℕ, zero, suc, ◌+◌, ◌*◌, ◌/◌, ◌%◌, ◌^◌, Bool, true, false, not, ◌||◌, List, [], ◌∷◌, Option, none,
  some, ◌==◌, ltb, leb, if◌then◌else◌,
}
use tarn_os.Fs.Block.{
  sector_size, ReadResult, read, failed, buffer_not_sector_aligned, out_of_range, request_too_large,
  device_error,
}
use tarn_os.Syscall.Device.{max_sectors}

abbrev pub Memory : Type 0
Memory = ℕ → ℕ

abbrev pub write : ℕ → ℕ → Memory → Memory
write a v m x = if x == a then v else m x

-- `DATA_BUFFER_SIZE`, `VIRTQ_DESC_F_NEXT`, `VIRTQ_DESC_F_WRITE`, `VIRTIO_BLK_T_IN`, `VIRTIO_BLK_S_OK` and `STATUS_PENDING`.
abbrev pub data_buffer_size : ℕ
data_buffer_size = max_sectors * sector_size

abbrev pub desc_next : ℕ
desc_next = 1

abbrev pub desc_write : ℕ
desc_write = 2

abbrev pub request_in : ℕ
request_in = 0

abbrev pub status_ok : ℕ
status_ok = 0

abbrev pub status_pending : ℕ
status_pending = 0xff

-- What a read uses of `VirtioBlk`.
pub record VirtioBlk : Type 0 where
  pub notify_base : ℕ
  pub notify_off_multiplier : ℕ
  pub queue_notify_off : ℕ
  pub capacity_sectors : ℕ
  pub desc : ℕ
  pub avail : ℕ
  pub used : ℕ
  pub queue_size : ℕ
  pub header_phys : ℕ
  pub header_virt : ℕ
  pub data_phys : ℕ
  pub data_virt : ℕ
  pub status_phys : ℕ
  pub status_virt : ℕ

abbrev pub write_desc : VirtioBlk → ℕ → ℕ → ℕ → ℕ → ℕ → Memory → Memory
write_desc d index addr len flags next m =
    let base = d.desc + index * 16 in
    write (base + 14) next (write (base + 12) flags (write (base + 8) len (write base addr m)))

abbrev pub read_avail_idx : VirtioBlk → Memory → ℕ
read_avail_idx d m = m (d.avail + 2)

abbrev pub write_avail_idx : VirtioBlk → ℕ → Memory → Memory
write_avail_idx d value m = write (d.avail + 2) value m

abbrev pub write_avail_ring_entry : VirtioBlk → ℕ → ℕ → Memory → Memory
write_avail_ring_entry d slot desc_index m = write (d.avail + 4 + slot * 2) desc_index m

abbrev pub read_used_idx : VirtioBlk → Memory → ℕ
read_used_idx d m = m (d.used + 2)

abbrev pub write_header : VirtioBlk → ℕ → Memory → Memory
write_header d lba m =
    write d.status_virt status_pending (
      write (d.header_virt + 8) lba
        (write (d.header_virt + 4) 0 (write d.header_virt request_in m)))

-- The chain of three descriptors, and the index that the driver waits for.
abbrev pub chained : VirtioBlk → ℕ → ℕ → Memory → Memory
chained d lba len m = write_desc d 2 d.status_phys 1 desc_write 0 (
    write_desc d 1 d.data_phys len (desc_next + desc_write) 2
      (write_desc d 0 d.header_phys 16 desc_next 1 (write_header d lba m)))

unfoldable pub target_of : VirtioBlk → ℕ → ℕ → Memory → ℕ
target_of d lba len m = (read_avail_idx d (chained d lba len m) + 1) % 2 ^ 16

-- The memory when the device is told.
unfoldable pub publish : VirtioBlk → ℕ → ℕ → Memory → Memory
publish d lba len m =
    let avail_idx = read_avail_idx d (chained d lba len m) in
    write_avail_idx d ((avail_idx + 1) % 2 ^ 16)
      (write_avail_ring_entry d (avail_idx % d.queue_size) 0 (chained d lba len m))

unfoldable pub bytes_at : Memory → ℕ → ℕ → List ℕ
bytes_at m a zero = []
bytes_at m a (suc n) = m a ∷ bytes_at m (a + 1) n

abbrev pub notify_address : VirtioBlk → ℕ
notify_address d = d.notify_base + d.queue_notify_off * d.notify_off_multiplier

module _ (step : Memory → Memory) (mmio : ℕ → ℕ → Memory → Memory) where
  -- The queue's number, 0, is written to the queue's notify register.
  abbrev pub notify_queue : VirtioBlk → Memory → Memory
  notify_queue d m = mmio (notify_address d) 0 m

  -- The loop on the used index; `none` is the loop out of fuel.
  unfoldable pub wait : ℕ → VirtioBlk → ℕ → Memory → Option Memory
  wait zero d target m = none
  wait (suc fuel) d target m =
      let rest = wait fuel d target (step m) in if read_used_idx d m == target then some m else rest

  abbrev pub completed : VirtioBlk → ℕ → Option Memory → Option (ReadResult × Memory)
  completed d len none = none
  completed d len (some m) =
      if not (m d.status_virt == status_ok)
      then some (failed device_error, m)
      else some (read (bytes_at m d.data_virt len), m)

  unfoldable pub read_sectors : ℕ → VirtioBlk → ℕ → ℕ → Memory → Option (ReadResult × Memory)
  unfolding wait publish target_of
  read_sectors fuel d lba len m =
      let end = lba + len / sector_size in
      if len == 0 || not (len % sector_size == 0)
      then some (failed buffer_not_sector_aligned, m)
      else if ltb data_buffer_size len
      then some (failed request_too_large, m)
      else if leb (2 ^ 64) end || ltb d.capacity_sectors end
      then some (failed out_of_range, m)
      else completed d len
          (wait fuel d (target_of d lba len m) (notify_queue d (publish d lba len m)))
