-- ===== src/Driver/VirtioBlk/Chain.antt =====
-- kernel/src/driver/virtio_blk.rs: what a device reads when it follows the chain that the driver wrote.
use native.Mathlib.Nat.{mod-lt}
use tarn_os.Prelude.{
  ap, ◌∙◌, ==_refl, ==_ne, ◌/◌, ◌&&◌, not, Option, some, none, ◌⊎◌, ℕ, ◌+◌, ◌*◌, ◌%◌, ◌^◌, ◌≡◌, ◌≢◌,
  ◌<◌, ◌≤◌, refl, Bool, ◌==◌, if◌then◌else◌, arith,
}
use tarn_os.Driver.VirtioBlk.{
  Memory, VirtioBlk, chained, publish, read_avail_idx, request_in, status_pending,
}

-- The structures of the queue are in frames of their own.
pub record Layout (d : VirtioBlk) : Type 0 where
  pub desc_frame : ℕ
  pub avail_frame : ℕ
  pub used_frame : ℕ
  pub header_frame : ℕ
  pub status_frame : ℕ
  pub desc_in : d.desc ≡ 4096 * desc_frame
  pub avail_in : d.avail ≡ 4096 * avail_frame
  pub used_in : d.used ≡ 4096 * used_frame
  pub header_in : d.header_virt ≡ 4096 * header_frame
  pub status_in : d.status_virt ≡ 4096 * status_frame
  pub desc-avail : desc_frame ≢ avail_frame
  pub desc-used : desc_frame ≢ used_frame
  pub desc-header : desc_frame ≢ header_frame
  pub desc-status : desc_frame ≢ status_frame
  pub avail-used : avail_frame ≢ used_frame
  pub avail-header : avail_frame ≢ header_frame
  pub avail-status : avail_frame ≢ status_frame
  pub used-header : used_frame ≢ header_frame
  pub used-status : used_frame ≢ status_frame
  pub header-status : header_frame ≢ status_frame
  pub enough : 3 ≤ d.queue_size
  pub few : d.queue_size ≤ 8

pub record Request : Type 0 where
  pub kind : ℕ
  pub sector : ℕ
  pub buffer : ℕ
  pub len : ℕ
  pub status : ℕ

-- The bits of a descriptor's flags: another descriptor follows, and the device writes the buffer.
abbrev pub has_next : ℕ → Bool
has_next flags = flags % 2 == 1

abbrev pub is_writable : ℕ → Bool
is_writable flags = flags / 2 % 2 == 1

-- The request of a device that follows the chain from `head`, as the specification of virtio describes it: a
-- header that it reads, a buffer that it fills and a status that it writes. `bus` takes an address of
-- the device to the driver's.
abbrev pub follow : (ℕ → ℕ) → VirtioBlk → Memory → ℕ → Option Request
follow bus d m head =
    let first = d.desc + head * 16 in
    let second = d.desc + m (first + 14) * 16 in
    let third = d.desc + m (second + 14) * 16 in
    if has_next (m (first + 12))
      && not (is_writable (m (first + 12)))
      && has_next (m (second + 12))
      && is_writable (m (second + 12))
      && not (has_next (m (third + 12)))
      && is_writable (m (third + 12))
    then some (record {
      kind = m (bus (m first));
      sector = m (bus (m first) + 8);
      buffer = m second;
      len = m (second + 8);
      status = m third;
    })
    else none

module _ (d : VirtioBlk) (lba len : ℕ) (m : Memory) (at : Layout d) where
  abbrev told : Memory
  told = publish d lba len m

  slot_small : (x : ℕ) → x % d.queue_size < 8
  slot_small x =
      let some_size : 0 < d.queue_size = omega (arith, at.enough) in
      let below : x % d.queue_size < d.queue_size = mod-lt x some_size in
      omega (arith, below, at.few)

  -- A field outside the frame of the ring is as the chain left it.
  told-other : (x : ℕ) → (x < d.avail) ⊎ (d.avail + 4096 ≤ x) → told x ≡ chained d lba len m x
  unfolding publish
  told-other x out =
      let small = slot_small (read_avail_idx d (chained d lba len m)) in ground (arith, out, small)

  desc-told : (k : ℕ) → k < 4096 → told (d.desc + k) ≡ chained d lba len m (d.desc + k)
  desc-told k small =
      told-other (d.desc + k) (omega (arith, at.desc_in, at.avail_in, at.desc-avail, small))

  header-told :
      (k : ℕ) → k < 4096 → told (d.header_virt + k) ≡ chained d lba len m (d.header_virt + k)
  header-told k small =
      told-other (d.header_virt + k)
        (omega (arith, at.header_in, at.avail_in, at.avail-header, small))

  status-told : told d.status_virt ≡ chained d lba len m d.status_virt
  status-told = told-other d.status_virt (omega (arith, at.status_in, at.avail_in, at.avail-status))

  used-told : told (d.used + 2) ≡ m (d.used + 2)
  used-told =
      told-other (d.used + 2) (omega (arith, at.used_in, at.avail_in, at.avail-used))
      ∙ ground (
        arith, at.desc_in, at.used_in, at.header_in, at.status_in, at.desc-used, at.used-header,
        at.used-status,
      )

  pub avail_kept : chained d lba len m (d.avail + 2) ≡ m (d.avail + 2)
  avail_kept = ground (
    arith, at.desc_in, at.avail_in, at.header_in, at.status_in, at.desc-avail, at.avail-header,
    at.avail-status,
  )

  -- The three descriptors, field by field.
  in_chain :
      let c = chained d lba len m in
      ((c (d.desc + 0) ≡ d.header_phys) × (c (d.desc + 12) ≡ 1) × (c (d.desc + 14) ≡ 1))
      × ((c (d.desc + 16) ≡ d.data_phys)
          × (c (d.desc + 24) ≡ len)
          × (c (d.desc + 28) ≡ 3)
          × (c (d.desc + 30) ≡ 2))
      × ((c (d.desc + 32) ≡ d.status_phys) × (c (d.desc + 44) ≡ 2))
  in_chain = (
    (ground arith, ground arith, ground arith),
    (ground arith, ground arith, ground arith, ground arith),
    (ground arith, ground arith),
  )

  in_header :
      let c = chained d lba len m in
      (c (d.header_virt + 0) ≡ request_in)
      × (c (d.header_virt + 8) ≡ lba)
      × (c d.status_virt ≡ status_pending)
  in_header = (
    ground (arith, at.desc_in, at.header_in, at.status_in, at.desc-header, at.header-status),
    ground (arith, at.desc_in, at.header_in, at.status_in, at.desc-header, at.header-status),
    ground (arith, at.desc_in, at.header_in, at.status_in, at.desc-status, at.header-status),
  )

  next_index : told (d.avail + 2) ≡ (m (d.avail + 2) + 1) % 2 ^ 16
  unfolding publish
  next_index = rw (==_refl (d.avail + 2), avail_kept) refl

  ring_entry : told (d.avail + 4 + m (d.avail + 2) % d.queue_size * 2) ≡ 0
  unfolding publish
  ring_entry =
      let other : (d.avail + 4 + m (d.avail + 2) % d.queue_size * 2) ≢ d.avail + 2 =
        λ e. absurd (omega (arith, e)) in
      rw
        (
          ==_ne (d.avail + 4 + m (d.avail + 2) % d.queue_size * 2) (d.avail + 2) other,
          avail_kept,
          ==_refl (d.avail + 4 + m (d.avail + 2) % d.queue_size * 2),
        )
        refl

  desc_field :
      (x k v : ℕ) → x ≡ d.desc + k → k < 4096 → chained d lba len m (d.desc + k) ≡ v → told x ≡ v
  desc_field x k v e small h = ap told e ∙ desc-told k small ∙ h

  -- The memory that the driver published is a read request: a device that takes the new entry of the ring and
  -- follows its chain finds the sector, the length, the buffer and the status of this read, a status
  -- that says that it is pending, and one entry more than before.
  pub publish-follow :
      (bus : ℕ → ℕ)
      → bus d.header_phys ≡ d.header_virt
      → let entry = told (d.avail + 4 + m (d.avail + 2) % d.queue_size * 2) in
        (follow bus d told entry
          ≡ some (record {
            kind = request_in;
            sector = lba;
            buffer = d.data_phys;
            len = len;
            status = d.status_phys;
          }))
        × (told d.status_virt ≡ status_pending)
        × (told (d.avail + 2) ≡ (m (d.avail + 2) + 1) % 2 ^ 16)
        × (told (d.used + 2) ≡ m (d.used + 2))
  publish-follow bus aliased =
      let (first, second, third) = in_chain in
      let (kind, sector, pending) = in_header in
      let a0 = desc_field (d.desc + 0 * 16) 0 d.header_phys (omega arith) (omega arith) first.0 in
      let f0 = desc_field (d.desc + 0 * 16 + 12) 12 1 (omega arith) (omega arith) first.1 in
      let n0 = desc_field (d.desc + 0 * 16 + 14) 14 1 (omega arith) (omega arith) first.2 in
      let a1 = desc_field (d.desc + 1 * 16) 16 d.data_phys (omega arith) (omega arith) second.0 in
      let l1 = desc_field (d.desc + 1 * 16 + 8) 24 len (omega arith) (omega arith) second.1 in
      let f1 = desc_field (d.desc + 1 * 16 + 12) 28 3 (omega arith) (omega arith) second.2 in
      let n1 = desc_field (d.desc + 1 * 16 + 14) 30 2 (omega arith) (omega arith) second.3 in
      let a2 = desc_field (d.desc + 2 * 16) 32 d.status_phys (omega arith) (omega arith) third.0 in
      let f2 = desc_field (d.desc + 2 * 16 + 12) 44 2 (omega arith) (omega arith) third.1 in
      let kind_at : told d.header_virt ≡ request_in =
        ap told (omega arith) ∙ header-told 0 (omega arith) ∙ kind in
      let sector_at = header-told 8 (omega arith) ∙ sector in
      (
        rw (ring_entry, n0, n1, f0, f1, f2, a0, a1, a2, l1, aliased, kind_at, sector_at) refl,
        status-told ∙ pending,
        next_index,
        used-told,
      )
