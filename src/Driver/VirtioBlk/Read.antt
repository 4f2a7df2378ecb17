-- ===== src/Driver/VirtioBlk/Read.antt =====
-- kernel/src/driver/virtio_blk.rs: what `read_sectors` answers, with a device that serves the requests it finds.
use tarn_os.Prelude.{
  ℕ, zero, suc, ◌+◌, ◌*◌, ◌/◌, ◌%◌, ◌^◌, ◌≡◌, ◌≢◌, ◌<◌, ◌≤◌, refl, sym, subst, ap, ◌∙◌, false, not,
  ◌||◌, List, Option, some, ◌==◌, ==_ne, ==_iff, ltb, leb, arith, Bool-cases, inl, inr,
}
use tarn_os.Fs.Block.{
  sector_size, BlockError, ReadResult, read, failed, buffer_not_sector_aligned, out_of_range,
  request_too_large, device_error,
}
use tarn_os.Driver.VirtioBlk.{
  Memory, VirtioBlk, publish, target_of, bytes_at, wait, completed, read_sectors, request_in,
  status_ok, data_buffer_size, notify_address, notify_queue,
}
use tarn_os.Driver.VirtioBlk.Chain.{Layout, Request, follow, publish-follow, avail_kept}

module _ (step : Memory → Memory) (mmio : ℕ → ℕ → Memory → Memory) where
  abbrev pub after_steps : ℕ → Memory → Memory
  after_steps zero m = m
  after_steps (suc n) m = after_steps n (step m)

  -- The device was told in the memory `m`, which left `told`, and served the request: for `looks` steps
  -- the used index is as it was, and then it is one more, and if the status is good then the buffer has
  -- the sectors.
  pub record DoneIn (d : VirtioBlk) (m told : Memory) (buffer len : ℕ) (bytes : List ℕ)
      : Type 0 where
    pub looks : ℕ
    pub before : (k : ℕ) → k < looks → after_steps k told (d.used + 2) ≡ m (d.used + 2)
    pub index : after_steps looks told (d.used + 2) ≡ (m (d.used + 2) + 1) % 2 ^ 16
    pub avail_index : after_steps looks told (d.avail + 2) ≡ m (d.avail + 2)
    pub filled :
        after_steps looks told d.status_virt ≡ status_ok
        → bytes_at (after_steps looks told) buffer len ≡ bytes

  -- The documented behaviour of a disk with the bytes `content`: when the number of the queue is written
  -- to its notify register, it serves a read that it finds in the next entry of the ring. A disk that is
  -- not told need not look.
  pub record Disk (bus : ℕ → ℕ) (d : VirtioBlk) (content : ℕ → ℕ → List ℕ) : Type 0 where
    pub serves :
        (m : Memory) (r : Request)
        → m (d.used + 2) ≢ m (d.avail + 2)
        → follow bus d m (m (d.avail + 4 + m (d.used + 2) % d.queue_size * 2)) ≡ some r
        → r.kind ≡ request_in
        → DoneIn d m (mmio (notify_address d) 0 m) (bus r.buffer) r.len (content r.sector r.len)

  -- No request is under way.
  pub record IsReady (d : VirtioBlk) (m : Memory) : Type 0 where
    pub idle : m (d.used + 2) ≡ m (d.avail + 2)
    pub word : m (d.avail + 2) < 2 ^ 16

  pub data Answered (d : VirtioBlk) (lba len : ℕ) (m : Memory) (bytes : List ℕ)
      : Option (ReadResult × Memory) → Type 0 where
    rejected : (e : BlockError) → Answered d lba len m bytes (some (failed e, m))
    broken :
        (after : Memory)
        → IsReady d after
        → Answered d lba len m bytes (some (failed device_error, after))
    answered :
        (after : Memory)
        → IsReady d after
        → lba + len / sector_size ≤ d.capacity_sectors
        → Answered d lba len m bytes (some (read bytes, after))

  wait_ends :
      (n target : ℕ) (d : VirtioBlk) (m : Memory)
      → ((k : ℕ) → k < n → after_steps k m (d.used + 2) ≢ target)
      → after_steps n m (d.used + 2) ≡ target
      → wait step mmio (suc n) d target m ≡ some (after_steps n m)
  unfolding wait
  wait_ends zero target d m before now = rw ((==_iff (m (d.used + 2)) target).1 now) refl
  wait_ends (suc n) target d m before now =
      let rest = wait_ends n target d (step m) (λ k small. before (suc k) (omega arith)) now in
      let early : (m (d.used + 2) == target) ≡ false =
        ==_ne (m (d.used + 2)) target (before 0 (omega arith)) in
      rw early rest

  -- The memory after the wait, read back.
  completed-Answered :
      (d : VirtioBlk) (lba len : ℕ) (m after : Memory) (bytes : List ℕ)
      → IsReady d after
      → lba + len / sector_size ≤ d.capacity_sectors
      → (after d.status_virt ≡ status_ok → bytes_at after d.data_virt len ≡ bytes)
      → Answered d lba len m bytes (completed step mmio d len (some after))
  completed-Answered d lba len m after bytes ready inside filled =
      elim (Bool-cases (after d.status_virt == status_ok)) [
        | inl good ↦
            rw (good, filled ((==_iff (after d.status_virt) status_ok).0 good))
              (answered after ready inside)
        | inr bad ↦ rw bad (broken after ready)
      ]

  module _ (bus : ℕ → ℕ) (d : VirtioBlk) (content : ℕ → ℕ → List ℕ) (at : Layout d)
      (disk : Disk bus d content) where
    served :
        (lba len : ℕ) (m : Memory)
        → bus d.header_phys ≡ d.header_virt
        → bus d.data_phys ≡ d.data_virt
        → IsReady d m
        → lba + len / sector_size ≤ d.capacity_sectors
        → (fuel : ℕ) × Answered d lba len m (content lba len) (
            completed step mmio d len (
              wait step mmio fuel d
                (target_of d lba len m)
                (notify_queue step mmio d (publish d lba len m))))
    unfolding target_of
    served lba len m header_at data_at ready inside =
        let asked = publish d lba len m in
        let told = notify_queue step mmio d asked in
        let (request, _, next, used) = publish-follow d lba len m at bus header_at in
        let idle : asked (d.used + 2) ≡ m (d.avail + 2) = used ∙ ready.idle in
        let target : target_of d lba len m ≡ (asked (d.used + 2) + 1) % 2 ^ 16 =
          ap (λ i. (i + 1) % 2 ^ 16) (avail_kept d lba len m at ∙ sym idle) in
        let pending : asked (d.used + 2) ≢ asked (d.avail + 2) =
          λ e. absurd (omega (arith, e, idle, next, ready.word)) in
        let wanted : Request = record {
          kind = request_in;
          sector = lba;
          buffer = d.data_phys;
          len = len;
          status = d.status_phys;
        } in
        let done : DoneIn d asked told (bus d.data_phys) len (content lba len) =
          disk.serves asked wanted pending
            (subst
              (λ i. follow bus d asked (asked (d.avail + 4 + i % d.queue_size * 2)) ≡ some wanted)
              (sym idle) request)
            refl in
        let after = after_steps done.looks told in
        let end : after (d.used + 2) ≡ target_of d lba len m = done.index ∙ sym target in
        let waits =
          wait_ends done.looks (target_of d lba len m) d told
            (λ k small e. absurd (omega (arith, done.before k small, e, target, idle, ready.word)))
            end in
        let ready_after : IsReady d after = record {
          idle = done.index ∙ omega (arith, idle, next, done.avail_index);
          word = omega (arith, done.avail_index, next);
        } in
        (
          suc done.looks,
          rw waits (
              completed-Answered d lba len m after (content lba len) ready_after inside (
                subst
                  (λ b. after d.status_virt ≡ status_ok → bytes_at after b len ≡ content lba len)
                  data_at done.filled)),
        )

    -- With a disk that serves a read when it is told of it through its notify register: a read always ends,
    -- after finitely many looks at the used index. It is refused at once, with the memory as it was, or
    -- the disk reports an error, or the caller gets the disk's bytes from the sector on, all of them on
    -- the disk; and the queue is ready for the next read.
    pub read_sectors-Answered :
        (lba len : ℕ) (m : Memory)
        → bus d.header_phys ≡ d.header_virt
        → bus d.data_phys ≡ d.data_virt
        → IsReady d m
        → (fuel : ℕ) × Answered d lba len m
            (content lba len)
            (read_sectors step mmio fuel d lba len m)
    unfolding read_sectors
    read_sectors-Answered lba len m header_at data_at ready =
        let end = lba + len / sector_size in
        elim (Bool-cases (len == 0 || not (len % sector_size == 0))) [
          | inl e ↦ (0, rw e (rejected buffer_not_sector_aligned))
          | inr e ↦ elim (Bool-cases (ltb data_buffer_size len)) [
            | inl f ↦ (0, rw (e, f) (rejected request_too_large))
            | inr f ↦ elim (Bool-cases (leb (2 ^ 64) end || ltb d.capacity_sectors end)) [
              | inl g ↦ (0, rw (e, f, g) (rejected out_of_range))
              | inr g ↦
                  let inside : end ≤ d.capacity_sectors = ground (arith, g) in
                  let (fuel, answer) = served lba len m header_at data_at ready inside in
                  (fuel, rw (e, f, g) answer)
            ]
          ]
        ]
