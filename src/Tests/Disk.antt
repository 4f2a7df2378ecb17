-- ===== src/Tests/Disk.antt =====
-- kernel/src/driver/virtio_blk.rs: a disk that answers one read at a time.
use tarn_os.Prelude.{
  ℕ, zero, suc, ◌+◌, ◌*◌, ◌%◌, ◌^◌, ◌≡◌, ◌<◌, ◌≤◌, refl, ap₂, Bool, true, ◌&&◌, List, ◌∷◌, Option,
  some, none, ◌==◌, ltb, leb, if◌then◌else◌, replicate, arith,
}
use tarn_os.Driver.VirtioBlk.{
  Memory, VirtioBlk, publish, bytes_at, read_sectors, request_in, status_pending,
}
use tarn_os.Driver.VirtioBlk.Chain.{Layout, Request, follow, publish-follow}
use tarn_os.Driver.VirtioBlk.Read.{Disk, Answered, read_sectors-Answered}

abbrev d : VirtioBlk
d = record {
  notify_base = 0x7000;
  notify_off_multiplier = 4;
  queue_notify_off = 2;
  capacity_sectors = 100;
  desc = 0x1000;
  avail = 0x2000;
  used = 0x3000;
  queue_size = 8;
  header_phys = 0x4000;
  header_virt = 0x4000;
  data_phys = 0x5000;
  data_virt = 0x5000;
  status_phys = 0x6000;
  status_virt = 0x6000;
}

d-Layout : Layout d
d-Layout = record {
  desc_frame = 1;
  avail_frame = 2;
  used_frame = 3;
  header_frame = 4;
  status_frame = 6;
  desc_in = refl;
  avail_in = refl;
  used_in = refl;
  header_in = refl;
  status_in = refl;
  desc-avail = λ e. absurd (omega arith);
  desc-used = λ e. absurd (omega arith);
  desc-header = λ e. absurd (omega arith);
  desc-status = λ e. absurd (omega arith);
  avail-used = λ e. absurd (omega arith);
  avail-header = λ e. absurd (omega arith);
  avail-status = λ e. absurd (omega arith);
  used-header = λ e. absurd (omega arith);
  used-status = λ e. absurd (omega arith);
  header-status = λ e. absurd (omega arith);
  enough = omega arith;
  few = omega arith;
}

abbrev same : ℕ → ℕ
same a = a

-- All bytes of a sector are its number.
abbrev content : ℕ → ℕ → List ℕ
content sector len = replicate len (sector % 256)

abbrev is_fair : Request → Bool
is_fair r = r.buffer == 0x5000 && leb r.len 4096

-- A request for the driver's buffer is served; any other gets a bad status.
abbrev answer_to : Memory → Request → Memory
answer_to m r x =
    if x == 0x3002
    then (m 0x3002 + 1) % 2 ^ 16
    else if x == 0x6000
    then if is_fair r then 0 else 1
    else if is_fair r && leb 0x5000 x && ltb x 0x6000
    then r.sector % 256
    else m x

abbrev answer_if : Memory → Option Request → Memory
answer_if m none = m
answer_if m (some r) = answer_to m r

-- The disk works only when it is told.
abbrev step : Memory → Memory
step m = m

abbrev mmio : ℕ → ℕ → Memory → Memory
mmio a v m =
    if a == 0x7008 && v == 0
    then answer_if m (follow same d m (m (0x2004 + m 0x3002 % 8 * 2)))
    else m

filled_from :
    (m : Memory) (v a n : ℕ)
    → ((x : ℕ) → a ≤ x → x < a + n → m x ≡ v)
    → bytes_at m a n ≡ replicate n v
unfolding bytes_at
filled_from m v a zero h = refl
filled_from m v a (suc n) h =
    ap₂ ◌∷◌ (h a (omega arith) (omega arith))
      (filled_from m v (a + 1) n (λ x low high. h x (omega arith) (omega arith)))

disk : Disk step mmio same d content
disk = record {
  serves = λ m r pending found kind. record {
    looks = 0;
    before = λ k small. absurd (omega arith);
    index = rw found refl;
    avail_index = rw found (ground arith);
    filled = rw found (λ good. serve m r good);
  };
}
  where
    serve :
        (m : Memory) (r : Request)
        → answer_to m r 0x6000 ≡ 0
        → bytes_at (answer_to m r) r.buffer r.len ≡ replicate r.len (r.sector % 256)
    serve m r good =
        let fair : is_fair r ≡ true = ground (arith, good) in
        let at : r.buffer ≡ 0x5000 = ground (arith, fair) in
        let short : r.len ≤ 4096 = ground (arith, fair) in
        filled_from (answer_to m r) (r.sector % 256) r.buffer r.len
          (λ x low high. ground (arith, fair, at, short, low, high))

abbrev blank : Memory
blank a = 0

read_sectors-Answered_example :
    (fuel : ℕ) × Answered step mmio d 7 1024 blank
      (content 7 1024)
      (read_sectors step mmio fuel d 7 1024 blank)
read_sectors-Answered_example =
    read_sectors-Answered step mmio same d content d-Layout disk 7 1024 blank refl refl
      (record { idle = refl; word = omega arith })

publish-follow_example :
    (follow same d (publish d 7 1024 blank) (publish d 7 1024 blank (0x2004 + blank 0x2002 % 8 * 2))
      ≡ some
          (record { kind = request_in; sector = 7; buffer = 0x5000; len = 1024; status = 0x6000 }))
    × (publish d 7 1024 blank 0x6000 ≡ status_pending)
    × (publish d 7 1024 blank 0x2002 ≡ (blank 0x2002 + 1) % 2 ^ 16)
    × (publish d 7 1024 blank 0x3002 ≡ blank 0x3002)
publish-follow_example = publish-follow d 7 1024 blank d-Layout same refl
