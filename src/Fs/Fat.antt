-- ===== src/Fs/Fat.antt =====
-- kernel/src/fs/fat.rs: `Fat12Volume`. Every number comes from fields of at most 32 bits, so no sum
-- or product wraps. A buffer that the source fills slice by slice is the list of its slices in order.
pub mod Read
pub mod Root
pub mod Entry
pub mod Chain
pub mod Name
pub mod File
use tarn_os.Prelude.{
  ℕ, zero, suc, ◌+◌, ◌-◌, ◌*◌, ◌/◌, ◌%◌, Bool, true, false, not, ◌&&◌, ◌||◌, List, [], ◌∷◌, ◌++◌,
  map, Option, none, some, ◌==◌, ltb, leb, if◌then◌else◌, length, get_or, take, drop, replicate,
  bit_and,
}
use tarn_os.Fs.Block.{sector_size, BlockError, BlockDevice, read, failed}

pub data FatError : Type 0 where
  io : BlockError → FatError
  bad_signature unsupported_sector_size corrupt_boot_sector not_fat12 : FatError
  no_such_file corrupt_fat name_too_long no_device : FatError

pub data Result {ℓ} (A : Type ℓ) : Type ℓ where
  ok : A → Result A
  err : FatError → Result A

-- Code that reads a device and may fail.
abbrev pub Fat : Type 0 → Type 0 → Type 0
Fat D A = D → Result A × D

infixl 5 ◌>>=◌ ◌>>◌
abbrev pub ◌>>=◌ : {D A B : Type 0} → Fat D A → (A → Fat D B) → Fat D B
◌>>=◌ m f dev = let (r, dev') = m dev in elim r [ ok a ↦ f a dev' | err e ↦ (err e, dev') ]

abbrev pub ◌>>◌ : {D B : Type 0} → Fat D (Unit {0}) → Fat D B → Fat D B
m >> k = m >>= λ _. k

abbrev pub pure : {D A : Type 0} → A → Fat D A
pure a dev = (ok a, dev)

abbrev pub lift : {D A : Type 0} → Result A → Fat D A
lift r dev = (r, dev)

abbrev pub ensure : {D : Type 0} → Bool → FatError → Fat D (Unit {0})
ensure true e dev = (ok tt, dev)
ensure false e dev = (err e, dev)

abbrev pub read_u16 : List ℕ → ℕ → ℕ
read_u16 bytes off = get_or bytes off 0 + 256 * get_or bytes (off + 1) 0

abbrev pub read_u32 : List ℕ → ℕ → ℕ
read_u32 bytes off = read_u16 bytes off + 65536 * read_u16 bytes (off + 2)

abbrev pub div_ceil : ℕ → ℕ → ℕ
div_ceil a d = if a % d == 0 then a / d else a / d + 1

pub record Fat12Volume : Type 0 where
  pub sectors_per_cluster : ℕ
  pub fat_size_sectors : ℕ
  pub fat_start_lba : ℕ
  pub root_dir_start_lba : ℕ
  pub root_dir_sectors : ℕ
  pub data_start_lba : ℕ
  pub total_clusters : ℕ

-- `FAT12_MAX_CLUSTERS`.
abbrev pub fat12_max_clusters : ℕ
fat12_max_clusters = 4085

-- The checks of `mount` on a boot sector, and the geometry that it computes.
unfoldable pub parse_boot_sector : List ℕ → Result Fat12Volume
parse_boot_sector boot =
    let bytes_per_sector = read_u16 boot 11 in
    let sectors_per_cluster = get_or boot 13 0 in
    let reserved_sector_count = read_u16 boot 14 in
    let num_fats = get_or boot 16 0 in
    let root_entry_count = read_u16 boot 17 in
    let total_sectors_16 = read_u16 boot 19 in
    let fat_size_sectors = read_u16 boot 22 in
    let total_sectors_32 = read_u32 boot 32 in
    let root_dir_sectors = div_ceil (root_entry_count * 32) bytes_per_sector in
    let root_dir_start_lba = reserved_sector_count + num_fats * fat_size_sectors in
    let data_start_lba = root_dir_start_lba + root_dir_sectors in
    let total_sectors = if total_sectors_16 == 0 then total_sectors_32 else total_sectors_16 in
    let total_clusters = (total_sectors - data_start_lba) / sectors_per_cluster in
    if not (get_or boot 510 0 == 0x55 && get_or boot 511 0 == 0xaa)
    then err bad_signature
    else if not (bytes_per_sector == sector_size)
    then err unsupported_sector_size
    else if sectors_per_cluster == 0 || num_fats == 0 || fat_size_sectors == 0
    then err corrupt_boot_sector
    else if leb fat12_max_clusters total_clusters
    then err not_fat12
    else ok (record {
      sectors_per_cluster = sectors_per_cluster;
      fat_size_sectors = fat_size_sectors;
      fat_start_lba = reserved_sector_count;
      root_dir_start_lba = root_dir_start_lba;
      root_dir_sectors = root_dir_sectors;
      data_start_lba = data_start_lba;
      total_clusters = total_clusters;
    })

-- `fat12_entry`.
unfoldable pub fat12_entry : List ℕ → ℕ → Result ℕ
fat12_entry fat cluster =
    let offset = cluster * 3 / 2 in
    let packed = get_or fat offset 0 + 256 * get_or fat (offset + 1) 0 in
    if leb (length fat) (offset + 1)
    then err corrupt_fat
    else if cluster % 2 == 0
    then ok (packed % 0x1000)
    else ok (packed / 16)

-- What the loop of `cluster_chain` does with the entry of the cluster that it just pushed.
pub data Next : Type 0 where
  stop : Next
  fail : FatError → Next
  follow : ℕ → Next

abbrev pub judge : Result ℕ → Next
judge (err e) = fail e
judge (ok next) =
    if leb 0xff8 next
    then stop
    else if next == 0 || next == 0xff7
    then fail corrupt_fat
    else follow next

unfoldable pub next_cluster : List ℕ → ℕ → Next
next_cluster fat cluster = judge (fat12_entry fat cluster)

abbrev pub cons_ok : ℕ → Result (List ℕ) → Result (List ℕ)
cons_ok c (ok cs) = ok (c ∷ cs)
cons_ok c (err e) = err e

-- A cluster that was pushed, with the rounds that follow it.
abbrev pub extended : ℕ → Next → (ℕ → Result (List ℕ)) → Result (List ℕ)
extended cluster stop rest = ok (cluster ∷ [])
extended cluster (fail e) rest = err e
extended cluster (follow next) rest = cons_ok cluster (rest next)

-- The rounds of the loop of `cluster_chain`. `left` is `total_clusters` less the clusters that were
-- pushed before; the chain is the list of the clusters pushed from here on.
unfoldable pub chain_from : ℕ → List ℕ → ℕ → Result (List ℕ)
chain_from zero fat cluster = err corrupt_fat
chain_from (suc left) fat cluster =
    let rest = λ (next : ℕ). chain_from left fat next in
    if ltb cluster 2 then err corrupt_fat else extended cluster (next_cluster fat cluster) rest

unfoldable pub cluster_chain : Fat12Volume → List ℕ → ℕ → Result (List ℕ)
cluster_chain v fat start = chain_from v.total_clusters fat start

-- A dot counts only where no dot follows it.
abbrev pub dot_or : ℕ → List ℕ → Option (List ℕ × List ℕ) → Option (List ℕ × List ℕ)
dot_or c cs (some (b, e)) = some (c ∷ b, e)
dot_or c cs none = if c == b'.' then some ([], cs) else none

-- `name.rsplit_once('.')`: the text before the last dot and the text after it.
unfoldable pub rsplit_once_dot : List ℕ → Option (List ℕ × List ℕ)
rsplit_once_dot [] = none
rsplit_once_dot (c ∷ cs) = dot_or c cs (rsplit_once_dot cs)

abbrev pub to_ascii_uppercase : ℕ → ℕ
to_ascii_uppercase c = if leb b'a' c && leb c b'z' then c - 32 else c

unfoldable pub is_ascii : List ℕ → Bool
is_ascii [] = true
is_ascii (c ∷ cs) = ltb c 128 && is_ascii cs

-- A name field of `n` spaces with the text in capitals at its front.
abbrev pub padded : ℕ → List ℕ → List ℕ
padded n text = map to_ascii_uppercase text ++ replicate (n - length text) b' '

-- The base and the extension of a name; a name with no dot is all base.
abbrev pub parts_or : List ℕ → Option (List ℕ × List ℕ) → List ℕ × List ℕ
parts_or name none = (name, [])
parts_or name (some parts) = parts

abbrev pub or_err : {A : Type 0} → FatError → Option A → Result A
or_err e none = err e
or_err e (some a) = ok a

unfoldable pub to_83_name : List ℕ → Option (List ℕ)
to_83_name name =
    let (base, ext) = parts_or name (rsplit_once_dot name) in
    if length base == 0 || ltb 8 (length base) || ltb 3 (length ext) || not (is_ascii name)
    then none
    else some (padded 8 base ++ padded 3 ext)

unfoldable pub same_bytes : List ℕ → List ℕ → Bool
same_bytes [] [] = true
same_bytes [] (y ∷ ys) = false
same_bytes (x ∷ xs) [] = false
same_bytes (x ∷ xs) (y ∷ ys) = x == y && same_bytes xs ys

-- What the scan of the directory does with one entry of 32 bytes.
pub data Scan : Type 0 where
  end_of_directory skip : Scan
  hit : ℕ → ℕ → Scan

unfoldable pub scan_entry : List ℕ → List ℕ → Scan
unfolding same_bytes
scan_entry name83 entry =
    let first_byte = get_or entry 0 0 in
    let attr = get_or entry 11 0 in
    if first_byte == 0
    then end_of_directory
    else if first_byte == 0xe5
    then skip
    else if bit_and attr 0x0f == 0x0f
    then skip
    else if not (bit_and attr 0x08 == 0)
    then skip
    else if same_bytes (take 11 entry) name83
    then hit (read_u16 entry 26) (read_u32 entry 28)
    else skip

-- The entries of one sector: `n` chunks of 32 bytes. `none` goes on to the next sector.
unfoldable pub scan_sector : ℕ → List ℕ → List ℕ → Option (Result (ℕ × ℕ))
unfolding scan_entry
scan_sector zero name83 bytes = none
scan_sector (suc n) name83 bytes = elim (scan_entry name83 (take 32 bytes)) [
  | end_of_directory ↦ some (err no_such_file)
  | skip ↦ scan_sector n name83 (drop 32 bytes)
  | hit cluster size ↦ some (ok (cluster, size))
]
