-- ===== src/Tests/Fs.antt =====
-- kernel/src/fs/fat.rs: a volume of nine sectors with one file.
use tarn_os.Prelude.{
  ℕ, ◌+◌, ◌*◌, ◌≤◌, ◌≡◌, ◌↔◌, refl, List, [], ◌∷◌, ◌++◌, some, arith, length, take, drop, replicate,
  if◌then◌else◌, leb, length-take, length-drop, ◌-◌,
}
use tarn_os.Fs.Block.{BlockDevice, ReadResult, read, failed, out_of_range, sector_size}
use tarn_os.Fs.Fat.{
  ok, Fat12Volume, parse_boot_sector, fat12_entry, cluster_chain, chain_from, next_cluster,
  to_83_name, is_ascii, rsplit_once_dot,
}
use tarn_os.Fs.Fat.Entry.{table, All12}
use tarn_os.Fs.Fat.Chain.{IsChain, cluster_chain_iff}

abbrev pub readme : List ℕ
readme = 114 ∷ 46 ∷ 116 ∷ []

abbrev readme_packed : List ℕ
readme_packed = 82 ∷ replicate 7 32 ++ 84 ∷ 32 ∷ 32 ∷ []

to_83_name-readme : to_83_name readme ≡ some readme_packed
unfolding to_83_name rsplit_once_dot is_ascii
to_83_name-readme = refl

abbrev base : List ℕ
base = 114 ∷ []

abbrev ext : List ℕ
ext = 116 ∷ []

-- Entries 0 and 1 are reserved; the chain goes from 2 to 3 and ends.
abbrev pairs : List (ℕ × ℕ)
pairs = (0xff8, 0xfff) ∷ (3, 0xfff) ∷ []

pairs-All12 : All12 pairs
pairs-All12 = (omega arith, omega arith, (omega arith, omega arith, tt))

abbrev pub volume : Fat12Volume
volume = record {
  sectors_per_cluster = 1;
  fat_size_sectors = 1;
  fat_start_lba = 1;
  root_dir_start_lba = 2;
  root_dir_sectors = 1;
  data_start_lba = 3;
  total_clusters = 6;
}

abbrev chain : List ℕ
chain = 2 ∷ 3 ∷ []

volume-chain : cluster_chain volume (table pairs) 2 ≡ ok chain
unfolding cluster_chain chain_from next_cluster fat12_entry
volume-chain = refl

cluster_chain_iff_example :
    (cluster_chain volume (table pairs) 2 ≡ ok chain)
    ↔ (IsChain (table pairs) 2 chain × (length chain ≤ volume.total_clusters))
cluster_chain_iff_example = cluster_chain_iff volume (table pairs) 2 chain

abbrev place : ℕ
place = 1

-- A boot sector: 512 bytes a sector, one sector a cluster, one reserved, one table of one sector, 16
-- entries in the root, nine sectors.
abbrev boot : List ℕ
boot =
    replicate 11 0
    ++ 0 ∷ 2 ∷ 1 ∷ 1 ∷ 0 ∷ 1 ∷ 16 ∷ 0 ∷ 9 ∷ 0 ∷ 0 ∷ 1 ∷ 0 ∷ replicate 486 0
    ++ 0x55 ∷ 0xaa ∷ []

boot-volume : parse_boot_sector boot ≡ ok volume
unfolding parse_boot_sector
boot-volume = refl

-- A device that is the list of its bytes.
abbrev pub disk_read : List ℕ → ℕ → ℕ → ReadResult
disk_read disk lba len =
    if leb (lba * sector_size + len) (length disk)
    then read (take len (drop (lba * sector_size) disk))
    else failed out_of_range

pub length-disk_read :
    (disk : List ℕ) (lba len : ℕ) {bytes : List ℕ}
    → disk_read disk lba len ≡ read bytes
    → length bytes ≡ len
length-disk_read disk lba len h =
    ground
      (arith, length-take len (drop (lba * sector_size) disk), length-drop (lba * sector_size) disk)

abbrev pub disk_device : BlockDevice (List ℕ)
disk_device = record {
  read_sectors = λ disk lba len. (disk_read disk lba len, disk);
  read_length = λ disk lba len h. length-disk_read disk lba len h;
}

-- One directory entry: the name, then the first cluster 2 and a size of 3 bytes.
abbrev listed : List ℕ
listed = readme_packed ++ replicate 15 0 ++ 2 ∷ 0 ∷ 3 ∷ 0 ∷ 0 ∷ 0 ∷ []

abbrev sector : List ℕ → List ℕ
sector bytes = bytes ++ replicate (512 - length bytes) 0

abbrev pub disk : List ℕ
disk = boot ++ sector (table pairs) ++ sector listed ++ sector (72 ∷ 105 ∷ 33 ∷ []) ++ sector []
