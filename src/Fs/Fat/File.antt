-- ===== src/Fs/Fat/File.antt =====
-- `read_file`: which bytes of the device it returns.
use tarn_os.Prelude.{
  ℕ, zero, suc, ◌+◌, ◌-◌, ◌*◌, ◌≡◌, ◌⊎◌, List, [], ◌∷◌, ◌++◌, some, min, length, take,
}
use tarn_os.Fs.Fat.Chain.{IsChain}
use tarn_os.Fs.Block.{BlockDevice, read, sector_size}
use tarn_os.Fs.Fat.{ok, Fat, Fat12Volume, to_83_name}
use tarn_os.Fs.Fat.Read.{find_dir_entry}

-- The requests, each a sector and a number of bytes, for `count` sectors from `lba` on.
abbrev pub sectors_from : ℕ → ℕ → List (ℕ × ℕ)
sectors_from lba zero = []
sectors_from lba (suc count) = (lba, sector_size) ∷ sectors_from (lba + 1) count

-- The sectors of a cluster: the clusters are numbered from 2 on, and stand one after another from the start
-- of the data region.
abbrev pub clusters_at : Fat12Volume → List ℕ → List (ℕ × ℕ)
clusters_at v [] = []
clusters_at v (cluster ∷ chain) =
    (v.data_start_lba + (cluster - 2) * v.sectors_per_cluster, v.sectors_per_cluster * sector_size)
    ∷ clusters_at v chain

module _ {D : Type 0} (device : BlockDevice D) where
  -- The device answered the requests one after another, all together with the bytes that stand third.
  pub data Reads : List (ℕ × ℕ) → D → List ℕ → D → Type 0 where
    no_more : {dev : D} → Reads [] dev [] dev
    one_more :
        {lba len : ℕ} {requests : List (ℕ × ℕ)} {dev dev₁ dev₂ : D} {here more : List ℕ}
        → device.read_sectors dev lba len ≡ (read here, dev₁)
        → Reads requests dev₁ more dev₂
        → Reads ((lba, len) ∷ requests) dev (here ++ more) dev₂

  -- The content of a file of `size` bytes from cluster `first` on: the bytes of the clusters of its chain,
  -- by the table that the volume has on the device, cut to the size.
  pub record InChain (v : Fat12Volume) (first size : ℕ) (dev : D) (bytes : List ℕ) : Type 0 where
    pub fat : List ℕ
    pub after_table : D
    pub table_read : Reads (sectors_from v.fat_start_lba v.fat_size_sectors) dev fat after_table
    pub chain : List ℕ
    pub linked : IsChain fat first chain
    pub all : List ℕ
    pub last : D
    pub clusters_read : Reads (clusters_at v chain) after_table all last
    pub cut : bytes ≡ take size all
    pub size_of : length bytes ≡ min size (length chain * (v.sectors_per_cluster * sector_size))

  abbrev pub Content : Fat12Volume → ℕ → ℕ → D → List ℕ → Type 0
  Content v first size dev bytes = ((size ≡ 0) × (bytes ≡ [])) ⊎ InChain v first size dev bytes

  -- What a successful `read_file` returned, in terms of the directory and the table.
  pub record FileRead (v : Fat12Volume) (name : List ℕ) (dev : D) (bytes : List ℕ) : Type 0 where
    pub name83 : List ℕ
    pub first : ℕ
    pub size : ℕ
    pub after_directory : D
    pub packed : to_83_name name ≡ some name83
    pub listed : find_dir_entry device v name83 dev ≡ (ok (first, size), after_directory)
    pub content : Content v first size after_directory bytes
