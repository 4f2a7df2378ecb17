-- ===== src/Fs/Fat/Read.antt =====
-- kernel/src/fs/fat.rs: the operations of `Fat12Volume` that read the device.
use tarn_os.Prelude.{
  ℕ, zero, suc, ◌+◌, ◌-◌, ◌*◌, ◌/◌, List, [], ◌∷◌, ◌++◌, none, some, ◌==◌, if◌then◌else◌, take,
}
use tarn_os.Fs.Block.{sector_size, BlockDevice, read, failed}
use tarn_os.Fs.Fat.{
  Fat, ◌>>=◌, pure, lift, Fat12Volume, parse_boot_sector, cluster_chain, or_err, to_83_name,
  scan_sector, ok, err, io, no_such_file, name_too_long,
}

module _ {D : Type 0} (device : BlockDevice D) where
  -- `read_sectors(..).map_err(FatError::Io)?`.
  unfoldable pub read_bytes : ℕ → ℕ → Fat D (List ℕ)
  read_bytes lba len dev =
      let (r, dev') = device.read_sectors dev lba len in
      elim r [ read bytes ↦ (ok bytes, dev') | failed e ↦ (err (io e), dev') ]

  unfoldable pub mount : Fat D Fat12Volume
  mount = do boot ← read_bytes 0 sector_size; lift (parse_boot_sector boot)

  -- The loop of `read_fat_table`, with `rounds` sectors left from `lba` on.
  unfoldable pub read_run : ℕ → ℕ → Fat D (List ℕ)
  read_run zero lba = pure []
  read_run (suc rounds) lba = do
    bytes ← read_bytes lba sector_size
    rest ← read_run rounds (lba + 1)
    pure (bytes ++ rest)

  unfoldable pub read_fat_table : Fat12Volume → Fat D (List ℕ)
  read_fat_table v = read_run v.fat_size_sectors v.fat_start_lba

  unfoldable pub find_from : ℕ → ℕ → List ℕ → Fat D (ℕ × ℕ)
  find_from zero lba name83 = lift (err no_such_file)
  find_from (suc rounds) lba name83 = do
    bytes ← read_bytes lba sector_size
    elim (scan_sector (sector_size / 32) name83 bytes) [
      | some r ↦ lift r
      | none ↦ find_from rounds (lba + 1) name83
    ]

  unfoldable pub find_dir_entry : Fat12Volume → List ℕ → Fat D (ℕ × ℕ)
  find_dir_entry v name83 = find_from v.root_dir_sectors v.root_dir_start_lba name83

  -- The loop of `read_file` over the clusters of the chain.
  unfoldable pub read_clusters : Fat12Volume → List ℕ → Fat D (List ℕ)
  read_clusters v [] = pure []
  read_clusters v (cluster ∷ chain) = do
    bytes ←
        read_bytes (v.data_start_lba + (cluster - 2) * v.sectors_per_cluster)
          (v.sectors_per_cluster * sector_size)
    rest ← read_clusters v chain
    pure (bytes ++ rest)

  -- The parts of `read_file`, last part first. `truncate` leaves a shorter buffer as it is.
  unfoldable pub read_data : Fat12Volume → ℕ → List ℕ → Fat D (List ℕ)
  read_data v file_size chain = do bytes ← read_clusters v chain; pure (take file_size bytes)

  unfoldable pub read_chain : Fat12Volume → ℕ → ℕ → List ℕ → Fat D (List ℕ)
  read_chain v first_cluster file_size fat = do
    chain ← lift (cluster_chain v fat first_cluster)
    read_data v file_size chain

  unfoldable pub read_content : Fat12Volume → ℕ × ℕ → Fat D (List ℕ)
  read_content v (first_cluster, file_size) =
      if file_size == 0
      then pure []
      else (do fat ← read_fat_table v; read_chain v first_cluster file_size fat)

  unfoldable pub read_named : Fat12Volume → List ℕ → Fat D (List ℕ)
  read_named v name83 = do found ← find_dir_entry v name83; read_content v found

  unfoldable pub read_file : Fat12Volume → List ℕ → Fat D (List ℕ)
  unfolding read_named read_content read_chain read_data
  read_file v name = do name83 ← lift (or_err name_too_long (to_83_name name)); read_named v name83
