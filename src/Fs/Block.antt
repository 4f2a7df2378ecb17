-- ===== src/Fs/Block.antt =====
-- kernel/src/driver/block.rs: what `fs::fat` uses of the trait `BlockDevice`. A device is a value of
-- a type `D`; a call of `read_sectors` returns the bytes that it left in the buffer, or an error, and
-- the device after the call.
use tarn_os.Prelude.{ℕ, ◌≡◌, List, length}

-- `SECTOR_SIZE`.
abbrev pub sector_size : ℕ
sector_size = 512

pub data BlockError : Type 0 where
  buffer_not_sector_aligned out_of_range request_too_large device_error : BlockError

pub data ReadResult : Type 0 where
  read : List ℕ → ReadResult
  failed : BlockError → ReadResult

-- `read_sectors dev lba len` reads `len` bytes from sector `lba` on. A buffer that was filled has the
-- length that was asked for.
pub record BlockDevice (D : Type 0) : Type 0 where
  pub read_sectors : D → ℕ → ℕ → ReadResult × D
  pub read_length :
      (dev : D) (lba len : ℕ) {bytes : List ℕ}
      → (read_sectors dev lba len).0 ≡ read bytes
      → length bytes ≡ len
