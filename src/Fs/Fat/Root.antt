-- ===== src/Fs/Fat/Root.antt =====
-- kernel/src/fs/fat.rs: the one volume of the kernel. The device is that of the disk driver, if there is one.
use tarn_os.Prelude.{Option, none, some}
use tarn_os.Fs.Block.{BlockDevice}
use tarn_os.Fs.Fat.{Result, ok, err, Fat12Volume, no_device}
use tarn_os.Fs.Fat.Read.{mount}

module _ {D : Type 0} (device : BlockDevice D) where
  abbrev pub mounted :
      Option Fat12Volume
      → Result Fat12Volume × D
      → Result (Unit {0}) × Option Fat12Volume × Option D
  mounted root (err e, dev) = (err e, root, some dev)
  mounted root (ok v, dev) = (ok tt, some v, some dev)

  -- The answer, the volume and the device; a failure leaves the volume as it was.
  unfoldable pub mount_root :
      Option Fat12Volume → Option D → Result (Unit {0}) × Option Fat12Volume × Option D
  mount_root root none = (err no_device, root, none)
  mount_root root (some dev) = mounted root (mount device dev)

-- `with_root`, with the closure's answer if it ran.
unfoldable pub with_root :
    {D R : Type 0} → Option Fat12Volume → Option D → (Fat12Volume → D → R × D) → Option R × Option D
with_root none attached f = (none, attached)
with_root (some v) none f = (none, none)
with_root (some v) (some dev) f = let (r, dev') = f v dev in (some r, some dev')
