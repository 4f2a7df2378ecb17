-- ===== src/Tests/Pci.antt =====
-- kernel/src/arch/x86_64/pci.rs: a bus with the disk alone on it.
use tarn_os.Prelude.{◌≡◌, refl, some, ◌==◌, if◌then◌else◌}
use tarn_os.Driver.Pci.{PciAddress, Config, config_address, find_device, mmio_bar_address, read_u32}

abbrev place : PciAddress
place = record { bus = 0; device = 3; function = 0 }

-- Vendor 0x1af4, device 0x1042; BAR 4 is of 64 bits.
abbrev registers : Config
unfolding config_address
registers x =
    if x == config_address place 0
    then 0x1042_1af4
    else if x == config_address place 0x0c
    then 0
    else if x == config_address place 0x20
    then 0xfe00_000c
    else if x == config_address place 0x24
    then 1
    else 0xffff_ffff

finds_disk :
    find_device registers 0x1af4 0x1042
    ≡ some (record { address = place; vendor_id = 0x1af4; device_id = 0x1042 })
unfolding find_device config_address
finds_disk = refl

reads_bar :
    mmio_bar_address registers
      (record { address = place; vendor_id = 0x1af4; device_id = 0x1042 })
      4
    ≡ some 0x1_fe00_0000
unfolding mmio_bar_address config_address read_u32
reads_bar = refl
