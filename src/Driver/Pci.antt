-- ===== src/Driver/Pci.antt =====
-- kernel/src/arch/x86_64/pci.rs: configuration space through two ports, and the search of the bus. The space is a
-- function from the word in the address port to the word of 32 bits that the data port then gives.
pub mod Address
pub mod Search
use tarn_os.Prelude.{
  ℕ, zero, suc, ◌+◌, ◌-◌, ◌*◌, ◌/◌, ◌%◌, ◌^◌, Bool, true, false, not, ◌&&◌, List, [], ◌∷◌, Option,
  none, some, ◌==◌, if◌then◌else◌, bit_and, bit_or,
}
use tarn_os.Prelude.Bits.{complement}

-- `PciAddress`.
pub record PciAddress : Type 0 where
  pub bus : ℕ
  pub device : ℕ
  pub function : ℕ

pub record PciDevice : Type 0 where
  pub address : PciAddress
  pub vendor_id : ℕ
  pub device_id : ℕ

abbrev pub Config : Type 0
Config = ℕ → ℕ

-- A shift to the left of a `u32`.
abbrev pub shl32 : ℕ → ℕ → ℕ
shl32 x k = x * 2 ^ k % 2 ^ 32

unfoldable pub config_address : PciAddress → ℕ → ℕ
config_address a offset =
    bit_or
      (bit_or (bit_or (bit_or 0x8000_0000 (shl32 a.bus 16)) (shl32 a.device 11))
        (shl32 a.function 8))
      (bit_and offset 0xfc)

unfoldable pub read_u32 : Config → PciAddress → ℕ → ℕ
unfolding config_address
read_u32 c a offset = c (config_address a offset)

-- `offset & !0b11` and `(offset & 0b11) * 8`.
abbrev pub dword_offset : ℕ → ℕ
dword_offset offset = bit_and offset 0xfc

abbrev pub shift_of : ℕ → ℕ
shift_of offset = bit_and offset 3 * 8

unfoldable pub read_u16 : Config → PciAddress → ℕ → ℕ
unfolding read_u32
read_u16 c a offset = read_u32 c a (dword_offset offset) / 2 ^ shift_of offset % 2 ^ 16

unfoldable pub read_u8 : Config → PciAddress → ℕ → ℕ
unfolding read_u32
read_u8 c a offset = read_u32 c a (dword_offset offset) / 2 ^ shift_of offset % 2 ^ 8

-- The word that `write_u16` gives the data port, and the space after it if all its fields hold what is written.
unfoldable pub write_u16 : Config → PciAddress → ℕ → ℕ → Config
unfolding read_u32
write_u16 c a offset value =
    let existing = read_u32 c a (dword_offset offset) in
    let mask = shl32 0xffff (shift_of offset) in
    let merged = bit_or (bit_and existing (complement 32 mask)) (shl32 value (shift_of offset)) in
    λ x. if x == config_address a (dword_offset offset) then merged else c x

abbrev pub vendor_id : Config → PciAddress → ℕ
vendor_id c a = read_u16 c a 0x00

abbrev pub device_id : Config → PciAddress → ℕ
device_id c a = read_u16 c a 0x02

abbrev pub header_type : Config → PciAddress → ℕ
header_type c a = read_u8 c a 0x0e

abbrev pub command : Config → PciAddress → ℕ
command c a = read_u16 c a 0x04

abbrev pub set_command : Config → PciAddress → ℕ → Config
set_command c a value = write_u16 c a 0x04 value

abbrev pub status : Config → PciAddress → ℕ
status c a = read_u16 c a 0x06

abbrev pub bar_raw : Config → PciAddress → ℕ → ℕ
bar_raw c a index = read_u32 c a (0x10 + index * 4)

-- `none` is the panic at a port BAR.
unfoldable pub mmio_bar_address : Config → PciDevice → ℕ → Option ℕ
mmio_bar_address c dev index =
    let raw = bar_raw c dev.address index in
    let base_low = bit_and raw 0xffff_fff0 in
    if not (bit_and raw 1 == 0)
    then none
    else if bit_and (raw / 2) 3 == 2
    then some (bit_or base_low (bar_raw c dev.address (index + 1) * 2 ^ 32))
    else some base_low

unfoldable pub enable_mmio_and_bus_master : Config → PciDevice → Config
enable_mmio_and_bus_master c dev =
    set_command c dev.address (bit_or (bit_or (command c dev.address) 2) 4)

-- The first answer for `rounds` numbers from `i` on.
unfoldable pub first_of : {A : Type 0} → ℕ → ℕ → (ℕ → Option A) → Option A
first_of zero i f = none
first_of (suc rounds) i f =
    let rest = first_of rounds (i + 1) f in elim (f i) [ none ↦ rest | some a ↦ some a ]

unfoldable pub function_count : Config → PciAddress → ℕ
function_count c a = if bit_and (header_type c a) 0x80 == 0 then 1 else 8

abbrev pub match_at : Config → ℕ → ℕ → PciAddress → Option PciDevice
match_at c vendor device a =
    let vid = vendor_id c a in
    let did = device_id c a in
    if vid == 0xffff
    then none
    else if vid == vendor && did == device
    then some (record { address = a; vendor_id = vid; device_id = did })
    else none

abbrev pub scan_device : Config → ℕ → ℕ → ℕ → ℕ → Option PciDevice
scan_device c vendor device bus dev =
    let function_0 : PciAddress = record { bus = bus; device = dev; function = 0 } in
    if vendor_id c function_0 == 0xffff
    then none
    else first_of (function_count c function_0) 0 (λ function.
      match_at c vendor device (record { bus = bus; device = dev; function = function }))

unfoldable pub find_device : Config → ℕ → ℕ → Option PciDevice
unfolding first_of function_count read_u16 read_u8
find_device c vendor device =
    first_of 256 0 (λ bus. first_of 32 0 (λ dev. scan_device c vendor device bus dev))
