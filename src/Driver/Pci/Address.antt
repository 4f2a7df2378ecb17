-- ===== src/Driver/Pci/Address.antt =====
-- kernel/src/arch/x86_64/pci.rs: the addresses of registers.
use tarn_os.Prelude.{ℕ, ◌+◌, ◌*◌, ◌%◌, ◌^◌, ◌≡◌, ◌<◌, sym, ◌∙◌, bit_and, bit_or, arith}
use tarn_os.Prelude.Bits.{bit_and-lt, bit_or_comm, bit_or_high}
use tarn_os.Driver.Pci.{PciAddress, config_address}

-- The fields of an address have the widths that the bus gives them.
pub record IsAddress (a : PciAddress) : Type 0 where
  pub bus_in : a.bus < 256
  pub device_in : a.device < 32
  pub function_in : a.function < 8

low : (k a b : ℕ) → a < 2 ^ k → bit_or (b * 2 ^ k) a ≡ b * 2 ^ k + a
low k a b small = bit_or_comm (b * 2 ^ k) a ∙ bit_or_high k a b small ∙ omega arith

config_address_sum :
    (a : PciAddress) (offset : ℕ)
    → IsAddress a
    → offset < 256
    → config_address a offset
      ≡ 2 ^ 31 + a.bus * 2 ^ 16 + a.device * 2 ^ 11 + a.function * 2 ^ 8 + bit_and offset 0xfc
unfolding config_address
config_address_sum a offset at small =
    let one = low 24 (a.bus * 2 ^ 16 % 2 ^ 32) (2 ^ 7) (omega (arith, at.bus_in)) in
    let two = low 16 (a.device * 2 ^ 11 % 2 ^ 32) (2 ^ 15 + a.bus) (omega (arith, at.device_in)) in
    let three =
      low 11 (a.function * 2 ^ 8 % 2 ^ 32) (2 ^ 20 + a.bus * 2 ^ 5 + a.device)
        (omega (arith, at.function_in)) in
    let four =
      low 8 (bit_and offset 0xfc) (2 ^ 23 + a.bus * 2 ^ 8 + a.device * 2 ^ 3 + a.function)
        (bit_and-lt 8 offset 0xfc small) in
    let s1 : bit_or 0x8000_0000 (a.bus * 2 ^ 16 % 2 ^ 32) ≡ (2 ^ 15 + a.bus) * 2 ^ 16 =
      one ∙ omega (arith, at.bus_in) in
    let s2 : (2 ^ 15 + a.bus) * 2 ^ 16 + a.device * 2 ^ 11 % 2 ^ 32
        ≡ (2 ^ 20 + a.bus * 2 ^ 5 + a.device) * 2 ^ 11 =
      omega (arith, at.device_in) in
    let s3 : (2 ^ 20 + a.bus * 2 ^ 5 + a.device) * 2 ^ 11 + a.function * 2 ^ 8 % 2 ^ 32
        ≡ (2 ^ 23 + a.bus * 2 ^ 8 + a.device * 2 ^ 3 + a.function) * 2 ^ 8 =
      omega (arith, at.function_in) in
    rw (s1, two, s2, three, s3, four) (omega arith)

-- No two registers of the bus have the same address: the word for the address port determines the bus, the
-- device, the function and the group of four bytes.
pub config_address_injective :
    (a b : PciAddress) (offset other : ℕ)
    → IsAddress a
    → IsAddress b
    → offset < 256
    → other < 256
    → config_address a offset ≡ config_address b other
    → (a.bus ≡ b.bus)
      × (a.device ≡ b.device)
      × (a.function ≡ b.function)
      × (bit_and offset 0xfc ≡ bit_and other 0xfc)
config_address_injective a b offset other at bt small small' e =
    let left = config_address_sum a offset at small in
    let right = config_address_sum b other bt small' in
    let below = bit_and-lt 8 offset 0xfc small in
    let below' = bit_and-lt 8 other 0xfc small' in
    let sums = sym left ∙ e ∙ right in
    (
      omega
          (arith, sums, below, below', at.device_in, bt.device_in, at.function_in, bt.function_in),
      omega
          (arith, sums, below, below', at.device_in, bt.device_in, at.function_in, bt.function_in),
      omega
          (arith, sums, below, below', at.device_in, bt.device_in, at.function_in, bt.function_in),
      omega
          (arith, sums, below, below', at.device_in, bt.device_in, at.function_in, bt.function_in),
    )
