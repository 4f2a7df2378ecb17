-- ===== src/Driver/Pci/Search.antt =====
-- kernel/src/arch/x86_64/pci.rs: what the search of the bus finds.
use tarn_os.Prelude.{ℕ, ◌≡◌, ◌≢◌, ◌<◌, Option, none, some}
use tarn_os.Driver.Pci.{PciAddress, PciDevice, Config, vendor_id, device_id, function_count}

-- A function that the search looks at: its device has a function 0, and it is that one or the device has
-- several functions.
pub record IsListed (c : Config) (a : PciAddress) : Type 0 where
  pub bus_in : a.bus < 256
  pub device_in : a.device < 32
  pub first_there : vendor_id c (record { bus = a.bus; device = a.device; function = 0 }) ≢ 0xffff
  pub function_in :
      a.function < function_count c (record { bus = a.bus; device = a.device; function = 0 })

-- What a search for a vendor and a device says of the bus.
pub data Found (c : Config) (vendor device : ℕ) : Option PciDevice → Type 0 where
  found :
      (a : PciAddress)
      → IsListed c a
      → vendor_id c a ≡ vendor
      → device_id c a ≡ device
      → Found c vendor device
          (some (record { address = a; vendor_id = vendor; device_id = device }))
  absent :
      ((a : PciAddress) → IsListed c a → vendor_id c a ≡ vendor → device_id c a ≢ device)
      → Found c vendor device none
