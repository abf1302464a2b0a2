-- ===== src/Pci.antt =====
-- src/audio.c: the PCI configuration space and the scans of its devices, and the type of a device of
-- src/kernel.h. The bridge behind the two ports is a parameter: `config` gives the word for an address.
mod Search
mod Tests
use a_lightweight_os.Base.{
  ℕ, zero, suc, ◌+◌, ◌*◌, ◌/◌, ◌%◌, ◌^◌, Bool, ◌&&◌, Option, none, some, ltb, ◌==◌, if◌then◌else◌,
  update,
}

pub record PciDevice : Type 0 where
  pub bus : ℕ
  pub device : ℕ
  pub function : ℕ
  pub vendor_id : ℕ
  pub device_id : ℕ
  pub base_class : ℕ
  pub subclass : ℕ
  pub prog_if : ℕ
  pub bar0 : ℕ

-- Every call has a device below 32 and a function below 8, so that the fields do not overlap.
pub pci_build_address : ℕ → ℕ → ℕ → ℕ → ℕ
pci_build_address bus device function offset =
    2 ^ 31 + bus * 2 ^ 16 + device * 2 ^ 11 + function * 2 ^ 8 + offset / 4 * 4

-- Also `pci_config_read` of src/ahci.c, which has the same body.
unfoldable pub pci_read_config_dword : (ℕ → ℕ) → ℕ → ℕ → ℕ → ℕ → ℕ
unfolding pci_build_address
pci_read_config_dword config bus device function offset =
    config (pci_build_address bus device function offset)

-- The configuration space after the write; also `pci_config_write` of src/ahci.c.
unfoldable pub pci_write_config_dword : (ℕ → ℕ) → ℕ → ℕ → ℕ → ℕ → ℕ → ℕ → ℕ
unfolding pci_build_address
pci_write_config_dword config bus device function offset value =
    update config (pci_build_address bus device function offset) value

-- The fields of `out` for a function that is found.
unfoldable pub describe : (ℕ → ℕ) → ℕ → ℕ → ℕ → PciDevice
unfolding pci_read_config_dword
describe config b d f =
    let vendor_device = pci_read_config_dword config b d f 0 in
    let class_code = pci_read_config_dword config b d f 8 in
    record {
      bus = b;
      device = d;
      function = f;
      vendor_id = vendor_device % 65536;
      device_id = vendor_device / 65536 % 65536;
      base_class = class_code / 2 ^ 24 % 256;
      subclass = class_code / 2 ^ 16 % 256;
      prog_if = class_code / 2 ^ 8 % 256;
      bar0 = pci_read_config_dword config b d f 0x10 / 16 * 16;
    }

-- The loop over the functions of a device, with `n` functions left. What is wanted is said by the word
-- of the vendor and the device and by the word of the class.
unfoldable pub scan_functions : (ℕ → ℕ) → (ℕ → ℕ → Bool) → ℕ → ℕ → ℕ → ℕ → Option PciDevice
unfolding pci_read_config_dword describe
scan_functions config wanted bus device zero function = none
scan_functions config wanted bus device (suc n) function =
    let vendor_device = pci_read_config_dword config bus device function 0 in
    let class_code = pci_read_config_dword config bus device function 8 in
    let header_type = pci_read_config_dword config bus device function 0x0C / 65536 % 256 in
    let rest = scan_functions config wanted bus device n (function + 1) in
    if vendor_device % 65536 == 0xFFFF
    then if function == 0 then none else rest
    else if wanted vendor_device class_code
    then some (describe config bus device function)
    else if (function == 0) && ltb header_type 128
    then none
    else rest

or_next : Option PciDevice → Option PciDevice → Option PciDevice
or_next none o = o
or_next (some d) o = some d

unfoldable pub scan_devices : (ℕ → ℕ) → (ℕ → ℕ → Bool) → ℕ → ℕ → ℕ → Option PciDevice
unfolding scan_functions or_next
scan_devices config wanted bus zero device = none
scan_devices config wanted bus (suc n) device =
    or_next (scan_functions config wanted bus device 8 0)
      (scan_devices config wanted bus n (device + 1))

unfoldable pub scan_buses : (ℕ → ℕ) → (ℕ → ℕ → Bool) → ℕ → ℕ → Option PciDevice
unfolding scan_devices or_next
scan_buses config wanted zero bus = none
scan_buses config wanted (suc n) bus =
    or_next (scan_devices config wanted bus 32 0) (scan_buses config wanted n (bus + 1))

unfoldable pub wanted_id : ℕ → ℕ → ℕ → ℕ → Bool
wanted_id vendor_id device_id vendor_device class_code =
    (vendor_device % 65536 == vendor_id) && (vendor_device / 65536 % 65536 == device_id)

unfoldable pub wanted_class : ℕ → ℕ → ℕ → ℕ → ℕ → Bool
wanted_class class_code subclass prog_if vendor_device register =
    (register / 2 ^ 24 % 256 == class_code)
    && (register / 2 ^ 16 % 256 == subclass)
    && (register / 2 ^ 8 % 256 == prog_if)

-- With an `out` that is not NULL.
unfoldable pub pci_find_device : (ℕ → ℕ) → ℕ → ℕ → Option PciDevice
unfolding scan_buses wanted_id
pci_find_device config vendor_id device_id = scan_buses config (wanted_id vendor_id device_id) 2 0

-- With an `out` that is not NULL.
unfoldable pub pci_find_class : (ℕ → ℕ) → ℕ → ℕ → ℕ → Option PciDevice
unfolding scan_buses wanted_class
pci_find_class config class_code subclass prog_if =
    scan_buses config (wanted_class class_code subclass prog_if) 2 0

-- The bus, the device and the function of a device that is found.
abbrev pub address_of : Option PciDevice → Option (ℕ × ℕ × ℕ)
address_of none = none
address_of (some d) = some (d.bus, d.device, d.function)

-- src/ahci.c has loops of its own over eight buses, with the same steps.
unfoldable pub pci_find_ahci_controller : (ℕ → ℕ) → Option (ℕ × ℕ × ℕ)
unfolding scan_buses wanted_class
pci_find_ahci_controller config = address_of (scan_buses config (wanted_class 1 6 1) 8 0)

-- Of src/ahci.c: the address in the sixth base address register, or 0 if that is an I/O address.
unfoldable pub pci_get_bar5 : (ℕ → ℕ) → ℕ → ℕ → ℕ → ℕ
unfolding pci_read_config_dword
pci_get_bar5 config bus device function =
    let bar_lo = pci_read_config_dword config bus device function 0x24 in
    let bar_hi = pci_read_config_dword config bus device function 0x28 in
    if bar_lo % 2 == 0 then bar_hi * 2 ^ 32 + bar_lo / 16 * 16 else 0
