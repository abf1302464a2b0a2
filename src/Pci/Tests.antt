-- ===== src/Pci/Tests.antt =====
-- Runs of the PCI scans of src/audio.c, and the theorem at a machine with two devices.
use a_lightweight_os.Base.{ℕ, ◌+◌, ◌*◌, ◌^◌, ◌≡◌, refl, some, none, ◌==◌, if◌then◌else◌, find_first}
use a_lightweight_os.Pci
use a_lightweight_os.Pci.Search.{pci_find-find_first, described, chosen_at}

-- A bridge with one function in slot 0 and a network card as function 1 of slot 3, no other device.
abbrev machine : ℕ → ℕ
machine a =
    if a == 2 ^ 31
    then 0x12378086
    else if a == 2 ^ 31 + 3 * 2048
    then 0x70008086
    else if a == 2 ^ 31 + 3 * 2048 + 0x0C
    then 0x00800000
    else if a == 2 ^ 31 + 3 * 2048 + 256
    then 0x813910EC
    else if a == 2 ^ 31 + 3 * 2048 + 256 + 8
    then 0x02000000
    else if a == 2 ^ 31 + 3 * 2048 + 256 + 0x10
    then 0xC001
    else if a == 2 ^ 31 + 0x0C
    then 0
    else 0xFFFFFFFF

abbrev card : Pci.PciDevice
card = record {
  bus = 0;
  device = 3;
  function = 1;
  vendor_id = 0x10EC;
  device_id = 0x8139;
  base_class = 2;
  subclass = 0;
  prog_if = 0;
  bar0 = 0xC000;
}

find_run : Pci.pci_find_device machine 0x10EC 0x8139 ≡ some card
unfolding Pci.pci_find_device
find_run = refl

class_run : Pci.pci_find_class machine 2 0 0 ≡ some card
unfolding Pci.pci_find_class
class_run = refl

ahci_run : Pci.pci_find_ahci_controller machine ≡ none
unfolding Pci.pci_find_ahci_controller
ahci_run = refl

-- An I/O address in the sixth register counts as none.
bar5_run : Pci.pci_get_bar5 (λ _. 0xC001) 0 3 1 ≡ 0
unfolding Pci.pci_get_bar5
bar5_run = refl

write_run : Pci.pci_write_config_dword machine 0 3 1 4 7 (2 ^ 31 + 3 * 2048 + 256 + 4) ≡ 7
unfolding Pci.pci_write_config_dword
write_run = refl

pci_find-find_first_example :
    (Pci.pci_find_device machine 0x10EC 0x8139
      ≡ described machine (find_first (chosen_at machine (Pci.wanted_id 0x10EC 0x8139)) 512 0))
    × (Pci.pci_find_class machine 2 0 0
        ≡ described machine (find_first (chosen_at machine (Pci.wanted_class 2 0 0)) 512 0))
    × (Pci.pci_find_ahci_controller machine
        ≡ Pci.address_of
            (described machine (find_first (chosen_at machine (Pci.wanted_class 1 6 1)) 2048 0)))
pci_find-find_first_example = pci_find-find_first machine 0x10EC 0x8139 2 0 0
