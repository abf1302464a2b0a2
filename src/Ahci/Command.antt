-- ===== src/Ahci/Command.antt =====
-- src/ahci.c: the command of a transfer, the wait for its end, the initialisation, and the two functions that
-- read and write a sector.
use mathlib.Core.Option
use a_lightweight_os.Base.{
  ℕ, zero, suc, ◌+◌, ◌-◌, ◌*◌, ◌/◌, ◌%◌, ◌^◌, Bool, true, false, not, Option, none, some, ltb, leb,
  ◌==◌, if◌then◌else◌, update, find_first, test_bit, set_bit, clear_bit, u32, u64, List, [], ◌∷◌, ℤ,
  pos, negsuc,
}
use a_lightweight_os.Pci.{
  pci_find_ahci_controller, pci_get_bar5, pci_read_config_dword, pci_write_config_dword,
}
use a_lightweight_os.Ahci.{
  Hba, Layout, Ahci, clb, clbu, interrupts, tfd, sig, ci, put_le, ahci_memcpy, read_register,
  write_register, change_register, port_present, port_find_free_slot, port_rebase,
}

-- `&ahci_cmd_tables[...][slot]`, with the difference of two ports in bytes as the row.
unfoldable pub table_address : Layout → ℕ → ℕ → ℕ → ℕ
table_address a first port slot =
    u64 (a.cmd_tables + (u32 (port + 2 ^ 64 - first) * 32 + slot) * 256)

-- The two bytes with the command's length, the direction and the entries of its table.
unfoldable pub put_header : ℕ → Bool → (ℕ → ℕ) → ℕ → ℕ
unfolding put_le set_bit clear_bit
put_header header write m =
    let cfl = update m header (m header / 32 * 32 + 5) in
    let w =
      update cfl header (if write then set_bit (cfl header) 6 else clear_bit (cfl header) 6) in
    put_le 2 (header + 2) 1 w

-- Bytes one after the other.
unfoldable pub put_fis : ℕ → List ℕ → (ℕ → ℕ) → ℕ → ℕ
put_fis address [] m = m
put_fis address (x ∷ xs) m = put_fis (address + 1) xs (update m address x)

-- The entry of a command table for a buffer.
unfoldable pub put_entry : ℕ → ℕ → ℕ → (ℕ → ℕ) → ℕ → ℕ
unfolding put_le set_bit
put_entry table buffer count m =
    let dbc = set_bit (u32 (u32 (count * 512) + 2 ^ 32 - 1)) 31 in
    put_le 4 (table + 140) dbc
      (put_le 4 (table + 132) (u32 (buffer / 2 ^ 32)) (put_le 4 (table + 128) (u32 buffer) m))

abbrev pub fis_bytes : Bool → ℕ → List ℕ
fis_bytes write lba =
    0x27
    ∷ 0x80
    ∷ (if write then 0x35 else 0x25)
    ∷ 0
    ∷ lba % 256
    ∷ lba / 2 ^ 8 % 256
    ∷ lba / 2 ^ 16 % 256
    ∷ 0
    ∷ lba / 2 ^ 24 % 256
    ∷ lba / 2 ^ 32 % 256
    ∷ lba / 2 ^ 40 % 256
    ∷ []

abbrev pub count_bytes : ℕ → List ℕ
count_bytes count = count % 256 ∷ count / 2 ^ 8 % 256 ∷ []

-- The entry for the buffer, the bytes of the command, and the first byte of `acmd`.
unfoldable pub put_table : ℕ → ℕ → ℕ → Bool → ℕ → (ℕ → ℕ) → ℕ → ℕ
unfolding put_fis put_entry
put_table table buffer count write lba m =
    let fis = put_fis table (fis_bytes write lba) (put_entry table buffer count m) in
    update (put_fis (table + 12) (count_bytes count) fis) (table + 64) 0

-- The memory of a command, with the address of the command list that the port's registers hold.
unfoldable pub command_memory : Layout → ℕ → ℕ → ℕ → ℕ → ℕ → ℕ → Bool → ℕ → (ℕ → ℕ) → ℕ → ℕ
unfolding table_address ahci_memcpy put_header put_table
command_memory a first port list slot buffer count write lba m =
    let table = table_address a first port slot in
    put_table table buffer count write lba
      (put_header (list + slot * 32) write (ahci_memcpy table a.command_zeros 256 m))

module _ {D : Hba} where
  unfoldable pub prepare_command : Layout → ℕ → ℕ → ℕ → ℕ → Bool → ℕ → Ahci D → Bool × Ahci D
  unfolding read_register write_register change_register command_memory set_bit
  prepare_command a port slot buffer count write lba d =
      let low = read_register port clb d in
      let high = read_register port clbu low.1 in
      let filled : Ahci D = record (high.1) {
        memory =
            command_memory a (d.ahci_ports 0) port (low.0 + high.0 * 2 ^ 32) slot buffer count write
              lba high.1.memory;
      } in
      let issued =
        change_register port ci (λ v. set_bit v slot)
          (write_register port interrupts 0xFFFFFFFF filled) in
      if leb 32 slot then (false, d) else (true, issued)

  -- The loop of ahci_wait_completion and the test behind it; the tests of the register tfd and of the
  -- interrupts have the same bit.
  unfoldable pub wait_completion : ℕ → ℕ → ℕ → Ahci D → Option (Bool × Ahci D)
  unfolding read_register
  wait_completion zero port slot d = none
  wait_completion (suc fuel) port slot d =
      let issued = read_register port ci d in
      let status = read_register port tfd issued.1 in
      let raised = read_register port interrupts issued.1 in
      let rest = wait_completion fuel port slot status.1 in
      if test_bit issued.0 slot
      then if test_bit status.0 30 then some (false, status.1) else rest
      else some (not (test_bit raised.0 30), raised.1)

  prepared : ℕ → ℕ → ℕ → Bool × Ahci D → Option (Bool × Ahci D)
  unfolding wait_completion
  prepared fuel port slot (false, d) = some (false, d)
  prepared fuel port slot (true, d) = wait_completion fuel port slot d

  unfoldable pub slotted :
      Layout → ℕ → ℕ → ℕ → ℕ → Bool → ℕ → Option ℕ × Ahci D → Option (Bool × Ahci D)
  unfolding prepare_command prepared
  slotted a fuel port buffer count write lba (none, d) = some (false, d)
  slotted a fuel port buffer count write lba (some slot, d) =
      prepared fuel port slot (prepare_command a port slot buffer count write lba d)

  -- With the first port that is not NULL.
  unfoldable pub on_port :
      Layout → ℕ → ℕ → ℕ → Bool → ℕ → Ahci D → Option ℕ → Option (Bool × Ahci D)
  unfolding port_find_free_slot slotted
  on_port a fuel buffer count write lba d none = some (false, d)
  on_port a fuel buffer count write lba d (some i) =
      let port = d.ahci_ports i in
      slotted a fuel port buffer count write lba (port_find_free_slot port d)

  unfoldable pub do_transfer : Layout → ℕ → ℕ → ℕ → ℕ → Bool → Ahci D → Option (Bool × Ahci D)
  unfolding on_port find_first
  do_transfer a fuel lba buffer count write d =
      if d.ahci_hba == 0
      then some (false, d)
      else on_port a fuel buffer count write lba d
          (find_first (λ i. not (d.ahci_ports i == 0)) 32 0)

  unfoldable pub result : Option (Bool × Ahci D) → Option (ℤ × Ahci D)
  result none = none
  result (some (true, d)) = some (pos 0, d)
  result (some (false, d)) = some (negsuc 0, d)

  unfoldable pub read_sector : Layout → ℕ → ℕ → ℕ → Ahci D → Option (ℤ × Ahci D)
  unfolding do_transfer result
  read_sector a fuel lba buffer d =
      if buffer == 0 then some (negsuc 0, d) else result (do_transfer a fuel lba buffer 1 false d)

  unfoldable pub write_sector : Layout → ℕ → ℕ → ℕ → Ahci D → Option (ℤ × Ahci D)
  unfolding do_transfer result
  write_sector a fuel lba buffer d =
      if buffer == 0 then some (negsuc 0, d) else result (do_transfer a fuel lba buffer 1 true d)

  -- One port of the loop of ahci_initialize: it is present and is a disk or a packet device.
  accept : Layout → ℕ → ℕ → ℕ → ℕ × Ahci D → Option (Ahci D)
  unfolding read_register port_rebase
  accept a fuel i port (signature, d) =
      let again = read_register port sig d in
      let kept : Ahci D = record d { ahci_ports = update d.ahci_ports i port } in
      let kept_again : Ahci D = record (again.1) {
        ahci_ports = update (again.1).ahci_ports i port;
      } in
      if signature == 0x101
      then port_rebase a fuel i kept
      else if again.0 == 0xEB140101
      then port_rebase a fuel i kept_again
      else some again.1

  unfoldable pub initialize_port : Layout → ℕ → ℕ → Ahci D → Option (Ahci D)
  unfolding port_present accept
  initialize_port a fuel i d =
      let port = d.ahci_hba + 0x100 + i * 0x80 in
      let x = port_present port d in
      if x.0 then accept a fuel i port (read_register port sig x.1) else some x.1

  unfoldable pub initialize_ports : Layout → ℕ → ℕ → ℕ → Option (Ahci D) → Option (Ahci D)
  unfolding initialize_port
  initialize_ports a fuel implemented n none = none
  initialize_ports a fuel implemented zero (some d) = some d
  initialize_ports a fuel implemented (suc n) (some d) =
      let i = 31 - n in
      initialize_ports a fuel implemented n
        (if test_bit implemented i then initialize_port a fuel i d else some d)

  mapped : Layout → ℕ → (ℕ → ℕ) → Option (ℕ × ℕ × ℕ) → Ahci D → Option ((ℕ → ℕ) × Ahci D)
  unfolding pci_get_bar5 pci_read_config_dword pci_write_config_dword initialize_ports set_bit
  mapped a fuel config none d = some (config, d)
  mapped a fuel config (some (bus, device, function)) d =
      let bar5 = pci_get_bar5 config bus device function in
      let enabled =
        pci_write_config_dword config bus device function 4
          (set_bit (pci_read_config_dword config bus device function 4) 2) in
      let x = D.pi d.adapter in
      let found : Ahci D = record d { ahci_hba = bar5; adapter = x.1 } in
      if bar5 == 0
      then some (config, d)
      else Option.map (λ r. (enabled, r)) (initialize_ports a fuel x.0 32 (some found))

  -- The configuration space and the driver after ahci_initialize.
  unfoldable pub initialize : Layout → ℕ → (ℕ → ℕ) → Ahci D → Option ((ℕ → ℕ) × Ahci D)
  unfolding pci_find_ahci_controller mapped
  initialize a fuel config d =
      mapped a fuel config (pci_find_ahci_controller config)
        (record d { ahci_ports = λ i. if ltb i 32 then 0 else d.ahci_ports i })
