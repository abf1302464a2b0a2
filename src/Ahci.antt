-- ===== src/Ahci.antt =====
-- src/ahci.c: the SATA driver. The host bus adapter is a parameter, which answers the reads of a port's
-- registers and may change with every access. The memory is a function from the address to the byte;
-- where the static arrays and the string literals lie is a parameter too. A loop that waits for a
-- register has fuel, and `none` means that the fuel ran out.
pub mod Command
pub mod Encoding
pub mod Errors
mod Tests
use a_lightweight_os.Base.{
  ℕ, zero, suc, ◌+◌, ◌*◌, ◌/◌, ◌%◌, ◌^◌, Bool, not, ◌&&◌, ◌||◌, Option, none, some, ◌==◌,
  if◌then◌else◌, update, for_up, find_first, test_bit, set_bit, clear_bit, u32,
}

-- The fields of ahci_port_mem_t, with `interrupts` for `is`.
pub data Register : Type 0 where
  clb : Register
  clbu : Register
  fb : Register
  fbu : Register
  interrupts : Register
  ie : Register
  cmd : Register
  reserved0 : Register
  tfd : Register
  sig : Register
  ssts : Register
  sctl : Register
  serr : Register
  sact : Register
  ci : Register
  sntf : Register
  fbs : Register

-- A port is named by its address. `pi` is the register of the ports that are implemented.
pub record Hba : Type 1 where
  pub State : Type 0
  pub read : ℕ → Register → State → ℕ × State
  pub write : ℕ → Register → ℕ → State → State
  pub pi : State → ℕ × State

-- The arrays, and the literals of zero bytes that their contents are copied from, which are
-- shorter than the copies.
pub record Layout : Type 0 where
  pub cmd_list : ℕ
  pub received_fis : ℕ
  pub cmd_tables : ℕ
  pub list_zeros : ℕ
  pub fis_zeros : ℕ
  pub table_zeros : ℕ
  pub command_zeros : ℕ

-- The variables of the driver, with 0 for NULL, the memory, and the state of the adapter.
pub record Ahci (D : Hba) : Type 0 where
  pub ahci_hba : ℕ
  pub ahci_ports : ℕ → ℕ
  pub memory : ℕ → ℕ
  pub adapter : D.State

-- A value in `n` bytes from an address on, the low one first.
unfoldable pub put_le : ℕ → ℕ → ℕ → (ℕ → ℕ) → ℕ → ℕ
put_le zero address value m = m
put_le (suc n) address value m =
    put_le n (address + 1) (value / 256) (update m address (value % 256))

unfoldable pub ahci_memcpy : ℕ → ℕ → ℕ → (ℕ → ℕ) → ℕ → ℕ
ahci_memcpy dest src count m = for_up count (λ i s. update s (dest + i) (s (src + i))) m

-- One command header of ahci_port_rebase, and the table of its slot.
unfoldable pub rebase_slot : Layout → ℕ → ℕ → (ℕ → ℕ) → ℕ → ℕ
unfolding put_le ahci_memcpy
rebase_slot a port_index i m =
    let header = a.cmd_list + port_index * 1024 + i * 32 in
    let ctba = a.cmd_tables + (port_index * 32 + i) * 256 in
    ahci_memcpy ctba a.table_zeros 256 (
      put_le 4 (header + 12) (u32 (ctba / 2 ^ 32))
        (put_le 4 (header + 8) (u32 ctba) (put_le 2 (header + 2) 8 m)))

-- The body of ahci_port_rebase between the stop and the start of the port.
unfoldable pub rebase_memory : Layout → ℕ → (ℕ → ℕ) → ℕ → ℕ
unfolding ahci_memcpy rebase_slot
rebase_memory a port_index m = for_up 32 (rebase_slot a port_index) (
    ahci_memcpy (a.received_fis + port_index * 256) a.fis_zeros 256
      (ahci_memcpy (a.cmd_list + port_index * 1024) a.list_zeros 1024 m))

module _ {D : Hba} where
  unfoldable pub read_register : ℕ → Register → Ahci D → ℕ × Ahci D
  read_register port r d = let x = D.read port r d.adapter in (x.0, record d { adapter = x.1 })

  unfoldable pub write_register : ℕ → Register → ℕ → Ahci D → Ahci D
  write_register port r value d = record d { adapter = D.write port r value d.adapter }

  -- `port->r |= ...` and `port->r &= ...`
  unfoldable pub change_register : ℕ → Register → (ℕ → ℕ) → Ahci D → Ahci D
  unfolding read_register write_register
  change_register port r f d = let x = read_register port r d in write_register port r (f x.0) x.1

  unfoldable pub port_present : ℕ → Ahci D → Bool × Ahci D
  unfolding read_register
  port_present port d =
      let x = read_register port ssts d in ((x.0 % 16 == 3) && (x.0 / 2 ^ 8 % 16 == 1), x.1)

  -- The loop of ahci_port_stop, which reads the register again for its second test.
  unfoldable pub wait_stopped : ℕ → ℕ → Ahci D → Option (Ahci D)
  unfolding read_register
  wait_stopped zero port d = none
  wait_stopped (suc fuel) port d =
      let x = read_register port cmd d in
      let y = read_register port cmd x.1 in
      let again = wait_stopped fuel port x.1 in
      let further = wait_stopped fuel port y.1 in
      if test_bit x.0 14 then again else if test_bit y.0 15 then further else some y.1

  unfoldable pub port_stop : ℕ → ℕ → Ahci D → Option (Ahci D)
  unfolding change_register wait_stopped
  port_stop fuel port d = wait_stopped fuel port (
      change_register port cmd (λ v. clear_bit v 4)
        (change_register port cmd (λ v. clear_bit v 0) d))

  unfoldable pub wait_startable : ℕ → ℕ → Ahci D → Option (Ahci D)
  unfolding read_register
  wait_startable zero port d = none
  wait_startable (suc fuel) port d =
      let x = read_register port cmd d in
      let again = wait_startable fuel port x.1 in if test_bit x.0 15 then again else some x.1

  running : ℕ → Option (Ahci D) → Option (Ahci D)
  unfolding change_register
  running port none = none
  running port (some d) =
      some (
        change_register port cmd (λ v. set_bit v 0) (change_register port cmd (λ v. set_bit v 4) d))

  unfoldable pub port_start : ℕ → ℕ → Ahci D → Option (Ahci D)
  unfolding wait_startable running
  port_start fuel port d = running port (wait_startable fuel port d)

  -- `none` for -1. The two registers are read before the loop.
  unfoldable pub port_find_free_slot : ℕ → Ahci D → Option ℕ × Ahci D
  unfolding read_register find_first
  port_find_free_slot port d =
      let active = read_register port sact d in
      let issued = read_register port ci active.1 in
      (find_first (λ i. not (test_bit active.0 i || test_bit issued.0 i)) 32 0, issued.1)

  rebased : Layout → ℕ → ℕ → ℕ → Option (Ahci D) → Option (Ahci D)
  unfolding write_register rebase_memory port_start
  rebased a fuel port_index port none = none
  rebased a fuel port_index port (some d) =
      let list = a.cmd_list + port_index * 1024 in
      let fis = a.received_fis + port_index * 256 in
      let listed =
        write_register port clbu (u32 (list / 2 ^ 32)) (write_register port clb (u32 list) d) in
      let placed =
        write_register port fbu (u32 (fis / 2 ^ 32)) (write_register port fb (u32 fis) listed) in
      port_start fuel port (record placed { memory = rebase_memory a port_index placed.memory })

  unfoldable pub port_rebase : Layout → ℕ → ℕ → Ahci D → Option (Ahci D)
  unfolding port_stop rebased
  port_rebase a fuel port_index d =
      let port = d.ahci_ports port_index in
      if port == 0 then some d else rebased a fuel port_index port (port_stop fuel port d)
