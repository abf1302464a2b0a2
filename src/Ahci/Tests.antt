-- ===== src/Ahci/Tests.antt =====
-- Runs of src/ahci.c, and its theorems at small adapters.
use a_lightweight_os.Base.{
  ℕ, ◌+◌, ◌-◌, ◌*◌, ◌^◌, ◌≡◌, refl, Bool, true, false, not, Option, none, some, ◌==◌, if◌then◌else◌,
  arith, find_first, test_bit, ℤ, pos, negsuc,
}
use a_lightweight_os.Ahci
use a_lightweight_os.Ahci.{Hba, Layout, Register}
use a_lightweight_os.Ahci.Command
use a_lightweight_os.Ahci.Encoding.{command_memory-decodes}
use a_lightweight_os.Ahci.Encoding.Bytes.{get_le}

-- An adapter whose registers always read the same; its state counts the writes.
abbrev adapter : (Register → ℕ) → Hba
adapter values = record {
  State = ℕ;
  read = λ port r s. (values r, s);
  write = λ port r value s. s + 1;
  pi = λ s. (1, s);
}

-- A disk that ends every command at once.
abbrev idle : Register → ℕ
idle Ahci.ssts = 0x113
idle Ahci.sig = 0x101
idle _ = 0

-- A port with every slot in use that reports an error.
abbrev full : Register → ℕ
full Ahci.sact = 0xFFFFFFFF
full Ahci.ci = 0xFFFFFFFF
full Ahci.tfd = 0x51
full _ = 0

abbrev layout : Layout
layout = record {
  cmd_list = 0x10000;
  received_fis = 0x20000;
  cmd_tables = 0x100000;
  list_zeros = 0x8000;
  fis_zeros = 0x8100;
  table_zeros = 0x8200;
  command_zeros = 0x8300;
}

abbrev driver : (values : Register → ℕ) → ℕ → ℕ → Ahci.Ahci (adapter values)
driver values hba port = record {
  ahci_hba = hba;
  ahci_ports = λ i. if i == 0 then port else 0;
  memory = λ _. 0x20;
  adapter = 0;
}

abbrev result_of : {values : Register → ℕ} → Option (ℤ × Ahci.Ahci (adapter values)) → ℤ
result_of none = negsuc 98
result_of (some r) = r.0

abbrev port_of : {values : Register → ℕ} → Option ((ℕ → ℕ) × Ahci.Ahci (adapter values)) → ℕ → ℕ
port_of none i = 99
port_of (some r) i = r.1.ahci_ports i

read_run : result_of (Command.read_sector layout 1 5 0x7000 (driver idle 0x9000 0x9100)) ≡ pos 0
unfolding Command.read_sector test_bit
read_run = refl

write_run : result_of (Command.write_sector layout 1 5 0x7000 (driver idle 0x9000 0x9100)) ≡ pos 0
unfolding Command.write_sector test_bit
write_run = refl

-- The controller alone, in the first slot, with its registers at 0x9000.
abbrev machine : ℕ → ℕ
machine a =
    if a == 2 ^ 31
    then 0x29228086
    else if a == 2 ^ 31 + 8
    then 0x01060100
    else if a == 2 ^ 31 + 0x24
    then 0x9000
    else if a == 2 ^ 31 + 0x28
    then 0
    else 0xFFFFFFFF

initialize_run : port_of (Command.initialize layout 1 machine (driver idle 0 0)) 0 ≡ 0x9100
unfolding Command.initialize test_bit
initialize_run = refl

command_memory-decodes_example :
    let r =
      Command.command_memory layout 0x9100 0x9100 0x10000 3 0x7000 1 true 0x123456789A
        (λ _. 0x20) in
    let table = Command.table_address layout 0x9100 0x9100 3 in
    (r table ≡ 0x27)
    × (r (table + 1) ≡ 0x80)
    × (r (table + 2) ≡ (if true then 0x35 else 0x25))
    × (get_le 3 (table + 4) r + get_le 3 (table + 8) r * 2 ^ 24 ≡ 0x123456789A)
    × (get_le 2 (table + 12) r ≡ 1)
    × (get_le 4 (table + 128) r + get_le 4 (table + 132) r * 2 ^ 32 ≡ 0x7000)
    × (get_le 4 (table + 140) r ≡ 2 ^ 31 + 1 * 512 - 1)
command_memory-decodes_example =
    command_memory-decodes layout 0x9100 0x9100 0x10000 3 0x7000 1 true 0x123456789A (λ _. 0x20)
      (omega arith) (omega arith) (omega arith) (omega arith)

first_port : find_first (λ k. not ((driver full 0x9000 0x9100).ahci_ports k == 0)) 32 0 ≡ some 0
unfolding find_first
first_port = refl

no_slot : (Ahci.port_find_free_slot 0x9100 (driver full 0x9000 0x9100)).0 ≡ none
unfolding Ahci.port_find_free_slot test_bit
no_slot = refl

if_zero : (b : Bool) → (let x : ℕ = if b then 0 else 0 in x) ≡ 0
if_zero true = refl
if_zero false = refl

set_slot : test_bit 0xFFFFFFFF 3 ≡ true
unfolding test_bit
set_slot = refl

no_bit : test_bit 0x51 30 ≡ false
unfolding test_bit
no_bit = refl

clear_slot : test_bit 0 3 ≡ false
unfolding test_bit
clear_slot = refl
