-- ===== src/Audio.antt =====
-- src/audio.c: the detection of the sound controller and the tones of the speaker. The ports and the
-- control register of the controller are a parameter, which may change with every access. The delay of a
-- tone changes no state and is not modelled, nor are the log messages. The PCI scans are in Pci.antt.
mod Speaker
mod Tests
use a_lightweight_os.Base.{
  ℕ, zero, suc, ◌+◌, ◌*◌, ◌/◌, ◌%◌, ◌^◌, Bool, true, false, not, ◌&&◌, ◌||◌, Option, none, some,
  ◌==◌, if◌then◌else◌, set_bit, u16,
}
use a_lightweight_os.Pci.{PciDevice, pci_find_class, pci_read_config_dword, pci_write_config_dword}

-- `gctl` and `set_gctl` are the control register at 8 behind an address.
pub record Sound : Type 1 where
  pub State : Type 0
  pub inb : ℕ → State → ℕ × State
  pub outb : ℕ → ℕ → State → State
  pub gctl : ℕ → State → ℕ × State
  pub set_gctl : ℕ → ℕ → State → State

-- The variables of the driver, with 0 for a NULL address, the configuration space and the ports.
pub record Audio (D : Sound) : Type 0 where
  pub audio_initialized : Bool
  pub hda_controller_present : Bool
  pub hda_mmio : ℕ
  pub hda_bar0 : ℕ
  pub audio_volume : ℕ
  pub config : ℕ → ℕ
  pub ports : D.State

-- The loop of hda_reset, with `n` looks left.
pub wait_reset : (D : Sound) → ℕ → ℕ → D.State → Bool × D.State
wait_reset D zero mmio s = (false, s)
wait_reset D (suc n) mmio s =
    let r = D.gctl mmio s in
    let rest = wait_reset D n mmio r.1 in if r.0 % 2 == 0 then (true, r.1) else rest

module _ {D : Sound} where
  pub pit_disable : Audio D → Audio D
  pit_disable d = let r = D.inb 0x61 d.ports in record d { ports = D.outb 0x61 (r.0 / 4 * 4) r.1 }

  pub pit_set_frequency : ℕ → Audio D → Audio D
  unfolding pit_disable
  pit_set_frequency frequency d =
      let divisor = u16 (1193180 / frequency) in
      let command = D.outb 0x43 0xB6 d.ports in
      let sent = D.outb 0x42 (divisor / 2 ^ 8 % 256) (D.outb 0x42 (divisor % 256) command) in
      let r = D.inb 0x61 sent in
      if frequency == 0
      then pit_disable d
      else record d { ports = D.outb 0x61 (r.0 / 4 * 4 + 3) r.1 }

  pub hda_reset : Audio D → Bool × Audio D
  unfolding wait_reset set_bit
  hda_reset d =
      let r = D.gctl d.hda_mmio d.ports in
      let w = wait_reset D 100000 d.hda_mmio (D.set_gctl d.hda_mmio (set_bit r.0 0) r.1) in
      if d.hda_mmio == 0 then (false, d) else (w.0, record d { ports = w.1 })

  -- hda_enable_bus_master, which always returns true.
  pub enable_bus_master : ℕ → ℕ → ℕ → Audio D → Audio D
  unfolding pci_read_config_dword pci_write_config_dword set_bit
  enable_bus_master bus device function d =
      let command = pci_read_config_dword d.config bus device function 4 in
      record d {
        config =
            pci_write_config_dword d.config bus device function 4 (set_bit (set_bit command 1) 2);
      }

  pub take_controller : Option PciDevice → Audio D → Bool × Audio D
  unfolding enable_bus_master
  take_controller none d = (false, d)
  take_controller (some c) d =
      let found : Audio D = record d { hda_bar0 = c.bar0; hda_mmio = c.bar0 } in
      if c.bar0 == 0 then (false, d) else (true, enable_bus_master c.bus c.device c.function found)

  pub hda_find_controller : Audio D → Bool × Audio D
  unfolding pci_find_class take_controller
  hda_find_controller d = take_controller (pci_find_class d.config 4 3 0) d

  -- What audio_initialize does with the result of the reset.
  pub after_reset : Bool × Audio D → Audio D
  after_reset (true, d) = record d { hda_controller_present = true }
  after_reset (false, d) = record d { hda_mmio = 0; hda_bar0 = 0 }

  pub after_find : Bool × Audio D → Audio D
  unfolding hda_reset after_reset
  after_find (true, d) = after_reset (hda_reset d)
  after_find (false, d) = d

  pub audio_initialize : Audio D → Audio D
  unfolding hda_find_controller after_find
  audio_initialize d =
      let cleared : Audio D = record d {
        audio_volume = 128;
        audio_initialized = false;
        hda_controller_present = false;
        hda_mmio = 0;
        hda_bar0 = 0;
      } in
      record (after_find (hda_find_controller cleared)) { audio_initialized = true }

  pub audio_is_ready : Audio D → Bool
  audio_is_ready d = d.audio_initialized && (d.hda_controller_present || true)

  -- A volume of eight bits is never above 255.
  pub audio_set_volume : ℕ → Audio D → Audio D
  audio_set_volume volume d = record d { audio_volume = volume }

  pub audio_play_tone : ℕ → ℕ → Audio D → Audio D
  unfolding pit_disable pit_set_frequency
  audio_play_tone frequency duration_ms d =
      if not d.audio_initialized || (frequency == 0) || (duration_ms == 0)
      then pit_disable d
      else pit_disable (pit_set_frequency frequency d)

  pub audio_stop_tone : Audio D → Audio D
  unfolding pit_disable
  audio_stop_tone d = pit_disable d

  pub audio_play_pcm : ℕ → ℕ → ℕ → Audio D → Bool
  audio_play_pcm samples sample_count sample_rate d =
      if not d.audio_initialized
      then false
      else if not d.hda_controller_present
      then false
      else false
