-- ===== src/Audio/Speaker.antt =====
-- The speaker and the controller of src/audio.c.
use a_lightweight_os.Base.{
  ℕ, ◌*◌, ◌/◌, ◌%◌, ◌≡◌, ◌≢◌, refl, sym, ◌∙◌, Bool, true, false, not, ◌||◌, inl, inr, ◌==◌, arith,
  Bool-cases, if_cases, Option, none, some,
}
use a_lightweight_os.Pci.{PciDevice, pci_find_class}
use a_lightweight_os.Audio.{
  Sound, Audio, pit_disable, pit_set_frequency, hda_reset, enable_bus_master, take_controller,
  hda_find_controller, after_reset, after_find, audio_initialize, audio_is_ready, audio_play_tone,
  audio_stop_tone,
}

-- The value that the speaker's port reads.
abbrev pub gate : {D : Sound} → Audio D → ℕ
gate {D} d = (D.inb 0x61 d.ports).0

-- On a machine whose speaker port gives back the lowest two bits that were last written to it, whatever its other bits
-- read, both bits of the speaker are off after a tone, whatever its frequency and its duration and
-- also without an initialisation, and after a stop.
pub play_tone-silent :
    {D : Sound} (frequency duration_ms : ℕ) (d : Audio D)
    → ((v : ℕ) (s : D.State) → (D.inb 0x61 (D.outb 0x61 v s)).0 % 4 ≡ v % 4)
    → (gate (audio_play_tone frequency duration_ms d) % 4 ≡ 0) × (gate (audio_stop_tone d) % 4 ≡ 0)
unfolding audio_play_tone audio_stop_tone pit_disable
play_tone-silent {D} frequency duration_ms d h =
    let r = D.inb 0x61 d.ports in
    let e = h (r.0 / 4 * 4) r.1 in
    (
      if_cases (λ x. gate x % 4 ≡ 0)
          (not d.audio_initialized || (frequency == 0) || (duration_ms == 0)) (pit_disable d)
          (pit_disable (pit_set_frequency frequency d)) (λ _. omega arith)
          (λ _.
            let t = D.inb 0x61 (pit_set_frequency frequency d).ports in
            let f = h (t.0 / 4 * 4) t.1 in omega arith),
      omega arith,
    )

or_true : (b : Bool) → (b || true) ≡ true
or_true true = refl
or_true false = refl

-- What the initialisation says of the controller: both addresses are the same, and not 0 exactly if it is present.
abbrev Settled : {D : Sound} → Audio D → Type 0
Settled d =
    (d.audio_volume ≡ 128)
    × (d.hda_mmio ≡ d.hda_bar0)
    × (d.hda_controller_present ≡ not (d.hda_mmio == 0))

module _ {D : Sound} where
  abbrev Found : Audio D → Type 0
  Found d =
      (d.audio_volume ≡ 128)
      × (d.hda_mmio ≡ d.hda_bar0)
      × (d.hda_controller_present ≡ false)
      × (d.hda_mmio ≢ 0)

  hda_reset-Found : (d : Audio D) → Found d → Found (hda_reset d).1
  unfolding hda_reset
  hda_reset-Found d f =
      if_cases (λ (x : Bool × Audio D). Found x.1) (d.hda_mmio == 0) _ _ (λ _. f) (λ _. f)

  after_reset-Settled : (x : Bool × Audio D) → Found x.1 → Settled (after_reset x)
  unfolding after_reset
  after_reset-Settled (true, d) f =
      let n = f.3 in let e : (d.hda_mmio == 0) ≡ false = ground arith in (f.0, f.1, rw e refl)
  after_reset-Settled (false, d) f = (f.0, refl, f.2)

  take_controller-Settled :
      (o : Option PciDevice) (d : Audio D)
      → d.audio_volume ≡ 128
      → d.hda_mmio ≡ 0
      → d.hda_bar0 ≡ 0
      → d.hda_controller_present ≡ false
      → Settled (after_find (take_controller o d))
  unfolding after_find take_controller enable_bus_master
  take_controller-Settled none d v m b p = (v, m ∙ sym b, rw m p)
  take_controller-Settled (some c) d v m b p = elim (Bool-cases (c.bar0 == 0)) [
    | inl e ↦ rw e (v, m ∙ sym b, rw m p)
    | inr e ↦
        let found : Audio D = record d { hda_bar0 = c.bar0; hda_mmio = c.bar0 } in
        let x = enable_bus_master c.bus c.device c.function found in
        let n : c.bar0 ≢ 0 = ground arith in
        rw e (after_reset-Settled (hda_reset x) (hda_reset-Found x (v, refl, p, n)))
  ]

  -- Whatever the variables held and whatever the machine has, the initialisation ends with the volume at 128 and ready, the
  -- two addresses of the controller are the same, and they are not 0 exactly if the controller is
  -- there and its reset ended.
  audio_initialize-Settled :
      (d : Audio D)
      → let r = audio_initialize d in
        (r.audio_initialized ≡ true)
        × (audio_is_ready r ≡ true)
        × (r.audio_volume ≡ 128)
        × (r.hda_mmio ≡ r.hda_bar0)
        × (r.hda_controller_present ≡ not (r.hda_mmio == 0))
  unfolding audio_initialize hda_find_controller audio_is_ready
  audio_initialize-Settled d =
      let cleared : Audio D = record d {
        audio_volume = 128;
        audio_initialized = false;
        hda_controller_present = false;
        hda_mmio = 0;
        hda_bar0 = 0;
      } in
      let s =
        take_controller-Settled (pci_find_class cleared.config 4 3 0) cleared refl refl refl refl in
      (refl, or_true _, s.0, s.1, s.2)
