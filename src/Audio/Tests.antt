-- ===== src/Audio/Tests.antt =====
-- Runs of src/audio.c, and its theorems at small machines.
use a_lightweight_os.Base.{
  ℕ, ◌+◌, ◌%◌, ◌^◌, ◌≡◌, refl, true, false, List, [], ◌∷◌, ◌==◌, if◌then◌else◌, update,
}
use a_lightweight_os.Audio
use a_lightweight_os.Audio.Speaker.{play_tone-silent, gate}

-- A machine that keeps what its ports were sent, and the bytes in the order in which they went out, the last one
-- first. Its controller ends a reset at once.
abbrev machine : Audio.Sound
machine = record {
  State = (ℕ → ℕ) × List (ℕ × ℕ);
  inb = λ port s. (s.0 port, s);
  outb = λ port value s. (update s.0 port value, (port, value) ∷ s.1);
  gctl = λ a s. (0, s);
  set_gctl = λ a value s. s;
}

-- A controller of class 4, subclass 3, in the first slot.
abbrev config : ℕ → ℕ
config a =
    if a == 2 ^ 31
    then 0x26688086
    else if a == 2 ^ 31 + 8
    then 0x04030000
    else if a == 2 ^ 31 + 0x10
    then 0xFEBF0000
    else 0xFFFFFFFF

abbrev driver : (ℕ → ℕ) → Audio.Audio machine
driver config = record {
  audio_initialized = true;
  hda_controller_present = true;
  hda_mmio = 5;
  hda_bar0 = 6;
  audio_volume = 7;
  config = config;
  ports = (λ _. 0xFF, []);
}

found_run : (Audio.audio_initialize (driver config)).hda_mmio ≡ 0xFEBF0000
unfolding Audio.audio_initialize Audio.wait_reset
found_run = refl

absent_run : (Audio.audio_initialize (driver (λ _. 0xFFFFFFFF))).hda_controller_present ≡ false
unfolding Audio.audio_initialize
absent_run = refl

tone_run :
    (Audio.audio_play_tone 440 40 (driver config)).ports.1
    ≡ (0x61, 0xFC) ∷ (0x61, 0xFF) ∷ (0x42, 10) ∷ (0x42, 0x97) ∷ (0x43, 0xB6) ∷ []
unfolding Audio.audio_play_tone
tone_run = refl

volume_run : (Audio.audio_set_volume 255 (driver config)).audio_volume ≡ 255
unfolding Audio.audio_set_volume
volume_run = refl

pcm_run : Audio.audio_play_pcm 0x1000 10 44100 (driver config) ≡ false
unfolding Audio.audio_play_pcm
pcm_run = refl

play_tone-silent_example :
    (gate (Audio.audio_play_tone 440 40 (driver config)) % 4 ≡ 0)
    × (gate (Audio.audio_stop_tone (driver config)) % 4 ≡ 0)
play_tone-silent_example = play_tone-silent 440 40 (driver config) (λ v s. refl)
