-- ===== src/Serial/Tests.antt =====
-- Runs of src/serial.c at a port that becomes ready after some looks.
use a_lightweight_os.Base.{
  ℕ, zero, suc, ◌+◌, ◌/◌, ◌%◌, ◌<◌, ◌≡◌, refl, ltb, ◌==◌, if◌then◌else◌, arith, some, List, [], ◌∷◌,
}
use a_lightweight_os.Serial
use a_lightweight_os.Serial.Line.{status}

-- A port that counts the looks at its status and is ready for both directions from the third one on; it keeps what
-- was sent, the last one first.
abbrev port : Serial.Uart
port = record {
  State = ℕ × List (ℕ × ℕ);
  inb = λ a s. (if a == 0x3FD then if ltb s.0 2 then 0 else 0x21 else 65, (s.0 + 1, s.1));
  outb = λ a value s. (s.0, (a, value) ∷ s.1);
}

initialize_run : (Serial.serial_initialize port (0, [])).0 ≡ 0
unfolding Serial.serial_initialize
initialize_run = refl

put_run : Serial.serial_putchar port 9 66 (0, []) ≡ some (3, (0x3F8, 66) ∷ [])
unfolding Serial.serial_putchar
put_run = refl

get_run : Serial.serial_getchar port 9 (0, []) ≡ some (65, (4, []))
unfolding Serial.serial_getchar
get_run = refl

early : (k : ℕ) → k < 2 → (status port k (0, []) / 0x20 % 2 ≡ 0) × (status port k (0, []) % 2 ≡ 0)
early zero l = (refl, refl)
early (suc zero) l = (refl, refl)
early (suc (suc k)) l = absurd (omega arith)
