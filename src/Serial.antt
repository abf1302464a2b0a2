-- ===== src/Serial.antt =====
-- src/serial.c: the first serial port. Its registers are a parameter, which may change with every access;
-- the loops that wait for it have fuel, and `none` means that the fuel ran out.
mod Line
mod Tests
use a_lightweight_os.Base.{
  ℕ, zero, suc, ◌+◌, ◌/◌, ◌%◌, Option, none, some, List, [], ◌∷◌, ◌==◌, not, Bool, if◌then◌else◌,
}

pub record Uart : Type 1 where
  pub State : Type 0
  pub inb : ℕ → State → ℕ × State
  pub outb : ℕ → ℕ → State → State

module _ (D : Uart) where
  -- Bytes to registers, the first one first.
  pub out_all : List (ℕ × ℕ) → D.State → D.State
  out_all [] s = s
  out_all (x ∷ xs) s = out_all xs (D.outb x.0 x.1 s)

  pub serial_initialize : D.State → D.State
  unfolding out_all
  serial_initialize s =
      out_all
        ((0x3F9, 0)
          ∷ (0x3FB, 0x80)
          ∷ (0x3F8, 1)
          ∷ (0x3F9, 0)
          ∷ (0x3FB, 3)
          ∷ (0x3FA, 0xC7)
          ∷ (0x3FC, 0x0B)
          ∷ [])
        s

  pub is_transmit_empty : D.State → Bool × D.State
  is_transmit_empty s = let r = D.inb 0x3FD s in (not (r.0 / 0x20 % 2 == 0), r.1)

  pub serial_putchar : ℕ → ℕ → D.State → Option D.State
  unfolding is_transmit_empty
  serial_putchar zero c s = none
  serial_putchar (suc fuel) c s =
      let r = is_transmit_empty s in
      let rest = serial_putchar fuel c r.1 in
      if r.0 then some (D.outb 0x3F8 (c % 256) r.1) else rest

  pub is_receive_full : D.State → Bool × D.State
  is_receive_full s = let r = D.inb 0x3FD s in (not (r.0 % 2 == 0), r.1)

  pub serial_getchar : ℕ → D.State → Option (ℕ × D.State)
  unfolding is_receive_full
  serial_getchar zero s = none
  serial_getchar (suc fuel) s =
      let r = is_receive_full s in
      let rest = serial_getchar fuel r.1 in if r.0 then some (D.inb 0x3F8 r.1) else rest
