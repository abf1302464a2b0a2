-- ===== src/Serial/Line.antt =====
-- The waits of src/serial.c end as soon as the port is ready.
use a_lightweight_os.Base.{ℕ, zero, suc, ◌/◌, ◌%◌, ◌<◌, ◌≡◌, refl, some, arith}
use a_lightweight_os.Serial.{
  Uart, is_transmit_empty, serial_putchar, is_receive_full, serial_getchar,
}

module _ (D : Uart) where
  -- The state after the status is read a number of times.
  abbrev pub looks : ℕ → D.State → D.State
  looks zero s = s
  looks (suc n) s = looks n (D.inb 0x3FD s).1

  -- The status that is read after that.
  abbrev pub status : ℕ → D.State → ℕ
  status n s = (D.inb 0x3FD (looks n s)).0

  putchar_waits :
      (n fuel c : ℕ) (s : D.State)
      → ((k : ℕ) → k < n → status k s / 0x20 % 2 ≡ 0)
      → status n s / 0x20 % 2 ≡ 1
      → n < fuel
      → serial_putchar D fuel c s ≡ some (D.outb 0x3F8 (c % 256) (looks (suc n) s))
  unfolding serial_putchar is_transmit_empty
  putchar_waits n zero c s h e l = absurd (omega arith)
  putchar_waits zero (suc fuel) c s h e l = rw e refl
  putchar_waits (suc n) (suc fuel) c s h e l =
      let z = h 0 (omega arith) in
      rw z
        (putchar_waits n fuel c (D.inb 0x3FD s).1 (λ k u. h (suc k) (omega arith)) e (omega arith))

  getchar_waits :
      (n fuel : ℕ) (s : D.State)
      → ((k : ℕ) → k < n → status k s % 2 ≡ 0)
      → status n s % 2 ≡ 1
      → n < fuel
      → serial_getchar D fuel s ≡ some (D.inb 0x3F8 (looks (suc n) s))
  unfolding serial_getchar is_receive_full
  getchar_waits n zero s h e l = absurd (omega arith)
  getchar_waits zero (suc fuel) s h e l = rw e refl
  getchar_waits (suc n) (suc fuel) s h e l =
      let z = h 0 (omega arith) in
      rw z (getchar_waits n fuel (D.inb 0x3FD s).1 (λ k u. h (suc k) (omega arith)) e (omega arith))

-- A character is sent, or received, after exactly as many looks at the status as the port needs to become ready
-- for it, with any greater fuel, and with nothing sent before: a port whose status says so only after a
-- number of looks delays it by these.
serial-waits :
    (D : Uart) (n m fuel c : ℕ) (s t : D.State)
    → ((k : ℕ) → k < n → status D k s / 0x20 % 2 ≡ 0)
    → status D n s / 0x20 % 2 ≡ 1
    → ((k : ℕ) → k < m → status D k t % 2 ≡ 0)
    → status D m t % 2 ≡ 1
    → n < fuel
    → m < fuel
    → (serial_putchar D fuel c s ≡ some (D.outb 0x3F8 (c % 256) (looks D (suc n) s)))
      × (serial_getchar D fuel t ≡ some (D.inb 0x3F8 (looks D (suc m) t)))
serial-waits D n m fuel c s t h e i f l u =
    (putchar_waits D n fuel c s h e l, getchar_waits D m fuel t i f u)
