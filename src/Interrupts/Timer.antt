-- ===== src/Interrupts/Timer.antt =====
-- The frequency of the timer that src/interrupts.c programs.
use native.Mathlib.Nat.{mul-le-mul_left}
use a_lightweight_os.Base.{
  ℕ, ◌+◌, ◌*◌, ◌/◌, ◌%◌, ◌^◌, ◌≤◌, ◌<◌, ◌≡◌, refl, ap, none, some, [], ◌∷◌, ◌==◌, arith, true,
  false, Bool-cases, inl, inr, ◌⊎◌, split_by, u16,
}
use a_lightweight_os.Interrupts.{pit_initialize}

-- From 19 ticks a second to the rate of the crystal, the two bytes behind the command are the low and the high byte of the
-- divisor that is the rate divided by the frequency, rounded down, and not 0. Of a frequency of 0 the
-- division fails.
pit_initialize_divides :
    (frequency : ℕ)
    → 19 ≤ frequency
    → frequency ≤ 1193180
    → (d : ℕ) × (pit_initialize frequency
        ≡ some ((0x43, 0x36) ∷ (0x40, d % 256) ∷ (0x40, d / 256) ∷ []))
      × (1 ≤ d)
      × (d < 65536)
      × (d * frequency ≤ 1193180)
      × (1193180 < d * frequency + frequency)
      × (pit_initialize 0 ≡ none)
unfolding pit_initialize
pit_initialize_divides frequency l m =
    let q = split_by frequency 1193180 (omega arith) in
    let q0 = q.0 in
    let q1 = q.1 in
    let d = 1193180 / frequency in
    let bound = mul-le-mul_left d l in
    let small : d < 65536 = omega arith in
    let z : (frequency == 0) ≡ false = ground arith in
    let w : u16 d ≡ d = omega arith in
    let h : d / 2 ^ 8 % 256 ≡ d / 256 = omega arith in
    (d, rw (z, w, h) refl, positive (Bool-cases (d == 0)), small, omega arith, omega arith, refl)
  where
    positive :
        ((1193180 / frequency == 0) ≡ true) ⊎ ((1193180 / frequency == 0) ≡ false)
        → 1 ≤ 1193180 / frequency
    positive (inl e) =
        let q = split_by frequency 1193180 (omega arith) in
        let q0 = q.0 in
        let q1 = q.1 in
        let z : 1193180 / frequency ≡ 0 = ground arith in
        let k = ap (λ t. t * frequency) z in absurd (omega arith)
    positive (inr e) = ground arith
