-- ===== src/Interrupts/Dispatch.antt =====
-- What an interrupt does, by the handlers that are set in src/interrupts.c.
use a_lightweight_os.Base.{
  ℕ, ◌+◌, ◌%◌, ◌^◌, ◌<◌, ◌≢◌, ◌≡◌, refl, sym, ◌∙◌, true, false, Option, none, some, leb, ltb, ◌==◌,
  if◌then◌else◌, arith, update, pos, negsuc,
}
use a_lightweight_os.Interrupts.{Interrupts, set_interrupt_handler, pic_send_eoi, isr_handler, call}

-- The end of interrupt for a vector, which only the sixteen lines of the controllers have (the vectors 32
-- to 47): one byte to the first controller for its eight lines, one to the second and then one to the
-- first for the others. For an exception and for a vector from 48 on nothing is sent.
abbrev pub acknowledge_line : {S : Type 0} → (ℕ → ℕ → S → S) → ℕ → S → S
acknowledge_line outb v x =
    if ltb v 32
    then x
    else if ltb v 40
    then outb 0x20 0x20 x
    else if ltb v 48
    then outb 0x20 0x20 (outb 0xA0 0x20 x)
    else x

isr_handler_lem :
    {S : Type 0} (outb : ℕ → ℕ → S → S) (s : Interrupts S) (v : ℕ) (x : S)
    → v < 256
    → isr_handler outb s v x ≡ acknowledge_line outb v (call (s.handlers v) x)
unfolding isr_handler pic_send_eoi
isr_handler_lem outb s v x l = let z : v % 2 ^ 32 ≡ v = omega arith in rw z (ground arith)

-- After a handler is set for a vector of the table, an interrupt with this vector runs the handler, and
-- then, if the vector is a line of the controllers (32 to 47), the end of interrupt is sent, to the
-- second controller too for its lines (from 40 on); for the other vectors nothing is sent. With the
-- handler taken away the end of interrupt of a line is sent all the same. Every other vector does what
-- it did. A number outside the table sets nothing.
pub isr_handler-set_interrupt_handler :
    {S : Type 0} (outb : ℕ → ℕ → S → S) (s : Interrupts S) (handler : S → S) (irq v k : ℕ) (x : S)
    → irq < 256
    → v < 256
    → v ≢ irq
    → (isr_handler outb (set_interrupt_handler (pos irq) (some handler) s) irq x
        ≡ acknowledge_line outb irq (handler x))
      × (isr_handler outb (set_interrupt_handler (pos irq) none s) irq x
          ≡ acknowledge_line outb irq x)
      × (isr_handler outb (set_interrupt_handler (pos irq) (some handler) s) v x
          ≡ isr_handler outb s v x)
      × (set_interrupt_handler (pos (256 + k)) (some handler) s ≡ s)
      × (set_interrupt_handler (negsuc k) (some handler) s ≡ s)
unfolding set_interrupt_handler call
isr_handler-set_interrupt_handler outb s handler irq v k x l m d =
    let t : leb 256 irq ≡ false = ground arith in
    let u : leb 256 (256 + k) ≡ true = ground arith in
    let z : (irq == irq) ≡ true = ground arith in
    let w : (irq == v) ≡ false = ground arith in
    let r : Option (_ → _) → Interrupts _ = λ h. record s { handlers = update s.handlers irq h } in
    (
      rw t (isr_handler_lem outb (r (some handler)) irq x l ∙ rw z refl),
      rw t (isr_handler_lem outb (r none) irq x l ∙ rw z refl),
      rw t (
          isr_handler_lem outb (r (some handler)) v x m
          ∙ rw w refl
          ∙ sym (isr_handler_lem outb s v x m)),
      rw u refl,
      refl,
    )
