-- ===== src/Interrupts.antt =====
-- src/interrupts.c: the interrupt descriptor table, the dispatch of an interrupt to its handler, and the
-- programming of the interrupt controllers and of the timer as the bytes that go out to the ports. The
-- stubs of src/isr_stubs.asm are a parameter, their addresses. The two instructions that turn interrupts
-- on and off and the message about an interrupt without a handler are not modelled.
mod Table
mod Dispatch
mod Timer
mod Tests
use a_lightweight_os.Base.{
  ℕ, zero, suc, ◌+◌, ◌-◌, ◌*◌, ◌/◌, ◌%◌, ◌^◌, Bool, ◌&&◌, Option, none, some, List, [], ◌∷◌, leb,
  ltb, ◌==◌, if◌then◌else◌, update, u8, u16, u32, ℤ, pos, negsuc,
}

-- idt_entry_t, with `reserved` for its field `zero`.
pub record Gate : Type 0 where
  pub offset_low : ℕ
  pub selector : ℕ
  pub ist : ℕ
  pub type_attr : ℕ
  pub offset_mid : ℕ
  pub offset_high : ℕ
  pub reserved : ℕ

-- A handler changes a state that is not that of this file.
pub record Interrupts (S : Type 0) : Type 0 where
  pub idt : ℕ → Gate
  pub limit : ℕ
  pub base : ℕ
  pub handlers : ℕ → Option (S → S)

abbrev pub gate_of : ℕ → Gate
gate_of handler = record {
  offset_low = u16 handler;
  selector = 0x08;
  ist = 0;
  type_attr = 0x8E;
  offset_mid = handler / 2 ^ 16 % 65536;
  offset_high = handler / 2 ^ 32 % 2 ^ 32;
  reserved = 0;
}

pub set_idt_gate : ℕ → ℕ → (ℕ → Gate) → ℕ → Gate
set_idt_gate vector handler idt = update idt vector (gate_of handler)

-- The bytes that go out, as pairs of a port and a value.
pub pic_remap : List (ℕ × ℕ)
pic_remap =
    (0x20, 0x11)
    ∷ (0xA0, 0x11)
    ∷ (0x21, 0x20)
    ∷ (0xA1, 0x28)
    ∷ (0x21, 0x04)
    ∷ (0xA1, 0x02)
    ∷ (0x21, 0x01)
    ∷ (0xA1, 0x01)
    ∷ (0x21, 0x00)
    ∷ (0xA1, 0x00)
    ∷ []

-- The low byte first, after the command; `none` for a division by zero.
pub pit_initialize : ℕ → Option (List (ℕ × ℕ))
pit_initialize frequency =
    let divisor = u16 (1193180 / frequency) in
    if frequency == 0
    then none
    else some ((0x43, 0x36) ∷ (0x40, u8 divisor) ∷ (0x40, divisor / 2 ^ 8 % 256) ∷ [])

-- The gates of `n` vectors from `first` on, with the addresses of their stubs.
pub set_gates : (ℕ → ℕ) → ℕ → ℕ → (ℕ → Gate) → ℕ → Gate
unfolding set_idt_gate
set_gates stub first zero idt = idt
set_gates stub first (suc n) idt =
    set_idt_gate (first + n) (stub (first + n)) (set_gates stub first n idt)

module _ {S : Type 0} where
  -- The loop at the start of idt_initialize.
  pub clear_gates : ℕ → Interrupts S → Interrupts S
  unfolding set_idt_gate
  clear_gates zero s = s
  clear_gates (suc n) s =
      let r = clear_gates n s in
      record r { idt = set_idt_gate n 0 r.idt; handlers = update r.handlers n none }

  -- `address` is that of the table. The new tables and the bytes that go out.
  pub idt_initialize : (ℕ → ℕ) → ℕ → Interrupts S → Interrupts S × List (ℕ × ℕ)
  unfolding clear_gates set_gates pic_remap
  idt_initialize stub address s =
      let cleared = clear_gates 256 s in
      (
        record cleared {
          idt = set_gates stub 32 16 (set_gates stub 0 21 cleared.idt);
          limit = 16 * 256 - 1;
          base = address;
        },
        pic_remap,
      )

  -- A NULL handler is `none`.
  pub set_interrupt_handler : ℤ → Option (S → S) → Interrupts S → Interrupts S
  set_interrupt_handler (negsuc irq) handler s = s
  set_interrupt_handler (pos irq) handler s =
      if leb 256 irq then s else record s { handlers = update s.handlers irq handler }

  call : Option (S → S) → S → S
  call none x = x
  call (some handler) x = handler x

  module _ (outb : ℕ → ℕ → S → S) where
    pub pic_send_eoi : ℕ → S → S
    pic_send_eoi irq x = outb 0x20 0x20 (if leb 8 irq then outb 0xA0 0x20 x else x)

    -- A vector from 256 on is read behind the array: the handler is then what stands there.
    pub isr_handler : Interrupts S → ℕ → S → S
    unfolding call pic_send_eoi
    isr_handler s interrupt_number x =
        let irq = u32 interrupt_number in
        if leb 32 irq && ltb irq 48
        then pic_send_eoi (irq - 32) (call (s.handlers irq) x)
        else call (s.handlers irq) x
