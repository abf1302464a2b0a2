-- ===== src/Interrupts/Tests.antt =====
-- Runs of src/interrupts.c, and its theorems at concrete vectors.
use a_lightweight_os.Base.{
  ℕ, ◌+◌, ◌*◌, ◌≡◌, refl, some, none, List, [], ◌∷◌, arith, pos, negsuc, if◌then◌else◌,
}
use a_lightweight_os.Interrupts
use a_lightweight_os.Interrupts.Table.{idt_initialize-gates, address_of, has_stub}
use a_lightweight_os.Interrupts.Dispatch.{isr_handler-set_interrupt_handler, acknowledge_line}

-- The state that the handlers change: the bytes that went out, the last one first.
abbrev outb : ℕ → ℕ → List (ℕ × ℕ) → List (ℕ × ℕ)
outb port value x = (port, value) ∷ x

abbrev tick : List (ℕ × ℕ) → List (ℕ × ℕ)
tick x = (0, 1) ∷ x

abbrev blank : Interrupts.Interrupts (List (ℕ × ℕ))
blank = record { idt = λ _. Interrupts.gate_of 5; limit = 0; base = 0; handlers = λ _. none }

abbrev stub : ℕ → ℕ
stub v = 0xFFFFFFFF80100000 + v * 16

gates_run : address_of ((Interrupts.idt_initialize stub 0 blank).0.idt 33) ≡ 0xFFFFFFFF80100210
unfolding Interrupts.idt_initialize
gates_run = refl

second_run :
    Interrupts.isr_handler outb (Interrupts.set_interrupt_handler (pos 44) (some tick) blank) 44 []
    ≡ (0x20, 0x20) ∷ (0xA0, 0x20) ∷ (0, 1) ∷ []
unfolding Interrupts.isr_handler Interrupts.set_interrupt_handler
second_run = refl

timer_run : Interrupts.pit_initialize 100 ≡ some ((0x43, 0x36) ∷ (0x40, 0x9B) ∷ (0x40, 0x2E) ∷ [])
unfolding Interrupts.pit_initialize
timer_run = refl

-- Eighteen ticks a second need a divisor of 66287, of which 16 bits are kept.
slow_run : Interrupts.pit_initialize 18 ≡ some ((0x43, 0x36) ∷ (0x40, 0xEF) ∷ (0x40, 2) ∷ [])
unfolding Interrupts.pit_initialize
slow_run = refl

idt_initialize-gates_example :
    let r = (Interrupts.idt_initialize stub 0x9000 blank).0 in
    (address_of (r.idt 33) ≡ (if has_stub 33 then stub 33 else 0))
    × ((r.idt 33).selector ≡ 8)
    × ((r.idt 33).type_attr ≡ 0x8E)
    × (r.handlers 33 ≡ none)
    × (r.idt 256 ≡ blank.idt 256)
    × (r.handlers 256 ≡ blank.handlers 256)
    × (r.limit ≡ 4095)
    × (r.base ≡ 0x9000)
idt_initialize-gates_example =
    idt_initialize-gates stub 0x9000 blank 33 256 (omega arith) (omega arith) (omega arith)

isr_handler-set_interrupt_handler_example :
    (Interrupts.isr_handler outb (Interrupts.set_interrupt_handler (pos 44) (some tick) blank) 44 []
      ≡ acknowledge_line outb 44 (tick []))
    × (Interrupts.isr_handler outb (Interrupts.set_interrupt_handler (pos 44) none blank) 44 []
        ≡ acknowledge_line outb 44 [])
    × (Interrupts.isr_handler outb
          (Interrupts.set_interrupt_handler (pos 44) (some tick) blank)
          33
          []
        ≡ Interrupts.isr_handler outb blank 33 [])
    × (Interrupts.set_interrupt_handler (pos (256 + 4)) (some tick) blank ≡ blank)
    × (Interrupts.set_interrupt_handler (negsuc 4) (some tick) blank ≡ blank)
isr_handler-set_interrupt_handler_example =
    isr_handler-set_interrupt_handler outb blank tick 44 33 4 [] (omega arith) (omega arith)
      (omega arith)
