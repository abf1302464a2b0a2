-- ===== src/Interrupts/Table.antt =====
-- The interrupt descriptor table of src/interrupts.c after its initialisation.
use a_lightweight_os.Base.{
  ℕ, zero, suc, ◌+◌, ◌*◌, ◌^◌, ◌≤◌, ◌<◌, ◌≡◌, refl, ap, ◌∙◌, Bool, true, false, ◌&&◌, ◌||◌, none,
  leb, ltb, ◌==◌, if◌then◌else◌, arith, Bool-cases, inl, inr,
}
use a_lightweight_os.Interrupts.{
  Gate, Interrupts, gate_of, set_idt_gate, set_gates, clear_gates, idt_initialize,
}

-- The address that the processor takes from a gate.
abbrev pub address_of : Gate → ℕ
address_of g = g.offset_low + g.offset_mid * 2 ^ 16 + g.offset_high * 2 ^ 32

-- The vectors with a stub: the exceptions 0 to 20 and the sixteen lines of the controllers.
abbrev pub has_stub : ℕ → Bool
has_stub v = leb v 20 || (leb 32 v && ltb v 48)

address_of-gate_of : (a : ℕ) → a < 2 ^ 64 → address_of (gate_of a) ≡ a
address_of-gate_of a l = omega arith

set_gates_lem :
    (stub : ℕ → ℕ) (first n : ℕ) (idt : ℕ → Gate) (v : ℕ)
    → set_gates stub first n idt v
      ≡ (if leb first v && ltb v (first + n) then gate_of (stub v) else idt v)
unfolding set_gates set_idt_gate
set_gates_lem stub first zero idt v =
    let e : (leb first v && ltb v (first + zero)) ≡ false = ground arith in rw e refl
set_gates_lem stub first (suc n) idt v = elim (Bool-cases (first + n == v)) [
  | inl e ↦
      let z : first + n ≡ v = ground arith in
      let t : (leb first v && ltb v (first + suc n)) ≡ true = ground arith in
      rw (e, t) (ap (λ k. gate_of (stub k)) z)
  | inr e ↦
      let t : (leb first v && ltb v (first + suc n)) ≡ (leb first v && ltb v (first + n)) =
        ground arith in
      rw (e, t) (set_gates_lem stub first n idt v)
]

module _ {S : Type 0} where
  clear_gates-idt :
      (n : ℕ) (s : Interrupts S) (v : ℕ)
      → (clear_gates n s).idt v ≡ (if ltb v n then gate_of 0 else s.idt v)
  unfolding clear_gates set_idt_gate
  clear_gates-idt zero s v = let e : ltb v 0 ≡ false = ground arith in rw e refl
  clear_gates-idt (suc n) s v = elim (Bool-cases (n == v)) [
    | inl e ↦ let t : ltb v (suc n) ≡ true = ground arith in rw (e, t) refl
    | inr e ↦ let t : ltb v (suc n) ≡ ltb v n = ground arith in rw (e, t) (clear_gates-idt n s v)
  ]

  clear_gates-handlers :
      (n : ℕ) (s : Interrupts S) (v : ℕ)
      → (clear_gates n s).handlers v ≡ (if ltb v n then none else s.handlers v)
  unfolding clear_gates
  clear_gates-handlers zero s v = let e : ltb v 0 ≡ false = ground arith in rw e refl
  clear_gates-handlers (suc n) s v = elim (Bool-cases (n == v)) [
    | inl e ↦ let t : ltb v (suc n) ≡ true = ground arith in rw (e, t) refl
    | inr e ↦
        let t : ltb v (suc n) ≡ ltb v n = ground arith in rw (e, t) (clear_gates-handlers n s v)
  ]

stub_or_zero :
    (c d : Bool) (a : ℕ)
    → (if d then gate_of a else if c then gate_of a else gate_of 0)
      ≡ gate_of (if c || d then a else 0)
stub_or_zero c true a = go c
  where
    go : (c : Bool) → gate_of a ≡ gate_of (if c || true then a else 0)
    go true = refl
    go false = refl
stub_or_zero true false a = refl
stub_or_zero false false a = refl

idt_initialize-idt :
    {S : Type 0} (stub : ℕ → ℕ) (address : ℕ) (s : Interrupts S) (v : ℕ)
    → (idt_initialize stub address s).0.idt v
      ≡ (if ltb v 256 then gate_of (if has_stub v then stub v else 0) else s.idt v)
unfolding idt_initialize
idt_initialize-idt stub address s v =
    set_gates_lem stub 32 16 (set_gates stub 0 21 (clear_gates 256 s).idt) v
    ∙ rw (set_gates_lem stub 0 21 (clear_gates 256 s).idt v, clear_gates-idt 256 s v)
        (elim (Bool-cases (ltb v 256)) [
          | inl e ↦
              let t : has_stub v ≡ ((leb 0 v && ltb v 21) || (leb 32 v && ltb v 48)) =
                ground arith in
              rw (e, t) (stub_or_zero (leb 0 v && ltb v 21) (leb 32 v && ltb v 48) (stub v))
          | inr e ↦
              let a : (leb 0 v && ltb v 21) ≡ false = ground arith in
              let b : (leb 32 v && ltb v 48) ≡ false = ground arith in rw (e, a, b) refl
        ])

-- After the initialisation the processor takes from the gate of a vector the address of its stub, or 0
-- for one of the vectors without a stub, for addresses of 64 bits. Every gate is an interrupt gate of
-- the kernel's code segment, no vector has a handler, and nothing is written behind the table.
pub idt_initialize-gates :
    {S : Type 0} (stub : ℕ → ℕ) (address : ℕ) (s : Interrupts S) (v w : ℕ)
    → stub v < 2 ^ 64
    → v < 256
    → 256 ≤ w
    → let r = (idt_initialize stub address s).0 in
      (address_of (r.idt v) ≡ (if has_stub v then stub v else 0))
      × ((r.idt v).selector ≡ 8)
      × ((r.idt v).type_attr ≡ 0x8E)
      × (r.handlers v ≡ none)
      × (r.idt w ≡ s.idt w)
      × (r.handlers w ≡ s.handlers w)
      × (r.limit ≡ 4095)
      × (r.base ≡ address)
idt_initialize-gates stub address s v w b l m =
    let t : ltb v 256 ≡ true = ground arith in
    let f : ltb w 256 ≡ false = ground arith in
    let a : (if has_stub v then stub v else 0) < 2 ^ 64 = ground arith in
    let e =
      idt_initialize-idt stub address s v
      ∙ ap (λ c. if c then gate_of (if has_stub v then stub v else 0) else s.idt v) t in
    (
      ap address_of e ∙ address_of-gate_of _ a,
      ap (λ g. g.selector) e,
      ap (λ g. g.type_attr) e,
      unfold idt_initialize in clear_gates-handlers 256 s v ∙ rw t refl,
      idt_initialize-idt stub address s w ∙ rw f refl,
      unfold idt_initialize in clear_gates-handlers 256 s w ∙ rw f refl,
      unfold idt_initialize in refl,
      unfold idt_initialize in refl,
    )
