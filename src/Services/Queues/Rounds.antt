-- ===== src/Services/Queues/Rounds.antt =====
-- The rounds in which the spooler of src/services.c puts the texts of its queue out.
use a_lightweight_os.Base.{
  ℕ, zero, suc, ◌+◌, ◌%◌, ◌<◌, ◌≤◌, ◌≡◌, refl, sym, ◌∙◌, inl, inr, Bool, true, false, not, ◌||◌,
  Option, none, some, List, [], ◌∷◌, ◌++◌, ◌==◌, update, u8, take, length, arith, ap, subst,
  Bool-cases,
}
use mathlib.Core.List.{append_assoc, append-nil}
use a_lightweight_os.Services.Queues.{Spooler, print_round, spool_print}
use a_lightweight_os.Services.Queues.Printing.{Bytes, spool_print-Holds, Holds, Text, Texts-frame}

-- What a round does to the texts that are held: it puts out a byte of the first, takes that away once
-- it is empty, or has nothing to do.
abbrev Prints : Spooler → List (List ℕ) → Spooler × Option ℕ → Type 0
Prints s [] r = r ≡ (s, none)
Prints s ([] ∷ ms) r = Holds r.0 ms × (r.1 ≡ none)
Prints s ((c ∷ cs) ∷ ms) r = Holds r.0 (cs ∷ ms) × (r.1 ≡ some c)

-- The test of the round.
abbrev busy : Spooler → Bool
busy s = not (s.print_head == s.print_tail) || not (s.print_offset == 0) || s.print_queue_full

Text-bound : (row : ℕ → ℕ) (o : ℕ) (cs : List ℕ) → Text row o cs → o + length cs < 128
Text-bound row o [] t = omega (arith, t.1)
Text-bound row o (c ∷ cs) t = omega (arith, Text-bound row (o + 1) cs t.2)

busy_lem : (s : Spooler) (m : List ℕ) (ms : List (List ℕ)) → Holds s (m ∷ ms) → busy s ≡ true
busy_lem s m ms h =
    let z = h.head_bound in
    let q = h.tail_place in
    let l = h.few in
    let f = h.full in
    elim (Bool-cases (s.print_head == s.print_tail)) [
      | inr x ↦ rw x refl
      | inl x ↦
          let g : s.print_queue_full ≡ true = ground (arith, x, z, q, l, f) in
          rw g (or_true (not (s.print_head == s.print_tail)) (not (s.print_offset == 0)))
    ]
  where
    or_true : (a b : Bool) → (a || b || true) ≡ true
    or_true true b = refl
    or_true false true = refl
    or_true false false = refl

print_round-Prints : (s : Spooler) (ms : List (List ℕ)) → Holds s ms → Prints s ms (print_round s)
unfolding print_round
print_round-Prints s [] h =
    let q = h.tail_place in
    let z = h.head_bound in
    let o = h.idle refl in
    let f : s.print_queue_full ≡ false = h.full in
    let x : (s.print_head == s.print_tail) ≡ true = ground (arith, q, z) in
    let y : (s.print_offset == 0) ≡ true = ground (arith, o) in rw (x, y, f) refl
print_round-Prints s ([] ∷ ms) h =
    let b = busy_lem s [] ms h in
    let t = h.texts in
    let l = h.few in
    let z = h.head_bound in
    let q = h.tail_place in
    let x : (s.print_queue s.print_head s.print_offset == 0) ≡ true =
      let e = t.0.0 in ground (arith, e) in
    rw (b, x)
      (
        record {
          texts =
              Texts-frame s.print_queue (update (s.print_queue s.print_head) 0 0)
                ((s.print_head + 1) % 8) 0 ms (omega arith) (omega (arith, l)) t.1 s.print_head
                (λ i k e. omega (arith, e, k, l, z));
          few = omega (arith, l);
          head_bound = omega arith;
          tail_place = omega (arith, q, l);
          full = ground (arith, l);
          idle = λ e. refl;
        },
        refl,
      )
print_round-Prints s ((c ∷ cs) ∷ ms) h =
    let b = busy_lem s (c ∷ cs) ms h in
    let t = h.texts in
    let l = Text-bound (s.print_queue s.print_head) s.print_offset (c ∷ cs) t.0 in
    let v : s.print_queue s.print_head s.print_offset ≡ c = t.0.0 in
    let n = t.0.1 in
    let x : (s.print_queue s.print_head s.print_offset == 0) ≡ false = ground (arith, v, n) in
    let u : u8 (s.print_offset + 1) ≡ s.print_offset + 1 = omega (arith, l) in
    rw (b, x)
      (
        record {
          texts = (subst (λ o. Text (s.print_queue s.print_head) o cs) (sym u) t.0.2, t.1);
          few = h.few;
          head_bound = h.head_bound;
          tail_place = h.tail_place;
          full = h.full;
          idle = λ e. absurd (let d = ap length e in omega (arith, d));
        },
        ap some v,
      )

-- A byte, if there is one, in front of the others.
abbrev put_out : Option ℕ → List ℕ → List ℕ
put_out none cs = cs
put_out (some c) cs = c ∷ cs

-- What `n` rounds put out.
abbrev pub output : ℕ → Spooler → List ℕ
output zero s = []
output (suc n) s = put_out (print_round s).1 (output n (print_round s).0)

abbrev pub joined : List (List ℕ) → List ℕ
joined [] = []
joined (m ∷ ms) = m ++ joined ms

-- A round for each byte and for the end of each text.
abbrev pub rounds : List (List ℕ) → ℕ
rounds [] = 0
rounds (m ∷ ms) = length m + 1 + rounds ms

-- With a round for each byte and for the end of each text, or more, the spooler puts out all the texts
-- that it holds, one after the other, and nothing else.
output-joined :
    (n : ℕ) (s : Spooler) (ms : List (List ℕ)) → Holds s ms → rounds ms ≤ n → output n s ≡ joined ms
output-joined zero s [] h l = refl
output-joined zero s (m ∷ ms) h l = absurd (omega arith)
output-joined (suc n) s [] h l =
    let p = print_round-Prints s [] h in
    ap (λ (r : Spooler × Option ℕ). put_out r.1 (output n r.0)) p
    ∙ output-joined n s [] h (omega arith)
output-joined (suc n) s ([] ∷ ms) h l =
    let p = print_round-Prints s ([] ∷ ms) h in
    ap (λ o. put_out o (output n (print_round s).0)) p.1
    ∙ output-joined n (print_round s).0 ms p.0 (omega arith)
output-joined (suc n) s ((c ∷ cs) ∷ ms) h l =
    let p = print_round-Prints s ((c ∷ cs) ∷ ms) h in
    ap (λ o. put_out o (output n (print_round s).0)) p.1
    ∙ ap (λ xs. c ∷ xs) (output-joined n (print_round s).0 (cs ∷ ms) p.0 (omega arith))

joined-append : (ms : List (List ℕ)) (m : List ℕ) → joined (ms ++ m ∷ []) ≡ joined ms ++ m
joined-append [] m = append-nil m
joined-append (m' ∷ ms) m =
    ap (λ xs. m' ++ xs) (joined-append ms m) ∙ sym (append_assoc m' (joined ms) m)

-- While fewer than eight texts are held, printing a text, cut at 127 bytes, makes the spooler put it out
-- behind them: with a round for each byte and for the end of each text, or more, what it puts out is
-- the texts that were held, one after the other, then the new one, and nothing else.
pub output-spool_print :
    (n : ℕ) (s : Spooler) (ms : List (List ℕ)) (text : List ℕ)
    → Holds s ms
    → length ms < 8
    → Bytes text
    → rounds (ms ++ take 127 text ∷ []) ≤ n
    → output n (spool_print (some text) s) ≡ joined ms ++ take 127 text
output-spool_print n s ms text h l b e =
    output-joined n (spool_print (some text) s) (ms ++ take 127 text ∷ [])
      (spool_print-Holds s ms text h l b) e
    ∙ joined-append ms (take 127 text)
