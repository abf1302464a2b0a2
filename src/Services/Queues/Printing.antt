-- ===== src/Services/Queues/Printing.antt =====
-- What the spooler of src/services.c puts out, as a queue of texts.
use a_lightweight_os.Base.{
  ℕ, zero, suc, ◌+◌, ◌-◌, ◌%◌, ◌<◌, ◌≤◌, ◌≡◌, ◌≢◌, refl, sym, ◌∙◌, inl, inr, Bool, true, false,
  ◌&&◌, some, List, [], ◌∷◌, ◌++◌, ltb, ◌==◌, if◌then◌else◌, update, take, length, length-append,
  arith, ap, subst, Bool-cases, ==_refl,
}
use a_lightweight_os.Services.Queues.{Spooler, write_text, spool_print}

-- The bytes of a text.
abbrev pub Bytes : List ℕ → Type 0
Bytes [] = Unit {0}
Bytes (c ∷ cs) = (c ≢ 0) × Bytes cs

-- A row holds a text and its 0 from an offset on, within the 128 bytes.
abbrev pub Text : (ℕ → ℕ) → ℕ → List ℕ → Type 0
Text row o [] = (row o ≡ 0) × (o < 128)
Text row o (c ∷ cs) = (row o ≡ c) × (c ≢ 0) × Text row (o + 1) cs

-- The slots from one on hold the texts, the first of them from an offset on.
abbrev pub Texts : (ℕ → ℕ → ℕ) → ℕ → ℕ → List (List ℕ) → Type 0
Texts queue h o [] = Unit {0}
Texts queue h o (m ∷ ms) = Text (queue h) o m × Texts queue ((h + 1) % 8) 0 ms

-- The print queue holds the texts that are still to be put out.
pub record Holds (s : Spooler) (ms : List (List ℕ)) : Type 0 where
  pub texts : Texts s.print_queue s.print_head s.print_offset ms
  pub few : length ms ≤ 8
  pub head_bound : s.print_head < 8
  pub tail_place : s.print_tail ≡ (s.print_head + length ms) % 8
  pub full : s.print_queue_full ≡ (length ms == 8)
  pub idle : ms ≡ [] → s.print_offset ≡ 0

-- A row that is the same from an offset on holds the same.
Text-agree :
    (r r' : ℕ → ℕ) (o : ℕ) (cs : List ℕ)
    → ((k : ℕ) → o ≤ k → r k ≡ r' k)
    → Text r o cs
    → Text r' o cs
Text-agree r r' o [] e t = (sym (e o (omega arith)) ∙ t.0, t.1)
Text-agree r r' o (c ∷ cs) e t =
    (sym (e o (omega arith)) ∙ t.0, t.1, Text-agree r r' (o + 1) cs (λ k l. e k (omega arith)) t.2)

-- Writing a text leaves the row before it, and the row holds it, cut at 127 bytes.
write_text-below : (cs : List ℕ) (i k : ℕ) (row : ℕ → ℕ) → k < i → write_text cs i row k ≡ row k
unfolding write_text
write_text-below [] i k row l = let e : (i == k) ≡ false = ground arith in rw e refl
write_text-below (c ∷ cs) i k row l =
    let e : (i == k) ≡ false = ground arith in
    elim (Bool-cases (ltb i 127)) [
      | inl x ↦ rw x (write_text-below cs (i + 1) k (update row i c) (omega arith) ∙ rw e refl)
      | inr x ↦ rw (x, e) refl
    ]

take_nil : (n : ℕ) → take n [] ≡ (let e : List ℕ = [] in e)
take_nil zero = refl
take_nil (suc n) = refl

write_text-Text :
    (cs : List ℕ) (i : ℕ) (row : ℕ → ℕ)
    → i < 128
    → Bytes cs
    → Text (write_text cs i row) i (take (127 - i) cs)
unfolding write_text
write_text-Text [] i row l b = rw (take_nil (127 - i)) ((let e = ==_refl i in rw e refl), l)
write_text-Text (c ∷ cs) i row l b = elim (Bool-cases (ltb i 127)) [
  | inl x ↦
      let n : 127 - i ≡ suc (127 - (i + 1)) = ground arith in
      let e = ==_refl i in
      rw (x, n)
        (
          write_text-below cs (i + 1) i (update row i c) (omega arith) ∙ rw e refl,
          b.0,
          write_text-Text cs (i + 1) (update row i c) (ground arith) b.1,
        )
  | inr x ↦ let n : 127 - i ≡ 0 = ground arith in let e = ==_refl i in rw (x, n) (rw e refl, l)
]

-- A slot behind all those in use may be written.
pub Texts-frame :
    (queue : ℕ → ℕ → ℕ) (row : ℕ → ℕ) (h o : ℕ) (ms : List (List ℕ))
    → h < 8
    → length ms < 8
    → Texts queue h o ms
    → (t : ℕ) → ((i : ℕ) → i < length ms → t ≢ (h + i) % 8)
    → Texts (update queue t row) h o ms
Texts-frame queue row h o [] b l x t n = tt
Texts-frame queue row h o (m ∷ ms) b l x t n =
    let d : (t == h) ≡ false = let q = n 0 (omega arith) in ground (arith, q) in
    (
      subst (λ r. Text r o m) (rw d refl) x.0,
      Texts-frame queue row ((h + 1) % 8) 0 ms (omega arith) (omega arith) x.1 t
          (λ i k e. n (i + 1) (omega (arith, k)) (omega (arith, e))),
    )

-- Where the text that follows some others starts in its slot.
abbrev start : ℕ → List (List ℕ) → ℕ
start o [] = o
start o (m ∷ ms) = 0

start_zero : (ms : List (List ℕ)) → start 0 ms ≡ 0
start_zero [] = refl
start_zero (m ∷ ms) = refl

-- A text behind the others.
Texts-append :
    (queue : ℕ → ℕ → ℕ) (h o : ℕ) (ms : List (List ℕ)) (m : List ℕ)
    → h < 8
    → Texts queue h o ms
    → Text (queue ((h + length ms) % 8)) (start o ms) m
    → Texts queue h o (ms ++ m ∷ [])
Texts-append queue h o [] m b x t =
    let e : (h + 0) % 8 ≡ h = omega arith in (subst (λ k. Text (queue k) o m) e t, tt)
Texts-append queue h o (m' ∷ ms) m b x t =
    let e : (h + suc (length ms)) % 8 ≡ ((h + 1) % 8 + length ms) % 8 = omega arith in
    (
      x.0,
      Texts-append queue ((h + 1) % 8) 0 ms m (omega arith) x.1 (
          subst (λ k. Text (queue (((h + 1) % 8 + length ms) % 8)) k m) (sym (start_zero ms))
            (subst (λ k. Text (queue k) 0 m) e t)),
    )

start_idle : (o : ℕ) (ms : List (List ℕ)) → (ms ≡ [] → o ≡ 0) → start o ms ≡ 0
start_idle o [] h = h refl
start_idle o (m ∷ ms) h = refl

-- The spooler with a text in the next slot.
abbrev spooled : List ℕ → Spooler → Spooler
spooled text s = record s {
  print_queue = update s.print_queue s.print_tail (write_text text 0 (s.print_queue s.print_tail));
  print_tail = (s.print_tail + 1) % 8;
  print_queue_full = if (s.print_tail + 1) % 8 == s.print_head then true else s.print_queue_full;
}

spool_print-spooled :
    (text : List ℕ) (s : Spooler)
    → s.print_queue_full ≡ false
    → spool_print (some text) s ≡ spooled text s
unfolding spool_print
spool_print-spooled text s f =
    let e : ((s.print_tail + 1) % 8 == s.print_head && s.print_queue_full) ≡ false =
      ap (λ b. (s.print_tail + 1) % 8 == s.print_head && b) f
      ∙ and_false ((s.print_tail + 1) % 8 == s.print_head) in
    rw e refl
  where
    and_false : (b : Bool) → (b && false) ≡ false
    and_false true = refl
    and_false false = refl

spooled-Holds :
    (s : Spooler) (ms : List (List ℕ)) (text : List ℕ)
    → Holds s ms
    → length ms < 8
    → Bytes text
    → Holds (spooled text s) (ms ++ take 127 text ∷ [])
spooled-Holds s ms text h l b =
    let n : length (ms ++ take 127 text ∷ []) ≡ length ms + 1 =
      length-append ms (take 127 text ∷ []) in
    let q = h.tail_place in
    let z = h.head_bound in
    let row = write_text text 0 (s.print_queue s.print_tail) in
    record {
      texts =
          Texts-append (update s.print_queue s.print_tail row) s.print_head s.print_offset ms
            (take 127 text) z
            (Texts-frame s.print_queue row s.print_head s.print_offset ms z l h.texts s.print_tail
              (λ i k e. omega (arith, e, q, k, l, z)))
            (subst
              (λ t.
                Text (update s.print_queue s.print_tail row t) (start s.print_offset ms)
                  (take 127 text))
              q
              (subst (λ r. Text r (start s.print_offset ms) (take 127 text))
                (let e = ==_refl s.print_tail in
                  let d : row ≡ update s.print_queue s.print_tail row s.print_tail = rw e refl in d)
                (subst (λ o. Text row o (take 127 text)) (sym (start_idle s.print_offset ms h.idle))
                  (write_text-Text text 0 (s.print_queue s.print_tail) (omega arith) b))));
      few = omega (arith, n, l);
      head_bound = z;
      tail_place = omega (arith, n, q);
      full = let f = h.full in ground (arith, n, q, z, l, f);
      idle = λ e. absurd (let d = ap length e in omega (arith, d, n));
    }

-- While fewer than eight texts are held, a text goes behind them, cut at 127 bytes.
pub spool_print-Holds :
    (s : Spooler) (ms : List (List ℕ)) (text : List ℕ)
    → Holds s ms
    → length ms < 8
    → Bytes text
    → Holds (spool_print (some text) s) (ms ++ take 127 text ∷ [])
spool_print-Holds s ms text h l b =
    let f : s.print_queue_full ≡ false = let e = h.full in ground (arith, e, l) in
    subst (λ t. Holds t (ms ++ take 127 text ∷ [])) (sym (spool_print-spooled text s f))
      (spooled-Holds s ms text h l b)
