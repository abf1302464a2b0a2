-- ===== src/Kernel/Shell/Editing.antt =====
-- The line of the shell of src/kernel.c as a list of bytes.
use a_lightweight_os.Base.{
  ℕ, suc, ◌+◌, ◌-◌, ◌<◌, ◌≤◌, ◌≡◌, refl, sym, ◌∙◌, inl, inr, true, false, ◌||◌, Option, none, some,
  List, [], ◌∷◌, ◌++◌, length, length-append, ltb, leb, ◌==◌, if◌then◌else◌, update, arith, ap,
  Bool-cases, ==_refl,
}
use a_lightweight_os.Vga.{Vga}
use a_lightweight_os.Kernel.Shell.{Shell, enter, key}

-- A line holds some bytes from an index on.
abbrev pub Bytes : (ℕ → ℕ) → ℕ → List ℕ → Type 0
Bytes line i [] = Unit {0}
Bytes line i (c ∷ cs) = (line i ≡ c) × Bytes line (i + 1) cs

-- The shell holds a text, and its cursor stands behind the prompt and the text.
pub record Holds (s : Shell) (text : List ℕ) : Type 0 where
  pub bytes : Bytes s.line 0 text
  pub place : s.pos ≡ length text
  pub bound : s.pos ≤ 79
  pub column : s.x ≡ 9 + s.pos
  pub row : s.y ≤ 23

-- A write behind the text.
Bytes-update :
    (line : ℕ → ℕ) (i k c : ℕ) (cs : List ℕ)
    → i + length cs ≤ k
    → Bytes line i cs
    → Bytes (update line k c) i cs
Bytes-update line i k c [] l b = tt
Bytes-update line i k c (d ∷ ds) l b =
    let e : (k == i) ≡ false = ground (arith, l) in
    ((rw e b.0), Bytes-update line (i + 1) k c ds (omega arith) b.1)

Bytes-append :
    (line : ℕ → ℕ) (i c : ℕ) (cs : List ℕ)
    → Bytes line i cs
    → line (i + length cs) ≡ c
    → Bytes line i (cs ++ c ∷ [])
Bytes-append line i c [] b e = (let z : i + 0 ≡ i = omega arith in ap line (sym z) ∙ e, tt)
Bytes-append line i c (d ∷ ds) b e = (
  b.0,
  Bytes-append line (i + 1) c ds b.1
      (let z : i + 1 + length ds ≡ i + suc (length ds) = omega arith in ap line z ∙ e),
)

-- All the bytes but the last one.
unfoldable pub but_last : List ℕ → List ℕ
but_last [] = []
but_last (c ∷ []) = []
but_last (c ∷ d ∷ ds) = c ∷ but_last (d ∷ ds)

Bytes-but_last : (line : ℕ → ℕ) (i : ℕ) (cs : List ℕ) → Bytes line i cs → Bytes line i (but_last cs)
unfolding but_last
Bytes-but_last line i [] b = tt
Bytes-but_last line i (c ∷ []) b = tt
Bytes-but_last line i (c ∷ d ∷ ds) b = (b.0, Bytes-but_last line (i + 1) (d ∷ ds) b.1)

length-but_last : (cs : List ℕ) → length (but_last cs) ≡ length cs - 1
unfolding but_last
length-but_last [] = omega arith
length-but_last (c ∷ []) = omega arith
length-but_last (c ∷ d ∷ ds) = omega (arith, length-but_last (d ∷ ds))

-- The text after a key: a line end takes it all, a backspace its last byte, and any other byte goes
-- behind it, up to 79 of them.
abbrev pub edited : ℕ → List ℕ → List ℕ
edited c text =
    if (c == 13) || (c == 10)
    then []
    else if c == 8
    then but_last text
    else if ltb (length text) 79
    then text ++ c ∷ []
    else text

-- What a line end gives out: the text and a 0 behind it.
abbrev pub Commands : ℕ → List ℕ → Option (ℕ → ℕ) → Type 0
Commands c text none = ((c == 13) || (c == 10)) ≡ false
Commands c text (some line) = (((c == 13) || (c == 10)) ≡ true) × Bytes line 0 (text ++ 0 ∷ [])

-- The branches of a key.
enter-Holds :
    (s : Shell) (text : List ℕ)
    → Holds s text
    → let line = update s.line s.pos 0 in
      Holds
        (record { x = 9; y = if leb 24 (s.y + 1) then 23 else s.y + 1; pos = 0; line = line })
        []
      × Bytes line 0 (text ++ 0 ∷ [])
enter-Holds s text h =
    let q = h.place in
    let e = ==_refl s.pos in
    (
      record {
        bytes = tt;
        place = refl;
        bound = omega arith;
        column = refl;
        row = let r = h.row in ground (arith, r);
      },
      Bytes-append (update s.line s.pos 0) 0 0 text
          (Bytes-update s.line 0 s.pos 0 text (omega (arith, q)) h.bytes)
          (let z : 0 + length text ≡ s.pos = omega (arith, q) in
            ap (update s.line s.pos 0) z ∙ rw e refl),
    )

backspace-Holds :
    (s : Shell) (text : List ℕ)
    → Holds s text
    → 0 < s.pos
    → Holds (record s { x = s.x - 1; pos = s.pos - 1 }) (but_last text)
backspace-Holds s text h p =
    let q = h.place in
    let l = h.bound in
    let c = h.column in
    let n = length-but_last text in
    record {
      bytes = Bytes-but_last s.line 0 text h.bytes;
      place = omega (arith, q, n, p);
      bound = omega (arith, l);
      column = omega (arith, c, p);
      row = h.row;
    }

nothing-Holds : (s : Shell) (text : List ℕ) → Holds s text → s.pos ≡ 0 → Holds s (but_last text)
unfolding but_last
nothing-Holds s [] h e = h
nothing-Holds s (c ∷ cs) h e = absurd (let q = h.place in omega (arith, q, e))

typed-Holds :
    (c : ℕ) (s : Shell) (text : List ℕ)
    → Holds s text
    → s.pos < 79
    → Holds
        (record s { x = s.x + 1; pos = s.pos + 1; line = update s.line s.pos c })
        (text ++ c ∷ [])
typed-Holds c s text h l =
    let q = h.place in
    let k = h.column in
    let n = length-append text (c ∷ []) in
    let e = ==_refl s.pos in
    record {
      bytes =
          Bytes-append (update s.line s.pos c) 0 c text
            (Bytes-update s.line 0 s.pos c text (omega (arith, q)) h.bytes)
            (let z : 0 + length text ≡ s.pos = omega (arith, q) in
              ap (update s.line s.pos c) z ∙ rw e refl);
      place = omega (arith, q, n);
      bound = omega (arith, l);
      column = omega (arith, k);
      row = h.row;
    }

-- Every key keeps the line, the cursor and the text together: a line end gives the text out and empties
-- the line, a backspace takes its last byte, and any other byte goes behind it while there are fewer
-- than 79; no other key gives a command.
pub key-Holds :
    (c : ℕ) (s : Shell) (v : Vga) (text : List ℕ)
    → Holds s text
    → Holds (key c s v).0 (edited c text) × Commands c text (key c s v).2
unfolding key enter
key-Holds c s v text h = elim (Bool-cases ((c == 13) || (c == 10))) [
  | inl e ↦ let d = enter-Holds s text h in rw (e, key) (d.0, (e, d.1))
  | inr e ↦ elim (Bool-cases (c == 8)) [
    | inl b ↦ elim (Bool-cases (ltb 0 s.pos)) [
      | inl p ↦ rw (e, b, p, key) (backspace-Holds s text h (ground arith), e)
      | inr p ↦ rw (e, b, p, key) (nothing-Holds s text h (ground arith), e)
    ]
    | inr b ↦
        let q = h.place in
        elim (Bool-cases (ltb s.pos 79)) [
          | inl p ↦
              let r : ltb (length text) 79 ≡ true = ground (arith, p, q) in
              rw (e, b, p, r, key) (typed-Holds c s text h (ground arith), e)
          | inr p ↦
              let r : ltb (length text) 79 ≡ false = ground (arith, p, q) in
              rw (e, b, p, r, key) (h, e)
        ]
  ]
]
