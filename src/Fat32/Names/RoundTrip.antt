-- ===== src/Fat32/Names/RoundTrip.antt =====
-- A file name of at most eight and three bytes, in upper case, comes back from the eleven bytes of the
-- entry that src/fat32.c makes of it.
use a_lightweight_os.Base.{
  ℕ, zero, suc, ◌+◌, ◌<◌, ◌≤◌, ◌≡◌, ◌≢◌, refl, sym, ◌∙◌, true, false, ◌||◌, List, [], ◌∷◌, ◌++◌,
  map, leb, ◌==◌, if◌then◌else◌, update, length, arith, ap,
}
use mathlib.Core.List.{map-append}
use a_lightweight_os.Fat32.Names.{
  blank, dot, to_upper, write_base, skip_dot, write_extension, normalize_name, is_end, take_bytes,
  extract_entry_name,
}

-- A byte that may stand in a name: no dot, no blank, not 0.
abbrev pub IsLetter : ℕ → Type 0
IsLetter c = (c ≢ dot) × (c ≢ blank) × (c ≢ 0)

abbrev pub AllLetters : List ℕ → Type 0
AllLetters [] = Unit {0}
AllLetters (c ∷ cs) = IsLetter c × AllLetters cs

-- The bytes of a name from an index on, over what stood there.
abbrev put : ℕ → List ℕ → (ℕ → ℕ) → ℕ → ℕ
put i [] out = out
put i (c ∷ cs) out = put (i + 1) cs (update out i (to_upper c))

put-below : (i k : ℕ) (cs : List ℕ) (out : ℕ → ℕ) → k < i → put i cs out k ≡ out k
put-below i k [] out l = refl
put-below i k (c ∷ cs) out l =
    put-below (i + 1) k cs (update out i (to_upper c)) (omega arith)
    ∙ (let e : (i == k) ≡ false = ground arith in rw e refl)

put-above : (i k : ℕ) (cs : List ℕ) (out : ℕ → ℕ) → i + length cs ≤ k → put i cs out k ≡ out k
put-above i k [] out l = refl
put-above i k (c ∷ cs) out l =
    put-above (i + 1) k cs (update out i (to_upper c)) (omega arith)
    ∙ (let e : (i == k) ≡ false = ground arith in rw e refl)

write_extension-put :
    (i : ℕ) (cs : List ℕ) (out : ℕ → ℕ)
    → i + length cs ≤ 11
    → write_extension i cs out ≡ put i cs out
unfolding write_extension
write_extension-put i [] out l = refl
write_extension-put i (c ∷ cs) out l =
    let e : leb 11 i ≡ false = ground arith in
    rw e (write_extension-put (i + 1) cs (update out i (to_upper c)) (omega arith))

-- What stands behind the first part: nothing, or a dot.
abbrev Ends : List ℕ → Type 0
Ends [] = Unit {0}
Ends (c ∷ cs) = c ≡ dot

write_base-put :
    (i : ℕ) (cs rest : List ℕ) (out : ℕ → ℕ)
    → i + length cs ≤ 8
    → AllLetters cs
    → Ends rest
    → write_base i (cs ++ rest) out ≡ (put i cs out, rest)
unfolding write_base
write_base-put i [] [] out l a e = refl
write_base-put i [] (c ∷ cs) out l a e = let t : (c == dot) ≡ true = ground arith in rw t refl
write_base-put i (c ∷ cs) rest out l a e =
    let n = a.0.0 in
    let t : ((c == dot) || leb 8 i) ≡ false = ground arith in
    rw t (write_base-put (i + 1) cs rest (update out i (to_upper c)) (omega arith) a.1 e)

is_end-blank : is_end blank ≡ true
unfolding is_end
is_end-blank = refl

is_end-to_upper : (c : ℕ) → IsLetter c → is_end (to_upper c) ≡ false
unfolding is_end to_upper
is_end-to_upper c l = let b = l.1 in let z = l.2 in ground arith

-- Reading back what was put, up to the end of the field or a blank behind it.
take_bytes-put :
    (n i : ℕ) (cs : List ℕ) (out e : ℕ → ℕ)
    → ((k : ℕ) → i ≤ k → k < i + n → e k ≡ put i cs out k)
    → ((k : ℕ) → i ≤ k → out k ≡ blank)
    → length cs ≤ n
    → AllLetters cs
    → take_bytes e n i ≡ map to_upper cs
unfolding take_bytes
take_bytes-put zero i [] out e h b l a = refl
take_bytes-put zero i (c ∷ cs) out e h b l a = absurd (omega arith)
take_bytes-put (suc n) i [] out e h b l a =
    let x : e i ≡ blank = h i (omega arith) (omega arith) ∙ b i (omega arith) in
    rw (ap is_end x ∙ is_end-blank) refl
take_bytes-put (suc n) i (c ∷ cs) out e h b l a =
    let s : put i (c ∷ cs) out i ≡ to_upper c =
      put-below (i + 1) i cs (update out i (to_upper c)) (omega arith)
      ∙ (let t : (i == i) ≡ true = ground arith in rw t refl) in
    let x : e i ≡ to_upper c = h i (omega arith) (omega arith) ∙ s in
    let r : take_bytes e n (i + 1) ≡ map to_upper cs =
      take_bytes-put n (i + 1) cs (update out i (to_upper c)) e
        (λ k p q. h k (omega arith) (omega arith))
        (λ k p. (let t : (i == k) ≡ false = ground arith in rw t (b k (omega arith)))) (omega arith)
        a.1 in
    let t : is_end (e i) ≡ false = ap is_end x ∙ is_end-to_upper c a.0 in
    rw t (ap (λ y. y ∷ take_bytes e n (i + 1)) x ∙ ap (λ ys. to_upper c ∷ ys) r)

-- The extension as it stands in a name.
abbrev pub with_dot : List ℕ → List ℕ
with_dot [] = []
with_dot (c ∷ cs) = dot ∷ c ∷ cs

normalize_name-put :
    (base extension : List ℕ)
    → length base ≤ 8
    → length extension ≤ 3
    → AllLetters base
    → normalize_name (base ++ with_dot extension) ≡ put 8 extension (put 0 base (λ _. blank))
unfolding normalize_name skip_dot
normalize_name-put base [] l m a =
    ap (λ (r : (ℕ → ℕ) × List ℕ). write_extension 8 (skip_dot r.1) r.0)
      (write_base-put 0 base [] (λ _. blank) (omega arith) a tt)
    ∙ write_extension-put 8 [] (put 0 base (λ _. blank)) (omega arith)
normalize_name-put base (c ∷ cs) l m a =
    ap (λ (r : (ℕ → ℕ) × List ℕ). write_extension 8 (skip_dot r.1) r.0)
      (write_base-put 0 base (dot ∷ c ∷ cs) (λ _. blank) (omega arith) a refl)
    ∙ write_extension-put 8 (c ∷ cs) (put 0 base (λ _. blank)) (omega arith)

upper_dot : dot ≡ to_upper dot
unfolding to_upper
upper_dot = refl

extension-put :
    (padded : ℕ → ℕ) (xs : List ℕ)
    → ((k : ℕ) → 8 ≤ k → padded k ≡ blank)
    → length xs ≤ 3
    → AllLetters xs
    → (if is_end (put 8 xs padded 8) then [] else dot ∷ take_bytes (put 8 xs padded) 3 8)
      ≡ map to_upper (with_dot xs)
extension-put padded [] h l a =
    let e : is_end (padded 8) ≡ true = ap is_end (h 8 (omega arith)) ∙ is_end-blank in rw e refl
extension-put padded (c ∷ cs) h l a =
    let s : put 8 (c ∷ cs) padded 8 ≡ to_upper c =
      put-below 9 8 cs (update padded 8 (to_upper c)) (omega arith) in
    let e : is_end (put 8 (c ∷ cs) padded 8) ≡ false = ap is_end s ∙ is_end-to_upper c a.0 in
    let r : take_bytes (put 8 (c ∷ cs) padded) 3 8 ≡ map to_upper (c ∷ cs) =
      take_bytes-put 3 8 (c ∷ cs) padded (put 8 (c ∷ cs) padded) (λ k p q. refl) h l a in
    rw e (ap (λ ys. dot ∷ ys) r ∙ ap (λ d. d ∷ map to_upper (c ∷ cs)) upper_dot)

-- The eleven bytes of a name give the name back, in upper case, if it has at most eight bytes, and
-- behind a dot at most three, none of them a dot, a blank or 0.
pub extract_entry_name-normalize_name :
    (base extension : List ℕ)
    → length base ≤ 8
    → length extension ≤ 3
    → AllLetters base
    → AllLetters extension
    → extract_entry_name (normalize_name (base ++ with_dot extension))
      ≡ map to_upper (base ++ with_dot extension)
unfolding extract_entry_name
extract_entry_name-normalize_name base extension l m a b =
    ap extract_entry_name (normalize_name-put base extension l m a)
    ∙ ap (λ xs. xs ++ (if is_end (entry 8) then [] else dot ∷ take_bytes entry 3 8)) first
    ∙ ap (λ xs. map to_upper base ++ xs) (extension-put padded extension padding m b)
    ∙ sym (map-append to_upper base (with_dot extension))
  where
    padded : ℕ → ℕ
    padded = put 0 base (λ _. blank)

    entry : ℕ → ℕ
    entry = put 8 extension padded

    padding : (k : ℕ) → 8 ≤ k → padded k ≡ blank
    padding k p = put-above 0 k base (λ _. blank) (omega arith)

    first : take_bytes entry 8 0 ≡ map to_upper base
    first =
        take_bytes-put 8 0 base (λ _. blank) entry
          (λ k p q. put-below 8 k extension padded (omega arith)) (λ k p. refl) l a
