-- ===== src/Fat32/Names.antt =====
-- The names of src/fat32.c: the eleven bytes of a directory entry, padded with blanks, and the name with
-- a dot. A name is the list of its bytes before the terminating 0.
pub mod RoundTrip
use a_lightweight_os.Base.{
  ℕ, zero, suc, ◌+◌, ◌-◌, Bool, true, false, not, ◌&&◌, ◌||◌, List, [], ◌∷◌, ◌++◌, leb, ltb, ◌==◌,
  if◌then◌else◌, update,
}

abbrev pub blank : ℕ
blank = 32

abbrev pub dot : ℕ
dot = 46

unfoldable pub to_upper : ℕ → ℕ
to_upper c = if leb 97 c && leb c 122 then c - 32 else c

-- The first loop: the bytes before a dot, eight at most; with the rest of the name.
unfoldable pub write_base : ℕ → List ℕ → (ℕ → ℕ) → (ℕ → ℕ) × List ℕ
unfolding to_upper
write_base index [] out = (out, [])
write_base index (c ∷ cs) out =
    let rest = write_base (index + 1) cs (update out index (to_upper c)) in
    if (c == dot) || leb 8 index then (out, c ∷ cs) else rest

unfoldable pub skip_dot : List ℕ → List ℕ
skip_dot [] = []
skip_dot (c ∷ cs) = if c == dot then cs else c ∷ cs

-- The second loop, up to index 11.
unfoldable pub write_extension : ℕ → List ℕ → (ℕ → ℕ) → ℕ → ℕ
unfolding to_upper
write_extension index [] out = out
write_extension index (c ∷ cs) out =
    let rest = write_extension (index + 1) cs (update out index (to_upper c)) in
    if leb 11 index then out else rest

unfoldable pub normalize_name : List ℕ → ℕ → ℕ
unfolding write_base skip_dot write_extension
normalize_name name =
    let (out, rest) = write_base 0 name (λ _. blank) in write_extension 8 (skip_dot rest) out

-- A `char` from 128 on is negative and no byte of the entry is equal to it.
unfoldable pub same_char : ℕ → ℕ → Bool
same_char e c = (e == c) && ltb c 128

-- The comparison with `n` bytes left from `i` on.
unfoldable pub compare_from : (ℕ → ℕ) → (ℕ → ℕ) → ℕ → ℕ → Bool
unfolding same_char
compare_from e t zero i = true
compare_from e t (suc n) i = same_char (e i) (t i) && compare_from e t n (i + 1)

unfoldable pub compare_entry_name : (ℕ → ℕ) → List ℕ → Bool
unfolding compare_from normalize_name
compare_entry_name entry target = compare_from entry (normalize_name target) 11 0

unfoldable pub is_end : ℕ → Bool
is_end c = (c == blank) || (c == 0)

-- Bytes up to a blank or a 0, `n` at most from `i` on.
unfoldable pub take_bytes : (ℕ → ℕ) → ℕ → ℕ → List ℕ
unfolding is_end
take_bytes e zero i = []
take_bytes e (suc n) i =
    let rest = e i ∷ take_bytes e n (i + 1) in if is_end (e i) then [] else rest

unfoldable pub extract_entry_name : (ℕ → ℕ) → List ℕ
unfolding take_bytes
extract_entry_name entry =
    take_bytes entry 8 0 ++ (if is_end (entry 8) then [] else dot ∷ take_bytes entry 3 8)
