-- ===== src/Files/Table.antt =====
-- The file table of src/file_ops.c: which files an operation makes visible and which it leaves alone.
use a_lightweight_os.Base.{
  ℕ, zero, suc, ◌+◌, ◌<◌, ◌≡◌, ◌≢◌, refl, sym, ◌∙◌, inl, inr, Bool, true, false, ◌&&◌, Option, none,
  some, List, [], ◌∷◌, leb, ◌==◌, if◌then◌else◌, update, arith, ap, subst, Bool-cases, ==_refl,
  find_first, First, find_first-First, find_first-ext, find_first-suc, or_else,
}
use a_lightweight_os.Files.{
  File, FileTable, max_files, same_bytes, strings_equal, matches, find_file, append_file, mkdir,
  delete_at, delete,
}

pub same_bytes_refl : (xs : List ℕ) → same_bytes xs xs ≡ true
unfolding same_bytes
same_bytes_refl [] = refl
same_bytes_refl (x ∷ xs) = rw (==_refl x, same_bytes_refl xs) refl

pub same_bytes→≡ : (xs ys : List ℕ) → same_bytes xs ys ≡ true → xs ≡ ys
unfolding same_bytes
same_bytes→≡ [] [] e = refl
same_bytes→≡ [] (y ∷ ys) e = absurd (cc)
same_bytes→≡ (x ∷ xs) [] e = absurd (cc)
same_bytes→≡ (x ∷ xs) (y ∷ ys) e = elim (Bool-cases (x == y)) [
  | inl q ↦
      let z : x ≡ y = ground arith in
      ap (λ a. a ∷ xs) z ∙ ap (λ as'. y ∷ as') (same_bytes→≡ xs ys (ground (arith, e)))
  | inr q ↦ absurd (ground (arith, e))
]

-- What the search finds once a file that exists is appended.
find_file-append_file :
    (f : File) (t : FileTable) (dst p : List ℕ)
    → f.path ≡ some dst
    → f.exists_now ≡ true
    → find_file (append_file f t) p
      ≡ or_else (find_file t p) (if same_bytes dst p then some t.file_count else none)
unfolding find_file append_file matches strings_equal
find_file-append_file f t dst p a b =
    ap (λ n. find_first (matches fs p) n 0)
      (let e : t.file_count + 1 ≡ suc t.file_count = omega arith in e)
    ∙ find_first-suc (matches fs p) t.file_count 0
    ∙ ap
        (λ n.
          or_else (find_first (matches fs p) t.file_count 0)
            (if matches fs p n then some n else none))
        z
    ∙ ap (λ o. or_else o (if matches fs p t.file_count then some t.file_count else none))
        (find_first-ext (matches fs p) (matches t.files p) t.file_count 0
          (λ k l. let e : (t.file_count == k) ≡ false = ground arith in rw e refl))
    ∙ ap
        (λ c.
          or_else (find_first (matches t.files p) t.file_count 0)
            (if c then some t.file_count else none))
        last
  where
    fs : ℕ → File
    fs = update t.files t.file_count f

    z : zero + t.file_count ≡ t.file_count
    z = omega arith

    last : matches fs p t.file_count ≡ same_bytes dst p
    last =
        rw (==_refl t.file_count)
          (ap (λ o. strings_equal o (some p) && f.exists_now) a ∙ rw b (ground arith))

-- What an operation that makes the file `dst` does: it is found in the new slot, and the other paths
-- lead where they led.
pub record Makes (dst : List ℕ) (directory : Bool) (size : ℕ) (t : FileTable) (r : FileTable × Bool)
    : Type 0 where
  pub succeeds : r.1 ≡ true
  pub found : find_file r.0 dst ≡ some t.file_count
  pub kind : (r.0.files t.file_count).is_directory ≡ directory
  pub bytes : (r.0.files t.file_count).size ≡ size
  pub others : (p : List ℕ) → p ≢ dst → find_file r.0 p ≡ find_file t p

append_file-Makes :
    (f : File) (t : FileTable) (dst : List ℕ)
    → f.path ≡ some dst
    → f.exists_now ≡ true
    → find_file t dst ≡ none
    → Makes dst f.is_directory f.size t (append_file f t, true)
unfolding append_file
append_file-Makes f t dst a b n = record {
  succeeds = refl;
  found = find_file-append_file f t dst dst a b ∙ rw (n, same_bytes_refl dst) refl;
  kind = rw (==_refl t.file_count) refl;
  bytes = rw (==_refl t.file_count) refl;
  others = λ p d. find_file-append_file f t dst p a b ∙ (elim (Bool-cases (same_bytes dst p)) [
    | inl e ↦ absurd (d (sym (same_bytes→≡ dst p e)))
    | inr e ↦ rw e (or_none (find_file t p))
  ]);
}
  where
    or_none : (o : Option ℕ) → or_else o none ≡ o
    or_none none = refl
    or_none (some i) = refl

-- While the table has room, making a directory under a path that leads nowhere makes it lead to a new
-- directory of size 0, and no other path is affected.
mkdir-Makes :
    (t : FileTable) (dst : List ℕ)
    → t.file_count < max_files
    → find_file t dst ≡ none
    → Makes dst true 0 t (mkdir (some dst) t)
unfolding mkdir
mkdir-Makes t dst l n =
    let e : leb max_files t.file_count ≡ false = ground arith in
    rw e (
      append_file-Makes
        (record { path = some dst; is_directory = true; size = 0; exists_now = true }) t dst refl
        refl n)

-- What is found passes the test of the loop.
find_file_hit :
    (t : FileTable) (path : List ℕ) (i : ℕ)
    → find_file t path ≡ some i
    → matches t.files path i ≡ true
unfolding find_file
find_file_hit t path i e =
    (subst (First (matches t.files path) t.file_count 0) e
      (find_first-First (matches t.files path) t.file_count 0)).2

-- A file that stands under one path stands under no other.
matches-other :
    (fs : ℕ → File) (path p : List ℕ) (i : ℕ)
    → matches fs path i ≡ true
    → p ≢ path
    → matches fs p i ≡ false
unfolding matches strings_equal
matches-other fs path p i m d = go (fs i).path (ground (arith, m))
  where
    go :
        (o : Option (List ℕ))
        → strings_equal o (some path) ≡ true
        → (strings_equal o (some p) && (fs i).exists_now) ≡ false
    go none e = refl
    go (some q) e = elim (Bool-cases (same_bytes q p)) [
      | inl f ↦ absurd (d (sym (same_bytes→≡ q p f) ∙ same_bytes→≡ q path e))
      | inr f ↦ rw f refl
    ]

matches-update :
    (fs : ℕ → File) (path p : List ℕ) (i k : ℕ)
    → matches fs path i ≡ true
    → p ≢ path
    → matches (update fs i (record (fs i) { exists_now = false })) p k ≡ matches fs p k
unfolding matches
matches-update fs path p i k m d = elim (Bool-cases (i == k)) [
  | inl e ↦
      let z : i ≡ k = ground arith in
      let h : matches fs p k ≡ false =
        subst (λ t. matches fs p t ≡ false) z (matches-other fs path p i m d) in
      rw e (and_false (strings_equal (fs i).path (some p)) ∙ sym h)
  | inr e ↦ rw e refl
]
  where
    and_false : (b : Bool) → (b && false) ≡ false
    and_false true = refl
    and_false false = refl

-- Deleting a path succeeds exactly if it leads to a file, and every other path leads where it led.
delete-others :
    (t : FileTable) (path p : List ℕ)
    → p ≢ path
    → ((delete (some path) t).1 ≡ (elim (find_file t path) [ none ↦ false | some _ ↦ true ]))
      × (find_file (delete (some path) t).0 p ≡ find_file t p)
unfolding delete delete_at find_file
delete-others t path p d = go (find_file t path) refl
  where
    go :
        (o : Option ℕ)
        → find_file t path ≡ o
        → ((delete_at o t).1 ≡ (elim o [ none ↦ false | some _ ↦ true ]))
          × (find_file (delete_at o t).0 p ≡ find_file t p)
    go none e = (refl, refl)
    go (some i) e = (
      refl,
      find_first-ext (matches (delete_at (some i) t).0.files p) (matches t.files p) t.file_count 0
          (λ k l. same k),
    )
      where
        same : (k : ℕ) → matches (delete_at (some i) t).0.files p k ≡ matches t.files p k
        same k = matches-update t.files path p i k (find_file_hit t path i e) d
