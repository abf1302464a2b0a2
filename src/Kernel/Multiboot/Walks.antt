-- ===== src/Kernel/Multiboot/Walks.antt =====
-- The walks of src/kernel.c as folds over the list of the tags that they pass.
use a_lightweight_os.Base.{
  ℕ, zero, suc, ◌+◌, ◌<◌, ◌≤◌, ◌≡◌, ◌≢◌, ◌⊎◌, inl, inr, refl, ◌∙◌, true, false, some, List, [], ◌∷◌,
  length, ltb, ◌==◌, arith, ap, Bool-cases,
}
use a_lightweight_os.Kernel.Multiboot.{
  Entry, entry_at, tag_type, tag_size, entry_size, next_tag, walk_entries, walk_tags,
}

pub data Tag : Type 0 where
  other : Tag
  memory_map : List Entry → Tag

-- The entries from an offset up to the end of the map.
abbrev pub Entries : (ℕ → ℕ) → ℕ → ℕ → ℕ → List Entry → Type 0
Entries b size e stop [] = stop ≤ e
Entries b size e stop (x ∷ xs) = (e < stop) × (entry_at b e ≡ x) × Entries b size (e + size) stop xs

-- The tags from an offset up to the end, or up to the tag of type 0.
abbrev pub Tags : (ℕ → ℕ) → ℕ → ℕ → List Tag → Type 0
Tags b p stop [] = (stop ≤ p) ⊎ (tag_type b p ≡ 0)
Tags b p stop (other ∷ ts) =
    (p < stop) × (tag_type b p ≢ 0) × (tag_type b p ≢ 6) × Tags b (next_tag b p) stop ts
Tags b p stop (memory_map es ∷ ts) =
    (p < stop)
    × (tag_type b p ≡ 6)
    × Entries b (entry_size b p) (p + 16) (p + tag_size b p) es
    × Tags b (next_tag b p) stop ts

-- Fuel for the tags, and from each map on for its entries.
abbrev pub Enough : ℕ → List Tag → Type 0
Enough fuel [] = 0 < fuel
Enough zero (t ∷ ts) = ⊥
Enough (suc fuel) (other ∷ ts) = Enough fuel ts
Enough (suc fuel) (memory_map es ∷ ts) = (length es < fuel) × Enough fuel ts

module _ {A : Type 0} (visit : Entry → A → A) (at_map : A → A) where
  abbrev pub fold_entries : List Entry → A → A
  fold_entries [] a = a
  fold_entries (x ∷ xs) a = fold_entries xs (visit x a)

  abbrev pub fold_tags : List Tag → A → A
  fold_tags [] a = a
  fold_tags (other ∷ ts) a = fold_tags ts a
  fold_tags (memory_map es ∷ ts) a = fold_tags ts (fold_entries es (at_map a))

  walk_entries-fold_entries :
      (fuel : ℕ) (b : ℕ → ℕ) (size e stop : ℕ) (es : List Entry) (a : A)
      → Entries b size e stop es
      → length es < fuel
      → walk_entries visit at_map fuel b size e stop a ≡ some (fold_entries es a)
  unfolding walk_entries
  walk_entries-fold_entries zero b size e stop es a w l = absurd (omega arith)
  walk_entries-fold_entries (suc fuel) b size e stop [] a w l =
      let x : ltb e stop ≡ false = ground arith in rw x refl
  walk_entries-fold_entries (suc fuel) b size e stop (y ∷ ys) a w l =
      let q = w.0 in
      let x : ltb e stop ≡ true = ground (arith, q) in
      rw x (
        walk_entries-fold_entries fuel b size (e + size) stop ys (visit (entry_at b e) a) w.2
          (omega arith)
        ∙ ap (λ t. some (fold_entries ys (visit t a))) w.1)

  -- With enough fuel the walk ends, and it is the fold over the tags.
  pub walk_tags-fold_tags :
      (fuel : ℕ) (b : ℕ → ℕ) (p stop : ℕ) (ts : List Tag) (a : A)
      → Tags b p stop ts
      → Enough fuel ts
      → walk_tags visit at_map fuel b p stop a ≡ some (fold_tags ts a)
  unfolding walk_tags
  walk_tags-fold_tags zero b p stop [] a w l = absurd (omega arith)
  walk_tags-fold_tags zero b p stop (t ∷ ts) a w l = elim l [ ]
  walk_tags-fold_tags (suc fuel) b p stop [] a w l = elim (Bool-cases (ltb p stop)) [
    | inr x ↦ rw x refl
    | inl x ↦
        let z : tag_type b p ≡ 0 = elim w [ inl q ↦ absurd (ground (arith, x, q)) | inr q ↦ q ] in
        let y : (tag_type b p == 0) ≡ true = ground (arith, z) in rw (x, y) refl
  ]
  walk_tags-fold_tags (suc fuel) b p stop (other ∷ ts) a w l =
      let q = w.0 in
      let n = w.1 in
      let m = w.2 in
      let x : ltb p stop ≡ true = ground (arith, q) in
      let y : (tag_type b p == 0) ≡ false = ground (arith, n) in
      let z : (tag_type b p == 6) ≡ false = ground (arith, m) in
      rw (x, y, z) (walk_tags-fold_tags fuel b (next_tag b p) stop ts a w.3 l)
  walk_tags-fold_tags (suc fuel) b p stop (memory_map es ∷ ts) a w l =
      let q = w.0 in
      let m = w.1 in
      let x : ltb p stop ≡ true = ground (arith, q) in
      let y : (tag_type b p == 0) ≡ false = ground (arith, m) in
      let z : (tag_type b p == 6) ≡ true = ground (arith, m) in
      let e =
        walk_entries-fold_entries fuel b (entry_size b p) (p + 16) (p + tag_size b p) es (at_map a)
          w.2 l.0 in
      rw (x, y, z, e)
        (walk_tags-fold_tags fuel b (next_tag b p) stop ts (fold_entries es (at_map a)) w.3 l.1)
