-- ===== src/Vmm/Lookup.antt =====
-- The mapping table of src/vmm.c as a finite map: what a translation gives after a page is mapped or
-- unmapped.
use a_lightweight_os.Base.{
  ℕ, zero, suc, ◌+◌, ◌-◌, ◌<◌, ◌≤◌, ◌≡◌, ◌≢◌, refl, sym, ◌∙◌, inl, inr, Bool, true, false, not,
  ◌&&◌, Option, none, some, ltb, leb, ◌==◌, if◌then◌else◌, update, arith, ap, subst, Bool-cases,
  ==_refl, find_first, First, find_first-First, find_first-ext, find_first-suc, First-unique,
  or_else,
}
use a_lightweight_os.Vmm.{
  Vmm, Mapping, max_mappings, map_page, is_mapping, shift, remove_at, lookup, unmap_page,
  address_at, translate,
}

abbrev pub is_some : Option ℕ → Bool
is_some none = false
is_some (some i) = true

abbrev pub appended : ℕ → ℕ → ℕ → Vmm → Vmm
appended a p f v = record {
  mappings = update v.mappings v.mapping_count (record { vaddr = a; paddr = p; flags = f });
  mapping_count = v.mapping_count + 1;
}

map_page-appended :
    (a p f : ℕ) (v : Vmm) → v.mapping_count < max_mappings → map_page a p f v ≡ appended a p f v
unfolding map_page
map_page-appended a p f v l =
    let e : leb max_mappings v.mapping_count ≡ false = ground arith in rw e refl

lookup-appended :
    (a p f w : ℕ) (v : Vmm)
    → lookup w (appended a p f v)
      ≡ or_else (lookup w v) (if a == w then some v.mapping_count else none)
unfolding lookup is_mapping
lookup-appended a p f w v =
    let c = v.mapping_count in
    let ts = (appended a p f v).mappings in
    let e : c + 1 ≡ suc c = omega arith in
    let z : zero + c ≡ c = omega arith in
    ap (λ n. find_first (is_mapping ts w) n 0) e
    ∙ find_first-suc (is_mapping ts w) c 0
    ∙ rw (find_first-ext (is_mapping ts w) (is_mapping v.mappings w) c 0 (λ k l. ground arith), z)
        (ground arith)

-- The mapping that is found lies in the table.
lookup_bound : (w : ℕ) (v : Vmm) (i : ℕ) → lookup w v ≡ some i → i < v.mapping_count
unfolding lookup
lookup_bound w v i e =
    let b =
      (subst (First (is_mapping v.mappings w) v.mapping_count 0) e
        (find_first-First (is_mapping v.mappings w) v.mapping_count 0)).1 in
    omega (arith, b)

-- While the table has room, mapping a page makes the address translate to the new frame if it was not
-- mapped before; a page that was mapped keeps its first frame, and so does every other address.
translate-map_page :
    (a p f w : ℕ) (v : Vmm)
    → v.mapping_count < max_mappings
    → translate w (map_page a p f v)
      ≡ (if (a == w) && not (is_some (lookup a v)) then p else translate w v)
unfolding translate address_at
translate-map_page a p f w v l =
    ap (translate w) (map_page-appended a p f v l)
    ∙ ap (address_at ts) (lookup-appended a p f w v)
    ∙ split (lookup w v) refl
  where
    ts : ℕ → Mapping
    ts = (appended a p f v).mappings

    same : (o : Option ℕ) → lookup w v ≡ o → (a == w) ≡ true → is_some (lookup a v) ≡ is_some o
    same o e q = ap is_some (ap (λ t. lookup t v) (let k : a ≡ w = ground arith in k) ∙ e)

    split :
        (o : Option ℕ)
        → lookup w v ≡ o
        → address_at ts (or_else o (if a == w then some v.mapping_count else none))
          ≡ (if (a == w) && not (is_some (lookup a v)) then p else address_at v.mappings o)
    split none e = elim (Bool-cases (a == w)) [
      | inl q ↦ rw (q, same none e q) (let z = ==_refl v.mapping_count in ground arith)
      | inr q ↦ rw q refl
    ]
    split (some j) e =
        let b = lookup_bound w v j e in
        let n : (v.mapping_count == j) ≡ false = ground arith in
        let kept : ts j ≡ v.mappings j = rw n refl in
        elim (Bool-cases (a == w)) [
          | inl q ↦ rw (q, same (some j) e q) (ap (λ m. m.paddr) kept)
          | inr q ↦ rw q (ap (λ m. m.paddr) kept)
        ]

-- The loop of vmm_unmap_page moves the mappings behind the removed one down by one place.
shift-at :
    (n j : ℕ) (ms : ℕ → Mapping) (k : ℕ)
    → shift n j ms k ≡ (if leb j k && ltb k (j + n) then ms (k + 1) else ms k)
unfolding shift
shift-at zero j ms k = let e : (leb j k && ltb k (j + 0)) ≡ false = ground arith in rw e refl
shift-at (suc n) j ms k =
    shift-at n (j + 1) (update ms j (ms (j + 1))) k ∙ elim (Bool-cases (j == k)) [
      | inl q ↦
          let e : (leb (j + 1) k && ltb k (j + 1 + n)) ≡ false = ground arith in
          let f : (leb j k && ltb k (j + suc n)) ≡ true = ground arith in
          rw (e, f, q) (ap (λ t. ms (t + 1)) (let z : j ≡ k = ground arith in z))
      | inr q ↦
          let e : (leb (j + 1) k && ltb k (j + 1 + n)) ≡ (leb j k && ltb k (j + suc n)) =
            ground arith in
          rw (e, q) (moved q (leb j k && ltb k (j + suc n)) refl)
    ]
  where
    moved :
        (j == k) ≡ false
        → (b : Bool) → (leb j k && ltb k (j + suc n)) ≡ b
        → (if b then update ms j (ms (j + 1)) (k + 1) else ms k) ≡ (if b then ms (k + 1) else ms k)
    moved q true e = let z : (j == k + 1) ≡ false = ground arith in rw z refl
    moved q false e = refl

-- Where a mapping goes once the one at `i` is removed, and where the mapping at `k` came from.
abbrev lowered : ℕ → ℕ → ℕ
lowered i j = if ltb i j then j - 1 else j

abbrev raised : ℕ → ℕ → ℕ
raised i k = if ltb k i then k else k + 1

removed-at :
    (v : Vmm) (i k : ℕ)
    → i < v.mapping_count
    → k + 1 < v.mapping_count
    → (remove_at (some i) v).mappings k ≡ v.mappings (raised i k)
unfolding remove_at
removed-at v i k a b = shift-at (v.mapping_count - 1 - i) i v.mappings k ∙ go (ltb k i) refl
  where
    go :
        (c : Bool)
        → ltb k i ≡ c
        → (if leb i k && ltb k (i + (v.mapping_count - 1 - i))
            then v.mappings (k + 1)
            else v.mappings k)
          ≡ v.mappings (if c then k else k + 1)
    go true e =
        let t : (leb i k && ltb k (i + (v.mapping_count - 1 - i))) ≡ false = ground arith in
        rw t refl
    go false e =
        let t : (leb i k && ltb k (i + (v.mapping_count - 1 - i))) ≡ true = ground arith in
        rw t refl

-- The other addresses are found again after a removal.
lookup-remove_at :
    (v : Vmm) (i w : ℕ)
    → i < v.mapping_count
    → is_mapping v.mappings w i ≡ false
    → lookup w (remove_at (some i) v)
      ≡ (elim (lookup w v) [ none ↦ none | some j ↦ some (lowered i j) ])
unfolding lookup remove_at is_mapping
lookup-remove_at v i w a n =
    First-unique test' (v.mapping_count - 1) 0 _ _ (find_first-First test' (v.mapping_count - 1) 0)
      (go (find_first test v.mapping_count 0) (find_first-First test v.mapping_count 0))
  where
    test : ℕ → Bool
    test = is_mapping v.mappings w

    test' : ℕ → Bool
    test' = is_mapping (remove_at (some i) v).mappings w

    agree : (k : ℕ) → k + 1 ≤ v.mapping_count - 1 → test' k ≡ test (raised i k)
    agree k b = ap (λ (m : Mapping). m.vaddr == w) (removed-at v i k a (omega arith))

    differ : (j : ℕ) → test j ≡ true → (i == j) ≡ false
    differ j e = elim (Bool-cases (i == j)) [
      | inl q ↦ absurd (let h = sym n ∙ ap test (let z : i ≡ j = ground arith in z) ∙ e in cc)
      | inr q ↦ q
    ]

    go :
        (o : Option ℕ)
        → First test v.mapping_count 0 o
        → First test' (v.mapping_count - 1) 0 (elim o [ none ↦ none | some j ↦ some (lowered i j) ])
    go none f = λ k l m. agree k (omega arith) ∙ f (raised i k) (omega arith) (ground arith)
    go (some j) f =
        let d = differ j f.2 in
        let b : j < v.mapping_count = omega (arith, f.1) in
        let back : raised i (lowered i j) ≡ j = ground arith in
        let low : lowered i j + 1 ≤ v.mapping_count - 1 = ground arith in
        (
          omega arith,
          omega (arith, low),
          agree (lowered i j) low ∙ ap test back ∙ f.2,
          λ k l m. agree k (omega (arith, low)) ∙ f.3 (raised i k) (omega arith) (ground arith),
        )

-- What is found passes the test.
lookup_hit : (w : ℕ) (v : Vmm) (i : ℕ) → lookup w v ≡ some i → (v.mappings i).vaddr ≡ w
unfolding lookup is_mapping
lookup_hit w v i e =
    let b =
      (subst (First (is_mapping v.mappings w) v.mapping_count 0) e
        (find_first-First (is_mapping v.mappings w) v.mapping_count 0)).2 in
    ground (arith, b)

-- Unmapping a page leaves the translation of every other address as it was.
translate-unmap_page : (a w : ℕ) (v : Vmm) → w ≢ a → translate w (unmap_page a v) ≡ translate w v
unfolding unmap_page translate address_at is_mapping
translate-unmap_page a w v n = go (lookup a v) refl
  where
    go : (o : Option ℕ) → lookup a v ≡ o → translate w (remove_at o v) ≡ translate w v
    go none e = refl
    go (some i) e =
        ap (address_at (remove_at (some i) v).mappings) (lookup-remove_at v i w below other)
        ∙ found (lookup w v) refl
      where
        below : i < v.mapping_count
        below = lookup_bound a v i e

        other : is_mapping v.mappings w i ≡ false
        other = let h = lookup_hit a v i e in ground (arith, n)

        found :
            (o : Option ℕ)
            → lookup w v ≡ o
            → address_at
                (remove_at (some i) v).mappings
                (elim o [ none ↦ none | some j ↦ some (lowered i j) ])
              ≡ address_at v.mappings o
        found none q = refl
        found (some j) q =
            let b = lookup_bound w v j q in
            let h = lookup_hit w v j q in
            let d : i ≢ j =
              λ z. n (sym h ∙ ap (λ t. (v.mappings t).vaddr) (sym z) ∙ lookup_hit a v i e) in
            let back : raised i (lowered i j) ≡ j = ground (arith, d) in
            let low : lowered i j + 1 < v.mapping_count = ground (arith, d, below) in
            ap (λ (m : Mapping). m.paddr)
              (removed-at v i (lowered i j) below low ∙ ap v.mappings back)

-- Removing the mapping that was just appended leaves the address unmapped, if it was.
lookup-removed :
    (a p f : ℕ) (v : Vmm)
    → lookup a v ≡ none
    → lookup a (remove_at (some v.mapping_count) (appended a p f v)) ≡ none
unfolding lookup remove_at is_mapping
lookup-removed a p f v e =
    First-unique (is_mapping (remove_at (some c) w).mappings a) (w.mapping_count - 1) 0 _ none
      (find_first-First (is_mapping (remove_at (some c) w).mappings a) (w.mapping_count - 1) 0)
      (λ k z b.
        let l : k < c = omega arith in
        let r : raised c k ≡ k = ground arith in
        let o : (c == k) ≡ false = ground arith in
        let m : (remove_at (some c) w).mappings k ≡ v.mappings k =
          removed-at w c k (omega arith) (omega arith) ∙ ap w.mappings r ∙ rw o refl in
        ap (λ (t : Mapping). t.vaddr == a) m ∙ none_before k (omega arith) (omega arith))
  where
    c : ℕ
    c = v.mapping_count

    w : Vmm
    w = appended a p f v

    none_before : First (is_mapping v.mappings a) v.mapping_count 0 none
    none_before =
        subst (First (is_mapping v.mappings a) v.mapping_count 0) e
          (find_first-First (is_mapping v.mappings a) v.mapping_count 0)

-- A page that was not mapped, mapped and unmapped again, leaves every translation as it was.
unmap_page-map_page :
    (a p f w : ℕ) (v : Vmm)
    → v.mapping_count < max_mappings
    → lookup a v ≡ none
    → translate w (unmap_page a (map_page a p f v)) ≡ translate w v
unfolding unmap_page translate address_at
unmap_page-map_page a p f w v l e = elim (Bool-cases (a == w)) [
  | inl q ↦
      let z : a ≡ w = ground arith in
      subst (λ t. translate t (unmap_page a (map_page a p f v)) ≡ translate t v) z gone
  | inr q ↦
      translate-unmap_page a w (map_page a p f v) (ground arith)
      ∙ translate-map_page a p f w v l
      ∙ rw q refl
]
  where
    found : lookup a (appended a p f v) ≡ some v.mapping_count
    found = lookup-appended a p f a v ∙ rw (e, ==_refl a) refl

    gone : translate a (unmap_page a (map_page a p f v)) ≡ translate a v
    gone =
        ap (λ t. translate a (unmap_page a t)) (map_page-appended a p f v l)
        ∙ ap (λ o. translate a (remove_at o (appended a p f v))) found
        ∙ ap (address_at (remove_at (some v.mapping_count) (appended a p f v)).mappings)
            (lookup-removed a p f v e)
        ∙ ap (address_at v.mappings) (sym e)

-- While the table has room, mapping a page makes its address translate to the new frame if it was not
-- mapped before; a page that was mapped keeps its first frame, and so does every other address.
-- Unmapping a page leaves the translation of every other address as it was.
pub translate-edits :
    (a p f w u : ℕ) (v : Vmm)
    → v.mapping_count < max_mappings
    → u ≢ a
    → (translate w (map_page a p f v)
        ≡ (if (a == w) && not (is_some (lookup a v)) then p else translate w v))
      × (translate u (unmap_page a v) ≡ translate u v)
translate-edits a p f w u v l n = (translate-map_page a p f w v l, translate-unmap_page a u v n)
