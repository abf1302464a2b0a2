-- ===== src/Heap/Free.antt =====
-- kfree of src/heap.c.
use a_lightweight_os.Base.{
  ℕ, zero, suc, ◌+◌, ◌<◌, ◌≤◌, ◌≡◌, refl, sym, ◌∙◌, ◌⊎◌, inl, inr, Bool, true, false, not, Option,
  none, some, ◌==◌, update, arith, ap, subst, Bool-cases, ==_refl, count-turn_on, count-le,
  find_first, First, find_first-First, if_cases, u32,
}
use a_lightweight_os.Heap.{
  Block, Cache, Heap, is_free, free_owner, is_used_at, object_at, find_object, free_object,
  free_block, free_at, kfree,
}
use a_lightweight_os.Heap.Invariant.{IsCache, IsBlocks, IsHeap}

abbrev freed : (ℕ → Block) → ℕ → ℕ → Block
freed os i =
    update os i (record { address = (os i).address; size = 0; used = false; owner = free_owner })

freed-IsCache :
    (c : ℕ) (k : Cache) (i : ℕ)
    → IsCache c k
    → i < 32
    → (k.objects i).used ≡ true
    → IsCache c (record { objects = freed k.objects i; free_count = u32 (k.free_count + 1) })
unfolding is_free
freed-IsCache c k i v l u = record {
  placed = λ j m. elim (Bool-cases (i == j)) [
    | inl e ↦
        rw e (ap (λ t. (k.objects t).address) (let z : i ≡ j = ground arith in z) ∙ v.placed j m)
    | inr e ↦ rw e (v.placed j m)
  ];
  counted =
      let n =
        count-turn_on (is_free k.objects) (is_free (freed k.objects i)) 32 i l (ap not u)
          (rw (==_refl i) refl)
          (λ j d. let e : (i == j) ≡ false = ground (arith, d) in rw e refl) in
      omega (arith, n, v.counted, count-le (is_free (freed k.objects i)) 32);
  sized = λ j m. elim (Bool-cases (i == j)) [
    | inl e ↦ rw e (λ _. omega arith)
    | inr e ↦ rw e (v.sized j m)
  ];
}

-- What the search through the caches gives.
abbrev pub FoundObject : (ℕ → Cache) → ℕ → ℕ → ℕ → Option (ℕ × ℕ) → Type 0
FoundObject cs address n c none =
    (d i : ℕ) → c ≤ d → d < c + n → i < 32 → is_used_at (cs d).objects address i ≡ false
FoundObject cs address n c (some (d, i)) =
    (c ≤ d) × (d < c + n) × (i < 32) × (is_used_at (cs d).objects address i ≡ true)

pub find_object-FoundObject :
    (cs : ℕ → Cache) (address n c : ℕ) → FoundObject cs address n c (find_object cs address n c)
unfolding find_object object_at
find_object-FoundObject cs address zero c = λ d i a b. absurd (omega arith)
find_object-FoundObject cs address (suc n) c =
    here (find_first (is_used_at (cs c).objects address) 32 0)
      (find_first-First (is_used_at (cs c).objects address) 32 0) (find_object cs address n (c + 1))
      (find_object-FoundObject cs address n (c + 1))
  where
    here :
        (o : Option ℕ)
        → First (is_used_at (cs c).objects address) 32 0 o
        → (r : Option (ℕ × ℕ)) → FoundObject cs address n (c + 1) r
        → FoundObject cs address
            (suc n)
            c
            (elim o as (λ _. Option (ℕ × ℕ)) [ none ↦ r | some i ↦ some (c, i) ])
    here (some i) f r g = (ground arith, omega arith, omega (arith, f.1), f.2)
    here none f none g = λ d i a b l. elim (Bool-cases (c == d)) [
      | inl e ↦
          subst (λ t. is_used_at (cs t).objects address i ≡ false)
            (let z : c ≡ d = ground arith in z) (f i (omega arith) (omega arith))
      | inr e ↦ g d i (ground arith) (omega arith) l
    ]
    here none f (some (d, i)) g = (omega (arith, g.0), omega (arith, g.1), g.2, g.3)

free_object-IsHeap :
    (c i : ℕ) (h : Heap)
    → c < 5
    → i < 32
    → ((h.caches c).objects i).used ≡ true
    → IsHeap h
    → IsHeap (free_object c i h)
unfolding free_object
free_object-IsHeap c i h l m u v = record {
  caches_valid = λ d k. elim (Bool-cases (c == d)) [
    | inl e ↦
        let z : c ≡ d = ground arith in
        let k' : Cache = record {
          objects = freed (h.caches c).objects i;
          free_count = u32 ((h.caches c).free_count + 1);
        } in
        rw e (subst (λ t. IsCache t k') z (freed-IsCache c (h.caches c) i (v.caches_valid c l) m u))
    | inr e ↦ rw e (v.caches_valid d k)
  ];
  blocks_valid = v.blocks_valid;
  block_number = v.block_number;
}

idle-IsBlocks :
    (bs : ℕ → Block) (i : ℕ)
    → IsBlocks bs
    → IsBlocks (update bs i (record (bs i) { used = false; owner = free_owner }))
idle-IsBlocks bs i v = record {
  located = λ j m. (same j).0 ∙ v.located j m;
  fitted = λ j m.
      subst (λ s. (s ≤ 0x100000) ⊎ ((s ≤ 0x200000) × (j + 1 < 64) × ((new (j + 1)).size ≡ 0)))
        (sym (same j).1)
        (subst (λ t. ((bs j).size ≤ 0x100000) ⊎ (((bs j).size ≤ 0x200000) × (j + 1 < 64) × (t ≡ 0)))
          (sym (same (j + 1)).1) (v.fitted j m));
  alive = λ j m. elim (Bool-cases (i == j)) [
    | inl e ↦ rw e (λ u. absurd (cc))
    | inr e ↦ rw e (v.alive j m)
  ];
}
  where
    new : ℕ → Block
    new = update bs i (record (bs i) { used = false; owner = free_owner })

    same : (j : ℕ) → ((new j).address ≡ (bs j).address) × ((new j).size ≡ (bs j).size)
    same j = elim (Bool-cases (i == j)) [
      | inl e ↦
          let z : i ≡ j = ground arith in rw e (ap (λ t. (bs t).address) z, ap (λ t. (bs t).size) z)
      | inr e ↦ rw e (refl, refl)
    ]

-- Freeing any pointer keeps the invariant, whether it is one of an object, of a block or of nothing.
pub kfree-IsHeap : (address : ℕ) (h : Heap) → IsHeap h → IsHeap (kfree address h).0
unfolding kfree free_at free_block is_used_at
kfree-IsHeap address h v =
    if_cases (λ (r : Heap × Bool). IsHeap r.0) (address == 0) (h, true) _ (λ _. v)
      (λ _. go (find_object h.caches address 5 0) (find_object-FoundObject h.caches address 5 0))
  where
    block_at : (o : Option ℕ) → IsHeap (free_block h o).0
    block_at none = v
    block_at (some i) = record {
      caches_valid = v.caches_valid;
      blocks_valid = idle-IsBlocks h.blocks i v.blocks_valid;
      block_number = v.block_number;
    }

    go : (o : Option (ℕ × ℕ)) → FoundObject h.caches address 5 0 o → IsHeap (free_at address h o).0
    go none f = block_at (find_first (is_used_at h.blocks address) h.block_count 0)
    go (some (c, i)) f =
        let u = f.3 in free_object-IsHeap c i h (omega (arith, f.1)) f.2 (ground arith) v
