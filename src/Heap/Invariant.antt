-- ===== src/Heap/Invariant.antt =====
-- The invariant of src/heap.c: each cache counts its free objects, each block lies in its place, and a
-- block that is longer than its place stands before a dead one.
use a_lightweight_os.Base.{
  ℕ, zero, suc, ◌+◌, ◌-◌, ◌*◌, ◌<◌, ◌≤◌, ◌≡◌, refl, sym, ◌∙◌, ◌⊎◌, inl, inr, true, false, not,
  Option, none, some, ◌==◌, update, arith, ap, subst, Bool-cases, ==_refl, if_cases, count,
  count-turn_on, count-le, find_first, First, find_first-First, for_up, u32,
}
use a_lightweight_os.Heap.{
  Block, Cache, Heap, is_free, take_block, fits, can_merge, merge, merged_owner, kmalloc,
  allocate_block, allocate_buddy, allocate_object, cache_index, coalesce,
}

pub record IsCache (c : ℕ) (k : Cache) : Type 0 where
  pub placed : (i : ℕ) → i < 32 → (k.objects i).address ≡ 0x100000 + c * 0x10000 + i * 512
  pub counted : count (is_free k.objects) 32 ≡ k.free_count
  pub sized : (i : ℕ) → i < 32 → (k.objects i).used ≡ true → (k.objects i).size ≤ 256

-- A block has at most its own place of 1 MB, or two places if the next block is dead.
abbrev pub Sized : (ℕ → Block) → ℕ → Type 0
Sized bs i =
    ((bs i).size ≤ 0x100000) ⊎ (((bs i).size ≤ 0x200000) × (i + 1 < 64) × ((bs (i + 1)).size ≡ 0))

pub record IsBlocks (bs : ℕ → Block) : Type 0 where
  pub located : (i : ℕ) → i < 64 → (bs i).address ≡ 0x200000 + i * 0x100000
  pub fitted : (i : ℕ) → i < 64 → Sized bs i
  pub alive : (i : ℕ) → i < 64 → (bs i).used ≡ true → 0 < (bs i).size

pub record IsHeap (h : Heap) : Type 0 where
  pub caches_valid : (c : ℕ) → c < 5 → IsCache c (h.caches c)
  pub blocks_valid : IsBlocks h.blocks
  pub block_number : h.block_count ≡ 64

take_block-IsCache :
    (c : ℕ) (k : Cache) (size owner i : ℕ)
    → IsCache c k
    → i < 32
    → (k.objects i).used ≡ false
    → size ≤ 256
    → IsCache c (record {
      objects = take_block size owner k.objects i;
      free_count = u32 (k.free_count + 0xFFFFFFFF);
    })
unfolding take_block is_free
take_block-IsCache c k size owner i v l u b = record {
  placed = λ j m. elim (Bool-cases (i == j)) [
    | inl e ↦
        rw e (ap (λ t. (k.objects t).address) (let z : i ≡ j = ground arith in z) ∙ v.placed j m)
    | inr e ↦ rw e (v.placed j m)
  ];
  counted =
      let new =
        update k.objects i
          (record { address = (k.objects i).address; size = size; used = true; owner = owner }) in
      let n =
        count-turn_on (is_free new) (is_free k.objects) 32 i l (rw (==_refl i) refl) (ap not u)
          (λ j d. let e : (i == j) ≡ false = ground (arith, d) in rw e refl) in
      omega (arith, n, v.counted, count-le (is_free k.objects) 32);
  sized = λ j m. elim (Bool-cases (i == j)) [ inl e ↦ rw e (λ _. b) | inr e ↦ rw e (v.sized j m) ];
}

take_block-IsBlocks :
    (bs : ℕ → Block) (size owner i : ℕ)
    → IsBlocks bs
    → i < 64
    → 0 < size
    → size ≤ (bs i).size
    → IsBlocks (take_block size owner bs i)
unfolding take_block
take_block-IsBlocks bs size owner i v l p b = record {
  located = λ j m. elim (Bool-cases (i == j)) [
    | inl e ↦ rw e (ap (λ t. (bs t).address) (let z : i ≡ j = ground arith in z) ∙ v.located j m)
    | inr e ↦ rw e (v.located j m)
  ];
  fitted = λ j m. elim (Bool-cases (i == j)) [
    | inl e ↦
        let z : i ≡ j = ground arith in
        let f : (i == j + 1) ≡ false = ground arith in
        rw (e, f)
          (elim (v.fitted i l) [
            | inl s ↦ inl (omega (arith, s))
            | inr s ↦
                inr
                  (omega (arith, s.0), omega (arith, s.1), subst (λ t. (bs (t + 1)).size ≡ 0) z s.2)
          ])
    | inr e ↦ elim (Bool-cases (i == j + 1)) [
      | inl f ↦
          let z : i ≡ j + 1 = ground arith in
          rw (e, f)
            (elim (v.fitted j m) [
              | inl s ↦ inl s
              | inr s ↦ absurd (let t = ap (λ k. (bs k).size) z in let s2 = s.2 in omega arith)
            ])
      | inr f ↦ rw (e, f) (v.fitted j m)
    ]
  ];
  alive = λ j m. elim (Bool-cases (i == j)) [ inl e ↦ rw e (λ _. p) | inr e ↦ rw e (v.alive j m) ];
}

merge-IsBlocks : (i : ℕ) (bs : ℕ → Block) → i + 1 < 64 → IsBlocks bs → IsBlocks (merge i bs)
unfolding merge can_merge
merge-IsBlocks i bs l v = if_cases IsBlocks (can_merge bs i) _ bs merged (λ _. v)
  where
    new : ℕ → Block
    new =
        update (update bs i (record (bs i) { size = (bs i).size * 2 })) (i + 1)
          (record (bs (i + 1)) { size = 0; owner = merged_owner })

    new-place : (j : ℕ) → ((new j).address ≡ (bs j).address) × ((new j).used ≡ (bs j).used)
    new-place j = elim (Bool-cases (i + 1 == j)) [
      | inl e ↦
          let z : i + 1 ≡ j = ground arith in
          rw e (ap (λ t. (bs t).address) z, ap (λ t. (bs t).used) z)
      | inr e ↦ elim (Bool-cases (i == j)) [
        | inl f ↦
            let z : i ≡ j = ground arith in
            rw (e, f) (ap (λ t. (bs t).address) z, ap (λ t. (bs t).used) z)
        | inr f ↦ rw (e, f) (refl, refl)
      ]
    ]

    dead_after :
        (j : ℕ)
        → (bs i).size ≡ 0x100000
        → (bs (j + 1)).size ≡ 0
        → (update bs i (record (bs i) { size = (bs i).size * 2 }) (j + 1)).size ≡ 0
    dead_after j x d = elim (Bool-cases (i == j + 1)) [
      | inl e ↦
          absurd
            (let z : i ≡ j + 1 = ground arith in let h = ap (λ t. (bs t).size) z in omega arith)
      | inr e ↦ rw e d
    ]

    merged : can_merge bs i ≡ true → IsBlocks new
    merged m =
        let exact : (bs i).size ≡ 0x100000 =
          let a = v.located i (omega arith) in let b = v.located (i + 1) l in ground (arith, m) in
        let idle : ((bs i).used ≡ false) × ((bs (i + 1)).used ≡ false) =
          (ground (arith, m), ground (arith, m)) in
        record {
          located = λ j k. (new-place j).0 ∙ v.located j k;
          fitted = λ j k. elim (Bool-cases (i + 1 == j)) [
            | inl e ↦ rw e (inl (omega arith))
            | inr e ↦ elim (Bool-cases (i == j)) [
              | inl f ↦
                  let g : (i + 1 == j + 1) ≡ true = ground arith in
                  let z : i ≡ j = ground arith in
                  rw (e, f, g) (inr (omega (arith, exact), omega (arith, z), refl))
              | inr f ↦
                  let g : (i + 1 == j + 1) ≡ false = ground arith in
                  rw (e, f, g)
                    (elim (v.fitted j k) [
                      | inl s ↦ inl s
                      | inr s ↦ inr (s.0, s.1, dead_after j exact s.2)
                    ])
            ]
          ];
          alive = λ j k u.
              let w : (bs j).used ≡ true = sym (new-place j).1 ∙ u in
              elim (Bool-cases (i + 1 == j)) [
                | inl e ↦ absurd (
                    let z : i + 1 ≡ j = ground arith in
                    let h = ap (λ t. (bs t).used) z in let h2 = idle.1 in cc)
                | inr e ↦ elim (Bool-cases (i == j)) [
                  | inl f ↦ absurd (
                      let z : i ≡ j = ground arith in
                      let h = ap (λ t. (bs t).used) z in let h2 = idle.0 in cc)
                  | inr f ↦ rw (e, f) (v.alive j k w)
                ]
              ];
        }

merges-IsBlocks : (n : ℕ) (bs : ℕ → Block) → n < 64 → IsBlocks bs → IsBlocks (for_up n merge bs)
merges-IsBlocks zero bs l v = v
merges-IsBlocks (suc n) bs l v =
    merge-IsBlocks n (for_up n merge bs) (omega arith) (merges-IsBlocks n bs (omega arith) v)

-- Coalescing the free blocks keeps the invariant.
pub coalesce-IsHeap : (h : Heap) → IsHeap h → IsHeap (coalesce h)
unfolding coalesce
coalesce-IsHeap h v = record {
  caches_valid = v.caches_valid;
  blocks_valid =
      let n = v.block_number in
      merges-IsBlocks (h.block_count - 1) h.blocks (omega arith) v.blocks_valid;
  block_number = v.block_number;
}

cache_index-bounds : (size c : ℕ) → cache_index size ≡ some c → (c < 5) × (size ≤ 256)
unfolding cache_index
cache_index-bounds size c e = ground arith

allocate_buddy-IsHeap :
    (size owner : ℕ) (h : Heap) → 0 < size → IsHeap h → IsHeap (allocate_buddy size owner h).0
unfolding allocate_buddy fits allocate_block
allocate_buddy-IsHeap size owner h p v =
    go (find_first (fits h.blocks size) h.block_count 0)
      (find_first-First (fits h.blocks size) h.block_count 0)
  where
    go :
        (o : Option ℕ)
        → First (fits h.blocks size) h.block_count 0 o
        → IsHeap (allocate_block size owner h o).0
    go none f = v
    go (some i) f = record {
      caches_valid = v.caches_valid;
      blocks_valid =
          let n = v.block_number in
          let b = f.1 in
          let t = f.2 in
          take_block-IsBlocks h.blocks size owner i v.blocks_valid (omega arith) p (ground arith);
      block_number = v.block_number;
    }

allocate_object-IsHeap :
    (size owner c : ℕ) (h : Heap)
    → 0 < size
    → c < 5
    → size ≤ 256
    → IsHeap h
    → IsHeap (allocate_object size owner c h (find_first (is_free (h.caches c).objects) 32 0)).0
unfolding allocate_object is_free
allocate_object-IsHeap size owner c h p l b v =
    go (find_first (is_free (h.caches c).objects) 32 0)
      (find_first-First (is_free (h.caches c).objects) 32 0)
  where
    go :
        (o : Option ℕ)
        → First (is_free (h.caches c).objects) 32 0 o
        → IsHeap (allocate_object size owner c h o).0
    go none f = allocate_buddy-IsHeap size owner h p v
    go (some i) f = record {
      caches_valid = λ d m. elim (Bool-cases (c == d)) [
        | inl e ↦
            let z : c ≡ d = ground arith in
            let t = f.2 in
            let taken : Cache = record {
              objects = take_block size owner (h.caches c).objects i;
              free_count = u32 ((h.caches c).free_count + 0xFFFFFFFF);
            } in
            rw e (
              subst (λ t. IsCache t taken) z
                (take_block-IsCache c (h.caches c) size owner i (v.caches_valid c l)
                  (omega (arith, f.1)) (ground arith) b))
        | inr e ↦ rw e (v.caches_valid d m)
      ];
      blocks_valid = v.blocks_valid;
      block_number = v.block_number;
    }

-- An allocation of any size keeps the invariant, whether it is served by a cache, by a block or not.
pub kmalloc-IsHeap : (size owner : ℕ) (h : Heap) → IsHeap h → IsHeap (kmalloc size owner h).0
unfolding kmalloc
kmalloc-IsHeap size owner h v =
    if_cases (λ (r : Heap × ℕ). IsHeap r.0) (size == 0) (h, 0) _ (λ _. v)
      (λ e. go (cache_index size) refl (ground arith))
  where
    go :
        (o : Option ℕ)
        → cache_index size ≡ o
        → 0 < size
        → IsHeap
            (elim o as (λ _. Heap × ℕ) [
              | none ↦ allocate_buddy size owner h
              | some c ↦
                  allocate_object size owner c h (find_first (is_free (h.caches c).objects) 32 0)
            ]).0
    go none e p = allocate_buddy-IsHeap size owner h p v
    go (some c) e p =
        let b = cache_index-bounds size c e in allocate_object-IsHeap size owner c h p b.0 b.1 v
