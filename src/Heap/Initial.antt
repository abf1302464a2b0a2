-- ===== src/Heap/Initial.antt =====
-- heap_initialize of src/heap.c.
use a_lightweight_os.Base.{
  ℕ, ◌+◌, ◌*◌, ◌<◌, ◌≡◌, inl, true, false, ltb, arith, ap, sym, ◌∙◌, refl, subst, not, count,
  count-ext, for_up, for_up-fill, update,
}
use a_lightweight_os.Heap.{
  Block, Cache, Heap, is_free, initialize, initialize_slab_caches, initialize_buddy_blocks,
}
use a_lightweight_os.Heap.Invariant.{IsCache, IsBlocks, IsHeap}

abbrev initial_object : ℕ → ℕ → Block
initial_object c i = record {
  address = 0x100000 + c * 0x10000 + i * 512;
  size = 0;
  used = false;
  owner = 0;
}

initial_objects :
    (c : ℕ) (k : ℕ → Block) (i : ℕ)
    → i < 32
    → for_up 32 (λ i os. update os i (initial_object c i)) k i ≡ initial_object c i
initial_objects c k i l =
    for_up-fill (λ i _. initial_object c i) 32 k i
    ∙ (let t : ltb i 32 ≡ true = ground arith in rw t refl)

abbrev initial_cache : ℕ → Cache → Cache
initial_cache c k = record {
  objects = for_up 32 (λ i os. update os i (initial_object c i)) k.objects;
  free_count = 32;
}

all_true : count (λ _. true) 32 ≡ 32
unfolding count
all_true = refl

initial_cache-IsCache : (c : ℕ) (k : Cache) → IsCache c (initial_cache c k)
unfolding is_free
initial_cache-IsCache c k = record {
  placed = λ i l. ap (λ b. b.address) (initial_objects c k.objects i l);
  counted =
      count-ext _ (λ _. true) 32 (λ i l. ap (λ b. not b.used) (initial_objects c k.objects i l))
      ∙ all_true;
  sized = λ i l u. absurd (let e = ap (λ b. b.used) (initial_objects c k.objects i l) in cc);
}

abbrev initial_block : ℕ → Block
initial_block i = record {
  address = 0x200000 + i * 0x100000;
  size = 0x100000;
  used = false;
  owner = 0;
}

start_block :
    (bs : ℕ → Block) (i : ℕ)
    → i < 64
    → for_up 64 (λ i bs. update bs i (initial_block i)) bs i ≡ initial_block i
start_block bs i l =
    for_up-fill (λ i _. initial_block i) 64 bs i
    ∙ (let t : ltb i 64 ≡ true = ground arith in rw t refl)

start-IsBlocks : (bs : ℕ → Block) → IsBlocks (for_up 64 (λ i bs. update bs i (initial_block i)) bs)
start-IsBlocks bs = record {
  located = λ i l. ap (λ b. b.address) (start_block bs i l);
  fitted = λ i l. inl (let e = ap (λ b. b.size) (start_block bs i l) in omega arith);
  alive = λ i l u. absurd (let e = ap (λ b. b.used) (start_block bs i l) in cc);
}

-- Initialisation gives a valid heap, whatever the memory held.
pub initialize-IsHeap : (h : Heap) → IsHeap (initialize h)
unfolding initialize initialize_slab_caches initialize_buddy_blocks
initialize-IsHeap h = record {
  caches_valid =
      λ c l. subst (IsCache c) (sym (cache_at c l)) (initial_cache-IsCache c (h.caches c));
  blocks_valid = start-IsBlocks h.blocks;
  block_number = refl;
}
  where
    cache_at :
        (c : ℕ)
        → c < 5
        → for_up 5 (λ c cs. update cs c (initial_cache c (cs c))) h.caches c
          ≡ initial_cache c (h.caches c)
    cache_at c l =
        for_up-fill initial_cache 5 h.caches c
        ∙ (let t : ltb c 5 ≡ true = ground arith in rw t refl)
