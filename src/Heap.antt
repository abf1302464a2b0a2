-- ===== src/Heap.antt =====
-- src/heap.c: the slab caches and the buddy blocks. An owner is a number, with 0 for "Free" and 1 for
-- "Merged"; the `next` pointers are always NULL and are left out. The address 0 is NULL.
pub mod Invariant
pub mod Free
pub mod Regions
pub mod Reachable
pub mod Initial
mod Tests
use a_lightweight_os.Base.{
  ℕ, zero, suc, ◌+◌, ◌-◌, ◌*◌, Bool, true, false, not, ◌&&◌, Option, none, some, leb, ◌==◌,
  if◌then◌else◌, update, find_first, for_up, u32,
}

-- slab_object_t and buddy_block_t have the same fields.
pub record Block : Type 0 where
  pub address : ℕ
  pub size : ℕ
  pub used : Bool
  pub owner : ℕ

pub record Cache : Type 0 where
  pub objects : ℕ → Block
  pub free_count : ℕ

pub record Heap : Type 0 where
  pub caches : ℕ → Cache
  pub blocks : ℕ → Block
  pub block_count : ℕ

abbrev pub objects_per_cache : ℕ
objects_per_cache = 32

abbrev pub max_blocks : ℕ
max_blocks = 64

abbrev pub free_owner : ℕ
free_owner = 0

abbrev pub merged_owner : ℕ
merged_owner = 1

pub initialize_slab_caches : (ℕ → Cache) → ℕ → Cache
initialize_slab_caches = for_up 5 (λ c cs. update cs c (record {
  objects =
      for_up objects_per_cache
        (λ i os. update os i (record {
          address = 0x100000 + c * 0x10000 + i * 512;
          size = 0;
          used = false;
          owner = free_owner;
        }))
        (cs c).objects;
  free_count = objects_per_cache;
}))

pub initialize_buddy_blocks : (ℕ → Block) → ℕ → Block
initialize_buddy_blocks = for_up max_blocks (λ i bs. update bs i (record {
  address = 0x200000 + i * 0x100000;
  size = 0x100000;
  used = false;
  owner = free_owner;
}))

pub initialize : Heap → Heap
unfolding initialize_slab_caches initialize_buddy_blocks
initialize h = record {
  caches = initialize_slab_caches h.caches;
  blocks = initialize_buddy_blocks h.blocks;
  block_count = max_blocks;
}

-- The slab cache for a size, `none` for one above 256.
unfoldable pub cache_index : ℕ → Option ℕ
cache_index size =
    if leb size 16
    then some 0
    else if leb size 32
    then some 1
    else if leb size 64
    then some 2
    else if leb size 128
    then some 3
    else if leb size 256
    then some 4
    else none

pub is_free : (ℕ → Block) → ℕ → Bool
is_free bs i = not (bs i).used

pub take_block : ℕ → ℕ → (ℕ → Block) → ℕ → ℕ → Block
take_block size owner bs i =
    update bs i (record { address = (bs i).address; size = size; used = true; owner = owner })

-- `!buddy_blocks[i].used && buddy_blocks[i].size >= size`
unfoldable pub fits : (ℕ → Block) → ℕ → ℕ → Bool
fits bs size i = not (bs i).used && leb size (bs i).size

unfoldable pub allocate_block : ℕ → ℕ → Heap → Option ℕ → Heap × ℕ
unfolding take_block
allocate_block size owner h none = (h, 0)
allocate_block size owner h (some i) =
    (record h { blocks = take_block size owner h.blocks i }, (h.blocks i).address)

-- The fallback to the buddy blocks.
unfoldable pub allocate_buddy : ℕ → ℕ → Heap → Heap × ℕ
unfolding fits allocate_block
allocate_buddy size owner h =
    allocate_block size owner h (find_first (fits h.blocks size) h.block_count 0)

pub allocate_object : ℕ → ℕ → ℕ → Heap → Option ℕ → Heap × ℕ
unfolding take_block allocate_buddy
allocate_object size owner c h none = allocate_buddy size owner h
allocate_object size owner c h (some i) = (
  record h {
    caches = update h.caches c (record {
      objects = take_block size owner (h.caches c).objects i;
      free_count = u32 ((h.caches c).free_count + 0xFFFFFFFF);
    });
  },
  ((h.caches c).objects i).address,
)

unfoldable pub kmalloc : ℕ → ℕ → Heap → Heap × ℕ
unfolding cache_index is_free allocate_object allocate_buddy
kmalloc size owner h = if size == 0 then (h, 0) else elim (cache_index size) [
  | none ↦ allocate_buddy size owner h
  | some c ↦
      allocate_object size owner c h (find_first (is_free (h.caches c).objects) objects_per_cache 0)
]

-- `objects[i].address == addr && objects[i].used`
pub is_used_at : (ℕ → Block) → ℕ → ℕ → Bool
is_used_at bs address i = ((bs i).address == address) && (bs i).used

pub object_at : (ℕ → Cache) → ℕ → ℕ → Option ℕ
unfolding is_used_at
object_at cs address c = find_first (is_used_at (cs c).objects address) objects_per_cache 0

-- The two nested loops over the caches: the cache and the object, with `n` caches left from `c` on.
pub find_object : (ℕ → Cache) → ℕ → ℕ → ℕ → Option (ℕ × ℕ)
unfolding object_at
find_object cs address zero c = none
find_object cs address (suc n) c =
    let rest = find_object cs address n (c + 1) in
    elim (object_at cs address c) [ none ↦ rest | some i ↦ some (c, i) ]

pub free_object : ℕ → ℕ → Heap → Heap
free_object c i h =
    let objects = (h.caches c).objects in
    record h {
      caches = update h.caches c (record {
        objects =
            update objects i (record {
              address = (objects i).address;
              size = 0;
              used = false;
              owner = free_owner;
            });
        free_count = u32 ((h.caches c).free_count + 1);
      });
    }

-- The flag says whether the pointer was known; a block keeps its size.
pub free_block : Heap → Option ℕ → Heap × Bool
free_block h none = (h, false)
free_block h (some i) = (
  record h {
    blocks = update h.blocks i (record (h.blocks i) { used = false; owner = free_owner });
  },
  true,
)

pub free_at : ℕ → Heap → Option (ℕ × ℕ) → Heap × Bool
unfolding free_object free_block is_used_at
free_at address h (some (c, i)) = (free_object c i h, true)
free_at address h none = free_block h (find_first (is_used_at h.blocks address) h.block_count 0)

pub kfree : ℕ → Heap → Heap × Bool
unfolding find_object free_at
kfree address h =
    if address == 0 then (h, true) else free_at address h (find_object h.caches address 5 0)

-- The condition of heap_coalesce.
pub can_merge : (ℕ → Block) → ℕ → Bool
can_merge bs i =
    not (bs i).used
    && not (bs (i + 1)).used
    && ((bs i).size == (bs (i + 1)).size)
    && ((bs i).address + (bs i).size == (bs (i + 1)).address)

pub merge : ℕ → (ℕ → Block) → ℕ → Block
unfolding can_merge
merge i bs =
    if can_merge bs i
    then update (update bs i (record (bs i) { size = (bs i).size * 2 })) (i + 1)
        (record (bs (i + 1)) { size = 0; owner = merged_owner })
    else bs

-- Sizes and addresses stay far below the word here; the loop of the source runs up from block 0.
pub coalesce : Heap → Heap
unfolding merge
coalesce h = record h { blocks = for_up (h.block_count - 1) merge h.blocks }
