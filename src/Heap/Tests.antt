-- ===== src/Heap/Tests.antt =====
-- Runs of the allocator of src/heap.c, and its theorems at concrete heaps.
use a_lightweight_os.Base.{◌≡◌, refl, true, arith, find_first}
use a_lightweight_os.Heap
use a_lightweight_os.Heap.Invariant.{IsHeap, kmalloc-IsHeap}
use a_lightweight_os.Heap.Initial.{initialize-IsHeap}
use a_lightweight_os.Heap.Reachable.{Reachable, initialized, allocated, Reachable-Apart}
use a_lightweight_os.Heap.Regions.{Apart, at, object, block, InUse}

abbrev before : Heap.Heap
before = record {
  caches = λ _. record {
    objects = λ _. record { address = 0; size = 0; used = true; owner = 7 };
    free_count = 3;
  };
  blocks = λ _. record { address = 0; size = 0; used = true; owner = 7 };
  block_count = 0;
}

abbrev empty : Heap.Heap
empty = Heap.initialize before

empty-IsHeap : IsHeap empty
empty-IsHeap = initialize-IsHeap before

abbrev busy : Heap.Heap
busy = (Heap.kmalloc 300 9 (Heap.kmalloc 40 8 empty).0).0

busy-Reachable : Reachable busy
busy-Reachable =
    allocated 300 9 (Heap.kmalloc 40 8 empty).0 (allocated 40 8 empty (initialized before))

slab_live : InUse busy (object 2 0)
unfolding Heap.kmalloc Heap.initialize find_first
slab_live = ((omega arith, omega arith), refl)

buddy_live : InUse busy (block 0)
unfolding Heap.kmalloc Heap.initialize find_first
buddy_live = (omega arith, refl)

kmalloc-IsHeap_example : IsHeap (Heap.kmalloc 100 9 empty).0
kmalloc-IsHeap_example = kmalloc-IsHeap 100 9 empty empty-IsHeap

-- A block keeps the size of its last use: after a small use it cannot serve a large one.
shrunk_run : (Heap.kmalloc 400 9 (Heap.kfree 0x200000 busy).0).1 ≡ 0x300000
unfolding Heap.kmalloc Heap.kfree Heap.initialize find_first
shrunk_run = refl

merge_run : ((Heap.coalesce empty).blocks 0).size ≡ 0x200000
unfolding Heap.coalesce Heap.initialize
merge_run = refl

Reachable-Apart_example : Apart (at busy (object 2 0)) (at busy (block 0))
Reachable-Apart_example =
    Reachable-Apart busy (object 2 0) (block 0) busy-Reachable slab_live buddy_live (λ e. cc)
