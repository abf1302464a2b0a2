-- ===== src/Heap/Reachable.antt =====
-- The states that the kernel's calls of src/heap.c reach, in any order.
use a_lightweight_os.Base.{ℕ, ◌≢◌}
use a_lightweight_os.Heap.{Heap, kmalloc, kfree, initialize, coalesce}
use a_lightweight_os.Heap.Invariant.{IsHeap, kmalloc-IsHeap, coalesce-IsHeap}
use a_lightweight_os.Heap.Free.{kfree-IsHeap}
use a_lightweight_os.Heap.Initial.{initialize-IsHeap}
use a_lightweight_os.Heap.Regions.{IsHeap-Apart, Place, Apart, at, InUse}

-- A state after initialisation and a sequence of calls.
pub data Reachable : Heap → Type 0 where
  initialized : (h : Heap) → Reachable (initialize h)
  allocated : (size owner : ℕ) (h : Heap) → Reachable h → Reachable (kmalloc size owner h).0
  freed : (address : ℕ) (h : Heap) → Reachable h → Reachable (kfree address h).0
  coalesced : (h : Heap) → Reachable h → Reachable (coalesce h)

pub Reachable-IsHeap : (h : Heap) → Reachable h → IsHeap h
Reachable-IsHeap _ (initialized h) = initialize-IsHeap h
Reachable-IsHeap _ (allocated size owner h r) = kmalloc-IsHeap size owner h (Reachable-IsHeap h r)
Reachable-IsHeap _ (freed address h r) = kfree-IsHeap address h (Reachable-IsHeap h r)
Reachable-IsHeap _ (coalesced h r) = coalesce-IsHeap h (Reachable-IsHeap h r)

-- After initialisation and any sequence of allocations, frees and coalescing, whatever their arguments,
-- no two regions in use overlap, objects and blocks of any sizes.
pub Reachable-Apart :
    (h : Heap) (p q : Place) → Reachable h → InUse h p → InUse h q → p ≢ q → Apart (at h p) (at h q)
Reachable-Apart h p q r = IsHeap-Apart h p q (Reachable-IsHeap h r)
