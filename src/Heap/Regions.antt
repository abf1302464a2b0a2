-- ===== src/Heap/Regions.antt =====
-- src/heap.c: the regions of memory that are in use.
use a_lightweight_os.Base.{
  ℕ, ◌+◌, ◌<◌, ◌≤◌, ◌≡◌, ◌≢◌, ◌⊎◌, inl, inr, true, ltb, ◌==◌, arith, Bool-cases, ap, sym, ◌∙◌,
}
use a_lightweight_os.Heap.{Block, Heap}
use a_lightweight_os.Heap.Invariant.{IsBlocks, IsHeap}

-- Where a region comes from: an object of a cache, or a block.
pub data Place : Type 0 where
  object : ℕ → ℕ → Place
  block : ℕ → Place

abbrev pub at : Heap → Place → Block
at h (object c i) = (h.caches c).objects i
at h (block i) = h.blocks i

abbrev pub InBounds : Place → Type 0
InBounds (object c i) = (c < 5) × (i < 32)
InBounds (block i) = i < 64

abbrev pub InUse : Heap → Place → Type 0
InUse h p = InBounds p × ((at h p).used ≡ true)

trichotomy : (a b : ℕ) → (a < b) ⊎ ((a ≡ b) ⊎ (b < a))
trichotomy a b = elim (Bool-cases (ltb a b)) [
  | inl e ↦ inl (ground arith)
  | inr e ↦ elim (Bool-cases (a == b)) [
    | inl f ↦ inr (inl (ground arith))
    | inr f ↦ inr (inr (ground arith))
  ]
]

-- Two regions have no byte in common.
abbrev pub Apart : Block → Block → Type 0
Apart a b = (a.address + a.size ≤ b.address) ⊎ (b.address + b.size ≤ a.address)

Apart-comm : (a b : Block) → Apart a b → Apart b a
Apart-comm a b (inl h) = inr h
Apart-comm a b (inr h) = inl h

blocks-Apart :
    (bs : ℕ → Block) (i j : ℕ)
    → IsBlocks bs
    → i < j
    → j < 64
    → (bs j).used ≡ true
    → Apart (bs i) (bs j)
blocks-Apart bs i j v l m u =
    let a = v.located i (omega arith) in
    let b = v.located j m in
    let p = v.alive j m u in
    elim (v.fitted i (omega arith)) [
      | inl s ↦ inl (omega (arith, a, b, s))
      | inr s ↦ elim (Bool-cases (i + 1 == j)) [
        | inl e ↦ absurd (
            let z : i + 1 ≡ j = ground arith in
            let d = s.2 in let h = ap (λ t. (bs t).size) z in omega arith)
        | inr e ↦ let d : i + 2 ≤ j = ground arith in let t = s.0 in inl (omega (arith, a, b, d, t))
      ]
    ]

object-Apart-block :
    (h : Heap) (c i j : ℕ)
    → IsHeap h
    → InUse h (object c i)
    → j < 64
    → Apart ((h.caches c).objects i) (h.blocks j)
object-Apart-block h c i j v a m =
    let k = v.caches_valid c a.0.0 in
    let p = k.placed i a.0.1 in
    let s = k.sized i a.0.1 a.1 in
    let q = v.blocks_valid.located j m in let c5 = a.0.0 in let i32' = a.0.1 in inl (omega arith)

objects-Apart :
    (h : Heap) (c i d j : ℕ)
    → IsHeap h
    → InUse h (object c i)
    → InUse h (object d j)
    → (c < d) ⊎ ((c ≡ d) × (i < j))
    → Apart ((h.caches c).objects i) ((h.caches d).objects j)
objects-Apart h c i d j v a b o =
    let p = (v.caches_valid c a.0.0).placed i a.0.1 in
    let s = (v.caches_valid c a.0.0).sized i a.0.1 a.1 in
    let q = (v.caches_valid d b.0.0).placed j b.0.1 in
    let i32' = a.0.1 in
    elim o [ inl l ↦ inl (omega arith) | inr e ↦ let e0 = e.0 in let e1 = e.1 in inl (omega arith) ]

-- In a valid heap no two regions in use overlap, objects and blocks of any sizes.
pub IsHeap-Apart :
    (h : Heap) (p q : Place) → IsHeap h → InUse h p → InUse h q → p ≢ q → Apart (at h p) (at h q)
IsHeap-Apart h (object c i) (object d j) v a b n = elim (trichotomy c d) [
  | inl l ↦ objects-Apart h c i d j v a b (inl l)
  | inr (inl e) ↦ elim (trichotomy i j) [
    | inl l ↦ objects-Apart h c i d j v a b (inr (e, l))
    | inr (inl f) ↦ absurd (n (ap (λ t. object t i) e ∙ ap (object d) f))
    | inr (inr g) ↦
        Apart-comm ((h.caches d).objects j) ((h.caches c).objects i)
          (objects-Apart h d j c i v b a (inr (sym e, g)))
  ]
  | inr (inr g) ↦
      Apart-comm ((h.caches d).objects j) ((h.caches c).objects i)
        (objects-Apart h d j c i v b a (inl g))
]
IsHeap-Apart h (object c i) (block j) v a b n = object-Apart-block h c i j v a b.0
IsHeap-Apart h (block i) (object d j) v a b n =
    Apart-comm ((h.caches d).objects j) (h.blocks i) (object-Apart-block h d j i v b a.0)
IsHeap-Apart h (block i) (block j) v a b n = elim (trichotomy i j) [
  | inl l ↦ blocks-Apart h.blocks i j v.blocks_valid l b.0 b.1
  | inr (inl e) ↦ absurd (n (ap block e))
  | inr (inr g) ↦
      Apart-comm (h.blocks j) (h.blocks i) (blocks-Apart h.blocks j i v.blocks_valid g a.0 a.1)
]
