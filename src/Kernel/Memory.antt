-- ===== src/Kernel/Memory.antt =====
-- The frames that are free after kernel_main of src/kernel.c has set the memory up.
use a_lightweight_os.Base.{
  ℕ, ◌+◌, ◌-◌, ◌*◌, ◌^◌, ◌<◌, ◌≡◌, ◌∙◌, Bool, true, false, not, ◌&&◌, ◌||◌, ◌/◌, [], ◌∷◌, min, max,
  Option, none, some, List, ltb, ◌==◌, if◌then◌else◌, arith, ap, subst, u64,
}
use a_lightweight_os.Pmm.{Pmm, initialize, add_available_range, reserve_range, words}
use a_lightweight_os.Pmm.Frames.{is_free, IsValid}
use a_lightweight_os.Pmm.Ranges.{covers, is_free-range, total-range}
use a_lightweight_os.Pmm.Invariant.{range-IsValid, initialize-IsValid, total-initialize}
use a_lightweight_os.Kernel.Added.{
  mapped, has_map, Added, at_map, tags-Added, unmapped, default-Added, or_false,
}
use a_lightweight_os.Kernel.{default_memory, mark_frames, setup_memory}
use a_lightweight_os.Kernel.Multiboot.{
  Entry, u32_at, visit_top, memory_top, visit_available, mark_memory,
}
use a_lightweight_os.Kernel.Multiboot.Walks.{
  Tag, other, memory_map, fold_entries, Tags, Enough, fold_tags, walk_tags-fold_tags,
}

-- The largest end of an entry of a map, and of all maps, as numbers of 64 bits; 0 without an entry.
abbrev pub largest : List Entry → ℕ
largest [] = 0
largest (e ∷ es) = max (u64 (e.addr + e.len)) (largest es)

abbrev pub largest_end : List Tag → ℕ
largest_end [] = 0
largest_end (other ∷ ts) = largest_end ts
largest_end (memory_map es ∷ ts) = max (largest es) (largest_end ts)

-- The size of the memory that the tags tell: 6 GB where they tell of none.
abbrev pub memory_of : List Tag → ℕ
memory_of ts = if largest_end ts == 0 then 6 * 2 ^ 30 else largest_end ts

-- The frames of 4096 bytes of a memory, the last one perhaps in part; the bitmap has room for 2^23.
abbrev pub frames_of : ℕ → ℕ
frames_of m = min (u64 (m + 4095) / 4096) (131072 * 64)

max_step : (a e n : ℕ) → max (if ltb a e then e else a) n ≡ max a (max e n)
max_step a e n = ground arith

max_zero : (a : ℕ) → max 0 a ≡ a
max_zero a = ground arith

max_assoc : (a b c : ℕ) → max (max a b) c ≡ max a (max b c)
max_assoc a b c = ground arith

fold_entries-largest :
    (es : List Entry) (a : ℕ) → fold_entries visit_top (λ t. t) es a ≡ max a (largest es)
unfolding visit_top
fold_entries-largest [] a = ground arith
fold_entries-largest (e ∷ es) a =
    fold_entries-largest es (visit_top e a) ∙ max_step a (u64 (e.addr + e.len)) (largest es)

fold_tags-largest_end :
    (ts : List Tag) (a : ℕ) → fold_tags visit_top (λ t. t) ts a ≡ max a (largest_end ts)
fold_tags-largest_end [] a = ground arith
fold_tags-largest_end (other ∷ ts) a = fold_tags-largest_end ts a
fold_tags-largest_end (memory_map es ∷ ts) a =
    fold_tags-largest_end ts (fold_entries visit_top (λ t. t) es a)
    ∙ ap (λ t. max t (largest_end ts)) (fold_entries-largest es a)
    ∙ max_assoc a (largest es) (largest_end ts)

-- The frames that the tags make available; all from 1 MB on, where there is no memory map.
abbrev pub usable : List Tag → ℕ → ℕ → Bool
usable ts total f =
    if has_map ts
    then mapped total ts f
    else covers total 0x100000 (u64 (memory_of ts + 2 ^ 64 - 0x100000)) f

-- The manager once the available ranges are added.
abbrev added : List Tag → Pmm → Pmm
added ts s =
    let (p, found) = fold_tags visit_available at_map ts (s, false) in
    if found then p else add_available_range 0x100000 (u64 (memory_of ts + 2 ^ 64 - 0x100000)) p

added-Added :
    (ts : List Tag) (s : Pmm) → IsValid s → Added s (added ts s) (usable ts s.total_frames)
added-Added ts s v =
    let (a, k) = tags-Added ts s false v in
    let r = fold_tags visit_available at_map ts (s, false) in
    default-Added s r.0 (mapped s.total_frames ts) 0x100000 (u64 (memory_of ts + 2 ^ 64 - 0x100000))
      (has_map ts) r.1 (k ∙ or_false (has_map ts)) a (λ f e. unmapped s.total_frames ts f e)

-- What the set-up of the memory does to a boot record whose tags end.
setup_memory-added :
    (fuel : ℕ) (b : ℕ → ℕ) (ts : List Tag) (s : Pmm)
    → Tags b 8 (u32_at b 0) ts
    → Enough fuel ts
    → setup_memory fuel (some b) s
      ≡ some (reserve_range 0 0x200000 (added ts (initialize s (memory_of ts))))
unfolding setup_memory mark_frames memory_top mark_memory
setup_memory-added fuel b ts s w l =
    let x =
      walk_tags-fold_tags visit_top (λ t. t) fuel b 8 (u32_at b 0) ts 0 w l
      ∙ ap some (fold_tags-largest_end ts 0 ∙ max_zero (largest_end ts)) in
    let y =
      walk_tags-fold_tags visit_available at_map fuel b 8 (u32_at b 0) ts
        (initialize s (memory_of ts), false) w l in
    ap
      (λ (o : Option ℕ). elim o as (λ _. Option Pmm) [
        | none ↦ none
        | some top ↦ mark_frames fuel (some b) (if top == 0 then default_memory else top) s
      ])
      x
    ∙ ap
        (λ (o : Option (Pmm × Bool)). elim o as (λ _. Option Pmm) [
          | none ↦ none
          | some (p, found) ↦ some (
              reserve_range 0 0x200000 (
                if found
                then p
                else add_available_range 0x100000 (u64 (memory_of ts + 2 ^ 64 - 0x100000)) p))
        ])
        y

covers_first : (total f : ℕ) → f < total → covers total 0 0x200000 f ≡ ltb f 512
covers_first total f m = ground (arith, m)

if_not : (a b x y : Bool) → a ≡ b → x ≡ y → (if a then false else x) ≡ (not b && y)
if_not true b x y e d = ap (λ t. not t && y) e
if_not false b x y e d = d ∙ ap (λ t. not t && y) e

-- The same with the number of frames that the initialisation computes.
setup_memory-total :
    (fuel : ℕ) (b : ℕ → ℕ) (ts : List Tag) (s : Pmm)
    → Tags b 8 (u32_at b 0) ts
    → Enough fuel ts
    → let total = (initialize s (memory_of ts)).total_frames in
      (r : Pmm) × (setup_memory fuel (some b) s ≡ some r)
      × IsValid r
      × (r.total_frames ≡ total)
      × ((f : ℕ) → f < total → is_free r f ≡ (not (ltb f 512) && usable ts total f))
setup_memory-total fuel b ts s w l =
    let start = initialize s (memory_of ts) in
    let i = initialize-IsValid s (memory_of ts) in
    let a = added-Added ts start i.0 in
    let t = total-range 0 0x200000 (added ts start) in
    (
      reserve_range 0 0x200000 (added ts start),
      setup_memory-added fuel b ts s w l,
      (range-IsValid 0 0x200000 (added ts start) a.valid).1,
      t.1 ∙ a.total,
      λ f m.
          let q : f < words start * 64 = let z = i.0.stored in omega (arith, m, z) in
          (is_free-range 0 0x200000 (added ts start) f a.valid).1
          ∙ if_not (covers (added ts start).total_frames 0 0x200000 f) (ltb f 512)
              (is_free (added ts start) f) (usable ts start.total_frames f)
              (covers_first (added ts start).total_frames f
                (let z = a.total in omega (arith, z, m)))
              (a.frames f
                ∙ ap (λ x. usable ts start.total_frames f || x) (i.1 f q)
                ∙ or_false (usable ts start.total_frames f)),
    )

-- With enough fuel for the tags of a boot record, whatever the manager held, the set-up of the memory
-- ends with a valid manager of the frames up to the largest end of an entry (a number of 64 bits), or up
-- to 6 GB where that is 0, but of 2^23 frames (32 GB) at most. Of these exactly those are free that an
-- available entry covers (rounded outwards), without the first 2 MB; where there is no memory map, all
-- from 1 MB up to the size of the memory count as available.
pub setup_memory-frees :
    (fuel : ℕ) (b : ℕ → ℕ) (ts : List Tag) (s : Pmm)
    → Tags b 8 (u32_at b 0) ts
    → Enough fuel ts
    → let total = frames_of (memory_of ts) in
      (r : Pmm) × (setup_memory fuel (some b) s ≡ some r)
      × IsValid r
      × (r.total_frames ≡ total)
      × ((f : ℕ) → f < total → is_free r f ≡ (not (ltb f 512) && usable ts total f))
setup_memory-frees fuel b ts s w l =
    subst
      (λ total.
        (r : Pmm) × (setup_memory fuel (some b) s ≡ some r)
        × IsValid r
        × (r.total_frames ≡ total)
        × ((f : ℕ) → f < total → is_free r f ≡ (not (ltb f 512) && usable ts total f)))
      (total-initialize s (memory_of ts)) (setup_memory-total fuel b ts s w l)
