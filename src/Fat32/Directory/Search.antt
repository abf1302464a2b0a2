-- ===== src/Fat32/Directory/Search.antt =====
-- The search of src/fat32.c over a chain of clusters that ends, as a search over the list of its entries.
use a_lightweight_os.Base.{
  ℕ, zero, suc, ◌+◌, ◌-◌, ◌≤◌, ◌<◌, ◌≡◌, refl, sym, ◌∙◌, ltb, inl, inr, Bool-cases, subst, true,
  false, Option, none, some, List, [], ◌∷◌, ◌++◌, if◌then◌else◌, length, arith, ap,
}
use mathlib.Core.Path.{fun_ext}
use a_lightweight_os.Fat32.{
  Disk, Volume, from_offset, read_sectors, cluster_lba, follow_cluster_chain,
}
use a_lightweight_os.Fat32.Names.{compare_entry_name}
use a_lightweight_os.Fat32.Directory.{
  Entry, Scan, stop, go_on, hit, entry_size, entries_per_buffer, is_last, is_skipped, in_chain,
  overruns,
}
use a_lightweight_os.Fat32.Reading.Sectors.{Holds, byte_of, read_sectors-all}

-- The sectors of the clusters from a cluster on, up to the end of the chain.
abbrev pub Walk : Disk → Volume → ℕ → List (ℕ → ℕ → ℕ) → Type 0
Walk disk v current [] = in_chain current ≡ false
Walk disk v current (sector ∷ ss) =
    (in_chain current ≡ true)
    × Holds disk (cluster_lba v current) 0 8 sector
    × Walk disk v (follow_cluster_chain v current) ss

-- The bytes of a cluster of eight sectors one behind the other; from 4096 on, `b`.
unfoldable pub image : (ℕ → ℕ) → (ℕ → ℕ → ℕ) → ℕ → ℕ
image b sector k = if ltb k 4096 then byte_of sector k else b k

-- The same for each cluster.
abbrev pub images : (ℕ → ℕ) → List (ℕ → ℕ → ℕ) → List (ℕ → ℕ)
images b [] = []
images b (sector ∷ ss) = image b sector ∷ images b ss

pub length-images :
    (b : ℕ → ℕ) (ss : List (ℕ → ℕ → ℕ)) (fuel : ℕ) → length ss < fuel → length (images b ss) < fuel
length-images b [] fuel l = l
length-images b (sector ∷ ss) fuel l =
    let ih = length-images b ss (fuel - 1) (omega (arith, l)) in omega (arith, ih, l)

image_again :
    (b b' : ℕ → ℕ) (sector : ℕ → ℕ → ℕ)
    → ((k : ℕ) → 4096 ≤ k → b' k ≡ b k)
    → image b' sector ≡ image b sector
unfolding image
image_again b b' sector h =
    fun_ext
      λ k. elim (Bool-cases (ltb k 4096)) [ inl e ↦ rw e refl | inr e ↦ rw e (h k (ground arith)) ]

image_behind : (b : ℕ → ℕ) (sector : ℕ → ℕ → ℕ) (k : ℕ) → 4096 ≤ k → image b sector k ≡ b k
unfolding image
image_behind b sector k l = let e : ltb k 4096 ≡ false = ground arith in rw e refl

-- What a walk reads: the buffers, as they are after each read.
abbrev pub Buffers : Disk → Volume → (ℕ → ℕ) → ℕ → List (ℕ → ℕ) → Type 0
Buffers disk v b current [] = in_chain current ≡ false
Buffers disk v b current (b' ∷ bs) =
    (in_chain current ≡ true)
    × (overruns disk v current b ≡ false)
    × (read_sectors disk (cluster_lba v current) v.sectors_per_cluster b ≡ (b', true))
    × Buffers disk v b' (follow_cluster_chain v current) bs

read_sectors-image :
    (disk : Disk) (lba n : ℕ) (b : ℕ → ℕ) (sector : ℕ → ℕ → ℕ)
    → n ≡ 8
    → Holds disk lba 0 8 sector
    → read_sectors disk lba n b ≡ (image b sector, true)
unfolding image
read_sectors-image disk lba n b sector e h =
    let r = read_sectors-all disk lba 8 b sector h in
    subst (λ m. read_sectors disk lba m b ≡ (image b sector, true)) (sym e)
      (ap (λ c. (c, (read_sectors disk lba 8 b).1)) (fun_ext λ k. r.1 k)
        ∙ ap (λ c. (image b sector, c)) r.0)

pub Walk-Buffers :
    (disk : Disk) (v : Volume) (b b' : ℕ → ℕ) (current : ℕ) (ss : List (ℕ → ℕ → ℕ))
    → v.sectors_per_cluster ≡ 8
    → ((k : ℕ) → 4096 ≤ k → b' k ≡ b k)
    → Walk disk v current ss
    → Buffers disk v b' current (images b ss)
unfolding overruns
Walk-Buffers disk v b b' current [] e h w = w
Walk-Buffers disk v b b' current (sector ∷ ss) e h w =
    let room : ltb 8 v.sectors_per_cluster ≡ false = ground (arith, e) in
    (
      w.0,
      rw room refl,
      read_sectors-image disk (cluster_lba v current) v.sectors_per_cluster b' sector e w.1
          ∙ ap (λ c. (c, true)) (image_again b b' sector h),
      Walk-Buffers disk v b (image b sector) (follow_cluster_chain v current) ss e
          (image_behind b sector) w.2,
    )

-- The entries of a buffer, and of many.
unfoldable pub entries_from : (ℕ → ℕ) → ℕ → ℕ → List Entry
entries_from b zero offset = []
entries_from b (suc n) offset = from_offset offset b ∷ entries_from b n (offset + entry_size)

unfoldable pub entries : List (ℕ → ℕ) → List Entry
entries [] = []
entries (b ∷ bs) = entries_from b entries_per_buffer 0 ++ entries bs

-- The first entry with the name, before the last one.
unfoldable pub first_entry : List ℕ → List Entry → Option Entry
first_entry target [] = none
first_entry target (e ∷ es) =
    if is_last e
    then none
    else if is_skipped e
    then first_entry target es
    else if compare_entry_name e target
    then some e
    else first_entry target es

-- How the search goes on after one buffer.
abbrev after : Scan → Option Entry → Option Entry
after stop r = none
after go_on r = r
after (hit e) r = some e
