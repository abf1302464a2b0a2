-- ===== src/Fat32/Directory/Listing.antt =====
-- The listing of src/fat32.c over a chain of clusters that ends, as the names of its entries.
use a_lightweight_os.Base.{
  ℕ, zero, suc, ◌+◌, ◌<◌, ◌≡◌, refl, sym, ◌∙◌, Bool, true, false, Option, some, List, [], ◌∷◌, ◌++◌,
  if◌then◌else◌, length, arith, ap,
}
use a_lightweight_os.Fat32.{
  Disk, Volume, le32, from_offset, read_sectors, cluster_lba, follow_cluster_chain,
}
use a_lightweight_os.Fat32.Names.{extract_entry_name}
use a_lightweight_os.Fat32.Directory.{
  Entry, Item, entry_size, entries_per_buffer, is_last, is_skipped, scan_items, prepend, list_from,
}
use a_lightweight_os.Fat32.Directory.Search.{
  Walk, Buffers, Walk-Buffers, images, length-images, entries_from, entries,
}

-- The names and sizes of the entries before the last one, without those that are skipped.
unfoldable pub listed : List Entry → List Item
listed [] = []
listed (e ∷ es) =
    if is_last e
    then []
    else if is_skipped e
    then listed es
    else (extract_entry_name e, le32 e 28) ∷ listed es

-- How the listing goes on after one buffer.
abbrev after : List Item × Bool → List Item → List Item
after (xs, true) r = xs
after (xs, false) r = xs ++ r

listed-scan_items :
    (b : ℕ → ℕ) (n offset : ℕ) (es : List Entry)
    → listed (entries_from b n offset ++ es) ≡ after (scan_items b n offset) (listed es)
unfolding listed scan_items entries_from
listed-scan_items b zero offset es = refl
listed-scan_items b (suc n) offset es =
    go (is_last (from_offset offset b)) (is_skipped (from_offset offset b))
      (scan_items b n (offset + entry_size)) _ (listed-scan_items b n (offset + entry_size) es)
  where
    item : Item
    item = (extract_entry_name (from_offset offset b), le32 (from_offset offset b) 28)

    cons : (s : List Item × Bool) → item ∷ after s (listed es) ≡ after (item ∷ s.0, s.1) (listed es)
    cons (xs, true) = refl
    cons (xs, false) = refl

    go :
        (x y : Bool) (s : List Item × Bool) (r : List Item)
        → r ≡ after s (listed es)
        → (if x then [] else if y then r else item ∷ r)
          ≡ after (if x then ([], true) else if y then s else (item ∷ s.0, s.1)) (listed es)
    go true y s r h = refl
    go false true s r h = h
    go false false s r h = ap (λ xs. item ∷ xs) h ∙ cons s

list_from-Buffers :
    (disk : Disk) (v : Volume) (fuel current : ℕ) (b : ℕ → ℕ) (bs : List (ℕ → ℕ))
    → Buffers disk v b current bs
    → length bs < fuel
    → list_from disk v fuel current b ≡ some (listed (entries bs), true)
unfolding list_from entries
list_from-Buffers disk v zero current b bs w l = absurd (omega arith)
list_from-Buffers disk v (suc fuel) current b [] w l = unfold listed in rw w refl
list_from-Buffers disk v (suc fuel) current b (b' ∷ bs) w l =
    let x = ap (λ r. r.0) w.2 in
    let ih =
      list_from-Buffers disk v fuel (follow_cluster_chain v current) b' bs w.3 (omega arith) in
    let rest = ap (list_from disk v fuel (follow_cluster_chain v current)) x ∙ ih in
    rw (w.0, w.1, ap (λ r. r.1) w.2)
      (goes
          (scan_items (read_sectors disk (cluster_lba v current) v.sectors_per_cluster b).0
            entries_per_buffer 0)
          _ rest
        ∙ ap (λ y. some (after (scan_items y entries_per_buffer 0) (listed (entries bs)), true)) x
        ∙ ap (λ xs. some (xs, true)) (sym (listed-scan_items b' entries_per_buffer 0 (entries bs))))
  where
    goes :
        (s : List Item × Bool) (r : Option (List Item × Bool))
        → r ≡ some (listed (entries bs), true)
        → (if s.1 then some (s.0, true) else prepend s.0 r)
          ≡ some (after s (listed (entries bs)), true)
    goes (xs, true) r h = refl
    goes (xs, false) r h = ap (prepend xs) h

-- On a volume with eight sectors in a cluster, over a chain of clusters that ends and whose sectors can
-- be read, and with more fuel than the chain has clusters: the listing ends and succeeds, and it gives
-- the names and sizes of the 128 entries of every cluster of the chain, as they stand in its sectors,
-- before the last entry and without those that are skipped.
pub list_from-listed :
    (disk : Disk) (v : Volume) (fuel current : ℕ) (b : ℕ → ℕ) (ss : List (ℕ → ℕ → ℕ))
    → v.sectors_per_cluster ≡ 8
    → Walk disk v current ss
    → length ss < fuel
    → list_from disk v fuel current b ≡ some (listed (entries (images b ss)), true)
list_from-listed disk v fuel current b ss e w l =
    list_from-Buffers disk v fuel current b (images b ss)
      (Walk-Buffers disk v b b current ss e (λ k _. refl) w) (length-images b ss fuel l)
