-- ===== src/Fat32/Directory.antt =====
-- The root directory of src/fat32.c: the search for a name, opening a file, and the listing. An entry is
-- the buffer from its start on. The buffer of a cluster keeps what the last read left in it, as the
-- local array does; its first 4096 bytes are the array, and the bytes from 4096 on what stands behind
-- it. The walk along the clusters takes fuel, and `none` means that it ran out or that a read went over
-- the end of the array, after which the source says nothing of what happens.
pub mod Search
pub mod Listing
use a_lightweight_os.Base.{
  ◌≡◌, refl, sym, ℕ, zero, suc, ◌+◌, ◌*◌, ◌^◌, Bool, true, false, not, ◌&&◌, ◌||◌, Option, none,
  some, List, [], ◌∷◌, ◌++◌, ltb, ◌==◌, if◌then◌else◌, update, find_first, test_bit,
}
use a_lightweight_os.Fat32.{
  Disk, Volume, OpenFile, Fat32, le16, le32, from_offset, read_sectors, cluster_lba, is_eoc,
  follow_cluster_chain, max_open_files,
}
use a_lightweight_os.Fat32.Names.{compare_entry_name, extract_entry_name}

abbrev pub Entry : Type 0
Entry = ℕ → ℕ

abbrev pub entry_size : ℕ
entry_size = 32

-- A cluster buffer has room for 128 entries.
abbrev pub entries_per_buffer : ℕ
entries_per_buffer = 128

-- The entry after the last one.
unfoldable pub is_last : Entry → Bool
is_last e = e 0 == 0

-- A deleted entry, a piece of a long name, or the label of the volume.
unfoldable pub is_skipped : Entry → Bool
is_skipped e = (e 0 == 0xE5) || (e 11 == 0x0F) || test_bit (e 11) 3

unfoldable pub make_cluster : Entry → ℕ
make_cluster e = le16 e 20 * 2 ^ 16 + le16 e 26

pub data Scan : Type 0 where
  stop go_on : Scan
  hit : Entry → Scan

-- The loop over the entries of a buffer, with `n` left from an offset on.
unfoldable pub scan : List ℕ → (ℕ → ℕ) → ℕ → ℕ → Scan
unfolding is_last is_skipped
scan target b zero offset = go_on
scan target b (suc n) offset =
    let e = from_offset offset b in
    let rest = scan target b n (offset + entry_size) in
    if is_last e
    then stop
    else if is_skipped e
    then rest
    else if compare_entry_name e target
    then hit e
    else rest

-- The test of the loops over the clusters.
unfoldable pub in_chain : ℕ → Bool
unfolding is_eoc
in_chain cluster = not (ltb cluster 2) && not (is_eoc cluster)

pub in_chain-is_eoc : (c : ℕ) → in_chain c ≡ true → is_eoc c ≡ false
unfolding in_chain
in_chain-is_eoc c = go (ltb c 2) (is_eoc c)
  where
    go : (x y : Bool) → (not x && not y) ≡ true → y ≡ false
    go x false h = refl
    go true true h = sym h
    go false true h = sym h

-- The array of the source has room for eight sectors: of a larger cluster the ninth sector, if it can be
-- read, goes behind its end.
unfoldable pub overruns : Disk → Volume → ℕ → (ℕ → ℕ) → Bool
overruns disk v cluster b =
    ltb 8 v.sectors_per_cluster && (read_sectors disk (cluster_lba v cluster) 9 b).1

unfoldable pub find_in_directory : Disk → Volume → List ℕ → ℕ → ℕ → (ℕ → ℕ) → Option (Option Entry)
unfolding overruns
find_in_directory disk v target zero current b = none
find_in_directory disk v target (suc fuel) current b =
    let read = read_sectors disk (cluster_lba v current) v.sectors_per_cluster b in
    let rest = find_in_directory disk v target fuel (follow_cluster_chain v current) read.0 in
    let found : Option (Option Entry) = elim (scan target read.0 entries_per_buffer 0) [
      | stop ↦ some none
      | go_on ↦ rest
      | hit e ↦ some (some e)
    ] in
    let used = if overruns disk v current b then none else if read.1 then found else some none in
    if in_chain current then used else some none

-- The handle that is free, and what the search gave.
unfoldable pub open_at : ℕ → Option Entry → Fat32 → Fat32 × Option ℕ
unfolding make_cluster
open_at i none f = (f, none)
open_at i (some e) f = (
  record f {
    files = update f.files i (record {
      first_cluster = make_cluster e;
      file_size = le32 e 28;
      current_position = 0;
      is_open = true;
    });
  },
  some i,
)

unfoldable pub is_closed : (ℕ → OpenFile) → ℕ → Bool
is_closed fs i = not (fs i).is_open

-- The handle is `none` for -1; the whole is `none` where the search ran out of fuel.
unfoldable pub open_file : Disk → ℕ → (ℕ → ℕ) → Option (List ℕ) → Fat32 → Option (Fat32 × Option ℕ)
unfolding find_in_directory open_at is_closed
open_file disk fuel b none f = some (f, none)
open_file disk fuel b (some name) f = elim (find_first (is_closed f.files) max_open_files 0) [
  | none ↦ some (f, none)
  | some i ↦ elim (find_in_directory disk f.volume name fuel f.volume.root_dir_cluster b) [
    | none ↦ none
    | some r ↦ some (open_at i r f)
  ]
]

-- What the callback is called with: a name and a size.
abbrev pub Item : Type 0
Item = List ℕ × ℕ

-- The loop over the entries of a buffer in the listing; the flag says that the last entry was met.
unfoldable pub scan_items : (ℕ → ℕ) → ℕ → ℕ → List Item × Bool
unfolding is_last is_skipped
scan_items b zero offset = ([], false)
scan_items b (suc n) offset =
    let e = from_offset offset b in
    let rest = scan_items b n (offset + entry_size) in
    if is_last e
    then ([], true)
    else if is_skipped e
    then rest
    else ((extract_entry_name e, le32 e 28) ∷ rest.0, rest.1)

unfoldable pub prepend : List Item → Option (List Item × Bool) → Option (List Item × Bool)
prepend xs none = none
prepend xs (some (ys, done)) = some (xs ++ ys, done)

unfoldable pub list_from : Disk → Volume → ℕ → ℕ → (ℕ → ℕ) → Option (List Item × Bool)
unfolding prepend overruns
list_from disk v zero current b = none
list_from disk v (suc fuel) current b =
    let read = read_sectors disk (cluster_lba v current) v.sectors_per_cluster b in
    let rest = list_from disk v fuel (follow_cluster_chain v current) read.0 in
    let items = scan_items read.0 entries_per_buffer 0 in
    let listed : Option (List Item × Bool) =
      if items.1 then some (items.0, true) else prepend items.0 rest in
    let used =
      if overruns disk v current b then none else if read.1 then listed else some ([], false) in
    if in_chain current then used else some ([], true)

-- The calls of the callback, which is not NULL, and the result.
unfoldable pub enumerate_root : Disk → ℕ → (ℕ → ℕ) → Volume → Option (List Item × Bool)
unfolding list_from
enumerate_root disk fuel b v =
    if ltb v.root_dir_cluster 2
    then some ([], false)
    else list_from disk v fuel v.root_dir_cluster b
