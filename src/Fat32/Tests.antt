-- ===== src/Fat32/Tests.antt =====
-- Runs of src/fat32.c over a small disk, and its theorems at that disk. The disk's clusters have eight
-- sectors: 2 holds the root directory, and 3 and 4 the file A.TXT of 5000 bytes.
use a_lightweight_os.Base.{
  ℕ, zero, suc, ◌+◌, ◌-◌, ◌*◌, ◌%◌, ◌<◌, ◌≤◌, ◌≡◌, refl, true, false, Option, none, some, List, [],
  ◌∷◌, map, ltb, ◌==◌, if◌then◌else◌, arith, u32, find_first, test_bit,
}
use a_lightweight_os.Heap
use a_lightweight_os.Fat32
use a_lightweight_os.Fat32.Names
use a_lightweight_os.Fat32.Names.RoundTrip.{IsLetter, extract_entry_name-normalize_name}
use a_lightweight_os.Fat32.Directory
use a_lightweight_os.Fat32.Directory.Search.{Walk, images, entries}
use a_lightweight_os.Fat32.Directory.Listing.{listed, list_from-listed}
use a_lightweight_os.Fat32.Reading
use a_lightweight_os.Fat32.Reading.Contents.{Stored, nth, content, read-content}

-- The bytes at the start, and 0 behind them.
abbrev bytes : List ℕ → ℕ → ℕ
bytes [] k = 0
bytes (x ∷ xs) k = if k == 0 then x else bytes xs (k - 1)

abbrev boot_sector : ℕ → ℕ
boot_sector = bytes (
    0 ∷ 0 ∷ 0 ∷ 0 ∷ 0 ∷ 0 ∷ 0 ∷ 0 ∷ 0 ∷ 0 ∷ 0 ∷ 0 ∷ 2 ∷ 8 ∷ 1 ∷ 0 ∷ 1 ∷ 0 ∷ 0 ∷ 0 ∷ 0 ∷ 0 ∷ 0 ∷ 0
    ∷ 0 ∷ 0 ∷ 0 ∷ 0 ∷ 0 ∷ 0 ∷ 0 ∷ 0 ∷ 0 ∷ 0 ∷ 0 ∷ 0 ∷ 1 ∷ 0 ∷ 0 ∷ 0 ∷ 0 ∷ 0 ∷ 0 ∷ 0 ∷ 2 ∷ [])

abbrev table : ℕ → ℕ
table = bytes (
    0 ∷ 0 ∷ 0 ∷ 0 ∷ 0 ∷ 0 ∷ 0 ∷ 0 ∷ 255 ∷ 255 ∷ 255 ∷ 15 ∷ 4 ∷ 0 ∷ 0 ∷ 0 ∷ 255 ∷ 255 ∷ 255 ∷ 15
    ∷ [])

-- A deleted entry, and that of A.TXT.
abbrev root : ℕ → ℕ
root k =
    if ltb k 32
    then if k == 0 then 0xE5 else 0
    else bytes
        (65 ∷ 32 ∷ 32 ∷ 32 ∷ 32 ∷ 32 ∷ 32 ∷ 32 ∷ 84 ∷ 88 ∷ 84 ∷ 0x20 ∷ 0 ∷ 0 ∷ 0 ∷ 0 ∷ 0 ∷ 0 ∷ 0 ∷ 0
          ∷ 0 ∷ 0 ∷ 0 ∷ 0 ∷ 0 ∷ 0 ∷ 3 ∷ 0 ∷ 0x88 ∷ 0x13 ∷ [])
        (k - 32)

abbrev data_sector : ℕ → ℕ → ℕ
data_sector s k = (s + k) % 256

abbrev disk : Fat32.Disk
disk s =
    if s == 0
    then some boot_sector
    else if s == 1
    then some table
    else if s == 2
    then some root
    else some (data_sector s)

abbrev volume : Fat32.Volume
volume = record {
  bpb = boot_sector;
  partition_lba = 0;
  fat_offset = 1;
  data_offset = 2;
  sectors_per_cluster = 8;
  root_dir_cluster = 2;
  fat_size_bytes = 512;
  fat_table = some table;
}

abbrev closed : Fat32.OpenFile
closed = record { first_cluster = 0; file_size = 0; current_position = 0; is_open = false }

abbrev opened : Fat32.OpenFile
opened = record { first_cluster = 3; file_size = 5000; current_position = 4090; is_open = true }

abbrev no_files : Fat32.Fat32
no_files = record { volume = volume; files = λ _. closed }

abbrev one_file : Fat32.Fat32
one_file = record { volume = volume; files = λ i. if i == 0 then opened else closed }

abbrev name : List ℕ
name = 97 ∷ 46 ∷ 116 ∷ 120 ∷ 116 ∷ []

open_run :
    Directory.open_file disk 5 (λ _. 0) (some name) no_files
    ≡ some (
      record {
        volume = volume;
        files = λ i.
            if 0 == i
            then record {
              first_cluster = 3;
              file_size = 5000;
              current_position = 0;
              is_open = true;
            }
            else closed;
      },
      some 0,
    )
unfolding Directory.open_file Directory.find_in_directory Directory.open_at Directory.is_closed
    Directory.make_cluster Directory.scan Directory.is_last Directory.is_skipped Directory.in_chain
    Directory.overruns Names.compare_entry_name Names.compare_from Names.same_char
    Names.normalize_name Names.write_base Names.write_extension Names.skip_dot Names.to_upper
    Fat32.read_sectors Fat32.read_from Fat32.put_sector Fat32.cluster_lba Fat32.is_eoc find_first
    test_bit
open_run = refl

list_run :
    Directory.enumerate_root disk 5 (λ _. 0) volume
    ≡ some ((65 ∷ 46 ∷ 84 ∷ 88 ∷ 84 ∷ [], 5000) ∷ [], true)
unfolding Directory.enumerate_root Directory.list_from Directory.prepend Directory.scan_items
    Directory.is_last Directory.is_skipped Directory.in_chain Directory.overruns
    Names.extract_entry_name Names.take_bytes Names.is_end Fat32.read_sectors Fat32.read_from
    Fat32.put_sector Fat32.cluster_lba Fat32.is_eoc test_bit
list_run = refl

abbrev empty_heap : Heap.Heap
empty_heap = record {
  caches = λ _. record {
    objects = λ _. record { address = 4096; size = 0; used = false; owner = 0 };
    free_count = 32;
  };
  blocks = λ _. record { address = 0x400000; size = 0x100000; used = false; owner = 0 };
  block_count = 1;
}

abbrev blank_volume : Fat32.Volume
blank_volume = record volume { bpb = λ _. 0; fat_table = none }

-- The table is found, and the open files are closed.
initialize_run :
    let r =
      (Fat32.initialize disk (λ _. 0) 2 empty_heap (record one_file { volume = blank_volume })).1 in
    (r.volume.data_offset ≡ 2)
    × (r.volume.sectors_per_cluster ≡ 8)
    × ((r.files 0).is_open ≡ false)
    × (Fat32.follow_cluster_chain r.volume 3 ≡ 4)
    × (Fat32.follow_cluster_chain r.volume 4 ≡ 0)
unfolding Fat32.initialize Fat32.find_volume Fat32.scan_partitions Fat32.read_boot_sector
    Fat32.memcpy Fat32.mount Fat32.place Fat32.load_fat Fat32.close_all Fat32.read_sectors
    Fat32.read_from Fat32.put_sector Fat32.follow_cluster_chain Fat32.get_fat_entry Fat32.is_eoc
    Heap.kmalloc Heap.cache_index Heap.allocate_buddy Heap.allocate_block Heap.fits find_first
initialize_run = (refl, refl, refl, refl, refl)

write_run : Fat32.write 0 10 one_file ≡ some 10
unfolding Fat32.write
write_run = refl

close_run : ((Fat32.close 0 one_file).files 0).is_open ≡ false
unfolding Fat32.close
close_run = refl

sector : ℕ → ℕ → ℕ → ℕ
sector n m = data_sector (u32 (Fat32.cluster_lba volume (nth volume 3 n) + m))

disk-data_sector : (s : ℕ) → 2 < s → disk s ≡ some (data_sector s)
disk-data_sector s l =
    let x : (s == 0) ≡ false = ground arith in
    let y : (s == 1) ≡ false = ground arith in
    let z : (s == 2) ≡ false = ground arith in rw (x, y, z) refl

one_file-Stored : Stored disk volume 3 5000 sector
unfolding sector nth Reading.cluster_size Directory.in_chain Fat32.is_eoc Fat32.follow_cluster_chain
    Fat32.get_fat_entry Fat32.cluster_lba
one_file-Stored = record { wide = omega arith; fits = omega arith; linked = linked; held = held }
  where
    held :
        (n : ℕ)
        → n * 4096 < 5000
        → (m : ℕ) → 0 ≤ m
        → m < 8
        → disk (u32 (Fat32.cluster_lba volume (nth volume 3 n) + m)) ≡ some (sector n m)
    held zero l m a b = disk-data_sector (u32 (10 + m)) (omega arith)
    held (suc zero) l m a b = disk-data_sector (u32 (18 + m)) (omega arith)
    held (suc (suc n)) l m a b = absurd (omega arith)

    linked : (n : ℕ) → n * 4096 < 5000 → Directory.in_chain (nth volume 3 n) ≡ true
    linked zero l = refl
    linked (suc zero) l = refl
    linked (suc (suc n)) l = absurd (omega arith)

abbrev middle : Option (Fat32.Fat32 × (ℕ → ℕ) × Option ℕ) → List ℕ
middle none = []
middle (some (f, b, r)) = b 5 ∷ b 6 ∷ b 7 ∷ b 10 ∷ []

-- Ten bytes across the end of the first cluster.
read-content_example :
    (buffer' : ℕ → ℕ) × (Reading.read disk 11 (λ _. 0) 0 (λ _. 7) 10 one_file
      ≡ some (
        record one_file {
          files =
              λ i. if 0 == i then record opened { current_position = 4100 } else one_file.files i;
        },
        buffer',
        some 10,
      ))
    × ((k : ℕ) → buffer' k ≡ (if ltb k 10 then content volume sector (4090 + k) else 7))
read-content_example =
    read-content disk 11 (λ _. 0) 0 (λ _. 7) 10 one_file sector (omega arith) refl (omega arith)
      one_file-Stored (omega arith)

content_run : (content volume sector 4095 ≡ (17 + 511) % 256) × (content volume sector 4096 ≡ 18)
unfolding content sector nth Reading.cluster_size Fat32.cluster_lba Fat32.follow_cluster_chain
    Fat32.get_fat_entry Fat32.is_eoc
content_run = (refl, refl)

read_run : middle (Reading.read disk 11 (λ _. 0) 0 (λ _. 7) 10 one_file) ≡ (16 ∷ 18 ∷ 19 ∷ 7 ∷ [])
unfolding Reading.read Reading.finish Reading.begin Reading.read_loop Reading.read_round
    Reading.round_bytes Reading.copy_bytes Reading.skip_clusters Reading.cluster_size
    Directory.in_chain Directory.overruns Fat32.read_sectors Fat32.read_from Fat32.put_sector
    Fat32.cluster_lba Fat32.follow_cluster_chain Fat32.get_fat_entry Fat32.is_eoc
read_run = refl

-- The first sector of the root has the two entries.
abbrev root_sectors : ℕ → ℕ → ℕ
root_sectors m = if m == 0 then root else data_sector (2 + m)

root-Walk : Walk disk volume 2 (root_sectors ∷ [])
unfolding Directory.in_chain Fat32.cluster_lba Fat32.follow_cluster_chain Fat32.get_fat_entry
    Fat32.is_eoc
root-Walk = (refl, held, refl)
  where
    held : (m : ℕ) → 0 ≤ m → m < 8 → disk (u32 (2 + m)) ≡ some (root_sectors m)
    held zero a l = refl
    held (suc m) a l =
        let e : u32 (2 + suc m) ≡ 2 + suc m = omega (arith, l) in
        let x : (suc m == 0) ≡ false = ground arith in
        rw (e, x) (disk-data_sector (2 + suc m) (omega arith))

list_from-listed_example :
    Directory.list_from disk volume 2 2 (λ _. 0)
    ≡ some (listed (entries (images (λ _. 0) (root_sectors ∷ []))), true)
list_from-listed_example =
    list_from-listed disk volume 2 2 (λ _. 0) (root_sectors ∷ []) refl root-Walk (omega arith)

-- A cluster of sixteen sectors goes over the end of the buffer.
wide_run :
    Directory.enumerate_root disk 5 (λ _. 0) (record volume { sectors_per_cluster = 16 }) ≡ none
unfolding Directory.enumerate_root Directory.list_from Directory.overruns Directory.in_chain
    Fat32.read_sectors Fat32.read_from Fat32.cluster_lba Fat32.is_eoc
wide_run = refl

letter : (c : ℕ) → 46 < c → IsLetter c
letter c l = (λ e. omega (arith, l, e), λ e. omega (arith, l, e), λ e. omega (arith, l, e))

extract_entry_name-normalize_name_example :
    Names.extract_entry_name (Names.normalize_name (97 ∷ 98 ∷ 46 ∷ 99 ∷ []))
    ≡ map Names.to_upper (97 ∷ 98 ∷ 46 ∷ 99 ∷ [])
extract_entry_name-normalize_name_example =
    extract_entry_name-normalize_name (97 ∷ 98 ∷ []) (99 ∷ []) (omega arith) (omega arith)
      (letter 97 (omega arith), (letter 98 (omega arith), tt)) (letter 99 (omega arith), tt)
