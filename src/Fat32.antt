-- ===== src/Fat32.antt =====
-- src/fat32.c: the volume of a FAT32 file system, its allocation table and its open files. The disk is
-- an argument: a sector's 512 bytes by its number, or `none` where ahci_read_sector fails. A buffer is a
-- function from the offset to the byte, and a structure that is read from one is the buffer from its
-- start on.
pub mod Names
pub mod Directory
pub mod Reading
mod Tests
use a_lightweight_os.Base.{
  ℕ, zero, suc, ◌+◌, ◌-◌, ◌*◌, ◌/◌, ◌%◌, ◌^◌, Bool, true, false, not, ◌&&◌, ◌||◌, Option, none,
  some, leb, ltb, ◌==◌, if◌then◌else◌, for_up, update, u32,
}
use a_lightweight_os.Heap.{Heap, kmalloc}

abbrev pub sector_size : ℕ
sector_size = 512

abbrev pub cluster_buffer_size : ℕ
cluster_buffer_size = 4096

abbrev pub end_of_chain : ℕ
end_of_chain = 0x0FFFFFF8

abbrev pub max_open_files : ℕ
max_open_files = 32

abbrev pub Disk : Type 0
Disk = ℕ → Option (ℕ → ℕ)

-- `buffer + offset`
abbrev pub from_offset : ℕ → (ℕ → ℕ) → ℕ → ℕ
from_offset o b i = b (o + i)

-- Little-endian words in a buffer.
abbrev pub le16 : (ℕ → ℕ) → ℕ → ℕ
le16 b o = b o + b (o + 1) * 2 ^ 8

abbrev pub le32 : (ℕ → ℕ) → ℕ → ℕ
le32 b o = b o + b (o + 1) * 2 ^ 8 + b (o + 2) * 2 ^ 16 + b (o + 3) * 2 ^ 24

-- `bpb` is the copy of fat32_bpb_t, and `fat_table` what the allocated memory holds.
pub record Volume : Type 0 where
  pub bpb : ℕ → ℕ
  pub partition_lba : ℕ
  pub fat_offset : ℕ
  pub data_offset : ℕ
  pub sectors_per_cluster : ℕ
  pub root_dir_cluster : ℕ
  pub fat_size_bytes : ℕ
  pub fat_table : Option (ℕ → ℕ)

pub record OpenFile : Type 0 where
  pub first_cluster : ℕ
  pub file_size : ℕ
  pub current_position : ℕ
  pub is_open : Bool

pub record Fat32 : Type 0 where
  pub volume : Volume
  pub files : ℕ → OpenFile

-- fat32_memcpy, with the destination at its start.
pub memcpy : (ℕ → ℕ) → (ℕ → ℕ) → ℕ → ℕ → ℕ
memcpy dest src len k = if ltb k len then src k else dest k

-- The 512 bytes that ahci_read_sector stores at an offset of the buffer.
pub put_sector : ℕ → (ℕ → ℕ) → (ℕ → ℕ) → ℕ → ℕ
put_sector o s b k = if leb o k && ltb k (o + sector_size) then s (k - o) else b k

-- The loop of fat32_read_sectors, with `n` sectors left from number `i` on.
pub read_from : Disk → ℕ → ℕ → ℕ → (ℕ → ℕ) → (ℕ → ℕ) × Bool
unfolding put_sector
read_from disk lba zero i b = (b, true)
read_from disk lba (suc n) i b = elim (disk (u32 (lba + i))) [
  | none ↦ (b, false)
  | some s ↦ read_from disk lba n (i + 1) (put_sector (i * sector_size) s b)
]

-- The buffer afterwards, and whether all the sectors could be read.
pub read_sectors : Disk → ℕ → ℕ → (ℕ → ℕ) → (ℕ → ℕ) × Bool
unfolding read_from
read_sectors disk lba count b = read_from disk lba count 0 b

pub cluster_lba : Volume → ℕ → ℕ
cluster_lba v cluster = u32 (v.data_offset + u32 (cluster + 0xFFFFFFFE) * v.sectors_per_cluster)

pub get_fat_entry : Volume → ℕ → ℕ
get_fat_entry v cluster = elim v.fat_table [
  | none ↦ end_of_chain
  | some t ↦ le32 t (u32 (cluster * 4)) % 2 ^ 28
]

pub is_eoc : ℕ → Bool
is_eoc cluster = leb end_of_chain cluster

pub follow_cluster_chain : Volume → ℕ → ℕ
unfolding get_fat_entry is_eoc
follow_cluster_chain v cluster =
    let next = get_fat_entry v cluster in if is_eoc next then 0 else next

-- The fields of the boot sector that are used.
abbrev pub bytes_per_sector : (ℕ → ℕ) → ℕ
bytes_per_sector bpb = le16 bpb 11

abbrev pub fat_size_32 : (ℕ → ℕ) → ℕ
fat_size_32 bpb = le32 bpb 36

-- The copy of the boot sector afterwards, and whether it is one of FAT32.
pub read_boot_sector : Disk → ℕ → (ℕ → ℕ) → (ℕ → ℕ) × Bool
unfolding read_sectors memcpy
read_boot_sector disk base_lba bpb =
    let (sector, done) = read_sectors disk base_lba 1 (λ _. 0) in
    let copied = memcpy bpb sector 90 in
    if done
    then if not (bytes_per_sector copied == sector_size)
        || (copied 13 == 0)
        || (fat_size_32 copied == 0)
      then (copied, false)
      else (copied, true)
    else (bpb, false)

-- `owner` stands for the name "fat32", and `memory` is what the allocated memory holds before.
pub load_fat : Disk → (ℕ → ℕ) → ℕ → Heap → Volume → Heap × Volume × Bool
unfolding read_sectors
load_fat disk memory owner h v =
    let size = fat_size_32 v.bpb * sector_size in
    let (h', address) = kmalloc size owner h in
    let (table, done) = read_sectors disk v.fat_offset (fat_size_32 v.bpb) memory in
    if address == 0
    then (h', record v { fat_table = none }, false)
    else if done
    then (h', record v { fat_table = some table; fat_size_bytes = size }, true)
    else (h', record v { fat_table = some table }, false)

-- The scan of the partition table, with `n` entries left from `i` on.
pub scan_partitions : Disk → (ℕ → ℕ) → ℕ → ℕ → Volume → Volume
unfolding read_boot_sector
scan_partitions disk sector zero i v = v
scan_partitions disk sector (suc n) i v =
    let entry = 0x1BE + i * 16 in
    let kind = sector (entry + 4) in
    let start = le32 sector (entry + 8) in
    let (bpb, done) = read_boot_sector disk start v.bpb in
    let skipped = scan_partitions disk sector n (i + 1) v in
    let refused = scan_partitions disk sector n (i + 1) (record v { bpb = bpb }) in
    if (kind == 0x0B) || (kind == 0x0C)
    then if done then record v { bpb = bpb; partition_lba = start } else refused
    else skipped

-- The volume with the boot sector of the disk or of its first usable partition; `none` where not even
-- the partition table can be read.
pub find_volume : Disk → Volume → Option Volume
unfolding read_boot_sector read_sectors scan_partitions
find_volume disk v =
    let (bpb, done) = read_boot_sector disk 0 v.bpb in
    let (sector, readable) = read_sectors disk 0 1 (λ _. 0) in
    let unpartitioned = record v { bpb = bpb; partition_lba = 0 } in
    if done
    then some unpartitioned
    else if readable
    then some (scan_partitions disk sector 4 0 unpartitioned)
    else none

-- The places of the table and of the data.
pub place : Volume → Volume
place v =
    let fat_offset = u32 (v.partition_lba + le16 v.bpb 14) in
    record v {
      fat_offset = fat_offset;
      data_offset = u32 (fat_offset + v.bpb 16 * fat_size_32 v.bpb);
      sectors_per_cluster = v.bpb 13;
      root_dir_cluster = le32 v.bpb 44;
    }

-- What initialisation does with the volume that was found.
pub mount : Disk → (ℕ → ℕ) → ℕ → Heap → Volume → Heap × Volume
unfolding place load_fat
mount disk memory owner h v =
    let (h', loaded, done) = load_fat disk memory owner h (place v) in
    if not (bytes_per_sector v.bpb == sector_size) || (fat_size_32 v.bpb == 0)
    then (h, v)
    else (h', loaded)

pub close_all : (ℕ → OpenFile) → ℕ → OpenFile
close_all = for_up max_open_files (λ i fs. update fs i (record (fs i) { is_open = false }))

pub initialize : Disk → (ℕ → ℕ) → ℕ → Heap → Fat32 → Heap × Fat32
unfolding find_volume mount close_all
initialize disk memory owner h f = elim (find_volume disk f.volume) [
  | none ↦ (
    h,
    record {
      volume = record f.volume {
        bpb = (read_boot_sector disk 0 f.volume.bpb).0;
        partition_lba = 0;
      };
      files = close_all f.files;
    },
  )
  | some v ↦
      let (h', v') = mount disk memory owner h v in
      (h', record { volume = v'; files = close_all f.files })
]

-- fat32_write only answers; the number stands for the bits of the `int`.
pub write : ℕ → ℕ → Fat32 → Option ℕ
write fd size f =
    if leb max_open_files fd || not (f.files fd).is_open then none else some (size % 2 ^ 32)

pub close : ℕ → Fat32 → Fat32
close fd f =
    if ltb fd max_open_files
    then record f { files = update f.files fd (record (f.files fd) { is_open = false }) }
    else f
