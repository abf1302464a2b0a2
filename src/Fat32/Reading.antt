-- ===== src/Fat32/Reading.antt =====
-- fat32_read of src/fat32.c. A handle is a natural number: a negative one is refused as one from 32 on
-- is. The loop takes fuel, and `none` means that it ran out or that a read went over the end of the
-- cluster buffer, an array of 4096 bytes.
pub mod Sectors
pub mod Contents
use a_lightweight_os.Base.{
  ℕ, zero, suc, ◌+◌, ◌-◌, ◌*◌, ◌/◌, ◌%◌, ◌^◌, Bool, true, false, not, ◌&&◌, ◌||◌, Option, none,
  some, leb, ltb, ◌==◌, if◌then◌else◌, update,
}
use a_lightweight_os.Fat32.{
  Disk, Volume, OpenFile, Fat32, sector_size, read_sectors, cluster_lba, is_eoc,
  follow_cluster_chain, max_open_files,
}
use a_lightweight_os.Fat32.Directory.{in_chain, overruns}

-- The variables of the loop.
pub record Progress : Type 0 where
  pub cluster : ℕ
  pub offset : ℕ
  pub count : ℕ
  pub buffer_offset : ℕ
  pub position : ℕ
  pub cluster_buffer : ℕ → ℕ
  pub buffer : ℕ → ℕ

unfoldable pub cluster_size : Volume → ℕ
cluster_size v = v.sectors_per_cluster * sector_size

-- `for (i = 0; i < skip_clusters && !fat32_is_eoc(cluster); i++)`
unfoldable pub skip_clusters : Volume → ℕ → ℕ → ℕ
skip_clusters v zero cluster = cluster
skip_clusters v (suc n) cluster =
    let rest = skip_clusters v n (follow_cluster_chain v cluster) in
    if is_eoc cluster then cluster else rest

-- `for (i = 0; i < n; i++) dest[to + i] = src[from + i];`
unfoldable pub copy_bytes : ℕ → (ℕ → ℕ) → ℕ → ℕ → (ℕ → ℕ) → ℕ → ℕ
copy_bytes n src from to dest k =
    if leb to k && ltb k (to + n) then src (from + (k - to)) else dest k

-- The number of bytes that one round takes.
unfoldable pub round_bytes : ℕ → ℕ → ℕ → ℕ
round_bytes size offset count =
    let room = size - offset % size in if ltb count room then count else room

-- One round, with the buffer of the cluster that was read.
unfoldable pub read_round : Volume → (ℕ → ℕ) → Progress → Progress
unfolding cluster_size copy_bytes round_bytes
read_round v cluster_buffer p =
    let n = round_bytes (cluster_size v) p.offset p.count in
    record {
      cluster =
          if (p.offset + n) % cluster_size v == 0
          then follow_cluster_chain v p.cluster
          else p.cluster;
      offset = p.offset + n;
      count = p.count - n;
      buffer_offset = p.buffer_offset + n;
      position = p.position + n;
      cluster_buffer = cluster_buffer;
      buffer = copy_bytes n cluster_buffer (p.offset % cluster_size v) p.buffer_offset p.buffer;
    }

-- The variables when the loop ends, and whether every cluster could be read.
unfoldable pub read_loop : Disk → Volume → ℕ → Progress → Option (Progress × Bool)
unfolding read_round overruns
read_loop disk v zero p = none
read_loop disk v (suc fuel) p =
    let read = read_sectors disk (cluster_lba v p.cluster) v.sectors_per_cluster p.cluster_buffer in
    let rest = read_loop disk v fuel (read_round v read.0 p) in
    let used =
      if overruns disk v p.cluster p.cluster_buffer
      then none
      else if read.1
      then rest
      else some (record p { cluster_buffer = read.0 }, false) in
    if ltb 0 p.count && in_chain p.cluster then used else some (p, true)

-- The files, the buffer and the result of the loop; `none` stands for -1.
unfoldable pub finish : ℕ → Fat32 → Option (Progress × Bool) → Option (Fat32 × (ℕ → ℕ) × Option ℕ)
finish fd f none = none
finish fd f (some (p, done)) = some (
  record f { files = update f.files fd (record (f.files fd) { current_position = p.position }) },
  p.buffer,
  if done then some p.buffer_offset else none,
)

-- The start of the loop.
unfoldable pub begin : Volume → OpenFile → ℕ → (ℕ → ℕ) → (ℕ → ℕ) → Progress
unfolding skip_clusters cluster_size
begin v file size cluster_buffer buffer =
    let remaining = file.file_size - file.current_position in
    record {
      cluster = skip_clusters v (file.current_position / cluster_size v) file.first_cluster;
      offset = file.current_position;
      count = if ltb remaining size then remaining else size;
      buffer_offset = 0;
      position = file.current_position;
      cluster_buffer = cluster_buffer;
      buffer = buffer;
    }

-- The buffer is not NULL.
unfoldable pub read :
    Disk → ℕ → (ℕ → ℕ) → ℕ → (ℕ → ℕ) → ℕ → Fat32 → Option (Fat32 × (ℕ → ℕ) × Option ℕ)
unfolding read_loop finish begin
read disk fuel cluster_buffer fd buffer size f =
    if leb max_open_files fd || not (f.files fd).is_open
    then some (f, buffer, none)
    else if leb (f.files fd).file_size (f.files fd).current_position
    then some (f, buffer, some 0)
    else finish fd f
        (read_loop disk f.volume fuel (begin f.volume (f.files fd) size cluster_buffer buffer))
