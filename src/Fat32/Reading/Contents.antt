-- ===== src/Fat32/Reading/Contents.antt =====
-- The bytes that the reading of src/fat32.c gives, for a file that stands in a chain of clusters.
use a_lightweight_os.Base.{
  ℕ, zero, suc, ◌+◌, ◌-◌, ◌*◌, ◌/◌, ◌%◌, ◌<◌, ◌≤◌, ◌≡◌, refl, sym, ◌∙◌, inl, inr, ◌⊎◌, true, false,
  ◌&&◌, some, leb, ltb, ◌==◌, if◌then◌else◌, arith, ap, subst, Bool-cases, split_by, div_of, mod_of,
  min, update,
}
use native.Mathlib.Nat.{mul-le-mul_right}
use a_lightweight_os.Fat32.{
  Disk, Volume, OpenFile, Fat32, read_sectors, cluster_lba, is_eoc, follow_cluster_chain,
  max_open_files,
}
use a_lightweight_os.Fat32.Directory.{in_chain, overruns, in_chain-is_eoc}
use a_lightweight_os.Fat32.Reading.{
  Progress, cluster_size, skip_clusters, copy_bytes, round_bytes, read_round, read_loop, finish,
  begin, read,
}
use a_lightweight_os.Fat32.Reading.Sectors.{Holds, byte_of, read_sectors-byte_of}

-- The clusters of a chain.
unfoldable pub nth : Volume → ℕ → ℕ → ℕ
nth v c zero = c
nth v c (suc n) = nth v (follow_cluster_chain v c) n

nth-suc : (v : Volume) (n c : ℕ) → nth v c (n + 1) ≡ follow_cluster_chain v (nth v c n)
unfolding nth
nth-suc v zero c = let e : 0 + 1 ≡ suc 0 = refl in ap (nth v c) e
nth-suc v (suc n) c =
    let e : suc n + 1 ≡ suc (n + 1) = omega arith in
    ap (nth v c) e ∙ nth-suc v n (follow_cluster_chain v c)

-- A file of a size whose clusters have at most eight sectors, are linked and can be read; `sector n` are
-- the sectors of its n-th cluster.
pub record Stored (disk : Disk) (v : Volume) (first size : ℕ) (sector : ℕ → ℕ → ℕ → ℕ)
    : Type 0 where
  pub wide : 0 < v.sectors_per_cluster
  pub fits : v.sectors_per_cluster ≤ 8
  pub linked : (n : ℕ) → n * cluster_size v < size → in_chain (nth v first n) ≡ true
  pub held :
      (n : ℕ)
      → n * cluster_size v < size
      → Holds disk (cluster_lba v (nth v first n)) 0 v.sectors_per_cluster (sector n)

-- The byte at a place of the file.
unfoldable pub content : Volume → (ℕ → ℕ → ℕ → ℕ) → ℕ → ℕ
content v sector k = byte_of (sector (k / cluster_size v)) (k % cluster_size v)

-- A place that stands in the same cluster.
near : (c o d : ℕ) → 0 < c → o % c + d < c → ((o + d) / c ≡ o / c) × ((o + d) % c ≡ o % c + d)
near c o d p l =
    let s = split_by c o p in
    let e : o + d ≡ o / c * c + (o % c + d) = omega (arith, s.0) in
    (
      ap (λ t. t / c) e ∙ div_of c (o / c) (o % c + d) l,
      ap (λ t. t % c) e ∙ mod_of c (o / c) (o % c + d) l,
    )

-- The start of the next cluster.
next : (c o : ℕ) → 0 < c → ((o + (c - o % c)) / c ≡ o / c + 1) × ((o + (c - o % c)) % c ≡ 0)
next c o p =
    let s = split_by c o p in
    let m : (o / c + 1) * c ≡ o / c * c + c = omega arith in
    let l : o % c < c = s.1 in
    let e : o + (c - o % c) ≡ (o / c + 1) * c + 0 = omega (arith, s.0, m, l) in
    (ap (λ t. t / c) e ∙ div_of c (o / c + 1) 0 p, ap (λ t. t % c) e ∙ mod_of c (o / c + 1) 0 p)

-- Two ranges, one behind the other.
if_append :
    (a n m k : ℕ) (x y w z : ℕ)
    → (a + n ≤ k → k < a + n + m → x ≡ w)
    → (a ≤ k → k < a + n → y ≡ w)
    → (if leb (a + n) k && ltb k (a + n + m) then x else if leb a k && ltb k (a + n) then y else z)
      ≡ (if leb a k && ltb k (a + (n + m)) then w else z)
if_append a n m k x y w z f g = ground arith

content-near :
    (v : Volume) (sector : ℕ → ℕ → ℕ → ℕ) (o d : ℕ)
    → 0 < cluster_size v
    → o % cluster_size v + d < cluster_size v
    → content v sector (o + d) ≡ byte_of (sector (o / cluster_size v)) (o % cluster_size v + d)
unfolding content
content-near v sector o d z l =
    let r = near (cluster_size v) o d z l in
    ap (λ t. byte_of (sector t) ((o + d) % cluster_size v)) r.0
    ∙ ap (byte_of (sector (o / cluster_size v))) r.1

-- What holds of the loop's variables: the cluster is the one of the offset.
abbrev Follows : Volume → ℕ → Progress → Type 0
Follows v first p = p.cluster ≡ nth v first (p.offset / cluster_size v)

-- What one round takes is not nothing and stays in the cluster.
round_bytes-bounds :
    (c o n : ℕ)
    → 0 < c
    → 0 < n
    → (0 < round_bytes c o n) × (round_bytes c o n ≤ n) × (round_bytes c o n ≤ c - o % c)
unfolding round_bytes
round_bytes-bounds c o n p q = let l = (split_by c o p).1 in ground (arith, l)

-- The number that the round takes away stops short of the cluster's end, or is all that is left of it.
round_bytes-cases : (c o n : ℕ) → (round_bytes c o n < c - o % c) ⊎ (round_bytes c o n ≡ c - o % c)
unfolding round_bytes
round_bytes-cases c o n = ground arith

read_round-Follows :
    (v : Volume) (first : ℕ) (b : ℕ → ℕ) (p : Progress)
    → 0 < cluster_size v
    → 0 < p.count
    → Follows v first p
    → Follows v first (read_round v b p)
unfolding read_round
read_round-Follows v first b p z q f =
    let c = cluster_size v in
    let n = round_bytes c p.offset p.count in
    let m = round_bytes-bounds c p.offset p.count z q in
    elim (round_bytes-cases c p.offset p.count) [
      | inl l ↦
          let r = near c p.offset n z (omega (arith, l, (split_by c p.offset z).1)) in
          let e : ((p.offset + n) % c == 0) ≡ false = let d = r.1 in ground (arith, d, m) in
          rw e (f ∙ ap (nth v first) (sym r.0))
      | inr l ↦
          let r = next c p.offset z in
          let s = ap (λ t. (p.offset + t) / c) l ∙ r.0 in
          let e : ((p.offset + n) % c == 0) ≡ true =
            let d = ap (λ t. (p.offset + t) % c) l ∙ r.1 in ground (arith, d) in
          rw e (
            ap (follow_cluster_chain v) f
            ∙ sym (nth-suc v (p.offset / c) first)
            ∙ ap (nth v first) (sym s))
    ]

-- The buffer with the bytes of the file from an offset on.
abbrev filled : Volume → (ℕ → ℕ → ℕ → ℕ) → Progress → ℕ → ℕ
filled v sector p k =
    if leb p.buffer_offset k && ltb k (p.buffer_offset + p.count)
    then content v sector (p.offset + (k - p.buffer_offset))
    else p.buffer k

read_round-filled :
    (v : Volume) (sector : ℕ → ℕ → ℕ → ℕ) (b : ℕ → ℕ) (p : Progress)
    → 0 < cluster_size v
    → 0 < p.count
    → ((j : ℕ) → j < cluster_size v → b j ≡ byte_of (sector (p.offset / cluster_size v)) j)
    → (k : ℕ) → filled v sector (read_round v b p) k ≡ filled v sector p k
unfolding read_round copy_bytes
read_round-filled v sector b p z q h k =
    let c = cluster_size v in
    let n = round_bytes c p.offset p.count in
    let m = round_bytes-bounds c p.offset p.count z q in
    let e : n + (p.count - n) ≡ p.count = omega (arith, m) in
    subst
      (λ t. filled v sector (read_round v b p) k ≡ (
        if leb p.buffer_offset k && ltb k (p.buffer_offset + t)
        then content v sector (p.offset + (k - p.buffer_offset))
        else p.buffer k))
      e
      (if_append p.buffer_offset n (p.count - n) k _ _ _ _
        (λ x y. ap (content v sector) (
          let d : p.offset + n + (k - (p.buffer_offset + n)) ≡ p.offset + (k - p.buffer_offset) =
            omega (arith, x) in
          d))
        (λ x y.
          let l : p.offset % c + (k - p.buffer_offset) < c = omega (arith, m, x, y) in
          h (p.offset % c + (k - p.buffer_offset)) l
          ∙ sym (content-near v sector p.offset (k - p.buffer_offset) z l)))

wide-cluster_size : (v : Volume) → 0 < v.sectors_per_cluster → 0 < cluster_size v
unfolding cluster_size
wide-cluster_size v w = omega (arith, w)

-- With more fuel than there are bytes to read the loop ends without an error, and the buffer holds the
-- bytes of the file.
read_loop-filled :
    (disk : Disk) (v : Volume) (first size : ℕ) (sector : ℕ → ℕ → ℕ → ℕ)
    → Stored disk v first size sector
    → (fuel : ℕ) (p : Progress) → p.count < fuel
    → p.offset + p.count ≤ size
    → Follows v first p
    → (p' : Progress) × (read_loop disk v fuel p ≡ some (p', true))
      × (p'.position ≡ p.position + p.count)
      × (p'.buffer_offset ≡ p.buffer_offset + p.count)
      × ((k : ℕ) → p'.buffer k ≡ filled v sector p k)
unfolding read_loop overruns
read_loop-filled disk v first size sector st zero p l m f = absurd (omega arith)
read_loop-filled disk v first size sector st (suc fuel) p l m f =
    elim (Bool-cases (ltb 0 p.count)) [
      | inr e ↦ (
        p,
        rw e refl,
        ground arith,
        ground arith,
        λ k.
            let o : (leb p.buffer_offset k && ltb k (p.buffer_offset + p.count)) ≡ false =
              ground arith in
            rw o refl,
      )
      | inl e ↦
          let c = cluster_size v in
          let i = p.offset / c in
          let z = wide-cluster_size v st.wide in
          let q : 0 < p.count = ground arith in
          let room : ltb 8 v.sectors_per_cluster ≡ false = let s = st.fits in ground (arith, s) in
          let inside : i * c < size = let s = split_by c p.offset z in omega (arith, s) in
          let linked = ap in_chain f ∙ st.linked i inside in
          let held =
            subst (λ t. Holds disk (cluster_lba v t) 0 v.sectors_per_cluster (sector i)) (sym f)
              (st.held i inside) in
          let r =
            read_sectors-byte_of disk (cluster_lba v p.cluster) v.sectors_per_cluster
              p.cluster_buffer (sector i) held in
          let b =
            (read_sectors disk (cluster_lba v p.cluster) v.sectors_per_cluster
              p.cluster_buffer).0 in
          let n = round_bytes-bounds c p.offset p.count z q in
          let (p', d, x, y, g) =
            read_loop-filled disk v first size sector st fuel (read_round v b p)
              (unfold read_round in omega (arith, n, l)) (unfold read_round in omega (arith, n, m))
              (read_round-Follows v first b p z q f) in
          (
            p',
            rw (e, linked, room, r.0) d,
            unfold read_round in omega (arith, x, n),
            unfold read_round in omega (arith, y, n),
            λ k. g k ∙ read_round-filled v sector b p z q (unfold cluster_size in r.1) k,
          )
    ]

skip_clusters-nth :
    (v : Volume) (n c : ℕ)
    → ((m : ℕ) → m < n → is_eoc (nth v c m) ≡ false)
    → skip_clusters v n c ≡ nth v c n
unfolding skip_clusters nth
skip_clusters-nth v zero c h = refl
skip_clusters-nth v (suc n) c h =
    rw (h 0 (omega arith))
      (skip_clusters-nth v n (follow_cluster_chain v c) (λ m l. h (suc m) (omega (arith, l))))

begin-Follows :
    (disk : Disk) (v : Volume) (file : OpenFile) (size : ℕ) (sector : ℕ → ℕ → ℕ → ℕ)
    (b buffer : ℕ → ℕ)
    → Stored disk v file.first_cluster file.file_size sector
    → file.current_position < file.file_size
    → Follows v file.first_cluster (begin v file size b buffer)
unfolding begin
begin-Follows disk v file size sector b buffer st l =
    let c = cluster_size v in
    let s = split_by c file.current_position (wide-cluster_size v st.wide) in
    skip_clusters-nth v (file.current_position / c) file.first_cluster (λ m k.
      let t =
        mul-le-mul_right c (let k' : m ≤ file.current_position / c = omega (arith, k) in k') in
      in_chain-is_eoc (nth v file.first_cluster m) (st.linked m (omega (arith, s, t))))

-- The number of bytes that are read, and the files after that.
abbrev taken : OpenFile → ℕ → ℕ
taken file size = min size (file.file_size - file.current_position)

abbrev moved_to : ℕ → ℕ → Fat32 → Fat32
moved_to fd place f = record f {
  files = update f.files fd (record (f.files fd) { current_position = place });
}

count-begin :
    (v : Volume) (file : OpenFile) (size : ℕ) (b buffer : ℕ → ℕ)
    → (begin v file size b buffer).count ≡ taken file size
unfolding begin
count-begin v file size b buffer = ground arith

filled-begin :
    (v : Volume) (sector : ℕ → ℕ → ℕ → ℕ) (file : OpenFile) (size : ℕ) (b buffer : ℕ → ℕ) (k : ℕ)
    → filled v sector (begin v file size b buffer) k
      ≡ (if ltb k (taken file size) then content v sector (file.current_position + k) else buffer k)
unfolding begin
filled-begin v sector file size b buffer k =
    let c = count-begin v file size b buffer in
    let e : (leb 0 k && ltb k (0 + (begin v file size b buffer).count)) ≡ ltb k (taken file size) =
      ground (arith, c) in
    let z : k - 0 ≡ k = omega arith in rw (e, z) refl

read-finish :
    (disk : Disk) (fuel : ℕ) (b : ℕ → ℕ) (fd : ℕ) (buffer : ℕ → ℕ) (size : ℕ) (f : Fat32)
    → fd < max_open_files
    → (f.files fd).is_open ≡ true
    → (f.files fd).current_position < (f.files fd).file_size
    → read disk fuel b fd buffer size f
      ≡ finish fd f (read_loop disk f.volume fuel (begin f.volume (f.files fd) size b buffer))
unfolding read
read-finish disk fuel b fd buffer size f i o l =
    let u : leb max_open_files fd ≡ false = ground arith in
    let w : leb (f.files fd).file_size (f.files fd).current_position ≡ false = ground arith in
    rw (u, o, w) refl

finish_lem :
    (fd : ℕ) (f : Fat32) (p : Progress) (place n : ℕ)
    → p.position ≡ place
    → p.buffer_offset ≡ n
    → finish fd f (some (p, true)) ≡ some (moved_to fd place f, p.buffer, some n)
unfolding finish
finish_lem fd f p place n x y =
    ap (λ t. some (moved_to fd t f, p.buffer, some p.buffer_offset)) x
    ∙ ap (λ t. some (moved_to fd place f, p.buffer, some t)) y

-- A read from an open file whose clusters have at most eight sectors, are linked and can be read, at a
-- place before its end and with more fuel than there are bytes to read: it succeeds, it returns the number of bytes that were
-- asked for or, if fewer are left, of those; they stand at the start of the buffer as they stand in the
-- file from the place on, the rest of the buffer is as before, and the place moves on by that number.
pub read-content :
    (disk : Disk) (fuel : ℕ) (b : ℕ → ℕ) (fd : ℕ) (buffer : ℕ → ℕ) (size : ℕ) (f : Fat32)
    (sector : ℕ → ℕ → ℕ → ℕ)
    → fd < max_open_files
    → (f.files fd).is_open ≡ true
    → (f.files fd).current_position < (f.files fd).file_size
    → Stored disk f.volume (f.files fd).first_cluster (f.files fd).file_size sector
    → taken (f.files fd) size < fuel
    → (buffer' : ℕ → ℕ) × (read disk fuel b fd buffer size f
        ≡ some (
          moved_to fd ((f.files fd).current_position + taken (f.files fd) size) f,
          buffer',
          some (taken (f.files fd) size),
        ))
      × ((k : ℕ)
          → buffer' k ≡ (
              if ltb k (taken (f.files fd) size)
              then content f.volume sector ((f.files fd).current_position + k)
              else buffer k))
read-content disk fuel b fd buffer size f sector i o l st m =
    let file = f.files fd in
    let c = count-begin f.volume file size b buffer in
    let (p', d, x, y, g) =
      read_loop-filled disk f.volume file.first_cluster file.file_size sector st fuel
        (begin f.volume file size b buffer) (omega (arith, c, m))
        (unfold begin in omega (arith, c, l))
        (begin-Follows disk f.volume file size sector b buffer st l) in
    (
      p'.buffer,
      read-finish disk fuel b fd buffer size f i o l
          ∙ ap (finish fd f) d
          ∙ finish_lem fd f p' (file.current_position + taken file size) (taken file size)
              (unfold begin in omega (arith, x, c)) (unfold begin in omega (arith, y, c)),
      λ k. g k ∙ filled-begin f.volume sector file size b buffer k,
    )
