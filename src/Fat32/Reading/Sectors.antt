-- ===== src/Fat32/Reading/Sectors.antt =====
-- What fat32_read_sectors of src/fat32.c leaves in the buffer.
use a_lightweight_os.Base.{
  ℕ, zero, suc, ◌+◌, ◌-◌, ◌*◌, ◌/◌, ◌%◌, ◌<◌, ◌≤◌, ◌≡◌, refl, ◌∙◌, inl, inr, ◌⊎◌, true, false, ◌&&◌,
  some, leb, ltb, if◌then◌else◌, arith, u32,
}
use a_lightweight_os.Fat32.{Disk, put_sector, read_from, read_sectors}

-- The sectors from number `i` on that a disk holds.
abbrev pub Holds : Disk → ℕ → ℕ → ℕ → (ℕ → ℕ → ℕ) → Type 0
Holds disk lba i n sector = (m : ℕ) → i ≤ m → m < i + n → disk (u32 (lba + m)) ≡ some (sector m)

-- A byte of the sectors that stand one behind the other.
abbrev pub byte_of : (ℕ → ℕ → ℕ) → ℕ → ℕ
byte_of sector k = sector (k / 512) (k % 512)

-- The first sector, and those behind it.
put_sector-byte_of :
    (n i k : ℕ) (b : ℕ → ℕ) (sector : ℕ → ℕ → ℕ)
    → (if leb ((i + 1) * 512) k && ltb k ((i + 1 + n) * 512)
        then byte_of sector k
        else put_sector (i * 512) (sector i) b k)
      ≡ (if leb (i * 512) k && ltb k ((i + suc n) * 512) then byte_of sector k else b k)
unfolding put_sector
put_sector-byte_of n i k b sector = elim (cases (i * 512) k) [
  | inl x ↦
      let p : (leb ((i + 1) * 512) k && ltb k ((i + 1 + n) * 512)) ≡ false = ground arith in
      let q : (leb (i * 512) k && ltb k (i * 512 + 512)) ≡ false = ground arith in
      let r : (leb (i * 512) k && ltb k ((i + suc n) * 512)) ≡ false = ground arith in
      rw (p, q, r) refl
  | inr x ↦ elim (cases ((i + 1) * 512) k) [
    | inl y ↦
        let p : (leb ((i + 1) * 512) k && ltb k ((i + 1 + n) * 512)) ≡ false = ground arith in
        let q : (leb (i * 512) k && ltb k (i * 512 + 512)) ≡ true = ground arith in
        let r : (leb (i * 512) k && ltb k ((i + suc n) * 512)) ≡ true = ground arith in
        let d : k / 512 ≡ i = omega arith in
        let m : k % 512 ≡ k - i * 512 = omega arith in rw (p, q, r, d, m) refl
    | inr y ↦
        let q : (leb (i * 512) k && ltb k (i * 512 + 512)) ≡ false = ground arith in
        let e : (leb ((i + 1) * 512) k && ltb k ((i + 1 + n) * 512))
            ≡ (leb (i * 512) k && ltb k ((i + suc n) * 512)) =
          ground arith in
        rw (q, e) refl
  ]
]
  where
    cases : (m k : ℕ) → (k < m) ⊎ (m ≤ k)
    cases m k = omega arith

read_from-byte_of :
    (disk : Disk) (lba n i : ℕ) (b : ℕ → ℕ) (sector : ℕ → ℕ → ℕ)
    → Holds disk lba i n sector
    → ((read_from disk lba n i b).1 ≡ true)
      × ((k : ℕ)
          → (read_from disk lba n i b).0 k
            ≡ (if leb (i * 512) k && ltb k ((i + n) * 512) then byte_of sector k else b k))
unfolding read_from put_sector
read_from-byte_of disk lba zero i b sector h = (
  refl,
  λ k. let e : (leb (i * 512) k && ltb k ((i + 0) * 512)) ≡ false = ground arith in rw e refl,
)
read_from-byte_of disk lba (suc n) i b sector h =
    let ih =
      read_from-byte_of disk lba n (i + 1) (put_sector (i * 512) (sector i) b) sector
        (λ m a c. h m (omega arith) (omega arith)) in
    rw (h i (omega arith) (omega arith), read_from)
      (ih.0, λ k. ih.1 k ∙ put_sector-byte_of n i k b sector)

-- All bytes of the buffer.
pub read_sectors-all :
    (disk : Disk) (lba n : ℕ) (b : ℕ → ℕ) (sector : ℕ → ℕ → ℕ)
    → Holds disk lba 0 n sector
    → ((read_sectors disk lba n b).1 ≡ true)
      × ((k : ℕ)
          → (read_sectors disk lba n b).0 k ≡ (if ltb k (n * 512) then byte_of sector k else b k))
unfolding read_sectors
read_sectors-all disk lba n b sector h =
    let r = read_from-byte_of disk lba n 0 b sector h in
    (
      r.0,
      λ k.
          let e : (leb (0 * 512) k && ltb k ((0 + n) * 512)) ≡ ltb k (n * 512) = ground arith in
          r.1 k ∙ rw e refl,
    )

pub read_sectors-byte_of :
    (disk : Disk) (lba n : ℕ) (b : ℕ → ℕ) (sector : ℕ → ℕ → ℕ)
    → Holds disk lba 0 n sector
    → ((read_sectors disk lba n b).1 ≡ true)
      × ((k : ℕ) → k < n * 512 → (read_sectors disk lba n b).0 k ≡ byte_of sector k)
read_sectors-byte_of disk lba n b sector h =
    let r = read_sectors-all disk lba n b sector h in
    (r.0, λ k l. let e : ltb k (n * 512) ≡ true = ground arith in r.1 k ∙ rw e refl)
