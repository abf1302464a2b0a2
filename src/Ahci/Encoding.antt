-- ===== src/Ahci/Encoding.antt =====
-- What the adapter reads in the command tables that src/ahci.c writes.
pub mod Bytes
use a_lightweight_os.Base.{
  ℕ, zero, suc, ◌+◌, ◌-◌, ◌*◌, ◌/◌, ◌%◌, ◌^◌, ◌≤◌, ◌<◌, ◌≡◌, refl, sym, ap, ◌∙◌, Bool, true, false,
  List, [], ◌∷◌, ltb, ◌==◌, if◌then◌else◌, arith, Bool-cases, inl, inr, u32, update, set_bit,
  get_or,
}
use a_lightweight_os.Ahci.{Layout, put_le, ahci_memcpy}
use a_lightweight_os.Ahci.Command.{
  table_address, put_fis, put_entry, fis_bytes, count_bytes, put_table, command_memory, put_header,
}
use a_lightweight_os.Ahci.Encoding.Bytes.{
  get_le, get_le-put_le, get_le_ext, put_le_below, put_le_above, put_fis_at, put_fis_below,
  put_fis_above,
}

set_bit_high : (w : ℕ) → w < 2 ^ 31 → set_bit w 31 ≡ 2 ^ 31 + w
unfolding set_bit
set_bit_high w l = omega arith

module _ (table buffer count : ℕ) (write : Bool) (lba : ℕ) (m : ℕ → ℕ) where
  abbrev with_entry : ℕ → ℕ
  with_entry = put_entry table buffer count m

  abbrev with_fis : ℕ → ℕ
  with_fis = put_fis table (fis_bytes write lba) with_entry

  abbrev whole : ℕ → ℕ
  whole = put_table table buffer count write lba m

  -- One of the first eleven bytes.
  table_fis : (k : ℕ) → k < 11 → whole (table + k) ≡ get_or (fis_bytes write lba) k 0
  unfolding put_table
  table_fis k l =
      let e : (table + 64 == table + k) ≡ false = ground arith in
      rw e (
        put_fis_below (count_bytes count) (table + 12) with_fis (table + k) (omega arith)
        ∙ put_fis_at (fis_bytes write lba) table with_entry k (table + k) l refl)

  -- The two bytes of the count.
  table_count : (k : ℕ) → k < 2 → whole (table + 12 + k) ≡ get_or (count_bytes count) k 0
  unfolding put_table
  table_count k l =
      let e : (table + 64 == table + 12 + k) ≡ false = ground arith in
      rw e (put_fis_at (count_bytes count) (table + 12) with_fis k (table + 12 + k) l refl)

  -- The entry for the buffer stands behind the bytes of the command.
  table_entry : (j : ℕ) → table + 128 ≤ j → whole j ≡ with_entry j
  unfolding put_table
  table_entry j l =
      let e : (table + 64 == j) ≡ false = ground arith in
      rw e (
        put_fis_above (count_bytes count) (table + 12) with_fis j (omega arith)
        ∙ put_fis_above (fis_bytes write lba) table with_entry j (omega arith))

  entry_address :
      buffer < 2 ^ 64
      → get_le 4 (table + 128) whole + get_le 4 (table + 132) whole * 2 ^ 32 ≡ buffer
  entry_address l =
      let low = u32 buffer in
      let high = u32 (buffer / 2 ^ 32) in
      let one = put_le 4 (table + 128) low m in
      let two = put_le 4 (table + 132) high one in
      let dbc = set_bit (u32 (u32 (count * 512) + 2 ^ 32 - 1)) 31 in
      let a : get_le 4 (table + 128) whole ≡ low =
        get_le_ext 4 (table + 128) whole one (λ k u v.
          table_entry k u
          ∙ (unfold put_entry in
              put_le_below 4 (table + 140) dbc two k (omega arith)
              ∙ put_le_below 4 (table + 132) high one k (omega arith)))
        ∙ get_le-put_le 4 (table + 128) low m (omega arith) in
      let b : get_le 4 (table + 132) whole ≡ high =
        get_le_ext 4 (table + 132) whole two (λ k u v.
          table_entry k (omega arith)
          ∙ (unfold put_entry in put_le_below 4 (table + 140) dbc two k (omega arith)))
        ∙ get_le-put_le 4 (table + 132) high one (omega arith) in
      omega (arith, a, b)

  entry_length : 1 ≤ count → count < 65536 → get_le 4 (table + 140) whole ≡ 2 ^ 31 + count * 512 - 1
  entry_length l u =
      let dbc = set_bit (u32 (u32 (count * 512) + 2 ^ 32 - 1)) 31 in
      let z : u32 (u32 (count * 512) + 2 ^ 32 - 1) ≡ count * 512 - 1 = omega arith in
      let e : dbc ≡ 2 ^ 31 + count * 512 - 1 =
        ap (λ w. set_bit w 31) z ∙ set_bit_high (count * 512 - 1) (omega arith) ∙ omega arith in
      let f : get_le 4 (table + 140) with_entry ≡ dbc =
        unfold put_entry in
        get_le-put_le 4 (table + 140) dbc
          (put_le 4 (table + 132) (u32 (buffer / 2 ^ 32)) (put_le 4 (table + 128) (u32 buffer) m))
          (omega (arith, e)) in
      get_le_ext 4 (table + 140) whole with_entry (λ k v w. table_entry k (omega arith)) ∙ f ∙ e

  command_bytes :
      (whole table ≡ 0x27)
      × (whole (table + 1) ≡ 0x80)
      × (whole (table + 2) ≡ (if write then 0x35 else 0x25))
  command_bytes =
      let z : table + 0 ≡ table = omega arith in
      (
        ap whole (sym z) ∙ table_fis 0 (omega arith),
        table_fis 1 (omega arith),
        table_fis 2 (omega arith),
      )

  command_count : count < 65536 → get_le 2 (table + 12) whole ≡ count
  command_count l =
      let a : whole (table + 12 + 1) ≡ count / 2 ^ 8 % 256 = table_count 1 (omega arith) in
      let z : table + 12 + 0 ≡ table + 12 = omega arith in
      let b : whole (table + 12) ≡ count % 256 = ap whole (sym z) ∙ table_count 0 (omega arith) in
      omega (arith, a, b)

  command_lba :
      lba < 2 ^ 48 → get_le 3 (table + 4) whole + get_le 3 (table + 8) whole * 2 ^ 24 ≡ lba
  command_lba l =
      let a : whole (table + 4) ≡ lba % 256 = table_fis 4 (omega arith) in
      let b : whole (table + 4 + 1) ≡ lba / 2 ^ 8 % 256 = at 5 (omega arith) (omega arith) in
      let c : whole (table + 4 + 1 + 1) ≡ lba / 2 ^ 16 % 256 = at 6 (omega arith) (omega arith) in
      let d : whole (table + 8) ≡ lba / 2 ^ 24 % 256 = table_fis 8 (omega arith) in
      let e : whole (table + 8 + 1) ≡ lba / 2 ^ 32 % 256 = at 9 (omega arith) (omega arith) in
      let f : whole (table + 8 + 1 + 1) ≡ lba / 2 ^ 40 % 256 = at 10 (omega arith) (omega arith) in
      omega (arith, a, b, c, d, e, f)
    where
      at : {j : ℕ} (k : ℕ) → k < 11 → j ≡ table + k → whole j ≡ get_or (fis_bytes write lba) k 0
      at k u z = ap whole z ∙ table_fis k u

-- From the command table of a prepared transfer the adapter reads the type of the message, the command, the
-- whole 48-bit number of the sector, the number of sectors, the address of the buffer, and its length in
-- bytes less one with the mark for an interrupt.
pub command_memory-decodes :
    (a : Layout) (first port list slot buffer count : ℕ) (write : Bool) (lba : ℕ) (m : ℕ → ℕ)
    → 1 ≤ count
    → count < 65536
    → lba < 2 ^ 48
    → buffer < 2 ^ 64
    → let r = command_memory a first port list slot buffer count write lba m in
      let table = table_address a first port slot in
      (r table ≡ 0x27)
      × (r (table + 1) ≡ 0x80)
      × (r (table + 2) ≡ (if write then 0x35 else 0x25))
      × (get_le 3 (table + 4) r + get_le 3 (table + 8) r * 2 ^ 24 ≡ lba)
      × (get_le 2 (table + 12) r ≡ count)
      × (get_le 4 (table + 128) r + get_le 4 (table + 132) r * 2 ^ 32 ≡ buffer)
      × (get_le 4 (table + 140) r ≡ 2 ^ 31 + count * 512 - 1)
unfolding command_memory
command_memory-decodes a first port list slot buffer count write lba m l u v w =
    let table = table_address a first port slot in
    let before = put_header (list + slot * 32) write (ahci_memcpy table a.command_zeros 256 m) in
    let c = command_bytes table buffer count write lba before in
    (
      c.0,
      c.1,
      c.2,
      command_lba table buffer count write lba before v,
      command_count table buffer count write lba before u,
      entry_address table buffer count write lba before w,
      entry_length table buffer count write lba before l u,
    )
