-- ===== src/Kernel/Multiboot.antt =====
-- The walks of src/kernel.c over the tags and the memory map that the boot loader leaves. The pointer is
-- a function from the offset to the byte, or `none` for NULL, and a place in it is an offset. The walks
-- take fuel, and `none` means that it ran out.
pub mod Walks
use a_lightweight_os.Base.{
  ℕ, zero, suc, ◌+◌, ◌*◌, ◌/◌, ◌^◌, Bool, true, false, Option, none, some, ltb, ◌==◌, if◌then◌else◌,
  u32, u64,
}
use a_lightweight_os.Pmm.{Pmm, add_available_range}

-- Little-endian words.
abbrev pub u32_at : (ℕ → ℕ) → ℕ → ℕ
u32_at b o = b o + b (o + 1) * 2 ^ 8 + b (o + 2) * 2 ^ 16 + b (o + 3) * 2 ^ 24

abbrev u64_at : (ℕ → ℕ) → ℕ → ℕ
u64_at b o = u32_at b o + u32_at b (o + 4) * 2 ^ 32

-- multiboot_mmap_entry_t.
pub record Entry : Type 0 where
  pub addr : ℕ
  pub len : ℕ
  pub kind : ℕ

unfoldable pub entry_at : (ℕ → ℕ) → ℕ → Entry
entry_at b e = record { addr = u64_at b e; len = u64_at b (e + 8); kind = u32_at b (e + 16) }

-- The fields of a tag, and the place of the next one.
abbrev pub tag_type : (ℕ → ℕ) → ℕ → ℕ
tag_type b p = u32_at b p

abbrev pub tag_size : (ℕ → ℕ) → ℕ → ℕ
tag_size b p = u32_at b (p + 4)

abbrev pub entry_size : (ℕ → ℕ) → ℕ → ℕ
entry_size b p = u32_at b (p + 8)

abbrev pub next_tag : (ℕ → ℕ) → ℕ → ℕ
next_tag b p = p + u32 (tag_size b p + 7) / 8 * 8

-- The two walks differ in what they do at a memory map and at each of its entries.
module _ {A : Type 0} (visit : Entry → A → A) (at_map : A → A) where
  pub walk_entries : ℕ → (ℕ → ℕ) → ℕ → ℕ → ℕ → A → Option A
  walk_entries zero b size e stop a = none
  walk_entries (suc fuel) b size e stop a =
      let rest = walk_entries fuel b size (e + size) stop (visit (entry_at b e) a) in
      if ltb e stop then rest else some a

  pub walk_tags : ℕ → (ℕ → ℕ) → ℕ → ℕ → A → Option A
  unfolding walk_entries
  walk_tags zero b p stop a = none
  walk_tags (suc fuel) b p stop a =
      let further = walk_tags fuel b (next_tag b p) stop in
      let mapped : Option A =
        elim (walk_entries fuel b (entry_size b p) (p + 16) (p + tag_size b p) (at_map a)) [
          | none ↦ none
          | some a' ↦ further a'
        ] in
      if ltb p stop
      then if tag_type b p == 0 then some a else if tag_type b p == 6 then mapped else further a
      else some a

-- The largest end of an entry.
unfoldable pub visit_top : Entry → ℕ → ℕ
visit_top e top = let end = u64 (e.addr + e.len) in if ltb top end then end else top

unfoldable pub memory_top : ℕ → Option (ℕ → ℕ) → Option ℕ
unfolding walk_tags visit_top
memory_top fuel none = some 0
memory_top fuel (some b) = walk_tags visit_top (λ top. top) fuel b 8 (u32_at b 0) 0

-- `pmm_add_available_range(entry->addr, entry->len)` for memory that is available.
unfoldable pub visit_available : Entry → Pmm × Bool → Pmm × Bool
visit_available e (s, found) =
    (if e.kind == 1 then add_available_range e.addr e.len s else s, found)

-- The manager afterwards, and whether a memory map was found.
unfoldable pub mark_memory : ℕ → Option (ℕ → ℕ) → Pmm → Option (Pmm × Bool)
unfolding walk_tags visit_available
mark_memory fuel none s = some (s, false)
mark_memory fuel (some b) s =
    walk_tags visit_available (λ r. (r.0, true)) fuel b 8 (u32_at b 0) (s, false)
