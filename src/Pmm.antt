-- ===== src/Pmm.antt =====
-- src/pmm.c, the bitmap allocator of physical frames. `Pmm` is `pmm_state`; a set bit is a free
-- frame. The bitmap stands for `bitmap_storage`, of 131072 words.
pub mod Frames
pub mod Ranges
pub mod Invariant
pub mod Allocate
mod Tests
use a_lightweight_os.Base.{
  ℕ, zero, suc, ◌+◌, ◌-◌, ◌*◌, ◌/◌, ◌%◌, ◌^◌, Bool, true, false, ◌&&◌, not, Option, none, some, ltb,
  ◌==◌, if◌then◌else◌, update, for_up, u64, test_bit, set_bit, clear_bit,
}

pub record Pmm : Type 0 where
  pub bitmap : ℕ → ℕ
  pub total_frames : ℕ
  pub free_frames : ℕ
  pub base_address : ℕ

abbrev pub frame_size : ℕ
frame_size = 4096

abbrev pub max_words : ℕ
max_words = 131072

-- (total_frames + 63) / 64
abbrev pub words : Pmm → ℕ
words s = u64 (s.total_frames + 63) / 64

pub initialize : Pmm → ℕ → Pmm
initialize s total_memory =
    let total = u64 (total_memory + frame_size - 1) / frame_size in
    let size = u64 (total + 63) / 64 in
    let clipped = ltb max_words size in
    let used = if clipped then max_words else size in
    record {
      bitmap = for_up used (λ i bm. update bm i 0) s.bitmap;
      total_frames = if clipped then max_words * 64 else total;
      free_frames = 0;
      base_address = 0;
    }

-- The body of the loop of pmm_add_available_range, behind its bounds test.
pub mark_free : ℕ → Pmm → Pmm
mark_free frame s = if test_bit (s.bitmap (frame / 64)) (frame % 64) then s else record s {
  bitmap = update s.bitmap (frame / 64) (set_bit (s.bitmap (frame / 64)) (frame % 64));
  free_frames = u64 (s.free_frames + 1);
}

-- The body of the loop of pmm_reserve_range.
pub mark_used : ℕ → Pmm → Pmm
mark_used frame s =
    if test_bit (s.bitmap (frame / 64)) (frame % 64)
    then record s {
      bitmap = update s.bitmap (frame / 64) (clear_bit (s.bitmap (frame / 64)) (frame % 64));
      free_frames = u64 (s.free_frames + 2 ^ 64 - 1);
    }
    else s

-- The loop over the frames of a range: its condition, and the `break` at `bitmap_end`.
pub each_frame : (ℕ → Pmm → Pmm) → ℕ → ℕ → ℕ → Pmm → Pmm
each_frame body zero frame end s = s
each_frame body (suc fuel) frame end s =
    elim (ltb frame end && ltb frame s.total_frames && ltb (frame / 64) (words s)) [
      | true ↦ each_frame body fuel (frame + 1) end (body frame s)
      | false ↦ s
    ]

abbrev pub start_frame : ℕ → ℕ
start_frame address = address / frame_size

abbrev pub end_frame : ℕ → ℕ → ℕ
end_frame address len = u64 (address + len + frame_size - 1) / frame_size

pub add_available_range : ℕ → ℕ → Pmm → Pmm
unfolding each_frame mark_free
add_available_range address len s =
    if len == 0
    then s
    else each_frame mark_free s.total_frames (start_frame address) (end_frame address len) s

pub reserve_range : ℕ → ℕ → Pmm → Pmm
unfolding each_frame mark_used
reserve_range address len s =
    if len == 0
    then s
    else each_frame mark_used s.total_frames (start_frame address) (end_frame address len) s

-- The inner loop of pmm_allocate_frame: the first set bit from `bit` on, `left` bits to go.
pub first_bit : ℕ → ℕ → ℕ → Option ℕ
first_bit zero bit w = none
first_bit (suc left) bit w =
    let rest = first_bit left (bit + 1) w in if test_bit w bit then some bit else rest

pub take_frame : ℕ → ℕ → Pmm → Pmm × ℕ
take_frame idx bit s = (
  record s {
    bitmap = update s.bitmap idx (clear_bit (s.bitmap idx) bit);
    free_frames = u64 (s.free_frames + 2 ^ 64 - 1);
  },
  u64 ((idx * 64 + bit) * frame_size),
)

-- The outer loop, `left` words to go.
pub allocate_from : ℕ → ℕ → Pmm → Pmm × ℕ
allocate_from zero idx s = (s, 0)
allocate_from (suc left) idx s =
    let rest = allocate_from left (idx + 1) s in
    if s.bitmap idx == 0
    then rest
    else elim (first_bit 64 0 (s.bitmap idx)) [ some bit ↦ take_frame idx bit s | none ↦ rest ]

pub allocate_frame : Pmm → Pmm × ℕ
unfolding allocate_from first_bit take_frame
allocate_frame s = allocate_from (words s) 0 s

pub free_frame : ℕ → Pmm → Pmm
free_frame paddr s =
    let frame = paddr / frame_size in
    if ltb (frame / 64) (words s)
    then record s {
      bitmap = update s.bitmap (frame / 64) (set_bit (s.bitmap (frame / 64)) (frame % 64));
      free_frames = u64 (s.free_frames + 1);
    }
    else s

pub get_available : Pmm → ℕ
get_available s = u64 (s.free_frames * frame_size)
