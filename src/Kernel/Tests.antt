-- ===== src/Kernel/Tests.antt =====
-- Runs of src/kernel.c, and its theorem at a boot record with 4 MB of memory.
use a_lightweight_os.Base.{
  ℕ, ◌<◌, ◌≡◌, refl, inr, true, not, ◌&&◌, none, some, List, [], ◌∷◌, ltb, ◌==◌, if◌then◌else◌,
  arith, codes,
}
use a_lightweight_os.Pmm.{Pmm}
use a_lightweight_os.Pmm.Frames.{is_free, IsValid}
use a_lightweight_os.Kernel.{setup_memory}
use a_lightweight_os.Kernel.Multiboot.{entry_at, u32_at, memory_top, visit_top}
use a_lightweight_os.Kernel.Multiboot.Walks.{Tag, memory_map, Tags}
use a_lightweight_os.Kernel.Memory.{memory_of, frames_of, usable, setup_memory-frees}
use a_lightweight_os.Kernel.Printing

-- One tag with one entry, and the tag of type 0.
abbrev boot_record : ℕ → ℕ
boot_record o =
    if o == 0
    then 56
    else if o == 8
    then 6
    else if o == 12
    then 40
    else if o == 16
    then 24
    else if o == 34
    then 0x40
    else if o == 40
    then 1
    else 0

abbrev tags : List Tag
tags = memory_map (record { addr = 0; len = 0x400000; kind = 1 } ∷ []) ∷ []

boot_record-Tags : Tags boot_record 8 (u32_at boot_record 0) tags
unfolding entry_at
boot_record-Tags = (omega arith, refl, (omega arith, refl, omega arith), inr refl)

abbrev blank : Pmm
blank = record { bitmap = λ _. 7; total_frames = 0; free_frames = 0; base_address = 0 }

setup_memory-frees_example :
    let total = frames_of (memory_of tags) in
    (r : Pmm) × (setup_memory 4 (some boot_record) blank ≡ some r)
    × IsValid r
    × (r.total_frames ≡ total)
    × ((f : ℕ) → f < total → is_free r f ≡ (not (ltb f 512) && usable tags total f))
setup_memory-frees_example =
    setup_memory-frees 4 boot_record tags blank boot_record-Tags (omega arith, omega arith)

top_run : memory_top 4 (some boot_record) ≡ some 0x400000
unfolding memory_top visit_top entry_at
top_run = refl

usable_run : (memory_of tags ≡ 0x400000) × (usable tags 1024 600 ≡ true)
unfolding visit_top
usable_run = (refl, refl)

-- A tag of size 0 never ends the walk.
stuck_run : memory_top 50 (some (λ o. if o == 0 then 56 else if o == 8 then 1 else 0)) ≡ none
unfolding memory_top
stuck_run = refl

-- The values are not printed, and `%lu` is not known.
printed_run : Printing.kprintf (codes "a %d %lu") (λ _. []) ≡ some (codes "a  u", 14)
unfolding Printing.kprintf
printed_run = refl

-- A lone per cent sign at the end makes the loop go on behind the format.
overrun_run : Printing.kprintf (codes "100%") (λ _. []) ≡ none
unfolding Printing.kprintf
overrun_run = refl
