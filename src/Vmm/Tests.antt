-- ===== src/Vmm/Tests.antt =====
-- Runs of the mapping table of src/vmm.c, and its theorems at concrete tables.
use a_lightweight_os.Base.{
  ◌≡◌, refl, none, not, ◌&&◌, ◌==◌, if◌then◌else◌, arith, find_first, set_bit,
}
use a_lightweight_os.Vmm
use a_lightweight_os.Vmm.Lookup.{translate-edits, is_some}

abbrev blank : Vmm.Vmm
blank = record { mappings = λ _. record { vaddr = 0; paddr = 0; flags = 0 }; mapping_count = 0 }

abbrev mapped : Vmm.Vmm
mapped = Vmm.map_page 0x5000 0x9000 3 (Vmm.map_page 0x4000 0x8000 3 blank)

shift_run : (Vmm.unmap_page 0x4000 mapped).mapping_count ≡ 1
unfolding Vmm.map_page Vmm.unmap_page find_first
shift_run = refl

two_mappings : mapped.mapping_count ≡ 2
unfolding Vmm.map_page
two_mappings = refl

not_mapped : Vmm.lookup 0x6000 mapped ≡ none
unfolding Vmm.map_page Vmm.lookup find_first
not_mapped = refl

root_run :
    (Vmm.initialize 0x3000 (record { pml4_entries = λ _. 7; pdpt_entries = λ _. 7 })).pml4_entries
      256
    ≡ 0x3023
unfolding Vmm.initialize set_bit
root_run = refl

huge_run :
    (Vmm.initialize 0x3000 (record { pml4_entries = λ _. 7; pdpt_entries = λ _. 7 })).pdpt_entries 5
    ≡ 0x1400000A3
unfolding Vmm.initialize set_bit
huge_run = refl

translate-edits_example :
    (Vmm.translate 0x6000 (Vmm.map_page 0x6000 0xA000 3 mapped) ≡ (
      if (0x6000 == 0x6000) && not (is_some (Vmm.lookup 0x6000 mapped))
      then 0xA000
      else Vmm.translate 0x6000 mapped))
    × (Vmm.translate 0x5000 (Vmm.unmap_page 0x6000 mapped) ≡ Vmm.translate 0x5000 mapped)
translate-edits_example =
    translate-edits 0x6000 0xA000 3 0x6000 0x5000 mapped (let e = two_mappings in omega arith)
      (omega arith)
