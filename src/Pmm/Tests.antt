-- ===== src/Pmm/Tests.antt =====
-- Runs of src/pmm.c's allocator on a machine of sixteen frames, and the theorems at that machine.
use a_lightweight_os.Base.{
  ℕ, ◌*◌, ◌≡◌, refl, true, if◌then◌else◌, ◌==◌, arith, test_bit, set_bit, clear_bit,
}
use a_lightweight_os.Pmm.{
  Pmm, initialize, add_available_range, reserve_range, allocate_frame, free_frame, get_available,
}
use a_lightweight_os.Pmm.Frames.{is_free, IsValid}
use a_lightweight_os.Pmm.Invariant.{range-IsValid, initialize-IsValid}
use a_lightweight_os.Pmm.Allocate.{Allocates, allocate_frame-Allocates, free_frame-taken}

abbrev blank : Pmm
blank = record { bitmap = λ _. 7; total_frames = 0; free_frames = 0; base_address = 0 }

abbrev machine : Pmm
machine = initialize blank 0x10000

-- Frames 5, 6 and 7.
abbrev stocked : Pmm
stocked = add_available_range 0x5000 0x3000 machine

stocked-IsValid : IsValid stocked
stocked-IsValid = (range-IsValid 0x5000 0x3000 machine (initialize-IsValid blank 0x10000).0).0

available-stocked : get_available stocked ≡ 3 * 4096
unfolding get_available add_available_range initialize test_bit set_bit
available-stocked = refl

allocate_lowest : (allocate_frame stocked).1 ≡ 0x5000
unfolding allocate_frame add_available_range initialize test_bit set_bit clear_bit
allocate_lowest = refl

-- A range that begins and ends inside a page frees both pages whole.
rounds_outwards : get_available (add_available_range 0x1fff 2 machine) ≡ 2 * 4096
unfolding get_available add_available_range initialize test_bit set_bit
rounds_outwards = refl

invalid_free : (free_frame 0x40000 stocked).free_frames ≡ 3
unfolding free_frame add_available_range initialize test_bit set_bit
invalid_free = refl

reserve_returns : get_available (reserve_range 0 0x6000 stocked) ≡ 2 * 4096
unfolding get_available reserve_range add_available_range initialize test_bit set_bit clear_bit
reserve_returns = refl

range-IsValid_example :
    IsValid (add_available_range 0 0x2000 stocked) × IsValid (reserve_range 0 0x2000 stocked)
range-IsValid_example = range-IsValid 0 0x2000 stocked stocked-IsValid

allocate_frame-Allocates_example : Allocates stocked (allocate_frame stocked)
allocate_frame-Allocates_example = allocate_frame-Allocates stocked stocked-IsValid

free_frame-taken_example :
    IsValid (free_frame 0x8000 stocked)
    × ((g : ℕ)
        → is_free (free_frame 0x8000 stocked) g ≡ (if 8 == g then true else is_free stocked g))
unfolding add_available_range initialize test_bit set_bit
free_frame-taken_example = free_frame-taken stocked 0x8000 (omega arith) stocked-IsValid refl
