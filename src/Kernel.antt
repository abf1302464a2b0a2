-- ===== src/Kernel.antt =====
-- src/kernel.c: the set-up of the memory from what the boot loader leaves.
pub mod Multiboot
pub mod Added
pub mod Memory
pub mod Printing
pub mod Shell
mod Tests
use a_lightweight_os.Base.{ℕ, ◌+◌, ◌-◌, ◌^◌, Option, none, some, ◌==◌, if◌then◌else◌, u64}
use a_lightweight_os.Kernel.Multiboot.{memory_top, mark_memory}
use a_lightweight_os.Pmm
use a_lightweight_os.Pmm.{Pmm}

-- The memory where the boot loader says nothing of it.
abbrev pub default_memory : ℕ
default_memory = 0x180000000

-- The part of kernel_main that sets the frames up, once the size of the memory is known.
pub mark_frames : ℕ → Option (ℕ → ℕ) → ℕ → Pmm → Option Pmm
mark_frames fuel info max_memory s = elim (mark_memory fuel info (Pmm.initialize s max_memory)) [
  | none ↦ none
  | some (p, found) ↦ some (
      Pmm.reserve_range 0 0x200000 (
        if found
        then p
        else Pmm.add_available_range 0x100000 (u64 (max_memory + 2 ^ 64 - 0x100000)) p))
]

pub setup_memory : ℕ → Option (ℕ → ℕ) → Pmm → Option Pmm
unfolding mark_frames
setup_memory fuel info s = elim (memory_top fuel info) [
  | none ↦ none
  | some top ↦ mark_frames fuel info (if top == 0 then default_memory else top) s
]
