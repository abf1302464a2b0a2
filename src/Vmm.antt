-- ===== src/Vmm.antt =====
-- src/vmm.c: the table of page mappings, and the page tables that initialisation fills. `pdpt` is the
-- address of kernel_pdpt. Loading CR3 and flushing the TLB are instructions and are left out.
pub mod Lookup
mod Tests
use a_lightweight_os.Base.{
  ℕ, zero, suc, ◌+◌, ◌-◌, ◌*◌, Bool, Option, none, some, leb, ◌==◌, if◌then◌else◌, update,
  find_first, set_bit, for_up,
}

pub record PageTables : Type 0 where
  pub pml4_entries : ℕ → ℕ
  pub pdpt_entries : ℕ → ℕ

-- `address | PTE_PRESENT | PTE_WRITABLE | PTE_ACCESSED`
abbrev pub default_flags : ℕ → ℕ
default_flags address = set_bit (set_bit (set_bit address 0) 1) 5

-- `entry | PTE_HUGE`
abbrev pub huge : ℕ → ℕ
huge entry = set_bit entry 7

pub initialize : ℕ → PageTables → PageTables
initialize pdpt t =
    let cleared =
      for_up 512
        (λ i t. record {
          pml4_entries = update t.pml4_entries i 0;
          pdpt_entries = update t.pdpt_entries i 0;
        })
        t in
    let entry = default_flags pdpt in
    let rooted = record cleared {
      pml4_entries = update (update cleared.pml4_entries 0 entry) 256 entry;
    } in
    for_up 6
      (λ i t. record t {
        pdpt_entries = update t.pdpt_entries i (huge (default_flags (i * 0x40000000)));
      })
      rooted

pub record Mapping : Type 0 where
  pub vaddr : ℕ
  pub paddr : ℕ
  pub flags : ℕ

pub record Vmm : Type 0 where
  pub mappings : ℕ → Mapping
  pub mapping_count : ℕ

abbrev pub max_mappings : ℕ
max_mappings = 1024

pub map_page : ℕ → ℕ → ℕ → Vmm → Vmm
map_page vaddr paddr flags v = if leb max_mappings v.mapping_count then v else record {
  mappings =
      update v.mappings v.mapping_count (record { vaddr = vaddr; paddr = paddr; flags = flags });
  mapping_count = v.mapping_count + 1;
}

-- `if (vmm_mappings[i].vaddr == vaddr)`
pub is_mapping : (ℕ → Mapping) → ℕ → ℕ → Bool
is_mapping ms vaddr i = (ms i).vaddr == vaddr

-- `for (j = i; j < count - 1; j++) vmm_mappings[j] = vmm_mappings[j + 1];` with `n` steps left.
pub shift : ℕ → ℕ → (ℕ → Mapping) → ℕ → Mapping
shift zero j ms = ms
shift (suc n) j ms = shift n (j + 1) (update ms j (ms (j + 1)))

pub remove_at : Option ℕ → Vmm → Vmm
unfolding shift
remove_at none v = v
remove_at (some i) v = record {
  mappings = shift (v.mapping_count - 1 - i) i v.mappings;
  mapping_count = v.mapping_count - 1;
}

-- The first mapping of the address.
pub lookup : ℕ → Vmm → Option ℕ
unfolding is_mapping
lookup vaddr v = find_first (is_mapping v.mappings vaddr) v.mapping_count 0

pub unmap_page : ℕ → Vmm → Vmm
unfolding lookup remove_at
unmap_page vaddr v = remove_at (lookup vaddr v) v

-- 0 stands for "not mapped".
pub address_at : (ℕ → Mapping) → Option ℕ → ℕ
address_at ms none = 0
address_at ms (some i) = (ms i).paddr

pub translate : ℕ → Vmm → ℕ
unfolding lookup address_at
translate vaddr v = address_at v.mappings (lookup vaddr v)
