-- ===== src/Vmm.antt =====
-- src/mm/vmm.c: address spaces, trees of tables in four levels.
-- `entries` gives the 64-bit word at a physical address, for the pages that hold tables; a pointer to an
-- entry is its physical address, which is the pointer less `hhdm_offset`, and an address space is the
-- physical address of its top table. Memory for an `addr_space_t` is taken to be there.
pub mod Tree
pub mod Grow
pub mod Walk
pub mod Map
pub mod Create
mod Examples
use cobj_os.Prelude.{
  ℕ, zero, suc, ◌+◌, ◌-◌, ◌*◌, ◌/◌, ◌%◌, ◌^◌, bit_and, bit_or, Bool, true, false, not, ◌&&◌, Option,
  none, some, List, [], ◌∷◌, ltb, leb, ◌==◌, if◌then◌else◌,
}
use cobj_os.Prelude.Outcome.{
  Outcome, ok, panic, ◌>>=◌, Panic, pdpt_out_of_memory, pd_out_of_memory, pt_out_of_memory,
  walk_null, unmap_unmapped, no_kernel_tables, no_user_tables,
}
use cobj_os.Pmm.{Pmm, alloc_page}

pub record Tables : Type 0 where
  pub entries : ℕ → ℕ
  pub pmm : Pmm

unfoldable pub pml4_idx : ℕ → ℕ
pml4_idx virt = bit_and (virt / 2 ^ 39) 0x1ff

unfoldable pub pdpt_idx : ℕ → ℕ
pdpt_idx virt = bit_and (virt / 2 ^ 30) 0x1ff

unfoldable pub pd_idx : ℕ → ℕ
pd_idx virt = bit_and (virt / 2 ^ 21) 0x1ff

unfoldable pub pt_idx : ℕ → ℕ
pt_idx virt = bit_and (virt / 2 ^ 12) 0x1ff

unfoldable pub entry_to_phys : ℕ → ℕ
entry_to_phys entry = bit_and entry 0xfffffffffffff000

-- `entry & PAGE_PRESENT`
unfoldable pub is_present : ℕ → Bool
is_present entry = not (bit_and entry 1 == 0)

-- `PAGE_PRESENT | PAGE_WRITE | PAGE_USER`
abbrev pub table_flags : ℕ
table_flags = 7

unfoldable pub put : ℕ → ℕ → (ℕ → ℕ) → ℕ → ℕ
put a v entries = λ b. if b == a then v else entries b

-- `memset(page, 0, 4096)`
unfoldable pub clear : ℕ → (ℕ → ℕ) → ℕ → ℕ
clear page entries = λ b. if leb page b && ltb b (page + 4096) then 0 else entries b

-- The table that entry `i` of `table` leads to; an absent one is made if `alloc` says so.
unfoldable pub next_table : Bool → Panic → ℕ → ℕ → Tables → Outcome (Option ℕ × Tables)
next_table alloc failure table i m =
    if is_present (m.entries (table + 8 * i))
    then ok (some (entry_to_phys (m.entries (table + 8 * i))), m)
    else if not alloc
    then ok (none, m)
    else alloc_page m.pmm >>= λ taken.
        let (phys, pmm) = taken in
        let entry = bit_or phys table_flags in
        if phys == 0
        then panic failure
        else ok (
          some (entry_to_phys entry),
          record { entries = put (table + 8 * i) entry (clear phys m.entries); pmm = pmm },
        )

-- The three levels of `vmm_get_pte` above the last, each with its index and with the panic it ends in
-- when there is no page for the table that it leads to.
unfoldable pub walk : Bool → List (Panic × ℕ) → ℕ → ℕ → Tables → Outcome (Option ℕ × Tables)
walk alloc [] table last m = ok (some (table + 8 * last), m)
walk alloc ((failure, i) ∷ levels) table last m = next_table alloc failure table i m >>= λ step.
    let (found, m') = step in
    elim found [ none ↦ ok (none, m') | some next ↦ walk alloc levels next last m' ]

unfoldable pub levels : ℕ → List (Panic × ℕ)
levels virt =
    (pdpt_out_of_memory, pml4_idx virt)
    ∷ (pd_out_of_memory, pdpt_idx virt)
    ∷ (pt_out_of_memory, pd_idx virt)
    ∷ []

unfoldable pub vmm_get_pte : Bool → ℕ → ℕ → Tables → Outcome (Option ℕ × Tables)
vmm_get_pte alloc space virt m = walk alloc (levels virt) space (pt_idx virt) m

-- The frame and the flags, or `none` for -1.
abbrev pub mapping_of : ℕ → Option (ℕ × ℕ)
mapping_of entry =
    if is_present entry then some (entry_to_phys entry, bit_and entry 0xfff) else none

unfoldable pub vmm_get_mapping : ℕ → ℕ → Tables → Outcome (Option (ℕ × ℕ))
vmm_get_mapping space virt m = vmm_get_pte false space virt m >>= λ step.
    let (pte, m') = step in elim pte [ none ↦ ok none | some a ↦ ok (mapping_of (m'.entries a)) ]

-- `phys` and `flags` are below 2 ^ 64.
abbrev pub page_entry : ℕ → ℕ → ℕ
page_entry phys flags = bit_or (bit_and phys 0xfffffffffffff000) (bit_or flags 1)

unfoldable pub vmm_map_page : ℕ → ℕ → ℕ → ℕ → Tables → Outcome Tables
vmm_map_page space virt phys flags m = vmm_get_pte true space virt m >>= λ step.
    let (pte, m') = step in
    elim pte [
      | none ↦ panic walk_null
      | some a ↦ ok (record m' { entries = put a (page_entry phys flags) m'.entries })
    ]

unfoldable pub vmm_unmap_page : ℕ → ℕ → Tables → Outcome Tables
vmm_unmap_page space virt m = vmm_get_pte false space virt m >>= λ step.
    let (pte, m') = step in
    elim pte [
      | none ↦ panic unmap_unmapped
      | some a ↦
          if is_present (m'.entries a)
          then ok (record m' { entries = put a 0 m'.entries })
          else panic unmap_unmapped
    ]

-- A new top table that has the upper half of `source`.
abbrev pub upper_half : ℕ → ℕ → (ℕ → ℕ) → ℕ → ℕ
upper_half page source entries = λ b.
    if leb (page + 2048) b && ltb b (page + 4096)
    then clear page entries (source + (b - page))
    else clear page entries b

-- `vmm_init`, with the table that the boot loader has left in CR3; the result is what CR3 holds then.
unfoldable pub vmm_init : ℕ → Tables → Outcome (ℕ × Tables)
vmm_init cr3 m = alloc_page m.pmm >>= λ taken.
    let (phys, pmm) = taken in
    let entries = upper_half phys (bit_and cr3 0xfffffffffffff000) m.entries in
    if phys == 0 then panic no_kernel_tables else ok (phys, record { entries = entries; pmm = pmm })

unfoldable pub vmm_create_user_space : ℕ → Tables → Outcome (ℕ × Tables)
vmm_create_user_space kernel_space m = alloc_page m.pmm >>= λ taken.
    let (phys, pmm) = taken in
    let entries = upper_half phys kernel_space m.entries in
    if phys == 0 then panic no_user_tables else ok (phys, record { entries = entries; pmm = pmm })
