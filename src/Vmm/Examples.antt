-- ===== src/Vmm/Examples.antt =====
-- Runs of the page tables on an empty address space, and their theorems at them.
use cobj_os.Prelude.{
  ℕ, zero, suc, ◌+◌, ◌*◌, ◌^◌, ◌≤◌, ◌<◌, ◌≡◌, ◌≢◌, refl, ◌⊎◌, inl, inr, Option, none, some, List,
  [], ◌∷◌, arith, ◌==◌, if◌then◌else◌, Bool-cases,
}
use cobj_os.Prelude.Outcome.{ok, panic, unmap_unmapped}
use cobj_os.Pmm.{Pmm, alloc_page, alloc_page_loop, ctz, is_used}
use cobj_os.Pmm.Bitmap.{Words}
use cobj_os.Vmm.{
  Tables, is_present, entry_to_phys, vmm_map_page, vmm_get_mapping, vmm_unmap_page, vmm_get_pte,
  walk, next_table, levels, pml4_idx, pdpt_idx, pd_idx, pt_idx, put, clear, vmm_create_user_space,
}
use cobj_os.Vmm.Tree.{IsTree, absent-zero}
use cobj_os.Vmm.Walk.{HasRoom}
use cobj_os.Vmm.Map.{Mapped, page_of, map_page-get_mapping, unmap_page-get_mapping}
use cobj_os.Vmm.Create.{create_user_space-get_mapping}

-- 70 frames, of which the last six but frame 64 and 65 are free; the top table is in frame 65.
abbrev memory : Pmm
memory = record {
  page_count = 70;
  page_bitmap = 0xffffffffffffffff ∷ 0b11 ∷ [];
  last_alloc_word = 0;
}

abbrev empty_tables : Tables
empty_tables = record { entries = λ a. 0; pmm = memory }

abbrev top : ℕ
top = 65 * 4096

abbrev top_place : ℕ → Option (List ℕ)
top_place p = if p == 65 * 4096 then some [] else none

memory-Words : Words memory.page_bitmap
memory-Words zero = omega arith
memory-Words (suc zero) = omega arith
memory-Words (suc (suc i)) = omega arith

top_only : (p : ℕ) (at : List ℕ) → top_place p ≡ some at → p ≡ 65 * 4096
top_only p at e = elim (Bool-cases (p == 65 * 4096)) [
  | inl same ↦ ground (arith, same)
  | inr ne ↦ let gone : none ≡ some at = rw ne at (e) in cc gone
]

empty_tables-IsTree : IsTree top top_place empty_tables
unfolding is_used
empty_tables-IsTree = record {
  top_placed = refl;
  aligned = λ p at e. rw (top_only p at e) refl;
  in_use = λ p at e. rw (top_only p at e) refl;
  linked = λ p i at e short hi here. cc (here, absent-zero);
  valid = record { sized = refl; words = memory-Words };
  addressable = omega arith;
}

memory-HasRoom : HasRoom 3 memory
unfolding alloc_page alloc_page_loop ctz
memory-HasRoom = (_, _, refl, refl, (_, _, refl, refl, (_, _, refl, refl, tt)))

-- The third page of the upper half of an address space, on frame 20.
map_page_runs :
    (m : Tables) × (vmm_map_page top (2 ^ 47 + 0x2000) 0x14000 6 empty_tables ≡ ok m)
    × (vmm_get_mapping top (2 ^ 47 + 0x2000) m ≡ ok (some (0x14000, 7)))
    × (vmm_get_mapping top (2 ^ 47 + 0x3000) m ≡ ok none)
unfolding vmm_map_page vmm_get_mapping vmm_get_pte walk next_table levels pml4_idx pdpt_idx pd_idx
    pt_idx put clear is_present entry_to_phys alloc_page alloc_page_loop ctz
map_page_runs = (_, refl, refl, refl)

map_page-get_mapping_example :
    (m : Tables) × (vmm_map_page top 0x10000000 0x14000 6 empty_tables ≡ ok m)
    × Mapped top 0x10000000 0x14000 6 empty_tables m
map_page-get_mapping_example =
    map_page-get_mapping top 0x10000000 0x14000 6 top_place empty_tables empty_tables-IsTree
      memory-HasRoom (omega arith) (omega arith)

unmap_page-get_mapping_example :
    ((vmm_get_mapping top 0x10000000 empty_tables ≡ ok none)
      × (vmm_unmap_page top 0x10000000 empty_tables ≡ panic unmap_unmapped))
    ⊎ ((m' : Tables) × (vmm_unmap_page top 0x10000000 empty_tables ≡ ok m')
        × IsTree top top_place m'
        × (vmm_get_mapping top 0x10000000 empty_tables ≢ ok none)
        × (vmm_get_mapping top 0x10000000 m' ≡ ok none)
        × ((w : ℕ)
            → page_of w ≢ page_of 0x10000000
            → vmm_get_mapping top w m' ≡ vmm_get_mapping top w empty_tables))
unmap_page-get_mapping_example =
    unmap_page-get_mapping top 0x10000000 top_place empty_tables empty_tables-IsTree

create_user_space-get_mapping_example :
    (m' : Tables) × (vmm_create_user_space top empty_tables ≡ ok (66 * 4096, m'))
    × ((virt : ℕ)
        → (pml4_idx virt < 256 → vmm_get_mapping (66 * 4096) virt m' ≡ ok none)
          × (256 ≤ pml4_idx virt
              → vmm_get_mapping (66 * 4096) virt m' ≡ vmm_get_mapping top virt empty_tables)
          × (vmm_get_mapping top virt m' ≡ vmm_get_mapping top virt empty_tables))
unfolding alloc_page alloc_page_loop ctz
create_user_space-get_mapping_example =
    create_user_space-get_mapping top (66 * 4096) _ top_place empty_tables empty_tables-IsTree refl
      refl
