-- ===== src/Syscall/Regions.antt =====
-- `sys_mmap` and `sys_munmap` of src/userspace/syscall.c.
use cobj_os.Prelude.{
  ℕ, zero, suc, ◌+◌, ◌*◌, ◌/◌, ◌%◌, ◌^◌, false, none, some, List, [], ◌∷◌, ◌==◌, if◌then◌else◌,
}
use cobj_os.Prelude.Ints.{ℤ, pos}
use cobj_os.Prelude.Outcome.{Outcome, ok, ◌>>=◌}
use cobj_os.Pmm.{alloc_page, free_page}
use cobj_os.Vmm.{Tables, entry_to_phys, is_present, vmm_get_pte, vmm_map_page, vmm_unmap_page}
use cobj_os.Kernel.{VmRegion, Kernel, put_process}

-- The pages that are left, from `vaddr` on; `phys` is not looked at, so that page 0 would be mapped too.
unfoldable pub map_loop : ℕ → ℕ → ℕ → Tables → Outcome Tables
map_loop zero space vaddr m = ok m
map_loop (suc left) space vaddr m = alloc_page m.pmm >>= λ taken.
    let (phys, pmm) = taken in
    vmm_map_page space vaddr phys 7 (record m { pmm = pmm }) >>= λ m'.
    map_loop left space ((vaddr + 4096) % 2 ^ 64) m'

abbrev pub pages_of : ℕ → ℕ
pages_of size = (size + 4095) % 2 ^ 64 / 4096

-- The region with the base is taken out, the first one.
unfoldable pub without_region : ℕ → List VmRegion → List VmRegion
without_region addr [] = []
without_region addr (r ∷ regions) =
    let rest = without_region addr regions in if r.base == addr then regions else r ∷ rest

unfoldable pub unmap_loop : ℕ → ℕ → ℕ → Tables → Outcome Tables
unmap_loop zero space vaddr m = ok m
unmap_loop (suc left) space vaddr m =
    let next = (vaddr + 4096) % 2 ^ 64 in
    vmm_get_pte false space vaddr m >>= λ step.
    let (pte, m') = step in
    elim pte [
      | none ↦ unmap_loop left space next m'
      | some a ↦
          let skipped = unmap_loop left space next m' in
          let freed = free_page (entry_to_phys (m'.entries a)) m'.pmm >>= λ pmm.
          vmm_unmap_page space vaddr (record m' { pmm = pmm }) >>= λ m''.
          unmap_loop left space next m'' in
          if is_present (m'.entries a) then freed else skipped
    ]

module _ {S : Type 0} where
  abbrev pub with_tables : Tables → Kernel S → Kernel S
  with_tables m k = record k { memory = record (k.memory) { tables = m } }

  unfoldable pub sys_mmap : (p addr size : ℕ) → Kernel S → Outcome (ℕ × Kernel S)
  sys_mmap p addr size k =
      let proc = k.procs p in
      let vaddr = if addr == 0 then proc.heap_top else addr in
      map_loop (pages_of size) proc.space vaddr k.memory.tables >>= λ m.
      let region : VmRegion = record { base = vaddr; size = pages_of size * 4096 } in
      ok (
        vaddr,
        put_process p
            (record proc {
              heap_top = (vaddr + pages_of size * 4096) % 2 ^ 64;
              regions = region ∷ proc.regions;
            })
            (with_tables m k),
      )

  unfoldable pub sys_munmap : (p addr size : ℕ) → Kernel S → Outcome (ℤ × Kernel S)
  sys_munmap p addr size k =
      let proc = k.procs p in
      let k' = put_process p (record proc { regions = without_region addr proc.regions }) k in
      unmap_loop (pages_of size) proc.space addr k.memory.tables >>= λ m.
      ok (pos 0, with_tables m k')
