-- ===== src/Pmm/Examples.antt =====
-- Runs of the page allocator on small memories, and its theorems at them.
use cobj_os.Prelude.{
  ℕ, zero, suc, ◌+◌, ◌*◌, ◌/◌, ◌<◌, ◌≡◌, refl, true, false, not, ◌||◌, List, [], ◌∷◌, arith, ◌⊎◌,
  inl, inr,
}
use cobj_os.Prelude.Outcome.{ok}
use cobj_os.Pmm.{
  Pmm, MemmapEntry, is_used, alloc_page_loop, ctz, bitmap_room, alloc_pages_loop, take_run, set_bit,
  alloc_page, alloc_pages, free_page, free_pages, init, highest_addr,
}
use cobj_os.Pmm.Bitmap.{Words}
use cobj_os.Pmm.Page.{IsValid, Allocated, alloc_page-Allocated}
use cobj_os.Pmm.Free.{Freed, Freeable, free_page-Freed_iff}
use cobj_os.Pmm.Run.{in_run, RunAllocated, alloc_pages-RunAllocated}
use cobj_os.Pmm.FreeRun.{free_pages-alloc_pages}
use cobj_os.Pmm.Init.{Aligned, kept, usable_at, init-kept}

-- 70 frames: the first word is full, of the second frames 64, 65 and 67 are used.
abbrev busy : Pmm
busy = record {
  page_count = 70;
  page_bitmap = 0xffffffffffffffff ∷ 0b1011 ∷ [];
  last_alloc_word = 0;
}

busy-Words : Words busy.page_bitmap
busy-Words zero = omega arith
busy-Words (suc zero) = omega arith
busy-Words (suc (suc i)) = omega arith

busy-IsValid : IsValid busy
busy-IsValid = record { sized = refl; words = busy-Words }

alloc_page_runs :
    alloc_page busy
    ≡ ok (
      66 * 4096,
      record busy { page_bitmap = 0xffffffffffffffff ∷ 0b1111 ∷ []; last_alloc_word = 1 },
    )
unfolding alloc_page alloc_page_loop ctz
alloc_page_runs = refl

alloc_page-Allocated_example :
    (addr : ℕ) × (q : Pmm) × (alloc_page busy ≡ ok (addr, q)) × Allocated busy addr q
unfolding is_used
alloc_page-Allocated_example = alloc_page-Allocated busy 66 busy-IsValid (omega arith) refl

free_page-Freed_iff_example :
    ((q : Pmm)
      → free_page (65 * 4096) busy ≡ ok q
      → Freeable busy (65 * 4096) × Freed busy (65 * 4096) q)
    × (Freeable busy (65 * 4096)
        → (q : Pmm) × (free_page (65 * 4096) busy ≡ ok q) × Freed busy (65 * 4096) q)
free_page-Freed_iff_example = free_page-Freed_iff busy (65 * 4096) busy-IsValid

-- Frames 68 and 69 are free.
last_two_free : (c : ℕ) → in_run 68 2 c ≡ true → is_used busy.page_bitmap c ≡ false
unfolding is_used
last_two_free c h = elim (which) [ inl e ↦ rw e refl | inr e ↦ rw e refl ]
  where
    which : (c ≡ 68) ⊎ (c ≡ 69)
    which = ground arith

alloc_pages-RunAllocated_example :
    (addr : ℕ) × (q : Pmm) × (alloc_pages 2 busy ≡ ok (addr, q)) × RunAllocated busy 2 addr q
alloc_pages-RunAllocated_example =
    alloc_pages-RunAllocated busy 2 68 busy-IsValid (omega arith) (omega arith) last_two_free

abbrev after_two : Pmm
after_two = record busy { page_bitmap = 0xffffffffffffffff ∷ 0b111011 ∷ [] }

alloc_pages_runs : alloc_pages 2 busy ≡ ok (68 * 4096, after_two)
unfolding alloc_pages alloc_pages_loop take_run is_used set_bit
alloc_pages_runs = refl

free_pages-alloc_pages_example :
    (r : Pmm) × (free_pages (68 * 4096) 2 after_two ≡ ok r)
    × ((c : ℕ) → is_used r.page_bitmap c ≡ is_used busy.page_bitmap c)
free_pages-alloc_pages_example =
    free_pages-alloc_pages busy 2 (68 * 4096) after_two busy-IsValid (omega arith) (omega arith)
      alloc_pages_runs (omega arith)

-- A page of memory-mapped registers below 160 pages of memory, and reserved memory behind them.
abbrev small_map : List MemmapEntry
small_map =
    record { base = 0; length = 4096; kind = 1 }
    ∷ record { base = 4096; length = 160 * 4096; kind = 0 }
    ∷ record { base = 161 * 4096; length = 4096; kind = 1 }
    ∷ []

small_map-Aligned : Aligned small_map
small_map-Aligned = (λ h. cc, (λ h. omega arith, (λ h. cc, tt)))

-- The kernel at 64 KiB, the initial disk at 128 KiB.
init-kept_example :
    (p : Pmm) × (init small_map 0x10000 8192 0x20000 4096 ≡ ok p)
    × IsValid p
    × (p.page_count ≡ highest_addr small_map 0 / 4096)
    × ((c : ℕ)
        → c < highest_addr small_map 0 / 4096
        → is_used p.page_bitmap c ≡ (
            kept 0x10000 8192 4096 ((highest_addr small_map 0 / 4096 + 63) / 64 * 8) 0x20000 4096 c
            || not (usable_at small_map c)))
unfolding highest_addr bitmap_room
init-kept_example =
    init-kept small_map 0x10000 8192 0x20000 4096 4096 small_map-Aligned refl (omega arith)
      (omega arith)
