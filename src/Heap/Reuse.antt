-- ===== src/Heap/Reuse.antt =====
-- Blocks of the heap in src/mm/heap.c: a freed block is as before it was taken, and a fresh one fits.
use native.Mathlib.Nat.{div-eq-sub-div, div-mul-le_self}
use cobj_os.Prelude.{
  ℕ, zero, suc, ◌+◌, ◌-◌, ◌*◌, ◌/◌, ◌%◌, ◌^◌, ◌≤◌, ◌<◌, ◌≡◌, ◌≢◌, refl, sym, ap, ◌∙◌, false, some,
  List, [], ◌∷◌, arith, leb, ◌==◌, ==_refl, get_or, set, length, get_or-set_self,
}
use cobj_os.Prelude.Outcome.{ok, bind_ok}
use cobj_os.Pmm.{Pmm, alloc_page}
use cobj_os.Heap.{
  Heap, SlabCache, Filled, cache, no_cache, class_from, stocked, take_block, kmalloc, kfree,
  slab_refill, refill_loop, header_size, put_header, clear_page,
}

set_back :
    (xs : List SlabCache) (i : ℕ) (v d : SlabCache)
    → i < length xs
    → set (set xs i v) i (get_or xs i d) ≡ xs
set_back [] i v d h = refl
set_back (x ∷ xs) zero v d h = refl
set_back (x ∷ xs) (suc i) v d h = ap (◌∷◌ x) (set_back xs i v d (omega arith))

stocked-held :
    (h : Heap) (idx p : ℕ) (rest : List ℕ) → (cache idx h).free ≡ p ∷ rest → stocked idx h ≡ ok h
unfolding stocked
stocked-held h idx p rest held = rw (stocked, held) refl

take_block-held :
    (h : Heap) (idx p : ℕ) (rest : List ℕ)
    → (cache idx h).free ≡ p ∷ rest
    → take_block idx h
      ≡ ok (
        some p,
        record h {
          caches =
              set h.caches idx
                (record (cache idx h) { free = rest; used = ((cache idx h).used + 1) % 2 ^ 64 });
        },
      )
unfolding take_block
take_block-held h idx p rest held = rw (take_block, held) refl

stocked-empty : (h : Heap) (idx : ℕ) → (cache idx h).free ≡ [] → stocked idx h ≡ slab_refill idx h
unfolding stocked
stocked-empty h idx empty = rw (stocked, empty) refl

kmalloc-stocked :
    (h h1 : Heap) (size idx p : ℕ) (rest : List ℕ)
    → 0 < size
    → class_from size h.caches 0 ≡ some idx
    → stocked idx h ≡ ok h1
    → (cache idx h1).free ≡ p ∷ rest
    → kmalloc size h
      ≡ ok (
        some p,
        record h1 {
          caches =
              set h1.caches idx
                (record (cache idx h1) { free = rest; used = ((cache idx h1).used + 1) % 2 ^ 64 });
        },
      )
unfolding kmalloc
kmalloc-stocked h h1 size idx p rest positive class stock held =
    let e : (size == 0) ≡ false = ground (arith, positive) in
    rw (e, class) (bind_ok (take_block idx) stock (take_block-held h1 idx p rest held))

kmalloc-taken :
    (h : Heap) (size idx p : ℕ) (rest : List ℕ)
    → 0 < size
    → class_from size h.caches 0 ≡ some idx
    → (cache idx h).free ≡ p ∷ rest
    → kmalloc size h
      ≡ ok (
        some p,
        record h {
          caches =
              set h.caches idx
                (record (cache idx h) { free = rest; used = ((cache idx h).used + 1) % 2 ^ 64 });
        },
      )
kmalloc-taken h size idx p rest positive class held =
    kmalloc-stocked h h size idx p rest positive class (stocked-held h idx p rest held) held

-- A block that is taken from a list and given back with its header intact leaves the heap as it was.
pub kfree-kmalloc :
    (h : Heap) (size idx p : ℕ) (rest : List ℕ)
    → 0 < size
    → class_from size h.caches 0 ≡ some idx
    → (cache idx h).free ≡ p ∷ rest
    → (h.headers (p - 8)).cache_idx ≡ idx
    → idx < 8
    → length h.caches ≡ 8
    → (cache idx h).used < 2 ^ 64 - 1
    → (h' : Heap) × (kmalloc size h ≡ ok (some p, h')) × (kfree (some p) h' ≡ ok h)
unfolding kfree
kfree-kmalloc h size idx p rest positive class held header small sized fits =
    let taken : SlabCache = record (cache idx h) {
      free = rest;
      used = ((cache idx h).used + 1) % 2 ^ 64;
    } in
    let not_large : (idx == 8) ≡ false = ground (arith, small) in
    let valid : leb 8 idx ≡ false = ground (arith, small) in
    let there : get_or (set h.caches idx taken) idx no_cache ≡ taken =
      get_or-set_self h.caches idx taken no_cache (omega (arith, small, sized)) in
    let count : (((cache idx h).used + 1) % 2 ^ 64 + 2 ^ 64 - 1) % 2 ^ 64 ≡ (cache idx h).used =
      omega (arith, fits) in
    (
      record h { caches = set h.caches idx taken },
      kmalloc-taken h size idx p rest positive class held,
      rw (header, not_large, valid, there, count, sym held)
          (ap (λ c. ok (record h { caches = c }))
            (set_back h.caches idx taken no_cache (omega (arith, small, sized)))),
    )

-- The first block of the list after a refill is the last of the page.
refill_loop-first :
    (left raw size idx : ℕ) (f : Filled)
    → (rest : List ℕ) × ((refill_loop (suc left) raw size idx f).free
        ≡ (raw + left * size + 8) ∷ rest)
      × ((refill_loop (suc left) raw size idx f).headers (raw + left * size)
          ≡ record { cache_idx = idx; pad = 0 })
unfolding refill_loop
refill_loop-first zero raw size idx f =
    let here : raw + 0 * size ≡ raw = omega arith in rw (here, ==_refl raw) (f.free, refl, refl)
refill_loop-first (suc left) raw size idx f =
    let here : raw + suc left * size ≡ raw + size + left * size = omega arith in
    rw here (
      refill_loop-first left (raw + size) size idx (record {
        free = (raw + 8) ∷ f.free;
        headers = put_header raw (record { cache_idx = idx; pad = 0 }) f.headers;
      }))

-- One block at least fits in a page.
block_count : (size : ℕ) → 0 < size → size ≤ 4096 → 4096 / size ≡ suc ((4096 - size) / size)
block_count size positive small = omega (arith, div-eq-sub-div {m = size} {n = 4096} positive small)

-- The heap after a refill from the page at `phys`.
abbrev refilled : ℕ → ℕ → Pmm → Heap → Heap
refilled idx phys pmm h =
    let c = cache idx h in
    let count = 4096 / (c.obj_size + header_size) in
    let f : Filled =
      refill_loop count phys (c.obj_size + header_size) idx
        (record { free = c.free; headers = clear_page phys h.headers }) in
    record {
      caches = set h.caches idx (record c { free = f.free; total = c.total + count });
      headers = f.headers;
      pmm = pmm;
    }

slab_refill-refilled :
    (h : Heap) (idx phys : ℕ) (pmm : Pmm)
    → alloc_page h.pmm ≡ ok (phys, pmm)
    → phys ≢ 0
    → slab_refill idx h ≡ ok (refilled idx phys pmm h)
unfolding slab_refill
slab_refill-refilled h idx phys pmm taken nonnull =
    let e : (phys == 0) ≡ false = ground (arith, nonnull) in rw (taken, e) refl

refilled-first :
    (h : Heap) (idx phys : ℕ) (pmm : Pmm)
    → idx < length h.caches
    → (cache idx h).obj_size + 8 ≤ 4096
    → (let size = (cache idx h).obj_size + 8 in
        let left = (4096 - size) / size in
        (rest : List ℕ) × ((cache idx (refilled idx phys pmm h)).free
          ≡ (phys + left * size + 8) ∷ rest)
        × ((refilled idx phys pmm h).headers (phys + left * size)
            ≡ record { cache_idx = idx; pad = 0 })
        × (left * size + size ≤ 4096))
refilled-first h idx phys pmm inside fits =
    let c = cache idx h in
    let size = c.obj_size + 8 in
    let left = (4096 - size) / size in
    let start : Filled = record { free = c.free; headers = clear_page phys h.headers } in
    let count : 4096 / size ≡ suc left = block_count size (omega arith) fits in
    let (rest, first, header) = refill_loop-first left phys size idx start in
    let loop : refill_loop (4096 / size) phys size idx start
        ≡ refill_loop (suc left) phys size idx start =
      ap (λ n. refill_loop n phys size idx start) count in
    let there =
      get_or-set_self h.caches idx
        (record c {
          free = (refill_loop (4096 / size) phys size idx start).free;
          total = c.total + 4096 / size;
        })
        no_cache inside in
    (
      rest,
      ap (λ (k : SlabCache). k.free) there ∙ ap (λ (f : Filled). f.free) loop ∙ first,
      ap (λ (f : Filled). f.headers (phys + left * size)) loop ∙ header,
      omega (arith, count, div-mul-le_self 4096 size),
    )

-- With an empty list and a page that can be had, `kmalloc` returns a block that lies whole in that page,
-- behind its own header, which names its class.
pub kmalloc-fresh :
    (h : Heap) (size idx phys : ℕ) (pmm : Pmm)
    → 0 < size
    → class_from size h.caches 0 ≡ some idx
    → (cache idx h).free ≡ []
    → alloc_page h.pmm ≡ ok (phys, pmm)
    → phys ≢ 0
    → idx < length h.caches
    → (cache idx h).obj_size + 8 ≤ 4096
    → (p : ℕ) × (h' : Heap) × (kmalloc size h ≡ ok (some p, h'))
      × (phys + 8 ≤ p)
      × (p + (cache idx h).obj_size ≤ phys + 4096)
      × (h'.headers (p - 8) ≡ record { cache_idx = idx; pad = 0 })
kmalloc-fresh h size idx phys pmm positive class empty taken nonnull inside fits =
    let bs = (cache idx h).obj_size + 8 in
    let left = (4096 - bs) / bs in
    let (rest, first, header, room) = refilled-first h idx phys pmm inside fits in
    let h1 = refilled idx phys pmm h in
    let p = phys + left * bs + 8 in
    let back : p - 8 ≡ phys + left * bs = omega arith in
    let low : phys + 8 ≤ p = omega arith in
    let high : p + (cache idx h).obj_size ≤ phys + 4096 = omega (arith, room) in
    (
      p,
      record h1 {
        caches =
            set h1.caches idx
              (record (cache idx h1) { free = rest; used = ((cache idx h1).used + 1) % 2 ^ 64 });
      },
      kmalloc-stocked h h1 size idx p rest positive class
          (stocked-empty h idx empty ∙ slab_refill-refilled h idx phys pmm taken nonnull) first,
      low,
      high,
      rw back header,
    )
