-- ===== src/Heap.antt =====
-- src/mm/heap.c: the kernel's heap, blocks of eight sizes and whole pages for what is larger.
-- A block is named by its physical address, which is its pointer less `hhdm_offset`; NULL is `none`. A
-- free list is the list of its blocks, first one first. The headers in front of the blocks are a function
-- of their addresses; the other bytes of a block are not looked at.
pub mod Reuse
mod Examples
use cobj_os.Prelude.{
  ℕ, zero, suc, ◌+◌, ◌-◌, ◌*◌, ◌/◌, ◌%◌, ◌^◌, Bool, true, false, not, ◌&&◌, ◌||◌, Option, none,
  some, List, [], ◌∷◌, ltb, leb, ◌==◌, if◌then◌else◌, get_or, set, length,
}
use cobj_os.Prelude.Outcome.{
  Outcome, ok, panic, ◌>>=◌, refill_out_of_memory, large_out_of_memory, invalid_cache, null_block,
}
use cobj_os.Pmm.{Pmm, alloc_page, alloc_pages, free_pages}

pub record SlabCache : Type 0 where
  pub free : List ℕ
  pub obj_size : ℕ
  pub total : ℕ
  pub used : ℕ

-- `pad` holds the number of pages of a large block, in 32 bits.
pub record SlabHeader : Type 0 where
  pub cache_idx : ℕ
  pub pad : ℕ

pub record Heap : Type 0 where
  pub caches : List SlabCache
  pub headers : ℕ → SlabHeader
  pub pmm : Pmm

abbrev pub slab_class_count : ℕ
slab_class_count = 8

abbrev pub slab_sizes : List ℕ
slab_sizes = 16 ∷ 32 ∷ 64 ∷ 128 ∷ 256 ∷ 512 ∷ 1024 ∷ 2048 ∷ []

abbrev pub header_size : ℕ
header_size = 8

abbrev empty_caches : List ℕ → List SlabCache
empty_caches [] = []
empty_caches (size ∷ sizes) =
    record { free = []; obj_size = size; total = 0; used = 0 } ∷ empty_caches sizes

unfoldable pub slab_init : Heap → Heap
slab_init h = record h { caches = empty_caches slab_sizes }

abbrev pub no_cache : SlabCache
no_cache = record { free = []; obj_size = 0; total = 0; used = 0 }

abbrev pub cache : ℕ → Heap → SlabCache
cache i h = get_or h.caches i no_cache

abbrev pub put_header : ℕ → SlabHeader → (ℕ → SlabHeader) → ℕ → SlabHeader
put_header a v headers = λ b. if b == a then v else headers b

-- `memset(page, 0, PAGE_SIZE)`, as far as headers stand there.
abbrev pub clear_page : ℕ → (ℕ → SlabHeader) → ℕ → SlabHeader
clear_page page headers =
    λ b. if leb page b && ltb b (page + 4096) then record { cache_idx = 0; pad = 0 } else headers b

pub record Filled : Type 0 where
  pub free : List ℕ
  pub headers : ℕ → SlabHeader

-- `for (uint64_t i = 0; i < count; i++) ..`, for the blocks that are left; `raw` is the next block.
unfoldable pub refill_loop : ℕ → ℕ → ℕ → ℕ → Filled → Filled
refill_loop zero raw block_size idx f = f
refill_loop (suc left) raw block_size idx f =
    refill_loop left (raw + block_size) block_size idx (record {
      free = (raw + header_size) ∷ f.free;
      headers = put_header raw (record { cache_idx = idx; pad = 0 }) f.headers;
    })

unfoldable pub slab_refill : ℕ → Heap → Outcome Heap
slab_refill idx h = alloc_page h.pmm >>= λ taken.
    let (phys, pmm) = taken in
    let c = cache idx h in
    let block_size = c.obj_size + header_size in
    let count = 4096 / block_size in
    let f =
      refill_loop count phys block_size idx
        (record { free = c.free; headers = clear_page phys h.headers }) in
    if phys == 0
    then panic refill_out_of_memory
    else ok (record {
      caches = set h.caches idx (record c { free = f.free; total = c.total + count });
      headers = f.headers;
      pmm = pmm;
    })

-- The first class whose objects are large enough, from class `i` on.
unfoldable pub class_from : ℕ → List SlabCache → ℕ → Option ℕ
class_from size [] i = none
class_from size (c ∷ caches) i =
    let rest = class_from size caches (i + 1) in if ltb c.obj_size size then rest else some i

-- `slab_refill`, if the list is empty.
unfoldable pub stocked : ℕ → Heap → Outcome Heap
stocked idx h = elim ((cache idx h).free) [ [] ↦ slab_refill idx h | block ∷ rest ↦ ok h ]

-- The first block of the list; an empty one would be a read through NULL.
unfoldable pub take_block : ℕ → Heap → Outcome (Option ℕ × Heap)
take_block idx h = elim ((cache idx h).free) [
  | [] ↦ panic null_block
  | block ∷ rest ↦ ok (
    some block,
    record h {
      caches =
          set h.caches idx
            (record (cache idx h) { free = rest; used = ((cache idx h).used + 1) % 2 ^ 64 });
    },
  )
]

unfoldable pub kmalloc_large : ℕ → Heap → Outcome (Option ℕ × Heap)
kmalloc_large size h =
    let total = (size + header_size) % 2 ^ 64 in
    let pages = (total + 4096 - 1) % 2 ^ 64 / 4096 in
    alloc_pages pages h.pmm >>= λ taken.
    let (phys, pmm) = taken in
    let header : SlabHeader = record { cache_idx = slab_class_count; pad = pages % 2 ^ 32 } in
    if phys == 0
    then panic large_out_of_memory
    else ok (
      some (phys + header_size),
      record h { headers = put_header phys header h.headers; pmm = pmm },
    )

unfoldable pub kmalloc : ℕ → Heap → Outcome (Option ℕ × Heap)
kmalloc size h = if size == 0 then ok (none, h) else elim (class_from size h.caches 0) [
  | none ↦ kmalloc_large size h
  | some idx ↦ stocked idx h >>= take_block idx
]

unfoldable pub kfree : Option ℕ → Heap → Outcome Heap
kfree none h = ok h
kfree (some ptr) h =
    let hdr = ptr - header_size in
    let header = h.headers hdr in
    let c = cache header.cache_idx h in
    if header.cache_idx == slab_class_count
    then free_pages hdr header.pad h.pmm >>= (λ pmm. ok (record h { pmm = pmm }))
    else if leb slab_class_count header.cache_idx
    then panic invalid_cache
    else ok (record h {
      caches =
          set h.caches header.cache_idx
            (record c { free = ptr ∷ c.free; used = (c.used + 2 ^ 64 - 1) % 2 ^ 64 });
    })
