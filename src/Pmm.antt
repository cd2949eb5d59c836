-- ===== src/Pmm.antt =====
-- src/mm/pmm.c: the physical page allocator, a bitmap with one bit for each page frame.
-- `page_bitmap` is the list of its 64-bit words; a call returns the new allocator.

pub mod Bitmap
pub mod FirstClear
pub mod Page
pub mod Free
pub mod Run
pub mod FreeRun
pub mod Range
pub mod Init
mod Examples
use cobj_os.Prelude.{
  ℕ, zero, suc, ◌+◌, ◌-◌, ◌*◌, ◌/◌, ◌%◌, ◌^◌, bit_and, bit_or, Bool, true, false, not, Option, none,
  some, List, [], ◌∷◌, ltb, leb, ◌==◌, if◌then◌else◌, get_or, set, replicate, ◌&&◌,
}
use cobj_os.Prelude.Outcome.{
  Outcome, ok, panic, ◌>>=◌, mark_used_range, mark_free_range, out_of_memory, no_contiguous_pages,
  free_null, free_unaligned, free_range, double_free, no_room_for_bitmap,
}

pub record Pmm : Type 0 where
  pub page_count : ℕ
  pub page_bitmap : List ℕ
  pub last_alloc_word : ℕ

abbrev pub page_size : ℕ
page_size = 4096

-- `ALIGN_DOWN(x, PAGE_SIZE)` and `ALIGN_UP(x, PAGE_SIZE)` on a 64-bit address.
unfoldable pub align_down : ℕ → ℕ
align_down x = bit_and x 0xfffffffffffff000

unfoldable pub align_up : ℕ → ℕ
align_up x = bit_and ((x + 4095) % 2 ^ 64) 0xfffffffffffff000

abbrev pub addr_to_bit : ℕ → ℕ
addr_to_bit phys_addr = phys_addr / page_size

abbrev pub bit_to_addr : ℕ → ℕ
bit_to_addr bit = bit * page_size

abbrev pub bit_to_word : ℕ → ℕ
bit_to_word bit = bit / 64

abbrev pub bit_to_offset : ℕ → ℕ
bit_to_offset bit = bit % 64

-- `page_bitmap[word] & (1ULL << offset)`, `|= (1ULL << offset)` and `&= ~(1ULL << offset)`.
unfoldable pub is_used : List ℕ → ℕ → Bool
is_used ws bit = not (bit_and (get_or ws (bit_to_word bit) 0) (2 ^ bit_to_offset bit) == 0)

unfoldable pub set_bit : List ℕ → ℕ → List ℕ
set_bit ws bit =
    set ws (bit_to_word bit) (bit_or (get_or ws (bit_to_word bit) 0) (2 ^ bit_to_offset bit))

unfoldable pub clear_bit : List ℕ → ℕ → List ℕ
clear_bit ws bit =
    set ws (bit_to_word bit)
      (bit_and (get_or ws (bit_to_word bit) 0) (2 ^ 64 - 1 - 2 ^ bit_to_offset bit))

unfoldable pub mark_used : ℕ → Pmm → Outcome Pmm
mark_used phys_addr p =
    let bit = addr_to_bit phys_addr in
    if leb p.page_count bit
    then panic mark_used_range
    else ok (record p { page_bitmap = set_bit p.page_bitmap bit })

unfoldable pub mark_free : ℕ → Pmm → Outcome Pmm
mark_free phys_addr p =
    let bit = addr_to_bit phys_addr in
    if leb p.page_count bit
    then panic mark_free_range
    else ok (record p { page_bitmap = clear_bit p.page_bitmap bit })

-- `for (addr = ..; addr < ..; addr += PAGE_SIZE)`: both ends are multiples of `PAGE_SIZE`, so the
-- number of rounds is known.
unfoldable pub mark_pages_used : ℕ → ℕ → Pmm → Outcome Pmm
mark_pages_used zero addr p = ok p
mark_pages_used (suc rounds) addr p =
    mark_used addr p >>= λ q. mark_pages_used rounds (addr + page_size) q

unfoldable pub mark_pages_free : ℕ → ℕ → Pmm → Outcome Pmm
mark_pages_free zero addr p = ok p
mark_pages_free (suc rounds) addr p =
    mark_free addr p >>= λ q. mark_pages_free rounds (addr + page_size) q

unfoldable pub mark_range_used : ℕ → ℕ → Pmm → Outcome Pmm
mark_range_used base length p =
    let end = (base + length) % 2 ^ 64 in
    let addr = align_down base in mark_pages_used ((align_up end - addr) / page_size) addr p

unfoldable pub mark_range_free : ℕ → ℕ → Pmm → Outcome Pmm
mark_range_free base length p =
    let end = (base + length) % 2 ^ 64 in
    let addr = align_up base in mark_pages_free ((align_down end - addr) / page_size) addr p

-- `__builtin_ctzll` on a word of `n` bits.
unfoldable pub ctz : ℕ → ℕ → ℕ
ctz zero x = 0
ctz (suc n) x = if x % 2 == 1 then 0 else suc (ctz n (x / 2))

unfoldable pub alloc_page_loop : ℕ → ℕ → ℕ → Pmm → Outcome (ℕ × Pmm)
alloc_page_loop zero i words p = panic out_of_memory
alloc_page_loop (suc rounds) i words p =
    let rest = alloc_page_loop rounds (i + 1) words p in
    let word = (p.last_alloc_word + i) % words in
    let value = get_or p.page_bitmap word 0 in
    let bit = ctz 64 (2 ^ 64 - 1 - value) in
    let global_bit = word * 64 + bit in
    let taken = set p.page_bitmap word (bit_or value (2 ^ bit)) in
    if value == 0xffffffffffffffff
    then rest
    else if leb p.page_count global_bit
    then rest
    else ok (bit_to_addr global_bit, record p { page_bitmap = taken; last_alloc_word = word })

abbrev pub word_count : Pmm → ℕ
word_count p = (p.page_count + 63) / 64

unfoldable pub alloc_page : Pmm → Outcome (ℕ × Pmm)
alloc_page p = alloc_page_loop (word_count p) 0 (word_count p) p

-- The inner loop of `pmm_alloc_pages`, over `count` bits from `i` on.
unfoldable pub take_run : ℕ → ℕ → List ℕ → List ℕ
take_run zero i ws = ws
take_run (suc count) i ws = take_run count (i + 1) (set_bit ws i)

unfoldable pub alloc_pages_loop : ℕ → ℕ → ℕ → ℕ → ℕ → Pmm → Outcome (ℕ × Pmm)
alloc_pages_loop zero bit run run_start count p = panic no_contiguous_pages
alloc_pages_loop (suc rounds) bit run run_start count p =
    let start = if run == 0 then bit else run_start in
    let broken = alloc_pages_loop rounds (bit + 1) 0 run_start count p in
    let longer = alloc_pages_loop rounds (bit + 1) (run + 1) start count p in
    let found = record p { page_bitmap = take_run count start p.page_bitmap } in
    if is_used p.page_bitmap bit
    then broken
    else if run + 1 == count
    then ok (bit_to_addr start, found)
    else longer

pub alloc_pages : ℕ → Pmm → Outcome (ℕ × Pmm)
alloc_pages count p =
    if count == 0
    then ok (0, p)
    else if count == 1
    then alloc_page p
    else alloc_pages_loop p.page_count 0 0 0 count p

unfoldable pub free_page : ℕ → Pmm → Outcome Pmm
free_page phys_addr p =
    let bit = addr_to_bit phys_addr in
    if phys_addr == 0
    then panic free_null
    else if not (phys_addr % page_size == 0)
    then panic free_unaligned
    else if leb p.page_count bit
    then panic free_range
    else if not (is_used p.page_bitmap bit)
    then panic double_free
    else ok (record p { page_bitmap = clear_bit p.page_bitmap bit })

unfoldable pub free_pages_loop : ℕ → ℕ → ℕ → Pmm → Outcome Pmm
free_pages_loop zero i phys_addr p = ok p
free_pages_loop (suc rounds) i phys_addr p =
    free_page ((phys_addr + i * page_size) % 2 ^ 64) p >>= λ q.
    free_pages_loop rounds (i + 1) phys_addr q

unfoldable pub free_pages : ℕ → ℕ → Pmm → Outcome Pmm
free_pages phys_addr count p = free_pages_loop count 0 phys_addr p

-- An entry of the boot loader's memory map; type 0 is `LIMINE_MEMMAP_USABLE`.
pub record MemmapEntry : Type 0 where
  pub base : ℕ
  pub length : ℕ
  pub kind : ℕ

abbrev pub usable : MemmapEntry → Bool
usable entry = entry.kind == 0

-- The loop that finds the end of usable memory.
unfoldable pub highest_addr : List MemmapEntry → ℕ → ℕ
highest_addr [] highest = highest
highest_addr (entry ∷ mmap) highest =
    let entry_end = (entry.base + entry.length) % 2 ^ 64 in
    highest_addr mmap
      (if usable entry then (if ltb highest entry_end then entry_end else highest) else highest)

-- The first usable entry with room for the bitmap.
unfoldable pub bitmap_room : ℕ → List MemmapEntry → Option ℕ
bitmap_room bitmap_size [] = none
bitmap_room bitmap_size (entry ∷ mmap) =
    if usable entry && leb bitmap_size entry.length
    then some entry.base
    else bitmap_room bitmap_size mmap

unfoldable pub free_usable : List MemmapEntry → Pmm → Outcome Pmm
free_usable [] p = ok p
free_usable (entry ∷ mmap) p =
    (if usable entry then mark_range_free entry.base entry.length p else ok p) >>= λ q.
    free_usable mmap q

-- After `memset(page_bitmap, 0xff, bitmap_size)` every frame is used.
abbrev pub all_used : ℕ → Pmm
all_used count = record {
  page_count = count;
  page_bitmap = replicate ((count + 63) / 64) 0xffffffffffffffff;
  last_alloc_word = 0;
}

-- `init` once the end of memory and the place of the bitmap are known.
unfoldable pub init_at : List MemmapEntry → ℕ → ℕ → ℕ → ℕ → ℕ → ℕ → Outcome Pmm
init_at mmap count bitmap_phys kstart kend initrd_addr initrd_size =
    free_usable mmap (all_used count) >>= λ p.
    mark_range_used kstart ((kend + 2 ^ 64 - kstart) % 2 ^ 64) p >>= λ q.
    mark_range_used bitmap_phys ((count + 63) / 64 * 8) q >>= λ r.
    mark_range_used initrd_addr initrd_size r

-- `kernel_size` is the difference of the linker's two symbols.
unfoldable pub init :
    List MemmapEntry → (kernel_phys_base kernel_size initrd_addr initrd_size : ℕ) → Outcome Pmm
init mmap kernel_phys_base kernel_size initrd_addr initrd_size =
    let count = highest_addr mmap 0 / page_size in
    let bitmap_size = (count + 63) / 64 * 8 in
    let kend = align_up ((kernel_phys_base + kernel_size) % 2 ^ 64) in
    elim (bitmap_room bitmap_size mmap) [
      | none ↦ panic no_room_for_bitmap
      | some bitmap_phys ↦
          init_at mmap count bitmap_phys kernel_phys_base kend initrd_addr initrd_size
    ]
