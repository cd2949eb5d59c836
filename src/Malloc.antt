-- ===== src/Malloc.antt =====
-- user/lib/malloc.c: the heap of a user program, a list of blocks behind their headers.
-- A block is named by the address of its header; `blocks` holds them in the order of the list, and the
-- bytes behind the headers are `bytes`. What `mmap` returns is a parameter, a function from the size that is
-- asked for and from the number of the calls before. The sum of the
-- sizes of merged blocks, which lie apart in one address space, and the pointer behind a header are taken
-- not to overflow; every other sum wraps around.
pub mod Layout
pub mod Used
pub mod Returned
mod Examples
use cobj_os.Prelude.{
  ℕ, zero, suc, ◌+◌, ◌-◌, ◌*◌, ◌/◌, ◌%◌, ◌^◌, bit_and, Bool, true, false, not, ◌&&◌, ◌||◌, Option,
  none, some, List, [], ◌∷◌, ◌++◌, ltb, leb, ◌==◌, if◌then◌else◌,
}

pub record Block : Type 0 where
  pub at : ℕ
  pub size : ℕ
  pub free : Bool

pub record Arena : Type 0 where
  pub heap_ptr : ℕ
  pub heap_end : ℕ
  pub blocks : List Block
  pub calls : ℕ
  pub bytes : ℕ → ℕ

-- `sizeof(block_t)` and `MIN_SPLIT`.
abbrev pub header_size : ℕ
header_size = 24

abbrev pub min_split : ℕ
min_split = 40

-- `(size + 7) & ~(uint64_t)7`
unfoldable pub round_up : ℕ → ℕ
round_up size = bit_and ((size + 7) % 2 ^ 64) 0xfffffffffffffff8

-- `heap_ptr` is 0 before the first call. The new region holds `size + 4096` bytes, rounded up to pages.
unfoldable pub sbrk : (ℕ → ℕ → ℕ) → ℕ → Arena → ℕ × Arena
sbrk mmap size a =
    let page = mmap a.calls ((size + 4096) % 2 ^ 64) in
    if a.heap_ptr == 0 || ltb a.heap_end ((a.heap_ptr + size) % 2 ^ 64)
    then (
      page,
      record a {
        heap_ptr = (page + size) % 2 ^ 64;
        heap_end = (page + size + 4096) % 2 ^ 64;
        calls = a.calls + 1;
      },
    )
    else (a.heap_ptr, record a { heap_ptr = (a.heap_ptr + size) % 2 ^ 64 })

-- The new block, which is in use, at the end of the list.
unfoldable pub extend_heap : (ℕ → ℕ → ℕ) → ℕ → Arena → Option ℕ × Arena
extend_heap mmap size a =
    let (blk, a') = sbrk mmap ((header_size + size) % 2 ^ 64) a in
    let new : Block = record { at = blk; size = size; free = false } in
    if blk == 0 then (none, a') else (some blk, record a' { blocks = a'.blocks ++ new ∷ [] })

-- The block and those behind it, of which the free ones that follow at once are merged into it.
unfoldable pub coalesce : Block → List Block → List Block
coalesce b [] = b ∷ []
coalesce b (n ∷ rest) =
    let merged = coalesce (record b { size = b.size + (header_size + n.size) }) rest in
    if n.free then merged else b ∷ n ∷ rest

-- The block cut to the size, and what is left as a free block behind it.
unfoldable pub split : ℕ → Block → List Block → List Block
split size b rest =
    let new : Block = record {
      at = (b.at + header_size + size) % 2 ^ 64;
      size = (b.size + 2 * 2 ^ 64 - size - header_size) % 2 ^ 64;
      free = true;
    } in
    if ltb b.size ((size + min_split) % 2 ^ 64)
    then b ∷ rest
    else record b { size = size } ∷ new ∷ rest

abbrev pub set_free : Bool → List Block → List Block
set_free f [] = []
set_free f (b ∷ rest) = record b { free = f } ∷ rest

-- The first block cut to the size.
abbrev pub split_first : ℕ → List Block → List Block
split_first size [] = []
split_first size (b ∷ rest) = split size b rest

-- The place that is found among the blocks, and the blocks then.
pub record Search : Type 0 where
  pub found : Option ℕ
  pub blocks : List Block

abbrev pub in_front : Block → Search → Search
in_front b s = record s { blocks = b ∷ s.blocks }

-- The loop of `malloc`. A block that is large enough is so too once it is merged, so that the second test
-- holds where the first does.
unfoldable pub fit_loop : ℕ → List Block → Search
fit_loop size [] = record { found = none; blocks = [] }
fit_loop size (b ∷ rest) =
    let merged = coalesce b rest in
    let next = in_front b (fit_loop size rest) in
    if b.free && leb size b.size
    then record { found = some b.at; blocks = set_free false (split_first size merged) }
    else next

-- The pointer, which is behind the header; `none` is NULL.
abbrev pub pointer_to : Option ℕ → Option ℕ
pointer_to none = none
pointer_to (some at) = some (at + header_size)

abbrev pub extended : Option ℕ × Arena → Option ℕ × Arena
extended (blk, a) = (pointer_to blk, a)

abbrev pub or_extend : (ℕ → ℕ → ℕ) → ℕ → Arena → Search → Option ℕ × Arena
or_extend mmap size a s = elim (s.found) [
  | none ↦ extended (extend_heap mmap size (record a { blocks = s.blocks }))
  | some at ↦ (some (at + header_size), record a { blocks = s.blocks })
]

unfoldable pub malloc : (ℕ → ℕ → ℕ) → ℕ → Arena → Option ℕ × Arena
malloc mmap size a =
    if size == 0
    then (none, a)
    else or_extend mmap (round_up size) a (fit_loop (round_up size) a.blocks)

-- The block whose header is at `at` becomes free and takes in the free ones behind it; an address that is no
-- block's changes nothing here, which is undefined in the code.
unfoldable pub free_at : ℕ → List Block → List Block
free_at at [] = []
free_at at (b ∷ rest) =
    let later = free_at at rest in
    if b.at == at then coalesce (record b { free = true }) rest else b ∷ later

unfoldable pub free : Option ℕ → Arena → Arena
free none a = a
free (some ptr) a = record a { blocks = free_at (ptr - header_size) a.blocks }

unfoldable pub coalesce_at : ℕ → List Block → List Block
coalesce_at at [] = []
coalesce_at at (b ∷ rest) =
    let later = coalesce_at at rest in if b.at == at then coalesce b rest else b ∷ later

unfoldable pub split_at : ℕ → ℕ → List Block → List Block
split_at size at [] = []
split_at size at (b ∷ rest) =
    let later = split_at size at rest in if b.at == at then split size b rest else b ∷ later

unfoldable pub size_at : ℕ → List Block → ℕ
size_at at [] = 0
size_at at (b ∷ rest) = let later = size_at at rest in if b.at == at then b.size else later

unfoldable pub copy_bytes : (dst src n : ℕ) → (ℕ → ℕ) → ℕ → ℕ
copy_bytes dst src zero bytes = bytes
copy_bytes dst src (suc n) bytes =
    let bytes' = copy_bytes dst src n bytes in
    λ b. if b == dst + n then bytes' (src + n) else bytes' b

-- The block has grown into what is behind it, or its bytes move to a new one.
abbrev pub moved : (ℕ → ℕ → ℕ) → ℕ → ℕ → Arena → Option ℕ × Arena
moved mmap ptr size a =
    let old = size_at (ptr - header_size) a.blocks in
    let (new, a') = malloc mmap size a in
    elim new [
      | none ↦ (none, a')
      | some dst ↦
          let n = if ltb old size then old else size in
          (some dst, free (some ptr) (record a' { bytes = copy_bytes dst ptr n a'.bytes }))
    ]

abbrev pub resized : (ℕ → ℕ → ℕ) → ℕ → ℕ → Arena → Option ℕ × Arena
resized mmap ptr size a =
    let at = ptr - header_size in
    let merged = coalesce_at at a.blocks in
    let grown = record a { blocks = merged } in
    let elsewhere = moved mmap ptr size grown in
    if leb size (size_at at a.blocks)
    then (some ptr, record a { blocks = split_at size at a.blocks })
    else if leb size (size_at at merged)
    then (some ptr, record a { blocks = split_at size at merged })
    else elsewhere

unfoldable pub realloc : (ℕ → ℕ → ℕ) → Option ℕ → ℕ → Arena → Option ℕ × Arena
realloc mmap none size a = malloc mmap size a
realloc mmap (some ptr) size a =
    let changed = resized mmap ptr (round_up size) a in
    if size == 0 then (none, free (some ptr) a) else changed

abbrev pub zeroed : ℕ → Option ℕ × Arena → Option ℕ × Arena
zeroed total (none, a) = (none, a)
zeroed total (some ptr, a) =
    (some ptr, record a { bytes = λ b. if leb ptr b && ltb b (ptr + total) then 0 else a.bytes b })

unfoldable pub calloc : (ℕ → ℕ → ℕ) → ℕ → ℕ → Arena → Option ℕ × Arena
calloc mmap nmemb size a = let total = nmemb * size % 2 ^ 64 in zeroed total (malloc mmap total a)
