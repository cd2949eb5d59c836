-- ===== src/Mem.antt =====
-- src/misc/mem.c (user/lib/mem.c is the same text): filling, copying and comparing bytes.
-- Memory is a function from address to byte; a call gives the memory after it, or the compared value.
-- Every routine returns its first argument besides. Objects do not wrap around the address space.
pub mod Copied
pub mod Copy
pub mod Move
pub mod Compare
pub mod Fill
mod Examples
use cobj_os.Prelude.{
  ℕ, zero, suc, ◌+◌, ◌-◌, ◌*◌, ◌/◌, ◌%◌, ◌^◌, bit_or, Bool, true, false, not, ◌&&◌, ◌||◌, ltb, leb,
  ◌==◌, if◌then◌else◌,
}
use cobj_os.Prelude.Ints.{ℤ, pos, minus}

abbrev pub Memory : Type 0
Memory = ℕ → ℕ

abbrev pub is_aligned : ℕ → Bool
is_aligned p = p % 4 == 0

abbrev pub store : ℕ → ℕ → Memory → Memory
store a v m = λ x. if x == a then v else m x

-- A 32-bit word is stored with its low byte first.
abbrev pub load32 : ℕ → Memory → ℕ
load32 a m = m a + m (a + 1) * 2 ^ 8 + m (a + 2) * 2 ^ 16 + m (a + 3) * 2 ^ 24

abbrev pub store32 : ℕ → ℕ → Memory → Memory
store32 a v m =
    store (a + 3) (v / 2 ^ 24 % 2 ^ 8) (
      store (a + 2) (v / 2 ^ 16 % 2 ^ 8)
        (store (a + 1) (v / 2 ^ 8 % 2 ^ 8) (store a (v % 2 ^ 8) m)))

-- The `int` argument is given modulo 2^32.
unfoldable pub memset : ℕ → ℕ → ℕ → Memory → Memory
memset dst c zero m = m
memset dst c (suc n) m = memset (dst + 1) c n (store dst (c % 2 ^ 8) m)

-- `while (n--) *d++ = *s++;`
unfoldable pub copy_up : ℕ → ℕ → ℕ → Memory → Memory
copy_up d s zero m = m
copy_up d s (suc n) m = copy_up (d + 1) (s + 1) n (store d (m s) m)

-- `while (n--) *--d = *--s;`, from the ends.
unfoldable pub copy_down : ℕ → ℕ → ℕ → Memory → Memory
copy_down d s zero m = m
copy_down d s (suc n) m = copy_down (d - 1) (s - 1) n (store (d - 1) (m (s - 1)) m)

unfoldable pub memcpy : ℕ → ℕ → ℕ → Memory → Memory
memcpy dst src n m = copy_up dst src n m

unfoldable pub memmove : ℕ → ℕ → ℕ → Memory → Memory
memmove dst src n m = if ltb dst src then copy_up dst src n m else copy_down (dst + n) (src + n) n m

unfoldable pub memcmp : ℕ → ℕ → ℕ → Memory → ℤ
memcmp a b zero m = pos 0
memcmp a b (suc n) m =
    let rest = memcmp (a + 1) (b + 1) n m in if m a == m b then rest else minus (m a) (m b)

-- The pointers, the count that is left and the memory between two loops of a copy.
pub record Cursor : Type 0 where
  pub to : ℕ
  pub from : ℕ
  pub left : ℕ
  pub mem : Memory

abbrev cursor : ℕ → ℕ → ℕ → Memory → Cursor
cursor d s n m = record { to = d; from = s; left = n; mem = m }

-- `while (n > 0 && !IS_ALIGNED(p8)) { *p8++ = (uint8_t)c; n--; }`; `from` is unused.
unfoldable pub fill_unaligned : ℕ → ℕ → ℕ → Memory → Cursor
fill_unaligned p c zero m = cursor p 0 0 m
fill_unaligned p c (suc n) m =
    let next = fill_unaligned (p + 1) c n (store p (c % 2 ^ 8) m) in
    if is_aligned p then cursor p 0 (suc n) m else next

-- `while (n >= 4) *p32++ = val;`, which goes round n / 4 times.
unfoldable pub fill_words : ℕ → ℕ → ℕ → Memory → Memory
fill_words p val zero m = m
fill_words p val (suc words) m = fill_words (p + 4) val words (store32 p val m)

-- `val` of `memset32`.
unfoldable pub word_of : ℕ → ℕ
word_of c =
    let val = c % 2 ^ 8 in
    let val' = bit_or val (val * 2 ^ 8 % 2 ^ 32) in bit_or val' (val' * 2 ^ 16 % 2 ^ 32)

unfoldable pub memset32 : ℕ → ℕ → ℕ → Memory → Memory
memset32 dst c n m =
    let start = fill_unaligned dst c n m in
    let words = start.left / 4 in
    memset (start.to + words * 4) c (start.left - words * 4)
      (fill_words start.to (word_of c) words start.mem)

-- `while (n > 0 && !IS_ALIGNED(d8)) { *d8++ = *s8++; n--; }`
unfoldable pub copy_up_unaligned : ℕ → ℕ → ℕ → Memory → Cursor
copy_up_unaligned d s zero m = cursor d s 0 m
copy_up_unaligned d s (suc n) m =
    let next = copy_up_unaligned (d + 1) (s + 1) n (store d (m s) m) in
    if is_aligned d then cursor d s (suc n) m else next

-- `while (n >= 4) *d32++ = *s32++;`, which goes round n / 4 times.
unfoldable pub copy_up_words : ℕ → ℕ → ℕ → Memory → Memory
copy_up_words d s zero m = m
copy_up_words d s (suc words) m = copy_up_words (d + 4) (s + 4) words (store32 d (load32 s m) m)

-- `if (n >= 4 && IS_ALIGNED(s8)) { .. }`: the whole words, when the source is aligned too.
unfoldable pub copy_up_aligned : Cursor → Cursor
copy_up_aligned k =
    let words = k.left / 4 in
    if leb 4 k.left && is_aligned k.from
    then cursor (k.to + words * 4) (k.from + words * 4) (k.left - words * 4)
        (copy_up_words k.to k.from words k.mem)
    else k

unfoldable pub memcpy32 : ℕ → ℕ → ℕ → Memory → Memory
memcpy32 dst src n m =
    let k = copy_up_aligned (copy_up_unaligned dst src n m) in copy_up k.to k.from k.left k.mem

unfoldable pub copy_down_unaligned : ℕ → ℕ → ℕ → Memory → Cursor
copy_down_unaligned d s zero m = cursor d s 0 m
copy_down_unaligned d s (suc n) m =
    let next = copy_down_unaligned (d - 1) (s - 1) n (store (d - 1) (m (s - 1)) m) in
    if is_aligned d then cursor d s (suc n) m else next

unfoldable pub copy_down_words : ℕ → ℕ → ℕ → Memory → Memory
copy_down_words d s zero m = m
copy_down_words d s (suc words) m =
    copy_down_words (d - 4) (s - 4) words (store32 (d - 4) (load32 (s - 4) m) m)

unfoldable pub copy_down_aligned : Cursor → Cursor
copy_down_aligned k =
    let words = k.left / 4 in
    if leb 4 k.left && is_aligned k.from
    then cursor (k.to - words * 4) (k.from - words * 4) (k.left - words * 4)
        (copy_down_words k.to k.from words k.mem)
    else k

unfoldable pub memmove32 : ℕ → ℕ → ℕ → Memory → Memory
memmove32 dst src n m =
    let up = copy_up_aligned (copy_up_unaligned dst src n m) in
    let down = copy_down_aligned (copy_down_unaligned (dst + n) (src + n) n m) in
    if dst == src || n == 0
    then m
    else if ltb dst src
    then copy_up up.to up.from up.left up.mem
    else copy_down down.to down.from down.left down.mem

-- A loop of `memcmp32`: it has returned, or the pointers and the count go on.
pub data Comparing : Type 0 where
  differ : ℤ → Comparing
  same : ℕ → ℕ → ℕ → Comparing

-- `while (n > 0 && (!IS_ALIGNED(p8) || !IS_ALIGNED(q8))) ..`
unfoldable pub compare_unaligned : ℕ → ℕ → ℕ → Memory → Comparing
compare_unaligned p q zero m = same p q 0
compare_unaligned p q (suc n) m =
    let next = compare_unaligned (p + 1) (q + 1) n m in
    if is_aligned p && is_aligned q
    then same p q (suc n)
    else if m p == m q
    then next
    else differ (minus (m p) (m q))

-- The bytes of two words that differ.
unfoldable pub word_difference : ℕ → ℕ → Memory → ℤ
word_difference p q m =
    if not (m p == m q)
    then minus (m p) (m q)
    else if not (m (p + 1) == m (q + 1))
    then minus (m (p + 1)) (m (q + 1))
    else if not (m (p + 2) == m (q + 2))
    then minus (m (p + 2)) (m (q + 2))
    else minus (m (p + 3)) (m (q + 3))

-- `while (n >= 4) ..`, for the number of its rounds; `rest` is the count after the last.
unfoldable pub compare_words : ℕ → ℕ → ℕ → ℕ → Memory → Comparing
compare_words p q zero rest m = same p q rest
compare_words p q (suc words) rest m =
    let next = compare_words (p + 4) (q + 4) words rest m in
    if load32 p m == load32 q m then next else differ (word_difference p q m)

unfoldable pub compare_tail : Comparing → Memory → ℤ
compare_tail (differ r) m = r
compare_tail (same p q n) m = memcmp p q n m

abbrev pub compare_aligned : Comparing → Memory → ℤ
compare_aligned (differ r) m = r
compare_aligned (same p q n) m = compare_tail (compare_words p q (n / 4) (n - n / 4 * 4) m) m

unfoldable pub memcmp32 : ℕ → ℕ → ℕ → Memory → ℤ
memcmp32 a b n m = compare_aligned (compare_unaligned a b n m) m
