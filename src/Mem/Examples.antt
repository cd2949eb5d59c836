-- ===== src/Mem/Examples.antt =====
-- The routines of src/misc/mem.c on small ranges, and their theorems there.
use cobj_os.Prelude.{◌%◌, ◌≡◌, refl, inr, arith}
use cobj_os.Mem.{
  Memory, memset, memset32, memcpy, memcpy32, memmove, memmove32, memcmp, memcmp32, copy_down,
  copy_down_unaligned, copy_down_words, copy_down_aligned,
}
use cobj_os.Mem.Copied.{Bytes, copied}
use cobj_os.Mem.Copy.{memcpy32-memcpy}
use cobj_os.Mem.Move.{memmove32-memmove}
use cobj_os.Mem.Fill.{memset32-memset, filled}
use cobj_os.Mem.Compare.{memcmp32-memcmp}

-- The byte at each address is the address modulo 256.
abbrev counting : Memory
counting = λ a. a % 256

counting-Bytes : Bytes counting
counting-Bytes a = omega arith

-- Overlapping ranges, the target above the source.
memmove32_runs : memmove32 104 100 9 counting 112 ≡ 108
unfolding memmove32 copy_down copy_down_unaligned copy_down_words copy_down_aligned
memmove32_runs = refl

memmove32-memmove_example :
    (memmove 104 100 9 counting ≡ copied 104 100 9 counting)
    × (memmove32 104 100 9 counting ≡ memmove 104 100 9 counting)
memmove32-memmove_example = memmove32-memmove 104 100 9 counting counting-Bytes

memcpy32-memcpy_example :
    (memcpy 200 101 30 counting ≡ copied 200 101 30 counting)
    × (memcpy32 200 101 30 counting ≡ memcpy 200 101 30 counting)
memcpy32-memcpy_example = memcpy32-memcpy 200 101 30 counting counting-Bytes (inr (omega arith))

memset32-memset_example :
    (memset 3 258 9 counting ≡ filled 3 258 9 counting)
    × (memset32 3 258 9 counting ≡ memset 3 258 9 counting)
memset32-memset_example = memset32-memset 3 258 9 counting

memcmp32-memcmp_example : memcmp32 0 256 16 counting ≡ memcmp 0 256 16 counting
memcmp32-memcmp_example = memcmp32-memcmp 0 256 16 counting counting-Bytes
