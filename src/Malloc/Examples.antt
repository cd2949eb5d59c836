-- ===== src/Malloc/Examples.antt =====
-- Runs of the heap of user/lib/malloc.c.
use cobj_os.Prelude.{ℕ, ◌+◌, ◌*◌, ◌≤◌, ◌≡◌, refl, some, [], ◌∷◌, arith, true, false, ◌^◌, ◌-◌}
use cobj_os.Malloc.{Arena, malloc, fit_loop, round_up, coalesce, split}
use cobj_os.Malloc.Returned.{IsValid, Fresh, Allocated, malloc-Allocated}

-- The regions that the kernel gives follow one another from 0x10000000 on, 64 KiB apart here.
abbrev mmap : ℕ → ℕ → ℕ
mmap calls size = 0x10000000 + calls * 0x10000

-- A free block of 96 bytes in front of one in use.
abbrev arena : Arena
arena = record {
  heap_ptr = 0x100000a0;
  heap_end = 0x10001000;
  blocks =
      record { at = 0x10000000; size = 96; free = true }
      ∷ record { at = 0x10000078; size = 16; free = false }
      ∷ [];
  calls = 1;
  bytes = λ b. 0;
}

arena-IsValid : IsValid arena
arena-IsValid = record {
  ordered = (omega arith, (omega arith, omega arith));
  within = omega arith;
  wide = omega arith;
}

mmap-Fresh : Fresh mmap (24 + round_up 13 + 4096) arena
unfolding round_up
mmap-Fresh = (omega arith, omega arith, omega arith)

malloc_runs :
    (a : Arena) × (malloc mmap 13 arena ≡ (some 0x10000018, a))
    × (a.blocks
        ≡ record { at = 0x10000000; size = 16; free = false }
          ∷ record { at = 0x10000028; size = 56; free = true }
          ∷ record { at = 0x10000078; size = 16; free = false }
          ∷ [])
unfolding malloc fit_loop round_up coalesce split
malloc_runs = (_, refl, refl)

-- The largest sizes wrap around to a block of no bytes.
malloc_wraps :
    (a : Arena) × (malloc mmap (2 ^ 64 - 1) arena ≡ (some 0x10000018, a))
    × (round_up (2 ^ 64 - 1) ≡ 0)
unfolding malloc fit_loop round_up coalesce split
malloc_wraps = (_, refl, refl)

malloc-Allocated_example :
    (ptr : ℕ) × (a' : Arena) × (malloc mmap 13 arena ≡ (some ptr, a'))
    × (13 ≤ round_up 13)
    × Allocated (round_up 13) ptr arena a'
malloc-Allocated_example =
    malloc-Allocated mmap 13 arena (omega arith) (omega arith) arena-IsValid mmap-Fresh
