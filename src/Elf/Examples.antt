-- ===== src/Elf/Examples.antt =====
-- A page of a program that src/loader/elf.c loads.
use cobj_os.Prelude.{ℕ, ◌+◌, ◌<◌, ◌≡◌, refl, false, arith, if◌then◌else◌}
use cobj_os.Memory.{inside, fill_zero, copy_in}
use cobj_os.Elf.{ElfPhdr, page_bytes, read_le}
use cobj_os.Elf.Page.{Content, page_bytes-Content}

-- A segment that starts in the middle of a page: 16 bytes of the file for 0x401010 on.
abbrev late : ElfPhdr
late = record { type = 1; flags = 6; offset = 0x200; vaddr = 0x401010; filesz = 16; memsz = 64 }

-- The bytes of the file are 1 up to offset 0x21f.
abbrev file : ℕ → ℕ
file i = if inside 0 0x220 i then 1 else 2

-- The last byte of the segment is followed by 16 bytes of the file before the zeros start.
page_bytes_runs :
    (page_bytes late file 0x401000 0x9000 (λ b. 9) 0x9000 ≡ 0)
    × (page_bytes late file 0x401000 0x9000 (λ b. 9) 0x9010 ≡ 1)
    × (page_bytes late file 0x401000 0x9000 (λ b. 9) 0x9020 ≡ 1)
    × (page_bytes late file 0x401000 0x9000 (λ b. 9) 0x9030 ≡ 0)
    × (page_bytes late file 0x401000 0x9000 (λ b. 9) 0xa000 ≡ 9)
unfolding page_bytes fill_zero copy_in
page_bytes_runs = (refl, refl, refl, refl, refl)

page_bytes-Content_example :
    ((j : ℕ)
      → j < 4096
      → Content late file 0x401000 j (page_bytes late file 0x401000 0x9000 (λ b. 9) (0x9000 + j)))
    × ((b : ℕ) → inside 0x9000 4096 b ≡ false → page_bytes late file 0x401000 0x9000 (λ b. 9) b ≡ 9)
page_bytes-Content_example =
    page_bytes-Content late file (λ b. 9) 0x401000 0x9000 (omega arith) (omega arith) (omega arith)
      (omega arith)

read_le_runs : read_le 4 (λ i. i + 1) 0 ≡ 0x04030201
unfolding read_le
read_le_runs = refl
