-- ===== src/Elf.antt =====
-- src/loader/elf.c: the program headers of an executable become pages of an address space.
-- The file is a function from offsets to bytes, so that a read past its end gives what memory holds
-- there, as in the code, which does not look for the end. The messages on the console are left out.
pub mod Page
mod Examples
use cobj_os.Prelude.{
  ℕ, zero, suc, ◌+◌, ◌-◌, ◌*◌, ◌/◌, ◌%◌, ◌^◌, bit_and, bit_or, Bool, true, false, not, ◌&&◌, ltb,
  leb, ◌==◌, if◌then◌else◌,
}
use cobj_os.Prelude.Outcome.{Outcome, ok, panic, ◌>>=◌}
use cobj_os.Pmm.{alloc_page}
use cobj_os.Vmm.{Tables, vmm_map_page}
use cobj_os.Memory.{Memory, fill_zero, copy_in}

-- A number of `width` bytes, the lowest first.
unfoldable pub read_le : ℕ → (ℕ → ℕ) → ℕ → ℕ
read_le zero data' at = 0
read_le (suc width) data' at = data' at + 256 * read_le width data' (at + 1)

pub record ElfHdr : Type 0 where
  pub magic : ℕ
  pub bits : ℕ
  pub type : ℕ
  pub machine : ℕ
  pub entry : ℕ
  pub phoff : ℕ
  pub phentsize : ℕ
  pub phnum : ℕ

pub record ElfPhdr : Type 0 where
  pub type : ℕ
  pub flags : ℕ
  pub offset : ℕ
  pub vaddr : ℕ
  pub filesz : ℕ
  pub memsz : ℕ

abbrev pub elf_hdr_size : ℕ
elf_hdr_size = 64

unfoldable pub elf_hdr : (ℕ → ℕ) → ElfHdr
elf_hdr data' = record {
  magic = read_le 4 data' 0;
  bits = read_le 1 data' 4;
  type = read_le 2 data' 16;
  machine = read_le 2 data' 18;
  entry = read_le 8 data' 24;
  phoff = read_le 8 data' 32;
  phentsize = read_le 2 data' 54;
  phnum = read_le 2 data' 56;
}

unfoldable pub elf_phdr : (ℕ → ℕ) → ℕ → ElfPhdr
elf_phdr data' at = record {
  type = read_le 4 data' at;
  flags = read_le 4 data' (at + 4);
  offset = read_le 8 data' (at + 8);
  vaddr = read_le 8 data' (at + 16);
  filesz = read_le 8 data' (at + 32);
  memsz = read_le 8 data' (at + 40);
}

-- The differences of addresses below are 64-bit words.
abbrev pub sub : ℕ → ℕ → ℕ
sub a b = (a + 2 ^ 64 - b) % 2 ^ 64

-- The bytes of the frame at `phys` for the page at `va`, after `memset` and `memcpy`.
unfoldable pub page_bytes : ElfPhdr → (ℕ → ℕ) → (va phys : ℕ) → (ℕ → ℕ) → ℕ → ℕ
page_bytes phdr data' va phys bytes =
    let cleared = fill_zero phys 4096 bytes in
    let end = (phdr.vaddr + phdr.filesz) % 2 ^ 64 in
    let file_offset =
      if ltb va phdr.vaddr then phdr.offset else (phdr.offset + sub va phdr.vaddr) % 2 ^ 64 in
    let copy_offset = if ltb va phdr.vaddr then phdr.vaddr - va else 0 in
    let remaining = end - va in
    let copy_size = if ltb remaining (4096 - copy_offset) then remaining else 4096 - copy_offset in
    if ltb va end then copy_in (phys + copy_offset) data' file_offset copy_size cleared else cleared

-- The pages of a segment from `va` on; `false` is the result 0 for want of memory.
unfoldable pub page_loop :
    ℕ → ℕ → ElfPhdr → (ℕ → ℕ) → (va flags : ℕ) → Memory → Outcome (Bool × Memory)
page_loop zero space phdr data' va flags m = ok (true, m)
page_loop (suc rounds) space phdr data' va flags m = alloc_page m.tables.pmm >>= λ taken.
    let (phys, pmm) = taken in
    let bytes = page_bytes phdr data' va phys m.bytes in
    if phys == 0
    then ok (false, record m { tables = record (m.tables) { pmm = pmm } })
    else vmm_map_page space va phys flags (record (m.tables) { pmm = pmm }) >>= λ tables.
        page_loop rounds space phdr data' (va + 4096) flags
          (record { tables = tables; bytes = bytes })

-- `PAGE_PRESENT | PAGE_USER`, with `PAGE_WRITE` for a segment that can be written.
abbrev pub segment_flags : ElfPhdr → ℕ
segment_flags phdr = if not (bit_and phdr.flags 2 == 0) then 7 else 5

unfoldable pub load_segment : ℕ → ElfPhdr → (ℕ → ℕ) → Memory → Outcome (Bool × Memory)
load_segment space phdr data' m =
    let vaddr_start = bit_and phdr.vaddr 0xfffffffffffff000 in
    let vaddr_end = bit_and ((phdr.vaddr + phdr.memsz + 0xfff) % 2 ^ 64) 0xfffffffffffff000 in
    if phdr.type == 1
    then page_loop ((vaddr_end - vaddr_start) / 4096) space phdr data' vaddr_start
        (segment_flags phdr) m
    else ok (true, m)

-- The program headers that are left, from number `i` on; `i * hdr->phentsize`, an `int`, is taken not to
-- overflow.
unfoldable pub segment_loop : ℕ → ℕ → ℕ → ElfHdr → (ℕ → ℕ) → Memory → Outcome (Bool × Memory)
segment_loop zero i space hdr data' m = ok (true, m)
segment_loop (suc left) i space hdr data' m =
    let phdr = elf_phdr data' ((hdr.phoff + i * hdr.phentsize) % 2 ^ 64) in
    load_segment space phdr data' m >>= λ loaded.
    let (good, m') = loaded in
    let rest = segment_loop left (i + 1) space hdr data' m' in if good then rest else ok (false, m')

abbrev pub is_executable : ElfHdr → Bool
is_executable hdr = hdr.magic == 0x464c457f && hdr.bits == 2 && hdr.machine == 62 && hdr.type == 2

-- The address to start at, or 0.
unfoldable pub elf_load : ℕ → (ℕ → ℕ) → ℕ → Memory → Outcome (ℕ × Memory)
elf_load space data' size m =
    let hdr = elf_hdr data' in
    if ltb size elf_hdr_size
    then ok (0, m)
    else if not (is_executable hdr)
    then ok (0, m)
    else segment_loop hdr.phnum 0 space hdr data' m >>= λ loaded.
        let (good, m') = loaded in ok (if good then hdr.entry else 0, m')
