-- ===== src/Elf/Page.antt =====
-- The bytes that `elf_load` of src/loader/elf.c puts into the frame of one page.
use cobj_os.Prelude.{
  ℕ, ◌+◌, ◌-◌, ◌%◌, ◌^◌, ◌≤◌, ◌<◌, ◌≡◌, refl, ap, ◌∙◌, inl, inr, true, false, ◌&&◌, arith, ltb, leb,
  if◌then◌else◌, Bool-cases,
}
use cobj_os.Memory.{fill_zero, copy_in, inside}
use cobj_os.Elf.{ElfPhdr, page_bytes, sub}

fill_zero_inside : (a n j : ℕ) (bytes : ℕ → ℕ) → j < n → fill_zero a n bytes (a + j) ≡ 0
unfolding fill_zero
fill_zero_inside a n j bytes h = ground arith

fill_zero_outside :
    (a n b : ℕ) (bytes : ℕ → ℕ) → inside a n b ≡ false → fill_zero a n bytes b ≡ bytes b
unfolding fill_zero
fill_zero_outside a n b bytes h = rw h refl

copy_in_inside :
    (a offset n b : ℕ) (data' bytes : ℕ → ℕ)
    → inside a n b ≡ true
    → copy_in a data' offset n bytes b ≡ data' (offset + (b - a))
unfolding copy_in
copy_in_inside a offset n b data' bytes h = rw h refl

copy_in_outside :
    (a offset n b : ℕ) (data' bytes : ℕ → ℕ)
    → inside a n b ≡ false
    → copy_in a data' offset n bytes b ≡ bytes b
unfolding copy_in
copy_in_outside a offset n b data' bytes h = rw h refl

-- What stands at byte `j` of the page at `va`.
abbrev pub Content : ElfPhdr → (ℕ → ℕ) → ℕ → ℕ → ℕ → Type 0
Content phdr data' va j v =
    let a = va + j in
    let end = phdr.vaddr + phdr.filesz + (phdr.vaddr - va) in
    (phdr.vaddr ≤ a → a < end → v ≡ data' (phdr.offset + (a - phdr.vaddr)))
    × (a < phdr.vaddr → v ≡ 0)
    × (end ≤ a → v ≡ 0)

module _ (phdr : ElfPhdr) (data' bytes : ℕ → ℕ) (va phys : ℕ)
    (wide : phdr.vaddr + phdr.filesz < 2 ^ 64) (wide' : va < 2 ^ 64)
    (in_file : phdr.offset + phdr.filesz < 2 ^ 64) (near : phdr.vaddr < va + 4096) where
  end : (phdr.vaddr + phdr.filesz) % 2 ^ 64 ≡ phdr.vaddr + phdr.filesz
  end = omega arith

  -- The copy is cut at the end of the page and of the bytes that remain.
  cut : ℕ → ℕ → ℕ
  cut remaining room = if ltb remaining room then remaining else room

  cut-le : (remaining room : ℕ) → (cut remaining room ≤ remaining) × (cut remaining room ≤ room)
  unfolding cut
  cut-le remaining room = ground arith

  in_cut : (remaining room k : ℕ) → k < remaining → k < room → k < cut remaining room
  unfolding cut
  in_cut remaining room k h h' = ground arith

  -- The page once the start of the copy and the number of its bytes are known.
  copied :
      (offset start count j : ℕ)
      → (inside (phys + start) count (phys + j) ≡ (leb start j && ltb j (start + count)))
  copied offset start count j = ground arith

  page-Content :
      (offset start count j : ℕ)
      → j < 4096
      → ltb va (phdr.vaddr + phdr.filesz) ≡ true
      → (phdr.vaddr ≤ va + j → phdr.offset + (va + j - phdr.vaddr) ≡ offset + (j - start))
      → (va + j < phdr.vaddr → j < start)
      → (phdr.vaddr ≤ va + j
          → va + j < phdr.vaddr + phdr.filesz + (phdr.vaddr - va)
          → (start ≤ j) × (j < start + count))
      → (phdr.vaddr + phdr.filesz + (phdr.vaddr - va) ≤ va + j → start + count ≤ j)
      → Content phdr data' va j
          (copy_in (phys + start) data' offset count (fill_zero phys 4096 bytes) (phys + j))
  page-Content offset start count j h some_bytes source front middle back = (
    λ from to.
        let (low, high) = middle from to in
        copy_in_inside (phys + start) offset count (phys + j) data' (fill_zero phys 4096 bytes)
          (ground (arith, low, high))
        ∙ ap data' (omega (arith, source from, low)),
    λ before.
        copy_in_outside (phys + start) offset count (phys + j) data' (fill_zero phys 4096 bytes)
          (ground (arith, front before))
        ∙ fill_zero_inside phys 4096 j bytes h,
    λ behind.
        copy_in_outside (phys + start) offset count (phys + j) data' (fill_zero phys 4096 bytes)
          (ground (arith, back behind))
        ∙ fill_zero_inside phys 4096 j bytes h,
  )

  first_page :
      (j : ℕ)
      → j < 4096
      → ltb va phdr.vaddr ≡ true
      → Content phdr data' va j (page_bytes phdr data' va phys bytes (phys + j))
  unfolding page_bytes cut
  first_page j h e =
      let lt : va < phdr.vaddr = ground (arith, e) in
      let some_bytes : ltb va (phdr.vaddr + phdr.filesz) ≡ true = ground (arith, lt) in
      let remaining = phdr.vaddr + phdr.filesz - va in
      let start = phdr.vaddr - va in
      let (small, small') = cut-le remaining (4096 - start) in
      rw (end, e, some_bytes)
        (page-Content phdr.offset start (cut remaining (4096 - start)) j h some_bytes
          (λ from. omega (arith, from, lt)) (λ before. omega (arith, before, lt))
          (λ from to.
            let more : j - start < cut remaining (4096 - start) =
              in_cut remaining (4096 - start) (j - start) (omega (arith, from, to, lt))
                (omega (arith, from, lt, h)) in
            (omega (arith, from, lt), omega (arith, from, lt, to, more, h)))
          (λ behind. omega (arith, behind, lt, small)))

  later_page :
      (j : ℕ)
      → j < 4096
      → ltb va phdr.vaddr ≡ false
      → Content phdr data' va j (page_bytes phdr data' va phys bytes (phys + j))
  unfolding page_bytes cut
  later_page j h e =
      let le : phdr.vaddr ≤ va = ground (arith, e) in
      let remaining = phdr.vaddr + phdr.filesz - va in
      let (small, small') = cut-le remaining (4096 - 0) in
      let offset = (phdr.offset + sub va phdr.vaddr) % 2 ^ 64 in
      elim (Bool-cases (ltb va (phdr.vaddr + phdr.filesz))) [
        | inl some_bytes ↦
            let lt : va < phdr.vaddr + phdr.filesz = ground (arith, some_bytes) in
            let distance : sub va phdr.vaddr ≡ va - phdr.vaddr = omega (arith, le, wide') in
            let at : offset ≡ phdr.offset + (va - phdr.vaddr) =
              omega (arith, distance, lt, le, in_file) in
            rw (end, e, some_bytes)
              (page-Content offset 0 (cut remaining (4096 - 0)) j h some_bytes
                (λ from. omega (arith, at, le)) (λ before. omega (arith, before, le))
                (λ from to.
                  let more : j < cut remaining (4096 - 0) =
                    in_cut remaining (4096 - 0) j (omega (arith, to, le)) (omega (arith, h)) in
                  (omega arith, omega (arith, more)))
                (λ behind. omega (arith, behind, le, small)))
        | inr nothing ↦
            let ge : phdr.vaddr + phdr.filesz ≤ va = ground (arith, nothing) in
            let zero_byte = fill_zero_inside phys 4096 j bytes h in
            rw (end, e, nothing)
              (
                λ from to. absurd (omega (arith, ge, le, to)),
                λ before. zero_byte,
                λ behind. zero_byte,
              )
      ]

  page_bytes-other :
      (b : ℕ) → inside phys 4096 b ≡ false → page_bytes phdr data' va phys bytes b ≡ bytes b
  unfolding page_bytes cut
  page_bytes-other b h =
      let start = if ltb va phdr.vaddr then phdr.vaddr - va else 0 in
      let room : start ≤ 4096 = ground arith in
      let remaining = phdr.vaddr + phdr.filesz - va in
      let (small, small') = cut-le remaining (4096 - start) in
      let clear = fill_zero_outside phys 4096 b bytes h in
      let past : inside (phys + start) (cut remaining (4096 - start)) b ≡ false =
        ground (arith, h, small', room) in
      elim (Bool-cases (ltb va (phdr.vaddr + phdr.filesz))) [
        | inr nothing ↦ rw (end, nothing) clear
        | inl some_bytes ↦
            rw (end, some_bytes)
              (copy_in_outside (phys + start) _ (cut remaining (4096 - start)) b data'
                  (fill_zero phys 4096 bytes) past
                ∙ clear)
      ]

-- The frame of a page of a segment holds the bytes of the file that belong to the page, and zeros in front of
-- the segment and behind its bytes; in a first page that the segment does not start with, the zeros
-- start by as many bytes too late as the segment starts late. Memory outside the frame is not touched.
pub page_bytes-Content :
    (phdr : ElfPhdr) (data' bytes : ℕ → ℕ) (va phys : ℕ)
    → phdr.vaddr + phdr.filesz < 2 ^ 64
    → va < 2 ^ 64
    → phdr.offset + phdr.filesz < 2 ^ 64
    → phdr.vaddr < va + 4096
    → ((j : ℕ)
        → j < 4096
        → Content phdr data' va j (page_bytes phdr data' va phys bytes (phys + j)))
      × ((b : ℕ) → inside phys 4096 b ≡ false → page_bytes phdr data' va phys bytes b ≡ bytes b)
page_bytes-Content phdr data' bytes va phys wide wide' in_file near = (
  λ j h. elim (Bool-cases (ltb va phdr.vaddr)) [
    | inl e ↦ first_page phdr data' bytes va phys wide wide' in_file near j h e
    | inr e ↦ later_page phdr data' bytes va phys wide wide' in_file near j h e
  ],
  page_bytes-other phdr data' bytes va phys wide wide' in_file near,
)
