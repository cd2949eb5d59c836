-- ===== src/Malloc/Returned.antt =====
-- What `free` of user/lib/malloc.c gives back, and that it gives back what `malloc` took.
use mathlib.Core.Path.{subst}
use cobj_os.Prelude.{
  ℕ, ◌+◌, ◌-◌, ◌%◌, ◌^◌, ◌≤◌, ◌<◌, ◌≡◌, refl, sym, ap, ◌∙◌, inl, inr, true, false, ◌||◌, none, some,
  List, [], ◌∷◌, ◌++◌, arith, ltb, ◌==◌, Bool-cases,
}
use cobj_os.Malloc.{
  Block, Arena, header_size, round_up, sbrk, extend_heap, coalesce, fit_loop, malloc, free_at, free,
}
use cobj_os.Malloc.Layout.{
  Ordered, Ordered-append, used, used-Ordered, used-append, used_free, used_busy, if_true, if_false,
  coalesce-Merged, round_up_bounds,
}
use cobj_os.Malloc.Used.{
  lookup, remove, lookup-below, lookup-above, append_end, Given, fit_loop-Given,
}

freed_here :
    (at lo hi : ℕ) (b : Block) (rest : List Block)
    → Ordered lo (b ∷ rest) hi
    → b.free ≡ false
    → (b.at == at) ≡ true
    → Ordered lo (free_at at (b ∷ rest)) hi
      × (used (free_at at (b ∷ rest)) ≡ remove at (used (b ∷ rest)))
unfolding free_at
freed_here at lo hi b rest o busy here =
    let m = coalesce-Merged rest (record b { free = true }) lo hi o in
    let value : free_at at (b ∷ rest) ≡ m.b' ∷ m.rest' =
      if_true (b.at == at) (coalesce (record b { free = true }) rest) (b ∷ free_at at rest) here
      ∙ m.value in
    (
      subst (λ (l : List Block). Ordered lo l hi) (sym value) m.ordered,
      ap used value
          ∙ used_free m.b' m.rest' m.same_free
          ∙ m.same_used
          ∙ sym (
              ap (remove at) (used_busy b rest busy)
              ∙ if_true (b.at == at) (used rest) (b ∷ remove at (used rest)) here),
    )

free_at-used :
    (at : ℕ) (blocks : List Block) (got : Block) (lo hi : ℕ)
    → Ordered lo blocks hi
    → lookup at (used blocks) ≡ some got
    → Ordered lo (free_at at blocks) hi × (used (free_at at blocks) ≡ remove at (used blocks))
unfolding free_at
free_at-used at [] got lo hi o found = cc
free_at-used at (b ∷ rest) got lo hi (from, o) found = elim (Bool-cases (b.at == at)) [
  | inl here ↦ elim (Bool-cases b.free) [
    | inr busy ↦ freed_here at lo hi b rest (from, o) busy here
    | inl e ↦
        let there : lookup at (used rest) ≡ some got =
          sym (ap (lookup at) (used_free b rest e)) ∙ found in
        let below : lookup at (used rest) ≡ none =
          lookup-below (b.at + header_size + b.size) hi at (used rest)
            (used-Ordered (b.at + header_size + b.size) hi rest o) (ground (arith, here)) in
        cc
  ]
  | inr ne ↦
      let value : free_at at (b ∷ rest) ≡ b ∷ free_at at rest =
        if_false (b.at == at) (coalesce (record b { free = true }) rest) (b ∷ free_at at rest) ne in
      elim (Bool-cases b.free) [
        | inl e ↦
            let there = sym (ap (lookup at) (used_free b rest e)) ∙ found in
            let (ordered, same) =
              free_at-used at rest got (b.at + header_size + b.size) hi o there in
            (
              subst (λ (l : List Block). Ordered lo l hi) (sym value) (from, ordered),
              ap used value
                  ∙ used_free b (free_at at rest) e
                  ∙ same
                  ∙ sym (ap (remove at) (used_free b rest e)),
            )
        | inr e ↦
            let there =
              sym (if_false (b.at == at) (some b) (lookup at (used rest)) ne)
              ∙ sym (ap (lookup at) (used_busy b rest e))
              ∙ found in
            let (ordered, same) =
              free_at-used at rest got (b.at + header_size + b.size) hi o there in
            (
              subst (λ (l : List Block). Ordered lo l hi) (sym value) (from, ordered),
              ap used value
                  ∙ used_busy b (free_at at rest) e
                  ∙ ap (◌∷◌ b) same
                  ∙ sym (if_false (b.at == at) (used rest) (b ∷ remove at (used rest)) ne)
                  ∙ sym (ap (remove at) (used_busy b rest e)),
            )
      ]
]

-- The blocks lie one behind the other below `heap_ptr`.
pub record IsValid (a : Arena) : Type 0 where
  pub ordered : Ordered 0 a.blocks a.heap_ptr
  pub within : a.heap_ptr ≤ a.heap_end
  pub wide : a.heap_end < 2 ^ 64

-- A new block behind all others.
new_block : ℕ → ℕ → Block
new_block at size = record { at = at; size = size; free = false }

new_block-Given :
    (at size hi : ℕ) (blocks : List Block)
    → Ordered 0 blocks hi
    → hi ≤ at
    → Ordered 0 (blocks ++ new_block at size ∷ []) (at + (header_size + size))
      × Given size at blocks (blocks ++ new_block at size ∷ [])
unfolding new_block
new_block-Given at size hi blocks o le =
    let none_there = lookup-above 0 hi at (used blocks) (used-Ordered 0 hi blocks o) le in
    let (there, gone) = append_end (used blocks) (new_block at size) none_there in
    let all_used = used-append blocks (new_block at size) refl in
    (
      Ordered-append 0 hi (at + (header_size + size)) blocks (new_block at size) o le (omega arith),
      record {
        got = new_block at size;
        found = ap (lookup at) all_used ∙ there;
        large = omega arith;
        was_free = none_there;
        others = ap (remove at) all_used ∙ gone;
      },
    )

-- The `n` bytes that `mmap` would give lie behind what it gave before, not at NULL, and in the address space.
abbrev pub Fresh : (ℕ → ℕ → ℕ) → ℕ → Arena → Type 0
Fresh mmap n a =
    (a.heap_end ≤ mmap a.calls n) × (0 < mmap a.calls n) × (mmap a.calls n + n < 2 ^ 64)

extend_heap-Given :
    (mmap : ℕ → ℕ → ℕ) (size : ℕ) (a : Arena)
    → IsValid a
    → Fresh mmap (header_size + size + 4096) a
    → (at : ℕ) × (a' : Arena) × (extend_heap mmap size a ≡ (some at, a'))
      × IsValid a'
      × Given size at a.blocks a'.blocks
unfolding extend_heap sbrk new_block
extend_heap-Given mmap size a valid fresh =
    let page = mmap a.calls (header_size + size + 4096) in
    let (behind, there, room) = fresh in
    let total : (header_size + size) % 2 ^ 64 ≡ header_size + size = omega (arith, room) in
    let asked : (header_size + size + 4096) % 2 ^ 64 ≡ header_size + size + 4096 =
      omega (arith, room) in
    let next : (a.heap_ptr + (header_size + size)) % 2 ^ 64 ≡ a.heap_ptr + (header_size + size) =
      omega (arith, room, behind, valid.within) in
    let ptr : (page + (header_size + size)) % 2 ^ 64 ≡ page + (header_size + size) =
      omega (arith, room) in
    let end : (page + (header_size + size) + 4096) % 2 ^ 64 ≡ page + (header_size + size) + 4096 =
      omega (arith, room) in
    elim (Bool-cases (a.heap_ptr == 0 || ltb a.heap_end (a.heap_ptr + (header_size + size)))) [
      | inl more ↦
          let ne : (page == 0) ≡ false = ground (arith, there) in
          let (o, g) =
            new_block-Given page size a.heap_ptr a.blocks valid.ordered
              (omega (arith, behind, valid.within)) in
          rw (total, asked, next, more, ne, ptr, end)
            (
              page,
              _,
              refl,
              record { ordered = o; within = omega arith; wide = omega (arith, room) },
              g,
            )
      | inr fits ↦
          let ne : (a.heap_ptr == 0) ≡ false = ground (arith, fits) in
          let le : a.heap_ptr + (header_size + size) ≤ a.heap_end = ground (arith, fits) in
          let (o, g) =
            new_block-Given a.heap_ptr size a.heap_ptr a.blocks valid.ordered (omega arith) in
          rw (total, next, fits, ne)
            (a.heap_ptr, _, refl, record { ordered = o; within = le; wide = valid.wide }, g)
    ]

-- The block that `malloc` gives, and what `free` of it leaves.
pub record Allocated (size ptr : ℕ) (a a' : Arena) : Type 0 where
  pub valid : IsValid a'
  pub apart : Ordered 0 (used a'.blocks) a'.heap_ptr
  pub given : Given size (ptr - header_size) a.blocks a'.blocks
  pub valid_again : IsValid (free (some ptr) a')
  pub given_back : used ((free (some ptr) a').blocks) ≡ used a.blocks

Given-Allocated :
    (size at : ℕ) (a a' : Arena)
    → IsValid a'
    → Given size at a.blocks a'.blocks
    → Allocated size (at + header_size) a a'
unfolding free
Given-Allocated size at a a' valid g =
    let back : at + header_size - header_size ≡ at = omega arith in
    let (o, same) = free_at-used at a'.blocks g.got 0 a'.heap_ptr valid.ordered g.found in
    record {
      valid = valid;
      apart = used-Ordered 0 a'.heap_ptr a'.blocks valid.ordered;
      given = rw back g;
      valid_again = record { ordered = rw back o; within = valid.within; wide = valid.wide };
      given_back = rw back (same ∙ g.others);
    }

-- In a valid heap, and where `mmap` would give fresh memory for the size, `malloc` of a size that can be
-- rounded returns a block of at least that size among the blocks in use, where no block in use was; the blocks in use do not overlap,
-- and but for the new one they are those before. `free` of it makes them those before again.
pub malloc-Allocated :
    (mmap : ℕ → ℕ → ℕ) (size : ℕ) (a : Arena)
    → 0 < size
    → size + 7 < 2 ^ 64
    → IsValid a
    → Fresh mmap (header_size + round_up size + 4096) a
    → (ptr : ℕ) × (a' : Arena) × (malloc mmap size a ≡ (some ptr, a'))
      × (size ≤ round_up size)
      × Allocated (round_up size) ptr a a'
unfolding malloc
malloc-Allocated mmap size a positive small valid fresh =
    let ne : (size == 0) ≡ false = ground (arith, positive) in
    let (up, bound, even) = round_up_bounds size small in
    elim (fit_loop-Given (round_up size) a.blocks 0 a.heap_ptr (omega (arith, fresh.2))
      (omega (arith, valid.within, valid.wide)) valid.ordered) [
        | inr (at, found, low, o, g) ↦
            let a' : Arena = record a { blocks = (fit_loop (round_up size) a.blocks).blocks } in
            rw (ne, found)
              (
                at + header_size,
                a',
                refl,
                up,
                Given-Allocated (round_up size) at a a'
                    (record { ordered = o; within = valid.within; wide = valid.wide }) g,
              )
        | inl (nothing, same) ↦
            let (at, a', run, valid', g) = extend_heap-Given mmap (round_up size) a valid fresh in
            rw (ne, nothing, same, run)
              (at + header_size, a', refl, up, Given-Allocated (round_up size) at a a' valid' g)
      ]
