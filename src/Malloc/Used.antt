-- ===== src/Malloc/Used.antt =====
-- `malloc` and `free` of user/lib/malloc.c against the blocks in use.
use mathlib.Core.Path.{subst}
use cobj_os.Prelude.{
  ℕ, ◌+◌, ◌^◌, ◌≤◌, ◌<◌, ◌≡◌, refl, sym, ap, ◌∙◌, ◌⊎◌, inl, inr, true, false, ◌&&◌, Option, none,
  some, List, [], ◌∷◌, ◌++◌, arith, leb, ◌==◌, if◌then◌else◌, Bool-cases,
}
use cobj_os.Malloc.{
  Block, Search, header_size, min_split, coalesce, split_first, set_free, in_front, fit_loop,
}
use cobj_os.Malloc.Layout.{
  Ordered, Ordered-bounds, used, used-Ordered, used_free, used_busy, if_true, if_false,
  coalesce-Merged, split-Taken,
}

abbrev pub lookup : ℕ → List Block → Option Block
lookup at [] = none
lookup at (b ∷ rest) = let later = lookup at rest in if b.at == at then some b else later

abbrev pub remove : ℕ → List Block → List Block
remove at [] = []
remove at (b ∷ rest) = let later = remove at rest in if b.at == at then rest else b ∷ later

-- No block starts below the first one or behind the last one.
pub lookup-below :
    (lo hi at : ℕ) (blocks : List Block) → Ordered lo blocks hi → at < lo → lookup at blocks ≡ none
lookup-below lo hi at [] o h = refl
lookup-below lo hi at (b ∷ rest) (from, o) h =
    let ne : (b.at == at) ≡ false = ground (arith, from, h) in
    rw ne (lookup-below (b.at + header_size + b.size) hi at rest o (omega (arith, from, h)))

pub lookup-above :
    (lo hi at : ℕ) (blocks : List Block) → Ordered lo blocks hi → hi ≤ at → lookup at blocks ≡ none
lookup-above lo hi at [] o h = refl
lookup-above lo hi at (b ∷ rest) (from, o) h =
    let end = Ordered-bounds (b.at + header_size + b.size) hi rest o in
    let ne : (b.at == at) ≡ false = ground (arith, end, h) in
    rw ne (lookup-above (b.at + header_size + b.size) hi at rest o h)

pub append_end :
    (blocks : List Block) (b : Block)
    → lookup b.at blocks ≡ none
    → (lookup b.at (blocks ++ b ∷ []) ≡ some b) × (remove b.at (blocks ++ b ∷ []) ≡ blocks)
append_end [] b e = let here : (b.at == b.at) ≡ true = ground arith in (rw here refl, rw here refl)
append_end (c ∷ rest) b e = elim (Bool-cases (c.at == b.at)) [
  | inl h ↦ let found : some c ≡ none = rw h at (e) in cc
  | inr h ↦
      let (there, gone) = append_end rest b (rw h at (e)) in (rw h there, rw h (ap (◌∷◌ c) gone))
]

abbrev found_at : ℕ → List Block → Search
found_at at blocks = record { found = some at; blocks = blocks }

-- A new block among those in use.
pub record Given (size at : ℕ) (before after : List Block) : Type 0 where
  pub got : Block
  pub found : lookup at (used after) ≡ some got
  pub large : size ≤ got.size
  pub was_free : lookup at (used before) ≡ none
  pub others : remove at (used after) ≡ used before

Given-later :
    (size at : ℕ) (b : Block) (rest rest' : List Block)
    → (b.at == at) ≡ false
    → Given size at rest rest'
    → Given size at (b ∷ rest) (b ∷ rest')
Given-later size at b rest rest' ne g = elim (Bool-cases b.free) [
  | inl e ↦
      let now = used_free b rest' e in
      let was = used_free b rest e in
      record {
        got = g.got;
        found = ap (lookup at) now ∙ g.found;
        large = g.large;
        was_free = ap (lookup at) was ∙ g.was_free;
        others = ap (remove at) now ∙ g.others ∙ sym was;
      }
  | inr e ↦
      let now = used_busy b rest' e in
      let was = used_busy b rest e in
      record {
        got = g.got;
        found = ap (lookup at) now ∙ if_false _ (some b) (lookup at (used rest')) ne ∙ g.found;
        large = g.large;
        was_free = ap (lookup at) was ∙ if_false _ (some b) (lookup at (used rest)) ne ∙ g.was_free;
        others =
            ap (remove at) now
            ∙ if_false _ (used rest') (b ∷ remove at (used rest')) ne
            ∙ ap (◌∷◌ b) g.others
            ∙ sym was;
      }
]

at_head :
    (size : ℕ) (b : Block) (rest : List Block) (lo hi : ℕ)
    → (b.free && leb size b.size) ≡ true
    → (blocks' : List Block) → set_free false (split_first size (coalesce b rest)) ≡ blocks'
    → lo ≤ b.at
    → Ordered lo blocks' hi
    → Given size b.at (b ∷ rest) blocks'
    → ((fit_loop size (b ∷ rest)).found ≡ none) × ((fit_loop size (b ∷ rest)).blocks ≡ b ∷ rest)
      ⊎ ((at : ℕ) × ((fit_loop size (b ∷ rest)).found ≡ some at)
          × (lo ≤ at)
          × Ordered lo (fit_loop size (b ∷ rest)).blocks hi
          × Given size at (b ∷ rest) (fit_loop size (b ∷ rest)).blocks)
unfolding fit_loop
at_head size b rest lo hi fits blocks' value from o g =
    let run : fit_loop size (b ∷ rest) ≡ found_at b.at blocks' =
      if_true (b.free && leb size b.size) _ (in_front b (fit_loop size rest)) fits
      ∙ ap (found_at b.at) value in
    subst
      (λ (s : Search).
        (s.found ≡ none) × (s.blocks ≡ b ∷ rest)
        ⊎ ((at : ℕ) × (s.found ≡ some at)
            × (lo ≤ at)
            × Ordered lo s.blocks hi
            × Given size at (b ∷ rest) s.blocks))
      (sym run) (inr (b.at, refl, from, o, g))

pub fit_loop-Given :
    (size : ℕ) (blocks : List Block) (lo hi : ℕ)
    → size + min_split < 2 ^ 64
    → hi < 2 ^ 64
    → Ordered lo blocks hi
    → ((fit_loop size blocks).found ≡ none) × ((fit_loop size blocks).blocks ≡ blocks)
      ⊎ ((at : ℕ) × ((fit_loop size blocks).found ≡ some at)
          × (lo ≤ at)
          × Ordered lo (fit_loop size blocks).blocks hi
          × Given size at blocks (fit_loop size blocks).blocks)
unfolding fit_loop
fit_loop-Given size [] lo hi small wide o = inl (refl, refl)
fit_loop-Given size (b ∷ rest) lo hi small wide (from, o) =
    elim (Bool-cases (b.free && leb size b.size)) [
      | inl fits ↦
          let was : used (b ∷ rest) ≡ used rest = used_free b rest (ground (arith, fits)) in
          let le : size ≤ b.size = ground (arith, fits) in
          let m = coalesce-Merged rest b lo hi (from, o) in
          let t =
            split-Taken size m.b' m.rest' lo hi (omega (arith, le, m.grown)) small wide m.ordered in
          let (low, behind) = t.ordered in
          let here : (t.got.at == b.at) ≡ true = ground (arith, t.same_at, m.same_at) in
          let fresh =
            lookup-below (b.at + header_size + b.size) hi b.at (used rest)
              (used-Ordered (b.at + header_size + b.size) hi rest o) (omega arith) in
          let now : used (t.got ∷ t.rest') ≡ t.got ∷ used t.rest' =
            used_busy t.got t.rest' t.in_use in
          let blocks' : set_free false (split_first size (coalesce b rest)) ≡ t.got ∷ t.rest' =
            ap (λ (l : List Block). set_free false (split_first size l)) m.value ∙ t.value in
          let g : Given size b.at (b ∷ rest) (t.got ∷ t.rest') = record {
            got = t.got;
            found = ap (lookup b.at) now ∙ if_true _ (some t.got) (lookup b.at (used t.rest')) here;
            large = t.large;
            was_free = ap (lookup b.at) was ∙ fresh;
            others =
                ap (remove b.at) now
                ∙ if_true _ (used t.rest') (t.got ∷ remove b.at (used t.rest')) here
                ∙ t.same_used
                ∙ m.same_used
                ∙ sym was;
          } in
          at_head size b rest lo hi fits (t.got ∷ t.rest') blocks' from t.ordered g
      | inr misses ↦ elim (fit_loop-Given size rest (b.at + header_size + b.size) hi small wide o) [
        | inl (nothing, same) ↦ rw misses (inl (nothing, ap (◌∷◌ b) same))
        | inr (at, found, low, ordered, g) ↦ rw misses (
            inr (
              at,
              found,
              omega (arith, from, low),
              (from, ordered),
              Given-later size at b rest (fit_loop size rest).blocks (ground (arith, low)) g,
            ))
      ]
    ]
