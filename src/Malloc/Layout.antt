-- ===== src/Malloc/Layout.antt =====
-- The blocks of user/lib/malloc.c lie one behind the other.
use mathlib.Core.Path.{subst}
use cobj_os.Prelude.{
  ℕ, ◌+◌, ◌-◌, ◌*◌, ◌/◌, ◌%◌, ◌^◌, ◌≤◌, ◌<◌, bit_and, ◌≡◌, refl, sym, ap, ◌∙◌, inl, inr, Bool, true,
  false, List, [], ◌∷◌, ◌++◌, arith, ltb, if◌then◌else◌, Bool-cases,
}
use cobj_os.Prelude.Bits.{align_down_eight}
use cobj_os.Malloc.{Block, header_size, min_split, round_up, coalesce, split, set_free}

-- The blocks lie from `lo` on and end before `hi`, each behind the one before it.
abbrev pub Ordered : ℕ → List Block → ℕ → Type 0
Ordered lo [] hi = lo ≤ hi
Ordered lo (b ∷ rest) hi = (lo ≤ b.at) × Ordered (b.at + header_size + b.size) rest hi

Ordered-lower :
    (lo lo' hi : ℕ) (blocks : List Block) → lo' ≤ lo → Ordered lo blocks hi → Ordered lo' blocks hi
Ordered-lower lo lo' hi [] le o = omega (arith, le, o)
Ordered-lower lo lo' hi (b ∷ rest) le (from, o) = (omega (arith, le, from), o)

pub Ordered-bounds : (lo hi : ℕ) (blocks : List Block) → Ordered lo blocks hi → lo ≤ hi
Ordered-bounds lo hi [] o = o
Ordered-bounds lo hi (b ∷ rest) (from, o) =
    omega (arith, from, Ordered-bounds (b.at + header_size + b.size) hi rest o)

pub Ordered-append :
    (lo hi hi' : ℕ) (blocks : List Block) (b : Block)
    → Ordered lo blocks hi
    → hi ≤ b.at
    → b.at + header_size + b.size ≤ hi'
    → Ordered lo (blocks ++ b ∷ []) hi'
Ordered-append lo hi hi' [] b o from to = (omega (arith, o, from), to)
Ordered-append lo hi hi' (c ∷ rest) b (low, o) from to =
    (low, Ordered-append (c.at + header_size + c.size) hi hi' rest b o from to)

-- The blocks in use.
abbrev pub used : List Block → List Block
used [] = []
used (b ∷ rest) = let later = used rest in if b.free then later else b ∷ later

pub if_true {ℓ} : {A : Type ℓ} (b : Bool) (x y : A) → b ≡ true → (if b then x else y) ≡ x
if_true true x y e = refl
if_true false x y e = cc

pub if_false {ℓ} : {A : Type ℓ} (b : Bool) (x y : A) → b ≡ false → (if b then x else y) ≡ y
if_false true x y e = cc
if_false false x y e = refl

pub used_free : (b : Block) (rest : List Block) → b.free ≡ true → used (b ∷ rest) ≡ used rest
used_free b rest e = if_true b.free (used rest) (b ∷ used rest) e

pub used_busy : (b : Block) (rest : List Block) → b.free ≡ false → used (b ∷ rest) ≡ b ∷ used rest
used_busy b rest e = if_false b.free (used rest) (b ∷ used rest) e

pub used-Ordered :
    (lo hi : ℕ) (blocks : List Block) → Ordered lo blocks hi → Ordered lo (used blocks) hi
used-Ordered lo hi [] o = o
used-Ordered lo hi (b ∷ rest) (from, o) =
    let later = used-Ordered (b.at + header_size + b.size) hi rest o in
    elim (Bool-cases b.free) [
      | inl e ↦
          subst (λ (l : List Block). Ordered lo l hi) (sym (used_free b rest e))
            (Ordered-lower (b.at + header_size + b.size) lo hi (used rest) (omega (arith, from))
              later)
      | inr e ↦ subst (λ (l : List Block). Ordered lo l hi) (sym (used_busy b rest e)) (from, later)
    ]

pub used-append :
    (blocks : List Block) (b : Block)
    → b.free ≡ false
    → used (blocks ++ b ∷ []) ≡ used blocks ++ b ∷ []
used-append [] b e = used_busy b [] e
used-append (c ∷ rest) b e = elim (Bool-cases c.free) [
  | inl h ↦
      used_free c (rest ++ b ∷ []) h
      ∙ used-append rest b e
      ∙ ap (λ (l : List Block). l ++ b ∷ []) (sym (used_free c rest h))
  | inr h ↦
      used_busy c (rest ++ b ∷ []) h
      ∙ ap (◌∷◌ c) (used-append rest b e)
      ∙ ap (λ (l : List Block). l ++ b ∷ []) (sym (used_busy c rest h))
]

-- A merged block starts where it did and is not smaller, and no block in use behind it is lost.
pub record Merged (b : Block) (rest : List Block) (lo hi : ℕ) : Type 0 where
  pub b' : Block
  pub rest' : List Block
  pub value : coalesce b rest ≡ b' ∷ rest'
  pub same_at : b'.at ≡ b.at
  pub same_free : b'.free ≡ b.free
  pub grown : b.size ≤ b'.size
  pub ordered : Ordered lo (b' ∷ rest') hi
  pub same_used : used rest' ≡ used rest

pub coalesce-Merged :
    (rest : List Block) (b : Block) (lo hi : ℕ) → Ordered lo (b ∷ rest) hi → Merged b rest lo hi
unfolding coalesce
coalesce-Merged [] b lo hi o = record {
  b' = b;
  rest' = [];
  value = refl;
  same_at = refl;
  same_free = refl;
  grown = omega arith;
  ordered = o;
  same_used = refl;
}
coalesce-Merged (n ∷ rest) b lo hi (from, (from', o)) = elim (Bool-cases n.free) [
  | inr e ↦ record {
    b' = b;
    rest' = n ∷ rest;
    value = rw (e, coalesce) refl;
    same_at = refl;
    same_free = refl;
    grown = omega arith;
    ordered = (from, (from', o));
    same_used = refl;
  }
  | inl e ↦
      let joined : Block = record b { size = b.size + (header_size + n.size) } in
      let o' =
        Ordered-lower (n.at + header_size + n.size) (joined.at + header_size + joined.size) hi rest
          (omega (arith, from')) o in
      let m = coalesce-Merged rest joined lo hi (from, o') in
      record {
        b' = m.b';
        rest' = m.rest';
        value = rw (e, coalesce) m.value;
        same_at = m.same_at;
        same_free = m.same_free;
        grown = omega (arith, m.grown);
        ordered = m.ordered;
        same_used = m.same_used ∙ sym (used_free n rest e);
      }
]

-- A block that is cut to a size and taken into use.
pub record Taken (size : ℕ) (b : Block) (rest : List Block) (lo hi : ℕ) : Type 0 where
  pub got : Block
  pub rest' : List Block
  pub value : set_free false (split size b rest) ≡ got ∷ rest'
  pub same_at : got.at ≡ b.at
  pub in_use : got.free ≡ false
  pub large : size ≤ got.size
  pub ordered : Ordered lo (got ∷ rest') hi
  pub same_used : used rest' ≡ used rest

pub split-Taken :
    (size : ℕ) (b : Block) (rest : List Block) (lo hi : ℕ)
    → size ≤ b.size
    → size + min_split < 2 ^ 64
    → hi < 2 ^ 64
    → Ordered lo (b ∷ rest) hi
    → Taken size b rest lo hi
unfolding split
split-Taken size b rest lo hi le small wide (from, o) =
    let ends = Ordered-bounds (b.at + header_size + b.size) hi rest o in
    elim (Bool-cases (ltb b.size ((size + min_split) % 2 ^ 64))) [
      | inl e ↦ record {
        got = record b { free = false };
        rest' = rest;
        value = rw (e, split) refl;
        same_at = refl;
        in_use = refl;
        large = le;
        ordered = (from, o);
        same_used = refl;
      }
      | inr e ↦
          let room : size + 40 ≤ b.size = ground (arith, e, small) in
          let new : Block = record {
            at = (b.at + header_size + size) % 2 ^ 64;
            size = (b.size + 2 * 2 ^ 64 - size - header_size) % 2 ^ 64;
            free = true;
          } in
          let same : b.at + header_size + b.size ≡ new.at + header_size + new.size =
            omega (arith, room, ends, wide) in
          record {
            got = record b { size = size; free = false };
            rest' = new ∷ rest;
            value = rw (e, split) refl;
            same_at = refl;
            in_use = refl;
            large = omega arith;
            ordered = (from, (omega (arith, room, ends, wide), rw same at (o)));
            same_used = used_free new rest refl;
          }
    ]

-- Sizes are rounded up to a multiple of 8.
pub round_up_bounds :
    (size : ℕ)
    → size + 7 < 2 ^ 64
    → (size ≤ round_up size) × (round_up size < size + 8) × (round_up size % 8 ≡ 0)
unfolding round_up
round_up_bounds size small =
    let wrap : (size + 7) % 2 ^ 64 ≡ size + 7 = omega (arith, small) in
    let e : bit_and (size + 7) 0xfffffffffffffff8 ≡ (size + 7) / 8 * 8 =
      align_down_eight (size + 7) small in
    rw (wrap, e) (omega arith, omega arith, omega arith)
