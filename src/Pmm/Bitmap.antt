-- ===== src/Pmm/Bitmap.antt =====
-- The words of src/mm/pmm.c's bitmap as a set of page frames: what setting and clearing one bit does to
-- every other.
use cobj_os.Prelude.{
  ℕ, zero, suc, ◌-◌, ◌/◌, ◌%◌, ◌^◌, ◌≤◌, ◌<◌, bit_and, bit_or, ◌≡◌, ◌≢◌, ◌⊎◌, inl, inr, true, false,
  List, [], ◌∷◌, arith, ◌==◌, if◌then◌else◌, Bool-cases, length, get_or, set, length-set,
  get_or-set_self, get_or-set_ne,
}
use cobj_os.Prelude.Bits.{
  bit_at, bit_at-lt-two, bit_at-bit_or, bit_at-bit_and, bit_at-pow_self, bit_at-pow_ne,
  bit_at-complement, bit_or-lt, bit_and-le, bit_and-pow, two-pow-lt, one-le-two_pow,
}
use cobj_os.Pmm.{is_used, set_bit, clear_bit}

-- Every word is a 64-bit number.
abbrev pub Words : List ℕ → Type 0
Words ws = (i : ℕ) → get_or ws i 0 < 2 ^ 64

-- The bit that stands for a page frame.
abbrev pub frame_bit : List ℕ → ℕ → ℕ
frame_bit ws b = bit_at (get_or ws (b / 64) 0) (b % 64)

zero-or-one : (t : ℕ) → t < 2 → (t ≡ 0) ⊎ (t ≡ 1)
zero-or-one t h = omega arith

pub is_used-frame_bit : (ws : List ℕ) (b : ℕ) → is_used ws b ≡ (frame_bit ws b == 1)
unfolding is_used
is_used-frame_bit ws b = elim (zero-or-one (frame_bit ws b) (bit_at-lt-two _ (b % 64))) [
  | inl e ↦ rw (bit_and-pow, e) (ground arith)
  | inr e ↦ rw (bit_and-pow, e) (ground (arith, one-le-two_pow (b % 64)))
]

or_pow : (w k j : ℕ) → bit_at (bit_or w (2 ^ k)) j ≡ (if k == j then 1 else bit_at w j)
or_pow w k j = elim (Bool-cases (k == j)) [
  | inl e ↦
      let same : k ≡ j = ground arith in
      rw (bit_at-bit_or w (2 ^ k) j, e)
        (rw same (omega (arith, bit_at-pow_self j, bit_at-lt-two w j)))
  | inr e ↦
      let apart : k ≢ j = ground arith in
      rw (bit_at-bit_or w (2 ^ k) j, e) (omega (arith, bit_at-pow_ne k j apart))
]

-- `~(1 << k)` in a 64-bit word.
mask_bit : (k j : ℕ) → k < 64 → j < 64 → bit_at (2 ^ 64 - 1 - 2 ^ k) j ≡ (if k == j then 0 else 1)
mask_bit k j small in_word =
    let flip = bit_at-complement 64 (2 ^ k) j (two-pow-lt k 64 small) in_word in
    elim (Bool-cases (k == j)) [
      | inl e ↦
          let same : k ≡ j = ground arith in
          let one : bit_at (2 ^ k) j ≡ 1 = rw same (bit_at-pow_self j) in
          rw e (omega (arith, flip, one))
      | inr e ↦
          let apart : k ≢ j = ground arith in rw e (omega (arith, flip, bit_at-pow_ne k j apart))
    ]

and_pow :
    (w k j : ℕ)
    → k < 64
    → j < 64
    → bit_at (bit_and w (2 ^ 64 - 1 - 2 ^ k)) j ≡ (if k == j then 0 else bit_at w j)
and_pow w k j small in_word =
    ground (
      arith,
      bit_at-bit_and w (2 ^ 64 - 1 - 2 ^ k) j,
      mask_bit k j small in_word,
      bit_at-lt-two w j,
    )

word_update :
    (ws : List ℕ) (i j v : ℕ)
    → i < length ws
    → get_or (set ws i v) j 0 ≡ (if i == j then v else get_or ws j 0)
word_update ws i j v inside = elim (Bool-cases (i == j)) [
  | inl e ↦ let same : i ≡ j = ground arith in rw e (rw (← same) (get_or-set_self ws i v 0 inside))
  | inr e ↦ let apart : i ≢ j = ground arith in rw e (get_or-set_ne ws i j v 0 apart)
]

module _ (ws : List ℕ) (b c : ℕ) (inside : b / 64 < length ws) where
  pub frame_bit-set_bit : frame_bit (set_bit ws b) c ≡ (if b == c then 1 else frame_bit ws c)
  unfolding set_bit
  frame_bit-set_bit = ground (
    arith,
    word_update ws (b / 64) (c / 64) (bit_or (get_or ws (b / 64) 0) (2 ^ (b % 64))) inside,
    or_pow (get_or ws (b / 64) 0) (b % 64) (c % 64),
  )

  pub frame_bit-clear_bit : frame_bit (clear_bit ws b) c ≡ (if b == c then 0 else frame_bit ws c)
  unfolding clear_bit
  frame_bit-clear_bit = ground (
    arith,
    word_update ws (b / 64) (c / 64) (bit_and (get_or ws (b / 64) 0) (2 ^ 64 - 1 - 2 ^ (b % 64)))
        inside,
    and_pow (get_or ws (b / 64) 0) (b % 64) (c % 64) (omega arith) (omega arith),
  )

  -- Setting a frame's bit marks that frame and no other.
  pub is_used-set_bit : is_used (set_bit ws b) c ≡ (if b == c then true else is_used ws c)
  is_used-set_bit =
      ground (arith, is_used-frame_bit (set_bit ws b) c, is_used-frame_bit ws c, frame_bit-set_bit)

  pub is_used-clear_bit : is_used (clear_bit ws b) c ≡ (if b == c then false else is_used ws c)
  is_used-clear_bit =
      ground
        (arith, is_used-frame_bit (clear_bit ws b) c, is_used-frame_bit ws c, frame_bit-clear_bit)

set-Words : (ws : List ℕ) (i v : ℕ) → Words ws → v < 2 ^ 64 → Words (set ws i v)
set-Words [] i v words small j = words j
set-Words (w ∷ ws) zero v words small zero = small
set-Words (w ∷ ws) zero v words small (suc j) = words (suc j)
set-Words (w ∷ ws) (suc i) v words small zero = words 0
set-Words (w ∷ ws) (suc i) v words small (suc j) = set-Words ws i v (λ k. words (suc k)) small j

module _ (ws : List ℕ) (b : ℕ) (words : Words ws) where
  pub set_bit-Words : Words (set_bit ws b)
  unfolding set_bit
  set_bit-Words = set-Words ws (b / 64) _ words (
      bit_or-lt 64 (get_or ws (b / 64) 0) (2 ^ (b % 64)) (words (b / 64))
        (two-pow-lt (b % 64) 64 (omega arith)))

  pub clear_bit-Words : Words (clear_bit ws b)
  unfolding clear_bit
  clear_bit-Words =
      let w = get_or ws (b / 64) 0 in
      let below : bit_and w (2 ^ 64 - 1 - 2 ^ (b % 64)) ≤ w = bit_and-le w w _ (omega arith) in
      set-Words ws (b / 64) _ words (omega (arith, below, words (b / 64)))

pub length-set_bit : (ws : List ℕ) (b : ℕ) → length (set_bit ws b) ≡ length ws
unfolding set_bit
length-set_bit ws b = length-set ws _ _

pub length-clear_bit : (ws : List ℕ) (b : ℕ) → length (clear_bit ws b) ≡ length ws
unfolding clear_bit
length-clear_bit ws b = length-set ws _ _
