-- ===== src/Text/Numbers.antt =====
-- Numbers as text: utoa of src/misc/util.c against strtoull of user/lib/util.c.
use native.Mathlib.Nat.{mod-lt, div-le_self, div-lt_iff_lt-mul, mul-le-mul_left, pow-suc}
use native.Mathlib.Omega.{div_any}
use cobj_os.Prelude.{
  ℕ, zero, suc, ◌+◌, ◌*◌, ◌/◌, ◌%◌, ◌^◌, ◌≤◌, ◌<◌, ◌≡◌, refl, ap, ◌∙◌, inl, inr, Bool, true, false,
  not, ◌&&◌, ◌||◌, Option, none, some, List, [], ◌∷◌, ◌++◌, arith, leb, ◌==◌, Bool-cases,
  every_below, every_below_sound,
}
use cobj_os.Text.{
  digit_char, digit_loop, utoa, digit_value, strtoull_loop, strtoull, skip_blanks, skip_plus,
  skip_prefix, is_x,
}

-- The digits that `utoa` writes: values below 16, in lower case.
abbrev IsDigits : List ℕ → Type 0
IsDigits [] = Unit {0}
IsDigits (c ∷ s) = ((d : ℕ) × (d < 16) × (c ≡ digit_char d)) × IsDigits s

is_value : Option ℕ → ℕ → Bool
is_value none d = false
is_value (some e) d = e == d

is_value_sound : (o : Option ℕ) (d : ℕ) → is_value o d ≡ true → o ≡ some d
unfolding is_value
is_value_sound none d h = cc
is_value_sound (some e) d h = ap some (ground (arith, h))

-- What is read back from a digit, and what a digit is not taken for.
digit_table :
    every_below 16 (λ d.
      is_value (digit_value (digit_char d)) d
      && not (digit_char d == b' ' || digit_char d == 9 || digit_char d == 10)
      && not (digit_char d == b'+')
      && not (is_x (digit_char d)))
    ≡ true
unfolding every_below is_value digit_value digit_char
digit_table = refl

digit_value-digit_char : (d : ℕ) → d < 16 → digit_value (digit_char d) ≡ some d
digit_value-digit_char d lt =
    is_value_sound (digit_value (digit_char d)) d
      (ground (arith, every_below_sound 16 _ d digit_table lt))

-- The text of a digit and what follows is not changed by what is skipped in front of a number.
not_blank :
    (d : ℕ) → d < 16 → (digit_char d == b' ' || digit_char d == 9 || digit_char d == 10) ≡ false
not_blank d lt = ground (arith, every_below_sound 16 _ d digit_table lt)

not_plus : (d : ℕ) → d < 16 → (digit_char d == b'+') ≡ false
not_plus d lt = ground (arith, every_below_sound 16 _ d digit_table lt)

not_x : (d : ℕ) → d < 16 → is_x (digit_char d) ≡ false
not_x d lt = ground (arith, every_below_sound 16 _ d digit_table lt)

zero_char : b'0' ≡ digit_char 0
unfolding digit_char
zero_char = refl

module _ (base : ℕ) (two : 2 ≤ base) (sixteen : base ≤ 16) where
  remainder-lt : (v : ℕ) → v % base < base
  remainder-lt v = mod-lt v (omega (arith, two))

  quotient-lt : (v n : ℕ) → v < 2 ^ suc n → v / base < 2 ^ n
  quotient-lt v n h =
      (div-lt_iff_lt-mul {k = base} {x = v} {y = 2 ^ n} (omega (arith, two))).1
        (omega (arith, h, pow-suc 2 n, mul-le-mul_left (2 ^ n) two))

  strtoull_loop-digit :
      (d r : ℕ) (str : List ℕ)
      → d < base
      → strtoull_loop (digit_char d ∷ str) base r ≡ strtoull_loop str base ((r * base + d) % 2 ^ 64)
  unfolding strtoull_loop
  strtoull_loop-digit d r str lt =
      let below : leb base d ≡ false = ground (arith, lt) in
      rw (strtoull_loop, digit_value-digit_char d (omega (arith, lt, sixteen)), below) refl

  -- With a place for each bit there are enough places; the digits are digits, and to read them is to
  -- read what was there with the value read already.
  digit_loop-read :
      (room v : ℕ) (tmp x : List ℕ)
      → v < 2 ^ room
      → v < 2 ^ 64
      → IsDigits tmp
      → (out : List ℕ) × (digit_loop room v base tmp ≡ some out)
        × IsDigits out
        × (strtoull_loop (out ++ x) base 0 ≡ strtoull_loop (tmp ++ x) base v)
  unfolding digit_loop
  digit_loop-read zero v tmp x h small digits =
      let z : v ≡ 0 = omega (arith, h) in rw z (tmp, refl, digits, refl)
  digit_loop-read (suc room) v tmp x h small digits = elim (Bool-cases (v == 0)) [
    | inl e ↦ let z : v ≡ 0 = ground (arith, e) in rw z (tmp, refl, digits, refl)
    | inr e ↦
        let value : (v / base * base + v % base) % 2 ^ 64 ≡ v =
          omega (arith, div_any v base, small) in
        let (out, same, digits', read) =
          digit_loop-read room (v / base) (digit_char (v % base) ∷ tmp) x (quotient-lt v room h)
            (omega (arith, div-le_self v base, small))
            ((v % base, omega (arith, remainder-lt v, sixteen), refl), digits) in
        rw e (
          out,
          same,
          digits',
          read
              ∙ strtoull_loop-digit (v % base) (v / base) (tmp ++ x) (remainder-lt v)
              ∙ ap (strtoull_loop (tmp ++ x) base) value,
        )
  ]

  strtoull_loop-end : (v : ℕ) (x : List ℕ) → strtoull_loop (0 ∷ x) base v ≡ some (v, 0 ∷ x)
  unfolding strtoull_loop digit_value
  strtoull_loop-end v x = refl

  base-ne : (base == 0) ≡ false
  base-ne = ground (arith, two)

  no_prefix :
      (c d : ℕ) (str : List ℕ)
      → is_x d ≡ false
      → skip_prefix (c ∷ d ∷ str) base ≡ (base, c ∷ d ∷ str)
  no_prefix c d str e =
      let no : (base == 16 && c == b'0' && is_x d) ≡ false = ground (arith, e) in
      rw (base-ne, no) refl

  skip_nothing :
      (out x : List ℕ)
      → IsDigits out
      → skip_prefix (skip_plus (skip_blanks (out ++ 0 ∷ x))) base ≡ (base, out ++ 0 ∷ x)
  unfolding skip_blanks
  skip_nothing [] [] digits = rw base-ne refl
  skip_nothing [] (c ∷ x) digits =
      let no : (base == 16 && false && is_x c) ≡ false = ground arith in rw (base-ne, no) refl
  skip_nothing (c ∷ []) x ((d, lt, e), digits) =
      rw (e, skip_blanks, not_blank d lt, not_plus d lt) (no_prefix (digit_char d) 0 x refl)
  skip_nothing (c ∷ b ∷ out) x ((d, lt, e), ((d', lt', e'), digits)) =
      rw (e, e', skip_blanks, not_blank d lt, not_plus d lt)
        (no_prefix (digit_char d) (digit_char d') (out ++ 0 ∷ x) (not_x d' lt'))

  -- `utoa` fits its buffer for every 64-bit number in a base from 2 to 16, and `strtoull` in that base
  -- reads back the number and stops at the terminator.
  pub strtoull-utoa :
      (v : ℕ) (x : List ℕ)
      → v < 2 ^ 64
      → (text : List ℕ) × (utoa v base ≡ some (text ++ 0 ∷ []))
        × (strtoull (text ++ 0 ∷ x) base ≡ some (v, 0 ∷ x))
  unfolding utoa strtoull
  strtoull-utoa v x h = elim (Bool-cases (v == 0)) [
    | inl e ↦
        let z : v ≡ 0 = ground (arith, e) in
        let value : (0 * base + 0) % 2 ^ 64 ≡ 0 = omega arith in
        let skip = skip_nothing (b'0' ∷ []) x ((0, omega arith, zero_char), tt) in
        rw z (
          b'0' ∷ [],
          refl,
          rw (skip, zero_char)
              (strtoull_loop-digit 0 0 (0 ∷ x) (omega (arith, two))
                ∙ ap (strtoull_loop (0 ∷ x) base) value
                ∙ strtoull_loop-end 0 x),
        )
    | inr e ↦
        let (out, same, digits, read) = digit_loop-read 64 v [] (0 ∷ x) h h tt in
        rw (e, same) (out, refl, rw (skip_nothing out x digits) (read ∙ strtoull_loop-end v x))
  ]
