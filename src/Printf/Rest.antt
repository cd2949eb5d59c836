-- ===== src/Printf/Rest.antt =====
-- What a directive of src/misc/printf.c leaves of the format: no more than there was.
use cobj_os.Prelude.{
  ℕ, suc, ◌+◌, ◌-◌, ◌*◌, ◌^◌, ◌≤◌, inl, inr, true, false, Option, none, some, List, [], ◌∷◌, ◌&&◌,
  arith, ltb, leb, ◌==◌, length, Bool-cases, Option-cases,
}
use cobj_os.Prelude.Ints.{ℤ}
use cobj_os.Printf.{
  Arg, int_arg, uint_arg, long_arg, pointer_arg, text_arg, Flags, flags_loop, Number, undefined,
  number, number_loop, int_of, written, read_number, read_precision, skip_long, Spec,
  with_precision, with_width, read_spec, Put, put_argument, put_letter, letter_of, argument_text,
  takes_argument, directive,
}

-- What is left is at most `n` bytes long.
abbrev Digits : ℕ → Option (ℕ × List ℕ) → Type 0
Digits n none = Unit {0}
Digits n (some (v, fmt)) = length fmt ≤ n

abbrev NumberIn : ℕ → Number → Type 0
NumberIn n undefined = Unit {0}
NumberIn n (number v fmt args) = length fmt ≤ n

abbrev SpecIn : ℕ → Option Spec → Type 0
SpecIn n none = Unit {0}
SpecIn n (some s) = length s.fmt ≤ n

abbrev pub PutIn : ℕ → Option Put → Type 0
PutIn n none = Unit {0}
PutIn n (some p) = length p.fmt ≤ n

flags_loop-length : (fmt : List ℕ) (f : Flags) → length (flags_loop fmt f).1 ≤ length fmt
unfolding flags_loop
flags_loop-length [] f = omega arith
flags_loop-length (c ∷ fmt) f =
    let left = flags_loop-length fmt (record f { left_align = true }) in
    let zeros = flags_loop-length fmt (record f { zero_pad = true }) in
    elim (Bool-cases (c == b'-')) [
      | inl e ↦ rw e (omega (arith, left))
      | inr e ↦ elim (Bool-cases (c == b'0')) [
        | inl e' ↦ rw (e, e') (omega (arith, zeros))
        | inr e' ↦ rw (e, e') (omega arith)
      ]
    ]

Digits-less : (n m : ℕ) (r : Option (ℕ × List ℕ)) → n ≤ m → Digits n r → Digits m r
Digits-less n m none le h = tt
Digits-less n m (some (v, fmt)) le h = omega (arith, le, h)

number_loop-Digits : (fmt : List ℕ) (n : ℕ) → Digits (length fmt) (number_loop fmt n)
unfolding number_loop
number_loop-Digits [] n = tt
number_loop-Digits (c ∷ fmt) n =
    let value = n * 10 + (c - b'0') in
    let rest =
      Digits-less (length fmt) (suc (length fmt)) (number_loop fmt value) (omega arith)
        (number_loop-Digits fmt value) in
    elim (Bool-cases (leb b'0' c && leb c b'9')) [
      | inl e ↦ elim (Bool-cases (ltb value (2 ^ 31))) [
        | inl e' ↦ rw (e, e') rest
        | inr e' ↦ rw (e, e') tt
      ]
      | inr e ↦ rw e (omega arith)
    ]

int_of-Number :
    (fmt : List ℕ) (args : List Arg) (n : ℕ) → length fmt ≤ n → NumberIn n (int_of fmt args)
int_of-Number fmt [] n le = tt
int_of-Number fmt (int_arg v ∷ args) n le = le
int_of-Number fmt (uint_arg v ∷ args) n le = tt
int_of-Number fmt (long_arg v ∷ args) n le = tt
int_of-Number fmt (pointer_arg v ∷ args) n le = tt
int_of-Number fmt (text_arg v ∷ args) n le = tt

written-Number :
    (args : List Arg) (n : ℕ) (r : Option (ℕ × List ℕ)) → Digits n r → NumberIn n (written args r)
written-Number args n none h = tt
written-Number args n (some (v, fmt)) h = h

read_number-Number : (fmt : List ℕ) (args : List Arg) → NumberIn (length fmt) (read_number fmt args)
unfolding read_number
read_number-Number [] args = tt
read_number-Number (c ∷ fmt) args = elim (Bool-cases (c == b'*')) [
  | inl e ↦ rw e (int_of-Number fmt args (suc (length fmt)) (omega arith))
  | inr e ↦ rw e (
      written-Number args (suc (length fmt)) (number_loop (c ∷ fmt) 0)
        (number_loop-Digits (c ∷ fmt) 0))
]

NumberIn-less : (n m : ℕ) (r : Number) → n ≤ m → NumberIn n r → NumberIn m r
NumberIn-less n m undefined le h = tt
NumberIn-less n m (number v fmt args) le h = omega (arith, le, h)

read_precision-Number :
    (fmt : List ℕ) (args : List Arg) → NumberIn (length fmt) (read_precision fmt args)
unfolding read_precision
read_precision-Number [] args = tt
read_precision-Number (c ∷ fmt) args = elim (Bool-cases (c == b'.')) [
  | inl e ↦ rw e (
      NumberIn-less (length fmt) (suc (length fmt)) (read_number fmt args) (omega arith)
        (read_number-Number fmt args))
  | inr e ↦ rw e (omega arith)
]

skip_long-length : (fmt : List ℕ) → length (skip_long fmt).1 ≤ length fmt
skip_long-length [] = omega arith
skip_long-length (c ∷ fmt) = elim (Bool-cases (c == b'l')) [
  | inl e ↦ rw e (omega arith)
  | inr e ↦ rw e (omega arith)
]

with_precision-SpecIn :
    (n : ℕ) (f : Flags) (width : ℤ) (r : Number)
    → NumberIn n r
    → SpecIn n (with_precision f width r)
with_precision-SpecIn n f width undefined h = tt
with_precision-SpecIn n f width (number v fmt args) h = omega (arith, h, skip_long-length fmt)

with_width-SpecIn : (n : ℕ) (f : Flags) (r : Number) → NumberIn n r → SpecIn n (with_width f r)
with_width-SpecIn n f undefined h = tt
with_width-SpecIn n f (number v fmt args) h =
    with_precision-SpecIn n f v (read_precision fmt args)
      (NumberIn-less (length fmt) n (read_precision fmt args) h (read_precision-Number fmt args))

read_spec-SpecIn : (fmt : List ℕ) (args : List Arg) → SpecIn (length fmt) (read_spec fmt args)
unfolding read_spec
read_spec-SpecIn fmt args =
    let start : Flags = record { left_align = false; zero_pad = false } in
    let rest = (flags_loop fmt start).1 in
    with_width-SpecIn (length fmt) (flags_loop fmt start).0 (read_number rest args) (
      NumberIn-less (length rest) (length fmt) (read_number rest args) (flags_loop-length fmt start)
        (read_number-Number rest args))

put_argument-PutIn :
    (n c : ℕ) (s : Spec) (fmt : List ℕ) (args : List Arg)
    → length fmt ≤ n
    → PutIn n (put_argument c s fmt args)
put_argument-PutIn n c s fmt [] h = tt
put_argument-PutIn n c s fmt (arg ∷ args) h = elim (Option-cases (argument_text c s arg)) [
  | inl e ↦ rw e tt
  | inr (text, e) ↦ rw e h
]

put_letter-PutIn : (n : ℕ) (s : Spec) (fmt : List ℕ) → length fmt ≤ n → PutIn n (put_letter s fmt)
put_letter-PutIn n s [] h = tt
put_letter-PutIn n s (c ∷ fmt) h = elim (Bool-cases (takes_argument c)) [
  | inl e ↦ rw e (put_argument-PutIn n c s fmt s.args (omega (arith, h)))
  | inr e ↦ rw e (omega (arith, h))
]

letter_of-PutIn : (n : ℕ) (r : Option Spec) → SpecIn n r → PutIn n (letter_of r)
letter_of-PutIn n none h = tt
letter_of-PutIn n (some s) h = put_letter-PutIn n s s.fmt h

-- A directive leaves no more of the format than it was given.
pub directive-PutIn : (fmt : List ℕ) (args : List Arg) → PutIn (length fmt) (directive fmt args)
unfolding directive
directive-PutIn fmt args =
    letter_of-PutIn (length fmt) (read_spec fmt args) (read_spec-SpecIn fmt args)
