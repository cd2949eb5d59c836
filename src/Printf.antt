-- ===== src/Printf.antt =====
-- src/misc/printf.c, and user/lib/printf.c, which has the same `vsnprintf`.
-- A format is the list of its bytes with its terminator; an argument is a value of the type that it was passed
-- with. `none` is undefined behaviour: a read past the format or an argument, an argument of another type, an
-- `int` that overflows, or a number of more than the 32 bytes of its buffer.
pub mod Rest
pub mod Cut
mod Examples
use cobj_os.Prelude.{
  ℕ, zero, suc, ◌+◌, ◌-◌, ◌*◌, ◌%◌, ◌^◌, Bool, true, false, not, ◌&&◌, ◌||◌, Option, none, some,
  List, [], ◌∷◌, ◌++◌, ltb, leb, ◌==◌, if◌then◌else◌, length, take, replicate,
}
use cobj_os.Prelude.Ints.{ℤ, pos, negsuc, to_int}
use cobj_os.Text.{utoa}

-- `text none` is NULL.
pub data Arg : Type 0 where
  int_arg : ℤ → Arg
  uint_arg long_arg pointer_arg : ℕ → Arg
  text_arg : Option (List ℕ) → Arg

-- `PUT(c)`, with `buf` the bytes that are written, one after the other.
unfoldable pub put : ℕ → ℕ → List ℕ → List ℕ
put size c buf = if ltb (length buf) ((size + 2 ^ 64 - 1) % 2 ^ 64) then buf ++ c ∷ [] else buf

unfoldable pub put_all : ℕ → List ℕ → List ℕ → List ℕ
put_all size [] buf = buf
put_all size (c ∷ text) buf = put_all size text (put size c buf)

pub record Flags : Type 0 where
  pub left_align : Bool
  pub zero_pad : Bool

-- What a directive asks for, and what is left of the format and of the arguments.
pub record Spec : Type 0 where
  pub flags : Flags
  pub width : ℤ
  pub precision : ℤ
  pub is_long : Bool
  pub fmt : List ℕ
  pub args : List Arg

-- `while (*fmt == '-' || *fmt == '0')`
unfoldable pub flags_loop : List ℕ → Flags → Flags × List ℕ
flags_loop [] f = (f, [])
flags_loop (c ∷ fmt) f =
    let left = flags_loop fmt (record f { left_align = true }) in
    let zero_ = flags_loop fmt (record f { zero_pad = true }) in
    if c == b'-' then left else if c == b'0' then zero_ else (f, c ∷ fmt)

unfoldable pub number_loop : List ℕ → ℕ → Option (ℕ × List ℕ)
number_loop [] n = none
number_loop (c ∷ fmt) n =
    let value = n * 10 + (c - b'0') in
    let rest = number_loop fmt value in
    if leb b'0' c && leb c b'9'
    then (if ltb value (2 ^ 31) then rest else none)
    else some (n, c ∷ fmt)

pub data Number : Type 0 where
  undefined : Number
  number : ℤ → List ℕ → List Arg → Number

abbrev pub int_of : List ℕ → List Arg → Number
int_of fmt (int_arg n ∷ args) = number n fmt args
int_of fmt _ = undefined

abbrev pub written : List Arg → Option (ℕ × List ℕ) → Number
written args none = undefined
written args (some (n, fmt)) = number (pos n) fmt args

-- A width or a precision: `*` takes it from the arguments.
unfoldable pub read_number : List ℕ → List Arg → Number
read_number [] args = undefined
read_number (c ∷ fmt) args =
    if c == b'*' then int_of fmt args else written args (number_loop (c ∷ fmt) 0)

abbrev pub no_precision : ℤ
no_precision = negsuc 0

-- The precision behind a point, if there is a point.
unfoldable pub read_precision : List ℕ → List Arg → Number
read_precision [] args = undefined
read_precision (c ∷ fmt) args =
    let there = read_number fmt args in
    if c == b'.' then there else number no_precision (c ∷ fmt) args

abbrev pub skip_long : List ℕ → Bool × List ℕ
skip_long [] = (false, [])
skip_long (c ∷ fmt) = if c == b'l' then (true, fmt) else (false, c ∷ fmt)

abbrev pub with_precision : Flags → ℤ → Number → Option Spec
with_precision f width undefined = none
with_precision f width (number precision fmt args) =
    let (is_long, rest) = skip_long fmt in
    some (record {
      flags = record f { zero_pad = f.zero_pad && not f.left_align };
      width = width;
      precision = precision;
      is_long = is_long;
      fmt = rest;
      args = args;
    })

abbrev pub with_width : Flags → Number → Option Spec
with_width f undefined = none
with_width f (number width fmt args) = with_precision f width (read_precision fmt args)

-- Everything between the `%` and the letter.
unfoldable pub read_spec : List ℕ → List Arg → Option Spec
read_spec fmt args =
    let (f, rest) = flags_loop fmt (record { left_align = false; zero_pad = false }) in
    with_width f (read_number rest args)

-- `width - len`, as far as it is positive.
abbrev pub padding : ℤ → ℕ → ℕ
padding (pos width) len = width - len
padding (negsuc n) len = 0

-- `PAD_AND_PUT(tmp, len)`
unfoldable pub padded : Spec → List ℕ → List ℕ
padded s tmp =
    let pad = padding s.width (length tmp) in
    if s.flags.left_align
    then tmp ++ replicate pad b' '
    else replicate pad (if s.flags.zero_pad then b'0' else b' ') ++ tmp

-- Zeros in front of the digits up to the precision, in a buffer of 32 bytes that has `before` bytes in front
-- of the digits and a terminator behind them.
unfoldable pub to_precision : ℤ → ℕ → List ℕ → Option (List ℕ)
to_precision (negsuc n) before digits = some digits
to_precision (pos precision) before digits =
    if leb precision (length digits)
    then some digits
    else if leb (before + precision + 1) 32
    then some (replicate (precision - length digits) b'0' ++ digits)
    else none

-- The text up to its terminator, or up to the precision.
unfoldable pub text_loop : List ℕ → Option (List ℕ)
text_loop [] = none
text_loop (c ∷ s) =
    let rest = text_loop s in
    if c == 0 then some [] else elim rest [ none ↦ none | some text ↦ some (c ∷ text) ]

abbrev cut : ℤ → List ℕ → List ℕ
cut (pos precision) text = take precision text
cut (negsuc n) text = text

abbrev null_text : List ℕ
null_text = b'(' ∷ b'n' ∷ b'u' ∷ b'l' ∷ b'l' ∷ b')' ∷ 0 ∷ []

abbrev text_or_null : Option (List ℕ) → List ℕ
text_or_null none = null_text
text_or_null (some s) = s

unfoldable pub digits_of : ℕ → ℕ → Option (List ℕ)
digits_of base n = elim (utoa n base) [ none ↦ none | some tmp ↦ text_loop tmp ]

abbrev then_text : (List ℕ → Option (List ℕ)) → Option (List ℕ) → Option (List ℕ)
then_text f none = none
then_text f (some text) = f text

abbrev minus_sign : Option (List ℕ) → Option (List ℕ)
minus_sign none = none
minus_sign (some digits) = some (b'-' ∷ digits)

-- `-val` overflows for the least `int`.
unfoldable pub signed_text : ℤ → ℤ → Option (List ℕ)
signed_text precision (pos n) = then_text (to_precision precision 0) (digits_of 10 n)
signed_text precision (negsuc n) =
    let text = minus_sign (then_text (to_precision precision 1) (digits_of 10 (n + 1))) in
    if ltb (n + 1) (2 ^ 31) then text else none

abbrev unsigned_text : ℕ → Bool → ℤ → Arg → Option (List ℕ)
unsigned_text base true precision (long_arg n) =
    then_text (to_precision precision 0) (digits_of base n)
unsigned_text base false precision (uint_arg n) =
    then_text (to_precision precision 0) (digits_of base n)
unsigned_text base is_long precision _ = none

abbrev prefixed : Option (List ℕ) → Option (List ℕ)
prefixed none = none
prefixed (some digits) = some (b'0' ∷ b'x' ∷ digits)

-- The text of an argument for the letter of a directive, before it is padded.
unfoldable pub argument_text : ℕ → Spec → Arg → Option (List ℕ)
argument_text c s (int_arg (pos n)) =
    if c == b'c'
    then some ((n % 256) ∷ [])
    else if c == b'd'
    then signed_text s.precision (pos n)
    else none
argument_text c s (int_arg (negsuc n)) =
    if c == b'c'
    then some ((255 - n % 256) ∷ [])
    else if c == b'd'
    then signed_text s.precision (negsuc n)
    else none
argument_text c s (text_arg t) =
    if c == b's'
    then then_text (λ text. some (cut s.precision text)) (text_loop (text_or_null t))
    else none
argument_text c s (pointer_arg n) = if c == b'p' then prefixed (digits_of 16 n) else none
argument_text c s (uint_arg n) =
    if c == b'u'
    then unsigned_text 10 s.is_long s.precision (uint_arg n)
    else if c == b'x'
    then unsigned_text 16 s.is_long s.precision (uint_arg n)
    else none
argument_text c s (long_arg n) =
    if c == b'u'
    then unsigned_text 10 s.is_long s.precision (long_arg n)
    else if c == b'x'
    then unsigned_text 16 s.is_long s.precision (long_arg n)
    else none

abbrev pub takes_argument : ℕ → Bool
takes_argument c = c == b'c' || c == b's' || c == b'd' || c == b'u' || c == b'x' || c == b'p'

-- The bytes that a directive puts, and what is left; other letters put nothing.
pub record Put : Type 0 where
  pub text : List ℕ
  pub fmt : List ℕ
  pub args : List Arg

abbrev pub put_padded : Spec → List ℕ → List Arg → Option (List ℕ) → Option Put
put_padded s fmt args none = none
put_padded s fmt args (some text) = some (record { text = padded s text; fmt = fmt; args = args })

abbrev pub put_argument : ℕ → Spec → List ℕ → List Arg → Option Put
put_argument c s fmt [] = none
put_argument c s fmt (arg ∷ args) = put_padded s fmt args (argument_text c s arg)

abbrev pub put_letter : Spec → List ℕ → Option Put
put_letter s [] = none
put_letter s (c ∷ fmt) =
    if takes_argument c
    then put_argument c s fmt s.args
    else some (record { text = if c == b'%' then b'%' ∷ [] else []; fmt = fmt; args = s.args })

abbrev pub letter_of : Option Spec → Option Put
letter_of none = none
letter_of (some s) = put_letter s s.fmt

unfoldable pub directive : List ℕ → List Arg → Option Put
directive fmt args = letter_of (read_spec fmt args)

-- The loop of `vsnprintf`; a round takes a byte of the format, so that its length is fuel enough.
unfoldable pub format_loop : ℕ → ℕ → List ℕ → List Arg → List ℕ → Option (List ℕ)
format_loop zero size fmt args buf = none
format_loop (suc fuel) size [] args buf = none
format_loop (suc fuel) size (c ∷ fmt) args buf =
    let plain = format_loop fuel size fmt args (put size c buf) in
    let directed : Option (List ℕ) = elim (directive fmt args) [
      | none ↦ none
      | some d ↦ format_loop fuel size d.fmt d.args (put_all size d.text buf)
    ] in
    if c == 0 then some buf else if c == b'%' then directed else plain

-- The bytes before the terminator, which is written behind them; their number, as an `int`, is the result.
unfoldable pub vsnprintf : ℕ → List ℕ → List Arg → Option (List ℕ × ℤ)
vsnprintf size fmt args = elim (format_loop (length fmt) size fmt args []) [
  | none ↦ none
  | some buf ↦ some (buf, to_int (length buf))
]

unfoldable pub snprintf : ℕ → List ℕ → List Arg → Option (List ℕ × ℤ)
snprintf size fmt args = vsnprintf size fmt args

-- `serial_printf`, `serial_vprintf`, `fbcon_printf`, `fbcon_vprintf` and the text of `panic`, in a buffer of
-- 1024 bytes.
unfoldable pub printed : List ℕ → List Arg → Option (List ℕ × ℤ)
printed fmt args = vsnprintf 1024 fmt args
