-- ===== src/Printf/Examples.antt =====
-- Runs of the formatting of src/misc/printf.c.
use cobj_os.Prelude.{ℕ, ◌≡◌, refl, none, some, List, [], ◌∷◌}
use cobj_os.Prelude.Ints.{pos, negsuc}
use cobj_os.Text.{utoa, digit_loop, digit_char}
use cobj_os.Printf.{
  Arg, int_arg, uint_arg, put, put_all, flags_loop, number_loop, read_number, read_precision,
  read_spec, padded, to_precision, text_loop, digits_of, signed_text, argument_text, directive,
  format_loop, vsnprintf,
}

-- "%-5d|%03u"
abbrev fmt : List ℕ
fmt = b'%' ∷ b'-' ∷ b'5' ∷ b'd' ∷ b'|' ∷ b'%' ∷ b'0' ∷ b'3' ∷ b'u' ∷ 0 ∷ []

abbrev args : List Arg
args = int_arg (negsuc 41) ∷ uint_arg 7 ∷ []

abbrev expected : List ℕ
expected = b'-' ∷ b'4' ∷ b'2' ∷ b' ' ∷ b' ' ∷ b'|' ∷ b'0' ∷ b'0' ∷ b'7' ∷ []

-- With room, and in a buffer of five bytes.
vsnprintf_runs :
    (vsnprintf 64 fmt args ≡ some (expected, pos 9))
    × (vsnprintf 5 fmt args ≡ some (b'-' ∷ b'4' ∷ b'2' ∷ b' ' ∷ [], pos 4))
unfolding vsnprintf format_loop directive read_spec flags_loop read_number number_loop
    read_precision argument_text signed_text digits_of to_precision text_loop padded put put_all
    utoa digit_loop digit_char
vsnprintf_runs = (refl, refl)

-- A precision of 32 is one byte too many for the buffer of the digits.
precision_overflow :
    vsnprintf 64 (b'%' ∷ b'.' ∷ b'3' ∷ b'2' ∷ b'd' ∷ 0 ∷ []) (int_arg (pos 1) ∷ []) ≡ none
unfolding vsnprintf format_loop directive read_spec flags_loop read_number number_loop
    read_precision argument_text signed_text digits_of to_precision text_loop padded put put_all
    utoa digit_loop digit_char
precision_overflow = refl
