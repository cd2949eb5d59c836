-- ===== src/Text/Examples.antt =====
-- The text functions of the two util.c on short strings, and their theorems there.
use cobj_os.Prelude.{ℕ, ◌≡◌, ◌↔◌, refl, some, List, [], ◌∷◌, ◌++◌, arith, drop}
use cobj_os.Prelude.Ints.{ℤ, pos, negsuc}
use cobj_os.Text.{
  strcmp, strncpy, utoa, itoa, atoi, atoi_loop, strtoull, strtoull_loop, skip_blanks, digit_value,
}
use cobj_os.Text.Strings.{IsString, terminated, lexicographic, strcmp_equal, strncpy-padded, padded}
use cobj_os.Text.Numbers.{strtoull-utoa}

abbrev bin : List ℕ
bin = b'b' ∷ b'i' ∷ b'n' ∷ []

bin-IsString : IsString bin
bin-IsString = (λ e. omega (arith, e), (λ e. omega (arith, e), (λ e. omega (arith, e), tt)))

abbrev bit : List ℕ
bit = b'b' ∷ b'i' ∷ b't' ∷ []

bit-IsString : IsString bit
bit-IsString = (λ e. omega (arith, e), (λ e. omega (arith, e), (λ e. omega (arith, e), tt)))

strtoull_runs : strtoull (b' ' ∷ b'0' ∷ b'x' ∷ b'1' ∷ b'F' ∷ b' ' ∷ []) 0 ≡ some (31, b' ' ∷ [])
unfolding strtoull strtoull_loop skip_blanks digit_value
strtoull_runs = refl

-- A negative number in base 16 comes out empty.
itoa_runs : itoa (negsuc 4) 16 ≡ some (0 ∷ [])
unfolding itoa
itoa_runs = refl

atoi_runs : atoi (b'-' ∷ b'4' ∷ b'2' ∷ 0 ∷ []) ≡ some (negsuc 41)
unfolding atoi atoi_loop
atoi_runs = refl

strcmp_equal_example :
    (r : ℤ) × (strcmp (terminated bin []) (terminated bit []) ≡ some r)
    × (r ≡ lexicographic bin bit)
    × ((r ≡ pos 0) ↔ (bin ≡ bit))
strcmp_equal_example = strcmp_equal bin bit [] [] bin-IsString bit-IsString

strncpy-padded_example :
    strncpy (1 ∷ 2 ∷ 3 ∷ 4 ∷ 5 ∷ 6 ∷ []) (terminated bin []) 5
    ≡ some (padded bin 5 ++ drop 5 (1 ∷ 2 ∷ 3 ∷ 4 ∷ 5 ∷ 6 ∷ []))
strncpy-padded_example =
    strncpy-padded (1 ∷ 2 ∷ 3 ∷ 4 ∷ 5 ∷ 6 ∷ []) bin [] 5 bin-IsString (omega arith)

strtoull-utoa_example :
    (text : List ℕ) × (utoa 48879 16 ≡ some (text ++ 0 ∷ []))
    × (strtoull (text ++ 0 ∷ []) 16 ≡ some (48879, 0 ∷ []))
strtoull-utoa_example = strtoull-utoa 16 (omega arith) (omega arith) 48879 [] (omega arith)
