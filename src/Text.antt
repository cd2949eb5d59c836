-- ===== src/Text.antt =====
-- src/misc/util.c and the functions that user/lib/util.c has besides (it repeats the others).
-- A pointer to text is the list of the bytes from it to the end of its object. `none` stands for
-- undefined behaviour: an access past the object, or the overflow of an `int`.
pub mod Strings
pub mod Numbers
mod Examples
use cobj_os.Prelude.{
  ℕ, zero, suc, ◌+◌, ◌-◌, ◌*◌, ◌/◌, ◌%◌, ◌^◌, Bool, true, false, not, ◌&&◌, ◌||◌, Option, none,
  some, List, [], ◌∷◌, ◌++◌, ltb, leb, ◌==◌, if◌then◌else◌, get_or, length,
}
use cobj_os.Prelude.Ints.{ℤ, pos, negsuc, minus}

unfoldable pub strlen_loop : List ℕ → ℕ → Option ℕ
strlen_loop [] len = none
strlen_loop (c ∷ str) len =
    let rest = strlen_loop str (len + 1) in if c == 0 then some len else rest

unfoldable pub strlen : List ℕ → Option ℕ
strlen str = strlen_loop str 0

-- `left` is `maxlen - len`.
unfoldable pub strnlen_loop : ℕ → List ℕ → ℕ → Option ℕ
strnlen_loop zero str len = some len
strnlen_loop (suc left) [] len = none
strnlen_loop (suc left) (c ∷ str) len =
    let rest = strnlen_loop left str (len + 1) in if c == 0 then some len else rest

unfoldable pub strnlen : List ℕ → ℕ → Option ℕ
strnlen str maxlen = strnlen_loop maxlen str 0

-- The object at `dst` after the call, here and in `strncpy`.
unfoldable pub strcpy : List ℕ → List ℕ → Option (List ℕ)
strcpy [] src = none
strcpy (d ∷ dst) [] = none
strcpy (d ∷ dst) (c ∷ src) =
    let rest = strcpy dst src in
    if c == 0 then some (0 ∷ dst) else elim rest [ none ↦ none | some out ↦ some (c ∷ out) ]

-- `while (n-- > 0) *p++ = '\0';`
unfoldable pub zero_fill : ℕ → List ℕ → Option (List ℕ)
zero_fill zero dst = some dst
zero_fill (suc n) [] = none
zero_fill (suc n) (d ∷ dst) = elim (zero_fill n dst) [ none ↦ none | some out ↦ some (0 ∷ out) ]

unfoldable pub strncpy : List ℕ → List ℕ → ℕ → Option (List ℕ)
strncpy dst src zero = some dst
strncpy dst [] (suc n) = none
strncpy [] (c ∷ src) (suc n) = none
strncpy (d ∷ dst) (c ∷ src) (suc n) =
    let rest = strncpy dst src n in
    if c == 0
    then zero_fill (suc n) (d ∷ dst)
    else elim rest [ none ↦ none | some out ↦ some (c ∷ out) ]

unfoldable pub strcmp : List ℕ → List ℕ → Option ℤ
strcmp [] t = none
strcmp (a ∷ s) [] = none
strcmp (a ∷ s) (b ∷ t) =
    let rest = strcmp s t in if not (a == 0) && a == b then rest else some (minus a b)

unfoldable pub strncmp : List ℕ → List ℕ → ℕ → Option ℤ
strncmp s t zero = some (pos 0)
strncmp [] t (suc n) = none
strncmp (a ∷ s) [] (suc n) = none
strncmp (a ∷ s) (b ∷ t) (suc n) =
    let rest = strncmp s t n in
    if not (n == 0) && not (a == 0) && a == b then rest else some (minus a b)

-- The index of the answer, or `some none` for NULL, here and in `strrchr`.
unfoldable pub strchr_loop : List ℕ → ℕ → ℕ → Option (Option ℕ)
strchr_loop [] ch i = none
strchr_loop (a ∷ s) ch i =
    let rest = strchr_loop s ch (i + 1) in
    if a == ch then some (some i) else if a == 0 then some none else rest

unfoldable pub strchr : List ℕ → ℕ → Option (Option ℕ)
strchr s c = strchr_loop s (c % 2 ^ 8) 0

unfoldable pub strrchr_loop : List ℕ → ℕ → ℕ → Option ℕ → Option (Option ℕ)
strrchr_loop [] ch i last = none
strrchr_loop (a ∷ s) ch i last =
    let last' = if a == ch then some i else last in
    let rest = strrchr_loop s ch (i + 1) last' in if a == 0 then some last' else rest

unfoldable pub strrchr : List ℕ → ℕ → Option (Option ℕ)
strrchr s c = strrchr_loop s (c % 2 ^ 8) 0 none

-- `digits`, with its final NUL.
abbrev pub digits : List ℕ
digits =
    b'0' ∷ b'1' ∷ b'2' ∷ b'3' ∷ b'4' ∷ b'5' ∷ b'6' ∷ b'7' ∷ b'8' ∷ b'9' ∷ b'a' ∷ b'b' ∷ b'c' ∷ b'd'
    ∷ b'e' ∷ b'f' ∷ 0 ∷ []

unfoldable pub digit_char : ℕ → ℕ
digit_char d = get_or digits d 0

-- The digits in `tmp`, last one written first; `room` is what is left of `tmp`.
unfoldable pub digit_loop : ℕ → ℕ → ℕ → List ℕ → Option (List ℕ)
unfolding digit_char
digit_loop zero value base tmp = if value == 0 then some tmp else none
digit_loop (suc room) value base tmp =
    let rest = digit_loop room (value / base) base (digit_char (value % base) ∷ tmp) in
    if value == 0 then some tmp else rest

-- What is written to `buf`, here and in `itoa`; the base is from 2 to 16.
unfoldable pub utoa : ℕ → ℕ → Option (List ℕ)
utoa value base =
    if value == 0
    then some (b'0' ∷ 0 ∷ [])
    else elim (digit_loop 64 value base []) [ none ↦ none | some tmp ↦ some (tmp ++ 0 ∷ []) ]

-- The most negative `int` has no negation. A negative value in another base has no digit.
unfoldable pub itoa : ℤ → ℕ → Option (List ℕ)
itoa (pos value) base =
    if value == 0
    then some (b'0' ∷ 0 ∷ [])
    else elim (digit_loop 32 value base []) [ none ↦ none | some tmp ↦ some (tmp ++ 0 ∷ []) ]
itoa (negsuc n) base =
    if base == 10
    then (if leb (2 ^ 31) (n + 1) then none else elim (digit_loop 31 (n + 1) base []) [
      | none ↦ none
      | some tmp ↦ some (b'-' ∷ tmp ++ 0 ∷ [])
    ])
    else some (0 ∷ [])

abbrev pub is_decimal : ℕ → Bool
is_decimal c = leb b'0' c && leb c b'9'

unfoldable pub atoi_loop : List ℕ → ℕ → Option ℕ
atoi_loop [] result = none
atoi_loop (c ∷ s) result =
    let value = result * 10 + (c - b'0') in
    let rest = atoi_loop s value in
    if is_decimal c then (if ltb value (2 ^ 31) then rest else none) else some result

abbrev pub negated : ℕ → ℤ
negated zero = pos 0
negated (suc n) = negsuc n

unfoldable pub atoi : List ℕ → Option ℤ
atoi [] = none
atoi (c ∷ s) =
    if c == b'-'
    then elim (atoi_loop s 0) [ none ↦ none | some result ↦ some (negated result) ]
    else elim (atoi_loop (c ∷ s) 0) [ none ↦ none | some result ↦ some (pos result) ]

unfoldable pub isdigit_loop : List ℕ → Option Bool
isdigit_loop [] = none
isdigit_loop (c ∷ s) =
    let rest = isdigit_loop s in
    if c == 0 then some true else if is_decimal c then rest else some false

unfoldable pub isdigit : List ℕ → Option Bool
isdigit [] = none
isdigit (c ∷ s) = if c == 0 then some false else isdigit_loop (c ∷ s)

unfoldable pub skip_blanks : List ℕ → List ℕ
skip_blanks [] = []
skip_blanks (c ∷ str) =
    let rest = skip_blanks str in if c == b' ' || c == 9 || c == 10 then rest else c ∷ str

abbrev pub skip_plus : List ℕ → List ℕ
skip_plus [] = []
skip_plus (c ∷ str) = if c == b'+' then str else c ∷ str

abbrev pub is_x : ℕ → Bool
is_x c = c == b'x' || c == b'X'

-- The base that is used and the text after the prefix.
abbrev pub skip_prefix : List ℕ → ℕ → ℕ × List ℕ
skip_prefix (c ∷ d ∷ str) base =
    if base == 0
    then (if c == b'0' then (if is_x d then (16, str) else (8, d ∷ str)) else (10, c ∷ d ∷ str))
    else if base == 16 && c == b'0' && is_x d
    then (16, str)
    else (base, c ∷ d ∷ str)
skip_prefix str base = (if base == 0 then 10 else base, str)

unfoldable pub digit_value : ℕ → Option ℕ
digit_value c =
    if leb b'0' c && leb c b'9'
    then some (c - b'0')
    else if leb b'a' c && leb c b'f'
    then some (c - b'a' + 10)
    else if leb b'A' c && leb c b'F'
    then some (c - b'A' + 10)
    else none

-- The number and the text that `endptr` is set to.
unfoldable pub strtoull_loop : List ℕ → ℕ → ℕ → Option (ℕ × List ℕ)
strtoull_loop [] base result = none
strtoull_loop (c ∷ str) base result = elim (digit_value c) [
  | none ↦ some (result, c ∷ str)
  | some digit ↦
      let rest = strtoull_loop str base ((result * base + digit) % 2 ^ 64) in
      if leb base digit then some (result, c ∷ str) else rest
]

unfoldable pub strtoull : List ℕ → ℕ → Option (ℕ × List ℕ)
strtoull str base =
    let (used, text) = skip_prefix (skip_plus (skip_blanks str)) base in strtoull_loop text used 0
