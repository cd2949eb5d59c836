-- ===== src/Text/Strings.antt =====
-- The string functions of src/misc/util.c on terminated strings.
use cobj_os.Prelude.{
  ℕ, zero, suc, ◌+◌, ◌≤◌, ◌≡◌, ◌≢◌, ◌↔◌, refl, sym, ap, ◌∙◌, inl, inr, false, some, List, [], ◌∷◌,
  ◌++◌, arith, ◌==◌, if◌then◌else◌, ==_refl, Bool-cases, length, take, drop, replicate,
}
use cobj_os.Prelude.Ints.{ℤ, pos, minus}
use cobj_os.Text.{strlen, strlen_loop, strcmp, strncmp, strncpy, zero_fill}

-- The characters of a string: none of them is NUL.
abbrev pub IsString : List ℕ → Type 0
IsString [] = Unit {0}
IsString (c ∷ s) = (c ≢ 0) × IsString s

-- A string in memory, before the bytes `x`.
abbrev pub terminated : List ℕ → List ℕ → List ℕ
terminated s x = s ++ 0 ∷ x

strlen_loop-length :
    (s x : List ℕ) (n : ℕ) → IsString s → strlen_loop (terminated s x) n ≡ some (n + length s)
unfolding strlen_loop
strlen_loop-length [] x n str = ap some (omega arith)
strlen_loop-length (c ∷ s) x n (nonzero, str) =
    let e : (c == 0) ≡ false = ground (arith, nonzero) in
    rw (e, strlen_loop-length s x (n + 1) str) (ap some (omega arith))

strlen-length : (s x : List ℕ) → IsString s → strlen (terminated s x) ≡ some (length s)
unfolding strlen
strlen-length s x str = strlen_loop-length s x 0 str ∙ ap some (omega arith)

-- Alphabetical order by byte, a string before its extensions: the sign that a comparison must have.
pub lexicographic : List ℕ → List ℕ → ℤ
lexicographic [] [] = pos 0
lexicographic [] (b ∷ t) = minus 0 b
lexicographic (a ∷ s) [] = pos a
lexicographic (a ∷ s) (b ∷ t) = if a == b then lexicographic s t else minus a b

minus_zero : (a : ℕ) → minus a 0 ≡ pos a
minus_zero a = ground arith

minus_self : (a : ℕ) → minus a a ≡ pos 0
minus_self a = ground arith

minus-ne : (a b : ℕ) → a ≢ b → minus a b ≢ pos 0
minus-ne a b apart = ground (arith, apart)

pub strcmp-lexicographic :
    (s t x y : List ℕ)
    → IsString s
    → IsString t
    → strcmp (terminated s x) (terminated t y) ≡ some (lexicographic s t)
unfolding strcmp lexicographic
strcmp-lexicographic [] [] x y str str' = refl
strcmp-lexicographic [] (b ∷ t) x y str str' = refl
strcmp-lexicographic (a ∷ s) [] x y (nonzero, str) str' =
    let e : (a == 0) ≡ false = ground (arith, nonzero) in rw e (ap some (minus_zero a))
strcmp-lexicographic (a ∷ s) (b ∷ t) x y (nonzero, str) (nonzero', str') =
    let e : (a == 0) ≡ false = ground (arith, nonzero) in
    elim (Bool-cases (a == b)) [
      | inl same ↦ rw (e, same) (strcmp-lexicographic s t x y str str')
      | inr apart ↦ rw (e, apart) refl
    ]

lexicographic_self : (s : List ℕ) → lexicographic s s ≡ pos 0
unfolding lexicographic
lexicographic_self [] = refl
lexicographic_self (a ∷ s) = rw (==_refl a) (lexicographic_self s)

lexicographic_zero : (s t : List ℕ) → IsString s → IsString t → lexicographic s t ≡ pos 0 → s ≡ t
unfolding lexicographic
lexicographic_zero [] [] str str' z = refl
lexicographic_zero [] (b ∷ t) str (nonzero, str') z = absurd (minus-ne 0 b (λ e. nonzero (sym e)) z)
lexicographic_zero (a ∷ s) [] (nonzero, str) str' z = absurd (nonzero cc)
lexicographic_zero (a ∷ s) (b ∷ t) (nonzero, str) (nonzero', str') z = elim (Bool-cases (a == b)) [
  | inl e ↦
      let head : a ≡ b = ground (arith, e) in
      let tail = lexicographic_zero s t str str' (rw e at z) in rw (head, tail) refl
  | inr e ↦ absurd (minus-ne a b (ground (arith, e)) (rw e at z))
]

pub lexicographic-zero_iff :
    (s t : List ℕ) → IsString s → IsString t → (lexicographic s t ≡ pos 0) ↔ (s ≡ t)
lexicographic-zero_iff s t str str' =
    (lexicographic_zero s t str str', λ e. rw e (lexicographic_self t))

-- `strcmp` answers, with the difference at the first place where the strings differ, and with 0 exactly
-- for equal strings.
pub strcmp_equal :
    (s t x y : List ℕ)
    → IsString s
    → IsString t
    → (r : ℤ) × (strcmp (terminated s x) (terminated t y) ≡ some r)
      × (r ≡ lexicographic s t)
      × ((r ≡ pos 0) ↔ (s ≡ t))
strcmp_equal s t x y str str' = (
  lexicographic s t,
  strcmp-lexicographic s t x y str str',
  refl,
  lexicographic-zero_iff s t str str',
)

-- The first `n` characters.
strncmp-lexicographic :
    (s t x y : List ℕ) (n : ℕ)
    → IsString s
    → IsString t
    → strncmp (terminated s x) (terminated t y) n ≡ some (lexicographic (take n s) (take n t))
unfolding strncmp lexicographic
strncmp-lexicographic s t x y zero str str' = refl
strncmp-lexicographic [] [] x y (suc n) str str' = ground arith
strncmp-lexicographic [] (b ∷ t) x y (suc n) str str' = ground arith
strncmp-lexicographic (a ∷ s) [] x y (suc n) (nonzero, str) str' =
    let e : (a == 0) ≡ false = ground (arith, nonzero) in
    elim (Bool-cases (n == 0)) [
      | inl last ↦ rw (e, last) (ap some (minus_zero a))
      | inr more ↦ rw (e, more) (ap some (minus_zero a))
    ]
strncmp-lexicographic (a ∷ s) (b ∷ t) x y (suc zero) (nonzero, str) (nonzero', str') =
    elim (Bool-cases (a == b)) [
      | inl same ↦ let e : a ≡ b = ground (arith, same) in rw (same, e) (ap some (minus_self b))
      | inr apart ↦ rw apart refl
    ]
strncmp-lexicographic (a ∷ s) (b ∷ t) x y (suc (suc n)) (nonzero, str) (nonzero', str') =
    let e : (a == 0) ≡ false = ground (arith, nonzero) in
    let more : (suc n == 0) ≡ false = ground arith in
    elim (Bool-cases (a == b)) [
      | inl same ↦ rw (more, e, same) (strncmp-lexicographic s t x y (suc n) str str')
      | inr apart ↦ rw (more, e, apart) refl
    ]

-- `strncpy` of a string into room for `n` bytes: the string cut at `n` characters, then NULs up to `n`
-- bytes; the bytes behind are kept. Without room in the string's length there is no final NUL.
zero_fill-replicate :
    (n : ℕ) (dst : List ℕ) → n ≤ length dst → zero_fill n dst ≡ some (replicate n 0 ++ drop n dst)
unfolding zero_fill
zero_fill-replicate zero dst h = refl
zero_fill-replicate (suc n) [] h = absurd (omega arith)
zero_fill-replicate (suc n) (d ∷ dst) h = rw (zero_fill-replicate n dst (omega arith)) refl

abbrev pub padded : List ℕ → ℕ → List ℕ
padded s zero = []
padded [] (suc n) = 0 ∷ padded [] n
padded (c ∷ s) (suc n) = c ∷ padded s n

padded-replicate : (n : ℕ) → padded [] n ≡ replicate n 0
padded-replicate zero = refl
padded-replicate (suc n) = ap (◌∷◌ 0) (padded-replicate n)

pub strncpy-padded :
    (dst s x : List ℕ) (n : ℕ)
    → IsString s
    → n ≤ length dst
    → strncpy dst (terminated s x) n ≡ some (padded s n ++ drop n dst)
unfolding strncpy
strncpy-padded dst s x zero str h = refl
strncpy-padded [] [] x (suc n) str h = absurd (omega arith)
strncpy-padded [] (c ∷ s) x (suc n) str h = absurd (omega arith)
strncpy-padded (d ∷ dst) [] x (suc n) str h =
    zero_fill-replicate (suc n) (d ∷ dst) h
    ∙ ap (λ p. some (p ++ drop n dst)) (sym (padded-replicate (suc n)))
strncpy-padded (d ∷ dst) (c ∷ s) x (suc n) (nonzero, str) h =
    let e : (c == 0) ≡ false = ground (arith, nonzero) in
    rw (e, strncpy-padded dst s x n str (omega arith)) refl
