-- ===== src/Printf/Cut.antt =====
-- `vsnprintf` of src/misc/printf.c against the whole text of a format: the buffer holds as much of it as fits.
use cobj_os.Prelude.{
  ℕ, zero, suc, ◌+◌, ◌-◌, ◌^◌, ◌≤◌, ◌<◌, ◌≡◌, Option, none, some, List, [], ◌∷◌, ◌++◌, ◌==◌,
  if◌then◌else◌, length, take,
}
use cobj_os.Prelude.Ints.{ℤ, pos, to_int}
use cobj_os.Printf.{Arg, directive}

-- The whole text, without a buffer.
pub whole : ℕ → List ℕ → List Arg → Option (List ℕ)
whole zero fmt args = none
whole (suc fuel) [] args = none
whole (suc fuel) (c ∷ fmt) args =
    let plain : Option (List ℕ) = elim (whole fuel fmt args) [
      | none ↦ none
      | some text ↦ some (c ∷ text)
    ] in
    let directed : Option (List ℕ) = elim (directive fmt args) [
      | none ↦ none
      | some d ↦ elim (whole fuel d.fmt d.args) [ none ↦ none | some text ↦ some (d.text ++ text) ]
    ] in
    if c == 0 then some [] else if c == b'%' then directed else plain

unfoldable pub whole_text : List ℕ → List Arg → Option (List ℕ)
whole_text fmt args = whole (length fmt) fmt args

module _ (size : ℕ) (positive : 1 ≤ size) (wide : size < 2 ^ 64) where
  abbrev cut_behind : List ℕ → Option (List ℕ) → Option (List ℕ)
  cut_behind xs none = none
  cut_behind xs (some text) = some (take (size - 1) (xs ++ text))

-- The result for a text that may not fit.
abbrev pub cut_to : ℕ → Option (List ℕ) → Option (List ℕ × ℤ)
cut_to size none = none
cut_to size (some text) = some (take (size - 1) text, to_int (length (take (size - 1) text)))

-- The result and the bytes that it counts.
abbrev pub Counted : ℕ → List ℕ → ℤ → Type 0
Counted size buf n =
    (n ≡ to_int (length buf)) × (length buf + 1 ≤ size) × (size ≤ 2 ^ 31 → n ≡ pos (length buf))
