-- ===== src/Vfs/Path.antt =====
-- The reading of paths in src/fs/vfs.c: the drive, and one component after the other.
use cobj_os.Prelude.{
  ℕ, zero, suc, ◌+◌, ◌-◌, ◌*◌, ◌^◌, ◌≤◌, ◌<◌, ◌≡◌, ◌≢◌, refl, ap, ◌∙◌, ◌⊎◌, inl, inr, true, false,
  ◌||◌, List, [], ◌∷◌, ◌++◌, arith, ltb, ◌==◌, Bool-cases, length, sym, append_nil, append_assoc,
}
use cobj_os.Vfs.{
  no_colon, colon_at, refused, parsed, find_colon, drive_loop, parse_path, no_component, component,
  skip_slashes, component_loop, next_component, start_component, is_digit,
}
use cobj_os.Text.Strings.{IsString, terminated}

-- What is left of a terminated path is a terminated path.
abbrev Suffix : List ℕ → List ℕ → List ℕ → Type 0
Suffix s x p = (s' : List ℕ) × (p ≡ terminated s' x) × IsString s' × (length s' ≤ length s)

abbrev NoSlash : List ℕ → Type 0
NoSlash [] = Unit {0}
NoSlash (c ∷ s) = (c == b'/') ≡ false

skip_slashes-Suffix :
    (s x : List ℕ)
    → IsString s
    → (s' : List ℕ) × (skip_slashes (terminated s x) ≡ terminated s' x)
      × IsString s'
      × (length s' ≤ length s)
      × NoSlash s'
unfolding skip_slashes
skip_slashes-Suffix [] x str = ([], refl, tt, omega arith, tt)
skip_slashes-Suffix (c ∷ s) x (nonzero, str) = elim (Bool-cases (c == b'/')) [
  | inr e ↦ rw e (c ∷ s, refl, (nonzero, str), omega arith, e)
  | inl e ↦
      let (s', same, str', shorter, no_slash) = skip_slashes-Suffix s x str in
      rw e (s', same, str', omega (arith, shorter), no_slash)
]

component_loop-Suffix :
    (room : ℕ) (s x out : List ℕ)
    → IsString s
    → (name : List ℕ) × (p : List ℕ) × (component_loop room (terminated s x) out ≡ component name p)
      × Suffix s x p
unfolding component_loop
component_loop-Suffix zero [] x out str = (out, terminated [] x, refl, ([], refl, tt, omega arith))
component_loop-Suffix (suc room) [] x out str =
    (out, terminated [] x, refl, ([], refl, tt, omega arith))
component_loop-Suffix zero (c ∷ s) x out str =
    (out, terminated (c ∷ s) x, refl, (c ∷ s, refl, str, omega arith))
component_loop-Suffix (suc room) (c ∷ s) x out (nonzero, str) =
    elim (Bool-cases (c == 0 || c == b'/')) [
      | inl e ↦ rw e (out, terminated (c ∷ s) x, refl, (c ∷ s, refl, (nonzero, str), omega arith))
      | inr e ↦
          let (name, p, same, (s', same', str', shorter)) =
            component_loop-Suffix room s x (out ++ c ∷ []) str in
          rw e (name, p, same, (s', same', str', omega (arith, shorter)))
    ]

first_taken :
    (c : ℕ) (s x : List ℕ)
    → c ≢ 0
    → (c == b'/') ≡ false
    → start_component (c ∷ terminated s x) ≡ component_loop 254 (terminated s x) (c ∷ [])
unfolding component_loop
first_taken c s x nonzero no_slash =
    let e : (c == 0) ≡ false = ground (arith, nonzero) in rw (e, no_slash) refl

-- A terminated path has no component left, or it has one and what is left of it is shorter.
pub next_component-cases :
    (s x : List ℕ)
    → IsString s
    → (next_component (terminated s x) ≡ no_component)
      ⊎ ((name : List ℕ) × (s' : List ℕ) × (next_component (terminated s x)
            ≡ component name (terminated s' x))
          × IsString s'
          × (length s' < length s))
unfolding next_component
next_component-cases s x str =
    let (s', same, str', shorter, no_slash) = skip_slashes-Suffix s x str in
    from_start s' same str' shorter no_slash
  where
    from_start :
        (s' : List ℕ)
        → skip_slashes (terminated s x) ≡ terminated s' x
        → IsString s'
        → length s' ≤ length s
        → NoSlash s'
        → (start_component (skip_slashes (terminated s x)) ≡ no_component)
          ⊎ ((name : List ℕ) × (rest : List ℕ) × (start_component (skip_slashes (terminated s x))
                ≡ component name (terminated rest x))
              × IsString rest
              × (length rest < length s))
    from_start [] same str' shorter no_slash = inl (ap start_component same)
    from_start (c ∷ s') same (nonzero, str') shorter no_slash =
        let (name, p, taken, (rest, left, str'', less)) =
          component_loop-Suffix 254 s' x (c ∷ []) str' in
        inr (
          name,
          rest,
          ap start_component same
              ∙ first_taken c s' x nonzero no_slash
              ∙ taken
              ∙ ap (component name) left,
          str'',
          omega (arith, shorter, less),
        )

find_colon-cases :
    (s x before : List ℕ)
    → IsString s
    → (find_colon (terminated s x) before ≡ no_colon)
      ⊎ ((b : List ℕ) × (p : List ℕ) × (find_colon (terminated s x) before
            ≡ colon_at (before ++ b) (terminated p x))
          × IsString p
          × (s ≡ b ++ (b':' ∷ p)))
unfolding find_colon
find_colon-cases [] x before str = inl refl
find_colon-cases (c ∷ s) x before (nonzero, str) =
    let e : (c == 0) ≡ false = ground (arith, nonzero) in
    elim (Bool-cases (c == b':')) [
      | inl colon ↦
          let here : c ≡ b':' = ground (arith, colon) in
          let same : before ≡ before ++ [] = sym (append_nil before) in
          rw colon (
            inr (
              [],
              s,
              ap (λ (l : List ℕ). colon_at l (terminated s x)) same,
              str,
              ap (λ (d : ℕ). d ∷ s) here,
            ))
      | inr other ↦ elim (find_colon-cases s x (before ++ c ∷ []) str) [
        | inl gone ↦ rw (other, e) (inl gone)
        | inr (b, p, found, str', parts) ↦
            rw (other, e)
              (inr (
                c ∷ b,
                p,
                found
                    ∙ ap (λ (l : List ℕ). colon_at l (terminated p x))
                        (append_assoc before (c ∷ []) b),
                str',
                ap (◌∷◌ c) parts,
              ))
      ]
    ]

-- The digits that stand first, behind those of which `d` is the value, make a number that is no `int`.
abbrev pub TooLarge : List ℕ → ℕ → Type 0
TooLarge [] d = ⊥
TooLarge (c ∷ before) d =
    (is_digit c ≡ true) × ((2 ^ 31 ≤ d * 10 + (c - b'0')) ⊎ TooLarge before (d * 10 + (c - b'0')))

drive_loop-cases :
    (before rel : List ℕ) (d : ℕ)
    → TooLarge before d
      ⊎ ((drive_loop before d rel ≡ refused) ⊎ ((n : ℕ) × (drive_loop before d rel ≡ parsed n rel)))
unfolding drive_loop
drive_loop-cases [] rel d = inr (inr (d, refl))
drive_loop-cases (c ∷ before) rel d =
    let value = d * 10 + (c - b'0') in
    elim (Bool-cases (is_digit c)) [
      | inr e ↦ rw e (inr (inl refl))
      | inl e ↦ elim (Bool-cases (ltb value (2 ^ 31))) [
        | inr large ↦ inl (e, inl (ground (arith, large)))
        | inl small ↦ elim (drive_loop-cases before rel value) [
          | inl large ↦ inl (e, inr large)
          | inr rest ↦ rw (e, small) (inr rest)
        ]
      ]
    ]

-- The number of the drive in front of the colon of a path is too large for an `int`.
abbrev pub NumberOverflows : List ℕ → Type 0
NumberOverflows s =
    (before : List ℕ) × (rest : List ℕ) × (s ≡ before ++ (b':' ∷ rest)) × TooLarge before 0

-- A terminated path is refused, or it gives a drive and a terminated path on it, or its number is too
-- large for an `int`.
pub parse_path-cases :
    (s x : List ℕ)
    → IsString s
    → NumberOverflows s
      ⊎ ((parse_path (terminated s x) ≡ refused)
          ⊎ ((n : ℕ) × (p : List ℕ) × (parse_path (terminated s x) ≡ parsed n (terminated p x))
              × IsString p))
unfolding parse_path
parse_path-cases s x str = elim (find_colon-cases s x [] str) [
  | inl e ↦ inr (inl (rw (e, parse_path) refl))
  | inr (b, p, e, str', parts) ↦ elim (drive_loop-cases b (terminated p x) 0) [
    | inl u ↦ inl (b, p, parts, u)
    | inr (inl r) ↦ inr (inl (rw (e, parse_path) r))
    | inr (inr (n, q)) ↦ inr (inr (n, p, rw (e, parse_path) q, str'))
  ]
]
