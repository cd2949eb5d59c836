-- ===== src/Devfs/Register.antt =====
-- Registering devices in src/fs/dev_vfs.c, and finding them again.
use cobj_os.Prelude.{
  ℕ, zero, suc, ◌-◌, ◌≤◌, ◌<◌, ◌≡◌, ◌≢◌, refl, sym, ap, ◌∙◌, inl, inr, true, false, not, Option,
  none, some, List, [], ◌∷◌, ◌++◌, arith, leb, Bool-cases, Option-cases, length, set, replicate,
}
use cobj_os.Prelude.Ints.{is_zero, is_zero_sound, is_zero_complete}
use cobj_os.Text.{strcmp}
use cobj_os.Text.Strings.{
  IsString, terminated, padded, strncpy-padded, lexicographic, strcmp-lexicographic,
  lexicographic-zero_iff,
}
use cobj_os.Devfs.{DevfsEntry, DeviceNode, devfs_lookup, devfs_register}

nothing_padded : (n d : ℕ) → set (padded [] n ++ d ∷ []) n 0 ≡ terminated [] (replicate n 0)
nothing_padded zero d = refl
nothing_padded (suc n) d = ap (◌∷◌ 0) (nothing_padded n d)

-- The array that `strncpy` and the final NUL make of a name that fits is the name, terminated.
padded-terminated :
    (s : List ℕ) (n d : ℕ)
    → length s ≤ n
    → set (padded s n ++ d ∷ []) n 0 ≡ terminated s (replicate (n - length s) 0)
padded-terminated [] zero d h = refl
padded-terminated [] (suc n) d h =
    let e : suc n - 0 ≡ suc n = omega arith in rw e (nothing_padded (suc n) d)
padded-terminated (c ∷ s) zero d h = absurd (omega arith)
padded-terminated (c ∷ s) (suc n) d h =
    let e : suc n - suc (length s) ≡ n - length s = omega arith in
    rw e (ap (◌∷◌ c) (padded-terminated s n d (omega arith)))

-- The entry that a registration adds.
abbrev pub entry_of : List ℕ → ℕ → ℕ → DevfsEntry
entry_of s ops info = record {
  name = terminated s (replicate (31 - length s) 0);
  ops = ops;
  info = info;
  present = true;
}

devfs_register-entry :
    (s x : List ℕ) (ops info : ℕ) (entries : List DevfsEntry)
    → IsString s
    → length s ≤ 31
    → length entries < 32
    → devfs_register (terminated s x) ops info entries ≡ some (entries ++ entry_of s ops info ∷ [])
unfolding devfs_register
devfs_register-entry s x ops info entries str fits room =
    let e : leb 32 (length entries) ≡ false = ground (arith, room) in
    let copy = strncpy-padded (replicate 32 0) s x 31 str (omega arith) in
    rw (e, copy, padded-terminated s 31 0 fits) refl

-- A file that is found is found with more entries behind.
devfs_lookup-found :
    (t : List ℕ) (entries : List DevfsEntry) (e : DevfsEntry) (node : DeviceNode)
    → devfs_lookup t entries ≡ some (some node)
    → devfs_lookup t (entries ++ e ∷ []) ≡ some (some node)
unfolding devfs_lookup
devfs_lookup-found t [] e node h = cc
devfs_lookup-found t (f ∷ entries) e node h = elim (Bool-cases (not f.present)) [
  | inl away ↦ rw away (devfs_lookup-found t entries e node (rw away at h))
  | inr here ↦ elim (Option-cases (strcmp f.name t)) [
    | inl past ↦
        let no_answer : ◌≡◌ {A = Option (Option DeviceNode)} none (some (some node)) =
          rw (here, past) at h in
        cc
    | inr (r, compared) ↦ elim (Bool-cases (is_zero r)) [
      | inl same ↦ rw (here, compared, same) (rw (here, compared, same) at h)
      | inr other ↦
          rw (here, compared, other)
            (devfs_lookup-found t entries e node (rw (here, compared, other) at h))
    ]
  ]
]

-- Where no entry has the name, the new one is looked at.
devfs_lookup-new :
    (t : List ℕ) (entries : List DevfsEntry) (e : DevfsEntry)
    → devfs_lookup t entries ≡ some none
    → devfs_lookup t (entries ++ e ∷ []) ≡ devfs_lookup t (e ∷ [])
unfolding devfs_lookup
devfs_lookup-new t [] e h = refl
devfs_lookup-new t (f ∷ entries) e h = elim (Bool-cases (not f.present)) [
  | inl away ↦ rw away (devfs_lookup-new t entries e (rw away at h))
  | inr here ↦ elim (Option-cases (strcmp f.name t)) [
    | inl past ↦
        let no_answer : ◌≡◌ {A = Option (Option DeviceNode)} none (some none) =
          rw (here, past) at h in
        cc
    | inr (r, compared) ↦ elim (Bool-cases (is_zero r)) [
      | inl same ↦
          let found : ◌≡◌ {A = Option (Option DeviceNode)}
              (some (some (record { ops = f.ops; info = f.info; refcount = 1 }))) (some none) =
            rw (here, compared, same) at h in
          cc
      | inr other ↦
          rw (here, compared, other)
            (devfs_lookup-new t entries e (rw (here, compared, other) at h))
    ]
  ]
]

entry_of-same :
    (s y : List ℕ) (ops info : ℕ)
    → IsString s
    → devfs_lookup (terminated s y) (entry_of s ops info ∷ [])
      ≡ some (some (record { ops = ops; info = info; refcount = 1 }))
unfolding devfs_lookup
entry_of-same s y ops info str =
    let z = is_zero_complete (lexicographic s s) ((lexicographic-zero_iff s s str str).1 refl) in
    rw (strcmp-lexicographic s s (replicate (31 - length s) 0) y str str, z) refl

entry_of-other :
    (s t y : List ℕ) (ops info : ℕ)
    → IsString s
    → IsString t
    → t ≢ s
    → devfs_lookup (terminated t y) (entry_of s ops info ∷ []) ≡ some none
unfolding devfs_lookup
entry_of-other s t y ops info str str' apart =
    rw (strcmp-lexicographic s t (replicate (31 - length s) 0) y str str')
      (elim (Bool-cases (is_zero (lexicographic s t))) [
        | inr nz ↦ rw nz refl
        | inl z ↦ absurd (
            apart
              (sym ((lexicographic-zero_iff s t str str').0 (is_zero_sound (lexicographic s t) z))))
      ])

-- A device that is registered with a name of at most 31 characters, while there is room and no other has
-- the name, is what a lookup of the name finds; what lookups of other names answer does not change.
pub devfs_lookup-register :
    (s x y : List ℕ) (ops info : ℕ) (entries : List DevfsEntry)
    → IsString s
    → length s ≤ 31
    → length entries < 32
    → devfs_lookup (terminated s y) entries ≡ some none
    → (entries' : List DevfsEntry) × (devfs_register (terminated s x) ops info entries
        ≡ some entries')
      × (devfs_lookup (terminated s y) entries'
          ≡ some (some (record { ops = ops; info = info; refcount = 1 })))
      × ((t z : List ℕ) (r : Option DeviceNode)
          → IsString t
          → t ≢ s
          → devfs_lookup (terminated t z) entries ≡ some r
          → devfs_lookup (terminated t z) entries' ≡ some r)
devfs_lookup-register s x y ops info entries str fits room absent = (
  entries ++ entry_of s ops info ∷ [],
  devfs_register-entry s x ops info entries str fits room,
  devfs_lookup-new (terminated s y) entries (entry_of s ops info) absent
      ∙ entry_of-same s y ops info str,
  others,
)
  where
    others :
        (t z : List ℕ) (r : Option DeviceNode)
        → IsString t
        → t ≢ s
        → devfs_lookup (terminated t z) entries ≡ some r
        → devfs_lookup (terminated t z) (entries ++ entry_of s ops info ∷ []) ≡ some r
    others t z none str' apart h =
        devfs_lookup-new (terminated t z) entries (entry_of s ops info) h
        ∙ entry_of-other s t z ops info str str' apart
    others t z (some node) str' apart h =
        devfs_lookup-found (terminated t z) entries (entry_of s ops info) node h
