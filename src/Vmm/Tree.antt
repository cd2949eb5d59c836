-- ===== src/Vmm/Tree.antt =====
-- Address spaces of src/mm/vmm.c as trees, and what is found in them.
use cobj_os.Prelude.{
  ℕ, ◌+◌, ◌*◌, ◌/◌, ◌%◌, ◌^◌, ◌≤◌, ◌<◌, bit_and, bit_or, ◌≡◌, ◌≢◌, refl, sym, ap, ◌∙◌, ◌⊎◌, inl,
  inr, true, false, ◌&&◌, Option, some, List, [], ◌∷◌, ◌++◌, length, append_assoc, append_nil,
  length-append, arith, ltb, leb, ◌==◌, if◌then◌else◌, Bool-cases,
}
use cobj_os.Prelude.Bits.{bit_and-low_mask, bit_and-high_mask, bit_or-low}
use cobj_os.Pmm.{is_used}
use cobj_os.Pmm.Page.{IsValid}
use cobj_os.Vmm.{Tables, entry_to_phys, is_present, put, clear, table_flags}

-- The last entry on the way through tables, or 0 where a table is absent.
unfoldable pub look : (ℕ → ℕ) → List ℕ → ℕ → ℕ → ℕ
look entries [] table last = entries (table + 8 * last)
look entries (i ∷ path) table last =
    let rest = look entries path (entry_to_phys (entries (table + 8 * i))) last in
    if is_present (entries (table + 8 * i)) then rest else 0

-- The way leads to a last table.
abbrev pub Reaches : (ℕ → ℕ) → List ℕ → ℕ → ℕ → Type 0
Reaches entries [] table leaf = table ≡ leaf
Reaches entries (i ∷ path) table leaf =
    (is_present (entries (table + 8 * i)) ≡ true)
    × Reaches entries path (entry_to_phys (entries (table + 8 * i))) leaf

abbrev pub Indices : List ℕ → Type 0
Indices [] = Unit {0}
Indices (i ∷ path) = (i < 512) × Indices path

-- `place` gives the indices by which each table is reached from the top.
pub record IsTree (top : ℕ) (place : ℕ → Option (List ℕ)) (m : Tables) : Type 0 where
  pub top_placed : place top ≡ some []
  pub aligned : (p : ℕ) (at : List ℕ) → place p ≡ some at → p % 4096 ≡ 0
  pub in_use :
      (p : ℕ) (at : List ℕ) → place p ≡ some at → is_used m.pmm.page_bitmap (p / 4096) ≡ true
  pub linked :
      (p i : ℕ) (at : List ℕ)
      → place p ≡ some at
      → length at < 3
      → i < 512
      → is_present (m.entries (p + 8 * i)) ≡ true
      → place (entry_to_phys (m.entries (p + 8 * i))) ≡ some (at ++ i ∷ [])
  pub valid : IsValid m.pmm
  pub addressable : m.pmm.page_count ≤ 2 ^ 52

pub some_inj {ℓ} : {A : Type ℓ} {a b : A} → some a ≡ some b → a ≡ b
some_inj e = cc

-- Slots of two pages, or two slots of a page, are not the same.
pub slot_ne :
    (p q i j : ℕ)
    → p % 4096 ≡ 0
    → q % 4096 ≡ 0
    → i < 512
    → j < 512
    → (p ≢ q) ⊎ (i ≢ j)
    → (q + 8 * j == p + 8 * i) ≡ false
slot_ne p q i j hp hq hi hj (inl ne) = elim (Bool-cases (q + 8 * j == p + 8 * i)) [
  | inl e ↦ absurd (ne (ground (arith, e)))
  | inr e ↦ e
]
slot_ne p q i j hp hq hi hj (inr ne) = elim (Bool-cases (q + 8 * j == p + 8 * i)) [
  | inl e ↦ absurd (ne (ground (arith, e)))
  | inr e ↦ e
]

pub put_self : (a v : ℕ) (entries : ℕ → ℕ) → put a v entries a ≡ v
unfolding put
put_self a v entries = ground arith

pub put_ne : (a v b : ℕ) (entries : ℕ → ℕ) → (b == a) ≡ false → put a v entries b ≡ entries b
unfolding put
put_ne a v b entries h = rw h refl

pub clear_inside : (page i : ℕ) (entries : ℕ → ℕ) → i < 512 → clear page entries (page + 8 * i) ≡ 0
unfolding clear
clear_inside page i entries h = ground arith

pub clear_outside :
    (page p i : ℕ) (entries : ℕ → ℕ)
    → page % 4096 ≡ 0
    → p % 4096 ≡ 0
    → p ≢ page
    → i < 512
    → clear page entries (p + 8 * i) ≡ entries (p + 8 * i)
unfolding clear
clear_outside page p i entries hp hq ne h =
    elim (Bool-cases (leb page (p + 8 * i) && ltb (p + 8 * i) (page + 4096))) [
      | inl e ↦ absurd (ne (ground (arith, e)))
      | inr e ↦ rw e refl
    ]

-- What an entry says of the table that it leads to.
pub is_present-table : (phys : ℕ) → phys % 4096 ≡ 0 → is_present (bit_or phys table_flags) ≡ true
unfolding is_present
is_present-table phys h =
    let e : bit_or (phys / 4096 * 2 ^ 12) 7 ≡ phys / 4096 * 2 ^ 12 + 7 =
      bit_or-low 12 (phys / 4096) 7 (omega arith) in
    let whole : phys / 4096 * 2 ^ 12 ≡ phys = omega arith in
    let e' : bit_or phys 7 ≡ phys + 7 = rw whole at (e) in
    let low : bit_and (phys + 7) 1 ≡ (phys + 7) % 2 ^ 1 = bit_and-low_mask 1 (phys + 7) in
    rw e' (ground (arith, low))

pub entry_to_phys_lem : (entry : ℕ) → entry < 2 ^ 64 → entry_to_phys entry ≡ entry / 4096 * 4096
unfolding entry_to_phys
entry_to_phys_lem entry h = omega (arith, bit_and-high_mask 52 12 entry)

pub entry_to_phys-table :
    (phys : ℕ) → phys % 4096 ≡ 0 → phys < 2 ^ 64 → entry_to_phys (bit_or phys table_flags) ≡ phys
entry_to_phys-table phys h small =
    let e : bit_or (phys / 4096 * 2 ^ 12) 7 ≡ phys / 4096 * 2 ^ 12 + 7 =
      bit_or-low 12 (phys / 4096) 7 (omega arith) in
    let whole : phys / 4096 * 2 ^ 12 ≡ phys = omega arith in
    let e' : bit_or phys 7 ≡ phys + 7 = rw whole at (e) in
    rw e' (omega (arith, entry_to_phys_lem (phys + 7) (omega arith)))

pub absent-zero : is_present 0 ≡ false
unfolding is_present
absent-zero = refl

-- Nothing is found below a table of zeros.
pub look-empty :
    (entries : ℕ → ℕ) (path : List ℕ) (table last : ℕ)
    → ((i : ℕ) → i < 512 → entries (table + 8 * i) ≡ 0)
    → Indices path
    → last < 512
    → look entries path table last ≡ 0
unfolding look
look-empty entries [] table last zeros idx h = zeros last h
look-empty entries (i ∷ path) table last zeros (hi, idx) h =
    let absent : is_present (entries (table + 8 * i)) ≡ false =
      ap is_present (zeros i hi) ∙ absent-zero in
    rw absent refl

pub look-Reaches :
    (entries : ℕ → ℕ) (path : List ℕ) (table leaf last : ℕ)
    → Reaches entries path table leaf
    → look entries path table last ≡ entries (leaf + 8 * last)
unfolding look
look-Reaches entries [] table leaf last r = rw r refl
look-Reaches entries (i ∷ path) table leaf last (here, r) =
    rw here (look-Reaches entries path _ leaf last r)

module _ (top : ℕ) (place : ℕ → Option (List ℕ)) (m : Tables) (tree : IsTree top place m)
    (leaf last v : ℕ) (leaf_at : List ℕ) (placed : place leaf ≡ some leaf_at)
    (deep : length leaf_at ≡ 3) (small : last < 512) where
  -- A table above the last level is not the one that is written to.
  above_kept :
      (p i : ℕ) (at : List ℕ)
      → place p ≡ some at
      → length at < 3
      → i < 512
      → put (leaf + 8 * last) v m.entries (p + 8 * i) ≡ m.entries (p + 8 * i)
  above_kept p i at e short hi =
      let ne : p ≢ leaf = λ same.
        let both : some at ≡ some leaf_at = sym e ∙ ap place same ∙ placed in
        let lengths : length at ≡ length leaf_at = ap length (some_inj both) in omega arith in
      put_ne (leaf + 8 * last) v (p + 8 * i) m.entries (
        slot_ne leaf p last i (tree.aligned leaf leaf_at placed) (tree.aligned p at e) small hi
          (inl (λ s. ne (sym s))))

  -- A write to a last table is seen by one way alone.
  pub look-put_ne :
      (path at : List ℕ) (table w : ℕ)
      → place table ≡ some at
      → length at + length path ≡ 3
      → Indices path
      → w < 512
      → (at ++ path ≢ leaf_at) ⊎ (w ≢ last)
      → look (put (leaf + 8 * last) v m.entries) path table w ≡ look m.entries path table w
  unfolding look
  look-put_ne [] at table w e len idx hw ne =
      let apart : (leaf ≢ table) ⊎ (last ≢ w) = elim ne [
        | inl other ↦ inl (λ same.
            other (append_nil at ∙ some_inj {A = List ℕ} (sym e ∙ ap place (sym same) ∙ placed)))
        | inr other ↦ inr (λ same. other (sym same))
      ] in
      put_ne (leaf + 8 * last) v (table + 8 * w) m.entries (
        slot_ne leaf table last w (tree.aligned leaf leaf_at placed) (tree.aligned table at e) small
          hw apart)
  look-put_ne (i ∷ path) at table w e len (hi, idx) hw ne =
      let kept = above_kept table i at e (omega arith) hi in
      elim (Bool-cases (is_present (m.entries (table + 8 * i)))) [
        | inr absent ↦ rw (kept, absent) refl
        | inl here ↦
            let next : length (at ++ i ∷ []) + length path ≡ 3 =
              omega (arith, length-append at (i ∷ [])) in
            let apart : ((at ++ i ∷ []) ++ path ≢ leaf_at) ⊎ (w ≢ last) = elim ne [
              | inl other ↦ inl (λ same. other (sym (append_assoc at (i ∷ []) path) ∙ same))
              | inr other ↦ inr other
            ] in
            rw (kept, here)
              (look-put_ne path (at ++ i ∷ []) _ w (tree.linked table i at e (omega arith) hi here)
                next idx hw apart)
      ]

  pub Reaches-put :
      (path at : List ℕ) (table : ℕ)
      → place table ≡ some at
      → length at + length path ≡ 3
      → Indices path
      → Reaches m.entries path table leaf
      → Reaches (put (leaf + 8 * last) v m.entries) path table leaf
  Reaches-put [] at table e len idx r = r
  Reaches-put (i ∷ path) at table e len (hi, idx) (here, r) =
      let kept = above_kept table i at e (omega arith) hi in
      let next : length (at ++ i ∷ []) + length path ≡ 3 =
        omega (arith, length-append at (i ∷ [])) in
      let deeper =
        Reaches-put path (at ++ i ∷ []) _ (tree.linked table i at e (omega arith) hi here) next idx
          r in
      rw kept (here, deeper)

  pub put-IsTree : IsTree top place (record m { entries = put (leaf + 8 * last) v m.entries })
  put-IsTree = record {
    top_placed = tree.top_placed;
    aligned = tree.aligned;
    in_use = tree.in_use;
    linked = λ p i at e short hi here.
        let kept = above_kept p i at e short hi in
        rw kept (tree.linked p i at e short hi (rw kept at (here)));
    valid = tree.valid;
    addressable = tree.addressable;
  }
