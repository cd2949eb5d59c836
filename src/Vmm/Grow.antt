-- ===== src/Vmm/Grow.antt =====
-- A table that `vmm_get_pte` of src/mm/vmm.c adds to a tree: what it makes and what it leaves as it is.
use cobj_os.Prelude.{
  ℕ, ◌+◌, ◌*◌, ◌/◌, ◌%◌, ◌^◌, ◌<◌, bit_or, ◌≡◌, ◌≢◌, refl, sym, ap, ◌∙◌, ◌⊎◌, inl, inr, true, false,
  Option, some, List, [], ◌∷◌, ◌++◌, length, length-append, arith, ◌==◌, if◌then◌else◌, Bool-cases,
}
use cobj_os.Prelude.Outcome.{ok}
use cobj_os.Pmm.{Pmm, is_used, alloc_page}
use cobj_os.Pmm.Page.{Allocated, alloc_page_ok}
use cobj_os.Vmm.{Tables, entry_to_phys, is_present, put, clear, table_flags}
use cobj_os.Vmm.Tree.{
  look, Indices, IsTree, some_inj, slot_ne, put_self, put_ne, clear_inside, clear_outside,
  is_present-table, entry_to_phys-table, look-empty, absent-zero,
}

-- Tables were added, and nothing that was found before is found otherwise.
pub record Grown (place : ℕ → Option (List ℕ)) (m : Tables) (place' : ℕ → Option (List ℕ))
    (m' : Tables) : Type 0 where
  pub extends : (p : ℕ) (at : List ℕ) → place p ≡ some at → place' p ≡ some at
  pub kept :
      (p i : ℕ) (at : List ℕ)
      → place p ≡ some at
      → i < 512
      → is_present (m.entries (p + 8 * i)) ≡ true
      → m'.entries (p + 8 * i) ≡ m.entries (p + 8 * i)
  pub looks :
      (p last : ℕ) (at path : List ℕ)
      → place p ≡ some at
      → length at + length path ≡ 3
      → Indices path
      → last < 512
      → look m'.entries path p last ≡ look m.entries path p last

pub Grown-refl : (place : ℕ → Option (List ℕ)) (m : Tables) → Grown place m place m
Grown-refl place m = record {
  extends = λ p at e. e;
  kept = λ p i at e h here. refl;
  looks = λ p last at path e len idx h. refl;
}

pub Grown-trans :
    {place place' place'' : ℕ → Option (List ℕ)} {m m' m'' : Tables}
    → Grown place m place' m'
    → Grown place' m' place'' m''
    → Grown place m place'' m''
Grown-trans g h = record {
  extends = λ p at e. h.extends p at (g.extends p at e);
  kept = λ p i at e lt here.
      let same = g.kept p i at e lt here in
      h.kept p i at (g.extends p at e) lt (ap is_present same ∙ here) ∙ same;
  looks = λ p last at path e len idx lt.
      h.looks p last at path (g.extends p at e) len idx lt ∙ g.looks p last at path e len idx lt;
}

abbrev pub put_place : ℕ → List ℕ → (ℕ → Option (List ℕ)) → ℕ → Option (List ℕ)
put_place a v place = λ b. if b == a then some v else place b

module _ (top : ℕ) (place : ℕ → Option (List ℕ)) (m : Tables) (tree : IsTree top place m)
    (table i phys : ℕ) (q : Pmm) (at : List ℕ) (placed : place table ≡ some at)
    (short : length at < 3) (small : i < 512)
    (absent : is_present (m.entries (table + 8 * i)) ≡ false)
    (taken : alloc_page m.pmm ≡ ok (phys, q)) where
  unfoldable pub made : Tables
  made = record {
    entries = put (table + 8 * i) (bit_or phys table_flags) (clear phys m.entries);
    pmm = q;
  }

  got : Allocated m.pmm phys q
  got = alloc_page_ok m.pmm tree.valid taken

  not_placed : (p : ℕ) (at' : List ℕ) → place p ≡ some at' → p ≢ phys
  not_placed p at' e same =
      let used : is_used m.pmm.page_bitmap (phys / 4096) ≡ true =
        ap (λ (t : ℕ). is_used m.pmm.page_bitmap (t / 4096)) (sym same) ∙ tree.in_use p at' e in
      cc (used, got.was_free)

  placed_other : (p : ℕ) (at' : List ℕ) → place p ≡ some at' → (p == phys) ≡ false
  placed_other p at' e = elim (Bool-cases (p == phys)) [
    | inl same ↦ absurd (not_placed p at' e (ground (arith, same)))
    | inr ne ↦ ne
  ]

  unfoldable pub new_place : ℕ → Option (List ℕ)
  new_place = put_place phys (at ++ i ∷ []) place

  pub new_place-phys : new_place phys ≡ some (at ++ i ∷ [])
  unfolding new_place
  new_place-phys = let e : (phys == phys) ≡ true = ground arith in rw e refl

  new_place-old : (p : ℕ) (at' : List ℕ) → place p ≡ some at' → new_place p ≡ some at'
  unfolding new_place
  new_place-old p at' e = let ne = placed_other p at' e in rw ne e

  small_phys : phys < 2 ^ 64
  small_phys = omega (arith, got.inside, got.aligned, tree.addressable)

  made_self : made.entries (table + 8 * i) ≡ bit_or phys table_flags
  unfolding made
  made_self = put_self (table + 8 * i) (bit_or phys table_flags) (clear phys m.entries)

  made_other :
      (p j : ℕ) (at' : List ℕ)
      → place p ≡ some at'
      → j < 512
      → (table ≢ p) ⊎ (i ≢ j)
      → made.entries (p + 8 * j) ≡ m.entries (p + 8 * j)
  unfolding made
  made_other p j at' e hj ne =
      put_ne (table + 8 * i) (bit_or phys table_flags) (p + 8 * j) (clear phys m.entries)
        (slot_ne table p i j (tree.aligned table at placed) (tree.aligned p at' e) small hj ne)
      ∙ clear_outside phys p j m.entries got.aligned (tree.aligned p at' e) (not_placed p at' e) hj

  made_empty : (j : ℕ) → j < 512 → made.entries (phys + 8 * j) ≡ 0
  unfolding made
  made_empty j hj =
      put_ne (table + 8 * i) (bit_or phys table_flags) (phys + 8 * j) (clear phys m.entries) (
        slot_ne table phys i j (tree.aligned table at placed) got.aligned small hj
          (inl (not_placed table at placed)))
      ∙ clear_inside phys j m.entries hj

  pub made_leads : entry_to_phys (bit_or phys table_flags) ≡ phys
  made_leads = entry_to_phys-table phys got.aligned small_phys

  pub made_next : entry_to_phys (made.entries (table + 8 * i)) ≡ phys
  made_next = ap entry_to_phys made_self ∙ made_leads

  pub made_present : is_present (made.entries (table + 8 * i)) ≡ true
  made_present = ap is_present made_self ∙ is_present-table phys got.aligned

  -- The slots of placed tables, with the one that was filled apart.
  slot-cases : (p j : ℕ) → ((table ≡ p) × (i ≡ j)) ⊎ ((table ≢ p) ⊎ (i ≢ j))
  slot-cases p j = elim (Bool-cases (table == p)) [
    | inr ne ↦ inr (inl (ground (arith, ne)))
    | inl e ↦ elim (Bool-cases (i == j)) [
      | inr ne ↦ inr (inr (ground (arith, ne)))
      | inl e' ↦ inl (ground (arith, e), ground (arith, e'))
    ]
  ]

  made_looks :
      (path at' : List ℕ) (p last : ℕ)
      → place p ≡ some at'
      → length at' + length path ≡ 3
      → Indices path
      → last < 512
      → look made.entries path p last ≡ look m.entries path p last
  unfolding look
  made_looks [] at' p last e len idx h = made_other p last at' e h (
      inl (λ same.
        let both : some at ≡ some at' = sym placed ∙ ap place same ∙ e in
        let lengths : length at ≡ length at' = ap length (some_inj both) in omega arith))
  made_looks (j ∷ path) at' p last e len (hj, idx) h = elim (slot-cases p j) [
    | inl (same, same') ↦
        let here : is_present (made.entries (p + 8 * j)) ≡ true =
          rw (same, same') at (made_present) in
        let next : entry_to_phys (made.entries (p + 8 * j)) ≡ phys =
          rw (same, same') at (made_next) in
        let gone : is_present (m.entries (p + 8 * j)) ≡ false = rw (same, same') at (absent) in
        rw (here, next, gone) (look-empty made.entries path phys last made_empty idx h)
    | inr ne ↦
        let same = made_other p j at' e hj ne in
        elim (Bool-cases (is_present (m.entries (p + 8 * j)))) [
          | inr gone ↦ rw (same, gone) refl
          | inl here ↦
              let next : length (at' ++ j ∷ []) + length path ≡ 3 =
                omega (arith, length-append at' (j ∷ [])) in
              rw (same, here)
                (made_looks path (at' ++ j ∷ []) _ last
                  (tree.linked p j at' e (omega arith) hj here) next idx h)
        ]
  ]

  pub made-Grown : Grown place m new_place made
  made-Grown = record {
    extends = new_place-old;
    kept = λ p j at' e hj here. elim (slot-cases p j) [
      | inl (same, same') ↦
          let gone : is_present (m.entries (p + 8 * j)) ≡ false = rw (same, same') at (absent) in
          cc (here, gone)
      | inr ne ↦ made_other p j at' e hj ne
    ];
    looks = λ p last at' path e len idx h. made_looks path at' p last e len idx h;
  }

  made-linked :
      (p j : ℕ) (at' : List ℕ)
      → new_place p ≡ some at'
      → length at' < 3
      → j < 512
      → is_present (made.entries (p + 8 * j)) ≡ true
      → new_place (entry_to_phys (made.entries (p + 8 * j))) ≡ some (at' ++ j ∷ [])
  unfolding new_place
  made-linked p j at' e lt hj here = elim (Bool-cases (p == phys)) [
    | inl new ↦
        let same : p ≡ phys = ground (arith, new) in
        let zero_entry : made.entries (p + 8 * j) ≡ 0 =
          ap (λ (t : ℕ). made.entries (t + 8 * j)) same ∙ made_empty j hj in
        cc (here, ap is_present zero_entry, absent-zero)
    | inr old ↦
        let was : place p ≡ some at' = rw old at (e) in
        elim (slot-cases p j) [
          | inl (same, same') ↦
              let next : entry_to_phys (made.entries (p + 8 * j)) ≡ phys =
                rw (same, same') at (made_next) in
              let both : some at ≡ some at' = sym placed ∙ ap place same ∙ was in
              let at_same : at ≡ at' = some_inj both in
              ap new_place next
              ∙ new_place-phys
              ∙ ap (λ (t : List ℕ × ℕ). some (t.0 ++ t.1 ∷ [])) (λ k. (at_same k, same' k))
          | inr ne ↦
              let kept = made_other p j at' was hj ne in
              ap (λ (t : ℕ). new_place (entry_to_phys t)) kept
              ∙ new_place-old (entry_to_phys (m.entries (p + 8 * j))) (at' ++ j ∷ [])
                  (tree.linked p j at' was lt hj (sym (ap is_present kept) ∙ here))
        ]
  ]

  made-in_use :
      (p : ℕ) (at' : List ℕ) → new_place p ≡ some at' → is_used q.page_bitmap (p / 4096) ≡ true
  unfolding new_place
  made-in_use p at' e = elim (Bool-cases (p == phys)) [
    | inl new ↦
        let same : p ≡ phys = ground (arith, new) in
        let self : (phys / 4096 == phys / 4096) ≡ true = ground arith in
        rw (same, got.marked (phys / 4096), self) refl
    | inr old ↦
        let was : place p ≡ some at' = rw old at (e) in
        let before = tree.in_use p at' was in
        elim (Bool-cases (phys / 4096 == p / 4096)) [
          | inl here ↦ rw (got.marked (p / 4096), here) refl
          | inr other ↦ rw (got.marked (p / 4096), other) before
        ]
  ]

  made-aligned : (p : ℕ) (at' : List ℕ) → new_place p ≡ some at' → p % 4096 ≡ 0
  unfolding new_place
  made-aligned p at' e = elim (Bool-cases (p == phys)) [
    | inl new ↦ let same : p ≡ phys = ground (arith, new) in rw same got.aligned
    | inr old ↦ tree.aligned p at' (rw old at (e))
  ]

  pub made-IsTree : IsTree top new_place made
  unfolding made
  made-IsTree = record {
    top_placed = new_place-old top [] tree.top_placed;
    aligned = made-aligned;
    in_use = made-in_use;
    linked = made-linked;
    valid = got.valid;
    addressable = omega (arith, got.same_count, tree.addressable);
  }
