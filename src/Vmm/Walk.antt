-- ===== src/Vmm/Walk.antt =====
-- `vmm_get_pte` of src/mm/vmm.c on a tree of tables.
use cobj_os.Prelude.{
  ℕ, zero, suc, ◌+◌, ◌*◌, ◌<◌, bit_or, ◌≡◌, refl, sym, ap, ◌∙◌, ◌⊎◌, inl, inr, true, false, Option,
  none, some, List, [], ◌∷◌, ◌++◌, length, append_assoc, append_nil, length-append, arith, ◌==◌,
  Bool-cases,
}
use cobj_os.Prelude.Outcome.{ok, Panic}
use cobj_os.Pmm.{Pmm, alloc_page}
use cobj_os.Vmm.{Tables, entry_to_phys, is_present, table_flags, next_table, walk, levels}
use cobj_os.Vmm.Tree.{look, Reaches, Indices, IsTree}
use cobj_os.Vmm.Grow.{
  Grown, Grown-refl, Grown-trans, made, new_place, new_place-phys, made-Grown, made_leads,
  made_next, made_present, made-IsTree,
}

-- `n` pages can be had, none of them page 0.
abbrev pub HasRoom : ℕ → Pmm → Type 0
HasRoom zero p = Unit {0}
HasRoom (suc n) p =
    (addr : ℕ) × (q : Pmm) × (alloc_page p ≡ ok (addr, q)) × ((addr == 0) ≡ false) × HasRoom n q

abbrev pub indices : List (Panic × ℕ) → List ℕ
indices [] = []
indices ((failure, i) ∷ levels) = i ∷ indices levels

pub walk-look :
    (levels : List (Panic × ℕ)) (table last : ℕ) (m : Tables)
    → ((walk false levels table last m ≡ ok (none, m))
        × (look m.entries (indices levels) table last ≡ 0))
      ⊎ ((leaf : ℕ) × (walk false levels table last m ≡ ok (some (leaf + 8 * last), m))
          × Reaches m.entries (indices levels) table leaf)
unfolding walk look next_table
walk-look [] table last m = inr (table, refl, refl)
walk-look ((failure, i) ∷ levels) table last m =
    elim (Bool-cases (is_present (m.entries (table + 8 * i)))) [
      | inr absent ↦ rw absent (inl (refl, refl))
      | inl here ↦ elim (walk-look levels (entry_to_phys (m.entries (table + 8 * i))) last m) [
        | inl (e, e') ↦ rw here (inl (e, e'))
        | inr (leaf, e, r) ↦ rw here (inr (leaf, e, (refl, r)))
      ]
    ]

HasRoom-less : (n : ℕ) (p : Pmm) → HasRoom (suc n) p → HasRoom n p
HasRoom-less zero p room = tt
HasRoom-less (suc n) p (addr, q, e, ne, room) = (addr, q, e, ne, HasRoom-less n q room)

-- What one level of a walk that may add tables comes to.
record Stepped (top : ℕ) (place : ℕ → Option (List ℕ)) (m : Tables) (table i : ℕ) (at : List ℕ)
    (next : ℕ) (m' : Tables) : Type 0 where
  pub place' : ℕ → Option (List ℕ)
  pub tree' : IsTree top place' m'
  pub grown : Grown place m place' m'
  pub next_placed : place' next ≡ some (at ++ i ∷ [])
  pub here : is_present (m'.entries (table + 8 * i)) ≡ true
  pub leads : entry_to_phys (m'.entries (table + 8 * i)) ≡ next

next_table-Stepped :
    (top : ℕ) (place : ℕ → Option (List ℕ)) (failure : Panic) (table i n : ℕ) (at : List ℕ)
    (m : Tables)
    → IsTree top place m
    → place table ≡ some at
    → length at < 3
    → i < 512
    → HasRoom (suc n) m.pmm
    → (next : ℕ) × (m' : Tables) × (next_table true failure table i m ≡ ok (some next, m'))
      × Stepped top place m table i at next m'
      × HasRoom n m'.pmm
unfolding next_table made
next_table-Stepped top place failure table i n at m tree placed short hi
      (addr, q, taken, ne, room) =
    elim (Bool-cases (is_present (m.entries (table + 8 * i)))) [
      | inl here ↦ rw here (
        entry_to_phys (m.entries (table + 8 * i)),
        m,
        refl,
        record {
          place' = place;
          tree' = tree;
          grown = Grown-refl place m;
          next_placed = tree.linked table i at placed short hi here;
          here = here;
          leads = refl;
        },
        HasRoom-less n m.pmm (addr, q, taken, ne, room),
      )
      | inr absent ↦
          let leads = made_leads top place m tree table i addr q at placed short hi absent taken in
          rw (absent, taken, ne)
            (
              entry_to_phys (bit_or addr table_flags),
              made top place m tree table i addr q at placed short hi absent taken,
              refl,
              record {
                place' = new_place top place m tree table i addr q at placed short hi absent taken;
                tree' = made-IsTree top place m tree table i addr q at placed short hi absent taken;
                grown = made-Grown top place m tree table i addr q at placed short hi absent taken;
                next_placed =
                    ap (new_place top place m tree table i addr q at placed short hi absent taken)
                      leads
                    ∙ new_place-phys top place m tree table i addr q at placed short hi absent
                        taken;
                here = made_present top place m tree table i addr q at placed short hi absent taken;
                leads =
                    made_next top place m tree table i addr q at placed short hi absent taken
                    ∙ sym leads;
              },
              room,
            )
    ]

-- What a walk that may add tables comes to.
pub record Walked (top : ℕ) (place : ℕ → Option (List ℕ)) (m : Tables) (path at : List ℕ)
    (table leaf : ℕ) (m' : Tables) : Type 0 where
  pub place' : ℕ → Option (List ℕ)
  pub tree' : IsTree top place' m'
  pub grown : Grown place m place' m'
  pub leaf_placed : place' leaf ≡ some (at ++ path)
  pub reaches : Reaches m'.entries path table leaf

pub walk-Walked :
    (top : ℕ) (place : ℕ → Option (List ℕ)) (levels : List (Panic × ℕ)) (table last : ℕ)
    (at : List ℕ) (m : Tables)
    → IsTree top place m
    → place table ≡ some at
    → length at + length (indices levels) ≡ 3
    → Indices (indices levels)
    → HasRoom (length (indices levels)) m.pmm
    → (leaf : ℕ) × (m' : Tables) × (walk true levels table last m ≡ ok (some (leaf + 8 * last), m'))
      × Walked top place m (indices levels) at table leaf m'
unfolding walk next_table
walk-Walked top place [] table last at m tree placed len idx room = (
  table,
  m,
  refl,
  record {
    place' = place;
    tree' = tree;
    grown = Grown-refl place m;
    leaf_placed = placed ∙ ap some (sym (append_nil at));
    reaches = refl;
  },
)
walk-Walked top place ((failure, i) ∷ levels) table last at m tree placed len (hi, idx) room =
    let (next, m1, stepped, step, room') =
      next_table-Stepped top place failure table i (length (indices levels)) at m tree placed
        (omega (arith, len)) hi room in
    let deeper : length (at ++ i ∷ []) + length (indices levels) ≡ 3 =
      omega (arith, len, length-append at (i ∷ [])) in
    let (leaf, m', run, rest) =
      walk-Walked top step.place' levels next last (at ++ i ∷ []) m1 step.tree' step.next_placed
        deeper idx room' in
    let same = rest.grown.kept table i at (step.grown.extends table at placed) hi step.here in
    (
      leaf,
      m',
      rw stepped run,
      record {
        place' = rest.place';
        tree' = rest.tree';
        grown = Grown-trans step.grown rest.grown;
        leaf_placed = rest.leaf_placed ∙ ap some (append_assoc at (i ∷ []) (indices levels));
        reaches = rw (same, step.here, step.leads) (refl, rest.reaches);
      },
    )
