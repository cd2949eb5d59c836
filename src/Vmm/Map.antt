-- ===== src/Vmm/Map.antt =====
-- Mapping, translating and unmapping pages in src/mm/vmm.c.
use cobj_os.Prelude.{
  ℕ, ◌+◌, ◌*◌, ◌/◌, ◌%◌, ◌^◌, ◌<◌, bit_or, bit_and, ◌≡◌, ◌≢◌, refl, sym, ap, ◌∙◌, ◌⊎◌, inl, inr,
  false, Option, none, some, List, [], ◌∷◌, ◌++◌, length, arith, ◌==◌, Bool-cases, append_assoc,
  append_nil, length-append,
}
use cobj_os.Prelude.Outcome.{ok, panic, unmap_unmapped}
use cobj_os.Prelude.Bits.{
  bit_and-low_mask, bit_and-high_mask, bit_or-low, bit_or-lt, bit_at, bit_at-bit_or,
}
use cobj_os.Vmm.{
  Tables, entry_to_phys, is_present, put, levels, pml4_idx, pdpt_idx, pd_idx, pt_idx, vmm_get_pte,
  vmm_get_mapping, mapping_of, page_entry, vmm_map_page, vmm_unmap_page,
}
use cobj_os.Vmm.Tree.{
  look, Reaches, Indices, IsTree, put_self, look-Reaches, look-put_ne, Reaches-put, put-IsTree,
  absent-zero, entry_to_phys_lem,
}
use cobj_os.Vmm.Grow.{Grown}
use cobj_os.Vmm.Walk.{HasRoom, indices, walk-look, walk-Walked}

-- The pages that an address space tells apart: 36 bits of the address choose among them.
abbrev pub page_of : ℕ → ℕ
page_of virt = virt / 4096 % 2 ^ 36

abbrev path_of : ℕ → List ℕ
path_of virt = indices (levels virt)

index-lt : (a : ℕ) → bit_and a 0x1ff < 512
index-lt a = omega (arith, bit_and-low_mask 9 a)

pub pt_idx-lt : (virt : ℕ) → pt_idx virt < 512
unfolding pt_idx
pt_idx-lt virt = index-lt (virt / 2 ^ 12)

pub path_of-Indices : (virt : ℕ) → Indices (indices (levels virt))
unfolding levels pml4_idx pdpt_idx pd_idx
path_of-Indices virt =
    (index-lt (virt / 2 ^ 39), (index-lt (virt / 2 ^ 30), (index-lt (virt / 2 ^ 21), tt)))

pub length-path_of : (virt : ℕ) → length (indices (levels virt)) ≡ 3
unfolding levels
length-path_of virt = refl

first {ℓ} : {A : Type ℓ} → A → List A → A
first d [] = d
first d (x ∷ xs) = x

rest_of {ℓ} : {A : Type ℓ} → List A → List A
rest_of [] = []
rest_of (x ∷ xs) = xs

-- Equal indices, equal pages.
indices_page :
    (v w : ℕ)
    → indices (levels v) ≡ indices (levels w)
    → pt_idx v ≡ pt_idx w
    → page_of v ≡ page_of w
unfolding levels pml4_idx pdpt_idx pd_idx pt_idx first rest_of
indices_page v w e e' =
    let a : bit_and (v / 2 ^ 39) 0x1ff ≡ bit_and (w / 2 ^ 39) 0x1ff = ap (first 0) e in
    let b : bit_and (v / 2 ^ 30) 0x1ff ≡ bit_and (w / 2 ^ 30) 0x1ff =
      ap (λ (l : List ℕ). first 0 (rest_of l)) e in
    let c : bit_and (v / 2 ^ 21) 0x1ff ≡ bit_and (w / 2 ^ 21) 0x1ff =
      ap (λ (l : List ℕ). first 0 (rest_of (rest_of l))) e in
    omega (
      arith,
      a,
      b,
      c,
      e',
      bit_and-low_mask 9 (v / 2 ^ 39),
      bit_and-low_mask 9 (w / 2 ^ 39),
      bit_and-low_mask 9 (v / 2 ^ 30),
      bit_and-low_mask 9 (w / 2 ^ 30),
      bit_and-low_mask 9 (v / 2 ^ 21),
      bit_and-low_mask 9 (w / 2 ^ 21),
      bit_and-low_mask 9 (v / 2 ^ 12),
      bit_and-low_mask 9 (w / 2 ^ 12),
    )

apart_of :
    (v w : ℕ)
    → page_of v ≢ page_of w
    → (indices (levels v) ≢ indices (levels w)) ⊎ (pt_idx v ≢ pt_idx w)
apart_of v w ne = elim (Bool-cases (pt_idx v == pt_idx w)) [
  | inl e ↦ inl (λ same. ne (indices_page v w same (ground (arith, e))))
  | inr e ↦ inr (λ same. ground (arith, e, same))
]

-- A translation is what the entry that is found says.
pub get_mapping-look :
    (space virt : ℕ) (m : Tables)
    → vmm_get_mapping space virt m
      ≡ ok (mapping_of (look m.entries (indices (levels virt)) space (pt_idx virt)))
unfolding vmm_get_mapping vmm_get_pte
get_mapping-look space virt m = elim (walk-look (levels virt) space (pt_idx virt) m) [
  | inl (e, e') ↦ rw (e, e', absent-zero) refl
  | inr (leaf, e, r) ↦
      let found = look-Reaches m.entries (indices (levels virt)) space leaf (pt_idx virt) r in
      rw (e, found) refl
]

-- What the entry of a page says.
page_entry_lem :
    (phys flags : ℕ)
    → flags < 4096
    → page_entry phys flags ≡ phys / 4096 % 2 ^ 52 * 4096 + bit_or flags 1
page_entry_lem phys flags small =
    let high : bit_and phys 0xfffffffffffff000 ≡ phys / 4096 % 2 ^ 52 * 2 ^ 12 =
      bit_and-high_mask 52 12 phys in
    let low : bit_or flags 1 < 2 ^ 12 = bit_or-lt 12 flags 1 small (omega arith) in
    rw high (bit_or-low 12 (phys / 4096 % 2 ^ 52) (bit_or flags 1) low)

odd : (flags : ℕ) → bit_or flags 1 % 2 ≡ 1
unfolding bit_at
odd flags = omega (arith, bit_at-bit_or flags 1 0)

mapping_of-page_entry :
    (phys flags : ℕ)
    → phys < 2 ^ 64
    → flags < 4096
    → mapping_of (page_entry phys flags) ≡ some (phys / 4096 * 4096, bit_or flags 1)
unfolding is_present
mapping_of-page_entry phys flags wide small =
    let low : bit_or flags 1 < 2 ^ 12 = bit_or-lt 12 flags 1 small (omega arith) in
    let e = page_entry_lem phys flags small in
    let v = phys / 4096 % 2 ^ 52 * 4096 + bit_or flags 1 in
    let here : (bit_and v 1 == 0) ≡ false = ground (arith, bit_and-low_mask 1 v, odd flags) in
    let frame : entry_to_phys v ≡ phys / 4096 * 4096 =
      omega (arith, low, entry_to_phys_lem v (omega (arith, low))) in
    let bits : bit_and v 0xfff ≡ bit_or flags 1 = omega (arith, low, bit_and-low_mask 12 v) in
    rw (e, here, frame, bits) refl

-- A way through a tree ends at the table whose place it is.
Reaches-placed :
    (space : ℕ) (place : ℕ → Option (List ℕ)) (m : Tables)
    → IsTree space place m
    → (path at : List ℕ) (table leaf : ℕ) → place table ≡ some at
    → length at + length path ≡ 3
    → Indices path
    → Reaches m.entries path table leaf
    → place leaf ≡ some (at ++ path)
Reaches-placed space place m tree [] at table leaf e len idx r =
    ap place (sym r) ∙ e ∙ ap some (sym (append_nil at))
Reaches-placed space place m tree (i ∷ path) at table leaf e len (hi, idx) (here, r) =
    Reaches-placed space place m tree path (at ++ i ∷ []) _ leaf
      (tree.linked table i at e (omega arith) hi here)
      (omega (arith, len, length-append at (i ∷ []))) idx r
    ∙ ap some (append_assoc at (i ∷ []) path)

-- A word that is written to the last entry of the way to a page.
module _ (space virt leaf v : ℕ) (place : ℕ → Option (List ℕ)) (m : Tables)
    (tree : IsTree space place m) (r : Reaches m.entries (indices (levels virt)) space leaf) where
  abbrev written : Tables
  written = record m { entries = put (leaf + 8 * pt_idx virt) v m.entries }

  three : (w : ℕ) → length {A = ℕ} [] + length (indices (levels w)) ≡ 3
  three w = omega (arith, length-path_of w)

  leaf_placed : place leaf ≡ some (indices (levels virt))
  leaf_placed =
      Reaches-placed space place m tree (indices (levels virt)) [] space leaf tree.top_placed
        (three virt) (path_of-Indices virt) r

  written-IsTree : IsTree space place written
  written-IsTree =
      put-IsTree space place m tree leaf (pt_idx virt) v (indices (levels virt)) leaf_placed
        (length-path_of virt) (pt_idx-lt virt)

  written_self : vmm_get_mapping space virt written ≡ ok (mapping_of v)
  written_self =
      let path = indices (levels virt) in
      let reached =
        Reaches-put space place m tree leaf (pt_idx virt) v path leaf_placed (length-path_of virt)
          (pt_idx-lt virt) path [] space tree.top_placed (three virt) (path_of-Indices virt) r in
      let entry : look written.entries path space (pt_idx virt) ≡ v =
        look-Reaches written.entries path space leaf (pt_idx virt) reached
        ∙ put_self (leaf + 8 * pt_idx virt) v m.entries in
      get_mapping-look space virt written ∙ ap (λ (t : ℕ). ok (mapping_of t)) entry

  written_others :
      (w : ℕ)
      → page_of w ≢ page_of virt
      → vmm_get_mapping space w written ≡ vmm_get_mapping space w m
  written_others w ne =
      let same : look written.entries (indices (levels w)) space (pt_idx w)
          ≡ look m.entries (indices (levels w)) space (pt_idx w) =
        look-put_ne space place m tree leaf (pt_idx virt) v (indices (levels virt)) leaf_placed
          (length-path_of virt) (pt_idx-lt virt) (indices (levels w)) [] space (pt_idx w)
          tree.top_placed (three w) (path_of-Indices w) (pt_idx-lt w) (apart_of w virt ne) in
      get_mapping-look space w written
      ∙ ap (λ (t : ℕ). ok (mapping_of t)) same
      ∙ sym (get_mapping-look space w m)

Grown-mapping :
    (space : ℕ) (place place' : ℕ → Option (List ℕ)) (m m' : Tables)
    → place space ≡ some []
    → Grown place m place' m'
    → (w : ℕ) → vmm_get_mapping space w m' ≡ vmm_get_mapping space w m
Grown-mapping space place place' m m' top g w =
    let same =
      g.looks space (pt_idx w) [] (indices (levels w)) top (omega (arith, length-path_of w))
        (path_of-Indices w) (pt_idx-lt w) in
    get_mapping-look space w m'
    ∙ ap (λ (t : ℕ). ok (mapping_of t)) same
    ∙ sym (get_mapping-look space w m)

-- What `vmm_map_page` makes of the address space at `space`.
pub record Mapped (space virt phys flags : ℕ) (m m' : Tables) : Type 0 where
  pub place' : ℕ → Option (List ℕ)
  pub tree' : IsTree space place' m'
  pub found : vmm_get_mapping space virt m' ≡ ok (some (phys / 4096 * 4096, bit_or flags 1))
  pub others :
      (w : ℕ) → page_of w ≢ page_of virt → vmm_get_mapping space w m' ≡ vmm_get_mapping space w m

-- In a well-formed address space, with three pages to be had for tables, `vmm_map_page` returns; the
-- space is well-formed again, the page is translated to its frame with the given flags and the present
-- bit, where the flags are below 4096, and every other page is translated as before.
pub map_page-get_mapping :
    (space virt phys flags : ℕ) (place : ℕ → Option (List ℕ)) (m : Tables)
    → IsTree space place m
    → HasRoom 3 m.pmm
    → phys < 2 ^ 64
    → flags < 4096
    → (m' : Tables) × (vmm_map_page space virt phys flags m ≡ ok m')
      × Mapped space virt phys flags m m'
unfolding vmm_map_page vmm_get_pte
map_page-get_mapping space virt phys flags place m tree room wide small =
    let path = length-path_of virt in
    let room' : HasRoom (length (indices (levels virt))) m.pmm = rw path room in
    let (leaf, m1, run, w) =
      walk-Walked space place (levels virt) space (pt_idx virt) [] m tree tree.top_placed
        (omega (arith, path)) (path_of-Indices virt) room' in
    let v = page_entry phys flags in
    (
      written space virt leaf v w.place' m1 w.tree' w.reaches,
      rw run refl,
      record {
        place' = w.place';
        tree' = written-IsTree space virt leaf v w.place' m1 w.tree' w.reaches;
        found =
            written_self space virt leaf v w.place' m1 w.tree' w.reaches
            ∙ ap ok (mapping_of-page_entry phys flags wide small);
        others = λ x ne.
            written_others space virt leaf v w.place' m1 w.tree' w.reaches x ne
            ∙ Grown-mapping space place w.place' m m1 tree.top_placed w.grown x;
      },
    )

-- Whether a page is mapped decides what `vmm_unmap_page` does: it panics where the page is not, and
-- else returns a well-formed space that has no translation of the page and every other as before.
pub unmap_page-get_mapping :
    (space virt : ℕ) (place : ℕ → Option (List ℕ)) (m : Tables)
    → IsTree space place m
    → ((vmm_get_mapping space virt m ≡ ok none)
        × (vmm_unmap_page space virt m ≡ panic unmap_unmapped))
      ⊎ ((m' : Tables) × (vmm_unmap_page space virt m ≡ ok m')
          × IsTree space place m'
          × (vmm_get_mapping space virt m ≢ ok none)
          × (vmm_get_mapping space virt m' ≡ ok none)
          × ((w : ℕ)
              → page_of w ≢ page_of virt
              → vmm_get_mapping space w m' ≡ vmm_get_mapping space w m))
unfolding vmm_unmap_page vmm_get_pte
unmap_page-get_mapping space virt place m tree =
    let found = get_mapping-look space virt m in
    elim (walk-look (levels virt) space (pt_idx virt) m) [
      | inl (e, e') ↦ inl (rw (found, e', absent-zero) refl, rw e refl)
      | inr (leaf, e, r) ↦
          let entry = look-Reaches m.entries (indices (levels virt)) space leaf (pt_idx virt) r in
          elim (Bool-cases (is_present (m.entries (leaf + 8 * pt_idx virt)))) [
            | inr absent ↦ inl (rw (found, entry, absent) refl, rw (e, absent) refl)
            | inl here ↦ inr (
              written space virt leaf 0 place m tree r,
              rw (e, here) refl,
              written-IsTree space virt leaf 0 place m tree r,
              rw (found, entry, here) (λ same. cc same),
              written_self space virt leaf 0 place m tree r ∙ rw absent-zero refl,
              written_others space virt leaf 0 place m tree r,
            )
          ]
    ]
