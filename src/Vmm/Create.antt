-- ===== src/Vmm/Create.antt =====
-- `vmm_create_user_space` of src/mm/vmm.c: what a new address space maps.
use cobj_os.Prelude.{
  ℕ, ◌+◌, ◌-◌, ◌*◌, ◌/◌, ◌≤◌, ◌<◌, ◌≡◌, ◌≢◌, refl, sym, ap, ◌∙◌, inl, inr, true, false, ◌&&◌,
  Option, none, some, List, [], ◌∷◌, ◌++◌, length, length-append, arith, ltb, leb, ◌==◌, Bool-cases,
}
use cobj_os.Prelude.Outcome.{ok}
use cobj_os.Pmm.{Pmm, is_used, alloc_page}
use cobj_os.Pmm.Page.{Allocated, alloc_page_ok}
use cobj_os.Vmm.{
  Tables, is_present, levels, pml4_idx, pt_idx, mapping_of, upper_half, vmm_get_mapping,
  vmm_create_user_space,
}
use cobj_os.Vmm.Tree.{look, Indices, IsTree, clear_inside, clear_outside, absent-zero}
use cobj_os.Vmm.Walk.{indices}
use cobj_os.Vmm.Map.{get_mapping-look, path_of-Indices, pt_idx-lt, length-path_of}

module _ (kernel : ℕ) (place : ℕ → Option (List ℕ)) (m : Tables) (tree : IsTree kernel place m)
    (phys : ℕ) (q : Pmm) (taken : alloc_page m.pmm ≡ ok (phys, q)) where
  got : Allocated m.pmm phys q
  got = alloc_page_ok m.pmm tree.valid taken

  fresh : (p : ℕ) (at : List ℕ) → place p ≡ some at → p ≢ phys
  fresh p at e same =
      let used : is_used m.pmm.page_bitmap (phys / 4096) ≡ true =
        ap (λ (t : ℕ). is_used m.pmm.page_bitmap (t / 4096)) (sym same) ∙ tree.in_use p at e in
      cc (used, got.was_free)

  entries' : ℕ → ℕ
  entries' = upper_half phys kernel m.entries

  old_entry :
      (p i : ℕ) (at : List ℕ)
      → place p ≡ some at
      → i < 512
      → entries' (p + 8 * i) ≡ m.entries (p + 8 * i)
  unfolding entries'
  old_entry p i at e hi =
      let ne = fresh p at e in
      let hp = tree.aligned p at e in
      let other : (leb (phys + 2048) (p + 8 * i) && ltb (p + 8 * i) (phys + 4096)) ≡ false =
        elim (Bool-cases (leb (phys + 2048) (p + 8 * i) && ltb (p + 8 * i) (phys + 4096))) [
          | inl both ↦ absurd (ne (ground (arith, both, hp, got.aligned)))
          | inr apart ↦ apart
        ] in
      rw other (clear_outside phys p i m.entries got.aligned hp ne hi)

  low_entry : (i : ℕ) → i < 256 → entries' (phys + 8 * i) ≡ 0
  unfolding entries'
  low_entry i hi =
      let below : leb (phys + 2048) (phys + 8 * i) ≡ false = ground arith in
      rw below (clear_inside phys i m.entries (omega arith))

  high_entry : (i : ℕ) → 256 ≤ i → i < 512 → entries' (phys + 8 * i) ≡ m.entries (kernel + 8 * i)
  unfolding entries'
  high_entry i low hi =
      let from : leb (phys + 2048) (phys + 8 * i) ≡ true = ground arith in
      let to : ltb (phys + 8 * i) (phys + 4096) ≡ true = ground arith in
      let at : kernel + (phys + 8 * i - phys) ≡ kernel + 8 * i = omega arith in
      rw (from, to, at)
        (clear_outside phys kernel i m.entries got.aligned (tree.aligned kernel [] tree.top_placed)
          (fresh kernel [] tree.top_placed) hi)

  -- Below the top, the tables are the kernel's.
  same_look :
      (path at : List ℕ) (p last : ℕ)
      → place p ≡ some at
      → length at + length path ≡ 3
      → Indices path
      → last < 512
      → look entries' path p last ≡ look m.entries path p last
  unfolding look
  same_look [] at p last e len idx h = old_entry p last at e h
  same_look (i ∷ path) at p last e len (hi, idx) h =
      let same = old_entry p i at e hi in
      elim (Bool-cases (is_present (m.entries (p + 8 * i)))) [
        | inr gone ↦ rw (same, gone) refl
        | inl here ↦
            rw (same, here)
              (same_look path (at ++ i ∷ []) _ last (tree.linked p i at e (omega arith) hi here)
                (omega (arith, len, length-append at (i ∷ []))) idx h)
      ]

  low_look : (path : List ℕ) (i last : ℕ) → i < 256 → look entries' (i ∷ path) phys last ≡ 0
  unfolding look
  low_look path i last hi = let e = low_entry i hi in rw (e, absent-zero) refl

  high_look :
      (path : List ℕ) (i last : ℕ)
      → 256 ≤ i
      → length path ≡ 2
      → Indices (i ∷ path)
      → last < 512
      → look entries' (i ∷ path) phys last ≡ look m.entries (i ∷ path) kernel last
  unfolding look
  high_look path i last low len (hi, idx) h =
      let e = high_entry i low hi in
      elim (Bool-cases (is_present (m.entries (kernel + 8 * i)))) [
        | inr gone ↦ rw (e, gone) refl
        | inl here ↦
            rw (e, here)
              (same_look path (i ∷ []) _ last
                (tree.linked kernel i [] tree.top_placed (omega arith) hi here) (omega (arith, len))
                idx h)
      ]

  made : Tables
  made = record { entries = entries'; pmm = q }

  new_mappings :
      (virt : ℕ)
      → (pml4_idx virt < 256 → vmm_get_mapping phys virt made ≡ ok none)
        × (256 ≤ pml4_idx virt → vmm_get_mapping phys virt made ≡ vmm_get_mapping kernel virt m)
  unfolding made levels
  new_mappings virt = (
    λ low.
        get_mapping-look phys virt made
        ∙ ap (λ (t : ℕ). ok (mapping_of t)) (low_look _ (pml4_idx virt) (pt_idx virt) low)
        ∙ rw absent-zero refl,
    λ high.
        get_mapping-look phys virt made
        ∙ ap (λ (t : ℕ). ok (mapping_of t))
            (high_look _ (pml4_idx virt) (pt_idx virt) high refl (path_of-Indices virt)
              (pt_idx-lt virt))
        ∙ sym (get_mapping-look kernel virt m),
  )

-- If a page other than page 0 can be had, `vmm_create_user_space` returns a space that maps nothing in
-- the lower half and what the kernel's well-formed space maps in the upper half, and the kernel's space
-- maps what it did.
pub create_user_space-get_mapping :
    (kernel phys : ℕ) (q : Pmm) (place : ℕ → Option (List ℕ)) (m : Tables)
    → IsTree kernel place m
    → alloc_page m.pmm ≡ ok (phys, q)
    → (phys == 0) ≡ false
    → (m' : Tables) × (vmm_create_user_space kernel m ≡ ok (phys, m'))
      × ((virt : ℕ)
          → (pml4_idx virt < 256 → vmm_get_mapping phys virt m' ≡ ok none)
            × (256 ≤ pml4_idx virt → vmm_get_mapping phys virt m' ≡ vmm_get_mapping kernel virt m)
            × (vmm_get_mapping kernel virt m' ≡ vmm_get_mapping kernel virt m))
unfolding vmm_create_user_space made entries'
create_user_space-get_mapping kernel phys q place m tree taken ne = (
  made kernel place m tree phys q taken,
  rw (taken, ne) refl,
  λ virt.
      let (low, high) = new_mappings kernel place m tree phys q taken virt in
      (
        low,
        high,
        get_mapping-look kernel virt (made kernel place m tree phys q taken)
            ∙ ap (λ (t : ℕ). ok (mapping_of t))
                (same_look kernel place m tree phys q taken (indices (levels virt)) [] kernel
                  (pt_idx virt) tree.top_placed (omega (arith, length-path_of virt))
                  (path_of-Indices virt) (pt_idx-lt virt))
            ∙ sym (get_mapping-look kernel virt m),
      ),
)
