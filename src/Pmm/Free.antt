-- ===== src/Pmm/Free.antt =====
-- `pmm_free_page` of src/mm/pmm.c, and pages that are given out and given back.
use mathlib.Core.Path.{subst}
use cobj_os.Prelude.{
  ℕ, ◌/◌, ◌%◌, ◌<◌, ◌≡◌, refl, sym, ◌∙◌, ◌≢◌, true, false, arith, ◌==◌, if◌then◌else◌, ==_refl,
}
use cobj_os.Prelude.Outcome.{ok, panic, double_free}
use cobj_os.Pmm.{Pmm, word_count, is_used, clear_bit, alloc_page, free_page}
use cobj_os.Pmm.Bitmap.{is_used-clear_bit, clear_bit-Words, length-clear_bit}
use cobj_os.Pmm.Page.{IsValid, frame_in_bitmap, alloc_page_loop-Allocated}

-- Frame `addr / PAGE_SIZE` becomes free, every other frame keeps its state.
pub record Freed (p : Pmm) (addr : ℕ) (q : Pmm) : Type 0 where
  pub marked :
      (c : ℕ)
      → is_used q.page_bitmap c ≡ (if addr / 4096 == c then false else is_used p.page_bitmap c)
  pub same_count : q.page_count ≡ p.page_count
  pub valid : IsValid q

-- What `pmm_free_page` asks of its argument.
pub record Freeable (p : Pmm) (addr : ℕ) : Type 0 where
  pub ne_null : addr ≢ 0
  pub aligned : addr % 4096 ≡ 0
  pub inside : addr / 4096 < p.page_count
  pub used : is_used p.page_bitmap (addr / 4096) ≡ true

clear_bit-Freed :
    (p : Pmm) (addr : ℕ)
    → IsValid p
    → addr / 4096 < p.page_count
    → Freed p addr (record p { page_bitmap = clear_bit p.page_bitmap (addr / 4096) })
clear_bit-Freed p addr valid inside = record {
  marked = λ c.
      is_used-clear_bit p.page_bitmap (addr / 4096) c
        (frame_in_bitmap p valid (addr / 4096) inside);
  same_count = refl;
  valid = record {
    sized = length-clear_bit p.page_bitmap (addr / 4096) ∙ valid.sized;
    words = clear_bit-Words p.page_bitmap (addr / 4096) valid.words;
  };
}

-- `pmm_free_page` returns for a non-null, aligned address of a frame in range that is in use and for no
-- other, and when it returns that frame and no other has become free.
pub free_page-Freed_iff :
    (p : Pmm) (addr : ℕ)
    → IsValid p
    → ((q : Pmm) → free_page addr p ≡ ok q → Freeable p addr × Freed p addr q)
      × (Freeable p addr → (q : Pmm) × (free_page addr p ≡ ok q) × Freed p addr q)
unfolding free_page
free_page-Freed_iff p addr valid = (
  λ q done.
      let f : Freeable p addr = record {
        ne_null = ground arith;
        aligned = ground arith;
        inside = ground arith;
        used = ground arith;
      } in
      let ne = f.ne_null in
      let aligned = f.aligned in
      let inside = f.inside in
      let held = f.used in
      let cleared : Pmm = record p { page_bitmap = clear_bit p.page_bitmap (addr / 4096) } in
      let run : free_page addr p ≡ ok cleared = ground arith in
      let both : ok cleared ≡ ok q = sym run ∙ done in
      let same : cleared ≡ q = cc in
      (f, subst (λ (r : Pmm). Freed p addr r) same (clear_bit-Freed p addr valid f.inside)),
  λ f. (
    record p { page_bitmap = clear_bit p.page_bitmap (addr / 4096) },
    ground arith,
    clear_bit-Freed p addr valid f.inside,
  ),
)

free_page-unused :
    (p : Pmm) (addr : ℕ)
    → addr ≢ 0
    → addr % 4096 ≡ 0
    → addr / 4096 < p.page_count
    → is_used p.page_bitmap (addr / 4096) ≡ false
    → free_page addr p ≡ panic double_free
unfolding free_page
free_page-unused p addr ne aligned inside unused = ground arith

-- A page that `pmm_alloc_page` gave out, other than page 0, can be given back: all frames are then
-- as before the allocation, and giving it back once more panics with the double-free message.
free_page-alloc_page :
    (p : Pmm) {addr : ℕ} {q : Pmm}
    → IsValid p
    → addr ≢ 0
    → alloc_page p ≡ ok (addr, q)
    → (r : Pmm) × (free_page addr q ≡ ok r)
      × ((c : ℕ) → is_used r.page_bitmap c ≡ is_used p.page_bitmap c)
      × (free_page addr r ≡ panic double_free)
unfolding alloc_page
free_page-alloc_page p {addr} {q} valid ne done =
    let got = alloc_page_loop-Allocated p valid (word_count p) 0 (omega arith) done in
    let held : Freeable q addr = record {
      ne_null = ne;
      aligned = got.aligned;
      inside = omega (arith, got.same_count, got.inside);
      used = rw (got.marked (addr / 4096), ==_refl (addr / 4096)) refl;
    } in
    let (r, back, freed) = (free_page-Freed_iff q addr got.valid).1 held in
    (
      r,
      back,
      λ c. ground (arith, freed.marked c, got.marked c, got.was_free),
      free_page-unused r addr ne got.aligned
          (omega (arith, freed.same_count, got.same_count, got.inside))
          (rw (freed.marked (addr / 4096), ==_refl (addr / 4096)) refl),
    )
