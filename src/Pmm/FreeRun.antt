-- ===== src/Pmm/FreeRun.antt =====
-- `pmm_free_pages` of src/mm/pmm.c: a run of frames is given back page by page.
use cobj_os.Prelude.{
  ℕ, zero, suc, ◌+◌, ◌*◌, ◌/◌, ◌%◌, ◌^◌, ◌≤◌, ◌<◌, ◌≡◌, refl, sym, ap, ◌∙◌, true, false, arith,
  ◌==◌, if◌then◌else◌,
}
use cobj_os.Prelude.Outcome.{ok}
use cobj_os.Pmm.{Pmm, is_used, free_pages_loop, free_pages, alloc_pages}
use cobj_os.Pmm.Page.{IsValid}
use cobj_os.Pmm.Free.{Freed, Freeable, free_page-Freed_iff}
use cobj_os.Pmm.Run.{in_run, alloc_pages-ok}

-- The frames of the run are free, every other frame keeps its state.
pub record RunFreed (p : Pmm) (start count : ℕ) (q : Pmm) : Type 0 where
  pub marked :
      (c : ℕ)
      → is_used q.page_bitmap c ≡ (if in_run start count c then false else is_used p.page_bitmap c)
  pub same_count : q.page_count ≡ p.page_count
  pub valid : IsValid q

in_run-suc : (s n c : ℕ) → in_run s (suc n) c ≡ (if s == c then true else in_run (s + 1) n c)
in_run-suc s n c = ground arith

RunFreed-suc :
    (p r q : Pmm) (s addr n : ℕ)
    → addr / 4096 ≡ s
    → Freed p addr r
    → RunFreed r (s + 1) n q
    → RunFreed p s (suc n) q
RunFreed-suc p r q s addr n frame freed rest = record {
  marked = λ c. rw in_run-suc (rest.marked c ∙ marked_both c);
  same_count = rest.same_count ∙ freed.same_count;
  valid = rest.valid;
}
  where
    marked_both :
        (c : ℕ)
        → (if in_run (s + 1) n c then false else is_used r.page_bitmap c) ≡ (
            if (if s == c then true else in_run (s + 1) n c)
            then false
            else is_used p.page_bitmap c)
    marked_both c = rw (freed.marked c, frame) (ground arith)

in_run_first : (s n : ℕ) → in_run s (suc n) s ≡ true
in_run_first s n = ground arith

still_used :
    (p r : Pmm) (s addr n c : ℕ)
    → addr / 4096 ≡ s
    → Freed p addr r
    → (in_run s (suc n) c ≡ true → is_used p.page_bitmap c ≡ true)
    → in_run (s + 1) n c ≡ true
    → is_used r.page_bitmap c ≡ true
still_used p r s addr n c frame freed used h =
    let later : (s == c) ≡ false = ground (arith, h) in
    let within : in_run s (suc n) c ≡ true = rw (in_run-suc s n c, later) h in
    rw (freed.marked c, frame, later) (used within)

-- `s` is the frame of round `i`.
free_pages_loop-RunFreed :
    (rounds i s start : ℕ) (p : Pmm)
    → IsValid p
    → s ≡ start + i
    → 0 < start
    → s + rounds ≤ p.page_count
    → p.page_count ≤ 2 ^ 52
    → ((c : ℕ) → in_run s rounds c ≡ true → is_used p.page_bitmap c ≡ true)
    → (q : Pmm) × (free_pages_loop rounds i (start * 4096) p ≡ ok q) × RunFreed p s rounds q
unfolding free_pages_loop
free_pages_loop-RunFreed zero i s start p valid e pos fits space used =
    (p, refl, record { marked = λ c. ground arith; same_count = refl; valid = valid })
free_pages_loop-RunFreed (suc rounds) i s start p valid e pos fits space used =
    let addr = (start * 4096 + i * 4096) % 2 ^ 64 in
    let frame : addr / 4096 ≡ s = omega arith in
    let held : Freeable p addr = record {
      ne_null = omega arith;
      aligned = omega arith;
      inside = omega arith;
      used = rw frame (used s (in_run_first s rounds));
    } in
    let (r, first, freed) = (free_page-Freed_iff p addr valid).1 held in
    let (q, rest, all) =
      free_pages_loop-RunFreed rounds (i + 1) (s + 1) start r freed.valid (omega arith) pos
        (omega (arith, freed.same_count)) (omega (arith, freed.same_count))
        (λ c h. still_used p r s addr rounds c frame freed (used c) h) in
    (q, rw first rest, RunFreed-suc p r q s addr rounds frame freed all)

-- For an aligned run of used frames that starts above page 0, inside a space of at most 2^52
-- frames, `pmm_free_pages` returns, and frees those frames and no other.
pub free_pages-RunFreed :
    (p : Pmm) (start count : ℕ)
    → IsValid p
    → 0 < start
    → start + count ≤ p.page_count
    → p.page_count ≤ 2 ^ 52
    → ((c : ℕ) → in_run start count c ≡ true → is_used p.page_bitmap c ≡ true)
    → (q : Pmm) × (free_pages (start * 4096) count p ≡ ok q) × RunFreed p start count q
unfolding free_pages
free_pages-RunFreed p start count valid pos fits space used =
    free_pages_loop-RunFreed count 0 start start p valid (omega arith) pos fits space used

-- What `pmm_alloc_pages` took for two pages or more, above page 0, `pmm_free_pages` gives back:
-- every frame is then as before.
pub free_pages-alloc_pages :
    (p : Pmm) (count addr : ℕ) (q : Pmm)
    → IsValid p
    → p.page_count ≤ 2 ^ 52
    → 2 ≤ count
    → alloc_pages count p ≡ ok (addr, q)
    → 4096 ≤ addr
    → (r : Pmm) × (free_pages addr count q ≡ ok r)
      × ((c : ℕ) → is_used r.page_bitmap c ≡ is_used p.page_bitmap c)
free_pages-alloc_pages p count addr q valid space two taken above =
    let got = alloc_pages-ok p count valid two taken in
    let e : addr / 4096 * 4096 ≡ addr = omega (arith, got.aligned) in
    let (r, done, freed) =
      free_pages-RunFreed q (addr / 4096) count got.valid (omega arith)
        (omega (arith, got.inside, got.same_count)) (omega (arith, got.same_count))
        (λ c h. ground (arith, got.marked c, h)) in
    (
      r,
      ap (λ (a : ℕ). free_pages a count q) (sym e) ∙ done,
      λ c. ground (arith, freed.marked c, got.marked c, got.were_free c),
    )
