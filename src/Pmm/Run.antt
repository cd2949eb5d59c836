-- ===== src/Pmm/Run.antt =====
-- `pmm_alloc_pages` of src/mm/pmm.c: a run of free frames next to one another, found and taken.
use cobj_os.Prelude.{
  ℕ, zero, suc, ◌+◌, ◌*◌, ◌/◌, ◌%◌, ◌≤◌, ◌<◌, ◌≡◌, refl, sym, ◌∙◌, ◌⊎◌, inl, inr, Bool, true, false,
  ◌&&◌, List, arith, ◌==◌, ltb, leb, if◌then◌else◌, Bool-cases, length,
}
use cobj_os.Prelude.Outcome.{ok, panic, no_contiguous_pages, transfer}
use cobj_os.Pmm.{Pmm, is_used, set_bit, take_run, alloc_pages_loop, alloc_pages}
use cobj_os.Pmm.Bitmap.{Words, is_used-set_bit, set_bit-Words, length-set_bit}
use cobj_os.Pmm.Page.{IsValid}

-- Frame `c` is one of the `count` frames from `start` on.
abbrev pub in_run : ℕ → ℕ → ℕ → Bool
in_run start count c = leb start c && ltb c (start + count)

-- The frames from `start` on are free before and used afterwards, every other one keeps its state.
pub record RunAllocated (p : Pmm) (count addr : ℕ) (q : Pmm) : Type 0 where
  pub aligned : addr % 4096 ≡ 0
  pub inside : addr / 4096 + count ≤ p.page_count
  pub were_free : (c : ℕ) → in_run (addr / 4096) count c ≡ true → is_used p.page_bitmap c ≡ false
  pub marked :
      (c : ℕ)
      → is_used q.page_bitmap c
        ≡ (if in_run (addr / 4096) count c then true else is_used p.page_bitmap c)
  pub same_count : q.page_count ≡ p.page_count
  pub valid : IsValid q

take_run-length : (n i : ℕ) (ws : List ℕ) → length (take_run n i ws) ≡ length ws
unfolding take_run
take_run-length zero i ws = refl
take_run-length (suc n) i ws = take_run-length n (i + 1) (set_bit ws i) ∙ length-set_bit ws i

take_run-Words : (n i : ℕ) (ws : List ℕ) → Words ws → Words (take_run n i ws)
unfolding take_run
take_run-Words zero i ws words = words
take_run-Words (suc n) i ws words =
    take_run-Words n (i + 1) (set_bit ws i) (set_bit-Words ws i words)

is_used-take_run :
    (n i : ℕ) (ws : List ℕ) (c : ℕ)
    → i + n ≤ length ws * 64
    → is_used (take_run n i ws) c ≡ (if in_run i n c then true else is_used ws c)
unfolding take_run
is_used-take_run zero i ws c fits = ground arith
is_used-take_run (suc n) i ws c fits = ground (
  arith,
  is_used-take_run n (i + 1) (set_bit ws i) c (omega (arith, length-set_bit ws i)),
  is_used-set_bit ws i c (omega arith),
)

module _ (p : Pmm) (count : ℕ) (valid : IsValid p) where
  take_run-RunAllocated :
      (start : ℕ)
      → start + count ≤ p.page_count
      → ((c : ℕ) → in_run start count c ≡ true → is_used p.page_bitmap c ≡ false)
      → RunAllocated p count
          (start * 4096)
          (record p { page_bitmap = take_run count start p.page_bitmap })
  take_run-RunAllocated start fits clear =
      let e : start * 4096 / 4096 ≡ start = omega arith in
      record {
        aligned = omega arith;
        inside = omega arith;
        were_free = rw e clear;
        marked =
            λ c. rw e (is_used-take_run count start p.page_bitmap c (omega (arith, valid.sized)));
        same_count = refl;
        valid = record {
          sized = take_run-length count start p.page_bitmap ∙ valid.sized;
          words = take_run-Words count start p.page_bitmap valid.words;
        };
      }

  -- `run` free frames end at `bit`, and `run_start` is the first of them.
  record IsRun (bit run run_start : ℕ) : Type 0 where
    short : run < count
    start : 0 < run → run_start + run ≡ bit
    free : (c : ℕ) → bit ≤ c + run → c < bit → is_used p.page_bitmap c ≡ false

  alloc_pages_loop-RunAllocated :
      (rounds bit run run_start : ℕ) {addr : ℕ} {q : Pmm}
      → rounds + bit ≡ p.page_count
      → IsRun bit run run_start
      → alloc_pages_loop rounds bit run run_start count p ≡ ok (addr, q)
      → RunAllocated p count addr q
  unfolding alloc_pages_loop
  alloc_pages_loop-RunAllocated zero bit run run_start e inv done = cc
  alloc_pages_loop-RunAllocated (suc rounds) bit run run_start {addr} {q} e inv done =
      let start = if run == 0 then bit else run_start in
      let from : start + run ≡ bit = ground (arith, inv.start) in
      elim (Bool-cases (is_used p.page_bitmap bit)) [
        | inl used ↦
            alloc_pages_loop-RunAllocated rounds (bit + 1) 0 run_start (omega arith)
              (record {
                short = omega (arith, inv.short);
                start = λ h. absurd (omega arith);
                free = λ c h lt. absurd (omega arith);
              })
              (rw used at done)
        | inr unused ↦
            let free : (c : ℕ) → bit ≤ c + run → c < bit + 1 → is_used p.page_bitmap c ≡ false =
              λ c h lt. ground (arith, inv.free c, unused) in
            elim (Bool-cases (run + 1 == count)) [
              | inl full ↦
                  transfer (λ (r : ℕ × Pmm). RunAllocated p count r.0 r.1)
                    (rw (unused, full) at done)
                    (take_run-RunAllocated start (ground (arith, full))
                      (λ c h. free c (ground (arith, full, h)) (ground (arith, full, h))))
              | inr more ↦
                  alloc_pages_loop-RunAllocated rounds (bit + 1) (run + 1) start (omega arith)
                    (record {
                      short = ground (arith, more, inv.short);
                      start = λ h. omega arith;
                      free = λ c h lt. free c (omega arith) (omega arith);
                    })
                    (rw (unused, more) at done)
            ]
      ]

  module _ (s : ℕ) (fits : s + count ≤ p.page_count)
      (clear : (c : ℕ) → in_run s count c ≡ true → is_used p.page_bitmap c ≡ false) where
    -- The scan has not passed the run, and what it has seen of it is counted.
    alloc_pages_loop-total :
        (rounds bit run run_start : ℕ)
        → rounds + bit ≡ p.page_count
        → run < count
        → bit < s + count
        → bit ≤ s + run
        → (addr : ℕ) × (q : Pmm) × (alloc_pages_loop rounds bit run run_start count p
            ≡ ok (addr, q))
    unfolding alloc_pages_loop
    alloc_pages_loop-total zero bit run run_start e short ahead counted = absurd (omega arith)
    alloc_pages_loop-total (suc rounds) bit run run_start e short ahead counted =
        let start = if run == 0 then bit else run_start in
        elim (Bool-cases (is_used p.page_bitmap bit)) [
          | inl used ↦
              let before : bit < s = ground (arith, used, clear bit) in
              rw used (
                alloc_pages_loop-total rounds (bit + 1) 0 run_start (omega arith) (omega arith)
                  (omega arith) (omega arith))
          | inr unused ↦ elim (Bool-cases (run + 1 == count)) [
            | inl full ↦ rw (unused, full) (start * 4096, _, refl)
            | inr more ↦
                let shorter : run + 1 < count = ground (arith, more) in
                rw (unused, more)
                  (alloc_pages_loop-total rounds (bit + 1) (run + 1) start (omega arith) shorter
                    (omega arith) (omega arith))
          ]
        ]

alloc_pages_many :
    (p : Pmm) (count : ℕ)
    → 2 ≤ count
    → alloc_pages count p ≡ alloc_pages_loop p.page_count 0 0 0 count p
unfolding alloc_pages
alloc_pages_many p count two = ground arith

-- What `pmm_alloc_pages` returns for two pages or more.
pub alloc_pages-ok :
    (p : Pmm) (count : ℕ) {addr : ℕ} {q : Pmm}
    → IsValid p
    → 2 ≤ count
    → alloc_pages count p ≡ ok (addr, q)
    → RunAllocated p count addr q
alloc_pages-ok p count valid two done =
    alloc_pages_loop-RunAllocated p count valid p.page_count 0 0 0 (omega arith)
      (record {
        short = omega arith;
        start = λ h. absurd (omega arith);
        free = λ c h lt. absurd (omega arith);
      })
      (sym (alloc_pages_many p count two) ∙ done)

-- For two pages or more: if the bitmap holds a run of `count` free frames below `page_count`,
-- `pmm_alloc_pages` returns, and what it returns is the aligned address of such a run; its frames
-- are now used and every other frame keeps its state.
pub alloc_pages-RunAllocated :
    (p : Pmm) (count s : ℕ)
    → IsValid p
    → 2 ≤ count
    → s + count ≤ p.page_count
    → ((c : ℕ) → in_run s count c ≡ true → is_used p.page_bitmap c ≡ false)
    → (addr : ℕ) × (q : Pmm) × (alloc_pages count p ≡ ok (addr, q)) × RunAllocated p count addr q
alloc_pages-RunAllocated p count s valid two fits clear =
    let (addr, q, found) =
      alloc_pages_loop-total p count valid s fits clear p.page_count 0 0 0 (omega arith)
        (omega arith) (omega arith) (omega arith) in
    let done : alloc_pages count p ≡ ok (addr, q) = alloc_pages_many p count two ∙ found in
    (addr, q, done, alloc_pages-ok p count valid two done)

-- With no such run it panics.
alloc_pages_loop-cases :
    (rounds bit run run_start count : ℕ) (p : Pmm)
    → (alloc_pages_loop rounds bit run run_start count p ≡ panic no_contiguous_pages)
      ⊎ ((addr : ℕ) × (q : Pmm) × (alloc_pages_loop rounds bit run run_start count p
            ≡ ok (addr, q)))
unfolding alloc_pages_loop
alloc_pages_loop-cases zero bit run run_start count p = inl refl
alloc_pages_loop-cases (suc rounds) bit run run_start count p =
    let start = if run == 0 then bit else run_start in
    let broken = alloc_pages_loop-cases rounds (bit + 1) 0 run_start count p in
    let longer = alloc_pages_loop-cases rounds (bit + 1) (run + 1) start count p in
    elim (Bool-cases (is_used p.page_bitmap bit)) [
      | inl used ↦ rw used broken
      | inr unused ↦ elim (Bool-cases (run + 1 == count)) [
        | inl full ↦ rw (unused, full) (inr (start * 4096, _, refl))
        | inr more ↦ rw (unused, more) longer
      ]
    ]

-- For two pages or more, with no run of `count` free frames below `page_count`,
-- `pmm_alloc_pages` panics.
alloc_pages-no_run :
    (p : Pmm) (count : ℕ)
    → IsValid p
    → 2 ≤ count
    → ((s : ℕ)
        → s + count ≤ p.page_count
        → (c : ℕ) × (in_run s count c ≡ true) × (is_used p.page_bitmap c ≡ true))
    → alloc_pages count p ≡ panic no_contiguous_pages
alloc_pages-no_run p count valid two broken =
    elim (alloc_pages_loop-cases p.page_count 0 0 0 count p) [
      | inl e ↦ alloc_pages_many p count two ∙ e
      | inr (addr, q, found) ↦
          let got = alloc_pages-ok p count valid two (alloc_pages_many p count two ∙ found) in
          let (c, within, used) = broken (addr / 4096) got.inside in
          absurd (cc (got.were_free c within, used))
    ]
