-- ===== src/Pmm/Range.antt =====
-- `pmm_mark_range_used` and `pmm_mark_range_free` of src/mm/pmm.c: the frames that a range of addresses
-- touches, and those that it covers whole.
use cobj_os.Prelude.{
  ℕ, zero, suc, ◌+◌, ◌-◌, ◌*◌, ◌/◌, ◌%◌, ◌^◌, ◌≤◌, ◌<◌, bit_and, ◌≡◌, refl, ap, ◌∙◌, Bool, true,
  false, ◌&&◌, ◌||◌, arith, ◌==◌, ltb, leb, if◌then◌else◌,
}
use cobj_os.Prelude.Bits.{align_down_page}
use cobj_os.Prelude.Outcome.{ok}
use cobj_os.Pmm.{
  Pmm, is_used, set_bit, clear_bit, mark_used, mark_free, mark_pages_used, mark_pages_free,
  mark_range_used, mark_range_free, align_up, align_down,
}
use cobj_os.Pmm.Bitmap.{
  is_used-set_bit, is_used-clear_bit, set_bit-Words, clear_bit-Words, length-set_bit,
  length-clear_bit,
}
use cobj_os.Pmm.Page.{IsValid}
use cobj_os.Pmm.Run.{in_run}

-- `q` is `p` with the state of every frame that `here` selects set to `state`.
pub record Marked (p : Pmm) (state : Bool) (here : ℕ → Bool) (q : Pmm) : Type 0 where
  pub marked :
      (c : ℕ) → is_used q.page_bitmap c ≡ (if here c then state else is_used p.page_bitmap c)
  pub same_count : q.page_count ≡ p.page_count
  pub valid : IsValid q

in_run-suc : (s n c : ℕ) → in_run s (suc n) c ≡ (if s == c then true else in_run (s + 1) n c)
in_run-suc s n c = ground arith

Marked-cons :
    (p q r : Pmm) (state : Bool) (s n : ℕ)
    → Marked p state (λ c. s == c) q
    → Marked q state (in_run (s + 1) n) r
    → Marked p state (in_run s (suc n)) r
Marked-cons p q r state s n first rest = record {
  marked = λ c. rw in_run-suc (rest.marked c ∙ both c);
  same_count = rest.same_count ∙ first.same_count;
  valid = rest.valid;
}
  where
    both :
        (c : ℕ)
        → (if in_run (s + 1) n c then state else is_used q.page_bitmap c) ≡ (
            if (if s == c then true else in_run (s + 1) n c)
            then state
            else is_used p.page_bitmap c)
    both c = rw (first.marked c) (ground arith)

mark_used-Marked :
    (s addr : ℕ) (p : Pmm)
    → addr ≡ s * 4096
    → IsValid p
    → s < p.page_count
    → (q : Pmm) × (mark_used addr p ≡ ok q) × Marked p true (λ c. s == c) q
unfolding mark_used
mark_used-Marked s addr p e valid inside =
    let frame : addr / 4096 ≡ s = omega arith in
    (
      record p { page_bitmap = set_bit p.page_bitmap s },
      ground (arith, frame),
      record {
        marked = λ c. is_used-set_bit p.page_bitmap s c (omega (arith, valid.sized));
        same_count = refl;
        valid = record {
          sized = length-set_bit p.page_bitmap s ∙ valid.sized;
          words = set_bit-Words p.page_bitmap s valid.words;
        };
      },
    )

mark_free-Marked :
    (s addr : ℕ) (p : Pmm)
    → addr ≡ s * 4096
    → IsValid p
    → s < p.page_count
    → (q : Pmm) × (mark_free addr p ≡ ok q) × Marked p false (λ c. s == c) q
unfolding mark_free
mark_free-Marked s addr p e valid inside =
    let frame : addr / 4096 ≡ s = omega arith in
    (
      record p { page_bitmap = clear_bit p.page_bitmap s },
      ground (arith, frame),
      record {
        marked = λ c. is_used-clear_bit p.page_bitmap s c (omega (arith, valid.sized));
        same_count = refl;
        valid = record {
          sized = length-clear_bit p.page_bitmap s ∙ valid.sized;
          words = clear_bit-Words p.page_bitmap s valid.words;
        };
      },
    )

mark_pages_used-Marked :
    (rounds s addr : ℕ) (p : Pmm)
    → addr ≡ s * 4096
    → IsValid p
    → (0 < rounds → s + rounds ≤ p.page_count)
    → (q : Pmm) × (mark_pages_used rounds addr p ≡ ok q) × Marked p true (in_run s rounds) q
unfolding mark_pages_used
mark_pages_used-Marked zero s addr p e valid fits =
    (p, refl, record { marked = λ c. ground arith; same_count = refl; valid = valid })
mark_pages_used-Marked (suc rounds) s addr p e valid fits =
    let (q, first, one) = mark_used-Marked s addr p e valid (omega (arith, fits (omega arith))) in
    let (r, rest, all) =
      mark_pages_used-Marked rounds (s + 1) (addr + 4096) q (omega arith) one.valid
        (λ more. omega (arith, one.same_count, fits (omega arith))) in
    (r, rw first rest, Marked-cons p q r true s rounds one all)

mark_pages_free-Marked :
    (rounds s addr : ℕ) (p : Pmm)
    → addr ≡ s * 4096
    → IsValid p
    → (0 < rounds → s + rounds ≤ p.page_count)
    → (q : Pmm) × (mark_pages_free rounds addr p ≡ ok q) × Marked p false (in_run s rounds) q
unfolding mark_pages_free
mark_pages_free-Marked zero s addr p e valid fits =
    (p, refl, record { marked = λ c. ground arith; same_count = refl; valid = valid })
mark_pages_free-Marked (suc rounds) s addr p e valid fits =
    let (q, first, one) = mark_free-Marked s addr p e valid (omega (arith, fits (omega arith))) in
    let (r, rest, all) =
      mark_pages_free-Marked rounds (s + 1) (addr + 4096) q (omega arith) one.valid
        (λ more. omega (arith, one.same_count, fits (omega arith))) in
    (r, rw first rest, Marked-cons p q r false s rounds one all)

-- The frame of `c` has a byte of the range, and all its bytes are in the range. For an empty range
-- inside a frame the first holds of that frame, as the code rounds its two ends apart.
abbrev pub touches : ℕ → ℕ → ℕ → Bool
touches base length c = leb (base / 4096) c && ltb (c * 4096) (base + length)

abbrev pub covers : ℕ → ℕ → ℕ → Bool
covers base length c = leb base (c * 4096) && leb ((c + 1) * 4096) (base + length)

pub Marked-ext :
    (p q : Pmm) (state : Bool) (f g : ℕ → Bool)
    → ((c : ℕ) → f c ≡ g c)
    → Marked p state f q
    → Marked p state g q
Marked-ext p q state f g same m = record {
  marked = λ c. rw same at (m.marked c);
  same_count = m.same_count;
  valid = m.valid;
}

or_twice : (a b s x : Bool) → (if b then s else (if a then s else x)) ≡ (if a || b then s else x)
or_twice true true s x = refl
or_twice true false s x = refl
or_twice false true s x = refl
or_twice false false s x = refl

-- Two changes to the same state, one after the other.
pub Marked-trans :
    (p q r : Pmm) (state : Bool) (f g : ℕ → Bool)
    → Marked p state f q
    → Marked q state g r
    → Marked p state (λ c. f c || g c) r
Marked-trans p q r state f g first rest = record {
  marked = λ c.
      rest.marked c
      ∙ ap (λ (x : Bool). if g c then state else x) (first.marked c)
      ∙ or_twice (f c) (g c) state (is_used p.page_bitmap c);
  same_count = rest.same_count ∙ first.same_count;
  valid = rest.valid;
}

module _ (base length : ℕ) (p : Pmm) (valid : IsValid p)
    (fits : base + length ≤ 2 ^ 64 - 4096) where
  -- A range below `page_count` is marked without a panic: the frames that it touches are used
  -- afterwards, all others keep their state.
  pub mark_range_used-Marked :
      (base + length + 4095) / 4096 ≤ p.page_count
      → (q : Pmm) × (mark_range_used base length p ≡ ok q) × Marked p true (touches base length) q
  unfolding mark_range_used align_up align_down
  mark_range_used-Marked inside =
      let s = base / 4096 in
      let e = (base + length + 4095) / 4096 in
      let down : bit_and base 0xfffffffffffff000 ≡ s * 4096 = align_down_page base (omega arith) in
      let end : ((base + length) % 2 ^ 64 + 4095) % 2 ^ 64 ≡ base + length + 4095 = omega arith in
      let up : bit_and (base + length + 4095) 0xfffffffffffff000 ≡ e * 4096 =
        align_down_page (base + length + 4095) (omega arith) in
      let rounds : (e * 4096 - s * 4096) / 4096 ≡ e - s = omega arith in
      let (q, done, m) =
        mark_pages_used-Marked (e - s) s (s * 4096) p refl valid (λ more. omega arith) in
      let same : mark_range_used base length p ≡ mark_pages_used (e - s) (s * 4096) p =
        rw (down, end, up, rounds) in
      (
        q,
        same ∙ done,
        Marked-ext p q true (in_run s (e - s)) (touches base length) (λ c. ground arith) m,
      )

  -- Only the frames that the range covers whole are freed.
  pub mark_range_free-Marked :
      (base + length) / 4096 ≤ p.page_count
      → (q : Pmm) × (mark_range_free base length p ≡ ok q) × Marked p false (covers base length) q
  unfolding mark_range_free align_up align_down
  mark_range_free-Marked inside =
      let s = (base + 4095) / 4096 in
      let e = (base + length) / 4096 in
      let start : (base + 4095) % 2 ^ 64 ≡ base + 4095 = omega arith in
      let up : bit_and (base + 4095) 0xfffffffffffff000 ≡ s * 4096 =
        align_down_page (base + 4095) (omega arith) in
      let end : (base + length) % 2 ^ 64 ≡ base + length = omega arith in
      let down : bit_and (base + length) 0xfffffffffffff000 ≡ e * 4096 =
        align_down_page (base + length) (omega arith) in
      let rounds : (e * 4096 - s * 4096) / 4096 ≡ e - s = omega arith in
      let (q, done, m) =
        mark_pages_free-Marked (e - s) s (s * 4096) p refl valid (λ more. omega arith) in
      let same : mark_range_free base length p ≡ mark_pages_free (e - s) (s * 4096) p =
        rw (start, up, end, down, rounds) in
      (
        q,
        same ∙ done,
        Marked-ext p q false (in_run s (e - s)) (covers base length) (λ c. ground arith) m,
      )
