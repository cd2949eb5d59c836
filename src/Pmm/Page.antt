-- ===== src/Pmm/Page.antt =====
-- `pmm_alloc_page` of src/mm/pmm.c against the set of page frames in use.
use cobj_os.Prelude.{
  ℕ, zero, suc, ◌+◌, ◌-◌, ◌*◌, ◌/◌, ◌%◌, ◌^◌, ◌≤◌, ◌<◌, bit_or, ◌≡◌, refl, ap, ◌∙◌, ◌≢◌, ◌⊎◌, inl,
  inr, true, false, arith, ◌==◌, leb, if◌then◌else◌, Bool-cases, length, get_or, set,
}
use native.Mathlib.Nat.{div-add-mod, mod-lt, mul-add-mod_self_left, mod-eq_of_lt}
use cobj_os.Prelude.Bits.{bit_at, bit_at-lt-two}
use cobj_os.Prelude.Outcome.{ok, panic, out_of_memory, transfer}
use cobj_os.Pmm.{Pmm, word_count, is_used, set_bit, ctz, alloc_page_loop, alloc_page}
use cobj_os.Pmm.Bitmap.{Words, is_used-frame_bit, is_used-set_bit, set_bit-Words, length-set_bit}
use cobj_os.Pmm.FirstClear.{first_clear, full_or_clear, first_clear-least}

-- The bitmap has a word for every 64 frames.
pub record IsValid (p : Pmm) : Type 0 where
  pub sized : length p.page_bitmap ≡ word_count p
  pub words : Words p.page_bitmap

-- Frame `b` becomes used, every other frame keeps its state.
pub record Allocated (p : Pmm) (addr : ℕ) (q : Pmm) : Type 0 where
  pub aligned : addr % 4096 ≡ 0
  pub inside : addr / 4096 < p.page_count
  pub was_free : is_used p.page_bitmap (addr / 4096) ≡ false
  pub marked :
      (c : ℕ)
      → is_used q.page_bitmap c ≡ (if addr / 4096 == c then true else is_used p.page_bitmap c)
  pub same_count : q.page_count ≡ p.page_count
  pub valid : IsValid q

module _ (p : Pmm) (valid : IsValid p) where
  pub frame_in_bitmap : (b : ℕ) → b < p.page_count → b / 64 < length p.page_bitmap
  frame_in_bitmap b inside = omega (arith, valid.sized)

  set_bit-Allocated :
      (b w : ℕ)
      → b < p.page_count
      → is_used p.page_bitmap b ≡ false
      → Allocated p
          (b * 4096)
          (record p { page_bitmap = set_bit p.page_bitmap b; last_alloc_word = w })
  set_bit-Allocated b w inside clear =
      let e : b * 4096 / 4096 ≡ b = omega arith in
      record {
        aligned = omega arith;
        inside = omega arith;
        was_free = rw e clear;
        marked = λ c. rw e (is_used-set_bit p.page_bitmap b c (frame_in_bitmap b inside));
        same_count = refl;
        valid = record {
          sized = length-set_bit p.page_bitmap b ∙ valid.sized;
          words = set_bit-Words p.page_bitmap b valid.words;
        };
      }

  -- One round of the loop on a word that is not full: its first clear bit becomes a used frame.
  take_frame-Allocated :
      (word bit g : ℕ)
      → g ≡ word * 64 + bit
      → bit ≡ first_clear (get_or p.page_bitmap word 0)
      → (get_or p.page_bitmap word 0 == 0xffffffffffffffff) ≡ false
      → g < p.page_count
      → Allocated p (g * 4096) (record p {
        page_bitmap = set p.page_bitmap word (bit_or (get_or p.page_bitmap word 0) (2 ^ bit));
        last_alloc_word = word;
      })
  unfolding set_bit
  take_frame-Allocated word bit g whole first part inside =
      let (lt, clear) = full_or_clear (get_or p.page_bitmap word 0) (valid.words word) part in
      let in_word : g / 64 ≡ word = omega (arith, first) in
      let at_bit : g % 64 ≡ bit = omega (arith, first) in
      let unused : is_used p.page_bitmap g ≡ false =
        rw (is_used-frame_bit p.page_bitmap g, in_word, at_bit, first, clear) refl in
      rw (in_word, at_bit) at (set_bit-Allocated g word inside unused)

  pub alloc_page_loop-Allocated :
      (rounds i : ℕ) {addr : ℕ} {q : Pmm}
      → rounds + i ≡ word_count p
      → alloc_page_loop rounds i (word_count p) p ≡ ok (addr, q)
      → Allocated p addr q
  unfolding alloc_page_loop first_clear
  alloc_page_loop-Allocated zero i e done = cc
  alloc_page_loop-Allocated (suc rounds) i {addr} {q} e done =
      let words = word_count p in
      let word = (p.last_alloc_word + i) % words in
      let value = get_or p.page_bitmap word 0 in
      let g = word * 64 + first_clear value in
      elim (Bool-cases (value == 0xffffffffffffffff)) [
        | inl full ↦ alloc_page_loop-Allocated rounds (i + 1) (omega arith) (rw full at done)
        | inr part ↦ elim (Bool-cases (leb p.page_count g)) [
          | inl past ↦
              alloc_page_loop-Allocated rounds (i + 1) (omega arith) (rw (part, past) at done)
          | inr within ↦
              transfer (λ (r : ℕ × Pmm). Allocated p r.0 r.1) (rw (part, within) at done)
                (take_frame-Allocated word (first_clear value) g refl refl part
                  (ground (arith, within)))
        ]
      ]

-- A free frame that some remaining round looks at is enough for the loop to return.
module _ (p : Pmm) (valid : IsValid p) (b : ℕ) (inside : b < p.page_count)
    (clear : is_used p.page_bitmap b ≡ false) where
  clear_bit_at : bit_at (get_or p.page_bitmap (b / 64) 0) (b % 64) ≡ 0
  clear_bit_at = ground (
    arith,
    is_used-frame_bit p.page_bitmap b,
    bit_at-lt-two (get_or p.page_bitmap (b / 64) 0) (b % 64),
  )

  -- The word of the free frame is not full, and its first clear bit is at most that frame's.
  word_of_free :
      (word : ℕ)
      → word ≡ b / 64
      → let value = get_or p.page_bitmap word 0 in
        (first_clear value ≤ b % 64) × ((value == 0xffffffffffffffff) ≡ false)
  word_of_free word e = rw e (
      first_clear-least (get_or p.page_bitmap (b / 64) 0) (b % 64) (valid.words (b / 64))
        (omega arith) clear_bit_at)

  alloc_page_loop-total :
      (rounds i k : ℕ)
      → i ≤ k
      → k < i + rounds
      → (p.last_alloc_word + k) % word_count p ≡ b / 64
      → (addr : ℕ) × (q : Pmm) × (alloc_page_loop rounds i (word_count p) p ≡ ok (addr, q))
  unfolding alloc_page_loop first_clear
  alloc_page_loop-total zero i k from to seen = absurd (omega arith)
  alloc_page_loop-total (suc rounds) i k from to seen =
      let words = word_count p in
      let word = (p.last_alloc_word + i) % words in
      let value = get_or p.page_bitmap word 0 in
      let g = word * 64 + first_clear value in
      let here : i ≡ k → word ≡ b / 64 =
        λ e. ap (λ (t : ℕ). (p.last_alloc_word + t) % words) e ∙ seen in
      let next : i ≢ k
          → (addr : ℕ) × (q : Pmm) × (alloc_page_loop rounds (i + 1) words p ≡ ok (addr, q)) =
        λ ne. alloc_page_loop-total rounds (i + 1) k (omega arith) (omega arith) seen in
      elim (Bool-cases (value == 0xffffffffffffffff)) [
        | inl full ↦ rw full (next (λ e. cc (full, (word_of_free word (here e)).1)))
        | inr part ↦ elim (Bool-cases (leb p.page_count g)) [
          | inl past ↦
              rw (part, past)
                (next (λ e. ground (arith, past, here e, (word_of_free word (here e)).0)))
          | inr within ↦
              rw (part, within)
                (
                  g * 4096,
                  record p {
                    page_bitmap = set p.page_bitmap word (bit_or value (2 ^ first_clear value));
                    last_alloc_word = word;
                  },
                  refl,
                )
        ]
      ]

-- Some round of the circular search looks at word `t`.
round_of : (last words t : ℕ) → t < words → (k : ℕ) × (k < words) × ((last + k) % words ≡ t)
round_of last words t lt =
    let q = last / words in
    let r = last % words in
    let parts : words * q + r ≡ last = div-add-mod last words in
    let bounded : r < words = mod-lt last (omega arith) in
    let back : (n : ℕ) → (words * n + t) % words ≡ t =
      λ n. mul-add-mod_self_left words n t ∙ mod-eq_of_lt lt in
    elim (Bool-cases (leb r t)) [
      | inl low ↦
          let e : last + (t - r) ≡ words * q + t = ground (arith, low) in
          (t - r, ground (arith, low), rw e (back q))
      | inr high ↦
          let e : last + (words + t - r) ≡ words * (q + 1) + t = ground (arith, high) in
          (words + t - r, ground (arith, high), rw e (back (q + 1)))
    ]

-- If any frame is free, `pmm_alloc_page` returns; what it returns is an aligned frame below
-- `page_count` that was free and is now used, and every other frame keeps its state.
pub alloc_page-Allocated :
    (p : Pmm) (b : ℕ)
    → IsValid p
    → b < p.page_count
    → is_used p.page_bitmap b ≡ false
    → (addr : ℕ) × (q : Pmm) × (alloc_page p ≡ ok (addr, q)) × Allocated p addr q
unfolding alloc_page
alloc_page-Allocated p b valid inside clear =
    let (k, lt, seen) = round_of p.last_alloc_word (word_count p) (b / 64) (omega arith) in
    let (addr, q, done) =
      alloc_page_loop-total p valid b inside clear (word_count p) 0 k (omega arith) (omega arith)
        seen in
    (addr, q, done, alloc_page_loop-Allocated p valid (word_count p) 0 (omega arith) done)

pub alloc_page_ok :
    (p : Pmm) {addr : ℕ} {q : Pmm} → IsValid p → alloc_page p ≡ ok (addr, q) → Allocated p addr q
unfolding alloc_page
alloc_page_ok p valid done = alloc_page_loop-Allocated p valid (word_count p) 0 (omega arith) done

alloc_page_loop-cases :
    (rounds i words : ℕ) (p : Pmm)
    → (alloc_page_loop rounds i words p ≡ panic out_of_memory)
      ⊎ ((addr : ℕ) × (q : Pmm) × (alloc_page_loop rounds i words p ≡ ok (addr, q)))
unfolding alloc_page_loop
alloc_page_loop-cases zero i words p = inl refl
alloc_page_loop-cases (suc rounds) i words p =
    let value = get_or p.page_bitmap ((p.last_alloc_word + i) % words) 0 in
    let g = (p.last_alloc_word + i) % words * 64 + ctz 64 (2 ^ 64 - 1 - value) in
    let rest = alloc_page_loop-cases rounds (i + 1) words p in
    elim (Bool-cases (value == 0xffffffffffffffff)) [
      | inl full ↦ rw full rest
      | inr part ↦ elim (Bool-cases (leb p.page_count g)) [
        | inl past ↦ rw (part, past) rest
        | inr within ↦ rw (part, within) (inr (_, _, refl))
      ]
    ]

-- With every frame below `page_count` in use, `pmm_alloc_page` panics.
alloc_page-full :
    (p : Pmm)
    → IsValid p
    → ((b : ℕ) → b < p.page_count → is_used p.page_bitmap b ≡ true)
    → alloc_page p ≡ panic out_of_memory
unfolding alloc_page
alloc_page-full p valid full = elim (alloc_page_loop-cases (word_count p) 0 (word_count p) p) [
  | inl e ↦ e
  | inr (addr, q, done) ↦
      let got = alloc_page_loop-Allocated p valid (word_count p) 0 (omega arith) done in
      absurd (cc (full (addr / 4096) got.inside, got.was_free))
]
