-- ===== src/Pmm/FirstClear.antt =====
-- The first clear bit of a word, `__builtin_ctzll(~page_bitmap[word])` in src/mm/pmm.c.
use cobj_os.Prelude.{
  ℕ, zero, suc, ◌-◌, ◌/◌, ◌%◌, ◌^◌, ◌≤◌, ◌<◌, ◌≡◌, inl, inr, false, arith, ◌==◌, Bool-cases,
}
use cobj_os.Prelude.Bits.{bit_at, bit_at-complement, bit_at-zero, two-pow-suc}
use cobj_os.Pmm.{ctz}

ctz-le : (n x : ℕ) → ctz n x ≤ n
unfolding ctz
ctz-le zero x = omega arith
ctz-le (suc n) x = ground (arith, ctz-le n (x / 2))

ctz-one : (n x : ℕ) → ctz n x < n → bit_at x (ctz n x) ≡ 1
unfolding ctz bit_at
ctz-one zero x h = absurd (omega arith)
ctz-one (suc n) x h = elim (Bool-cases (x % 2 == 1)) [
  | inl e ↦ rw e (ground arith)
  | inr e ↦ let shorter : ctz n (x / 2) < n = ground (arith, e) in rw e (ctz-one n (x / 2) shorter)
]

ctz-least : (n x j : ℕ) → j < n → bit_at x j ≡ 1 → ctz n x ≤ j
unfolding ctz bit_at
ctz-least zero x j h one = absurd (omega arith)
ctz-least (suc n) x zero h one = ground arith
ctz-least (suc n) x (suc j) h one = ground (arith, ctz-least n (x / 2) j)

ctz-lt : (n x : ℕ) → x < 2 ^ n → 0 < x → ctz n x < n
unfolding ctz
ctz-lt zero x h pos = absurd (omega arith)
ctz-lt (suc n) x h pos = ground (arith, ctz-lt n (x / 2), two-pow-suc n)

-- The word's first clear bit, when the word is not full.
unfoldable pub first_clear : ℕ → ℕ
first_clear value = ctz 64 (2 ^ 64 - 1 - value)

pub full_or_clear :
    (value : ℕ)
    → value < 2 ^ 64
    → (value == 0xffffffffffffffff) ≡ false
    → (first_clear value < 64) × (bit_at value (first_clear value) ≡ 0)
unfolding first_clear
full_or_clear value small part =
    let x : ℕ = 2 ^ 64 - 1 - value in
    let pos : 0 < x = ground (arith, part) in
    let lt : ctz 64 x < 64 = ctz-lt 64 x (omega arith) pos in
    (lt, omega (arith, bit_at-complement 64 value (ctz 64 x) small lt, ctz-one 64 x lt))

pub first_clear-least :
    (value j : ℕ)
    → value < 2 ^ 64
    → j < 64
    → bit_at value j ≡ 0
    → (first_clear value ≤ j) × ((value == 0xffffffffffffffff) ≡ false)
unfolding first_clear
first_clear-least value j small lt clear =
    let x : ℕ = 2 ^ 64 - 1 - value in
    let one : bit_at x j ≡ 1 = omega (arith, bit_at-complement 64 value j small lt) in
    (
      ctz-least 64 x j lt one,
      elim (Bool-cases (value == 0xffffffffffffffff)) [
        | inl full ↦
            let none_left : x ≡ 0 = ground (arith, full) in
            absurd (omega (arith, bit_at-zero j, rw none_left at one))
        | inr part ↦ part
      ],
    )
