-- ===== src/Prelude/Bits.antt =====
-- The kernel's words bit by bit: `|`, `&`, `~`, masks and shifts on the native numbers.
use Prim.Native.Nat.{
  ℕ, zero, suc, ◌+◌, ◌-◌, ◌*◌, ◌/◌, ◌%◌, ◌^◌, ◌≤◌, ◌<◌, min, max, digits, bitwise, bit_and, bit_or,
  bit_and-bitwise, bit_or-bitwise,
}
use mathlib.Core.Path.{◌≡◌, refl, ap, sym, ◌∙◌}
use mathlib.Core.Logic.{◌≢◌}
use native.Mathlib.Omega.{arith}
use native.Mathlib.Nat.{pow-suc, one-le-pow, div-one, div-div-eq-div-mul}

-- Bit number `k` of `a`.
unfoldable pub bit_at : ℕ → ℕ → ℕ
bit_at a zero = a % 2
bit_at a (suc k) = bit_at (a / 2) k

-- The digit recursion gives the same number on any two fuels that reach its argument, so one step of
-- it splits off the lowest digit.
module _ (rest : ℕ → ℕ) (digit : ℕ → ℕ → ℕ) where
  digits_enough : (v w k l : ℕ) → v ≤ k → v ≤ l → digits rest digit k v w ≡ digits rest digit l v w
  digits_enough zero w zero zero h h' = refl
  digits_enough zero w zero (suc l) h h' = refl
  digits_enough zero w (suc k) zero h h' = refl
  digits_enough zero w (suc k) (suc l) h h' = refl
  digits_enough (suc v) w zero l h h' = absurd (omega arith)
  digits_enough (suc v) w (suc k) zero h h' = absurd (omega arith)
  digits_enough (suc v) w (suc k) (suc l) h h' =
      rw (digits_enough (suc v / 2) (w / 2) k l (omega arith) (omega arith))

  low_digit :
      (v w : ℕ)
      → digits rest digit (suc v) (suc v) w
        ≡ digits rest digit (suc v / 2) (suc v / 2) (w / 2) * 2 + digit (suc v % 2) (w % 2)
  low_digit v w = rw (digits_enough (suc v / 2) (w / 2) v (suc v / 2) (omega arith) (omega arith))

bit_or-half : (v w : ℕ) → bit_or v w ≡ 2 * bit_or (v / 2) (w / 2) + max (v % 2) (w % 2)
bit_or-half v w = rw (bit_or-bitwise v w, bit_or-bitwise (v / 2) (w / 2)) (halved v)
  where
    halved :
        (v : ℕ)
        → bitwise (λ w. w) max v w ≡ 2 * bitwise (λ w. w) max (v / 2) (w / 2) + max (v % 2) (w % 2)
    halved zero = omega arith
    halved (suc v) = omega (arith, low_digit (λ w. w) max v w)

bit_or-zero : (n a : ℕ) → a ≤ n → bit_or a 0 ≡ a
bit_or-zero n zero h = refl
bit_or-zero zero (suc a) h = absurd (omega arith)
bit_or-zero (suc n) (suc a) h =
    omega (arith, bit_or-half (suc a) 0, bit_or-zero n (suc a / 2) (omega arith))

bit_and-half : (v w : ℕ) → bit_and v w ≡ 2 * bit_and (v / 2) (w / 2) + min (v % 2) (w % 2)
bit_and-half v w = rw (bit_and-bitwise v w, bit_and-bitwise (v / 2) (w / 2)) (halved v)
  where
    halved :
        (v : ℕ)
        → bitwise (λ w. zero) min v w
          ≡ 2 * bitwise (λ w. zero) min (v / 2) (w / 2) + min (v % 2) (w % 2)
    halved zero = omega arith
    halved (suc v) = omega (arith, low_digit (λ w. zero) min v w)

pub bit_at-lt-two : (a k : ℕ) → bit_at a k < 2
unfolding bit_at
bit_at-lt-two a zero = omega arith
bit_at-lt-two a (suc k) = bit_at-lt-two (a / 2) k

pub bit_at-bit_or : (a b k : ℕ) → bit_at (bit_or a b) k ≡ max (bit_at a k) (bit_at b k)
unfolding bit_at
bit_at-bit_or a b zero = omega (arith, bit_or-half a b)
bit_at-bit_or a b (suc k) =
    let e : bit_or a b / 2 ≡ bit_or (a / 2) (b / 2) = omega (arith, bit_or-half a b) in
    rw e (bit_at-bit_or (a / 2) (b / 2) k)

pub bit_at-bit_and : (a b k : ℕ) → bit_at (bit_and a b) k ≡ min (bit_at a k) (bit_at b k)
unfolding bit_at
bit_at-bit_and a b zero = omega (arith, bit_and-half a b)
bit_at-bit_and a b (suc k) =
    let e : bit_and a b / 2 ≡ bit_and (a / 2) (b / 2) = omega (arith, bit_and-half a b) in
    rw e (bit_at-bit_and (a / 2) (b / 2) k)

pub bit_at-zero : (k : ℕ) → bit_at 0 k ≡ 0
unfolding bit_at
bit_at-zero zero = refl
bit_at-zero (suc k) = bit_at-zero k

pub two-pow-suc : (k : ℕ) → 2 ^ suc k ≡ 2 * 2 ^ k
two-pow-suc k = omega (arith, pow-suc 2 k)

pub two-pow-lt : (k n : ℕ) → k < n → 2 ^ k < 2 ^ n
two-pow-lt zero zero h = absurd (omega arith)
two-pow-lt zero (suc n) h = omega (arith, two-pow-suc n, one-le-pow n 2)
two-pow-lt (suc k) zero h = absurd (omega arith)
two-pow-lt (suc k) (suc n) h =
    omega (arith, two-pow-suc n, two-pow-suc k, two-pow-lt k n (omega arith))

pub one-le-two_pow : (k : ℕ) → 1 ≤ 2 ^ k
one-le-two_pow k = one-le-pow k 2 (omega arith)

-- `|` of a multiple of 2 ^ k and a number below adds them.
pub bit_or-low : (k q r : ℕ) → r < 2 ^ k → bit_or (q * 2 ^ k) r ≡ q * 2 ^ k + r
bit_or-low zero q r h =
    let e : r ≡ 0 = omega arith in rw e (omega (arith, bit_or-zero (q * 2 ^ 0) (q * 2 ^ 0)))
bit_or-low (suc k) q r h =
    let p : 2 ^ suc k ≡ 2 * 2 ^ k = two-pow-suc k in
    let twice : q * 2 ^ suc k ≡ 2 * (q * 2 ^ k) = omega (arith, ap (λ (t : ℕ). q * t) p) in
    let half : q * 2 ^ suc k / 2 ≡ q * 2 ^ k = omega (arith, twice) in
    let ih : bit_or (q * 2 ^ suc k / 2) (r / 2) ≡ q * 2 ^ k + r / 2 =
      rw half (bit_or-low k q (r / 2) (omega (arith, p))) in
    omega (arith, bit_or-half (q * 2 ^ suc k) r, ih, twice)

-- `1 << k` has bit `k` alone.
pub bit_at-pow_self : (k : ℕ) → bit_at (2 ^ k) k ≡ 1
unfolding bit_at
bit_at-pow_self zero = refl
bit_at-pow_self (suc k) =
    let e : 2 ^ suc k / 2 ≡ 2 ^ k = omega (arith, two-pow-suc k) in rw e (bit_at-pow_self k)

pub bit_at-pow_ne : (k j : ℕ) → k ≢ j → bit_at (2 ^ k) j ≡ 0
unfolding bit_at
bit_at-pow_ne zero zero h = absurd (h refl)
bit_at-pow_ne zero (suc j) h = bit_at-zero j
bit_at-pow_ne (suc k) zero h = omega (arith, two-pow-suc k)
bit_at-pow_ne (suc k) (suc j) h =
    let e : 2 ^ suc k / 2 ≡ 2 ^ k = omega (arith, two-pow-suc k) in
    rw e (bit_at-pow_ne k j (λ p. h (ap suc p)))

-- `~a` in a word of `n` bits.
pub bit_at-complement : (n a k : ℕ) → a < 2 ^ n → k < n → bit_at (2 ^ n - 1 - a) k + bit_at a k ≡ 1
unfolding bit_at
bit_at-complement zero a k h lt = absurd (omega arith)
bit_at-complement (suc n) a zero h lt = omega (arith, two-pow-suc n)
bit_at-complement (suc n) a (suc k) h lt =
    let e : (2 ^ suc n - 1 - a) / 2 ≡ 2 ^ n - 1 - a / 2 = omega (arith, two-pow-suc n) in
    rw e (bit_at-complement n (a / 2) k (omega (arith, two-pow-suc n)) (omega arith))

-- A word is its bits.
eq_of_bits :
    (n a b : ℕ) → a < 2 ^ n → b < 2 ^ n → ((k : ℕ) → k < n → bit_at a k ≡ bit_at b k) → a ≡ b
unfolding bit_at
eq_of_bits zero a b p q same = omega arith
eq_of_bits (suc n) a b p q same =
    let halves : a / 2 ≡ b / 2 =
      eq_of_bits n (a / 2) (b / 2) (omega (arith, two-pow-suc n)) (omega (arith, two-pow-suc n))
        (λ k lt. same (suc k) (omega arith)) in
    omega (arith, halves, same 0 (omega arith))

pub bit_or-lt : (n a b : ℕ) → a < 2 ^ n → b < 2 ^ n → bit_or a b < 2 ^ n
bit_or-lt zero a b p q =
    let e : a ≡ 0 = omega arith in let e' : b ≡ 0 = omega arith in rw (e, e') (omega arith)
bit_or-lt (suc n) a b p q = omega (
  arith,
  bit_or-half a b,
  two-pow-suc n,
  bit_or-lt n (a / 2) (b / 2) (omega (arith, two-pow-suc n)) (omega (arith, two-pow-suc n)),
)

bit_and-zero : (n a : ℕ) → a ≤ n → bit_and a 0 ≡ 0
bit_and-zero n zero h = refl
bit_and-zero zero (suc a) h = absurd (omega arith)
bit_and-zero (suc n) (suc a) h =
    omega (arith, bit_and-half (suc a) 0, bit_and-zero n (suc a / 2) (omega arith))

pub bit_and-le : (n a b : ℕ) → a ≤ n → bit_and a b ≤ a
bit_and-le n zero b h = omega (arith, bit_and-half 0 b, bit_and-bitwise 0 b)
bit_and-le zero (suc a) b h = absurd (omega arith)
bit_and-le (suc n) (suc a) b h =
    omega (arith, bit_and-half (suc a) b, bit_and-le n (suc a / 2) (b / 2) (omega arith))

-- A test of one bit, `a & (1 << k)`.
pub bit_and-pow : (a k : ℕ) → bit_and a (2 ^ k) ≡ bit_at a k * 2 ^ k
unfolding bit_at
bit_and-pow a zero = omega (arith, bit_and-half a 1, bit_and-zero (a / 2) (a / 2) (omega arith))
bit_and-pow a (suc k) =
    let e : 2 ^ suc k / 2 ≡ 2 ^ k = omega (arith, two-pow-suc k) in
    let ih : bit_and (a / 2) (2 ^ suc k / 2) ≡ bit_at (a / 2) k * 2 ^ k =
      rw e (bit_and-pow (a / 2) k) in
    omega (
      arith,
      bit_and-half a (2 ^ suc k),
      two-pow-suc k,
      ih,
      ap (λ (t : ℕ). bit_at (a / 2) k * t) (two-pow-suc k),
    )

-- `a & (2 ^ k - 1)` is the remainder: first with the quotient and the remainder given.
low_mask_parts : (k q r : ℕ) → r < 2 ^ k → bit_and (q * 2 ^ k + r) (2 ^ k - 1) ≡ r
low_mask_parts zero q r h =
    let e : r ≡ 0 = omega arith in rw e (bit_and-zero (q * 2 ^ 0 + 0) (q * 2 ^ 0 + 0) (omega arith))
low_mask_parts (suc k) q r h =
    let p : 2 ^ suc k ≡ 2 * 2 ^ k = two-pow-suc k in
    let twice : q * 2 ^ suc k ≡ 2 * (q * 2 ^ k) = omega (arith, ap (λ (t : ℕ). q * t) p) in
    let low : (q * 2 ^ suc k + r) / 2 ≡ q * 2 ^ k + r / 2 = omega (arith, twice) in
    let mask : (2 ^ suc k - 1) / 2 ≡ 2 ^ k - 1 = omega (arith, p) in
    let ih : bit_and ((q * 2 ^ suc k + r) / 2) ((2 ^ suc k - 1) / 2) ≡ r / 2 =
      rw (low, mask) (low_mask_parts k q (r / 2) (omega (arith, p))) in
    omega (arith, bit_and-half (q * 2 ^ suc k + r) (2 ^ suc k - 1), ih, p, twice, one-le-pow k 2)

pub bit_and-low_mask : (k a : ℕ) → bit_and a (2 ^ k - 1) ≡ a % 2 ^ k
bit_and-low_mask k a =
    let whole : a / 2 ^ k * 2 ^ k + a % 2 ^ k ≡ a = grind (arith, one-le-pow k 2) in
    let fits : a % 2 ^ k < 2 ^ k = grind (arith, one-le-pow k 2) in
    rw whole at (low_mask_parts k (a / 2 ^ k) (a % 2 ^ k) fits)

-- `a & ((2 ^ m - 1) << k)` drops the low `k` bits of an `m + k`-bit word.
pub bit_and-high_mask : (m k a : ℕ) → bit_and a ((2 ^ m - 1) * 2 ^ k) ≡ a / 2 ^ k % 2 ^ m * 2 ^ k
bit_and-high_mask m zero a =
    let e : (2 ^ m - 1) * 2 ^ 0 ≡ 2 ^ m - 1 = omega arith in
    let d : a / 2 ^ 0 ≡ a = div-one a in rw (e, d) (omega (arith, bit_and-low_mask m a))
bit_and-high_mask m (suc k) a =
    let p : 2 ^ suc k ≡ 2 * 2 ^ k = two-pow-suc k in
    let mask : (2 ^ m - 1) * 2 ^ suc k ≡ 2 * ((2 ^ m - 1) * 2 ^ k) =
      omega (arith, ap (λ (t : ℕ). (2 ^ m - 1) * t) p) in
    let half : (2 ^ m - 1) * 2 ^ suc k / 2 ≡ (2 ^ m - 1) * 2 ^ k = omega (arith, mask) in
    let shift : a / 2 ^ suc k ≡ a / 2 / 2 ^ k =
      ap (λ (t : ℕ). a / t) p ∙ sym (div-div-eq-div-mul a 2 (2 ^ k)) in
    let ih : bit_and (a / 2) ((2 ^ m - 1) * 2 ^ suc k / 2) ≡ a / 2 ^ suc k % 2 ^ m * 2 ^ k =
      rw (half, shift) (bit_and-high_mask m k (a / 2)) in
    omega (
      arith,
      bit_and-half a ((2 ^ m - 1) * 2 ^ suc k),
      mask,
      ih,
      ap (λ (t : ℕ). a / 2 ^ suc k % 2 ^ m * t) p,
    )

-- Alignment of a 64-bit address: `x & ~0xfff`, and the other masks of the kernel.
pub align_down_page : (a : ℕ) → a < 2 ^ 64 → bit_and a 0xfffffffffffff000 ≡ a / 4096 * 4096
align_down_page a h = omega (arith, bit_and-high_mask 52 12 a)

pub align_down_sector : (a : ℕ) → a < 2 ^ 64 → bit_and a 0xfffffffffffffe00 ≡ a / 512 * 512
align_down_sector a h = omega (arith, bit_and-high_mask 55 9 a)

pub align_down_eight : (a : ℕ) → a < 2 ^ 64 → bit_and a 0xfffffffffffffff8 ≡ a / 8 * 8
align_down_eight a h = omega (arith, bit_and-high_mask 61 3 a)
