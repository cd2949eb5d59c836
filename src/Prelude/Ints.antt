-- ===== src/Prelude/Ints.antt =====
-- C's signed int as the integers, over the native numbers, and the difference of two bytes.
use Prim.Native.Nat.{ℕ, zero, suc, ◌-◌, ◌%◌, ◌^◌}
use mathlib.Core.Path.{◌≡◌, refl}
use mathlib.Core.Bool.{Bool, true, false}
use cobj_os.Prelude.Tests.{ltb, leb, if◌then◌else◌}

-- `negsuc n` is -(n + 1).
pub data ℤ : Type 0 where
  pos : ℕ → ℤ
  negsuc : ℕ → ℤ

abbrev pub minus : ℕ → ℕ → ℤ
minus a b = if leb b a then pos (a - b) else negsuc (b - a - 1)

-- A size as an `int` of 32 bits.
abbrev pub to_int : ℕ → ℤ
to_int n = if ltb (n % 2 ^ 32) (2 ^ 31) then pos (n % 2 ^ 32) else negsuc (2 ^ 32 - 1 - n % 2 ^ 32)

abbrev pub is_zero : ℤ → Bool
is_zero (pos zero) = true
is_zero _ = false

abbrev pub is_negative : ℤ → Bool
is_negative (pos n) = false
is_negative (negsuc n) = true

pub is_zero_sound : (r : ℤ) → is_zero r ≡ true → r ≡ pos 0
is_zero_sound (pos zero) e = refl
is_zero_sound (pos (suc n)) e = cc
is_zero_sound (negsuc n) e = cc

pub is_zero_complete : (r : ℤ) → r ≡ pos 0 → is_zero r ≡ true
is_zero_complete r e = rw e refl
