-- ===== src/Rtc/Days.antt =====
-- The loops of src/arch/rtc.c over years and months, as sums of days.
use cobj_os.Prelude.{
  ℕ, zero, suc, ◌+◌, ◌-◌, ◌*◌, ◌%◌, ◌^◌, ◌≤◌, ◌<◌, ◌≡◌, refl, ap, ◌∙◌, inl, inr, Bool, true, false,
  some, arith, ltb, leb, if◌then◌else◌, Bool-cases, lt→ltb,
}
use native.Mathlib.Nat.{add-zero, add-sub_cancel_left}
use cobj_os.Rtc.{
  days_in_month, days_in_year, year_days_loop, days_since_epoch_to_year, month_days_loop, year_loop,
  month_loop,
}

year_days_loop-suc :
    (n y d : ℕ) → year_days_loop (suc n) y d ≡ year_days_loop n y d + days_in_year (y + n)
unfolding year_days_loop
year_days_loop-suc zero y d = rw add-zero
year_days_loop-suc (suc n) y d =
    let e : y + suc n ≡ y + 1 + n = omega arith in
    rw e (year_days_loop-suc n (y + 1) (d + days_in_year y))

-- One more year.
days_since-suc :
    (year : ℕ)
    → 1970 ≤ year
    → days_since_epoch_to_year (year + 1) ≡ days_since_epoch_to_year year + days_in_year year
unfolding days_since_epoch_to_year
days_since-suc year late =
    let e : year + 1 - 1970 ≡ suc (year - 1970) = omega arith in
    let e' : 1970 + (year - 1970) ≡ year = omega arith in
    rw (e, year_days_loop-suc (year - 1970) 1970 0, e')

pub year-days-bounds : (year : ℕ) → (365 ≤ days_in_year year) × (days_in_year year ≤ 366)
year-days-bounds year = ground arith

pub days_since-le :
    (n year target : ℕ)
    → 1970 ≤ year
    → year + n ≡ target
    → days_since_epoch_to_year year + 365 * n ≤ days_since_epoch_to_year target
days_since-le zero year target late e =
    let same : year ≡ target = omega arith in omega (arith, ap days_since_epoch_to_year same)
days_since-le (suc n) year target late e = omega (
  arith,
  days_since-le n (year + 1) target (omega arith) (omega arith),
  days_since-suc year late,
  (year-days-bounds year).0,
)

pub days_since-upper : (n year : ℕ) → 1970 + n ≡ year → days_since_epoch_to_year year ≤ 366 * n
unfolding days_since_epoch_to_year year_days_loop
days_since-upper zero year e = let same : year - 1970 ≡ 0 = omega arith in rw same (omega arith)
days_since-upper (suc n) year e =
    let e' : year - 1970 ≡ suc n = omega arith in
    let ih = rw (add-sub_cancel_left 1970 n) at (days_since-upper n (1970 + n) refl) in
    rw (e', year_days_loop-suc n 1970 0) (omega (arith, ih, (year-days-bounds (1970 + n)).1))

-- Day `d` of `year` is found from any earlier year, if the fuel covers the years between.
pub year_loop-day :
    (n fuel days year : ℕ) (target d : ℕ)
    → 1970 ≤ year
    → year + n ≡ target
    → target < 2 ^ 16
    → n < fuel
    → d < days_in_year target
    → days + days_since_epoch_to_year year ≡ days_since_epoch_to_year target + d
    → year_loop fuel days year ≡ some (d, target)
unfolding year_loop
year_loop-day n zero days year target d late e small enough within sum = absurd (omega arith)
year_loop-day zero (suc fuel) days year target d late e small enough within sum =
    let same : year ≡ target = omega arith in
    let here : days ≡ d = omega (arith, ap days_since_epoch_to_year same) in
    rw (same, here, lt→ltb d (days_in_year target) within)
year_loop-day (suc n) (suc fuel) days year target d late e small enough within sum =
    let after = days_since-le n (year + 1) target (omega arith) (omega arith) in
    let past : ltb days (days_in_year year) ≡ false =
      ground (arith, after, days_since-suc year late, sum) in
    let next : (year + 1) % 2 ^ 16 ≡ year + 1 = omega arith in
    rw (past, next)
      (year_loop-day n fuel (days - days_in_year year) (year + 1) target d (omega arith)
        (omega arith) small (omega arith) within
        (ground (arith, past, days_since-suc year late, sum)))

-- Every day count below the end of the 16-bit years is a day of some year.
pub year_of_day :
    (k days year : ℕ)
    → 1970 ≤ year
    → days_since_epoch_to_year year ≤ days
    → days < days_since_epoch_to_year year + 365 * k
    → (d : ℕ) × (target : ℕ) × (year ≤ target)
      × (target < year + k)
      × (d < days_in_year target)
      × (days_since_epoch_to_year target + d ≡ days)
year_of_day zero days year late from to = absurd (omega arith)
year_of_day (suc k) days year late from to =
    elim (Bool-cases (ltb days (days_since_epoch_to_year (year + 1)))) [
      | inl here ↦ (
        days - days_since_epoch_to_year year,
        year,
        omega arith,
        omega arith,
        ground (arith, here, days_since-suc year late),
        omega arith,
      )
      | inr later ↦
          let (d, target, low, high, within, sum) =
            year_of_day k days (year + 1) (omega arith) (ground (arith, later))
              (omega (arith, days_since-suc year late, (year-days-bounds year).0)) in
          (d, target, omega arith, omega arith, within, sum)
    ]

-- Days before month `m + 1`.
pub days_before_month : Bool → ℕ → ℕ
unfolding month_days_loop
days_before_month leap m = month_days_loop m leap 1 0

month_days_loop-suc :
    (n m d : ℕ) (leap : Bool)
    → month_days_loop (suc n) leap m d ≡ month_days_loop n leap m d + days_in_month leap (m + n - 1)
unfolding month_days_loop
month_days_loop-suc zero m d leap = rw add-zero
month_days_loop-suc (suc n) m d leap =
    let e : m + suc n - 1 ≡ m + 1 + n - 1 = omega arith in
    rw e (month_days_loop-suc n (m + 1) (d + days_in_month leap (m - 1)) leap)

pub days_before_month_0 : (leap : Bool) → days_before_month leap 0 ≡ 0
unfolding days_before_month
days_before_month_0 leap = refl

month_days_loop-acc :
    (n m d : ℕ) (leap : Bool) → month_days_loop n leap m d ≡ d + month_days_loop n leap m 0
unfolding month_days_loop
month_days_loop-acc zero m d leap = omega arith
month_days_loop-acc (suc n) m d leap = omega (
  arith,
  month_days_loop-acc n (m + 1) (d + days_in_month leap (m - 1)) leap,
  month_days_loop-acc n (m + 1) (0 + days_in_month leap (m - 1)) leap,
)

pub days_before_month-acc :
    (m d : ℕ) (leap : Bool) → month_days_loop m leap 1 d ≡ d + days_before_month leap m
unfolding days_before_month
days_before_month-acc m d leap = month_days_loop-acc m 1 d leap

pub days_before_month-suc :
    (leap : Bool) (m : ℕ)
    → days_before_month leap (suc m) ≡ days_before_month leap m + days_in_month leap m
unfolding days_before_month
days_before_month-suc leap m =
    let e : 1 + m - 1 ≡ m = omega arith in
    month_days_loop-suc m 1 0 leap
    ∙ ap (λ (k : ℕ). month_days_loop m leap 1 0 + days_in_month leap k) e

pub days_before_month_12 : (leap : Bool) → days_before_month leap 12 ≡ (if leap then 366 else 365)
unfolding days_before_month
days_before_month_12 true = refl
days_before_month_12 false = refl

pub days_before_month_mono :
    (n m target : ℕ) (leap : Bool)
    → m + n ≡ target
    → days_before_month leap m ≤ days_before_month leap target
days_before_month_mono zero m target leap e =
    let same : m ≡ target = omega arith in omega (arith, ap (days_before_month leap) same)
days_before_month_mono (suc n) m target leap e = omega (
  arith,
  days_before_month_mono n (suc m) target leap (omega arith),
  days_before_month-suc leap m,
)

-- Day `d` of month `target + 1` is found from any earlier month.
pub month_loop-day :
    (n fuel days m target d : ℕ) (leap : Bool)
    → m + n ≡ target
    → target < 12
    → n < fuel
    → d < days_in_month leap target
    → days + days_before_month leap m ≡ days_before_month leap target + d
    → month_loop fuel leap days (m + 1) ≡ some (d, target + 1)
unfolding month_loop
month_loop-day n zero days m target d leap e small enough within sum = absurd (omega arith)
month_loop-day zero (suc fuel) days m target d leap e small enough within sum =
    let same : m ≡ target = omega arith in
    let here : days ≡ d = omega (arith, ap (days_before_month leap) same) in
    let index : m + 1 - 1 ≡ m = omega arith in
    let last : leb (days_in_month leap target) d ≡ false = ground arith in
    rw (index, same, here, last)
month_loop-day (suc n) (suc fuel) days m target d leap e small enough within sum =
    let index : m + 1 - 1 ≡ m = omega arith in
    let next : (m + 1 + 1) % 2 ^ 8 ≡ suc m + 1 = omega arith in
    let after = days_before_month_mono n (suc m) target leap (omega arith) in
    let past : leb (days_in_month leap m) days ≡ true =
      ground (arith, after, days_before_month-suc leap m, sum) in
    rw (index, past, next)
      (month_loop-day n fuel (days - days_in_month leap m) (suc m) target d leap (omega arith) small
        (omega arith) within (ground (arith, past, days_before_month-suc leap m, sum)))

-- Every day of a year is a day of some month.
pub month_of_day :
    (k days m : ℕ) (leap : Bool)
    → m + k ≡ 12
    → days_before_month leap m ≤ days
    → days < days_before_month leap 12
    → (d : ℕ) × (target : ℕ) × (target < 12)
      × (d < days_in_month leap target)
      × (days_before_month leap target + d ≡ days)
month_of_day zero days m leap e from to =
    let last : m ≡ 12 = omega arith in absurd (omega (arith, ap (days_before_month leap) last))
month_of_day (suc k) days m leap e from to =
    elim (Bool-cases (ltb days (days_before_month leap (suc m)))) [
      | inl here ↦ (
        days - days_before_month leap m,
        m,
        omega arith,
        ground (arith, here, days_before_month-suc leap m),
        omega arith,
      )
      | inr later ↦ month_of_day k days (suc m) leap (omega arith) (ground (arith, later)) to
    ]
