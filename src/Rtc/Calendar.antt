-- ===== src/Rtc/Calendar.antt =====
-- `rtc_to_epoch` and `epoch_to_rtc` of src/arch/rtc.c are inverse to each other.
use cobj_os.Prelude.{
  ℕ, zero, suc, ◌+◌, ◌-◌, ◌*◌, ◌/◌, ◌%◌, ◌^◌, ◌≤◌, ◌<◌, ◌≡◌, refl, sym, ap, ◌∙◌, Bool, true, false,
  some, List, [], ◌∷◌, get_or, arith,
}
use cobj_os.Prelude.Bits.{bit_and-low_mask}
use cobj_os.Rtc.{
  RtcTime, is_leap, month_row, days_in_month, days_in_year, days_since_epoch_to_year, year_loop,
  month_loop, rtc_to_epoch, epoch_to_rtc, bcd_to_bin,
}
use cobj_os.Rtc.Days.{
  year-days-bounds, days_since-le, days_since-upper, year_loop-day, year_of_day, days_before_month,
  days_before_month-acc, days_before_month_0, days_before_month-suc, days_before_month_12,
  days_before_month_mono, month_loop-day, month_of_day,
}

-- A date of the calendar in a 16-bit year from 1970 on, and a time of day.
pub record IsDate (t : RtcTime) : Type 0 where
  pub late : 1970 ≤ t.year
  pub small : t.year < 2 ^ 16
  pub first_month : 1 ≤ t.month
  pub last_month : t.month ≤ 12
  pub first_day : 1 ≤ t.day
  pub last_day : t.day ≤ days_in_month (is_leap t.year) (t.month - 1)
  pub hour : t.hours < 24
  pub minute : t.minutes < 60
  pub second : t.seconds < 60

-- The day of the year, from 0, and the number of days since 1970.
day_of_year : RtcTime → ℕ
day_of_year t = days_before_month (is_leap t.year) (t.month - 1) + (t.day - 1)

pub day_number : RtcTime → ℕ
unfolding day_of_year
day_number t = days_since_epoch_to_year t.year + day_of_year t

abbrev AllLe : ℕ → List ℕ → Type 0
AllLe n [] = Unit {0}
AllLe n (x ∷ xs) = (x ≤ n) × AllLe n xs

get_or-le : (n : ℕ) (xs : List ℕ) (m : ℕ) → AllLe n xs → get_or xs m 0 ≤ n
get_or-le n [] m h = omega arith
get_or-le n (x ∷ xs) zero h = h.0
get_or-le n (x ∷ xs) (suc m) h = get_or-le n xs m h.1

month-le : (leap : Bool) (m : ℕ) → days_in_month leap m ≤ 31
month-le true m = get_or-le 31 (month_row true) m (omega arith)
month-le false m = get_or-le 31 (month_row false) m (omega arith)

-- `epoch_to_rtc` by what its two loops find.
epoch_to_rtc_lem :
    (epoch d year d' month : ℕ)
    → year_loop (epoch / 60 / 60 / 24 + 1) (epoch / 60 / 60 / 24) 1970 ≡ some (d, year)
    → month_loop 12 (is_leap year) d 1 ≡ some (d', month)
    → epoch_to_rtc epoch
      ≡ some (record {
        seconds = epoch % 60;
        minutes = epoch / 60 % 60;
        hours = epoch / 60 / 60 % 24;
        day = (d' + 1) % 2 ^ 8;
        month = month;
        year = year;
      })
unfolding epoch_to_rtc
epoch_to_rtc_lem epoch d year d' month e e' = rw (e, e', epoch_to_rtc)

module _ (t : RtcTime) (date : IsDate t) where
  day_of_year-lt : day_of_year t < days_in_year t.year
  unfolding day_of_year
  day_of_year-lt =
      let leap = is_leap t.year in
      let next : suc (t.month - 1) ≤ 12 = omega (arith, date.first_month, date.last_month) in
      omega (
        arith,
        days_before_month-suc leap (t.month - 1),
        days_before_month_mono (12 - suc (t.month - 1)) (suc (t.month - 1)) 12 leap (omega arith),
        days_before_month_12 leap,
        date.first_day,
        date.last_day,
      )

  day_number-lt : day_number t < 366 * 65536
  unfolding day_number
  day_number-lt = omega (
    arith,
    day_of_year-lt,
    (year-days-bounds t.year).1,
    days_since-upper (t.year - 1970) t.year (omega (arith, date.late)),
    date.small,
  )

  -- The epoch of a date, with no wrap-around.
  pub rtc_to_epoch-value :
      rtc_to_epoch t ≡ day_number t * 86400 + t.hours * 3600 + t.minutes * 60 + t.seconds
  unfolding rtc_to_epoch day_number day_of_year
  rtc_to_epoch-value =
      let leap = is_leap t.year in
      let sum = days_before_month-acc (t.month - 1) (days_since_epoch_to_year t.year) leap in
      rw sum (omega (arith, day_number-lt, date.first_day, date.hour, date.minute, date.second))

  -- A date in a 16-bit year from 1970 on survives the way to seconds since 1970 and back.
  pub epoch_to_rtc-rtc_to_epoch : epoch_to_rtc (rtc_to_epoch t) ≡ some t
  unfolding epoch_to_rtc day_number day_of_year
  epoch_to_rtc-rtc_to_epoch =
      let leap = is_leap t.year in
      let number = day_number t in
      let value = rtc_to_epoch-value in
      let days : rtc_to_epoch t / 60 / 60 / 24 ≡ number =
        omega (arith, value, date.hour, date.minute, date.second) in
      let second : rtc_to_epoch t % 60 ≡ t.seconds =
        omega (arith, value, date.hour, date.minute, date.second) in
      let minute : rtc_to_epoch t / 60 % 60 ≡ t.minutes =
        omega (arith, value, date.hour, date.minute, date.second) in
      let hour : rtc_to_epoch t / 60 / 60 % 24 ≡ t.hours =
        omega (arith, value, date.hour, date.minute, date.second) in
      let month : t.month - 1 + 1 ≡ t.month = omega (arith, date.first_month) in
      let day : (t.day - 1 + 1) % 2 ^ 8 ≡ t.day =
        omega (arith, date.first_day, date.last_day, month-le leap (t.month - 1)) in
      let found_year : year_loop (number + 1) number 1970 ≡ some (day_of_year t, t.year) =
        year_loop-day (t.year - 1970) (number + 1) number 1970 t.year (day_of_year t) (omega arith)
          (omega (arith, date.late)) date.small
          (omega (
            arith,
            days_since-le (t.year - 1970) 1970 t.year (omega arith) (omega (arith, date.late)),
          ))
          day_of_year-lt (omega (arith, days_since-upper 0 1970 refl)) in
      let found_month : month_loop 12 leap (day_of_year t) 1 ≡ some (t.day - 1, t.month - 1 + 1) =
        month_loop-day (t.month - 1) 12 (day_of_year t) 0 (t.month - 1) (t.day - 1) leap
          (omega arith) (omega (arith, date.first_month, date.last_month))
          (omega (arith, date.last_month)) (omega (arith, date.first_day, date.last_day))
          (omega (arith, days_before_month_0 leap)) in
      epoch_to_rtc_lem (rtc_to_epoch t) (day_of_year t) t.year (t.day - 1) (t.month - 1 + 1)
        (rw days found_year) found_month
      ∙ rw (second, minute, hour, month, day)

-- The date with the given year, month and day of month (both from 0), and second of the day.
abbrev date_at : ℕ → ℕ → ℕ → ℕ → RtcTime
date_at epoch year month d = record {
  seconds = epoch % 60;
  minutes = epoch / 60 % 60;
  hours = epoch / 3600 % 24;
  day = d + 1;
  month = month + 1;
  year = year;
}

module _ (epoch year month d : ℕ) (late : 1970 ≤ year) (small : year < 2 ^ 16) (twelve : month < 12)
    (in_month : d < days_in_month (is_leap year) month) where
  date_at-IsDate : IsDate (date_at epoch year month d)
  date_at-IsDate =
      let index : month + 1 - 1 ≡ month = omega arith in
      record {
        late = late;
        small = small;
        first_month = omega arith;
        last_month = omega arith;
        first_day = omega arith;
        last_day = rw index (omega arith);
        hour = omega arith;
        minute = omega arith;
        second = omega arith;
      }

  date_at-epoch :
      days_since_epoch_to_year year + (days_before_month (is_leap year) month + d) ≡ epoch / 86400
      → rtc_to_epoch (date_at epoch year month d) ≡ epoch
  unfolding day_number day_of_year
  date_at-epoch sum =
      let index : month + 1 - 1 ≡ month = omega arith in
      let back : d + 1 - 1 ≡ d = omega arith in
      let number : day_number (date_at epoch year month d) ≡ epoch / 86400 = rw (index, back) sum in
      omega (arith, rtc_to_epoch-value (date_at epoch year month d) date_at-IsDate, number)

-- Every second of a 16-bit year from 1970 on comes from a date, and `epoch_to_rtc` finds it.
pub rtc_to_epoch-epoch_to_rtc :
    (epoch : ℕ)
    → epoch < 86400 * 365 * 63566
    → (t : RtcTime) × (epoch_to_rtc epoch ≡ some t) × IsDate t × (rtc_to_epoch t ≡ epoch)
rtc_to_epoch-epoch_to_rtc epoch small =
    let days = epoch / 86400 in
    let start = days_since-upper 0 1970 refl in
    let (doy, year, late, high, in_year, sum) =
      year_of_day 63566 days 1970 (omega arith) (omega (arith, start)) (omega arith) in
    let leap = is_leap year in
    let (d, month, twelve, in_month, sum') =
      month_of_day 12 doy 0 leap refl (omega (arith, days_before_month_0 leap))
        (omega (arith, days_before_month_12 leap, in_year)) in
    let short : year < 2 ^ 16 = omega (arith, high) in
    let t = date_at epoch year month d in
    let date = date_at-IsDate epoch year month d late short twelve in_month in
    let value =
      date_at-epoch epoch year month d late short twelve in_month (omega (arith, sum, sum')) in
    (t, ap epoch_to_rtc (sym value) ∙ epoch_to_rtc-rtc_to_epoch t date, date, value)

-- A byte in binary-coded decimal is read as its two digits.
bcd_to_bin-digits :
    (tens units : ℕ) → tens < 10 → units < 10 → bcd_to_bin (tens * 16 + units) ≡ tens * 10 + units
unfolding bcd_to_bin
bcd_to_bin-digits tens units h h' = omega (arith, bit_and-low_mask 4 (tens * 16 + units))
