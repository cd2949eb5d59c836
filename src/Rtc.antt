-- ===== src/Rtc.antt =====
-- src/arch/rtc.c: the real-time clock, and dates against seconds since 1970.
-- The CMOS registers are a function from register to byte, read after the update flag has cleared.
pub mod Days
pub mod Calendar
mod Examples
use cobj_os.Prelude.{
  ℕ, zero, suc, ◌+◌, ◌-◌, ◌*◌, ◌/◌, ◌%◌, ◌^◌, bit_and, Bool, true, false, not, ◌&&◌, ◌||◌, Option,
  none, some, List, [], ◌∷◌, ltb, leb, ◌==◌, if◌then◌else◌, get_or,
}

pub record RtcTime : Type 0 where
  pub seconds : ℕ
  pub minutes : ℕ
  pub hours : ℕ
  pub day : ℕ
  pub month : ℕ
  pub year : ℕ

unfoldable pub bcd_to_bin : ℕ → ℕ
bcd_to_bin bcd = (bit_and bcd 0x0f + bcd / 2 ^ 4 * 10) % 2 ^ 8

abbrev pub is_leap : ℕ → Bool
is_leap year = (year % 4 == 0 && not (year % 100 == 0)) || year % 400 == 0

-- The two rows of `days_in_month`.
abbrev pub month_row : Bool → List ℕ
month_row leap =
    31 ∷ (if leap then 29 else 28) ∷ 31 ∷ 30 ∷ 31 ∷ 30 ∷ 31 ∷ 31 ∷ 30 ∷ 31 ∷ 30 ∷ 31 ∷ []

-- `days_in_month[leap][m]`; the code indexes it only by a month less one.
abbrev pub days_in_month : Bool → ℕ → ℕ
days_in_month leap m = get_or (month_row leap) m 0

abbrev pub days_in_year : ℕ → ℕ
days_in_year year = if is_leap year then 366 else 365

-- `for (uint16_t y = ..; ..; y++) days += ..`, for a number of rounds.
unfoldable pub year_days_loop : ℕ → ℕ → ℕ → ℕ
year_days_loop zero y days = days
year_days_loop (suc rounds) y days = year_days_loop rounds (y + 1) (days + days_in_year y)

unfoldable pub days_since_epoch_to_year : ℕ → ℕ
days_since_epoch_to_year year = year_days_loop (year - 1970) 1970 0

unfoldable pub month_days_loop : ℕ → Bool → ℕ → ℕ → ℕ
month_days_loop zero leap m days = days
month_days_loop (suc rounds) leap m days =
    month_days_loop rounds leap (m + 1) (days + days_in_month leap (m - 1))

-- `days += t->day - 1` is an addition modulo 2^64, also for day 0.
unfoldable pub rtc_to_epoch : RtcTime → ℕ
rtc_to_epoch t =
    let leap = is_leap t.year in
    let before = month_days_loop (t.month - 1) leap 1 (days_since_epoch_to_year t.year) in
    let days = (before + t.day + 2 ^ 64 - 1) % 2 ^ 64 in
    (days * 86400 + t.hours * 3600 + t.minutes * 60 + t.seconds) % 2 ^ 64

-- The two loops of `epoch_to_rtc`, on fuel; `none` means that the fuel ran out.
unfoldable pub year_loop : ℕ → ℕ → ℕ → Option (ℕ × ℕ)
year_loop zero days year = none
year_loop (suc fuel) days year =
    let next = year_loop fuel (days - days_in_year year) ((year + 1) % 2 ^ 16) in
    if ltb days (days_in_year year) then some (days, year) else next

unfoldable pub month_loop : ℕ → Bool → ℕ → ℕ → Option (ℕ × ℕ)
month_loop zero leap days month = none
month_loop (suc fuel) leap days month =
    let next = month_loop fuel leap (days - days_in_month leap (month - 1)) ((month + 1) % 2 ^ 8) in
    if leb (days_in_month leap (month - 1)) days then next else some (days, month)

unfoldable pub epoch_to_rtc : ℕ → Option RtcTime
epoch_to_rtc epoch =
    let days = epoch / 60 / 60 / 24 in
    elim (year_loop (days + 1) days 1970) [
      | none ↦ none
      | some (d, year) ↦ elim (month_loop 12 (is_leap year) d 1) [
        | none ↦ none
        | some (d, month) ↦ some (record {
          seconds = epoch % 60;
          minutes = epoch / 60 % 60;
          hours = epoch / 60 / 60 % 24;
          day = (d + 1) % 2 ^ 8;
          month = month;
          year = year;
        })
      ]
    ]

-- `cmos` gives the byte of each register.
pub rtc_read : (ℕ → ℕ) → RtcTime
rtc_read cmos =
    let binary = not (bit_and (cmos 0x0b) 0x04 == 0) in
    let decode = λ (byte : ℕ). if binary then byte else bcd_to_bin byte in
    record {
      seconds = decode (cmos 0x00);
      minutes = decode (cmos 0x02);
      hours = decode (cmos 0x04);
      day = decode (cmos 0x07);
      month = decode (cmos 0x08);
      year = decode (cmos 0x09) + 2000;
    }

-- The time at `ticks`, from the epoch and the tick count at boot; all are 64-bit numbers.
pub rtc_now_epoch : (boot_epoch boot_ticks ticks : ℕ) → ℕ
rtc_now_epoch boot_epoch boot_ticks ticks =
    let elapsed_ms = (ticks + 2 ^ 64 - boot_ticks) % 2 ^ 64 * 10 % 2 ^ 64 in
    (boot_epoch + elapsed_ms / 1000) % 2 ^ 64

pub rtc_now : (boot_epoch boot_ticks ticks : ℕ) → Option RtcTime
rtc_now boot_epoch boot_ticks ticks = epoch_to_rtc (rtc_now_epoch boot_epoch boot_ticks ticks)
