-- ===== src/Rtc/Examples.antt =====
-- The clock of src/arch/rtc.c on one date, and its theorems there.
use cobj_os.Prelude.{◌≡◌, refl, some, arith}
use cobj_os.Rtc.{
  RtcTime, rtc_to_epoch, epoch_to_rtc, days_since_epoch_to_year, year_days_loop, month_days_loop,
}
use cobj_os.Rtc.Calendar.{IsDate, epoch_to_rtc-rtc_to_epoch, rtc_to_epoch-epoch_to_rtc}

abbrev leap_day : RtcTime
leap_day = record { seconds = 59; minutes = 30; hours = 23; day = 29; month = 2; year = 2024 }

leap_day-IsDate : IsDate leap_day
leap_day-IsDate = record {
  late = omega arith;
  small = omega arith;
  first_month = omega arith;
  last_month = omega arith;
  first_day = omega arith;
  last_day = omega arith;
  hour = omega arith;
  minute = omega arith;
  second = omega arith;
}

rtc_to_epoch_runs : rtc_to_epoch leap_day ≡ 1709249459
unfolding rtc_to_epoch days_since_epoch_to_year year_days_loop month_days_loop
rtc_to_epoch_runs = refl

epoch_to_rtc-rtc_to_epoch_example : epoch_to_rtc (rtc_to_epoch leap_day) ≡ some leap_day
epoch_to_rtc-rtc_to_epoch_example = epoch_to_rtc-rtc_to_epoch leap_day leap_day-IsDate

rtc_to_epoch-epoch_to_rtc_example :
    (t : RtcTime) × (epoch_to_rtc 1709249459 ≡ some t) × IsDate t × (rtc_to_epoch t ≡ 1709249459)
rtc_to_epoch-epoch_to_rtc_example = rtc_to_epoch-epoch_to_rtc 1709249459 (omega arith)
