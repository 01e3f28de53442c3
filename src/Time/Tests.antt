-- ===== src/Time/Tests.antt =====
-- Dates for the theorems on src/atm_time.c.
use atmkoala.Base.{◌-◌, ◌*◌, ◌+◌, ◌≡◌, refl, arith, pos, negsuc}
use atmkoala.Time.{DateTime, rtc_unix_seconds, add_years, add_months, month_days, seconds_to_civil}
use atmkoala.Time.Convert.{
  IsDate, civil_of, IsCivilOf, rtc_unix_seconds-seconds_to_civil, seconds_to_civil-rtc_unix_seconds,
}
use atmkoala.Time.Tzif.{civil_seconds, civil_seconds_lem}

abbrev leap_day : DateTime
leap_day = record { year = 2024; month = 2; day = 29; hour = 23; minute = 59; second = 58 }

leap_day-seconds : rtc_unix_seconds leap_day ≡ 1709251198
unfolding rtc_unix_seconds add_years add_months
leap_day-seconds = refl

leap_day-IsDate : IsDate leap_day
unfolding month_days
leap_day-IsDate = record {
  year_in = omega arith;
  month_low = omega arith;
  month_high = omega arith;
  day_low = omega arith;
  day_high = omega arith;
  hour_in = omega arith;
  minute_in = omega arith;
  second_in = omega arith;
}

seconds_to_civil-rtc_unix_seconds_example :
    seconds_to_civil (pos (rtc_unix_seconds leap_day)) ≡ civil_of leap_day
seconds_to_civil-rtc_unix_seconds_example =
    seconds_to_civil-rtc_unix_seconds leap_day leap_day-IsDate

-- An hour before 1970.
rtc_unix_seconds-seconds_to_civil_example : IsCivilOf (negsuc 3599) (seconds_to_civil (negsuc 3599))
rtc_unix_seconds-seconds_to_civil_example =
    rtc_unix_seconds-seconds_to_civil (negsuc 3599) (omega arith)

hour_before : (seconds_to_civil (negsuc 3599)).day ≡ pos 0
unfolding seconds_to_civil
hour_before = refl

civil_seconds_lem_example :
    civil_seconds leap_day + (leap_day.day - 1) * 86400 ≡ rtc_unix_seconds leap_day
civil_seconds_lem_example = civil_seconds_lem leap_day leap_day-IsDate
