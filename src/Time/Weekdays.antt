-- ===== src/Time/Weekdays.antt =====
-- The days of a month that src/atm_time.c finds for the changes of summer time.
use atmkoala.Base.{ℕ, ◌+◌, ◌-◌, ◌*◌, ◌%◌, ◌≤◌, ◌<◌, ◌≡◌, ◌∙◌, true, leb, arith}
use atmkoala.Time.{
  DateTime, add_years, add_months, month_days, civil_weekday, nth_weekday, last_weekday,
}
use atmkoala.Time.Convert.{rtc_unix_seconds-day_number}

-- The days before a month.
abbrev before_month : (year month : ℕ) → ℕ
before_month year month = add_years (year - 1970) 1970 0 + add_months (month - 1) 1 year 0

civil_weekday-day :
    (year month day : ℕ)
    → 1 ≤ day
    → civil_weekday year month day ≡ (before_month year month + day + 3) % 7
unfolding civil_weekday
civil_weekday-day year month day h =
    let t : DateTime = record {
      year = year;
      month = month;
      day = day;
      hour = 0;
      minute = 0;
      second = 0;
    } in
    omega (arith, rtc_unix_seconds-day_number t)

-- A month has from 28 to 31 days.
month_days_range :
    (year month : ℕ)
    → 1 ≤ month
    → month ≤ 12
    → (28 ≤ month_days year month) × (month_days year month ≤ 31)
unfolding month_days
month_days_range year month lo hi = ground arith

-- What `nth_weekday` returns for one of the first four weeks is a day of the month, in the n-th week
-- from its first, that is the weekday asked for, where Sunday is 0.
pub nth_weekday_lem :
    (year month weekday nth : ℕ)
    → 1 ≤ month
    → month ≤ 12
    → weekday < 7
    → 1 ≤ nth
    → nth ≤ 4
    → let d = nth_weekday year month weekday nth in
      (civil_weekday year month d ≡ weekday)
      × (7 * (nth - 1) < d)
      × (d ≤ 7 * nth)
      × (d ≤ month_days year month)
unfolding nth_weekday
nth_weekday_lem year month weekday nth lo hi w n1 n4 =
    let len = month_days_range year month lo hi in
    let first = civil_weekday-day year month 1 (omega arith) in
    let day = 1 + (weekday + 7 - civil_weekday year month 1) % 7 + 7 * (nth - 1) in
    let e : leb day (month_days year month) ≡ true = ground (arith, len) in
    rw e (
      civil_weekday-day year month day (omega arith) ∙ omega (arith, first),
      omega arith,
      omega arith,
      omega (arith, len),
    )

-- What `last_weekday` returns is the last day of the month that is the weekday asked for.
pub last_weekday_lem :
    (year month weekday : ℕ)
    → 1 ≤ month
    → month ≤ 12
    → weekday < 7
    → let d = last_weekday year month weekday in
      (civil_weekday year month d ≡ weekday)
      × (d ≤ month_days year month)
      × (month_days year month < d + 7)
unfolding last_weekday
last_weekday_lem year month weekday lo hi w =
    let len = month_days_range year month lo hi in
    let last = month_days year month in
    let at = civil_weekday-day year month last (omega (arith, len)) in
    let day = last - (civil_weekday year month last + 7 - weekday) % 7 in
    (
      civil_weekday-day year month day (omega (arith, len)) ∙ omega (arith, at, len),
      omega arith,
      omega (arith, len),
    )
