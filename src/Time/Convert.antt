-- ===== src/Time/Convert.antt =====
-- The conversions of src/atm_time.c between dates and seconds.
use atmkoala.Base.{
  ℤ, pos, negsuc, neg, refl, inl, inr, Bool-cases, if◌then◌else◌, ◌==◌, ◌%◌, ℕ, suc, ◌+◌, ◌-◌, ◌*◌,
  ◌/◌, ◌≤◌, ◌<◌, ◌≡◌, ap, ◌∙◌, arith,
}
use atmkoala.Time.{
  DateTime, Civil, year_days, add_years, add_months, rtc_unix_seconds, month_days, find_year,
  find_month, seconds_to_civil,
}
use atmkoala.Time.Sums.{
  add_months-acc, add_years-many, twelve_months, find_year-IsYearOf, find_year-add_years,
  find_month-IsMonthOf, find_month-add_months, month_fits,
}

-- The days before a date.
abbrev pub day_number : DateTime → ℕ
day_number t = add_years (t.year - 1970) 1970 0 + add_months (t.month - 1) 1 t.year 0 + (t.day - 1)

pub rtc_unix_seconds-day_number :
    (t : DateTime)
    → rtc_unix_seconds t ≡ day_number t * 86400 + t.hour * 3600 + t.minute * 60 + t.second
unfolding rtc_unix_seconds
rtc_unix_seconds-day_number t =
    omega (arith, add_months-acc (t.month - 1) 1 t.year (add_years (t.year - 1970) 1970 0))

-- A date from 1970 on.
pub record IsDate (t : DateTime) : Type 0 where
  pub year_in : 1970 ≤ t.year
  pub month_low : 1 ≤ t.month
  pub month_high : t.month ≤ 12
  pub day_low : 1 ≤ t.day
  pub day_high : t.day ≤ month_days t.year t.month
  pub hour_in : t.hour < 24
  pub minute_in : t.minute < 60
  pub second_in : t.second < 60

civil_ext :
    (t u : Civil)
    → t.year ≡ u.year
    → t.month ≡ u.month
    → t.day ≡ u.day
    → t.hour ≡ u.hour
    → t.minute ≡ u.minute
    → t.second ≡ u.second
    → t ≡ u
civil_ext t u a b c d e f =
    λ i. record { year = a i; month = b i; day = c i; hour = d i; minute = e i; second = f i }

-- A date as `seconds_to_civil` gives it.
abbrev pub civil_of : DateTime → Civil
civil_of t = record {
  year = t.year;
  month = t.month;
  day = pos t.day;
  hour = t.hour;
  minute = t.minute;
  second = t.second;
}

-- Seconds between -2 ^ 47 and 2 ^ 47.
abbrev pub IsNear : ℤ → Type 0
IsNear (pos n) = n < 0x8000_0000_0000
IsNear (negsuc k) = k < 0x8000_0000_0000

-- What is right for the date of these seconds. From 1970 on it is a date of the calendar whose seconds
-- they are, and the year is an `int`. Before, it is the day `-j` of January 1970 with a time of the day,
-- and these are as many seconds.
abbrev pub IsCivilOf : ℤ → Civil → Type 0
IsCivilOf (pos n) c =
    (t : DateTime) × (c ≡ civil_of t) × IsDate t × (t.year < 0x8000_0000) × (rtc_unix_seconds t ≡ n)
IsCivilOf (negsuc k) c =
    (j : ℕ) × (c.year ≡ 1970)
    × (c.month ≡ 1)
    × (c.day ≡ (if j == 0 then pos 0 else neg j))
    × (j < 0x8000_0000)
    × (c.hour < 24)
    × (c.minute < 60)
    × (c.second < 60)
    × (c.hour * 3600 + c.minute * 60 + c.second + (k + 1) ≡ (j + 1) * 86400)

-- The date that the loops find for a number of seconds from 1970 on.
abbrev found_date : ℕ → DateTime
found_date n =
    let r = find_year (n / 86400) 1970 (n / 86400) in
    let q = find_month 12 r.0 1 r.1 in
    record {
      year = r.0;
      month = q.0;
      day = q.1 + 1;
      hour = n % 86400 / 3600;
      minute = n % 86400 / 60 % 60;
      second = n % 86400 % 60;
    }

found_date-IsDate :
    (n : ℕ)
    → n < 0x8000_0000_0000
    → IsDate (found_date n)
      × ((found_date n).year < 0x8000_0000)
      × (rtc_unix_seconds (found_date n) ≡ n)
found_date-IsDate n small =
    let days = n / 86400 in
    let r = find_year days 1970 days in
    let (ya, yb, yc) = find_year-IsYearOf days 1970 days (omega arith) in
    let many = add_years-many (r.0 - 1970) 1970 in
    let q = find_month 12 r.0 1 r.1 in
    let (ma, mb, mc, md) =
      find_month-IsMonthOf 12 r.0 1 r.1 (omega arith) (omega arith)
        (omega (arith, twelve_months r.0)) in
    (
      record {
        year_in = yb;
        month_low = mb;
        month_high = mc;
        day_low = omega arith;
        day_high = omega arith;
        hour_in = omega arith;
        minute_in = omega arith;
        second_in = omega arith;
      },
      omega arith,
      rtc_unix_seconds-day_number (found_date n) ∙ omega arith,
    )

-- For seconds between -2 ^ 47 and 2 ^ 47, `seconds_to_civil` ends. From 1970 on it gives a date of the
-- calendar, with a year below 2 ^ 31, from which `rtc_unix_seconds` computes the same seconds. Before
-- 1970 it gives the year 1970, the month 1, a day that is 0 or less, and a time of the day, which are
-- as many seconds before 1970.
pub rtc_unix_seconds-seconds_to_civil :
    (seconds : ℤ) → IsNear seconds → IsCivilOf seconds (seconds_to_civil seconds)
unfolding seconds_to_civil
rtc_unix_seconds-seconds_to_civil (pos n) small =
    let (date, year, same) = found_date-IsDate n small in (found_date n, refl, date, year, same)
rtc_unix_seconds-seconds_to_civil (negsuc k) small = elim (Bool-cases ((k + 1) % 86400 == 0)) [
  | inl e ↦
      let rest : (k + 1) % 86400 ≡ 0 = ground arith in
      rw e (
        (k + 1) / 86400 - 1,
        refl,
        refl,
        refl,
        omega arith,
        omega arith,
        omega arith,
        omega arith,
        omega arith,
      )
  | inr e ↦
      let some_rest : 0 < (k + 1) % 86400 = ground arith in
      rw e (
        (k + 1) / 86400 + 1 - 1,
        refl,
        refl,
        refl,
        omega arith,
        omega arith,
        omega arith,
        omega arith,
        omega arith,
      )
]

-- Every date of the calendar from 1970 on comes back from its seconds.
pub seconds_to_civil-rtc_unix_seconds :
    (t : DateTime) → IsDate t → seconds_to_civil (pos (rtc_unix_seconds t)) ≡ civil_of t
unfolding seconds_to_civil
seconds_to_civil-rtc_unix_seconds t v =
    let n = rtc_unix_seconds t in
    let k = t.year - 1970 in
    let j = t.month - 1 in
    let d = add_months j 1 t.year 0 + (t.day - 1) in
    let e1 = v.year_in in
    let e2 = v.month_low in
    let e3 = v.month_high in
    let e4 = v.day_low in
    let e5 = v.day_high in
    let e6 = v.hour_in in
    let e7 = v.minute_in in
    let e8 = v.second_in in
    let value = rtc_unix_seconds-day_number t in
    let y : 1970 + k ≡ t.year = omega arith in
    let m : 1 + j ≡ t.month = omega arith in
    let rest : suc (j + (12 - t.month)) ≡ 12 = omega arith in
    let mf = month_fits j (12 - t.month) 1 t.year (omega arith) (omega arith) in
    let fits : add_months j 1 t.year 0 + month_days t.year t.month ≤ year_days t.year =
      rw (m, rest, twelve_months t.year) at mf in
    let days : n / 86400 ≡ add_years k 1970 0 + d = omega arith in
    let in_year : d < year_days (1970 + k) = rw y (omega arith) in
    let in_month : t.day - 1 < month_days t.year (1 + j) = rw m (omega arith) in
    let year : find_year (n / 86400) 1970 (n / 86400) ≡ (t.year, d) = rw days (
      find_year-add_years k (add_years k 1970 0 + d) 1970 d (omega (arith, add_years-many k 1970))
        in_year
      ∙ ap (λ z. (z, d)) y) in
    let month : find_month 12 t.year 1 d ≡ (t.month, t.day - 1) =
      find_month-add_months j 12 t.year 1 (t.day - 1) (omega arith) (omega arith) (omega arith)
        in_month
      ∙ ap (λ z. (z, t.day - 1)) m in
    let found : (let r = find_year (n / 86400) 1970 (n / 86400) in find_month 12 r.0 1 r.1)
        ≡ (t.month, t.day - 1) =
      ap (λ r. find_month 12 r.0 1 r.1) year ∙ month in
    let day : t.day - 1 + 1 ≡ t.day = omega arith in
    civil_ext (seconds_to_civil (pos n)) (civil_of t) (ap (λ r. r.0) year) (ap (λ r. r.0) found)
      (ap (λ r. pos (r.1 + 1)) found ∙ ap pos day) (omega arith) (omega arith) (omega arith)
