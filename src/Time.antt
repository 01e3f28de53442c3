-- ===== src/Time.antt =====
-- The calendar of src/atm_time.c. The fields of a `DateTime` are not negative; `seconds_to_civil` takes times
-- before 1970 too. The times of the zone rules are from 1970 on.
pub mod Sums
pub mod Convert
pub mod Weekdays
pub mod Tzif
mod Tests
use atmkoala.Base.{
  ℕ, zero, suc, ◌+◌, ◌-◌, ◌*◌, ◌/◌, ◌%◌, Bool, true, false, ◌==◌, ◌&&◌, ◌||◌, not, if◌then◌else◌,
  ltb, leb, Option, none, some, List, [], ◌∷◌, get_or, ℤ, pos, negsuc, neg,
}

-- `rtc_datetime_t`
pub record DateTime : Type 0 where
  pub year : ℕ
  pub month : ℕ
  pub day : ℕ
  pub hour : ℕ
  pub minute : ℕ
  pub second : ℕ

abbrev pub leap_year : ℕ → Bool
leap_year year = (year % 4 == 0 && not (year % 100 == 0)) || year % 400 == 0

-- `leap_year(y) ? 366 : 365`
abbrev pub year_days : ℕ → ℕ
year_days y = if leap_year y then 366 else 365

abbrev pub month_table : List ℕ
month_table = 31 ∷ 28 ∷ 31 ∷ 30 ∷ 31 ∷ 30 ∷ 31 ∷ 31 ∷ 30 ∷ 31 ∷ 30 ∷ 31 ∷ []

-- The loop of `rtc_unix_seconds` on the years from `y` on, `n` of them.
unfoldable pub add_years : (n y days : ℕ) → ℕ
add_years zero y days = days
add_years (suc n) y days = add_years n (y + 1) (days + year_days y)

-- The loop on the months from `m` on, `n` of them.
unfoldable pub add_months : (n m year days : ℕ) → ℕ
add_months zero m year days = days
add_months (suc n) m year days =
    add_months n (m + 1) year
      (days + get_or month_table (m - 1) 0 + (if m == 2 && leap_year year then 1 else 0))

unfoldable pub rtc_unix_seconds : DateTime → ℕ
rtc_unix_seconds t =
    let days = add_months (t.month - 1) 1 t.year (add_years (t.year - 1970) 1970 0) + (t.day - 1) in
    days * 86400 + t.hour * 3600 + t.minute * 60 + t.second

unfoldable pub month_days : (year month : ℕ) → ℕ
month_days year month =
    if leb 1 month && leb month 12
    then get_or month_table (month - 1) 0 + (if month == 2 && leap_year year then 1 else 0)
    else 0

abbrev pub valid_civil : DateTime → Bool
valid_civil t =
    leb 1970 t.year
    && leb t.year 2099
    && leb 1 t.month
    && leb t.month 12
    && leb 1 t.day
    && leb t.day (month_days t.year t.month)
    && ltb t.hour 24
    && ltb t.minute 60
    && ltb t.second 60

-- The loop of `seconds_to_civil` on the years: the year, and the days left in it.
unfoldable pub find_year : (fuel year days : ℕ) → ℕ × ℕ
find_year zero year days = (year, days)
find_year (suc fuel) year days =
    let rest = find_year fuel (year + 1) (days - year_days year) in
    if leb (year_days year) days then rest else (year, days)

-- The loop on the months.
unfoldable pub find_month : (fuel year month days : ℕ) → ℕ × ℕ
find_month zero year month days = (month, days)
find_month (suc fuel) year month days =
    let rest = find_month fuel year (month + 1) (days - month_days year month) in
    if leb (month_days year month) days then rest else (month, days)

-- `rtc_datetime_t` as `seconds_to_civil` fills it, where the day may be 0 or less.
pub record Civil : Type 0 where
  pub year : ℕ
  pub month : ℕ
  pub day : ℤ
  pub hour : ℕ
  pub minute : ℕ
  pub second : ℕ

-- The days, and the seconds of the last one: `/` and `%` round to 0, and a negative rest takes a day.
abbrev pub split_days : ℤ → ℤ × ℕ
split_days (pos n) = (pos (n / 86400), n % 86400)
split_days (negsuc k) =
    if (k + 1) % 86400 == 0
    then (neg ((k + 1) / 86400), 0)
    else (neg ((k + 1) / 86400 + 1), 86400 - (k + 1) % 86400)

-- The year, the month and the day. For negative days neither loop has a round.
abbrev pub date_of_days : ℤ → ℕ × ℕ × ℤ
date_of_days (pos days) =
    let (year, in_year) = find_year days 1970 days in
    let (month, in_month) = find_month 12 year 1 in_year in (year, month, pos (in_month + 1))
date_of_days (negsuc j) = (1970, 1, (if j == 0 then pos 0 else neg j))

-- The seconds are 64-bit, and the year and the days are an `int` afterwards, which is enough for
-- seconds between -2 ^ 47 and 2 ^ 47.
unfoldable pub seconds_to_civil : ℤ → Civil
seconds_to_civil seconds =
    let (days, rem) = split_days seconds in
    let (year, month, day) = date_of_days days in
    record {
      year = year;
      month = month;
      day = day;
      hour = rem / 3600;
      minute = rem / 60 % 60;
      second = rem % 60;
    }

abbrev pub civil_seconds : (year month day hour minute second : ℕ) → ℕ
civil_seconds year month day hour minute second = rtc_unix_seconds (record {
  year = year;
  month = month;
  day = day;
  hour = hour;
  minute = minute;
  second = second;
})

unfoldable pub civil_weekday : (year month day : ℕ) → ℕ
civil_weekday year month day = (civil_seconds year month day 0 0 0 / 86400 + 4) % 7

-- 0 where the month has no such day.
unfoldable pub nth_weekday : (year month weekday nth : ℕ) → ℕ
nth_weekday year month weekday nth =
    let day = 1 + (weekday + 7 - civil_weekday year month 1) % 7 + 7 * (nth - 1) in
    if leb day (month_days year month) then day else 0

unfoldable pub last_weekday : (year month weekday : ℕ) → ℕ
last_weekday year month weekday =
    let day = month_days year month in day - (civil_weekday year month day + 7 - weekday) % 7

-- `tz_rule_t`
pub data Rule : Type 0 where
  fixed eu us au nz chile egypt israel : Rule

-- `tz_entry_t`
pub record Zone : Type 0 where
  pub name : List ℕ
  pub standard_minutes : ℤ
  pub dst_minutes : ℤ
  pub rule : Rule

abbrev pub between : (now begin end : ℕ) → Bool
between now begin end = leb begin now && ltb now end

-- `seconds - (int64_t)minutes * 60`; the seconds are those of a date from March 1970 on.
abbrev pub minus_minutes : ℕ → ℤ → ℕ
minus_minutes seconds (pos m) = seconds - m * 60
minus_minutes seconds (negsuc m) = seconds + (m + 1) * 60

-- `seconds + (int64_t)minutes * 60`
abbrev pub plus_minutes : ℕ → ℤ → ℕ
plus_minutes seconds (pos m) = seconds + m * 60
plus_minutes seconds (negsuc m) = seconds - (m + 1) * 60

-- The summer time of the south that begins in the year `base`.
unfoldable pub south_from : (base : ℕ) → Rule → (std_min dst_min : ℤ) → ℕ × ℕ
south_from base rule std_min dst_min =
    let from : (month day hour : ℕ) → ℕ =
      λ month day hour. minus_minutes (civil_seconds base month day hour 0 0) std_min in
    let till : (hour : ℕ) → ℕ = λ hour.
      minus_minutes (civil_seconds (base + 1) 4 (nth_weekday (base + 1) 4 0 1) hour 0 0) dst_min in
    (elim rule [
      | Rule.au ↦ (from 10 (nth_weekday base 10 0 1) 2, till 3)
      | Rule.nz ↦ (from 9 (last_weekday base 9 0) 2, till 3)
      | _ ↦ (from 9 (nth_weekday base 9 0 1) 0, till 0)
    ])

unfoldable pub south_dst : (now year : ℕ) → Rule → (std_min dst_min : ℤ) → Bool
south_dst now year rule std_min dst_min =
    let last = south_from (year - 1) rule std_min dst_min in
    let this = south_from year rule std_min dst_min in
    between now last.0 last.1 || between now this.0 this.1

unfoldable pub timezone_dst : Zone → DateTime → Bool
timezone_dst z utc =
    let y = utc.year in
    let now = rtc_unix_seconds utc in
    let std : ℕ → ℕ = λ s. minus_minutes s z.standard_minutes in
    let dst : ℕ → ℕ = λ s. minus_minutes s z.dst_minutes in
    (elim z.rule [
      | Rule.fixed ↦ false
      | Rule.eu ↦
          between now (civil_seconds y 3 (last_weekday y 3 0) 1 0 0)
            (civil_seconds y 10 (last_weekday y 10 0) 1 0 0)
      | Rule.us ↦
          between now (std (civil_seconds y 3 (nth_weekday y 3 0 2) 2 0 0))
            (dst (civil_seconds y 11 (nth_weekday y 11 0 1) 2 0 0))
      | Rule.egypt ↦
          between now (std (civil_seconds y 4 (last_weekday y 4 5) 0 0 0))
            (dst (civil_seconds y 10 (last_weekday y 10 4) 24 0 0))
      | Rule.israel ↦
          between now (std (civil_seconds y 3 (last_weekday y 3 0 - 2) 2 0 0))
            (dst (civil_seconds y 10 (last_weekday y 10 0) 2 0 0))
      | r ↦ south_dst now y r z.standard_minutes z.dst_minutes
    ])
