-- ===== src/Time/Tzif.antt =====
-- The seconds of a date in src/tzif.c, next to those of src/atm_time.c.
use atmkoala.Base.{
  ℕ, zero, suc, ◌+◌, ◌-◌, ◌*◌, ◌≤◌, ◌≡◌, refl, ◌==◌, ◌&&◌, if◌then◌else◌, get_or, arith,
}
use atmkoala.Time.{
  DateTime, leap_year, month_table, add_years, add_months, rtc_unix_seconds, month_days,
}
use atmkoala.Time.Convert.{IsDate, rtc_unix_seconds-day_number}
use atmkoala.Time.Sums.{add_months-acc}

-- The loop on the months from `m` on, `n` of them.
unfoldable pub add_mdays : (n m year days : ℕ) → ℕ
add_mdays zero m year days = days
add_mdays (suc n) m year days = add_mdays n (m + 1) year (days + month_days year m)

-- `civil_seconds` of src/tzif.c
unfoldable pub civil_seconds : DateTime → ℕ
civil_seconds t =
    add_mdays (t.month - 1) 1 t.year (add_years (t.year - 1970) 1970 0) * 86400
    + t.hour * 3600
    + t.minute * 60
    + t.second

add_mdays-add_months :
    (n m year days : ℕ) → 1 ≤ m → n + m ≤ 13 → add_mdays n m year days ≡ add_months n m year days
unfolding add_mdays add_months month_days
add_mdays-add_months zero m year days lo hi = refl
add_mdays-add_months (suc n) m year days lo hi = ground (
  arith,
  add_mdays-add_months n (m + 1) year
      (days + get_or month_table (m - 1) 0 + (if m == 2 && leap_year year then 1 else 0)),
)

-- `civil_seconds` of src/tzif.c is `rtc_unix_seconds` of src/atm_time.c less the days of the month before the
-- date: it takes every date for the first of its month.
pub civil_seconds_lem :
    (t : DateTime) → IsDate t → civil_seconds t + (t.day - 1) * 86400 ≡ rtc_unix_seconds t
unfolding civil_seconds
civil_seconds_lem t v =
    let lo = v.month_low in
    let hi = v.month_high in
    let base = add_years (t.year - 1970) 1970 0 in
    omega (
      arith,
      rtc_unix_seconds-day_number t,
      add_mdays-add_months (t.month - 1) 1 t.year base (omega arith) (omega arith),
      add_months-acc (t.month - 1) 1 t.year base,
    )
