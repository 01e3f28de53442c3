-- ===== src/Time/Sums.antt =====
-- The sums of days of src/atm_time.c, and the searches that take them apart.
use atmkoala.Base.{
  ℕ, zero, suc, ◌+◌, ◌-◌, ◌≤◌, ◌<◌, ◌≡◌, refl, ap, ◌∙◌, true, ◌==◌, ◌&&◌, if◌then◌else◌, leb,
  get_or, inl, inr, Bool-cases, arith,
}
use mathlib.Core.Path.{ap₂}
use atmkoala.Time.{
  leap_year, year_days, month_table, add_years, add_months, month_days, find_year, find_month,
}

pub add_years-acc : (n y days : ℕ) → add_years n y days ≡ days + add_years n y 0
unfolding add_years
add_years-acc zero y days = omega arith
add_years-acc (suc n) y days =
    omega (
      arith,
      add_years-acc n (y + 1) (days + year_days y),
      add_years-acc n (y + 1) (0 + year_days y),
    )

-- The first of `n + 1` years.
add_years-suc : (n y : ℕ) → add_years (suc n) y 0 ≡ year_days y + add_years n (y + 1) 0
unfolding add_years
add_years-suc n y = omega (arith, add_years-acc n (y + 1) (0 + year_days y))

pub add_years-many : (n y : ℕ) → n ≤ add_years n y 0
unfolding add_years
add_years-many zero y = omega arith
add_years-many (suc n) y =
    ground (arith, add_years-acc n (y + 1) (0 + year_days y), add_years-many n (y + 1))

-- The days that the loop on the months adds for one month.
abbrev step_days : (m year : ℕ) → ℕ
step_days m year = get_or month_table (m - 1) 0 + (if m == 2 && leap_year year then 1 else 0)

pub add_months-acc : (n m year days : ℕ) → add_months n m year days ≡ days + add_months n m year 0
unfolding add_months
add_months-acc zero m year days = omega arith
add_months-acc (suc n) m year days = ground (
  arith,
  add_months-acc n (m + 1) year
      (days + get_or month_table (m - 1) 0 + (if m == 2 && leap_year year then 1 else 0)),
  add_months-acc n (m + 1) year
      (0 + get_or month_table (m - 1) 0 + (if m == 2 && leap_year year then 1 else 0)),
)

month_days-step : (m year : ℕ) → 1 ≤ m → m ≤ 12 → month_days year m ≡ step_days m year
unfolding month_days
month_days-step m year lo hi = ground arith

add_months-suc :
    (n m year : ℕ)
    → 1 ≤ m
    → m ≤ 12
    → add_months (suc n) m year 0 ≡ month_days year m + add_months n (m + 1) year 0
unfolding add_months
add_months-suc n m year lo hi =
    add_months-acc n (m + 1) year
      (0 + get_or month_table (m - 1) 0 + (if m == 2 && leap_year year then 1 else 0))
    ∙ ap (λ d. d + add_months n (m + 1) year 0) (ground (arith, month_days-step m year lo hi))

add_months-zero : (m year : ℕ) → add_months 0 m year 0 ≡ 0
unfolding add_months
add_months-zero m year = refl

-- The months of a year.
pub twelve_months : (year : ℕ) → add_months 12 1 year 0 ≡ year_days year
unfolding add_months
twelve_months year = ground arith

-- Day `d` from the start of the year `y` on is the day `r.1` of the year `r.0`.
abbrev pub IsYearOf : (y d : ℕ) → ℕ × ℕ → Type 0
IsYearOf y d r = (r.1 < year_days r.0) × (y ≤ r.0) × (add_years (r.0 - y) y 0 + r.1 ≡ d)

year_here : (y d : ℕ) → d < year_days y → IsYearOf y d (y, d)
unfolding add_years
year_here y d h = let z : y - y ≡ 0 = omega arith in rw z (h, omega arith, omega arith)

year_later :
    (y d : ℕ) (r : ℕ × ℕ) → year_days y ≤ d → IsYearOf (y + 1) (d - year_days y) r → IsYearOf y d r
year_later y d r h (a, b, c) =
    let z : r.0 - y ≡ suc (r.0 - (y + 1)) = omega arith in
    rw z (a, omega arith, omega (arith, add_years-suc (r.0 - (y + 1)) y))

-- The search for the year ends within as many rounds as there are days.
pub find_year-IsYearOf : (fuel y d : ℕ) → d ≤ fuel → IsYearOf y d (find_year fuel y d)
unfolding find_year
find_year-IsYearOf zero y d h = year_here y d (ground arith)
find_year-IsYearOf (suc fuel) y d h = elim (Bool-cases (leb (year_days y) d)) [
  | inl e ↦
      rw (e, find_year)
        (year_later y d (find_year fuel (y + 1) (d - year_days y)) (ground arith)
          (find_year-IsYearOf fuel (y + 1) (d - year_days y) (ground arith)))
  | inr e ↦ rw (e, find_year) (year_here y d (ground arith))
]

-- A sum of whole years and a part of the next is taken apart again.
pub find_year-add_years :
    (k fuel y d : ℕ)
    → k ≤ fuel
    → d < year_days (y + k)
    → find_year fuel y (add_years k y 0 + d) ≡ (y + k, d)
unfolding find_year add_years
find_year-add_years zero zero y d l h = ap₂ (λ a b. (a, b)) (omega arith) (omega arith)
find_year-add_years zero (suc fuel) y d l h =
    let z : y + 0 ≡ y = omega arith in
    let h' : d < year_days y = rw z at h in rw z (ground (arith, h'))
find_year-add_years (suc k) zero y d l h = absurd (omega arith)
find_year-add_years (suc k) (suc fuel) y d l h =
    let z : y + 1 + k ≡ y + suc k = omega arith in
    let sum = add_years-suc k y in
    let e : leb (year_days y) (add_years (suc k) y 0 + d) ≡ true = ground (arith, sum) in
    let left : add_years (suc k) y 0 + d - year_days y ≡ add_years k (y + 1) 0 + d =
      omega (arith, sum) in
    rw e
      (rw left (find_year-add_years k fuel (y + 1) d (omega arith) (rw z h) ∙ ap (λ a. (a, d)) z))

-- The same for the months, in a year.
abbrev pub IsMonthOf : (year m d : ℕ) → ℕ × ℕ → Type 0
IsMonthOf year m d r =
    (r.1 < month_days year r.0) × (m ≤ r.0) × (r.0 ≤ 12) × (add_months (r.0 - m) m year 0 + r.1 ≡ d)

month_here : (year m d : ℕ) → m ≤ 12 → d < month_days year m → IsMonthOf year m d (m, d)
unfolding add_months
month_here year m d hi h = let z : m - m ≡ 0 = omega arith in rw z (h, omega arith, hi, omega arith)

month_later :
    (year m d : ℕ) (r : ℕ × ℕ)
    → 1 ≤ m
    → month_days year m ≤ d
    → IsMonthOf year (m + 1) (d - month_days year m) r
    → IsMonthOf year m d r
month_later year m d r lo h (a, b, hi, c) =
    let z : r.0 - m ≡ suc (r.0 - (m + 1)) = omega arith in
    rw z (a, omega arith, hi, omega (arith, add_months-suc (r.0 - (m + 1)) m year lo (omega arith)))

pub find_month-IsMonthOf :
    (fuel year m d : ℕ)
    → 1 ≤ m
    → fuel + m ≡ 13
    → d < add_months fuel m year 0
    → IsMonthOf year m d (find_month fuel year m d)
unfolding find_month
find_month-IsMonthOf zero year m d lo f h = absurd (none_left h)
  where
    none_left : d < add_months 0 m year 0 → ⊥
    none_left h = omega (arith, add_months-zero m year)
find_month-IsMonthOf (suc fuel) year m d lo f h =
    let sum = add_months-suc fuel m year lo (omega arith) in
    elim (Bool-cases (leb (month_days year m) d)) [
      | inl e ↦
          rw (e, find_month)
            (month_later year m d (find_month fuel year (m + 1) (d - month_days year m)) lo
              (ground arith)
              (find_month-IsMonthOf fuel year (m + 1) (d - month_days year m) (omega arith)
                (omega arith) (ground (arith, sum))))
      | inr e ↦ rw (e, find_month) (month_here year m d (omega arith) (ground arith))
    ]

pub find_month-add_months :
    (k fuel year m d : ℕ)
    → k ≤ fuel
    → 1 ≤ m
    → m + k ≤ 12
    → d < month_days year (m + k)
    → find_month fuel year m (add_months k m year 0 + d) ≡ (m + k, d)
unfolding find_month add_months
find_month-add_months zero zero year m d l lo hi h = ap₂ (λ a b. (a, b)) (omega arith) (omega arith)
find_month-add_months zero (suc fuel) year m d l lo hi h =
    let z : m + 0 ≡ m = omega arith in
    let h' : d < month_days year m = rw z at h in rw z (ground (arith, h'))
find_month-add_months (suc k) zero year m d l lo hi h = absurd (omega arith)
find_month-add_months (suc k) (suc fuel) year m d l lo hi h =
    let z : m + 1 + k ≡ m + suc k = omega arith in
    let sum = add_months-suc k m year lo (omega arith) in
    let e : leb (month_days year m) (add_months (suc k) m year 0 + d) ≡ true =
      ground (arith, sum) in
    let left : add_months (suc k) m year 0 + d - month_days year m
        ≡ add_months k (m + 1) year 0 + d =
      omega (arith, sum) in
    rw e (
      rw left (
        find_month-add_months k fuel year (m + 1) d (omega arith) (omega arith) (omega arith)
          (rw z h)
        ∙ ap (λ a. (a, d)) z))

-- The day of a month is a day of its year.
pub month_fits :
    (k j m year : ℕ)
    → 1 ≤ m
    → m + k + j ≡ 12
    → add_months k m year 0 + month_days year (m + k) ≤ add_months (suc (k + j)) m year 0
month_fits zero j m year lo f =
    let z : m + 0 ≡ m = omega arith in
    let y : suc (0 + j) ≡ suc j = omega arith in
    rw (z, y) (omega (arith, add_months-zero m year, add_months-suc j m year lo (omega arith)))
month_fits (suc k) j m year lo f =
    let z : m + suc k ≡ m + 1 + k = omega arith in
    let y : suc (suc k + j) ≡ suc (suc (k + j)) = omega arith in
    rw (z, y)
      (omega (
        arith,
        add_months-suc k m year lo (omega arith),
        add_months-suc (suc (k + j)) m year lo (omega arith),
        month_fits k j (m + 1) year (omega arith) (omega arith),
      ))
