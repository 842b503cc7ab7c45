-- ===== src/Calendar.antt =====
-- The UTC calendar of JavaScript's `Date`, as far as `getMonthBounds` of
-- apps/api/src/usage/usage.service.ts uses it: the year and the month of a time, and `Date.UTC` of
-- the first of a month. Times are milliseconds since the epoch and not before it; years count from
-- 1970.
pub mod Bounds
use mikrouli.Common.{
  ℕ, zero, suc, ◌+◌, ◌-◌, ◌*◌, ◌/◌, ◌%◌, Bool, not, ◌&&◌, ◌||◌, List, [], ◌∷◌, ◌==◌, ltb, take,
  if◌then◌else◌,
}

abbrev pub ms_per_day : ℕ
ms_per_day = 86400000

is_leap : ℕ → Bool
is_leap y = (y % 4 == 0 && not (y % 100 == 0)) || y % 400 == 0

pub days_in_year : ℕ → ℕ
unfolding is_leap
days_in_year year = if is_leap (1970 + year) then 366 else 365

pub month_lengths : ℕ → List ℕ
unfolding is_leap
month_lengths year =
    31
    ∷ (if is_leap (1970 + year) then 29 else 28)
    ∷ 31
    ∷ 30
    ∷ 31
    ∷ 30
    ∷ 31
    ∷ 31
    ∷ 30
    ∷ 31
    ∷ 30
    ∷ 31
    ∷ []

abbrev pub sum : List ℕ → ℕ
sum [] = 0
sum (n ∷ ns) = n + sum ns

pub days_before_year : ℕ → ℕ
days_before_year zero = 0
days_before_year (suc year) = days_before_year year + days_in_year year

-- The year and the day of the year of a day, by counting years down from a first one.
pub year_of_day : ℕ → ℕ → ℕ → ℕ × ℕ
year_of_day zero year day = (year, day)
year_of_day (suc fuel) year day =
    let later = year_of_day fuel (suc year) (day - days_in_year year) in
    if ltb day (days_in_year year) then (year, day) else later

-- The index of the month that holds a day of the year.
pub month_of_day : List ℕ → ℕ → ℕ
month_of_day [] day = 0
month_of_day (n ∷ ns) day = if ltb day n then 0 else suc (month_of_day ns (day - n))

-- `now.getUTCFullYear()`, with the day of the year, and `now.getUTCMonth()`. A year has a day at
-- least, so as many rounds as there are days are enough.
pub utc_year : ℕ → ℕ × ℕ
utc_year now = year_of_day (now / ms_per_day) 0 (now / ms_per_day)

pub utc_month : ℕ → ℕ
utc_month now = month_of_day (month_lengths (utc_year now).0) (utc_year now).1

-- `Date.UTC(year, month, 1)`: a month past December falls into a later year.
pub utc_of_month : ℕ → ℕ → ℕ
utc_of_month year month =
    let y = year + month / 12 in
    (days_before_year y + sum (take (month % 12) (month_lengths y))) * ms_per_day

-- `getMonthBounds`
pub month_start : ℕ → ℕ
month_start now = utc_of_month (utc_year now).0 (utc_month now)

pub next_month_start : ℕ → ℕ
next_month_start now = utc_of_month (utc_year now).0 (utc_month now + 1)
