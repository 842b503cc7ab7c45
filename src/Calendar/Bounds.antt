-- ===== src/Calendar/Bounds.antt =====
-- The bounds of a month enclose the time that they were computed for.
use mikrouli.Common.{
  ℕ, zero, suc, ◌+◌, ◌-◌, ◌*◌, ◌/◌, ◌%◌, ◌≤◌, ◌<◌, ◌≡◌, refl, List, [], ◌∷◌, arith, ltb, take,
  length, Bool-cases, inl, inr,
}
use mikrouli.Calendar.{
  ms_per_day, days_in_year, month_lengths, sum, days_before_year, year_of_day, month_of_day,
  utc_year, utc_month, utc_of_month, month_start, next_month_start,
}

year_of_day_lem :
    (fuel year day : ℕ)
    → day ≤ fuel
    → (days_before_year (year_of_day fuel year day).0 + (year_of_day fuel year day).1
        ≡ days_before_year year + day)
      × ((year_of_day fuel year day).1 < days_in_year (year_of_day fuel year day).0)
unfolding year_of_day days_before_year days_in_year
year_of_day_lem zero year day h = (refl, ground arith)
year_of_day_lem (suc fuel) year day h =
    ground (arith, year_of_day_lem fuel (suc year) (day - days_in_year year))

-- The days before a month, the day, and the days through the month.
month_of_day_lem :
    (ns : List ℕ) (day : ℕ)
    → day < sum ns
    → (sum (take (month_of_day ns day) ns) ≤ day)
      × (day < sum (take (suc (month_of_day ns day)) ns))
      × (month_of_day ns day < length ns)
unfolding month_of_day
month_of_day_lem [] day h = absurd (omega arith)
month_of_day_lem (n ∷ ns) day h = elim (Bool-cases (ltb day n)) [
  | inl e ↦ rw e (ground arith)
  | inr e ↦ let ih = month_of_day_lem ns (day - n) (ground arith) in rw e (ground (arith, ih))
]

sum-month_lengths : (year : ℕ) → sum (month_lengths year) ≡ days_in_year year
unfolding month_lengths days_in_year
sum-month_lengths year = ground arith

-- The first of a month, as days.
abbrev first_day : ℕ → ℕ → ℕ
first_day year month = days_before_year year + sum (take month (month_lengths year))

utc_of_month_within :
    (year month : ℕ) → month < 12 → utc_of_month year month ≡ first_day year month * ms_per_day
unfolding utc_of_month
utc_of_month_within year month h =
    let e : year + month / 12 ≡ year = omega arith in
    let f : month % 12 ≡ month = omega arith in rw (e, f)

length-month_lengths : (year : ℕ) → length (month_lengths year) ≡ 12
unfolding month_lengths
length-month_lengths year = refl

sum-take_all : (year : ℕ) → sum (take 12 (month_lengths year)) ≡ days_in_year year
unfolding month_lengths days_in_year
sum-take_all year = ground arith

-- The month after December is the first of the next year.
utc_of_month_december : (year : ℕ) → utc_of_month year 12 ≡ first_day year 12 * ms_per_day
unfolding utc_of_month days_before_year
utc_of_month_december year =
    let e : year + 1 ≡ suc year = omega arith in rw (e, sum-take_all year) (omega arith)

-- The month after the one with the index `month`, December included.
utc_of_month_next :
    (year month : ℕ)
    → month < 12
    → utc_of_month year (month + 1) ≡ first_day year (suc month) * ms_per_day
utc_of_month_next year month h = elim (Bool-cases (ltb month 11)) [
  | inl before ↦
      let e : month + 1 ≡ suc month = omega arith in
      let within : suc month < 12 = ground arith in
      rw e (utc_of_month_within year (suc month) within)
  | inr last ↦ let e : month ≡ 11 = ground arith in rw e (utc_of_month_december year)
]

enclosed :
    (now first next : ℕ)
    → first ≤ now / ms_per_day
    → now / ms_per_day < next
    → (first * ms_per_day ≤ now) × (now < next * ms_per_day)
enclosed now first next h k = omega arith

-- The bounds of the month of a time enclose it: the first is not after it, the second is after it.
pub month_bounds : (now : ℕ) → (month_start now ≤ now) × (now < next_month_start now)
unfolding month_start next_month_start utc_month utc_year days_before_year
month_bounds now =
    let day = now / ms_per_day in
    let year = year_of_day day 0 day in
    let ns = month_lengths year.0 in
    let month = month_of_day ns year.1 in
    let (before_day, in_year) = year_of_day_lem day 0 day (omega arith) in
    let (after_first, before_next, in_range) =
      month_of_day_lem ns year.1 (rw (sum-month_lengths year.0) in_year) in
    let within : month < 12 = rw (length-month_lengths year.0) at in_range in
    rw (utc_of_month_within year.0 month within, utc_of_month_next year.0 month within)
      (enclosed now _ _ (omega arith) (omega arith))
