-- ===== src/Calendar/Civil.antt =====
-- The proleptic Gregorian calendar of `datetime`: ordinals and year, month and day.
use quant_finance_py.Prelude.{
  ℕ, zero, suc, ◌+◌, ◌-◌, ◌*◌, ◌/◌, ◌%◌, Bool, not, ◌&&◌, ◌||◌, ◌==◌, leb, if◌then◌else◌, ◌≡◌, refl,
}

pub record Date : Type 0 where
  pub year : ℕ
  pub month : ℕ
  pub day : ℕ

abbrev pub is_leap : ℕ → Bool
is_leap y = (y % 4 == 0) && (not (y % 100 == 0) || (y % 400 == 0))

-- `calendar.monthrange`.
abbrev pub days_in_month : ℕ → ℕ → ℕ
days_in_month y m =
    if m == 2
    then (if is_leap y then 29 else 28)
    else if (m == 4) || ((m == 6) || ((m == 9) || (m == 11)))
    then 30
    else 31

abbrev pub days_before_year : ℕ → ℕ
days_before_year y = let z = y - 1 in z * 365 + z / 4 - z / 100 + z / 400

-- The days of year `y` before month `m + 1`.
unfoldable pub days_before_month : ℕ → ℕ → ℕ
days_before_month y zero = 0
days_before_month y (suc m) = days_before_month y m + days_in_month y (suc m)

unfoldable pub to_ordinal : Date → ℕ
unfolding days_before_month
to_ordinal d = days_before_year d.year + days_before_month d.year (d.month - 1) + d.day

-- The month and the day of a day of the year, counted from 0, from month `m` on.
unfoldable pub find_month : ℕ → ℕ → ℕ → ℕ → Date
find_month zero y m n = record { year = y; month = m; day = n + 1 }
find_month (suc fuel) y m n =
    let rest = find_month fuel y (m + 1) (n - days_in_month y m) in
    if leb (days_in_month y m) n then rest else record { year = y; month = m; day = n + 1 }

unfoldable pub of_ordinal : ℕ → Date
unfolding find_month
of_ordinal d =
    let n = d - 1 in
    let r400 = n % 146097 in
    let r100 = r400 % 36524 in
    let r4 = r100 % 1461 in
    let year = n / 146097 * 400 + r400 / 36524 * 100 + r100 / 1461 * 4 + r4 / 365 + 1 in
    if (r4 / 365 == 4) || (r400 / 36524 == 4)
    then record { year = year - 1; month = 12; day = 31 }
    else find_month 11 year 1 (r4 % 365)

unfoldable pub month_of : ℕ → ℕ
unfolding of_ordinal
month_of d = (of_ordinal d).month

-- The last day of February 2024, and the first day of 2000.
leap_day : of_ordinal 738945 ≡ record { year = 2024; month = 2; day = 29 }
unfolding of_ordinal
leap_day = refl

millennium : to_ordinal (of_ordinal 730120) ≡ 730120
unfolding to_ordinal of_ordinal
millennium = refl
