-- ===== src/Calendar.antt =====
-- src/quantfinlib/fx/business_calendar.py: `BusinessCalendar`. A date is its ordinal, day 1 being
-- the first of January of year 1, a Monday; `Calendar/Civil` has its year, month and day. A walk
-- before day 1 raises. The last date that `datetime` has is not modelled: dates go on.
pub mod Civil
pub mod Walks
pub mod Rolls
mod Tests
use quant_finance_py.Prelude.{
  ℕ, zero, suc, ◌+◌, ◌-◌, ◌%◌, max, Bool, true, false, not, ◌&&◌, ◌||◌, Option, none, some, List,
  [], ◌∷◌, ◌++◌, ◌==◌, ltb, if◌then◌else◌,
}
use quant_finance_py.Prelude.Maybe.{◌>>=◌}
use quant_finance_py.Calendar.Civil.{month_of}

pub data Roll : Type 0 where
  no_roll following modified_following preceding : Roll

pub record BusinessCalendar : Type 0 where
  pub holidays : List ℕ

abbrev pub weekends_only : BusinessCalendar
weekends_only = record { holidays = [] }

abbrev pub union : BusinessCalendar → BusinessCalendar → BusinessCalendar
union a b = record { holidays = a.holidays ++ b.holidays }

abbrev pub weekday : ℕ → ℕ
weekday d = (d + 6) % 7

unfoldable pub is_holiday : List ℕ → ℕ → Bool
is_holiday [] d = false
is_holiday (h ∷ hs) d = (h == d) || is_holiday hs d

unfoldable pub is_business_day : BusinessCalendar → ℕ → Bool
unfolding is_holiday
is_business_day c d = ltb (weekday d) 5 && not (is_holiday c.holidays d)

abbrev pub last_holiday : List ℕ → ℕ
last_holiday [] = 0
last_holiday (h ∷ hs) = max h (last_holiday hs)

-- The loop of `_next_business_day`, at most `fuel` days on.
unfoldable pub seek_next : BusinessCalendar → ℕ → ℕ → ℕ
unfolding is_business_day
seek_next c zero d = d
seek_next c (suc fuel) d = elim (is_business_day c d) [
  | true ↦ d
  | false ↦ seek_next c fuel (suc d)
]

unfoldable pub next_business_day : BusinessCalendar → ℕ → ℕ
unfolding seek_next
next_business_day c d = seek_next c (last_holiday c.holidays + 2) (suc d)

-- The loop of `_previous_business_day`.
unfoldable pub seek_previous : BusinessCalendar → ℕ → Option ℕ
unfolding is_business_day
seek_previous c zero = none
seek_previous c (suc d) = elim (is_business_day c (suc d)) [
  | true ↦ some (suc d)
  | false ↦ seek_previous c d
]

unfoldable pub previous_business_day : BusinessCalendar → ℕ → Option ℕ
unfolding seek_previous
previous_business_day c d = seek_previous c (d - 1)

unfoldable pub roll : BusinessCalendar → Roll → ℕ → Option ℕ
unfolding next_business_day previous_business_day
roll c no_roll d = some d
roll c following d = if is_business_day c d then some d else some (next_business_day c d)
roll c preceding d = if is_business_day c d then some d else previous_business_day c d
roll c modified_following d =
    if is_business_day c d
    then some d
    else if month_of (next_business_day c d) == month_of d
    then some (next_business_day c d)
    else previous_business_day c d

-- The lag walks, for `n >= 0`.
unfoldable pub add_business_days : BusinessCalendar → ℕ → ℕ → ℕ
unfolding next_business_day
add_business_days c d zero = d
add_business_days c d (suc n) = add_business_days c (next_business_day c d) n

unfoldable pub subtract_business_days : BusinessCalendar → ℕ → ℕ → Option ℕ
unfolding previous_business_day
subtract_business_days c d zero = some d
subtract_business_days c d (suc n) = do e ← previous_business_day c d; subtract_business_days c e n
