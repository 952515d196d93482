-- ===== src/Calendar/Tests.antt =====
-- A calendar with New Year's Day 2024, a Monday, as a holiday.
use quant_finance_py.Calendar.Civil.{month_of}
use quant_finance_py.Prelude.{◌≡◌, refl, some, [], ◌∷◌}
use quant_finance_py.Calendar.{BusinessCalendar, roll, modified_following, add_business_days}
use quant_finance_py.Calendar.Rolls.{IsRolled, roll-IsRolled}

-- 2023-12-29 is day 738883, a Friday.
abbrev new_year : BusinessCalendar
new_year = record { holidays = 738886 ∷ [] }

settles : add_business_days new_year 738883 2 ≡ 738888
unfolding add_business_days
settles = refl

-- 2023-12-31 rolls back over the end of the month.
month_end : roll new_year modified_following 738885 ≡ some 738883
unfolding roll month_of
month_end = refl

roll-IsRolled_example : IsRolled new_year modified_following 738885 738883
unfolding roll month_of
roll-IsRolled_example = roll-IsRolled new_year modified_following 738885 738883 refl
