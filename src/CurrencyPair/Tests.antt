-- ===== src/CurrencyPair/Tests.antt =====
-- A pair whose quote center has a holiday on 2024-01-01.
use quant_finance_py.Calendar.Civil.{month_of}
use quant_finance_py.CurrencyPair.{plus_months}
use quant_finance_py.Calendar.{add_business_days}
use quant_finance_py.CurrencyPair.{end_of_month}
use quant_finance_py.Calendar.{roll}
use quant_finance_py.Prelude.{◌≡◌, refl, arith, true, none, some, ℕ, List, [], ◌∷◌}
use quant_finance_py.Prelude.Int.{ℤ, pos, negsuc}
use quant_finance_py.Prelude.Double.{whole}
use quant_finance_py.Calendar.{is_business_day, weekends_only}
use quant_finance_py.CurrencyPair.{
  CurrencyPair, of, spot_date, trade_date_for_spot, tenor_date, tenor_of, years,
  is_joint_business_day,
}
use quant_finance_py.CurrencyPair.Settlement.{tenor_date-is_business_day, trade_date-spot_date}

abbrev pair : CurrencyPair ℤ
pair = record {
  base = b'E' ∷ b'U' ∷ b'R' ∷ [];
  quote = b'J' ∷ b'P' ∷ b'Y' ∷ [];
  pip_size = pos 0;
  price_precision = 3;
  spot_lag_days = 2;
  base_calendar = weekends_only;
  quote_calendar = record { holidays = 738886 ∷ [] };
}

lower_case :
    of whole (b'e' ∷ b'u' ∷ b'r' ∷ b'j' ∷ b'p' ∷ b'y' ∷ []) none
    ≡ some (record pair { quote_calendar = weekends_only })
unfolding of
lower_case = refl

-- One month, in lower case and with a space behind it.
abbrev one_month : List ℕ
one_month = b'1' ∷ b'm' ∷ b' ' ∷ []

-- Two business days after 2023-12-29 is 2024-01-03, and a month on 2024-02-05, past a weekend.
tenor : tenor_date pair 738883 one_month ≡ some 738921
unfolding tenor_date roll end_of_month add_business_days plus_months month_of
tenor = refl

-- A negative number of years is read, and an unknown unit is not.
back : tenor_of (b'-' ∷ b'2' ∷ b'Y' ∷ []) ≡ some (years (negsuc 1))
unfolding tenor_of
back = refl

unknown_unit : tenor_date pair 738883 (b'2' ∷ b'Q' ∷ []) ≡ none
unfolding tenor_date
unknown_unit = refl

tenor_date-is_business_day_example :
    (is_business_day weekends_only 738921 ≡ true)
    × (is_business_day (record { holidays = 738886 ∷ [] }) 738921 ≡ true)
unfolding tenor_date roll end_of_month add_business_days plus_months month_of
tenor_date-is_business_day_example = tenor_date-is_business_day pair 738883 738921 one_month refl

trade_date-spot_date_example : trade_date_for_spot pair (spot_date pair 738883) ≡ some 738883
unfolding is_joint_business_day is_business_day
trade_date-spot_date_example = trade_date-spot_date pair 738883 (omega arith) refl
