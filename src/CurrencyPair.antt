-- ===== src/CurrencyPair.antt =====
-- src/quantfinlib/fx/currency_pair.py: the conventions of a pair and its settlement dates. A text
-- is the list of its characters' codes, of Latin-1, and a date its ordinal, with no last date.
-- `str.strip` and `int` are those of the parser of messages. The literals 0.01 and 0.0001 are the
-- quotients that round to them.
pub mod Settlement
mod Tests
use quant_finance_py.Prelude.{
  ℕ, zero, suc, ◌+◌, ◌-◌, ◌*◌, ◌/◌, ◌%◌, ◌^◌, min, Bool, true, false, not, ◌&&◌, ◌||◌, Option, none,
  some, List, [], ◌∷◌, ◌++◌, map, ◌==◌, ltb, leb, if◌then◌else◌, length, take, drop, get_elem?,
}
use quant_finance_py.Prelude.Int.{ℤ, pos, negsuc, ◌+ℤ◌}
use quant_finance_py.Prelude.Maybe.{◌>>=◌}
use quant_finance_py.Prelude.Double.{Double, times_ℤ}
use quant_finance_py.Fix.Reader.{lstrip, rstrip, int_of}
use quant_finance_py.Calendar.Civil.{Date, days_in_month, to_ordinal, of_ordinal}
use quant_finance_py.Calendar.{
  BusinessCalendar, weekends_only, union, is_business_day, roll, following, modified_following,
  preceding, add_business_days, subtract_business_days,
}

-- `LocalDate.plusMonths`: the day is clamped to the end of the month; a year before 1 raises.
unfoldable pub plus_months : ℕ → ℤ → Option ℕ
unfolding to_ordinal of_ordinal ◌+ℤ◌
plus_months d months =
    let date = of_ordinal d in
    elim (pos (date.year * 12 + (date.month - 1)) +ℤ months) [
      | negsuc n ↦ none
      | pos month_index ↦
          let year = month_index / 12 in
          let month = month_index % 12 + 1 in
          if year == 0
          then none
          else some (
              to_ordinal (record {
                year = year;
                month = month;
                day = min date.day (days_in_month year month);
              }))
    ]

-- A date moved by days; a date before the first raises.
unfoldable pub shifted : ℕ → ℤ → Option ℕ
unfolding ◌+ℤ◌
shifted d n = elim (pos d +ℤ n) [ negsuc n ↦ none | pos d' ↦ if d' == 0 then none else some d' ]

unfoldable pub end_of_month : ℕ → ℕ
unfolding to_ordinal of_ordinal
end_of_month d =
    let date = of_ordinal d in to_ordinal (record date { day = days_in_month date.year date.month })

-- The market's tenors.
pub data Tenor : Type 0 where
  overnight tom_next spot_next : Tenor
  days weeks months years : ℤ → Tenor

pub record CurrencyPair (F : Type 0) : Type 0 where
  pub base : List ℕ
  pub quote : List ℕ
  pub pip_size : F
  pub price_precision : ℕ
  pub spot_lag_days : ℕ
  pub base_calendar : BusinessCalendar
  pub quote_calendar : BusinessCalendar

-- The holiday union of both centers.
abbrev pub joint_calendar : {F : Type 0} → CurrencyPair F → BusinessCalendar
joint_calendar p = union p.base_calendar p.quote_calendar

abbrev pub symbol : {F : Type 0} → CurrencyPair F → List ℕ
symbol p = p.base ++ p.quote

-- `str.upper` on ASCII letters.
abbrev pub upper : List ℕ → List ℕ
upper = map (λ c. if leb 97 c && leb c 122 then c - 32 else c)

abbrev pub same_text : List ℕ → List ℕ → Bool
same_text [] [] = true
same_text [] (y ∷ ys) = false
same_text (x ∷ xs) [] = false
same_text (x ∷ xs) (y ∷ ys) = (x == y) && same_text xs ys

abbrev pub jpy : List ℕ
jpy = b'J' ∷ b'P' ∷ b'Y' ∷ []

abbrev pub usd : List ℕ → List ℕ
usd q = b'U' ∷ b'S' ∷ b'D' ∷ q

-- `_T_PLUS_ONE`.
abbrev pub is_t_plus_one : List ℕ → Bool
is_t_plus_one p =
    same_text p (usd (b'C' ∷ b'A' ∷ b'D' ∷ []))
    || (same_text p (usd (b'T' ∷ b'R' ∷ b'Y' ∷ []))
        || (same_text p (usd (b'R' ∷ b'U' ∷ b'B' ∷ []))
            || same_text p (usd (b'P' ∷ b'H' ∷ b'P' ∷ []))))

abbrev pub is_word : ℕ → ℕ → List ℕ → Bool
is_word x y = same_text (x ∷ y ∷ [])

-- A number of units.
unfoldable pub period : ℤ → ℕ → Option Tenor
period n unit =
    if unit == b'D'
    then some (days n)
    else if unit == b'W'
    then some (weeks n)
    else if unit == b'M'
    then some (months n)
    else if unit == b'Y'
    then some (years n)
    else none

-- The tenor that a text in capitals, without white space around it, stands for.
unfoldable pub tenor_of_word : List ℕ → Option Tenor
unfolding int_of period
tenor_of_word t =
    if is_word b'O' b'N' t
    then some overnight
    else if is_word b'T' b'N' t
    then some tom_next
    else if is_word b'S' b'N' t
    then some spot_next
    else (do n ← int_of (take (length t - 1) t); unit ← get_elem? t (length t - 1); period n unit)

unfoldable pub tenor_of : List ℕ → Option Tenor
unfolding lstrip rstrip tenor_of_word
tenor_of tenor = tenor_of_word (rstrip (lstrip (upper tenor)))

module _ (d : Double) where
  open d use {Num, of_ℤ, plus, times, over, at_most, same, truncate}

  -- The conventions of a base and a quote currency in capitals.
  abbrev pub standard : List ℕ → List ℕ → CurrencyPair Num
  standard b q = record {
    base = b;
    quote = q;
    pip_size = over (of_ℤ (pos 1)) (of_ℤ (pos (if same_text q jpy then 100 else 10000)));
    price_precision = if same_text q jpy then 3 else 5;
    spot_lag_days = if is_t_plus_one (b ++ q) then 1 else 2;
    base_calendar = weekends_only;
    quote_calendar = weekends_only;
  }

  -- `of`: one text of six letters, or a base and a quote.
  unfoldable pub of : List ℕ → Option (List ℕ) → Option (CurrencyPair Num)
  of pair none =
      if length pair == 6 then some (standard (upper (take 3 pair)) (upper (drop 3 pair))) else none
  of base (some quote) = some (standard (upper base) (upper quote))

  unfoldable pub custom :
      List ℕ
      → List ℕ
      → Num
      → ℕ
      → ℕ
      → BusinessCalendar
      → BusinessCalendar
      → Option (CurrencyPair Num)
  custom base quote pip_size price_precision spot_lag_days base_calendar quote_calendar =
      if at_most pip_size (of_ℤ (pos 0))
      then none
      else some (record {
        base = upper base;
        quote = upper quote;
        pip_size = pip_size;
        price_precision = price_precision;
        spot_lag_days = spot_lag_days;
        base_calendar = base_calendar;
        quote_calendar = quote_calendar;
      })

  -- `__eq__` of two pairs.
  unfoldable pub same_pair : CurrencyPair Num → CurrencyPair Num → Bool
  same_pair p q =
      same_text p.base q.base
      && (same_text p.quote q.quote
          && (same p.pip_size q.pip_size && (p.spot_lag_days == q.spot_lag_days)))

  unfoldable pub pips : CurrencyPair Num → Num → Num
  pips p price_difference = over price_difference p.pip_size

  unfoldable pub price_from_pips : CurrencyPair Num → Num → Num
  price_from_pips p n = times n p.pip_size

  -- `round`, with the scale `10.0 ** precision` and one half.
  unfoldable pub rounded : CurrencyPair Num → Num → Num
  rounded p price =
      let scale = of_ℤ (pos (10 ^ p.price_precision)) in
      over (of_ℤ (truncate (plus (times price scale) (over (of_ℤ (pos 1)) (of_ℤ (pos 2)))))) scale

module _ {F : Type 0} (p : CurrencyPair F) where
  abbrev pub with_calendars : BusinessCalendar → BusinessCalendar → CurrencyPair F
  with_calendars base_calendar quote_calendar = record p {
    base_calendar = base_calendar;
    quote_calendar = quote_calendar;
  }

  unfoldable pub is_joint_business_day : ℕ → Bool
  is_joint_business_day d = is_business_day (joint_calendar p) d

  unfoldable pub add_joint_business_days : ℕ → ℕ → ℕ
  add_joint_business_days d n = add_business_days (joint_calendar p) d n

  unfoldable pub spot_date : ℕ → ℕ
  unfolding add_joint_business_days
  spot_date trade_date = add_joint_business_days trade_date p.spot_lag_days

  unfoldable pub trade_date_for_spot : ℕ → Option ℕ
  trade_date_for_spot spot = subtract_business_days (joint_calendar p) spot p.spot_lag_days

  unfoldable pub roll_following : ℕ → Option ℕ
  roll_following d = roll (joint_calendar p) following d

  unfoldable pub last_joint_business_day_of : ℕ → Option ℕ
  last_joint_business_day_of d = roll (joint_calendar p) preceding (end_of_month d)

  unfoldable pub month_tenor : ℕ → ℤ → Option ℕ
  unfolding last_joint_business_day_of plus_months
  month_tenor spot n = do
    target ← plus_months spot n
    last ← last_joint_business_day_of spot
    (if spot == last
        then last_joint_business_day_of target
        else roll (joint_calendar p) modified_following target)

  unfoldable pub shifted_following : ℕ → ℤ → Option ℕ
  unfolding roll_following shifted
  shifted_following spot n = do d ← shifted spot n; roll_following d

  -- The settlement date of a tenor that was recognised.
  unfoldable pub date_of : ℕ → Tenor → Option ℕ
  unfolding spot_date add_joint_business_days shifted_following month_tenor
  date_of trade_date overnight = some (add_joint_business_days trade_date 1)
  date_of trade_date tom_next = some (add_joint_business_days trade_date 2)
  date_of trade_date spot_next = some (add_joint_business_days (spot_date trade_date) 1)
  date_of trade_date (days n) = shifted_following (spot_date trade_date) n
  date_of trade_date (weeks n) = shifted_following (spot_date trade_date) (times_ℤ (pos 7) n)
  date_of trade_date (months n) = month_tenor (spot_date trade_date) n
  date_of trade_date (years n) = month_tenor (spot_date trade_date) (times_ℤ n (pos 12))

  -- `tenor_date`; `none` is a raised error.
  unfoldable pub tenor_date : ℕ → List ℕ → Option ℕ
  unfolding tenor_of date_of
  tenor_date trade_date tenor = do t ← tenor_of tenor; date_of trade_date t
