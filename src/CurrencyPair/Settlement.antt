-- ===== src/CurrencyPair/Settlement.antt =====
-- src/quantfinlib/fx/currency_pair.py: settlement dates are business days of both centers.
use quant_finance_py.Prelude.{
  ℕ, zero, suc, ◌<◌, ◌≡◌, ◌≢◌, refl, sym, subst, ◌∙◌, true, some, List, ◌==◌, arith, Bool-cases,
  inl, inr,
}
use quant_finance_py.Prelude.Int.{ℤ, pos}
use quant_finance_py.Prelude.Maybe.{>>=-some}
use quant_finance_py.Prelude.Double.{times_ℤ}
use quant_finance_py.Calendar.{
  BusinessCalendar, Roll, no_roll, following, modified_following, preceding, is_business_day,
  next_business_day, add_business_days, roll,
}
use quant_finance_py.Calendar.Walks.{IsBusinessDay, next_business_day_lem}
use quant_finance_py.Calendar.Rolls.{is_business_day-union, roll-IsRolled, subtract-add}
use quant_finance_py.CurrencyPair.{
  CurrencyPair, joint_calendar, is_joint_business_day, add_joint_business_days, spot_date,
  trade_date_for_spot, roll_following, last_joint_business_day_of, month_tenor, tenor_date, Tenor,
  plus_months, shifted, shifted_following, date_of, tenor_of, overnight, tom_next, spot_next, days,
  weeks, months, years,
}

rolled-IsBusinessDay :
    (c : BusinessCalendar) (r : Roll) (d e : ℕ)
    → r ≢ no_roll
    → roll c r d ≡ some e
    → IsBusinessDay c e
rolled-IsBusinessDay c no_roll d e h k = absurd (h refl)
rolled-IsBusinessDay c following d e h k = (roll-IsRolled c following d e k).0
rolled-IsBusinessDay c preceding d e h k = (roll-IsRolled c preceding d e k).0
rolled-IsBusinessDay c modified_following d e h k =
    elim (roll-IsRolled c modified_following d e k) [
      | inl (on, same) ↦ on.0
      | inr (earlier, on, other) ↦ on.0
    ]

added-IsBusinessDay :
    (c : BusinessCalendar) (n d : ℕ) → 0 < n → IsBusinessDay c (add_business_days c d n)
unfolding add_business_days
added-IsBusinessDay c zero d h = ground arith
added-IsBusinessDay c (suc zero) d h = (next_business_day_lem c d).0
added-IsBusinessDay c (suc (suc n)) d h =
    added-IsBusinessDay c (suc n) (next_business_day c d) (omega arith)

module _ {F : Type 0} (p : CurrencyPair F) where
  month_tenor-IsBusinessDay :
      (spot : ℕ) (n : ℤ) (e : ℕ)
      → month_tenor p spot n ≡ some e
      → IsBusinessDay (joint_calendar p) e
  unfolding month_tenor last_joint_business_day_of
  month_tenor-IsBusinessDay spot n e h =
      let (target, moved, h') = >>=-some (plus_months spot n) _ e h in
      let (last, k, h'') = >>=-some (last_joint_business_day_of p spot) _ e h' in
      elim (Bool-cases (spot == last)) [
        | inl m ↦ rolled-IsBusinessDay (joint_calendar p) preceding _ e (λ x. cc) (rw m at h'')
        | inr m ↦
            rolled-IsBusinessDay (joint_calendar p) modified_following _ e (λ x. cc) (rw m at h'')
      ]

  shifted_following-IsBusinessDay :
      (spot : ℕ) (n : ℤ) (e : ℕ)
      → shifted_following p spot n ≡ some e
      → IsBusinessDay (joint_calendar p) e
  unfolding shifted_following roll_following
  shifted_following-IsBusinessDay spot n e h =
      let (d, moved, h') = >>=-some (shifted spot n) _ e h in
      rolled-IsBusinessDay (joint_calendar p) following d e (λ x. cc) h'

  added_is :
      (n d e : ℕ)
      → 0 < n
      → some (add_joint_business_days p d n) ≡ some e
      → IsBusinessDay (joint_calendar p) e
  unfolding add_joint_business_days
  added_is n d e late h =
      let same : add_business_days (joint_calendar p) d n ≡ e = cc in
      subst (IsBusinessDay (joint_calendar p)) same
        (added-IsBusinessDay (joint_calendar p) n d late)

  date_of-IsBusinessDay :
      (trade_date e : ℕ) (t : Tenor)
      → date_of p trade_date t ≡ some e
      → IsBusinessDay (joint_calendar p) e
  unfolding date_of
  date_of-IsBusinessDay trade_date e overnight h = added_is 1 trade_date e (omega arith) h
  date_of-IsBusinessDay trade_date e tom_next h = added_is 2 trade_date e (omega arith) h
  date_of-IsBusinessDay trade_date e spot_next h =
      added_is 1 (spot_date p trade_date) e (omega arith) h
  date_of-IsBusinessDay trade_date e (days n) h =
      shifted_following-IsBusinessDay (spot_date p trade_date) n e h
  date_of-IsBusinessDay trade_date e (weeks n) h =
      shifted_following-IsBusinessDay (spot_date p trade_date) (times_ℤ (pos 7) n) e h
  date_of-IsBusinessDay trade_date e (months n) h =
      month_tenor-IsBusinessDay (spot_date p trade_date) n e h
  date_of-IsBusinessDay trade_date e (years n) h =
      month_tenor-IsBusinessDay (spot_date p trade_date) (times_ℤ n (pos 12)) e h

  -- A text that has a settlement date as a tenor, settles on a business day of both currencies.
  pub tenor_date-is_business_day :
      (trade_date e : ℕ) (tenor : List ℕ)
      → tenor_date p trade_date tenor ≡ some e
      → (is_business_day p.base_calendar e ≡ true) × (is_business_day p.quote_calendar e ≡ true)
  unfolding tenor_date
  tenor_date-is_business_day trade_date e tenor h =
      let (t, read, h') = >>=-some (tenor_of tenor) _ e h in
      let joint : IsBusinessDay (joint_calendar p) e = date_of-IsBusinessDay trade_date e t h' in
      let both = sym (is_business_day-union p.base_calendar p.quote_calendar e) ∙ joint in
      (ground arith, ground arith)

  -- A joint business day is the trade date of its own spot date.
  pub trade_date-spot_date :
      (d : ℕ)
      → 0 < d
      → is_joint_business_day p d ≡ true
      → trade_date_for_spot p (spot_date p d) ≡ some d
  unfolding is_joint_business_day trade_date_for_spot spot_date add_joint_business_days
  trade_date-spot_date d late b = subtract-add (joint_calendar p) p.spot_lag_days d late b
