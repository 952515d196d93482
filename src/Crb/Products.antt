-- ===== src/Crb/Products.antt =====
-- src/quantfinlib/crb/central_risk_book.py: the bookings of the products. The greeks of options, of
-- which `none` raises, and the test that a name is blank are parameters.
use quant_finance_py.Prelude.{Bool, not, ◌&&◌, Option, none, some, ◌∷◌, if◌then◌else◌, take, drop}
use quant_finance_py.Prelude.Int.{pos}
use quant_finance_py.Prelude.Double.{Double, magnitude}
use quant_finance_py.Prelude.Dict.{Text, put_key}
use quant_finance_py.Crb.{
  CentralRiskBook, Outcome, raised, ◌>>=◌, add, counted, require_positive, require_pair,
  pending_fixing,
}

-- The value of a computation that may raise before it changes the book.
abbrev pub or_raise :
    {F : Type 0}
    → Option F
    → CentralRiskBook F
    → (F → Outcome (CentralRiskBook F))
    → Outcome (CentralRiskBook F)
or_raise none b k = raised b
or_raise (some x) b k = k x

pub data OptionType : Type 0 where
  call put : OptionType

-- `BlackScholes`: of a spot, a strike, a rate, a carry, a volatility and a time.
pub record Greeks (F : Type 0) : Type 0 where
  pub delta : OptionType → F → F → F → F → F → F → Option F
  pub gamma : F → F → F → F → F → F → Option F
  pub vega : F → F → F → F → F → F → Option F

-- What an option is priced from.
pub record Inputs (F : Type 0) : Type 0 where
  pub spot : F
  pub strike : F
  pub rate : F
  pub carry : F
  pub vol : F
  pub time_years : F

module _ (d : Double) where
  open d use {Num, of_ℤ, negate, plus, minus, times, over, finite}

  abbrev pub base_of : Text → Text
  base_of pair = take 3 pair

  abbrev pub quote_of : Text → Text
  quote_of pair = take 3 (drop 3 pair)

  abbrev pub eq_factor : Text → Text
  eq_factor symbol = b'E' ∷ b'Q' ∷ b':' ∷ symbol

  abbrev pub eq_gamma_factor : Text → Text
  eq_gamma_factor symbol = b'E' ∷ b'Q' ∷ b'G' ∷ b'A' ∷ b'M' ∷ b'M' ∷ b'A' ∷ b':' ∷ symbol

  abbrev pub eq_vega_factor : Text → Text
  eq_vega_factor symbol = b'E' ∷ b'Q' ∷ b'V' ∷ b'E' ∷ b'G' ∷ b'A' ∷ b':' ∷ symbol

  abbrev pub ccy_factor : Text → Text
  ccy_factor ccy = b'C' ∷ b'C' ∷ b'Y' ∷ b':' ∷ ccy

  abbrev pub fx_points_factor : Text → Text
  fx_points_factor pair = b'F' ∷ b'X' ∷ b'P' ∷ b'O' ∷ b'I' ∷ b'N' ∷ b'T' ∷ b'S' ∷ b':' ∷ pair

  abbrev pub fx_gamma_factor : Text → Text
  fx_gamma_factor pair = b'F' ∷ b'X' ∷ b'G' ∷ b'A' ∷ b'M' ∷ b'M' ∷ b'A' ∷ b':' ∷ pair

  abbrev pub fx_vega_factor : Text → Text
  fx_vega_factor pair = b'F' ∷ b'X' ∷ b'V' ∷ b'E' ∷ b'G' ∷ b'A' ∷ b':' ∷ pair

  abbrev pub hundred : Num
  hundred = of_ℤ (pos 100)

  module _ (is_blank : Text → Bool) (greeks : Greeks Num) where
    unfoldable pub book_cash_equity :
        CentralRiskBook Num → Text → Text → Num → Num → Outcome (CentralRiskBook Num)
    unfolding add
    book_cash_equity b desk symbol qty price =
        if not (is_blank desk) && (finite qty && require_positive d price)
        then (do b1 ← add d desk (eq_factor symbol) (times qty price) b; counted d b1)
        else raised b

    abbrev pub delta_of : OptionType → Inputs Num → Option Num
    delta_of t x = greeks.delta t x.spot x.strike x.rate x.carry x.vol x.time_years

    abbrev pub gamma_of : Inputs Num → Option Num
    gamma_of x = greeks.gamma x.spot x.strike x.rate x.carry x.vol x.time_years

    abbrev pub vega_of : Inputs Num → Option Num
    vega_of x = greeks.vega x.spot x.strike x.rate x.carry x.vol x.time_years

    abbrev pub valid_inputs : Inputs Num → Bool
    valid_inputs x =
        finite x.rate
        && (finite x.carry
            && (require_positive d x.spot
                && (require_positive d x.strike
                    && (require_positive d x.vol && require_positive d x.time_years))))

    unfoldable pub book_equity_option :
        CentralRiskBook Num
        → Text
        → Text
        → OptionType
        → Num
        → Num
        → Inputs Num
        → Outcome (CentralRiskBook Num)
    unfolding add
    book_equity_option b desk symbol option_type contracts multiplier x =
        if not (is_blank desk)
          && (finite contracts && (require_positive d multiplier && valid_inputs x))
        then or_raise (delta_of option_type x) b (λ delta. or_raise (gamma_of x) b (λ gamma.
          or_raise (vega_of x) b (λ vega.
            let units = times contracts multiplier in
            let delta_leg = times (times units delta) x.spot in
            let gamma_leg = over (times (times (times units gamma) x.spot) x.spot) hundred in
            let vega_leg = over (times units vega) hundred in
            if finite delta_leg && (finite gamma_leg && finite vega_leg)
            then (do
              b1 ← add d desk (eq_factor symbol) delta_leg b
              b2 ← add d desk (eq_gamma_factor symbol) gamma_leg b1
              b3 ← add d desk (eq_vega_factor symbol) vega_leg b2
              counted d b3)
            else raised b)))
        else raised b

    unfoldable pub book_fx_spot :
        CentralRiskBook Num → Text → Text → Num → Num → Outcome (CentralRiskBook Num)
    unfolding add
    book_fx_spot b desk pair base_notional rate =
        let quote_leg = times (negate base_notional) rate in
        if not (is_blank desk)
          && (require_pair d pair
              && (finite base_notional && (require_positive d rate && finite quote_leg)))
        then (do
          b1 ← add d desk (ccy_factor (base_of pair)) base_notional b
          b2 ← add d desk (ccy_factor (quote_of pair)) quote_leg b1
          counted d b2)
        else raised b

    unfoldable pub book_fx_swap :
        CentralRiskBook Num → Text → Text → Num → Num → Num → Outcome (CentralRiskBook Num)
    unfolding add
    book_fx_swap b desk pair base_notional near_rate far_rate =
        let quote_imbalance = times base_notional (minus far_rate near_rate) in
        if not (is_blank desk)
          && (require_pair d pair
              && (finite base_notional
                  && (require_positive d near_rate
                      && (require_positive d far_rate && finite quote_imbalance))))
        then (do
          b1 ← add d desk (ccy_factor (quote_of pair)) quote_imbalance b
          b2 ← add d desk (fx_points_factor pair) (negate base_notional) b1
          counted d b2)
        else raised b

    unfoldable pub book_ndf :
        CentralRiskBook Num → Text → Text → Num → Num → Outcome (CentralRiskBook Num)
    unfolding add pending_fixing put_key
    book_ndf b desk pair base_notional fwd_rate =
        let quote_leg = times (negate base_notional) fwd_rate in
        if not (is_blank desk)
          && (require_pair d pair
              && (finite base_notional && (require_positive d fwd_rate && finite quote_leg)))
        then (do
          b1 ← add d desk (ccy_factor (base_of pair)) base_notional b
          b2 ← add d desk (ccy_factor (quote_of pair)) quote_leg b1
          counted d (record b2 {
            pending_fixings =
                put_key pair (plus (pending_fixing d b2 pair) (magnitude d base_notional))
                  b2.pending_fixings;
          }))
        else raised b

    unfoldable pub book_fx_option :
        CentralRiskBook Num
        → Text
        → Text
        → OptionType
        → Num
        → Inputs Num
        → Outcome (CentralRiskBook Num)
    unfolding add
    book_fx_option b desk pair option_type base_notional x =
        if not (is_blank desk) && (require_pair d pair && (finite base_notional && valid_inputs x))
        then or_raise (delta_of option_type x) b (λ delta. or_raise (gamma_of x) b (λ gamma.
          or_raise (vega_of x) b (λ vega.
            let delta_base = times base_notional delta in
            let quote_leg = times (negate delta_base) x.spot in
            let gamma_leg =
              over (times (times (times base_notional gamma) x.spot) x.spot) hundred in
            let vega_leg = over (times base_notional vega) hundred in
            if finite delta_base && (finite quote_leg && (finite gamma_leg && finite vega_leg))
            then (do
              b1 ← add d desk (ccy_factor (base_of pair)) delta_base b
              b2 ← add d desk (ccy_factor (quote_of pair)) quote_leg b1
              b3 ← add d desk (fx_gamma_factor pair) gamma_leg b2
              b4 ← add d desk (fx_vega_factor pair) vega_leg b3
              counted d b4)
            else raised b)))
        else raised b
