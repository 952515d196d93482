-- ===== src/Crb/Flows.antt =====
-- src/quantfinlib/crb/central_risk_book.py: the flows that can be booked, and their legs.
use quant_finance_py.Prelude.{◌+◌, ◌≡◌, ◌⊎◌, Bool, none, some, List, [], ◌∷◌}
use quant_finance_py.Prelude.Double.{Double, magnitude}
use quant_finance_py.Prelude.Dict.{Text, Dict, put_key}
use quant_finance_py.Crb.{CentralRiskBook, Outcome, returned, raised, post, pending_fixing}
use quant_finance_py.Crb.Products.{
  OptionType, Greeks, Inputs, base_of, quote_of, eq_factor, eq_gamma_factor, eq_vega_factor,
  ccy_factor, fx_points_factor, fx_gamma_factor, fx_vega_factor, hundred, delta_of, gamma_of,
  vega_of, book_cash_equity, book_equity_option, book_fx_spot, book_fx_swap, book_ndf,
  book_fx_option,
}

-- A flow that a desk books.
pub data Flow (F : Type 0) : Type 0 where
  cash_equity : Text → Text → F → F → Flow F
  equity_option : Text → Text → OptionType → F → F → Inputs F → Flow F
  fx_spot : Text → Text → F → F → Flow F
  fx_swap : Text → Text → F → F → F → Flow F
  ndf : Text → Text → F → F → Flow F
  fx_option : Text → Text → OptionType → F → Inputs F → Flow F

-- An amount of one factor for one desk.
pub record Leg (F : Type 0) : Type 0 where
  pub desk : Text
  pub factor : Text
  pub amount : F

module _ (d : Double) where
  open d use {Num, negate, plus, minus, times, over}

  abbrev pub post_all : List (Leg Num) → CentralRiskBook Num → CentralRiskBook Num
  post_all [] b = b
  post_all (l ∷ ls) b = post_all ls (post d l.desk l.factor l.amount b)

  -- The book with some legs, counted as one flow.
  abbrev pub with_flow : List (Leg Num) → Dict Num → CentralRiskBook Num → CentralRiskBook Num
  with_flow ls fixings b = record (post_all ls b) {
    flows_booked = b.flows_booked + 1;
    pending_fixings = fixings;
  }

  module _ (is_blank : Text → Bool) (greeks : Greeks Num) where
    abbrev pub apply : CentralRiskBook Num → Flow Num → Outcome (CentralRiskBook Num)
    apply b (cash_equity desk symbol qty price) =
        book_cash_equity d is_blank greeks b desk symbol qty price
    apply b (equity_option desk symbol t contracts multiplier x) =
        book_equity_option d is_blank greeks b desk symbol t contracts multiplier x
    apply b (fx_spot desk pair n rate) = book_fx_spot d is_blank greeks b desk pair n rate
    apply b (fx_swap desk pair n near far) = book_fx_swap d is_blank greeks b desk pair n near far
    apply b (ndf desk pair n rate) = book_ndf d is_blank greeks b desk pair n rate
    apply b (fx_option desk pair t n x) = book_fx_option d is_blank greeks b desk pair t n x

    abbrev pub equity_option_legs :
        Text → Text → Num → Inputs Num → Num → Num → Num → List (Leg Num)
    equity_option_legs desk symbol units x delta gamma vega =
        record {
          desk = desk;
          factor = eq_factor d symbol;
          amount = times (times units delta) x.spot;
        }
        ∷ record {
          desk = desk;
          factor = eq_gamma_factor d symbol;
          amount = over (times (times (times units gamma) x.spot) x.spot) (hundred d);
        }
        ∷ record {
          desk = desk;
          factor = eq_vega_factor d symbol;
          amount = over (times units vega) (hundred d);
        }
        ∷ []

    abbrev pub fx_option_legs : Text → Text → Num → Inputs Num → Num → Num → Num → List (Leg Num)
    fx_option_legs desk pair n x delta gamma vega =
        record { desk = desk; factor = ccy_factor d (base_of d pair); amount = times n delta }
        ∷ record {
          desk = desk;
          factor = ccy_factor d (quote_of d pair);
          amount = times (negate (times n delta)) x.spot;
        }
        ∷ record {
          desk = desk;
          factor = fx_gamma_factor d pair;
          amount = over (times (times (times n gamma) x.spot) x.spot) (hundred d);
        }
        ∷ record {
          desk = desk;
          factor = fx_vega_factor d pair;
          amount = over (times n vega) (hundred d);
        }
        ∷ []

    abbrev pub with_greeks :
        OptionType → Inputs Num → (Num → Num → Num → List (Leg Num)) → List (Leg Num)
    with_greeks t x legs = elim (delta_of d is_blank greeks t x) [
      | none ↦ []
      | some delta ↦ elim (gamma_of d is_blank greeks x) [
        | none ↦ []
        | some gamma ↦ elim (vega_of d is_blank greeks x) [
          | none ↦ []
          | some vega ↦ legs delta gamma vega
        ]
      ]
    ]

    abbrev pub outright_legs : Text → Text → Num → Num → List (Leg Num)
    outright_legs desk pair n rate =
        record { desk = desk; factor = ccy_factor d (base_of d pair); amount = n }
        ∷ record {
          desk = desk;
          factor = ccy_factor d (quote_of d pair);
          amount = times (negate n) rate;
        }
        ∷ []

    -- The decomposition of a flow into the common factors.
    abbrev pub legs_of : Flow Num → List (Leg Num)
    legs_of (cash_equity desk symbol qty price) =
        record { desk = desk; factor = eq_factor d symbol; amount = times qty price } ∷ []
    legs_of (equity_option desk symbol t contracts multiplier x) =
        with_greeks t x (equity_option_legs desk symbol (times contracts multiplier) x)
    legs_of (fx_spot desk pair n rate) = outright_legs desk pair n rate
    legs_of (fx_swap desk pair n near far) =
        record {
          desk = desk;
          factor = ccy_factor d (quote_of d pair);
          amount = times n (minus far near);
        }
        ∷ record { desk = desk; factor = fx_points_factor d pair; amount = negate n }
        ∷ []
    legs_of (ndf desk pair n rate) = outright_legs desk pair n rate
    legs_of (fx_option desk pair t n x) = with_greeks t x (fx_option_legs desk pair n x)

    -- The fixings pending behind a flow.
    abbrev pub fixings_after : Flow Num → CentralRiskBook Num → Dict Num
    fixings_after (ndf desk pair n rate) b =
        put_key pair (plus (pending_fixing d b pair) (magnitude d n)) b.pending_fixings
    fixings_after flow b = b.pending_fixings

    -- A booking returned with all legs of the flow, or it raised and left the book as it was.
    abbrev pub IsAtomic : CentralRiskBook Num → Flow Num → Type 0
    IsAtomic b flow =
        (apply b flow ≡ raised b)
        ⊎ (apply b flow ≡ returned (with_flow (legs_of flow) (fixings_after flow b) b))
