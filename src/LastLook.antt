-- ===== src/LastLook.antt =====
-- src/quantfinlib/trading/last_look_gate.py: `LastLookGate`, a maker's decision on a deal request
-- at the end of its hold window. Prices are floating point.
pub mod Decisions
mod Tests
use quant_finance_py.Prelude.{
  ℕ, ◌+◌, Bool, true, false, not, ◌||◌, ◌==◌, Option, none, some, if◌then◌else◌,
}
use quant_finance_py.Prelude.Int.{pos}
use quant_finance_py.Prelude.Double.{Double, magnitude}

pub record LastLookGate (F : Type 0) : Type 0 where
  pub tolerance : F
  pub accepts : ℕ
  pub rejects : ℕ
  pub maker_protective_rejects : ℕ
  pub taker_protective_rejects : ℕ

module _ (d : Double) where
  open d use {Num, of_ℤ, nan, minus, over, less, at_most, same}

  abbrev pub fresh : Num → LastLookGate Num
  fresh tolerance = record {
    tolerance = tolerance;
    accepts = 0;
    rejects = 0;
    maker_protective_rejects = 0;
    taker_protective_rejects = 0;
  }

  -- A tolerance is not NaN if it equals itself.
  unfoldable pub new : Num → Option (LastLookGate Num)
  new tolerance =
      if at_most tolerance (of_ℤ (pos 0)) || not (same tolerance tolerance)
      then none
      else some (fresh tolerance)

  -- Whether a rejected move went against the maker.
  abbrev pub hurts_maker : Bool → Num → Bool
  hurts_maker true move = less (of_ℤ (pos 0)) move
  hurts_maker false move = less move (of_ℤ (pos 0))

  unfoldable pub accept : LastLookGate Num → Bool → Num → Num → LastLookGate Num × Bool
  accept g maker_sells quoted_price current_fair =
      let move = minus current_fair quoted_price in
      if at_most (magnitude d move) g.tolerance
      then (record g { accepts = g.accepts + 1 }, true)
      else if hurts_maker maker_sells move
      then (
        record g {
          rejects = g.rejects + 1;
          maker_protective_rejects = g.maker_protective_rejects + 1;
        },
        false,
      )
      else (
        record g {
          rejects = g.rejects + 1;
          taker_protective_rejects = g.taker_protective_rejects + 1;
        },
        false,
      )

  unfoldable pub reject_rate : LastLookGate Num → Num
  reject_rate g =
      let total = g.accepts + g.rejects in
      if total == 0 then nan else over (of_ℤ (pos g.rejects)) (of_ℤ (pos total))
