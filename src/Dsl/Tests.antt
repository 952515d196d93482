-- ===== src/Dsl/Tests.antt =====
-- Whole numbers of which -1 stands for NaN, and an indicator that warms up for one bar.
use quant_finance_py.Dsl.{single}
use quant_finance_py.Prelude.{
  ℕ, zero, suc, ◌<◌, ◌≤◌, All, arith, length, ◌≡◌, refl, true, not, ◌&&◌, some, List, [], ◌∷◌,
}
use quant_finance_py.Prelude.Int.{ℤ, pos, negsuc, ◌==ℤ◌, ◌-ℤ◌, ◌+ℤ◌}
use quant_finance_py.Prelude.Double.{Double, whole}
use quant_finance_py.Dsl.{not_, above_value}
use quant_finance_py.Dsl.WarmUp.{Formula, f_above_value, f_rising, f_or, rule_of, AllWarmingUp}
use quant_finance_py.Dsl.{DslStrategy, on_bar, never}
use quant_finance_py.Dsl.Builder.{
  StrategyBuilder, named, enter_when, with_stop_loss, build, capital, backtest,
}
use quant_finance_py.Dsl.Entries.{EntersWhere, backtest-warm_up}
use quant_finance_py.Backtest.{Bar, BacktestResult, by_end_of_data}

abbrev with_nan : Double
with_nan = record whole { same = λ x y. not (x ==ℤ negsuc 0) && (x ==ℤ y) }

abbrev average : List ℤ
average = negsuc 0 ∷ pos 5 ∷ pos 5 ∷ []

abbrev rule : Formula with_nan
rule = f_or (f_above_value average (pos 3)) (f_rising average 0)

fires : rule_of with_nan rule 1 ≡ some true
unfolding rule_of
fires = refl

-- A negation is satisfied while its input warms up.
negated : not_ (above_value with_nan average (pos 3)) 0 ≡ some true
unfolding not_ above_value single
negated = refl

abbrev averages_builder : StrategyBuilder ℤ
averages_builder = with_stop_loss (pos 0) (enter_when (rule_of with_nan rule) (named with_nan))

abbrev strategy : DslStrategy ℤ
strategy = record {
  entry = rule_of with_nan rule;
  exit_rule = never;
  stop_loss_pct = pos 0;
  take_profit_pct = pos 0;
}

abbrev bar : Bar ℤ
bar = record { open_price = pos 10; high = pos 10; low = pos 10; close_price = pos 10 }

abbrev bars : List (Bar ℤ)
bars = bar ∷ bar ∷ bar ∷ []

-- Bought at the second bar, the first at which the rule is satisfied, and closed at the last.
abbrev result : BacktestResult ℤ
result = record {
  equity_curve = pos 100 ∷ pos 100 ∷ pos 100 ∷ [];
  trades =
      record {
        entry_index = pos 1;
        exit_index = 2;
        entry_price = pos 10;
        exit_price = pos 10;
        quantity = pos 10;
        pnl = pos 0;
        return_pct = pos 0;
        exit_reason = by_end_of_data;
      }
      ∷ [];
}

builds : build averages_builder ≡ some strategy
unfolding build
builds = refl

runs : backtest with_nan strategy bars (capital (pos 100)) ≡ some result
unfolding backtest on_bar rule_of ◌-ℤ◌ ◌+ℤ◌
runs = refl

warms : (i : ℕ) → i < 1 → AllWarmingUp with_nan rule i
warms zero h = ((λ x h. cc), (λ x h. cc))
warms (suc i) h = absurd (omega arith)

backtest-warm_up_example :
    All
      (EntersWhere (λ e. (rule_of with_nan rule e ≡ some true) × (1 ≤ e) × (e < length bars)))
      result.trades
backtest-warm_up_example =
    backtest-warm_up with_nan refl rule 1 warms averages_builder strategy refl builds bars
      (capital (pos 100)) result runs
