-- ===== src/Dsl/Builder.antt =====
-- src/quantfinlib/dsl/strategy_builder.py: the fluent builder, and the backtest of a strategy that
-- it makes. A setter that changes the builder and returns it is a function; the names of the
-- builder and of the strategy are left out.
use quant_finance_py.Prelude.{Option, none, some, List}
use quant_finance_py.Prelude.Maybe.{◌>>=◌}
use quant_finance_py.Prelude.Double.{Double}
use quant_finance_py.Dsl.{Rule, never, DslStrategy, on_bar}
use quant_finance_py.Backtest.{
  BacktestConfig, Bar, TradingStrategy, BacktestResult, nought, defaults, with_initial_capital, run,
}

pub record StrategyBuilder (F : Type 0) : Type 0 where
  pub entry_rule : Option Rule
  pub exit_rule : Option Rule
  pub stop_loss_pct : F
  pub take_profit_pct : F

module _ {F : Type 0} where
  abbrev pub enter_when : Rule → StrategyBuilder F → StrategyBuilder F
  enter_when rule b = record b { entry_rule = some rule }

  abbrev pub exit_when : Rule → StrategyBuilder F → StrategyBuilder F
  exit_when rule b = record b { exit_rule = some rule }

  abbrev pub with_stop_loss : F → StrategyBuilder F → StrategyBuilder F
  with_stop_loss pct b = record b { stop_loss_pct = pct }

  abbrev pub with_take_profit : F → StrategyBuilder F → StrategyBuilder F
  with_take_profit pct b = record b { take_profit_pct = pct }

  -- `none` is the raised error: the entry rule is required.
  unfoldable pub build : StrategyBuilder F → Option (DslStrategy F)
  build b = do
    enter ← b.entry_rule
    some (record {
      entry = enter;
      exit_rule = elim b.exit_rule [ none ↦ never | some r ↦ r ];
      stop_loss_pct = b.stop_loss_pct;
      take_profit_pct = b.take_profit_pct;
    })

  -- What the backtester calls of a strategy.
  abbrev pub as_strategy : DslStrategy F → TradingStrategy F
  as_strategy s = record {
    signal_at = on_bar s;
    stop_loss_pct = s.stop_loss_pct;
    take_profit_pct = s.take_profit_pct;
  }

-- The second argument of `backtest`.
pub data CapitalOrConfig (F : Type 0) : Type 0 where
  capital : F → CapitalOrConfig F
  with_config : BacktestConfig F → CapitalOrConfig F

module _ (d : Double) where
  open d use {Num}

  abbrev pub named : StrategyBuilder Num
  named = record {
    entry_rule = none;
    exit_rule = none;
    stop_loss_pct = nought d;
    take_profit_pct = nought d;
  }

  unfoldable pub config_of : CapitalOrConfig Num → BacktestConfig Num
  config_of (capital amount) = with_initial_capital d amount (defaults d)
  config_of (with_config c) = c

  unfoldable pub backtest :
      DslStrategy Num → List (Bar Num) → CapitalOrConfig Num → Option (BacktestResult Num)
  unfolding config_of run
  backtest s bars c = run d (config_of c) (as_strategy s) bars 0
