-- ===== src/Backtest/Tests.antt =====
-- A backtest over whole numbers: bought at the first bar, stopped out at the second, bought again
-- there, and closed at the last.
use quant_finance_py.Prelude.{◌+◌, ◌≡◌, refl, some, List, [], ◌∷◌, length, get_elem?}
use quant_finance_py.Prelude.Int.{ℤ, pos, negsuc, ◌-ℤ◌, ◌+ℤ◌}
use quant_finance_py.Prelude.Double.{whole}
use quant_finance_py.Dsl.{buy_signal, hold_signal}
use quant_finance_py.Backtest.{
  BacktestConfig, Bar, TradingStrategy, BacktestResult, by_stop_loss, run,
}
use quant_finance_py.Backtest.Chronology.{IsChronological, run-IsChronological}

abbrev config : BacktestConfig ℤ
config = record {
  initial_capital = pos 100;
  commission_rate = pos 0;
  slippage_rate = pos 0;
  stop_loss_pct = pos 1;
  take_profit_pct = pos 0;
}

abbrev flat : ℤ → Bar ℤ
flat x = record { open_price = x; high = x; low = x; close_price = x }

abbrev bars : List (Bar ℤ)
bars =
    flat (pos 10)
    ∷ record { open_price = pos 9; high = pos 9; low = pos 0; close_price = pos 5 }
    ∷ flat (pos 7)
    ∷ []

abbrev strategy : TradingStrategy ℤ
strategy = record {
  signal_at = λ i. get_elem? (buy_signal ∷ hold_signal ∷ buy_signal ∷ []) i;
  stop_loss_pct = pos 0;
  take_profit_pct = pos 0;
}

abbrev result : BacktestResult ℤ
result = record {
  equity_curve = pos 100 ∷ pos 0 ∷ pos 0 ∷ [];
  trades =
      record {
        entry_index = pos 0;
        exit_index = 1;
        entry_price = pos 10;
        exit_price = pos 0;
        quantity = pos 10;
        pnl = negsuc 99;
        return_pct = negsuc 0;
        exit_reason = by_stop_loss;
      }
      ∷ [];
}

runs : run whole config strategy bars 0 ≡ some result
unfolding run ◌-ℤ◌ ◌+ℤ◌
runs = refl

run-IsChronological_example :
    IsChronological strategy 0 result.trades 2 × (length result.equity_curve + 0 ≡ 3)
run-IsChronological_example = run-IsChronological whole config strategy refl bars 0 result runs
