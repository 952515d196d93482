-- ===== src/Backtest.antt =====
-- src/quantfinlib/backtest/{backtester,backtest_config,trade}.py: the event-driven backtest of one
-- long-only strategy over the bars of a series. Prices are floating point. A strategy is what it
-- answers at a bar, where `none` raises, and its two percentages. The literal 0.001 is the quotient
-- that rounds to it. A trade's times, which are those of its bars, and its symbol are left out, and
-- so are the metrics of a result.
pub mod Chronology
mod Tests
use quant_finance_py.Prelude.{
  ℕ, zero, suc, ◌+◌, ◌-◌, Bool, true, false, ◌&&◌, Option, none, some, List, [], ◌∷◌, ◌++◌, ltb,
  if◌then◌else◌, length, drop, set, get_elem?,
}
use quant_finance_py.Prelude.Int.{ℤ, pos, negsuc, ltb_ℤ}
use quant_finance_py.Prelude.Maybe.{◌>>=◌}
use quant_finance_py.Prelude.Double.{Double, lesser, greater}
use quant_finance_py.Dsl.{Signal, buy_signal, sell_signal, hold_signal}

pub record BacktestConfig (F : Type 0) : Type 0 where
  pub initial_capital : F
  pub commission_rate : F
  pub slippage_rate : F
  pub stop_loss_pct : F
  pub take_profit_pct : F

pub record Bar (F : Type 0) : Type 0 where
  pub open_price : F
  pub high : F
  pub low : F
  pub close_price : F

pub record TradingStrategy (F : Type 0) : Type 0 where
  pub signal_at : ℕ → Option Signal
  pub stop_loss_pct : F
  pub take_profit_pct : F

pub data Reason : Type 0 where
  by_signal by_stop_loss by_take_profit by_end_of_data : Reason

pub record Trade (F : Type 0) : Type 0 where
  pub entry_index : ℤ
  pub exit_index : ℕ
  pub entry_price : F
  pub exit_price : F
  pub quantity : F
  pub pnl : F
  pub return_pct : F
  pub exit_reason : Reason

-- The variables of the loop.
pub record Run (F : Type 0) : Type 0 where
  pub cash : F
  pub qty : F
  pub entry_price : F
  pub entry_cost : F
  pub entry_index : ℤ
  pub trades : List (Trade F)

pub record BacktestResult (F : Type 0) : Type 0 where
  pub equity_curve : List F
  pub trades : List (Trade F)

module _ (d : Double) where
  open d use {Num, of_ℤ, plus, minus, times, over, less, at_most, same}

  abbrev pub nought : Num
  nought = of_ℤ (pos 0)

  abbrev pub one : Num
  one = of_ℤ (pos 1)

  abbrev pub positive : Num → Bool
  positive x = less nought x

  abbrev pub defaults : BacktestConfig Num
  defaults = record {
    initial_capital = of_ℤ (pos 100000);
    commission_rate = over one (of_ℤ (pos 1000));
    slippage_rate = nought;
    stop_loss_pct = nought;
    take_profit_pct = nought;
  }

  abbrev pub with_initial_capital : Num → BacktestConfig Num → BacktestConfig Num
  with_initial_capital amount c = record c { initial_capital = amount }

  abbrev pub with_commission : Num → BacktestConfig Num → BacktestConfig Num
  with_commission rate c = record c { commission_rate = rate }

  abbrev pub with_stop_loss : Num → BacktestConfig Num → BacktestConfig Num
  with_stop_loss pct c = record c { stop_loss_pct = pct }

  abbrev pub with_take_profit : Num → BacktestConfig Num → BacktestConfig Num
  with_take_profit pct c = record c { take_profit_pct = pct }

  -- `is_win` of a trade.
  abbrev pub is_win : Trade Num → Bool
  is_win t = positive t.pnl

  module _ (config : BacktestConfig Num) where
    -- `_close_position`, and the reset of the quantity behind each of its calls.
    unfoldable pub close_position : Run Num → ℕ → Num → Reason → Run Num
    close_position r exit_index fill_price reason =
        let proceeds = times r.qty fill_price in
        let net = minus proceeds (times proceeds config.commission_rate) in
        let pnl = minus net r.entry_cost in
        record r {
          cash = plus r.cash net;
          qty = nought;
          trades =
              r.trades
              ++ record {
                entry_index = r.entry_index;
                exit_index = exit_index;
                entry_price = r.entry_price;
                exit_price = fill_price;
                quantity = r.qty;
                pnl = pnl;
                return_pct = if same r.entry_cost nought then nought else over pnl r.entry_cost;
                exit_reason = reason;
              }
                ∷ [];
        }

    unfoldable pub stop_exit : Num → ℕ → Bar Num → Run Num → Run Num
    unfolding close_position
    stop_exit stop_loss i bar r =
        let stop_price = times r.entry_price (minus one stop_loss) in
        if positive stop_loss && at_most bar.low stop_price
        then close_position r i (lesser d stop_price bar.open_price) by_stop_loss
        else r

    unfoldable pub profit_exit : Num → ℕ → Bar Num → Run Num → Run Num
    unfolding close_position
    profit_exit take_profit i bar r =
        let target_price = times r.entry_price (plus one take_profit) in
        if positive r.qty && (positive take_profit && at_most target_price bar.high)
        then close_position r i (greater d target_price bar.open_price) by_take_profit
        else r

    -- The exits within a bar, on bars after the entry.
    unfoldable pub risk_exits : Num → Num → ℕ → Bar Num → Run Num → Run Num
    unfolding stop_exit profit_exit
    risk_exits stop_loss take_profit i bar r =
        if positive r.qty && ltb_ℤ r.entry_index (pos i)
        then profit_exit take_profit i bar (stop_exit stop_loss i bar r)
        else r

    unfoldable pub enter : ℕ → Bar Num → Run Num → Run Num
    enter i bar r =
        let fill = times bar.close_price (plus one config.slippage_rate) in
        let fee = times r.cash config.commission_rate in
        record r {
          qty = over (minus r.cash fee) fill;
          entry_price = fill;
          entry_cost = r.cash;
          entry_index = pos i;
          cash = nought;
        }

    -- The strategy's signal at the close of a bar.
    unfoldable pub on_signal : Signal → ℕ → Bar Num → Run Num → Run Num
    unfolding enter close_position
    on_signal buy_signal i bar r = if same r.qty nought && positive r.cash then enter i bar r else r
    on_signal sell_signal i bar r =
        if positive r.qty
        then close_position r i (times bar.close_price (minus one config.slippage_rate)) by_signal
        else r
    on_signal hold_signal i bar r = r

    abbrev pub value : Bar Num → Run Num → Num
    value bar r = plus r.cash (times r.qty bar.close_price)

    module _ (strategy : TradingStrategy Num) where
      -- The strategy's own percentages override the configured ones.
      abbrev pub stop_loss : Num
      stop_loss =
          if positive strategy.stop_loss_pct then strategy.stop_loss_pct else config.stop_loss_pct

      abbrev pub take_profit : Num
      take_profit =
          if positive strategy.take_profit_pct
          then strategy.take_profit_pct
          else config.take_profit_pct

      -- The loop over the bars from number `i` on: the last state, and the equity of each bar.
      unfoldable pub walk : ℕ → List (Bar Num) → Run Num → Option (Run Num × List Num)
      unfolding risk_exits on_signal
      walk i [] r = some (r, [])
      walk i (bar ∷ bars) r = do
        s ← strategy.signal_at i
        p ← walk (suc i) bars (on_signal s i bar (risk_exits stop_loss take_profit i bar r))
        some (p.0, value bar (on_signal s i bar (risk_exits stop_loss take_profit i bar r)) ∷ p.1)

      abbrev pub opening_run : Run Num
      opening_run = record {
        cash = config.initial_capital;
        qty = nought;
        entry_price = nought;
        entry_cost = nought;
        entry_index = negsuc 0;
        trades = [];
      }

      -- A position that is open at the last bar is closed there.
      unfoldable pub finish : ℕ → Bar Num → Run Num × List Num → BacktestResult Num
      unfolding close_position
      finish n bar (r, equity) =
          let closed =
            close_position r (n - 1) (times bar.close_price (minus one config.slippage_rate))
              by_end_of_data in
          if positive r.qty
          then record {
            equity_curve = set equity (length equity - 1) closed.cash;
            trades = closed.trades;
          }
          else record { equity_curve = equity; trades = r.trades }

      unfoldable pub run : List (Bar Num) → ℕ → Option (BacktestResult Num)
      unfolding walk finish
      run bars trade_from = elim (get_elem? bars (length bars - 1)) [
        | none ↦ none
        | some last ↦
            if ltb trade_from (length bars)
            then (do
              p ← walk trade_from (drop trade_from bars) opening_run
              some (finish (length bars) last p))
            else none
      ]
