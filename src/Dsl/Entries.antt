-- ===== src/Dsl/Entries.antt =====
-- src/quantfinlib/dsl/strategy_builder.py, src/quantfinlib/backtest/backtester.py: where a backtest
-- of rules enters.
use quant_finance_py.Prelude.{
  ℕ, ◌-◌, ◌≤◌, ◌<◌, ◌≡◌, ap, sym, ◌∙◌, true, false, none, some, List, [], ◌∷◌, length, All, arith,
  Bool-cases, Option-cases, inl, inr, ltb, All-map,
}
use quant_finance_py.Prelude.Int.{pos}
use quant_finance_py.Prelude.Maybe.{>>=-some, some-inj}
use quant_finance_py.Prelude.Double.{Double}
use quant_finance_py.Dsl.{Rule, buy_signal, sell_signal, hold_signal, DslStrategy, on_bar}
use quant_finance_py.Dsl.WarmUp.{Formula, rule_of, AllWarmingUp, rule_of-AllWarmingUp}
use quant_finance_py.Dsl.Builder.{
  StrategyBuilder, build, as_strategy, CapitalOrConfig, config_of, backtest,
}
use quant_finance_py.Backtest.{
  BacktestConfig, Bar, TradingStrategy, Trade, BacktestResult, nought, positive, run,
}
use quant_finance_py.Backtest.Chronology.{IsChronological, run-IsChronological}

build-entry :
    {F : Type 0} (b : StrategyBuilder F) (r : Rule) (s : DslStrategy F)
    → b.entry_rule ≡ some r
    → build b ≡ some s
    → s.entry ≡ r
unfolding build
build-entry {F} b r s is built =
    let (r', at, made) = >>=-some b.entry_rule _ s built in
    sym (ap (λ (x : DslStrategy F). x.entry) (some-inj _ s made)) ∙ some-inj r' r (sym at ∙ is)

-- A signal to buy comes of the entry rule.
on_bar-buy :
    {F : Type 0} (s : DslStrategy F) (i : ℕ) → on_bar s i ≡ some buy_signal → s.entry i ≡ some true
unfolding on_bar
on_bar-buy s i h = elim (Option-cases (s.entry i)) [
  | inl c ↦ (let bad : none ≡ some buy_signal = rw (c, on_bar) at h in absurd (cc))
  | inr (true, c) ↦ c
  | inr (false, c) ↦ elim (Option-cases (s.exit_rule i)) [
    | inl k ↦ (let bad : none ≡ some buy_signal = rw (c, k, on_bar) at h in absurd (cc))
    | inr (true, k) ↦
        (let bad : some sell_signal ≡ some buy_signal = rw (c, k, on_bar) at h in absurd (cc))
    | inr (false, k) ↦
        (let bad : some hold_signal ≡ some buy_signal = rw (c, k, on_bar) at h in absurd (cc))
  ]
]

-- The bar at which a trade was entered has a property.
abbrev pub EntersWhere : {F : Type 0} → (ℕ → Type 0) → Trade F → Type 0
EntersWhere P t = (e : ℕ) × (t.entry_index ≡ pos e) × P e

module _ {F : Type 0} (strategy : TradingStrategy F) where
  low_high :
      (low high : ℕ) (ts : List (Trade F)) → IsChronological strategy low ts high → low ≤ high
  low_high low high [] h = h
  low_high low high (t ∷ ts) ((e, at, said, from, to), rest) =
      (let more = low_high t.exit_index high ts rest in omega arith)

  entries :
      (low high : ℕ) (ts : List (Trade F))
      → IsChronological strategy low ts high
      → All (EntersWhere (λ e. (strategy.signal_at e ≡ some buy_signal) × (e ≤ high))) ts
  entries low high [] h = tt
  entries low high (t ∷ ts) ((e, at, said, from, to), rest) =
      (let more = low_high t.exit_index high ts rest in
        ((e, at, (said, omega arith)), entries t.exit_index high ts rest))

module _ (d : Double) where
  open d use {Num}

  run-nonempty :
      (config : BacktestConfig Num) (strategy : TradingStrategy Num) (bars : List (Bar Num))
      (start : ℕ) (result : BacktestResult Num)
      → run d config strategy bars start ≡ some result
      → 0 < length bars
  unfolding run
  run-nonempty config strategy [] start result h = cc
  run-nonempty config strategy (bar ∷ bars) start result h = omega arith

  late :
      (f : Formula d) (w e : ℕ)
      → ((i : ℕ) → i < w → AllWarmingUp d f i)
      → rule_of d f e ≡ some true
      → w ≤ e
  late f w e warm fires = elim (Bool-cases (ltb e w)) [
    | inl c ↦ absurd (rule_of-AllWarmingUp d f e (warm e (ground arith)) fires)
    | inr c ↦ ground arith
  ]

  -- A backtest of a built strategy, whose entry rule combines by `and` and `or` the rules that cross,
  -- compare and, over one bar or more, rise or fall, and whose indicators all warm up on the first
  -- `w` bars, enters each of its trades at a bar of the series where the entry rule is satisfied,
  -- and never on those first bars. Zero is not positive.
  pub backtest-warm_up :
      positive d (nought d) ≡ false
      → (f : Formula d) (w : ℕ) → ((i : ℕ) → i < w → AllWarmingUp d f i)
      → (b : StrategyBuilder Num) (s : DslStrategy Num) → b.entry_rule ≡ some (rule_of d f)
      → build b ≡ some s
      → (bars : List (Bar Num)) (c : CapitalOrConfig Num) (result : BacktestResult Num)
      → backtest d s bars c ≡ some result
      → All
          (EntersWhere (λ e. (rule_of d f e ≡ some true) × (w ≤ e) × (e < length bars)))
          result.trades
  unfolding backtest
  backtest-warm_up zero_is_not_positive f w warm b s is built bars c result h =
      let order =
        (run-IsChronological d (config_of d c) (as_strategy s) zero_is_not_positive bars 0 result
          h).0 in
      let some_bar = run-nonempty (config_of d c) (as_strategy s) bars 0 result h in
      All-map
        (λ t (e, at, (said, le)).
          let fires =
            ap (λ (r : Rule). r e) (sym (build-entry b _ s is built)) ∙ on_bar-buy s e said in
          (e, at, (fires, late f w e warm fires, omega arith)))
        result.trades (entries (as_strategy s) 0 (length bars - 1) result.trades order)
