-- ===== src/Backtest/Chronology.antt =====
-- src/quantfinlib/backtest/backtester.py: the order of the trades of a backtest.
use quant_finance_py.Prelude.{
  ℕ, zero, suc, ◌+◌, ◌-◌, ◌≤◌, ◌<◌, ◌≡◌, refl, ap, sym, subst, ◌∙◌, Bool, true, false, none, some,
  List, [], ◌∷◌, ◌++◌, ltb, if◌then◌else◌, length, drop, get_elem?, length-set, arith, Bool-cases,
  Option-cases, inl, inr,
}
use quant_finance_py.Prelude.Int.{pos}
use quant_finance_py.Prelude.Maybe.{◌>>=◌, >>=-some, some-inj}
use quant_finance_py.Prelude.Double.{Double}
use quant_finance_py.Dsl.{Signal, buy_signal, sell_signal, hold_signal}
use quant_finance_py.Backtest.{
  BacktestConfig, Bar, TradingStrategy, Reason, by_signal, by_stop_loss, by_take_profit,
  by_end_of_data, Trade, Run, BacktestResult, nought, positive, close_position, stop_exit,
  profit_exit, risk_exits, enter, on_signal, walk, opening_run, finish, run, stop_loss, take_profit,
}

if_keeps {ℓ κ} :
    {A : Type ℓ} (P : A → Type κ) (c : Bool) (x y : A) → P x → P y → P (if c then x else y)
if_keeps P true x y h k = h
if_keeps P false x y h k = k

drop-cons {ℓ} :
    {A : Type ℓ} (n : ℕ) (xs : List A)
    → n < length xs
    → (x : A) × (ys : List A) × (drop n xs ≡ x ∷ ys) × (suc (n + length ys) ≡ length xs)
drop-cons n [] h = absurd (omega arith)
drop-cons zero (x ∷ xs) h = (x, xs, refl, omega arith)
drop-cons (suc n) (x ∷ xs) h =
    let (y, ys, is, size) = drop-cons n xs (omega arith) in (y, ys, is, omega arith)

module _ {F : Type 0} (strategy : TradingStrategy F) where
  -- Trades that follow each other: each is entered at a bar where the strategy says so, not before
  -- the exit of the trade before it and not after its own exit. `low` and `high` bound them.
  abbrev pub IsChronological : ℕ → List (Trade F) → ℕ → Type 0
  IsChronological low [] high = low ≤ high
  IsChronological low (t ∷ ts) high =
      ((e : ℕ) × (t.entry_index ≡ pos e)
        × (strategy.signal_at e ≡ some buy_signal)
        × (low ≤ e)
        × (e ≤ t.exit_index))
      × IsChronological t.exit_index ts high

  IsChronological-append :
      (low middle high : ℕ) (ts : List (Trade F)) (t : Trade F) (e : ℕ)
      → IsChronological low ts middle
      → t.entry_index ≡ pos e
      → strategy.signal_at e ≡ some buy_signal
      → middle ≤ e
      → e ≤ t.exit_index
      → t.exit_index ≤ high
      → IsChronological low (ts ++ t ∷ []) high
  IsChronological-append low middle high [] t e h at said from to top =
      ((e, at, said, omega arith, to), top)
  IsChronological-append low middle high (x ∷ xs) t e h at said from to top =
      (h.0, IsChronological-append x.exit_index middle high xs t e h.1 at said from to top)

  widen :
      (low middle high : ℕ) (ts : List (Trade F))
      → IsChronological low ts middle
      → middle ≤ high
      → IsChronological low ts high
  widen low middle high [] h k = omega arith
  widen low middle high (t ∷ ts) h k = (h.0, widen t.exit_index middle high ts h.1 k)

module _ (d : Double) (config : BacktestConfig (d.Num)) (strategy : TradingStrategy (d.Num)) where
  open d use {Num, of_ℤ, less}

  -- What holds at bar `i`: the trades are in order, and a position that is open was entered at that
  -- bar or before, where the strategy said so, not before the last exit.
  abbrev pub Holds : ℕ → ℕ → Run Num → Type 0
  Holds start i r =
      (m : ℕ) × IsChronological strategy start r.trades m
      × (m ≤ i)
      × (positive d r.qty ≡ true
          → (e : ℕ) × (r.entry_index ≡ pos e)
            × (strategy.signal_at e ≡ some buy_signal)
            × (m ≤ e)
            × (e ≤ i))

  module _ (zero_is_not_positive : positive d (nought d) ≡ false) where
    close_position-Holds :
        (start i : ℕ) (r : Run Num) (fill : Num) (reason : Reason)
        → positive d r.qty ≡ true
        → Holds start i r
        → Holds start i (close_position d config r i fill reason)
    unfolding close_position
    close_position-Holds start i r fill reason open_now (m, trades, le, position) =
        let (e, at, said, from, to) = position open_now in
        (
          i,
          IsChronological-append strategy start m i r.trades _ e trades at said from to
              (omega arith),
          omega arith,
          λ bad.
              absurd (let no_way : true ≡ false = sym bad ∙ zero_is_not_positive in ground arith),
        )

    stop_exit-Holds :
        (start i : ℕ) (bar : Bar Num) (r : Run Num)
        → positive d r.qty ≡ true
        → Holds start i r
        → Holds start i (stop_exit d config (stop_loss d config strategy) i bar r)
    unfolding stop_exit
    stop_exit-Holds start i bar r open_now h =
        if_keeps (Holds start i) _ _ r (close_position-Holds start i r _ by_stop_loss open_now h) h

    profit_exit-Holds :
        (start i : ℕ) (bar : Bar Num) (r : Run Num)
        → Holds start i r
        → Holds start i (profit_exit d config (take_profit d config strategy) i bar r)
    unfolding profit_exit
    profit_exit-Holds start i bar r h = elim (Bool-cases (positive d r.qty)) [
      | inl c ↦
          rw c
            (if_keeps (Holds start i) _ _ r (close_position-Holds start i r _ by_take_profit c h) h)
      | inr c ↦ rw c h
    ]

    risk_exits-Holds :
        (start i : ℕ) (bar : Bar Num) (r : Run Num)
        → Holds start i r
        → Holds start i (
            risk_exits d config
              (stop_loss d config strategy)
              (take_profit d config strategy)
              i
              bar
              r)
    unfolding risk_exits
    risk_exits-Holds start i bar r h = elim (Bool-cases (positive d r.qty)) [
      | inl c ↦ rw c (
          if_keeps (Holds start i) _ _ r
            (profit_exit-Holds start i bar
              (stop_exit d config (stop_loss d config strategy) i bar r)
              (stop_exit-Holds start i bar r c h))
            h)
      | inr c ↦ rw c h
    ]

    later : (start i : ℕ) (r : Run Num) → Holds start i r → Holds start (suc i) r
    later start i r (m, trades, le, position) = (
      m,
      trades,
      omega arith,
      λ c. let (e, at, said, from, to) = position c in (e, at, said, from, omega arith),
    )

    on_signal-Holds :
        (start i : ℕ) (s : Signal) (bar : Bar Num) (r : Run Num)
        → strategy.signal_at i ≡ some s
        → Holds start i r
        → Holds start i (on_signal d config s i bar r)
    unfolding on_signal enter
    on_signal-Holds start i buy_signal bar r said h =
        if_keeps (Holds start i) _ _ r
          (let (m, trades, le, position) = h in
            (m, trades, le, λ c. (i, refl, said, le, omega arith)))
          h
    on_signal-Holds start i sell_signal bar r said h = elim (Bool-cases (positive d r.qty)) [
      | inl c ↦ rw c (close_position-Holds start i r _ by_signal c h)
      | inr c ↦ rw c h
    ]
    on_signal-Holds start i hold_signal bar r said h = h

    -- The state behind a bar with its signal.
    abbrev bar_done : ℕ → Signal → Bar Num → Run Num → Run Num
    bar_done i s bar r =
        on_signal d config s i bar (
          risk_exits d config (stop_loss d config strategy) (take_profit d config strategy) i bar r)

    -- One bar, and the rest of the bars behind it.
    walk_on :
        (i : ℕ) (bar : Bar Num) (bars : List (Bar Num)) (r : Run Num) (p : Run Num × List Num)
        → walk d config strategy i (bar ∷ bars) r ≡ some p
        → (s : Signal) × (q : Run Num × List Num) × (strategy.signal_at i ≡ some s)
          × (walk d config strategy (suc i) bars (
                on_signal d config s i bar (
                  risk_exits d config
                    (stop_loss d config strategy)
                    (take_profit d config strategy)
                    i
                    bar
                    r))
              ≡ some q)
          × (q.0 ≡ p.0)
          × (suc (length q.1) ≡ length p.1)
    unfolding walk
    walk_on i bar bars r p h =
        let (s, said, h') = >>=-some (strategy.signal_at i) _ p h in
        let (q, rest, made) = >>=-some (walk d config strategy (suc i) bars _) _ p h' in
        let is = some-inj _ p made in
        (
          s,
          q,
          said,
          rest,
          ap (λ (x : Run Num × List Num). x.0) is,
          ap (λ (x : Run Num × List Num). length x.1) is,
        )

    walk-Holds :
        (start i : ℕ) (bar : Bar Num) (bars : List (Bar Num)) (r : Run Num) (p : Run Num × List Num)
        → walk d config strategy i (bar ∷ bars) r ≡ some p
        → Holds start i r
        → Holds start (i + length bars) p.0 × (length p.1 ≡ suc (length bars))
    unfolding walk
    walk-Holds start i bar [] r p h k =
        let (s, q, said, rest, same, size) = walk_on i bar [] r p h in
        let next = on_signal-Holds start i s bar _ said (risk_exits-Holds start i bar r k) in
        let is = some-inj _ q rest in
        (
          subst (λ n. Holds start n p.0) (omega arith)
              (subst (Holds start i) (ap (λ (x : Run Num × List Num). x.0) is ∙ same) next),
          let none_yet = ap (λ (x : Run Num × List Num). length x.1) is in omega arith,
        )
    walk-Holds start i bar (b ∷ bs) r p h k =
        let (s, q, said, rest, same, size) = walk_on i bar (b ∷ bs) r p h in
        let next = on_signal-Holds start i s bar _ said (risk_exits-Holds start i bar r k) in
        let (last, count) =
          walk-Holds start (suc i) b bs (bar_done i s bar r) q rest
            (later start i (bar_done i s bar r) next) in
        (
          subst (λ n. Holds start n p.0) (omega arith)
              (subst (Holds start (suc i + length bs)) same last),
          omega arith,
        )

    finish-IsChronological :
        (start n : ℕ) (last : Bar Num) (r : Run Num) (equity : List Num)
        → 0 < n
        → Holds start (n - 1) r
        → IsChronological strategy start
            (finish d config strategy n last (r, equity)).trades
            (n - 1)
          × (length (finish d config strategy n last (r, equity)).equity_curve ≡ length equity)
    unfolding finish
    finish-IsChronological start n last r equity p h = elim (Bool-cases (positive d r.qty)) [
      | inl c ↦
          (let (m, trades, le, position) =
              close_position-Holds start (n - 1) r _ by_end_of_data c h in
            rw c
              (widen strategy start m (n - 1) _ trades le, length-set equity (length equity - 1) _))
      | inr c ↦
          (let (m, trades, le, position) = h in
            rw c (widen strategy start m (n - 1) _ trades le, refl))
    ]

    -- The trades of a backtest that returns are in order: each was entered at a bar from
    -- `trade_from` on where the strategy said to buy, not before the exit of the trade before it,
    -- and left not before it was entered and at the latest at the last bar. The equity curve has
    -- one entry for each bar from `trade_from` on. Zero is not positive.
    pub run-IsChronological :
        (bars : List (Bar Num)) (start : ℕ) (result : BacktestResult Num)
        → run d config strategy bars start ≡ some result
        → IsChronological strategy start result.trades (length bars - 1)
          × (length result.equity_curve + start ≡ length bars)
    unfolding run
    run-IsChronological bars start result h =
        elim (Option-cases (get_elem? bars (length bars - 1))) [
          | inl c ↦ (let bad : none ≡ some result = rw (c, run) at h in absurd (cc))
          | inr (last, c) ↦ elim (Bool-cases (ltb start (length bars))) [
            | inr k ↦ (let bad : none ≡ some result = rw (c, k, run) at h in absurd (cc))
            | inl k ↦
                (let go : (walk d config strategy start (drop start bars)
                          (opening_run d config strategy)
                        >>= λ p. some (finish d config strategy (length bars) last p))
                      ≡ some result =
                    rw (c, k, run) at h in
                  let (p, walked, made) =
                    >>=-some
                      (walk d config strategy start (drop start bars)
                        (opening_run d config strategy))
                      _ result go in
                  let first : Holds start start (opening_run d config strategy) = (
                    start,
                    omega arith,
                    omega arith,
                    λ bad. absurd (
                        let no_way : true ≡ false = sym bad ∙ zero_is_not_positive in ground arith),
                  ) in
                  let (bar, rest, is, less_one) = drop-cons start bars (ground arith) in
                  let at : walk d config strategy start (bar ∷ rest) (opening_run d config strategy)
                      ≡ some p =
                    ap (λ bs. walk d config strategy start bs (opening_run d config strategy))
                      (sym is)
                    ∙ walked in
                  let (held, size) =
                    walk-Holds start start bar rest (opening_run d config strategy) p at first in
                  let final : Holds start (length bars - 1) p.0 =
                    subst (λ n. Holds start n p.0) (omega arith) held in
                  let (trades, curve) =
                    finish-IsChronological start (length bars) last p.0 p.1 (omega arith) final in
                  let done = some-inj _ result made in
                  subst
                    (λ (x : BacktestResult Num).
                      IsChronological strategy start x.trades (length bars - 1)
                      × (length x.equity_curve + start ≡ length bars))
                    done (trades, omega arith))
          ]
        ]
