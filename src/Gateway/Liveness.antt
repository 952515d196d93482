-- ===== src/Gateway/Liveness.antt =====
-- src/quantfinlib/trading/paper_trading_gateway.py: while the orders have sizes, calls return.
use quant_finance_py.Prelude.{
  ℕ, ◌≡◌, refl, sym, subst, Bool, true, Option, some, Bool-cases, inl, inr, Option-cases,
}
use quant_finance_py.Prelude.Int.{ℤ}
use quant_finance_py.Prelude.Double.{Double}
use quant_finance_py.Execution.{Side}
use quant_finance_py.Gateway.{
  OrderRequest, WorkingOrder, Gateway, rejected, put, crosses, submit_limit, submit_market, created,
  opened_order, approved, asked, position, log_rejection, rounded, touch,
}
use quant_finance_py.Gateway.Orders.{IsConsistent}
use quant_finance_py.Gateway.Safety.{
  Call, quotes, limits, markets, cancels, step, Submitted, cancel_cases, outcome,
}
use quant_finance_py.Gateway.Submission.{limit-Submitted, market-Submitted}
use quant_finance_py.Gateway.Returns.{
  IsSize, Grows, Sized, IsSound, Sized-put, fill-returns, Sized-fill, quote-returns,
}

module _ (d : Double) (rate : d.Num)
    (checker : Option (OrderRequest d.Num → d.Num → ℤ → Bool)) where
  open d use {Num, finite}

  -- The gate answers when the position is finite.
  approved-answers :
      (g : Gateway Num) (o : WorkingOrder Num) (price : Num)
      → finite (rounded d rate checker g o.symbol) ≡ true
      → (b : Bool) × (approved d rate checker (opened_order d rate checker g o) o price ≡ some b)
  approved-answers g o price h = elim (Option-cases checker) [
    | inl e ↦ (true, unfold approved in rw (e, approved))
    | inr (check, e) ↦
        unfold approved position in
        (asked d rate checker check (opened_order d rate checker g o) o price, rw (e, h, approved))
  ]

  limit-returns :
      (g : Gateway Num) (symbol : ℕ) (s : Side) (n : ℕ) (price : Num)
      → Grows d
      → IsSize d n
      → finite (rounded d rate checker g symbol) ≡ true
      → (outcome d rate checker (submit_limit d rate checker g symbol s n price)).1 ≡ true
  limit-returns g symbol s n price grows size fits =
      let o = created d rate checker g symbol s n price in
      let g' = opened_order d rate checker g o in
      let (b, says) = approved-answers g o price fits in
      elim (Bool-cases b) [
        | inr refuses ↦ unfold submit_limit in rw (says, refuses, submit_limit)
        | inl passes ↦ elim (Option-cases (g.quotes symbol)) [
          | inl e ↦ unfold submit_limit in rw (says, passes, e, submit_limit)
          | inr (q, e) ↦ elim (Bool-cases (crosses d rate checker o q.bid q.ask)) [
            | inl c ↦
                unfold submit_limit in
                rw (
                  says,
                  passes,
                  e,
                  c,
                  submit_limit,
                  fill-returns d rate checker g' o (touch s q) grows size,
                )
            | inr c ↦ unfold submit_limit in rw (says, passes, e, c, submit_limit)
          ]
        ]
      ]

  market-returns :
      (g : Gateway Num) (symbol : ℕ) (s : Side) (n : ℕ)
      → Grows d
      → IsSize d n
      → finite (rounded d rate checker g symbol) ≡ true
      → (outcome d rate checker (submit_market d rate checker g symbol s n)).1 ≡ true
  market-returns g symbol s n grows size fits =
      let o = created d rate checker g symbol s n d.nan in
      let g' = opened_order d rate checker g o in
      elim (Option-cases (g.quotes symbol)) [
        | inl e ↦ unfold submit_market in rw (e, submit_market)
        | inr (q, e) ↦
            let (b, says) = approved-answers g o (touch s q) fits in
            elim (Bool-cases b) [
              | inr refuses ↦ unfold submit_market in rw (e, says, refuses, submit_market)
              | inl passes ↦
                  unfold submit_market in
                  rw (
                    e,
                    says,
                    passes,
                    submit_market,
                    fill-returns d rate checker g' o (touch s q) grows size,
                  )
            ]
      ]

  Submitted-Sized :
      (g : Gateway Num) (o : WorkingOrder Num) (r : Gateway Num × Bool)
      → IsSize d o.quantity
      → Sized d g.orders
      → Submitted d rate checker g o r
      → Sized d r.0.orders
  Submitted-Sized g o r size h made =
      let to = λ (x : Gateway Num × Bool). Sized d x.0.orders in
      let opened = Sized-put d g.orders o.id o h (λ alive. size) in
      elim made [
        | inl is ↦ subst to (sym is) opened
        | inr (inl (x, is)) ↦ subst to (sym is) (
            unfold log_rejection in
            Sized-put d (put o.id o g.orders) o.id (record o { status = rejected }) opened
              (λ alive. cc))
        | inr (inr (inl (price, is))) ↦
            subst to (sym is)
              (Sized-fill d rate checker (opened_order d rate checker g o) o price opened)
        | inr (inr (inr is)) ↦ subst to (sym is) opened
      ]

  -- In a consistent gateway whose new orders have a positive size that floating point can hold, a call
  -- returns, if an order that it submits has such a size and the position of its symbol, plus one
  -- half, is finite, and the new orders have such sizes after it. This is for a floating point in
  -- which a position that grows by a positive size is not 0.
  pub step-returns :
      (g : Gateway Num) (c : Call d rate checker)
      → Grows d
      → IsConsistent g
      → Sized d g.orders
      → IsSound d rate checker g c
      → ((step d rate checker g c).1 ≡ true) × Sized d (step d rate checker g c).0.orders
  unfolding step
  step-returns g (quotes symbol bid ask) grows c h sound =
      quote-returns d rate checker g symbol bid ask grows c h
  step-returns g (limits symbol s n price) grows c h (size, fits) = (
    limit-returns g symbol s n price grows size fits,
    Submitted-Sized g _ _ size h (limit-Submitted d rate checker g symbol s n price),
  )
  step-returns g (markets symbol s n) grows c h (size, fits) = (
    market-returns g symbol s n grows size fits,
    Submitted-Sized g _ _ size h (market-Submitted d rate checker g symbol s n),
  )
  step-returns g (cancels id) grows c h sound = elim (cancel_cases g id) [
    | inl same_state ↦ (refl, subst (λ (x : Gateway Num). Sized d x.orders) (sym same_state) h)
    | inr (x, at, alive, is) ↦ (
      refl,
      subst (λ (y : Gateway Num). Sized d y.orders) (sym is)
          (Sized-put d g.orders id _ h (λ lives. cc)),
    )
  ]
