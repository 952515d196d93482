-- ===== src/Gateway/Lifecycle.antt =====
-- src/quantfinlib/trading/paper_trading_gateway.py: every call keeps the orders in step with the
-- resting list, and finished orders as they are.
use quant_finance_py.Prelude.{
  ℕ, ◌+◌, ◌≡◌, ◌≢◌, refl, ap, sym, subst, ◌∙◌, Bool, true, false, Option, some, ◌==◌, arith,
  Bool-cases, inl, inr,
}
use quant_finance_py.Prelude.Int.{ℤ}
use quant_finance_py.Prelude.Double.{Double}
use quant_finance_py.Execution.{Side}
use quant_finance_py.Gateway.{
  OrderStatus, OrderRequest, WorkingOrder, Gateway, is_new, partially_filled, filled, canceled,
  rejected, put, log_rejection, fill, submit_limit, created, opened_order, approved, new,
}
use quant_finance_py.Gateway.Orders.{live, live_of, IsConsistent, put_other, fill_cases}
use quant_finance_py.Gateway.Safety.{
  Call, quotes, limits, markets, cancels, step, Submitted, cancel-IsConsistent, cancel_cases,
}
use quant_finance_py.Gateway.Submission.{
  limit-Submitted, market-Submitted, quote_keeps, quote-IsConsistent, Submitted-IsConsistent,
}

not_live : (s : OrderStatus) → s ≢ is_new → live s ≡ 0
not_live is_new h = absurd (h refl)
not_live partially_filled h = refl
not_live filled h = refl
not_live canceled h = refl
not_live rejected h = refl

module _ (d : Double) (rate : d.Num)
    (checker : Option (OrderRequest d.Num → d.Num → ℤ → Bool)) where
  open d use {Num, nan}

  -- Every call that returns keeps exactly the new orders in the resting list, each once, and every id
  -- in use below the next one.
  pub step-IsConsistent :
      (g : Gateway Num) (c : Call d rate checker)
      → IsConsistent g
      → (step d rate checker g c).1 ≡ true
      → IsConsistent (step d rate checker g c).0
  unfolding step
  step-IsConsistent g (quotes symbol bid ask) h back =
      quote-IsConsistent d rate checker g symbol bid ask h back
  step-IsConsistent g (limits symbol s n price) h back =
      Submitted-IsConsistent d rate checker g _ _ refl refl h
        (limit-Submitted d rate checker g symbol s n price) back
  step-IsConsistent g (markets symbol s n) h back =
      Submitted-IsConsistent d rate checker g _ _ refl refl h
        (market-Submitted d rate checker g symbol s n) back
  step-IsConsistent g (cancels id) h back = cancel-IsConsistent g id h

  -- An order that is not new any more is not written again.
  written_other :
      (n i k : ℕ) (o x y : WorkingOrder Num) (m : ℕ → Option (WorkingOrder Num))
      → m i ≡ some o
      → live o.status ≡ 0
      → m k ≡ some x
      → live x.status ≡ 1
      → put k y m i ≡ some o
  written_other n i k o x y m there completed here alive = elim (Bool-cases (i == k)) [
    | inl c ↦
        (let at : i ≡ k = ground arith in
          let same = sym there ∙ subst (λ j. m j ≡ some x) (sym at) here in
          absurd (let lives = ap live_of same in omega arith))
    | inr c ↦ put_other k y m i c ∙ there
  ]

  fill_other :
      (g : Gateway Num) (o x : WorkingOrder Num) (price : Num) (i : ℕ)
      → (i == o.id) ≡ false
      → (fill d rate checker g o price).0.orders i ≡ g.orders i
  fill_other g o x price i other = elim (fill_cases d rate checker g o price) [
    | inl (a, f) ↦
        ap (λ (r : Gateway Num × Bool). r.0.orders i) f ∙ put_other o.id _ g.orders i other
    | inr (a, f) ↦ ap (λ (r : Gateway Num × Bool). r.0.orders i) f
  ]

  Submitted-final :
      (g : Gateway Num) (o r : WorkingOrder Num) (i : ℕ) (g' : Gateway Num × Bool)
      → IsConsistent g
      → r.id ≡ g.next_id
      → g.orders i ≡ some o
      → Submitted d rate checker g r g'
      → g'.0.orders i ≡ some o
  unfolding log_rejection
  Submitted-final g o r i g' c e there h =
      let (id_is, below) = c.named i o there in
      let other : (i == r.id) ≡ false = ground arith in
      elim h [
        | inl is ↦ ap (λ (y : Gateway Num × Bool). y.0.orders i) is ∙ rw other there
        | inr (inl (x, is)) ↦ ap (λ (y : Gateway Num × Bool). y.0.orders i) is ∙ rw other there
        | inr (inr (inl (price, is))) ↦
            ap (λ (y : Gateway Num × Bool). y.0.orders i) is
            ∙ fill_other (opened_order d rate checker g r) r o price i other
            ∙ rw other there
        | inr (inr (inr is)) ↦ ap (λ (y : Gateway Num × Bool). y.0.orders i) is ∙ rw other there
      ]

  -- A filled, canceled or rejected order is final: no call changes anything of it, whether the call
  -- returns or raises.
  pub step_final :
      (g : Gateway Num) (c : Call d rate checker) (i : ℕ) (o : WorkingOrder Num)
      → IsConsistent g
      → g.orders i ≡ some o
      → o.status ≢ is_new
      → (step d rate checker g c).0.orders i ≡ some o
  unfolding step
  step_final g (quotes symbol bid ask) i o h there final =
      quote_keeps d rate checker g symbol bid ask (λ (x : Gateway Num). x.orders i ≡ some o)
        (λ x ls kept. kept)
        (λ x k o' price at id_is below alive kept. elim (fill_cases d rate checker x o' price) [
          | inl (a, f) ↦
              ap (λ (r : Gateway Num × Bool). r.0.orders i) f
              ∙ written_other g.next_id i o'.id o o' _ x.orders kept (not_live o.status final)
                  (subst (λ j. x.orders j ≡ some o') (sym id_is) at) alive
          | inr (a, f) ↦ ap (λ (r : Gateway Num × Bool). r.0.orders i) f ∙ kept
        ])
        h there
  step_final g (limits symbol s n price) i o h there final =
      Submitted-final g o _ i _ h refl there (limit-Submitted d rate checker g symbol s n price)
  step_final g (markets symbol s n) i o h there final =
      Submitted-final g o _ i _ h refl there (market-Submitted d rate checker g symbol s n)
  step_final g (cancels id) i o h there final = elim (cancel_cases g id) [
    | inl same ↦ ap (λ (y : Gateway Num). y.orders i) same ∙ there
    | inr (x, at, alive, is) ↦
        ap (λ (y : Gateway Num). y.orders i) is
        ∙ written_other g.next_id i id o x _ g.orders there (not_live o.status final) at alive
  ]

  -- An order that is rejected as it is submitted never reaches the market or the account.
  pub limit_rejected :
      (g : Gateway Num) (symbol : ℕ) (s : Side) (n : ℕ) (price : Num)
      → approved d rate checker
          (opened_order d rate checker g (created d rate checker g symbol s n price))
          (created d rate checker g symbol s n price)
          price
        ≡ some false
      → let r = (submit_limit d rate checker g symbol s n price).0 in
        (r.account ≡ g.account)
        × (r.resting ≡ g.resting)
        × (r.rejection_count ≡ g.rejection_count + 1)
        × (r.orders g.next_id
            ≡ some (record (created d rate checker g symbol s n price) { status = rejected }))
  unfolding submit_limit log_rejection
  limit_rejected g symbol s n price h =
      let me : (g.next_id == g.next_id) ≡ true = ground arith in
      (rw (h, submit_limit), rw (h, submit_limit), rw (h, submit_limit), rw (h, me, submit_limit))

  pub new-IsConsistent : (cash : Num) → IsConsistent (new d cash)
  unfolding new
  new-IsConsistent cash = record { rests = λ i. refl; named = λ i o h. cc }
