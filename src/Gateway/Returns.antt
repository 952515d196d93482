-- ===== src/Gateway/Returns.antt =====
-- src/quantfinlib/trading/paper_trading_gateway.py: which calls return.
use quant_finance_py.Prelude.{
  ℕ, ◌+◌, ◌<◌, ◌≡◌, refl, ap, sym, subst, ◌∙◌, Bool, true, false, ◌&&◌, Option, some, List, [], ◌∷◌,
  ◌==◌, if◌then◌else◌, arith, Bool-cases, inl, inr, Option-cases,
}
use quant_finance_py.Prelude.Int.{ℤ, pos}
use quant_finance_py.Prelude.Double.{Double, magnitude}
use quant_finance_py.Execution.{Side}
use quant_finance_py.Gateway.{
  OrderRequest, WorkingOrder, Gateway, Account, Position, put, with_id, apply_fill, too_large,
  empty, extends, signed, nil, held, completed, fill, settle, on_quote, crosses, improved, rounded,
}
use quant_finance_py.Gateway.Orders.{
  live, live_of, live_of-le, IsConsistent, Rests, Named, Rests-aside, occurs_self, put_self,
  put_other, fill_cases, settle-fill, settle_keep,
}
use quant_finance_py.Gateway.Safety.{
  Call, quotes, limits, markets, cancels, Named-completed, Rests-completed,
}
use quant_finance_py.Gateway.Submission.{quote_keeps, ended, ended-on_quote, quoted}

module _ (d : Double) where
  open d use {Num, of_ℤ, same, plus, finite}

  abbrev pub IsSize : ℕ → Type 0
  IsSize n = (0 < n) × (finite (of_ℤ (pos n)) ≡ true)

  -- A position that grows by a positive size is not 0.
  abbrev pub Grows : Type 0
  Grows =
      (p : Position Num) (s : Side) (n : ℕ)
      → 0 < n
      → extends d p s n ≡ true
      → same (magnitude d (plus p.quantity (signed d s n))) (nil d) ≡ false

  -- Every new order has a positive size that floating point can hold.
  abbrev pub Sized : (ℕ → Option (WorkingOrder Num)) → Type 0
  Sized m = (i : ℕ) (o : WorkingOrder Num) → m i ≡ some o → live o.status ≡ 1 → IsSize o.quantity

  pub Sized-put :
      (m : ℕ → Option (WorkingOrder Num)) (k : ℕ) (o : WorkingOrder Num)
      → Sized m
      → (live o.status ≡ 1 → IsSize o.quantity)
      → Sized (put k o m)
  Sized-put m k o h fits i x found alive = elim (Bool-cases (i == k)) [
    | inl c ↦
        (let same_option : some o ≡ some x = sym (put_self k o m i c) ∙ found in
          let at : o ≡ x = cc in
          subst (λ (y : WorkingOrder Num). IsSize y.quantity) at
            (fits (ap (λ (y : WorkingOrder Num). live y.status) at ∙ alive)))
    | inr c ↦ h i x (sym (put_other k o m i c) ∙ found) alive
  ]

  apply_fill-returns :
      (rate : Num) (a : Account Num) (symbol : ℕ) (s : Side) (price : Num) (n : ℕ)
      → Grows
      → IsSize n
      → (apply_fill d rate a symbol s price n).1 ≡ true
  unfolding apply_fill
  apply_fill-returns rate a symbol s price n grows (positive, fits) =
      let small : too_large d n ≡ false = rw fits refl in
      elim (Bool-cases (extends d (held d a symbol) s n)) [
        | inl c ↦
            (let full : empty d (held d a symbol) s n ≡ false =
                rw (c, grows (held d a symbol) s n positive c) refl in
              rw (small, full))
        | inr c ↦ (let full : empty d (held d a symbol) s n ≡ false = rw c refl in rw (small, full))
      ]

  module _ (rate : Num) (checker : Option (OrderRequest Num → Num → ℤ → Bool)) where
    pub fill-returns :
        (g : Gateway Num) (o : WorkingOrder Num) (price : Num)
        → Grows
        → IsSize o.quantity
        → (fill d rate checker g o price).1 ≡ true
    unfolding fill
    fill-returns g o price grows size =
        rw (apply_fill-returns rate g.account o.symbol o.side price o.quantity grows size)

    -- A fill goes through.
    fill-completed :
        (g : Gateway Num) (o : WorkingOrder Num) (price : Num)
        → Grows
        → IsSize o.quantity
        → (a : Account Num) × (fill d rate checker g o price
            ≡ (completed d rate checker g o price a, true))
    fill-completed g o price grows size = elim (fill_cases d rate checker g o price) [
      | inl went ↦ went
      | inr (a, f) ↦ absurd (
          let fails : false ≡ true =
            sym (ap (λ (r : Gateway Num × Bool). r.1) f) ∙ fill-returns g o price grows size in
          ground arith)
    ]

    pub Sized-fill :
        (g : Gateway Num) (o : WorkingOrder Num) (price : Num)
        → Sized g.orders
        → Sized (fill d rate checker g o price).0.orders
    Sized-fill g o price h = elim (fill_cases d rate checker g o price) [
      | inl (a, f) ↦
          subst (λ (r : Gateway Num × Bool). Sized r.0.orders) (sym f)
            (Sized-put g.orders o.id _ h (λ alive. cc))
      | inr (a, f) ↦ subst (λ (r : Gateway Num × Bool). Sized r.0.orders) (sym f) h
    ]

    module _ (symbol : ℕ) (bid ask : Num) where
      settle-returns :
          (n : ℕ) (e : ℕ → ℕ) (ks : List ℕ) (g : Gateway Num)
          → Grows
          → Named n g.orders
          → Rests e ks g.orders
          → Sized g.orders
          → (ls : List ℕ) × ((settle d rate checker symbol bid ask ks g).1 ≡ some ls)
      settle-returns n e [] g grows named rests h = unfold settle in ([], refl)
      settle-returns n e (k ∷ ks) g grows named rests h = elim (Option-cases (g.orders k)) [
        | inl gone ↦ absurd (
            let alive = occurs_self e k ks g.orders rests in
            let dead = ap live_of gone in omega arith)
        | inr (o, there) ↦
            let (id_is, below) = named k o there in
            let alive : live o.status ≡ 1 =
              (let most = live_of-le (g.orders k) in
                let some_left = occurs_self e k ks g.orders rests in
                let is = ap live_of there in omega arith) in
            let price = improved d rate checker o bid ask in
            elim (Bool-cases ((o.symbol == symbol) && crosses d rate checker o bid ask)) [
              | inl c ↦
                  let (a, f) = fill-completed g o price grows (h k o there alive) in
                  let (ls, is) =
                    settle-returns n e ks (completed d rate checker g o price a) grows
                      (Named-completed d rate checker n g o price a (omega arith) named)
                      (Rests-completed d rate checker e ks g o price a
                        (subst (λ j. Rests e (j ∷ ks) g.orders) (sym id_is) rests))
                      (subst (λ (r : Gateway Num × Bool). Sized r.0.orders) f
                        (Sized-fill g o price h)) in
                  (
                    ls,
                    ap (λ (r : Gateway Num × Option (List ℕ)). r.1)
                          (settle-fill d rate checker symbol bid ask k ks g _ o there c f)
                        ∙ is,
                  )
              | inr c ↦
                  let (ls, is) =
                    settle-returns n (λ i. (if k == i then 1 else 0) + e i) ks g grows named
                      (Rests-aside e k ks g.orders rests) h in
                  (
                    k ∷ ls,
                    ap (λ (r : Gateway Num × Option (List ℕ)). r.1)
                          (settle_keep d rate checker symbol bid ask k ks g o there c)
                        ∙ ap (with_id k) is,
                  )
            ]
      ]

    -- The size of an order is positive, and floating point can hold it and the position.
    abbrev pub IsSound : Gateway Num → Call d rate checker → Type 0
    IsSound g (quotes symbol bid ask) = Unit
    IsSound g (limits symbol s n price) =
        IsSize n × (finite (rounded d rate checker g symbol) ≡ true)
    IsSound g (markets symbol s n) = IsSize n × (finite (rounded d rate checker g symbol) ≡ true)
    IsSound g (cancels id) = Unit

    ended-returns :
        (r : Gateway Num × Option (List ℕ)) (ls : List ℕ)
        → r.1 ≡ some ls
        → (ended d rate checker r).1 ≡ true
    ended-returns r ls h = rw h refl

    pub quote-returns :
        (g : Gateway Num) (symbol : ℕ) (bid ask : Num)
        → Grows
        → IsConsistent g
        → Sized g.orders
        → ((on_quote d rate checker g symbol bid ask).1 ≡ true)
          × Sized (on_quote d rate checker g symbol bid ask).0.orders
    quote-returns g symbol bid ask grows c h =
        let (ls, is) =
          settle-returns symbol bid ask g.next_id (λ i. 0) g.resting
            (quoted d rate checker g symbol bid ask) grows c.named c.rests h in
        (
          ap (λ (r : Gateway Num × Bool). r.1) (ended-on_quote d rate checker g symbol bid ask)
              ∙ ended-returns
                  (settle d rate checker symbol bid ask g.resting
                    (quoted d rate checker g symbol bid ask))
                  ls is,
          quote_keeps d rate checker g symbol bid ask (λ x. Sized x.orders) (λ x ls' kept. kept)
              (λ x k o price there id_is below alive kept. Sized-fill x o price kept) c h,
        )
