-- ===== src/Gateway/Submission.antt =====
-- src/quantfinlib/trading/paper_trading_gateway.py: what a new order and a quote do to the resting
-- list.
use quant_finance_py.Prelude.{
  ℕ, ◌+◌, ◌≡◌, refl, ap, sym, subst, ◌∙◌, Bool, true, false, Option, none, some, List, [], ◌∷◌,
  arith, Bool-cases, inl, inr, Option-cases,
}
use quant_finance_py.Prelude.Int.{ℤ}
use quant_finance_py.Prelude.Double.{Double}
use quant_finance_py.Execution.{Side}
use quant_finance_py.Gateway.{
  OrderRequest, WorkingOrder, Gateway, rejected, put, refused, no_quote, fill, settle, on_quote,
  crosses, submit_limit, submit_market, created, opened_order, approved, touch, reply,
}
use quant_finance_py.Gateway.Orders.{
  live, IsConsistent, Rests, Named, Named-put, Rests-put, fill_cases,
}
use quant_finance_py.Gateway.Safety.{
  Keeps, settle_keeps, Submitted, outcome, opened-Named, opened-Rests, log-IsConsistent,
  occurrences-append, Named-completed, Rests-completed,
}

module _ (d : Double) (rate : d.Num)
    (checker : Option (OrderRequest d.Num → d.Num → ℤ → Bool)) where
  open d use {Num, nan}

  outcome-reply :
      (r : Gateway Num × Bool) (id : ℕ) → outcome d rate checker (reply d rate checker r id) ≡ r
  outcome-reply (g, true) id = refl
  outcome-reply (g, false) id = refl

  pub limit-Submitted :
      (g : Gateway Num) (symbol : ℕ) (s : Side) (n : ℕ) (price : Num)
      → Submitted d rate checker g
          (created d rate checker g symbol s n price)
          (outcome d rate checker (submit_limit d rate checker g symbol s n price))
  unfolding submit_limit
  limit-Submitted g symbol s n price =
      let o = created d rate checker g symbol s n price in
      let g' = opened_order d rate checker g o in
      elim (Option-cases (approved d rate checker g' o price)) [
        | inl stop ↦ inl (rw (stop, submit_limit))
        | inr (false, no_pass) ↦ inr (inl (refused o.id, rw (no_pass, submit_limit)))
        | inr (true, passed) ↦ elim (Option-cases (g.quotes symbol)) [
          | inl e ↦ inr (inr (inr (rw (passed, e, submit_limit))))
          | inr (q, e) ↦ elim (Bool-cases (crosses d rate checker o q.bid q.ask)) [
            | inl c ↦
                inr (inr (inl (touch s q, rw (passed, e, c, submit_limit) (outcome-reply _ o.id))))
            | inr c ↦ inr (inr (inr (rw (passed, e, c, submit_limit))))
          ]
        ]
      ]

  pub market-Submitted :
      (g : Gateway Num) (symbol : ℕ) (s : Side) (n : ℕ)
      → Submitted d rate checker g
          (created d rate checker g symbol s n nan)
          (outcome d rate checker (submit_market d rate checker g symbol s n))
  unfolding submit_market
  market-Submitted g symbol s n =
      let o = created d rate checker g symbol s n nan in
      let g' = opened_order d rate checker g o in
      elim (Option-cases (g.quotes symbol)) [
        | inl e ↦ inr (inl (no_quote o.id symbol, rw (e, submit_market)))
        | inr (q, e) ↦ elim (Option-cases (approved d rate checker g' o (touch s q))) [
          | inl stop ↦ inl (rw (e, stop, submit_market))
          | inr (false, no_pass) ↦ inr (inl (refused o.id, rw (e, no_pass, submit_market)))
          | inr (true, passed) ↦
              inr (inr (inl (touch s q, rw (e, passed, submit_market) (outcome-reply _ o.id))))
        ]
      ]

  abbrev pub quoted : Gateway Num → ℕ → Num → Num → Gateway Num
  quoted g symbol bid ask = record g {
    quotes = put symbol (record { bid = bid; ask = ask }) g.quotes;
  }

  -- How `on_quote` ends after its loop.
  abbrev pub ended : Gateway Num × Option (List ℕ) → Gateway Num × Bool
  ended r = elim (r.1) [ none ↦ (r.0, false) | some ks ↦ (record r.0 { resting = ks }, true) ]

  pub ended-on_quote :
      (g : Gateway Num) (symbol : ℕ) (bid ask : Num)
      → on_quote d rate checker g symbol bid ask
        ≡ ended (settle d rate checker symbol bid ask g.resting (quoted g symbol bid ask))
  unfolding on_quote
  ended-on_quote g symbol bid ask = refl

  ended_keeps :
      (P : Gateway Num → Type 0)
      → ((x : Gateway Num) (ls : List ℕ) → P x → P (record x { resting = ls }))
      → (r : Gateway Num × Option (List ℕ)) → P (r.0)
      → P (ended r).0
  ended_keeps P keep (g, none) h = h
  ended_keeps P keep (g, some ks) h = keep g ks h

  ended-IsConsistent :
      (n : ℕ) (r : Gateway Num × Option (List ℕ))
      → r.0.next_id ≡ n
      → Named n r.0.orders
      → ((ks : List ℕ) → r.1 ≡ some ks → Rests (λ i. 0) ks r.0.orders)
      → (ended r).1 ≡ true
      → IsConsistent (ended r).0
  ended-IsConsistent n (g, none) same named rests back = cc
  ended-IsConsistent n (g, some ks) same named rests back = record {
    rests = rests ks refl;
    named = subst (λ m. Named m g.orders) (sym same) named;
  }

  pub quote_keeps :
      (g : Gateway Num) (symbol : ℕ) (bid ask : Num) (P : Gateway Num → Type 0)
      → ((x : Gateway Num) (ls : List ℕ) → P x → P (record x { resting = ls }))
      → Keeps d rate checker symbol bid ask g.next_id P
      → IsConsistent g
      → P (record g { quotes = put symbol (record { bid = bid; ask = ask }) g.quotes })
      → P (on_quote d rate checker g symbol bid ask).0
  quote_keeps g symbol bid ask P back keep c h =
      let g' = quoted g symbol bid ask in
      let settled =
        settle_keeps d rate checker symbol bid ask g.next_id P keep (λ i. 0) g.resting g' c.named
          c.rests h in
      subst (λ (r : Gateway Num × Bool). P (r.0)) (sym (ended-on_quote g symbol bid ask))
        (ended_keeps P back (settle d rate checker symbol bid ask g.resting g') settled.0)

  fill-next_id :
      (g : Gateway Num) (o : WorkingOrder Num) (price : Num)
      → (fill d rate checker g o price).0.next_id ≡ g.next_id
  fill-next_id g o price = elim (fill_cases d rate checker g o price) [
    | inl (a, f) ↦ ap (λ (r : Gateway Num × Bool). r.0.next_id) f
    | inr (a, f) ↦ ap (λ (r : Gateway Num × Bool). r.0.next_id) f
  ]

  pub quote-IsConsistent :
      (g : Gateway Num) (symbol : ℕ) (bid ask : Num)
      → IsConsistent g
      → (on_quote d rate checker g symbol bid ask).1 ≡ true
      → IsConsistent (on_quote d rate checker g symbol bid ask).0
  quote-IsConsistent g symbol bid ask c back =
      let g' = quoted g symbol bid ask in
      let (same, named, rests) =
        settle_keeps d rate checker symbol bid ask g.next_id (λ x. x.next_id ≡ g.next_id)
          (λ x k o price there id_is below alive e. fill-next_id x o price ∙ e) (λ i. 0) g.resting
          g' c.named c.rests refl in
      let is = ended-on_quote g symbol bid ask in
      subst (λ (r : Gateway Num × Bool). IsConsistent r.0) (sym is)
        (ended-IsConsistent g.next_id (settle d rate checker symbol bid ask g.resting g') same named
          rests (sym (ap (λ (r : Gateway Num × Bool). r.1) is) ∙ back))

  pub Submitted-IsConsistent :
      (g : Gateway Num) (o : WorkingOrder Num) (r : Gateway Num × Bool)
      → o.id ≡ g.next_id
      → live o.status ≡ 1
      → IsConsistent g
      → Submitted d rate checker g o r
      → r.1 ≡ true
      → IsConsistent r.0
  Submitted-IsConsistent g o r e alive c h back =
      let g' = opened_order d rate checker g o in
      let named = opened-Named g.next_id o g.orders c.named e in
      let rests = opened-Rests g.next_id g.resting o g.orders c.named e alive c.rests in
      let to = λ (x : Gateway Num × Bool). IsConsistent x.0 in
      elim h [
        | inl is ↦ absurd (
            let fails : true ≡ false = sym back ∙ ap (λ (x : Gateway Num × Bool). x.1) is in
            ground arith)
        | inr (inl (x, is)) ↦ subst to (sym is) (
            log-IsConsistent _ x (record {
              rests =
                  Rests-put (λ i. 0) o.id g.resting (record o { status = rejected }) g'.orders refl
                    rests;
              named =
                  Named-put (g.next_id + 1) o.id (record o { status = rejected }) g'.orders named
                    refl (omega arith);
            }))
        | inr (inr (inl (price, is))) ↦ elim (fill_cases d rate checker g' o price) [
          | inl (a, f) ↦ subst to (sym (is ∙ f)) (record {
            rests = Rests-completed d rate checker (λ i. 0) g.resting g' o price a rests;
            named = Named-completed d rate checker (g.next_id + 1) g' o price a (omega arith) named;
          })
          | inr (a, f) ↦ absurd (
              let fails : true ≡ false = sym back ∙ ap (λ (x : Gateway Num × Bool). x.1) (is ∙ f) in
              ground arith)
        ]
        | inr (inr (inr is)) ↦ subst to (sym is) (record {
          rests = λ i. omega (arith, occurrences-append i g.resting (o.id ∷ []), rests i);
          named = named;
        })
      ]
