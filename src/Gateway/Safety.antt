-- ===== src/Gateway/Safety.antt =====
-- src/quantfinlib/trading/paper_trading_gateway.py: the life of an order.
use quant_finance_py.Prelude.{
  ℕ, ◌+◌, ◌<◌, ◌≡◌, ◌⊎◌, refl, ap, sym, subst, Bool, true, false, ◌&&◌, Option, none, some, List,
  [], ◌∷◌, ◌++◌, ◌==◌, if◌then◌else◌, arith, Bool-cases, inl, inr, Option-cases,
}
use quant_finance_py.Prelude.Int.{ℤ}
use quant_finance_py.Prelude.Double.{Double}
use quant_finance_py.Execution.{Side}
use quant_finance_py.Gateway.{
  OrderStatus, OrderRequest, WorkingOrder, Gateway, is_new, partially_filled, filled, canceled,
  rejected, put, remove_id, cancel, Rejection, log_rejection, fill, settle, on_quote, crosses,
  improved, submit_limit, submit_market, opened_order, refuse, completed, with_id, Account,
}
use quant_finance_py.Gateway.Orders.{
  occurrences, live, live_of, live_of-le, Rests, Named, IsConsistent, put_self, put_other,
  Named-put, Rests-put, Rests-aside, Rests-back, occurs_self, settle-fill, settle_keep,
  settle_raise, fill_cases,
}

pub occurrences-append :
    (i : ℕ) (xs ys : List ℕ) → occurrences i (xs ++ ys) ≡ occurrences i xs + occurrences i ys
occurrences-append i [] ys = omega arith
occurrences-append i (x ∷ xs) ys = omega (arith, occurrences-append i xs ys)

occurrences-remove_id :
    (i k : ℕ) (ks : List ℕ)
    → 0 < occurrences k ks
    → occurrences i (k ∷ remove_id k ks) ≡ occurrences i ks
unfolding remove_id
occurrences-remove_id i k [] h = ground arith
occurrences-remove_id i k (x ∷ xs) h = elim (Bool-cases (x == k)) [
  | inl c ↦ rw c (
      let same : x ≡ k = ground arith in
      ap (λ y. (if y == i then 1 else 0) + occurrences i xs) (sym same))
  | inr c ↦
      let later : 0 < 0 + occurrences k xs = rw c at h in
      let rest = occurrences-remove_id i k xs (omega arith) in rw c (omega arith)
]

module _ {F : Type 0} where
  -- A call only fills or refuses the order that it makes, and the new order rests otherwise.
  pub opened-Named :
      (n : ℕ) (o : WorkingOrder F) (m : ℕ → Option (WorkingOrder F))
      → Named n m
      → o.id ≡ n
      → Named (n + 1) (put o.id o m)
  opened-Named n o m h e =
      Named-put (n + 1) o.id o m (λ i x there. let (a, b) = h i x there in (a, omega arith)) refl
        (omega arith)

  pub opened-Rests :
      (n : ℕ) (ks : List ℕ) (o : WorkingOrder F) (m : ℕ → Option (WorkingOrder F))
      → Named n m
      → o.id ≡ n
      → live o.status ≡ 1
      → Rests (λ i. 0) ks m
      → Rests (λ i. 0) (o.id ∷ ks) (put o.id o m)
  opened-Rests n ks o m named e alive h i = elim (Bool-cases (i == o.id)) [
    | inl c ↦
        (let back : (o.id == i) ≡ true = ground arith in
          let absent : live_of (m i) ≡ 0 = (elim (Option-cases (m i)) [
            | inl k ↦ ap live_of k
            | inr (x, k) ↦ absurd (let (a, b) = named i x k in ground arith)
          ]) in
          let was = h i in
          rw back (omega (arith, ap live_of (put_self o.id o m i c), was, absent, alive)))
    | inr c ↦
        (let back : (o.id == i) ≡ false = ground arith in
          let was = h i in rw back (omega (arith, ap live_of (put_other o.id o m i c), was)))
  ]

  pub log-IsConsistent :
      (g : Gateway F) (r : Rejection) → IsConsistent g → IsConsistent (log_rejection g r)
  unfolding log_rejection
  log-IsConsistent g r c = record { rests = c.rests; named = c.named }

  abbrev pub without_order : Gateway F → ℕ → WorkingOrder F → Gateway F
  without_order g id o = record g {
    orders = put id (record o { status = canceled }) g.orders;
    resting = remove_id id g.resting;
  }

  cancel_by :
      (g : Gateway F) (id : ℕ) (o : WorkingOrder F) (s : OrderStatus)
      → g.orders id ≡ some o
      → o.status ≡ s
      → ((cancel g id).0 ≡ g) ⊎ ((live o.status ≡ 1) × ((cancel g id).0 ≡ without_order g id o))
  unfolding cancel
  cancel_by g id o is_new h e = inr (ap live e, rw (h, e, cancel))
  cancel_by g id o partially_filled h e = inl (rw (h, e, cancel))
  cancel_by g id o filled h e = inl (rw (h, e, cancel))
  cancel_by g id o canceled h e = inl (rw (h, e, cancel))
  cancel_by g id o rejected h e = inl (rw (h, e, cancel))

  -- A cancel changes nothing, or takes away an order that was new.
  pub cancel_cases :
      (g : Gateway F) (id : ℕ)
      → ((cancel g id).0 ≡ g)
        ⊎ ((o : WorkingOrder F) × (g.orders id ≡ some o)
            × (live o.status ≡ 1)
            × ((cancel g id).0 ≡ without_order g id o))
  cancel_cases g id = elim (Option-cases (g.orders id)) [
    | inl h ↦ inl (unfold cancel in rw (h, cancel))
    | inr (o, h) ↦ elim (cancel_by g id o o.status h refl) [
      | inl same ↦ inl same
      | inr (alive, is) ↦ inr (o, h, alive, is)
    ]
  ]

  pub cancel-IsConsistent : (g : Gateway F) (id : ℕ) → IsConsistent g → IsConsistent (cancel g id).0
  cancel-IsConsistent g id c = elim (cancel_cases g id) [
    | inl same ↦ subst IsConsistent (sym same) c
    | inr (o, there, alive, is) ↦
        let (id_is, below) = c.named id o there in
        let present : 0 < occurrences id g.resting =
          (let all = c.rests id in let is_live = ap live_of there in omega arith) in
        let whole : Rests (λ i. 0) (id ∷ remove_id id g.resting) g.orders =
          (λ i. omega (arith, occurrences-remove_id i id g.resting present, c.rests i)) in
        subst IsConsistent (sym is) (record {
          rests =
              Rests-put (λ i. 0) id (remove_id id g.resting) (record o { status = canceled })
                g.orders refl whole;
          named =
              Named-put g.next_id id (record o { status = canceled }) g.orders c.named id_is below;
        })
  ]

module _ (d : Double) (rate : d.Num)
    (checker : Option (OrderRequest d.Num → d.Num → ℤ → Bool)) where
  open d use {Num}

  pub Named-completed :
      (n : ℕ) (g : Gateway Num) (o : WorkingOrder Num) (price : Num) (a : Account Num)
      → o.id < n
      → Named n g.orders
      → Named n (completed d rate checker g o price a).orders
  Named-completed n g o price a lt named = Named-put n o.id _ g.orders named refl lt

  pub Rests-completed :
      (e : ℕ → ℕ) (ks : List ℕ) (g : Gateway Num) (o : WorkingOrder Num) (price : Num)
      (a : Account Num)
      → Rests e (o.id ∷ ks) g.orders
      → Rests e ks (completed d rate checker g o price a).orders
  Rests-completed e ks g o price a h =
      Rests-put e o.id ks (record o { quantity = 0; status = filled }) g.orders refl h

  -- What fills of new orders keep, a quote keeps, however far it goes.
  module _ (symbol : ℕ) (bid ask : Num) (n : ℕ) (P : Gateway Num → Type 0) where
    abbrev pub Settled : (ℕ → ℕ) → Gateway Num × Option (List ℕ) → Type 0
    Settled e r =
        P (r.0) × Named n r.0.orders × ((ks : List ℕ) → r.1 ≡ some ks → Rests e ks r.0.orders)

    abbrev pub Keeps : Type 0
    Keeps =
        (g : Gateway Num) (k : ℕ) (o : WorkingOrder Num) (price : Num)
        → g.orders k ≡ some o
        → o.id ≡ k
        → k < n
        → live o.status ≡ 1
        → P g
        → P (fill d rate checker g o price).0

    Settled-back :
        (e : ℕ → ℕ) (k : ℕ) (r : Gateway Num × Option (List ℕ))
        → Settled (λ i. (if k == i then 1 else 0) + e i) r
        → Settled e (r.0, with_id k r.1)
    Settled-back e k (g, none) (h, named, rests) = (h, named, λ ks is. cc)
    Settled-back e k (g, some ls) (h, named, rests) = (
      h,
      named,
      λ ks is.
          let same : k ∷ ls ≡ ks = cc in
          subst (λ js. Rests e js g.orders) same (Rests-back e k ls g.orders (rests ls refl)),
    )

    pub settle_keeps :
        Keeps
        → (e : ℕ → ℕ) (ks : List ℕ) (g : Gateway Num) → Named n g.orders
        → Rests e ks g.orders
        → P g
        → Settled e (settle d rate checker symbol bid ask ks g)
    settle_keeps keep e [] g named rests h =
        unfold settle in
        (h, named, λ ks is. let same : [] ≡ ks = cc in subst (λ js. Rests e js g.orders) same rests)
    settle_keeps keep e (k ∷ ks) g named rests h = elim (Option-cases (g.orders k)) [
      | inl none_there ↦ absurd (
          let alive = occurs_self e k ks g.orders rests in
          let dead = ap live_of none_there in omega arith)
      | inr (o, there) ↦
          let (id_is, below) = named k o there in
          let alive : live o.status ≡ 1 =
            (let most = live_of-le (g.orders k) in
              let some_left = occurs_self e k ks g.orders rests in
              let is = ap live_of there in omega arith) in
          let price = improved d rate checker o bid ask in
          let kept = keep g k o price there id_is below alive h in
          elim (Bool-cases ((o.symbol == symbol) && crosses d rate checker o bid ask)) [
            | inl c ↦ elim (fill_cases d rate checker g o price) [
              | inl (a, f) ↦
                  let g' = completed d rate checker g o price a in
                  subst (Settled e)
                    (sym (settle-fill d rate checker symbol bid ask k ks g g' o there c f))
                    (settle_keeps keep e ks g' (Named-completed n g o price a (omega arith) named)
                      (Rests-completed e ks g o price a
                        (subst (λ j. Rests e (j ∷ ks) g.orders) (sym id_is) rests))
                      (subst (λ (r : Gateway Num × Bool). P (r.0)) f kept))
              | inr (a, f) ↦
                  subst (Settled e)
                    (sym (
                      settle_raise d rate checker symbol bid ask k ks g (record g { account = a }) o
                        there c f))
                    (subst (λ (r : Gateway Num × Bool). P (r.0)) f kept, named, λ ls is. cc)
            ]
            | inr c ↦
                subst (Settled e) (sym (settle_keep d rate checker symbol bid ask k ks g o there c))
                  (Settled-back e k (settle d rate checker symbol bid ask ks g) (
                    settle_keeps keep (λ i. (if k == i then 1 else 0) + e i) ks g named
                      (Rests-aside e k ks g.orders rests) h))
          ]
    ]

  -- The calls of a client and of the market.
  pub data Call : Type 0 where
    quotes : ℕ → Num → Num → Call
    limits : ℕ → Side → ℕ → Num → Call
    markets : ℕ → Side → ℕ → Call
    cancels : ℕ → Call

  abbrev pub outcome : Gateway Num × Option ℕ → Gateway Num × Bool
  outcome r = (r.0, elim (r.1) [ none ↦ false | some id ↦ true ])

  -- The state that a call leaves, and whether it returns.
  unfoldable pub step : Gateway Num → Call → Gateway Num × Bool
  unfolding on_quote submit_limit submit_market cancel
  step g (quotes symbol bid ask) = on_quote d rate checker g symbol bid ask
  step g (limits symbol s n price) = outcome (submit_limit d rate checker g symbol s n price)
  step g (markets symbol s n) = outcome (submit_market d rate checker g symbol s n)
  step g (cancels id) = ((cancel g id).0, true)

  -- What becomes of a new order: the call raises before it is filled, it is refused, it goes to a
  -- fill, or it rests.
  abbrev pub Submitted : Gateway Num → WorkingOrder Num → Gateway Num × Bool → Type 0
  Submitted g o r =
      (r ≡ (opened_order d rate checker g o, false))
      ⊎ (((x : Rejection) × (r
              ≡ (refuse d rate checker (opened_order d rate checker g o) o x, true)))
          ⊎ (((price : Num) × (r ≡ fill d rate checker (opened_order d rate checker g o) o price))
              ⊎ (r ≡ (
                record (opened_order d rate checker g o) { resting = g.resting ++ o.id ∷ [] },
                true,
              ))))
