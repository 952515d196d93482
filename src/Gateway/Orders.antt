-- ===== src/Gateway/Orders.antt =====
-- src/quantfinlib/trading/paper_trading_gateway.py: the resting list holds exactly the new orders.
use quant_finance_py.Prelude.{
  ℕ, ◌+◌, ◌≤◌, ◌<◌, ◌≡◌, ◌⊎◌, ap, sym, ◌∙◌, Bool, true, false, ◌&&◌, Option, none, some, List, [],
  ◌∷◌, ◌==◌, if◌then◌else◌, arith, Bool-cases, inl, inr,
}
use quant_finance_py.Prelude.Int.{ℤ}
use quant_finance_py.Prelude.Double.{Double}
use quant_finance_py.Gateway.{
  OrderStatus, OrderRequest, WorkingOrder, Gateway, is_new, partially_filled, filled, canceled,
  rejected, put, with_id, Account, apply_fill, completed, fill, settle, crosses, improved,
}

abbrev pub occurrences : ℕ → List ℕ → ℕ
occurrences i [] = 0
occurrences i (j ∷ js) = (if j == i then 1 else 0) + occurrences i js

abbrev pub live : OrderStatus → ℕ
live is_new = 1
live partially_filled = 0
live filled = 0
live canceled = 0
live rejected = 0

live-le : (s : OrderStatus) → live s ≤ 1
live-le is_new = omega arith
live-le partially_filled = omega arith
live-le filled = omega arith
live-le canceled = omega arith
live-le rejected = omega arith

module _ {F : Type 0} where
  -- 1 for an order that is new.
  abbrev pub live_of : Option (WorkingOrder F) → ℕ
  live_of none = 0
  live_of (some o) = live o.status

  pub live_of-le : (x : Option (WorkingOrder F)) → live_of x ≤ 1
  live_of-le none = omega arith
  live_of-le (some o) = live-le o.status

  -- A list of ids has each new order once and no other, beside those that `extra` counts.
  abbrev pub Rests : (ℕ → ℕ) → List ℕ → (ℕ → Option (WorkingOrder F)) → Type 0
  Rests extra ids orders = (i : ℕ) → occurrences i ids + extra i ≡ live_of (orders i)

  -- An order carries the id it is stored under, and ids from `next` on are unused.
  abbrev pub Named : ℕ → (ℕ → Option (WorkingOrder F)) → Type 0
  Named next orders = (i : ℕ) (o : WorkingOrder F) → orders i ≡ some o → (o.id ≡ i) × (i < next)

  pub record IsConsistent (g : Gateway F) : Type 0 where
    pub rests : Rests (λ i. 0) g.resting g.orders
    pub named : Named g.next_id g.orders

  pub put_self :
      (k : ℕ) (o : WorkingOrder F) (m : ℕ → Option (WorkingOrder F)) (i : ℕ)
      → (i == k) ≡ true
      → put k o m i ≡ some o
  put_self k o m i h = rw h

  pub put_other :
      (k : ℕ) (o : WorkingOrder F) (m : ℕ → Option (WorkingOrder F)) (i : ℕ)
      → (i == k) ≡ false
      → put k o m i ≡ m i
  put_other k o m i h = rw h

  pub Named-put :
      (next k : ℕ) (o : WorkingOrder F) (m : ℕ → Option (WorkingOrder F))
      → Named next m
      → o.id ≡ k
      → k < next
      → Named next (put k o m)
  Named-put next k o m h e lt i x found = elim (Bool-cases (i == k)) [
    | inl c ↦
        (let same : some o ≡ some x = sym (put_self k o m i c) ∙ found in
          let at : o ≡ x = cc in
          (ap (λ (y : WorkingOrder F). y.id) (sym at) ∙ e ∙ ground arith, ground arith))
    | inr c ↦ h i x (sym (put_other k o m i c) ∙ found)
  ]

  -- An order that is no longer new leaves the list.
  pub Rests-put :
      (e : ℕ → ℕ) (k : ℕ) (ks : List ℕ) (o : WorkingOrder F) (m : ℕ → Option (WorkingOrder F))
      → live o.status ≡ 0
      → Rests e (k ∷ ks) m
      → Rests e ks (put k o m)
  Rests-put e k ks o m dead h i = elim (Bool-cases (i == k)) [
    | inl c ↦
        (let all = h i in
          let most = live_of-le (m i) in
          let eq : (k == i) ≡ true = ground arith in
          let here : 1 + occurrences i ks + e i ≡ live_of (m i) = rw eq at all in
          omega (arith, dead, ap live_of (put_self k o m i c)))
    | inr c ↦
        (let all = h i in
          let ne : (k == i) ≡ false = ground arith in
          let here : 0 + occurrences i ks + e i ≡ live_of (m i) = rw ne at all in
          omega (arith, ap live_of (put_other k o m i c)))
  ]

  -- An order that stays is counted aside.
  pub Rests-aside :
      (e : ℕ → ℕ) (k : ℕ) (ks : List ℕ) (m : ℕ → Option (WorkingOrder F))
      → Rests e (k ∷ ks) m
      → Rests (λ i. (if k == i then 1 else 0) + e i) ks m
  Rests-aside e k ks m h i = let all = h i in omega arith

  pub Rests-back :
      (e : ℕ → ℕ) (k : ℕ) (ks : List ℕ) (m : ℕ → Option (WorkingOrder F))
      → Rests (λ i. (if k == i then 1 else 0) + e i) ks m
      → Rests e (k ∷ ks) m
  Rests-back e k ks m h i = let all = h i in omega arith

  pub occurs_self :
      (e : ℕ → ℕ) (k : ℕ) (ks : List ℕ) (m : ℕ → Option (WorkingOrder F))
      → Rests e (k ∷ ks) m
      → 0 < live_of (m k)
  occurs_self e k ks m h =
      let all = h k in
      let eq : (k == k) ≡ true = ground arith in
      let here : 1 + occurrences k ks + e k ≡ live_of (m k) = rw eq at all in omega arith

module _ (d : Double) where
  open d use {Num}

  module _ (rate : Num) (checker : Option (OrderRequest Num → Num → ℤ → Bool)) where
    -- A fill goes through, or leaves the orders as they are and raises.
    pub fill_cases :
        (g : Gateway Num) (o : WorkingOrder Num) (price : Num)
        → ((a : Account Num) × (fill d rate checker g o price
              ≡ (completed d rate checker g o price a, true)))
          ⊎ ((a : Account Num) × (fill d rate checker g o price
                ≡ (record g { account = a }, false)))
    unfolding fill
    fill_cases g o price =
        let r = apply_fill d rate g.account o.symbol o.side price o.quantity in
        elim (Bool-cases (r.1)) [
          | inl c ↦ inl (r.0, rw (c, fill))
          | inr c ↦ inr (r.0, rw (c, fill))
        ]

    module _ (symbol : ℕ) (bid ask : Num) where
      -- The four ways a round of `settle` goes.
      pub settle-none :
          (k : ℕ) (ks : List ℕ) (g : Gateway Num)
          → g.orders k ≡ none
          → settle d rate checker symbol bid ask (k ∷ ks) g
            ≡ settle d rate checker symbol bid ask ks g
      unfolding settle
      settle-none k ks g h = rw (h, settle)

      pub settle-fill :
          (k : ℕ) (ks : List ℕ) (g g' : Gateway Num) (o : WorkingOrder Num)
          → g.orders k ≡ some o
          → ((o.symbol == symbol) && crosses d rate checker o bid ask) ≡ true
          → fill d rate checker g o (improved d rate checker o bid ask) ≡ (g', true)
          → settle d rate checker symbol bid ask (k ∷ ks) g
            ≡ settle d rate checker symbol bid ask ks g'
      unfolding settle
      settle-fill k ks g g' o h c f =
          rw (h, c, ap (λ (r : Gateway Num × Bool). r.1) f, settle)
            (ap (λ (r : Gateway Num × Bool). settle d rate checker symbol bid ask ks r.0) f)

      pub settle_raise :
          (k : ℕ) (ks : List ℕ) (g g' : Gateway Num) (o : WorkingOrder Num)
          → g.orders k ≡ some o
          → ((o.symbol == symbol) && crosses d rate checker o bid ask) ≡ true
          → fill d rate checker g o (improved d rate checker o bid ask) ≡ (g', false)
          → settle d rate checker symbol bid ask (k ∷ ks) g ≡ (g', none)
      unfolding settle
      settle_raise k ks g g' o h c f =
          rw (h, c, ap (λ (r : Gateway Num × Bool). r.1) f, settle)
            (ap (λ (r : Gateway Num × Bool). (r.0, none)) f)

      pub settle_keep :
          (k : ℕ) (ks : List ℕ) (g : Gateway Num) (o : WorkingOrder Num)
          → g.orders k ≡ some o
          → ((o.symbol == symbol) && crosses d rate checker o bid ask) ≡ false
          → settle d rate checker symbol bid ask (k ∷ ks) g ≡ (
            (settle d rate checker symbol bid ask ks g).0,
            with_id k (settle d rate checker symbol bid ask ks g).1,
          )
      unfolding settle
      settle_keep k ks g o h c = rw (h, c, settle)
