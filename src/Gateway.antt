-- ===== src/Gateway.antt =====
-- src/quantfinlib/trading/paper_trading_gateway.py: the paper trading venue. Prices, cash and
-- positions are floating point. A symbol is a number that stands for its text. The orders are one
-- object each, that `_orders` and `_resting` share: `resting` holds their ids. A listener gets the
-- fills in order, without the time stamp, and does not call the gateway back. The limit checker is
-- a parameter: whether it approves a request, a mid price and a rounded position.
-- A call that can raise gives the state that it leaves, and whether it returned or what.
pub mod Orders
pub mod Safety
pub mod Submission
pub mod Lifecycle
pub mod Returns
pub mod Liveness
mod Tests
use quant_finance_py.Prelude.{
  ℕ, zero, suc, ◌+◌, Bool, true, false, not, ◌&&◌, ◌||◌, Option, none, some, List, [], ◌∷◌, ◌++◌,
  ◌==◌, ltb, length, if◌then◌else◌,
}
use quant_finance_py.Prelude.Int.{ℤ, pos, neg_ℕ}
use quant_finance_py.Prelude.Double.{Double, magnitude}
use quant_finance_py.Execution.{Side, buy, sell}

abbrev pub rejection_log_cap : ℕ
rejection_log_cap = 1000

pub data OrderStatus : Type 0 where
  is_new partially_filled filled canceled rejected : OrderStatus

pub record OrderRequest (F : Type 0) : Type 0 where
  pub symbol : ℕ
  pub side : Side
  pub quantity : ℕ
  pub price : F

pub record WorkingOrder (F : Type 0) : Type 0 where
  pub id : ℕ
  pub symbol : ℕ
  pub side : Side
  pub quantity : ℕ
  pub limit_price : F
  pub status : OrderStatus

pub record Position (F : Type 0) : Type 0 where
  pub symbol : ℕ
  pub quantity : F
  pub avg_cost : F

pub record Quote (F : Type 0) : Type 0 where
  pub bid : F
  pub ask : F

-- What a listener is told.
pub record Fill (F : Type 0) : Type 0 where
  pub order_id : ℕ
  pub symbol : ℕ
  pub side : Side
  pub price : F
  pub quantity : ℕ

pub data Rejection : Type 0 where
  no_quote : ℕ → ℕ → Rejection
  refused : ℕ → Rejection

pub record Account (F : Type 0) : Type 0 where
  pub positions : List (Position F)
  pub cash : F
  pub realized_pnl : F
  pub fills : List (Fill F)

pub record Gateway (F : Type 0) : Type 0 where
  pub quotes : ℕ → Option (Quote F)
  pub orders : ℕ → Option (WorkingOrder F)
  pub resting : List ℕ
  pub account : Account F
  pub rejection_log : List Rejection
  pub rejection_count : ℕ
  pub next_id : ℕ

-- A write to a dict.
abbrev pub put {ℓ} : {A : Type ℓ} → ℕ → A → (ℕ → Option A) → ℕ → Option A
put k a m i = if i == k then some a else m i

abbrev pub touch : {F : Type 0} → Side → Quote F → F
touch buy q = q.ask
touch sell q = q.bid

unfoldable pub remove_id : ℕ → List ℕ → List ℕ
remove_id k [] = []
remove_id k (i ∷ is) = if i == k then is else i ∷ remove_id k is

abbrev pub with_id : ℕ → Option (List ℕ) → Option (List ℕ)
with_id i none = none
with_id i (some ks) = some (i ∷ ks)

unfoldable pub find_position : {F : Type 0} → ℕ → List (Position F) → Option (Position F)
find_position symbol [] = none
find_position symbol (p ∷ ps) = if p.symbol == symbol then some p else find_position symbol ps

unfoldable pub put_position : {F : Type 0} → Position F → List (Position F) → List (Position F)
put_position p [] = p ∷ []
put_position p (x ∷ xs) = if x.symbol == p.symbol then p ∷ xs else x ∷ put_position p xs

module _ {F : Type 0} where
  -- `_log_rejection`.
  unfoldable pub log_rejection : Gateway F → Rejection → Gateway F
  log_rejection g entry = record g {
    rejection_count = g.rejection_count + 1;
    rejection_log =
        if ltb (length g.rejection_log) rejection_log_cap
        then g.rejection_log ++ entry ∷ []
        else g.rejection_log;
  }

  -- The attributes of a shared order.
  abbrev pub store : WorkingOrder F → Gateway F → Gateway F
  store o g = record g { orders = put o.id o g.orders }

  unfoldable pub status : Gateway F → ℕ → Option OrderStatus
  status g id = elim (g.orders id) [ none ↦ none | some o ↦ some o.status ]

  unfoldable pub cancel : Gateway F → ℕ → Gateway F × Bool
  unfolding remove_id
  cancel g id = elim (g.orders id) [
    | none ↦ (g, false)
    | some o ↦ elim (o.status) [
      | is_new ↦ (
        record g {
          orders = put id (record o { status = canceled }) g.orders;
          resting = remove_id id g.resting;
        },
        true,
      )
      | partially_filled ↦ (g, false)
      | filled ↦ (g, false)
      | canceled ↦ (g, false)
      | rejected ↦ (g, false)
    ]
  ]

module _ (d : Double) where
  open d use {
    Num, of_ℤ, nan, negate, plus, minus, times, over, less, at_most, same, finite, negative, floor,
  }

  abbrev pub mid : Quote Num → Num
  mid q = over (plus q.bid q.ask) (of_ℤ (pos 2))

  abbrev pub nil : Num
  nil = of_ℤ (pos 0)

  abbrev pub one_of : Bool → Num
  one_of below = of_ℤ (if below then neg_ℕ 1 else pos 1)

  unfoldable pub new : Num → Gateway Num
  new initial_cash = record {
    quotes = λ s. none;
    orders = λ i. none;
    resting = [];
    account = record { positions = []; cash = initial_cash; realized_pnl = nil; fills = [] };
    rejection_log = [];
    rejection_count = 0;
    next_id = 1;
  }

  abbrev pub signed : Side → ℕ → Num
  signed buy n = of_ℤ (pos n)
  signed sell n = of_ℤ (neg_ℕ n)

  -- The branches of `_apply_fill` on the position before the fill.
  abbrev pub opened : Position Num → Side → Num → ℕ → Position Num
  opened p s price n =
      let q = plus p.quantity (signed s n) in
      record p {
        avg_cost =
            over (plus (times p.avg_cost (magnitude d p.quantity)) (times price (of_ℤ (pos n))))
              (magnitude d q);
        quantity = q;
      }

  abbrev pub reduced : Position Num → Side → Num → ℕ → Position Num
  reduced p s price n =
      let q = plus p.quantity (signed s n) in
      let flipped =
        not (same (one_of (negative q)) (one_of (negative p.quantity))) && not (same q nil) in
      record p {
        avg_cost = if same q nil then nil else if flipped then price else p.avg_cost;
        quantity = q;
      }

  abbrev pub realized : Position Num → Num → ℕ → Num
  realized p price n =
      let size = magnitude d p.quantity in
      let closing = if less (of_ℤ (pos n)) size then of_ℤ (pos n) else size in
      times (times (minus price p.avg_cost) closing) (one_of (negative p.quantity))

  abbrev pub held : Account Num → ℕ → Position Num
  held a symbol = elim (find_position symbol a.positions) [
    | none ↦ record { symbol = symbol; quantity = nil; avg_cost = nil }
    | some p ↦ p
  ]

  abbrev pub extends : Position Num → Side → ℕ → Bool
  extends p s n =
      same p.quantity nil || same (one_of (negative p.quantity)) (one_of (negative (signed s n)))

  abbrev pub paid : Side → Num → Num
  paid buy notional = negate notional
  paid sell notional = notional

  -- `price * qty` raises for a quantity too large for floating point.
  abbrev pub too_large : ℕ → Bool
  too_large n = not (finite (of_ℤ (pos n)))

  -- The division by the size of an opened position that is 0 raises.
  abbrev pub empty : Position Num → Side → ℕ → Bool
  empty p s n = extends p s n && same (magnitude d (plus p.quantity (signed s n))) nil

  abbrev pub charged : Num → Account Num → Side → Num → ℕ → Account Num
  charged commission_rate a s price n =
      let notional = times price (of_ℤ (pos n)) in
      record a { cash = minus (plus a.cash (paid s notional)) (times notional commission_rate) }

  -- `_apply_fill`: the account it leaves, and whether it returns.
  unfoldable pub apply_fill : Num → Account Num → ℕ → Side → Num → ℕ → Account Num × Bool
  unfolding find_position put_position
  apply_fill commission_rate a symbol s price n =
      let p = held a symbol in
      let a' = charged commission_rate a s price n in
      if too_large n
      then (a, false)
      else if empty p s n
      then (record a' { positions = put_position p a.positions }, false)
      else (
        record a' {
          realized_pnl =
              if extends p s n then a.realized_pnl else plus a.realized_pnl (realized p price n);
          positions =
              put_position (if extends p s n then opened p s price n else reduced p s price n)
                a.positions;
        },
        true,
      )

  unfoldable pub position : Gateway Num → ℕ → Num
  position g symbol = elim (find_position symbol g.account.positions) [
    | none ↦ nil
    | some p ↦ p.quantity
  ]

  -- The loop of `equity`.
  unfoldable pub marked : (ℕ → Option (Quote Num)) → Num → List (Position Num) → Num
  marked quotes value [] = value
  marked quotes value (p ∷ ps) = elim (quotes p.symbol) [
    | none ↦ marked quotes value ps
    | some q ↦ marked quotes (plus value (times p.quantity (mid q))) ps
  ]

  unfoldable pub equity : Gateway Num → Num
  unfolding marked
  equity g = marked g.quotes g.account.cash g.account.positions

  unfoldable pub positions_snapshot : List (Position Num) → List (ℕ × Num)
  positions_snapshot [] = []
  positions_snapshot (p ∷ ps) =
      if same p.quantity nil
      then positions_snapshot ps
      else (p.symbol, p.quantity) ∷ positions_snapshot ps

  module _ (commission_rate : Num)
      (limit_checker : Option (OrderRequest Num → Num → ℤ → Bool)) where
    -- An order that is filled, on the account that it leaves.
    abbrev pub completed : Gateway Num → WorkingOrder Num → Num → Account Num → Gateway Num
    completed g o price a =
        store (record o { quantity = 0; status = filled })
          (record g {
            account = record a {
              fills =
                  a.fills
                  ++ record {
                    order_id = o.id;
                    symbol = o.symbol;
                    side = o.side;
                    price = price;
                    quantity = o.quantity;
                  }
                    ∷ [];
            };
          })

    -- `_fill`.
    unfoldable pub fill : Gateway Num → WorkingOrder Num → Num → Gateway Num × Bool
    unfolding apply_fill
    fill g o price =
        let r = apply_fill commission_rate g.account o.symbol o.side price o.quantity in
        if r.1 then (completed g o price r.0, true) else (record g { account = r.0 }, false)

    -- Whether a quote fills a limit order, and at what price.
    abbrev pub crosses : WorkingOrder Num → Num → Num → Bool
    crosses o bid ask = elim (o.side) [
      | buy ↦ at_most ask o.limit_price
      | sell ↦ at_most o.limit_price bid
    ]

    abbrev pub improved : WorkingOrder Num → Num → Num → Num
    improved o bid ask = elim (o.side) [
      | buy ↦ if less ask o.limit_price then ask else o.limit_price
      | sell ↦ if less o.limit_price bid then bid else o.limit_price
    ]

    -- The loop of `on_quote`: the orders that still rest, if it ends.
    unfoldable pub settle : ℕ → Num → Num → List ℕ → Gateway Num → Gateway Num × Option (List ℕ)
    unfolding fill
    settle symbol bid ask [] g = (g, some [])
    settle symbol bid ask (i ∷ is) g = elim (g.orders i) [
      | none ↦ settle symbol bid ask is g
      | some o ↦ elim ((o.symbol == symbol) && crosses o bid ask) [
        | true ↦
            let r = fill g o (improved o bid ask) in
            elim (r.1) [ true ↦ settle symbol bid ask is r.0 | false ↦ (r.0, none) ]
        | false ↦ let (g', kept) = settle symbol bid ask is g in (g', with_id i kept)
      ]
    ]

    -- Whether it returns: a loop that raises leaves the resting orders as they were.
    unfoldable pub on_quote : Gateway Num → ℕ → Num → Num → Gateway Num × Bool
    unfolding settle
    on_quote g symbol bid ask =
        let g' = record g { quotes = put symbol (record { bid = bid; ask = ask }) g.quotes } in
        let (g'', kept) = settle symbol bid ask g.resting g' in
        elim kept [ none ↦ (g'', false) | some ks ↦ (record g'' { resting = ks }, true) ]

    abbrev pub rounded : Gateway Num → ℕ → Num
    rounded g symbol = plus (position g symbol) (over (of_ℤ (pos 1)) (of_ℤ (pos 2)))

    abbrev pub asked :
        (OrderRequest Num → Num → ℤ → Bool) → Gateway Num → WorkingOrder Num → Num → Bool
    asked check g o reference_price =
        check
          (record {
            symbol = o.symbol;
            side = o.side;
            quantity = o.quantity;
            price = reference_price;
          })
          (elim (g.quotes o.symbol) [ none ↦ nan | some q ↦ mid q ]) (floor (rounded g o.symbol))

    -- `_passes_risk_gate`: whether the order may go on. `math.floor` of what is not finite raises.
    unfoldable pub approved : Gateway Num → WorkingOrder Num → Num → Option Bool
    unfolding position
    approved g o reference_price = elim limit_checker [
      | none ↦ some true
      | some check ↦
          if finite (rounded g o.symbol) then some (asked check g o reference_price) else none
    ]

    abbrev pub refuse : Gateway Num → WorkingOrder Num → Rejection → Gateway Num
    refuse g o entry = log_rejection (store (record o { status = rejected }) g) entry

    abbrev pub created : Gateway Num → ℕ → Side → ℕ → Num → WorkingOrder Num
    created g symbol s n limit = record {
      id = g.next_id;
      symbol = symbol;
      side = s;
      quantity = n;
      limit_price = limit;
      status = is_new;
    }

    abbrev pub opened_order : Gateway Num → WorkingOrder Num → Gateway Num
    opened_order g o = record (store o g) { next_id = g.next_id + 1 }

    abbrev pub reply : Gateway Num × Bool → ℕ → Gateway Num × Option ℕ
    reply r id = (r.0, if r.1 then some id else none)

    -- The state that is left, and the id of the order if the call returns.
    unfoldable pub submit_limit : Gateway Num → ℕ → Side → ℕ → Num → Gateway Num × Option ℕ
    unfolding log_rejection fill approved
    submit_limit g symbol s n price =
        let o = created g symbol s n price in
        let g' = opened_order g o in
        let rest : Gateway Num × Option ℕ =
          (record g' { resting = g'.resting ++ o.id ∷ [] }, some o.id) in
        elim (approved g' o price) [
          | none ↦ (g', none)
          | some passed ↦
              if not passed
              then (refuse g' o (refused o.id), some o.id)
              else elim (g'.quotes symbol) [
                | none ↦ rest
                | some q ↦
                    if crosses o q.bid q.ask then reply (fill g' o (touch s q)) o.id else rest
              ]
        ]

    unfoldable pub submit_market : Gateway Num → ℕ → Side → ℕ → Gateway Num × Option ℕ
    unfolding log_rejection fill approved
    submit_market g symbol s n =
        let o = created g symbol s n nan in
        let g' = opened_order g o in
        elim (g'.quotes symbol) [
          | none ↦ (refuse g' o (no_quote o.id symbol), some o.id)
          | some q ↦ elim (approved g' o (touch s q)) [
            | none ↦ (g', none)
            | some passed ↦
                if not passed
                then (refuse g' o (refused o.id), some o.id)
                else reply (fill g' o (touch s q)) o.id
          ]
        ]
