-- ===== src/L3Book/Orders.antt =====
-- src/quantfinlib/marketdata/l3_book_builder.py: the resting orders and the parts of the book
-- that are indexed by them. `_orders` is a dict in insertion order, here a list of nodes; a level
-- of the FIFO holds the references of its nodes, by which the nodes are shared.
use quant_finance_py.Prelude.{
  ℕ, ◌+◌, ◌-◌, Bool, true, false, not, ◌&&◌, ◌||◌, Option, none, some, List, [], ◌∷◌, ◌==◌, ltb,
  if◌then◌else◌,
}
use quant_finance_py.Execution.{Side, buy, sell}

-- `_Node`; `tick` is the index into the ladder.
pub record Node : Type 0 where
  pub ref : ℕ
  pub side : Side
  pub tick : ℕ
  pub qty : ℕ
  pub seq : ℕ

-- A row of `_tracked`.
pub record Tracked : Type 0 where
  pub ref : ℕ
  pub seq : ℕ
  pub ahead : ℕ
  pub tick : ℕ
  pub side : Side

abbrev pub same_side : Side → Side → Bool
same_side buy buy = true
same_side sell sell = true
same_side _ _ = false

abbrev pub at : Side → ℕ → Node → Bool
at s i n = same_side n.side s && (n.tick == i)

-- `_orders.get(ref)`.
unfoldable pub find : ℕ → List Node → Option Node
find r [] = none
find r (n ∷ ns) = if n.ref == r then some n else find r ns

-- `del _orders[ref]`.
unfoldable pub without : ℕ → List Node → List Node
without r [] = []
without r (n ∷ ns) = if n.ref == r then ns else n ∷ without r ns

-- `node.qty = q`, seen through `_orders`.
unfoldable pub set_qty : ℕ → ℕ → List Node → List Node
set_qty r q [] = []
set_qty r q (n ∷ ns) = if n.ref == r then record n { qty = q } ∷ ns else n ∷ set_qty r q ns

-- `level.remove(node)`: the first entry goes.
unfoldable pub remove : ℕ → List ℕ → List ℕ
remove r [] = []
remove r (x ∷ xs) = if x == r then xs else x ∷ remove r xs

-- A value for each side and ladder index, as a Python dict of dicts with a default.
abbrev pub Table : Type 0 → Type 0
Table V = Side → ℕ → V

abbrev pub update : {V : Type 0} → Side → ℕ → V → Table V → Table V
update s i v t s' i' = if same_side s s' && (i == i') then v else t s' i'

abbrev pub update_side : {V : Type 0} → Side → V → (Side → V) → Side → V
update_side s v t s' = if same_side s s' then v else t s'

-- The sets of `_occupied`.
unfoldable pub member : ℕ → List ℕ → Bool
member i [] = false
member i (x ∷ xs) = (x == i) || member i xs

unfoldable pub add : ℕ → List ℕ → List ℕ
unfolding member
add i xs = if member i xs then xs else i ∷ xs

unfoldable pub discard : ℕ → List ℕ → List ℕ
discard i [] = []
discard i (x ∷ xs) = let rest = discard i xs in if x == i then rest else x ∷ rest

-- Whether an index improves on the best one: `_NONE` is `none`.
abbrev pub improves : Side → ℕ → Option ℕ → Bool
improves s i none = true
improves buy i (some b) = ltb b i
improves sell i (some b) = ltb i b

-- `max(occ)` for bids and `min(occ)` for offers, `_NONE` on the empty set.
unfoldable pub extreme : Side → List ℕ → Option ℕ
extreme s [] = none
extreme s (i ∷ is) = let rest = extreme s is in if improves s i rest then some i else rest

-- Whether the best index is `i`.
abbrev pub is_best : ℕ → Option ℕ → Bool
is_best i none = false
is_best i (some b) = b == i

-- `_credit_ahead`: the rows that the removed quantity was ahead of.
abbrev pub credits : Node → Bool → Tracked → Bool
credits n by_seq t =
    (t.tick == n.tick)
    && (same_side t.side n.side && (not (t.ref == n.ref) && (not by_seq || ltb n.seq t.seq)))

unfoldable pub credit_ahead : Node → ℕ → Bool → List Tracked → List Tracked
credit_ahead n q by_seq [] = []
credit_ahead n q by_seq (t ∷ ts) =
    (if credits n by_seq t then record t { ahead = t.ahead - q } else t)
    ∷ credit_ahead n q by_seq ts

-- `untrack`: the first row of the reference goes.
unfoldable pub untrack_row : ℕ → List Tracked → List Tracked
untrack_row r [] = []
untrack_row r (t ∷ ts) = if t.ref == r then ts else t ∷ untrack_row r ts

unfoldable pub find_row : ℕ → List Tracked → Option Tracked
find_row r [] = none
find_row r (t ∷ ts) = if t.ref == r then some t else find_row r ts

-- The walk of `track` along a level up to the node: the quantities before it.
unfoldable pub walk : ℕ → List ℕ → List Node → ℕ
unfolding find
walk r [] ns = 0
walk r (x ∷ xs) ns =
    let rest = walk r xs ns in
    if x == r then 0 else elim (find x ns) [ none ↦ rest | some n ↦ n.qty + rest ]
