-- ===== src/L3Book/Runs.antt =====
-- src/quantfinlib/marketdata/l3_book_builder.py: a book from its construction on.
use quant_finance_py.Prelude.{
  ℕ, ◌≡◌, Bool, true, ◌&&◌, some, List, [], ◌∷◌, arith, if_none-some, and_right,
}
use quant_finance_py.Prelude.Int.{ℤ}
use quant_finance_py.L3Book.{Book, new}
use quant_finance_py.L3Book.Orders.{Node, find}
use quant_finance_py.L3Book.Handlers.{shares_ahead}
use quant_finance_py.L3Book.Feed.{Event, apply, run}
use quant_finance_py.L3Book.Ahead.{ahead_of}
use quant_finance_py.L3Book.Credits.{IsTracked}
use quant_finance_py.L3Book.Invariant.{IsConsistent}
use quant_finance_py.L3Book.Safety.{new-IsConsistent, apply-IsConsistent}
use quant_finance_py.L3Book.Priority.{at_head, apply-IsTracked, shares_ahead-ahead_of}

-- Every execution of the feed fills the oldest order of its level.
unfoldable pub all_at_head : Book → List Event → Bool
unfolding at_head apply
all_at_head b [] = true
all_at_head b (e ∷ es) = at_head b e && all_at_head (apply b e) es

and_left : (a b : Bool) → (a && b) ≡ true → a ≡ true
and_left a b h = ground arith

new-IsTracked :
    (locate : ℕ) (lo hi : ℤ) (cap : ℕ) (b : Book) → new locate lo hi cap ≡ some b → IsTracked b
unfolding new
new-IsTracked locate lo hi cap b h =
    let made = if_none-some _ _ b h in
    rw (← made.1) (record { rows = tt; distinct = tt; ordered = tt })

run-IsTracked :
    (b : Book) (es : List Event)
    → IsConsistent b
    → IsTracked b
    → all_at_head b es ≡ true
    → IsTracked (run b es)
unfolding run all_at_head
run-IsTracked b [] c t h = t
run-IsTracked b (e ∷ es) c t h =
    run-IsTracked (apply b e) es (apply-IsConsistent b e c)
      (apply-IsTracked b e c t (and_left _ _ h)) (and_right _ _ h)

-- At any time after its construction, if every execution so far filled the oldest order of its
-- level, what the book answers for an order's shares ahead are the shares of the older orders of
-- its level, and the order rests.
pub shares_ahead-run :
    (locate : ℕ) (lo hi : ℤ) (cap : ℕ) (b : Book) (es : List Event) (r k : ℕ)
    → new locate lo hi cap ≡ some b
    → all_at_head b es ≡ true
    → shares_ahead (run b es) r ≡ some k
    → (x : Node) × (find r (run b es).orders ≡ some x)
      × (k ≡ ahead_of r x.side x.tick (run b es).orders)
shares_ahead-run locate lo hi cap b es r k made heads = shares_ahead-ahead_of (run b es) r k (
    run-IsTracked b es (new-IsConsistent locate lo hi cap b made)
      (new-IsTracked locate lo hi cap b made) heads)
