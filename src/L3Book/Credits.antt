-- ===== src/L3Book/Credits.antt =====
-- Each edit of the book keeps the tracked rows exact.
use quant_finance_py.Prelude.{
  ℕ, ◌-◌, ◌≡◌, ◌≤◌, ◌<◌, Bool, true, false, some, List, [], ◌∷◌, ◌++◌, arith, ◌==◌, if◌then◌else◌,
  All, Bool-cases, inl, inr, min,
}
use quant_finance_py.Execution.{Side}
use quant_finance_py.L3Book.{Book, clear_level, remove_node, shrink}
use quant_finance_py.L3Book.Orders.{
  Node, Tracked, find, without, set_qty, credit_ahead, untrack_row,
}
use quant_finance_py.L3Book.Handlers.{credit, reduce_node, remove_whole}
use quant_finance_py.L3Book.Sums.{refs_at}
use quant_finance_py.L3Book.Queries.{orders-reduce_node, orders-remove_whole}
use quant_finance_py.L3Book.Ahead.{Ordered-append, Ordered-without, Ordered-set_qty}
use quant_finance_py.L3Book.Rows.{
  Tracks, DistinctRows-credit_ahead, DistinctRows-untrack_row, rows-append,
}
use quant_finance_py.L3Book.Tracking.{shrunk_rows, removed_rows, head_credit}

abbrev pub IsTracked : Book → Type 0
IsTracked b = Tracks b.orders b.tracked

shrunk-Tracks :
    (ns : List Node) (ts : List Tracked) (n : Node) (cut : ℕ)
    → Tracks ns ts
    → find n.ref ns ≡ some n
    → cut ≤ n.qty
    → Tracks (set_qty n.ref (n.qty - cut) ns) (credit_ahead n cut true ts)
shrunk-Tracks ns ts n cut t rests le = record {
  rows = shrunk_rows n ns t.ordered rests cut ts le t.rows;
  distinct = DistinctRows-credit_ahead n cut true ts t.distinct;
  ordered = Ordered-set_qty n.ref (n.qty - cut) ns t.ordered;
}

removed-Tracks :
    (ns : List Node) (ts : List Tracked) (n : Node)
    → Tracks ns ts
    → find n.ref ns ≡ some n
    → Tracks (without n.ref ns) (untrack_row n.ref (credit_ahead n n.qty true ts))
removed-Tracks ns ts n t rests = record {
  rows = removed_rows n ns t.ordered rests ts t.distinct t.rows;
  distinct =
      DistinctRows-untrack_row n.ref _ (DistinctRows-credit_ahead n n.qty true ts t.distinct);
  ordered = Ordered-without n.ref ns t.ordered;
}

tracked-clear_level : (b : Book) (s : Side) (i : ℕ) → (clear_level b s i).tracked ≡ b.tracked
unfolding clear_level
tracked-clear_level b s i = ground arith

tracked-remove_node :
    (b : Book) (n : Node) → (remove_node b n).tracked ≡ untrack_row n.ref b.tracked
unfolding remove_node clear_level
tracked-remove_node b n = ground arith

tracked-reduce_node :
    (b : Book) (n : Node) (k : ℕ) (by_seq : Bool)
    → (reduce_node b n k by_seq).tracked ≡ (
        if n.qty - min k n.qty == 0
        then untrack_row n.ref (credit_ahead n (min k n.qty) by_seq b.tracked)
        else credit_ahead n (min k n.qty) by_seq b.tracked)
unfolding reduce_node shrink
tracked-reduce_node b n k by_seq = elim (Bool-cases (n.qty - min k n.qty == 0)) [
  | inl e ↦ rw e (tracked-remove_node (shrink (credit b n (min k n.qty) by_seq) n (min k n.qty)) n)
  | inr e ↦ rw e
]

-- A reduction by `k` shares whose credits go by sequence number.
reduced-Tracks :
    (ns : List Node) (ts : List Tracked) (n : Node) (k : ℕ)
    → Tracks ns ts
    → find n.ref ns ≡ some n
    → Tracks
        (if n.qty - min k n.qty == 0
          then without n.ref ns
          else set_qty n.ref (n.qty - min k n.qty) ns)
        (if n.qty - min k n.qty == 0
          then untrack_row n.ref (credit_ahead n (min k n.qty) true ts)
          else credit_ahead n (min k n.qty) true ts)
reduced-Tracks ns ts n k t rests = elim (Bool-cases (n.qty - min k n.qty == 0)) [
  | inl e ↦
      let all : min k n.qty ≡ n.qty = ground arith in rw (e, all) (removed-Tracks ns ts n t rests)
  | inr e ↦ rw e (shrunk-Tracks ns ts n (min k n.qty) t rests (omega arith))
]

pub cancelled-Tracks :
    (b : Book) (n : Node) (k : ℕ)
    → IsTracked b
    → find n.ref b.orders ≡ some n
    → IsTracked (reduce_node b n k true)
cancelled-Tracks b n k t rests =
    rw (orders-reduce_node b n k true, tracked-reduce_node b n k true)
      (reduced-Tracks b.orders b.tracked n k t rests)

-- At the head of the queue an execution credits what a cancel does.
pub executed-Tracks :
    (b : Book) (n : Node) (k : ℕ) (rest : List ℕ)
    → IsTracked b
    → find n.ref b.orders ≡ some n
    → refs_at n.side n.tick b.orders ≡ n.ref ∷ rest
    → IsTracked (reduce_node b n k false)
executed-Tracks b n k rest t rests first =
    rw
      (
        orders-reduce_node b n k false,
        tracked-reduce_node b n k false,
        head_credit n b.orders rest (min k n.qty) b.tracked t.ordered first rests t.rows,
      )
      (reduced-Tracks b.orders b.tracked n k t rests)

pub dropped-Tracks :
    (b : Book) (n : Node)
    → IsTracked b
    → find n.ref b.orders ≡ some n
    → IsTracked (remove_whole b n)
dropped-Tracks b n t rests =
    rw (orders-remove_whole b n, tracked-remove_whole b n)
      (removed-Tracks b.orders b.tracked n t rests)
  where
    tracked-remove_whole :
        (c : Book) (m : Node)
        → (remove_whole c m).tracked ≡ untrack_row m.ref (credit_ahead m m.qty true c.tracked)
    tracked-remove_whole c m = unfold remove_whole remove_node clear_level in ground arith

pub placed-Tracks :
    (ns : List Node) (ts : List Tracked) (n : Node)
    → Tracks ns ts
    → All (λ (m : Node). m.seq < n.seq) ns
    → Tracks (ns ++ n ∷ []) ts
placed-Tracks ns ts n t newest = record {
  rows = rows-append ns n ts t.rows;
  distinct = t.distinct;
  ordered = Ordered-append ns n t.ordered newest;
}
