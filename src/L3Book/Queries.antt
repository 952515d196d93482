-- ===== src/L3Book/Queries.antt =====
-- What the queries of a well-formed book answer, before and after an event.
use quant_finance_py.Prelude.{
  ℕ, ◌+◌, ◌-◌, ◌≡◌, ◌≤◌, ◌<◌, refl, ◌∙◌, Bool, true, false, ◌&&◌, Option, none, some, List, [], ◌∷◌,
  arith, ◌==◌, ltb, if◌then◌else◌, Bool-cases, Option-cases, inl, inr, min,
}
use quant_finance_py.Execution.{Side, buy, sell}
use quant_finance_py.L3Book.{Book, Counters, clear_level, remove_node, shrink}
use quant_finance_py.L3Book.Orders.{Node, same_side, at, find, without, set_qty, member, improves}
use quant_finance_py.L3Book.Handlers.{
  credit, reduce_node, reduce, remove_whole, on_execute, on_cancel, on_delete, best_size,
  open_quantity,
}
use quant_finance_py.L3Book.Sums.{
  shares_at, Distinct, ref-find, find-without_ne, find-without_self, find-set_qty, without-set_qty,
}
use quant_finance_py.L3Book.Best.{IsExtreme}
use quant_finance_py.L3Book.Invariant.{IsConsistent}

abbrev qty_of : Option Node → ℕ
qty_of none = 0
qty_of (some n) = n.qty

-- The open shares of a reference in a list of orders.
abbrev open_in : ℕ → List Node → ℕ
open_in j ns = qty_of (find j ns)

open_quantity_lem : (b : Book) (j : ℕ) → open_quantity b j ≡ open_in j b.orders
unfolding open_quantity
open_quantity_lem b j = ground arith

pub orders-remove_node : (b : Book) (n : Node) → (remove_node b n).orders ≡ without n.ref b.orders
unfolding remove_node clear_level
orders-remove_node b n = ground arith

pub orders-reduce_node :
    (b : Book) (n : Node) (k : ℕ) (by_seq : Bool)
    → (reduce_node b n k by_seq).orders ≡ (
        if n.qty - min k n.qty == 0
        then without n.ref b.orders
        else set_qty n.ref (n.qty - min k n.qty) b.orders)
unfolding reduce_node shrink
orders-reduce_node b n k by_seq = elim (Bool-cases (n.qty - min k n.qty == 0)) [
  | inl e ↦ rw e (
      orders-remove_node (shrink (credit b n (min k n.qty) by_seq) n (min k n.qty)) n
      ∙ without-set_qty n.ref (n.qty - min k n.qty) b.orders)
  | inr e ↦ rw e
]

open_in-set_qty :
    (r q j : ℕ) (ns : List Node) (n : Node)
    → find r ns ≡ some n
    → open_in j (set_qty r q ns) ≡ (if r == j then q else open_in j ns)
open_in-set_qty r q j ns n h = rw (find-set_qty r q j ns, h) (ground arith)

open_in-without :
    (r j : ℕ) (ns : List Node)
    → Distinct ns
    → open_in j (without r ns) ≡ (if r == j then 0 else open_in j ns)
open_in-without r j ns d = elim (Bool-cases (r == j)) [
  | inl e ↦ let same : r ≡ j = ground arith in rw (e, ← same, find-without_self r ns d)
  | inr e ↦ rw (e, find-without_ne r j ns e)
]

open_in-same :
    (r j k : ℕ) (ns : List Node) (n : Node)
    → find r ns ≡ some n
    → (if r == j then n.qty - k else open_in j ns)
      ≡ (if r == j then open_in j ns - k else open_in j ns)
open_in-same r j k ns n h = elim (Bool-cases (r == j)) [
  | inl e ↦ let same : r ≡ j = ground arith in rw (e, ← same, h)
  | inr e ↦ rw e
]

open_in-reduce_node :
    (r k j : ℕ) (ns : List Node) (n : Node)
    → Distinct ns
    → find r ns ≡ some n
    → open_in j
        (if n.qty - min k n.qty == 0 then without r ns else set_qty r (n.qty - min k n.qty) ns)
      ≡ (if r == j then n.qty - k else open_in j ns)
open_in-reduce_node r k j ns n d h = elim (Bool-cases (n.qty - min k n.qty == 0)) [
  | inl e ↦ rw (e, open_in-without r j ns d) (ground arith)
  | inr e ↦ rw (e, open_in-set_qty r (n.qty - min k n.qty) j ns n h) (ground arith)
]

open_in-reduce :
    (b : Book) (r k j : ℕ) (by_seq : Bool)
    → IsConsistent b
    → open_in j (reduce b r k by_seq).0.orders
      ≡ (if r == j then open_in j b.orders - k else open_in j b.orders)
unfolding reduce
open_in-reduce b r k j by_seq c = elim (Option-cases (find r b.orders)) [
  | inl e ↦
      rw (e, reduce)
        (elim (Bool-cases (r == j)) [
          | inl p ↦ let same : r ≡ j = ground arith in rw (p, ← same, e) (omega arith)
          | inr p ↦ rw p
        ])
  | inr (n, e) ↦
      rw (e, reduce, orders-reduce_node b n k by_seq, ref-find r b.orders n e)
        (open_in-reduce_node r k j b.orders n c.distinct e ∙ open_in-same r j k b.orders n e)
]

pub orders_counted :
    (b : Book) (done : Bool) (j k : Counters)
    → (if done then record b { counters = j } else record b { counters = k }).orders ≡ b.orders
orders_counted b true j k = refl
orders_counted b false j k = refl

orders-on_cancel : (b : Book) (r k : ℕ) → (on_cancel b r k).orders ≡ (reduce b r k true).0.orders
unfolding on_cancel
orders-on_cancel b r k = orders_counted (reduce b r k true).0 (reduce b r k true).1 _ _

orders-on_execute : (b : Book) (r k : ℕ) → (on_execute b r k).orders ≡ (reduce b r k false).0.orders
unfolding on_execute
orders-on_execute b r k = orders_counted (reduce b r k false).0 (reduce b r k false).1 _ _

-- In a consistent book a partial cancel takes its shares, at most all there are, from its order and
-- from no other; of an unknown reference it takes nothing.
pub open_quantity-on_cancel :
    (b : Book) (r k j : ℕ)
    → IsConsistent b
    → open_quantity (on_cancel b r k) j
      ≡ (if r == j then open_quantity b j - k else open_quantity b j)
open_quantity-on_cancel b r k j c =
    rw (open_quantity_lem (on_cancel b r k) j, open_quantity_lem b j, orders-on_cancel b r k)
      (open_in-reduce b r k j true c)

-- An execution does the same.
pub open_quantity-on_execute :
    (b : Book) (r k j : ℕ)
    → IsConsistent b
    → open_quantity (on_execute b r k) j
      ≡ (if r == j then open_quantity b j - k else open_quantity b j)
open_quantity-on_execute b r k j c =
    rw (open_quantity_lem (on_execute b r k) j, open_quantity_lem b j, orders-on_execute b r k)
      (open_in-reduce b r k j false c)

pub orders-remove_whole : (b : Book) (n : Node) → (remove_whole b n).orders ≡ without n.ref b.orders
unfolding remove_whole remove_node clear_level
orders-remove_whole b n = ground arith

orders-on_delete :
    (b : Book) (r : ℕ)
    → (on_delete b r).orders
      ≡ elim (find r b.orders) [ none ↦ b.orders | some n ↦ without n.ref b.orders ]
unfolding on_delete
orders-on_delete b r = elim (Option-cases (find r b.orders)) [
  | inl e ↦ rw (e, on_delete)
  | inr (n, e) ↦
      rw (e, on_delete)
        (orders-remove_whole
          (record b { counters = record (b.counters) { delete_count = b.delete_count + 1 } }) n)
]

-- A delete leaves nothing of its order, and every other as it is.
pub open_quantity-on_delete :
    (b : Book) (r j : ℕ)
    → IsConsistent b
    → open_quantity (on_delete b r) j ≡ (if r == j then 0 else open_quantity b j)
open_quantity-on_delete b r j c =
    rw (open_quantity_lem (on_delete b r) j, open_quantity_lem b j, orders-on_delete b r)
      (elim (Option-cases (find r b.orders)) [
        | inl e ↦ rw e (elim (Bool-cases (r == j)) [
          | inl p ↦ let same : r ≡ j = ground arith in rw (p, ← same, e)
          | inr p ↦ rw p
        ])
        | inr (n, e) ↦ rw (e, ref-find r b.orders n e) (open_in-without r j b.orders c.distinct)
      ])

shares_at-find :
    (s : Side) (i r : ℕ) (ns : List Node) (n : Node)
    → find r ns ≡ some n
    → at s i n ≡ true
    → n.qty ≤ shares_at s i ns
unfolding find shares_at
shares_at-find s i r [] n h e = cc
shares_at-find s i r (m ∷ ns) n h e = ground (arith, shares_at-find s i r ns n)

pub at_own : (n : Node) → at n.side n.tick n ≡ true
at_own n = same n.side
  where
    same : (s : Side) → (same_side s s && (n.tick == n.tick)) ≡ true
    same buy = ground arith
    same sell = ground arith

no_improvement :
    (s : Side) (occ : List ℕ) (o : Option ℕ) (i : ℕ)
    → IsExtreme s occ o
    → member i occ ≡ true
    → improves s i o ≡ false
no_improvement s occ none i h m = ground (arith, h i)
no_improvement s occ (some b) i h m = h.1 i m

size_at_best : Option ℕ → (ℕ → ℕ) → ℕ
size_at_best none q = 0
size_at_best (some i) q = q i

size_at_best_pos :
    (s : Side) (occ : List ℕ) (o : Option ℕ) (q : ℕ → ℕ) (i : ℕ)
    → IsExtreme s occ o
    → ((j : ℕ) → member j occ ≡ ltb 0 (q j))
    → member i occ ≡ true
    → 0 < size_at_best o q
unfolding size_at_best
size_at_best_pos s occ none q i h m e = ground (arith, h i)
size_at_best_pos s occ (some b) q i h m e = ground (arith, h.0, m b)

best_size_lem : (b : Book) (s : Side) → best_size b s ≡ size_at_best (b.best s) (b.qty s)
unfolding best_size size_at_best
best_size_lem b s = ground arith
