-- ===== src/L3Book/Handlers.antt =====
-- src/quantfinlib/marketdata/l3_book_builder.py: the feed handlers, queue tracking and queries.
use quant_finance_py.Prelude.{
  ℕ, zero, suc, ◌+◌, ◌-◌, Bool, true, false, ◌||◌, Option, none, some, List, [], ◌∷◌, ◌++◌, ◌==◌,
  if◌then◌else◌, length, min,
}
use quant_finance_py.Prelude.Int.{ℤ, pos, pos_part, ltb_ℤ, leb_ℤ, ◌+ℤ◌, ◌-ℤ◌}
use quant_finance_py.Execution.{Side, buy, sell}
use quant_finance_py.L3Book.{
  Book, max_tracked, int_min, int_max, ladder_index, insert, remove_node, shrink,
}
use quant_finance_py.L3Book.Orders.{
  Node, Tracked, find, credit_ahead, untrack_row, find_row, walk, extreme, improves, update,
}

-- The credit of `_credit_ahead` to the tracked rows.
abbrev pub credit : Book → Node → ℕ → Bool → Book
credit b n cut by_seq = record b { tracked = credit_ahead n cut by_seq b.tracked }

-- `_reduce`, for a node that rests.
unfoldable pub reduce_node : Book → Node → ℕ → Bool → Book
unfolding shrink remove_node credit_ahead
reduce_node b n shares by_seq =
    let cut = min shares n.qty in
    let b' = shrink (credit b n cut by_seq) n cut in
    if n.qty - cut == 0 then remove_node b' n else b'

-- `_reduce`.
unfoldable pub reduce : Book → ℕ → ℕ → Bool → Book × Bool
unfolding find reduce_node
reduce b ref shares by_seq = elim (find ref b.orders) [
  | none ↦ (b, false)
  | some n ↦ (reduce_node b n shares by_seq, true)
]

-- `_remove_whole`.
unfoldable pub remove_whole : Book → Node → Book
unfolding remove_node credit_ahead
remove_whole b n =
    let b' = credit b n n.qty true in
    remove_node (record b' { qty = update n.side n.tick (b.qty n.side n.tick - n.qty) b.qty }) n

abbrev pub unknown : Book → Book
unknown b = record b {
  counters = record (b.counters) { unknown_ref_count = b.unknown_ref_count + 1 };
}

unfoldable pub on_add : Book → ℕ → Side → ℕ → ℤ → Book × Bool
unfolding insert
on_add b ref side shares price_tick =
    let (b', done) = insert b ref side shares price_tick in
    if done
    then (record b' { counters = record (b'.counters) { add_count = b'.add_count + 1 } }, true)
    else (b', false)

unfoldable pub on_execute : Book → ℕ → ℕ → Book
unfolding reduce
on_execute b ref shares =
    let (b', done) = reduce b ref shares false in
    if done
    then record b' { counters = record (b'.counters) { execute_count = b'.execute_count + 1 } }
    else unknown b'

unfoldable pub on_cancel : Book → ℕ → ℕ → Book
unfolding reduce
on_cancel b ref shares =
    let (b', done) = reduce b ref shares true in
    if done
    then record b' { counters = record (b'.counters) { cancel_count = b'.cancel_count + 1 } }
    else unknown b'

unfoldable pub on_delete : Book → ℕ → Book
unfolding find remove_whole
on_delete b ref = elim (find ref b.orders) [
  | none ↦ unknown b
  | some n ↦
      remove_whole
        (record b { counters = record (b.counters) { delete_count = b.delete_count + 1 } }) n
]

unfoldable pub on_replace : Book → ℕ → ℕ → ℕ → ℤ → Book
unfolding find remove_whole insert
on_replace b orig_ref new_ref shares price_tick = elim (find orig_ref b.orders) [
  | none ↦ unknown b
  | some n ↦
      let counted = record b {
        counters = record (b.counters) { replace_count = b.replace_count + 1 };
      } in
      (insert (remove_whole counted n) new_ref n.side shares price_tick).0
]

unfoldable pub on_trade : Book → ℤ → Book
on_trade b price_tick = record b {
  counters = record (b.counters) { trade_count = b.trade_count + 1 };
  last_trade_tick = price_tick;
}

-- The row that `track` appends.
abbrev pub new_row : Book → Node → Tracked
new_row b n = record {
  ref = n.ref;
  seq = n.seq;
  ahead = walk n.ref (b.levels n.side n.tick) b.orders;
  tick = n.tick;
  side = n.side;
}

unfoldable pub track : Book → ℕ → Book × Bool
unfolding find find_row walk
track b ref = elim (find_row ref b.tracked) [
  | some t ↦ (b, true)
  | none ↦ elim (find ref b.orders) [
    | none ↦ (b, false)
    | some n ↦
        if length b.tracked == max_tracked
        then (b, false)
        else (record b { tracked = b.tracked ++ new_row b n ∷ [] }, true)
  ]
]

unfoldable pub untrack : Book → ℕ → Book
unfolding untrack_row
untrack b ref = record b { tracked = untrack_row ref b.tracked }

-- `shares_ahead`: `none` is the result -1.
unfoldable pub shares_ahead : Book → ℕ → Option ℕ
unfolding find_row
shares_ahead b ref = elim (find_row ref b.tracked) [ none ↦ none | some t ↦ some t.ahead ]

-- The absolute price of the best level, or the sentinel.
unfoldable pub best_bid_tick : Book → ℤ
unfolding ◌+ℤ◌
best_bid_tick b = elim (b.best buy) [ none ↦ int_min | some i ↦ pos i +ℤ b.min_tick ]

unfoldable pub best_ask_tick : Book → ℤ
unfolding ◌+ℤ◌
best_ask_tick b = elim (b.best sell) [ none ↦ int_max | some i ↦ pos i +ℤ b.min_tick ]

unfoldable pub best_size : Book → Side → ℕ
best_size b s = elim (b.best s) [ none ↦ 0 | some i ↦ b.qty s i ]

unfoldable pub qty_at_tick : Book → Side → ℤ → ℕ
unfolding ◌-ℤ◌
qty_at_tick b s price_tick =
    let idx = ladder_index b price_tick in
    if ltb_ℤ idx (pos 0) || leb_ℤ (pos b.ladder) idx then 0 else b.qty s (pos_part idx)

unfoldable pub open_quantity : Book → ℕ → ℕ
unfolding find
open_quantity b ref = elim (find ref b.orders) [ none ↦ 0 | some n ↦ n.qty ]

-- `_next_at_or_below(occ, idx - 1)` for bids, `_next_at_or_above(occ, idx + 1)` for offers.
unfoldable pub beyond : Side → ℕ → List ℕ → List ℕ
beyond s idx [] = []
beyond s idx (i ∷ is) =
    let rest = beyond s idx is in if improves s idx (some i) then i ∷ rest else rest

unfoldable pub next_level : Side → List ℕ → ℕ → Option ℕ
unfolding extreme beyond
next_level s occ idx = extreme s (beyond s idx occ)

-- The loop of `snapshot`, with `max_levels` still to fill.
unfoldable pub depth_from : Book → Side → ℕ → Option ℕ → List (ℤ × ℕ)
unfolding next_level ◌+ℤ◌
depth_from b s zero idx = []
depth_from b s (suc k) none = []
depth_from b s (suc k) (some i) =
    (pos i +ℤ b.min_tick, b.qty s i) ∷ depth_from b s k (next_level s (b.occupied s) i)

unfoldable pub snapshot : Book → Side → ℕ → List (ℤ × ℕ)
unfolding depth_from
snapshot b s max_levels = depth_from b s max_levels (b.best s)
