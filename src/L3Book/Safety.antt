-- ===== src/L3Book/Safety.antt =====
-- Every feed event keeps the book well-formed.
use quant_finance_py.Prelude.{
  ℕ, ◌+◌, ◌-◌, ◌≡◌, ◌<◌, refl, ap, ◌∙◌, Bool, true, false, some, List, [], ◌∷◌, arith, ◌==◌,
  if◌then◌else◌, length, Bool-cases, Option-cases, inl, inr, min, if_none-some,
}
use quant_finance_py.Prelude.Int.{ℤ, pos_part}
use quant_finance_py.Execution.{Side}
use quant_finance_py.L3Book.{
  max_tracked, Book, Counters, new, clear_level, refused, ladder_index, insert, remove_node, shrink,
}
use quant_finance_py.L3Book.Orders.{Node, Tracked, find, untrack_row, member, find_row}
use quant_finance_py.L3Book.Handlers.{
  reduce_node, reduce, remove_whole, on_add, on_execute, on_cancel, on_delete, on_replace, on_trade,
  track, untrack,
}
use quant_finance_py.L3Book.Feed.{
  Event, apply, run, adds, executes, cancels, deletes, replaces, trades, tracks, untracks,
}
use quant_finance_py.L3Book.Sums.{shares_at, refs_at, ref-find, without-set_qty}
use quant_finance_py.L3Book.Invariant.{
  IsConsistent, IsLive, place-IsConsistent, shrink-IsConsistent,
}
use quant_finance_py.L3Book.Removal.{unlinked, dropped-IsConsistent}

-- Rows, counters and the last trade do not bear on the invariant.
pub aside-IsConsistent :
    {b : Book} (rows : List Tracked) (k : Counters) (t : ℤ)
    → IsConsistent b
    → IsConsistent (record b { tracked = rows; counters = k; last_trade_tick = t })
aside-IsConsistent rows k t c = record {
  distinct = c.distinct;
  live = c.live;
  levels = c.levels;
  qty = c.qty;
  occupied = c.occupied;
  best = c.best;
  resting = c.resting;
  capacity = c.capacity;
}

-- A new book is empty and well-formed.
pub new-IsConsistent :
    (locate : ℕ) (lo hi : ℤ) (cap : ℕ) (b : Book) → new locate lo hi cap ≡ some b → IsConsistent b
unfolding new
new-IsConsistent locate lo hi cap b h =
    let made = if_none-some _ _ b h in
    rw (← made.1) (record {
      distinct = tt;
      live = tt;
      levels = λ s i. unfold refs_at in refl;
      qty = λ s i. unfold shares_at in refl;
      occupied = λ s i. unfold member in refl;
      best = λ s i. unfold member in refl;
      resting = refl;
      capacity = omega arith;
    })

accepted_alive :
    (b : Book) (ref : ℕ) (side : Side) (shares : ℕ) (idx : ℤ)
    → refused b ref shares idx ≡ false
    → IsLive b.ladder
        (b.next_seq + 1)
        (record { ref = ref; side = side; tick = pos_part idx; qty = shares; seq = b.next_seq })
      × (length b.orders < b.max_orders)
accepted_alive b ref side shares idx h =
    ((ground arith, ground arith, ground arith, omega arith), ground arith)

pub insert-IsConsistent :
    (b : Book) (ref : ℕ) (side : Side) (shares : ℕ) (price_tick : ℤ)
    → IsConsistent b
    → IsConsistent (insert b ref side shares price_tick).0
unfolding insert
insert-IsConsistent b ref side shares price_tick c =
    elim (Bool-cases (refused b ref shares (ladder_index b price_tick))) [
      | inl e ↦ rw e (aside-IsConsistent b.tracked _ b.last_trade_tick c)
      | inr e ↦ elim (Option-cases (find ref b.orders)) [
        | inr (n, known) ↦ rw (e, known) (aside-IsConsistent b.tracked _ b.last_trade_tick c)
        | inl fresh ↦
            let ok = accepted_alive b ref side shares (ladder_index b price_tick) e in
            rw (e, fresh) (place-IsConsistent c _ fresh ok.0 ok.1)
      ]
    ]

module _ {b : Book} (c : IsConsistent b) (n : Node) (rests : find n.ref b.orders ≡ some n) where
  remove-shrink :
      (rows : List Tracked) (cut : ℕ)
      → cut ≡ n.qty
      → remove_node (shrink (record b { tracked = rows }) n cut) n
        ≡ clear_level (unlinked b n (untrack_row n.ref rows)) n.side n.tick
  unfolding remove_node shrink
  remove-shrink rows cut e = rw (e, without-set_qty n.ref (n.qty - n.qty) b.orders)

  reduce_node-IsConsistent :
      (shares : ℕ) (by_seq : Bool) → IsConsistent (reduce_node b n shares by_seq)
  unfolding reduce_node
  reduce_node-IsConsistent shares by_seq = elim (Bool-cases (n.qty - min shares n.qty == 0)) [
    | inl e ↦
        rw (e, remove-shrink _ (min shares n.qty) (ground arith)) (dropped-IsConsistent c n _ rests)
    | inr e ↦ rw e (
        shrink-IsConsistent (aside-IsConsistent _ b.counters b.last_trade_tick c) n
          (min shares n.qty) rests (ground arith))
  ]

  pub remove_whole-IsConsistent : IsConsistent (remove_whole b n)
  unfolding remove_whole
  remove_whole-IsConsistent = dropped-IsConsistent c n _ rests

-- The node that is found under a reference has it.
pub rests_self :
    (r : ℕ) (b : Book) (n : Node) → find r b.orders ≡ some n → find n.ref b.orders ≡ some n
rests_self r b n h = ap (λ x. find x b.orders) (ref-find r b.orders n h) ∙ h

reduce-IsConsistent :
    (b : Book) (r shares : ℕ) (by_seq : Bool)
    → IsConsistent b
    → IsConsistent (reduce b r shares by_seq).0
unfolding reduce
reduce-IsConsistent b r shares by_seq c = elim (Option-cases (find r b.orders)) [
  | inl e ↦ rw (e, reduce) c
  | inr (n, e) ↦ rw (e, reduce) (reduce_node-IsConsistent c n (rests_self r b n e) shares by_seq)
]

-- A result whose counters are then brought up to date, in one of two ways.
counted-IsConsistent :
    (b : Book) (done : Bool) (j k : Counters)
    → IsConsistent b
    → IsConsistent (if done then record b { counters = j } else record b { counters = k })
counted-IsConsistent b true j k c = aside-IsConsistent b.tracked j b.last_trade_tick c
counted-IsConsistent b false j k c = aside-IsConsistent b.tracked k b.last_trade_tick c

on_execute-IsConsistent :
    (b : Book) (r shares : ℕ) → IsConsistent b → IsConsistent (on_execute b r shares)
unfolding on_execute
on_execute-IsConsistent b r shares c =
    counted-IsConsistent (reduce b r shares false).0 (reduce b r shares false).1 _ _
      (reduce-IsConsistent b r shares false c)

on_cancel-IsConsistent :
    (b : Book) (r shares : ℕ) → IsConsistent b → IsConsistent (on_cancel b r shares)
unfolding on_cancel
on_cancel-IsConsistent b r shares c =
    counted-IsConsistent (reduce b r shares true).0 (reduce b r shares true).1 _ _
      (reduce-IsConsistent b r shares true c)

on_delete-IsConsistent : (b : Book) (r : ℕ) → IsConsistent b → IsConsistent (on_delete b r)
unfolding on_delete
on_delete-IsConsistent b r c = elim (Option-cases (find r b.orders)) [
  | inl e ↦ rw (e, on_delete) (aside-IsConsistent b.tracked _ b.last_trade_tick c)
  | inr (n, e) ↦
      rw (e, on_delete)
        (remove_whole-IsConsistent (aside-IsConsistent b.tracked _ b.last_trade_tick c) n
          (rests_self r b n e))
]

on_replace-IsConsistent :
    (b : Book) (r r' shares : ℕ) (p : ℤ)
    → IsConsistent b
    → IsConsistent (on_replace b r r' shares p)
unfolding on_replace
on_replace-IsConsistent b r r' shares p c = elim (Option-cases (find r b.orders)) [
  | inl e ↦ rw (e, on_replace) (aside-IsConsistent b.tracked _ b.last_trade_tick c)
  | inr (n, e) ↦
      rw (e, on_replace)
        (insert-IsConsistent _ r' n.side shares p (
          remove_whole-IsConsistent (aside-IsConsistent b.tracked _ b.last_trade_tick c) n
            (rests_self r b n e)))
]

on_add-IsConsistent :
    (b : Book) (r : ℕ) (s : Side) (shares : ℕ) (p : ℤ)
    → IsConsistent b
    → IsConsistent (on_add b r s shares p).0
unfolding on_add
on_add-IsConsistent b r s shares p c = elim (Bool-cases (insert b r s shares p).1) [
  | inl e ↦ rw e (aside-IsConsistent _ _ _ (insert-IsConsistent b r s shares p c))
  | inr e ↦ rw e (insert-IsConsistent b r s shares p c)
]

track-IsConsistent : (b : Book) (r : ℕ) → IsConsistent b → IsConsistent (track b r).0
unfolding track
track-IsConsistent b r c = elim (Option-cases (find_row r b.tracked)) [
  | inr (t, known) ↦ rw (known, track) c
  | inl new_one ↦ elim (Option-cases (find r b.orders)) [
    | inl e ↦ rw (new_one, e, track) c
    | inr (n, e) ↦ elim (Bool-cases (length b.tracked == max_tracked)) [
      | inl full ↦ rw (new_one, e, full, track) c
      | inr room ↦
          rw (new_one, e, room, track) (aside-IsConsistent _ b.counters b.last_trade_tick c)
    ]
  ]
]

-- Every feed event, known or unknown, accepted or dropped, keeps the book well-formed.
pub apply-IsConsistent : (b : Book) (e : Event) → IsConsistent b → IsConsistent (apply b e)
unfolding apply on_trade untrack
apply-IsConsistent b (adds r s shares p) c = on_add-IsConsistent b r s shares p c
apply-IsConsistent b (executes r shares) c = on_execute-IsConsistent b r shares c
apply-IsConsistent b (cancels r shares) c = on_cancel-IsConsistent b r shares c
apply-IsConsistent b (deletes r) c = on_delete-IsConsistent b r c
apply-IsConsistent b (replaces r r' shares p) c = on_replace-IsConsistent b r r' shares p c
apply-IsConsistent b (trades p) c = aside-IsConsistent b.tracked _ p c
apply-IsConsistent b (tracks r) c = track-IsConsistent b r c
apply-IsConsistent b (untracks r) c = aside-IsConsistent _ b.counters b.last_trade_tick c

pub run-IsConsistent : (b : Book) (es : List Event) → IsConsistent b → IsConsistent (run b es)
unfolding run
run-IsConsistent b [] c = c
run-IsConsistent b (e ∷ es) c = run-IsConsistent (apply b e) es (apply-IsConsistent b e c)
