-- ===== src/L3Book/Priority.antt =====
-- Under price-time priority `shares_ahead` stays exact, whatever the feed brings.
use quant_finance_py.Prelude.{
  ℕ, ◌+◌, ◌≡◌, ◌<◌, refl, ap, subst, sym, ◌∙◌, Bool, true, false, none, some, List, [], ◌∷◌, arith,
  ◌==◌, if◌then◌else◌, All, Bool-cases, Option-cases, inl, inr, ==_iff, length,
}
use quant_finance_py.Prelude.Int.{ℤ}
use quant_finance_py.Execution.{Side}
use quant_finance_py.L3Book.{Book, Counters, max_tracked, insert, refused, ladder_index}
use quant_finance_py.L3Book.Orders.{Node, Tracked, find, find_row, walk}
use quant_finance_py.L3Book.Handlers.{
  reduce, remove_whole, new_row, on_add, on_execute, on_cancel, on_delete, on_replace, on_trade,
  track, untrack, shares_ahead,
}
use quant_finance_py.L3Book.Feed.{
  Event, apply, adds, executes, cancels, deletes, replaces, trades, tracks, untracks,
}
use quant_finance_py.L3Book.Sums.{refs_at, at_lift, ref-find}
use quant_finance_py.L3Book.Invariant.{IsConsistent, IsLive}
use quant_finance_py.L3Book.Safety.{rests_self, aside-IsConsistent, remove_whole-IsConsistent}
use quant_finance_py.L3Book.Queries.{at_own}
use quant_finance_py.L3Book.Ahead.{ahead_of, walk-ahead_of, Distinct-find}
use quant_finance_py.L3Book.Credits.{
  IsTracked, cancelled-Tracks, executed-Tracks, dropped-Tracks, placed-Tracks,
}
use quant_finance_py.L3Book.Rows.{
  DistinctRows-untrack_row, rows-untrack_row, rows_snoc, DistinctRows-snoc,
}
use quant_finance_py.L3Book.Tracking.{IsExact}

-- Executions fill the oldest order of a level: the discipline of the venue.
unfoldable pub at_head : Book → Event → Bool
at_head b (executes ref shares) = elim (find ref b.orders) [
  | none ↦ true
  | some n ↦ elim (b.levels n.side n.tick) [ [] ↦ false | x ∷ xs ↦ x == ref ]
]
at_head b _ = true

newest : (l k : ℕ) (ns : List Node) → All (IsLive l k) ns → All (λ (m : Node). m.seq < k) ns
newest l k [] h = tt
newest l k (m ∷ ns) h = (h.0.3, newest l k ns h.1)

counted-IsTracked :
    (b : Book) (done : Bool) (j k : Counters)
    → IsTracked b
    → IsTracked (if done then record b { counters = j } else record b { counters = k })
counted-IsTracked b true j k t = t
counted-IsTracked b false j k t = t

insert-IsTracked :
    (b : Book) (ref : ℕ) (side : Side) (shares : ℕ) (price_tick : ℤ)
    → All (IsLive b.ladder b.next_seq) b.orders
    → IsTracked b
    → IsTracked (insert b ref side shares price_tick).0
unfolding insert
insert-IsTracked b ref side shares price_tick live t =
    elim (Bool-cases (refused b ref shares (ladder_index b price_tick))) [
      | inl e ↦ rw (e, insert) t
      | inr e ↦ elim (Option-cases (find ref b.orders)) [
        | inr (n, known) ↦ rw (e, known, insert) t
        | inl fresh ↦
            rw (e, fresh, insert)
              (placed-Tracks b.orders b.tracked _ t (newest b.ladder b.next_seq b.orders live))
      ]
    ]

cancel-IsTracked : (b : Book) (r k : ℕ) → IsTracked b → IsTracked (reduce b r k true).0
unfolding reduce
cancel-IsTracked b r k t = elim (Option-cases (find r b.orders)) [
  | inl e ↦ rw (e, reduce) t
  | inr (n, e) ↦ rw (e, reduce) (cancelled-Tracks b n k t (rests_self r b n e))
]

-- The head of a level is the reference that the discipline lets execute.
head_of :
    (r : ℕ) (xs : List ℕ)
    → elim xs [ [] ↦ false | x ∷ rest ↦ x == r ] ≡ true
    → (rest : List ℕ) × (xs ≡ r ∷ rest)
head_of r [] h = cc
head_of r (x ∷ xs) h = (xs, ground arith)

at_head_level :
    (b : Book) (r k : ℕ) (n : Node)
    → IsConsistent b
    → at_head b (executes r k) ≡ true
    → find r b.orders ≡ some n
    → (rest : List ℕ) × (refs_at n.side n.tick b.orders ≡ n.ref ∷ rest)
unfolding at_head
at_head_level b r k n c h e =
    let first : elim (b.levels n.side n.tick) [ [] ↦ false | x ∷ xs ↦ x == r ] ≡ true =
      ground arith in
    let (rest, level) = head_of r (b.levels n.side n.tick) first in
    (
      rest,
      sym (c.levels n.side n.tick) ∙ level ∙ ap (λ x. x ∷ rest) (sym (ref-find r b.orders n e)),
    )

execute-IsTracked :
    (b : Book) (r k : ℕ)
    → IsConsistent b
    → IsTracked b
    → at_head b (executes r k) ≡ true
    → IsTracked (reduce b r k false).0
unfolding reduce
execute-IsTracked b r k c t h = elim (Option-cases (find r b.orders)) [
  | inl e ↦ rw (e, reduce) t
  | inr (n, e) ↦
      let (rest, level) = at_head_level b r k n c h e in
      rw (e, reduce) (executed-Tracks b n k rest t (rests_self r b n e) level)
]

abbrev deleting : Book → Book
deleting b = record b { counters = record (b.counters) { delete_count = b.delete_count + 1 } }

abbrev replacing : Book → Book
replacing b = record b { counters = record (b.counters) { replace_count = b.replace_count + 1 } }

delete-IsTracked : (b : Book) (r : ℕ) → IsTracked b → IsTracked (on_delete b r)
unfolding on_delete
delete-IsTracked b r t = elim (Option-cases (find r b.orders)) [
  | inl e ↦ rw (e, on_delete) t
  | inr (n, e) ↦ rw (e, on_delete) (dropped-Tracks (deleting b) n t (rests_self r b n e))
]

replace-IsTracked :
    (b : Book) (r r' k : ℕ) (p : ℤ)
    → IsConsistent b
    → IsTracked b
    → IsTracked (on_replace b r r' k p)
unfolding on_replace
replace-IsTracked b r r' k p c t = elim (Option-cases (find r b.orders)) [
  | inl e ↦ rw (e, on_replace) t
  | inr (n, e) ↦
      let rests = rests_self r b n e in
      let gone : Book = remove_whole (replacing b) n in
      let good =
        remove_whole-IsConsistent
          (aside-IsConsistent b.tracked (replacing b).counters b.last_trade_tick c) n rests in
      rw (e, on_replace)
        (insert-IsTracked gone r' n.side k p good.live (dropped-Tracks (replacing b) n t rests))
]

add-IsTracked :
    (b : Book) (r : ℕ) (s : Side) (k : ℕ) (p : ℤ)
    → IsConsistent b
    → IsTracked b
    → IsTracked (on_add b r s k p).0
unfolding on_add
add-IsTracked b r s k p c t =
    let placed = insert-IsTracked b r s k p c.live t in
    elim (Bool-cases (insert b r s k p).1) [ inl e ↦ rw e placed | inr e ↦ rw e placed ]

-- The row that `track` makes is exact.
new_row-IsExact :
    (b : Book) (r : ℕ) (n : Node)
    → IsConsistent b
    → find n.ref b.orders ≡ some n
    → IsExact b.orders (new_row b n)
new_row-IsExact b r n c e = (
  n,
  e,
  refl,
  at_own n,
  ap (λ l. walk n.ref l b.orders) (c.levels n.side n.tick)
      ∙ walk-ahead_of n.ref n.side n.tick b.orders b.orders n (Distinct-find b.orders c.distinct) e
          (at_own n),
)

track-IsTracked : (b : Book) (r : ℕ) → IsConsistent b → IsTracked b → IsTracked (track b r).0
unfolding track
track-IsTracked b r c t = elim (Option-cases (find_row r b.tracked)) [
  | inr (u, known) ↦ rw (known, track) t
  | inl new_one ↦ elim (Option-cases (find r b.orders)) [
    | inl e ↦ rw (new_one, e, track) t
    | inr (n, e) ↦ elim (Bool-cases (length b.tracked == max_tracked)) [
      | inl full ↦ rw (new_one, e, full, track) t
      | inr room ↦
          rw (new_one, e, room, track)
            (record {
              rows =
                  rows_snoc b.orders b.tracked (new_row b n) t.rows
                    (new_row-IsExact b r n c (rests_self r b n e));
              distinct =
                  DistinctRows-snoc b.tracked (new_row b n) t.distinct
                    (ap (λ x. find_row x b.tracked) (ref-find r b.orders n e) ∙ new_one);
              ordered = t.ordered;
            })
    ]
  ]
]

-- If the executions of the feed fill the oldest order of their level, every event leaves each
-- tracked row with exactly the shares of its level that arrived before it.
pub apply-IsTracked :
    (b : Book) (e : Event)
    → IsConsistent b
    → IsTracked b
    → at_head b e ≡ true
    → IsTracked (apply b e)
unfolding apply on_trade untrack
apply-IsTracked b (adds r s k p) c t h = add-IsTracked b r s k p c t
apply-IsTracked b (executes r k) c t h =
    unfold on_execute in
    counted-IsTracked (reduce b r k false).0 (reduce b r k false).1 _ _
      (execute-IsTracked b r k c t h)
apply-IsTracked b (cancels r k) c t h =
    unfold on_cancel in
    counted-IsTracked (reduce b r k true).0 (reduce b r k true).1 _ _ (cancel-IsTracked b r k t)
apply-IsTracked b (deletes r) c t h = delete-IsTracked b r t
apply-IsTracked b (replaces r r' k p) c t h = replace-IsTracked b r r' k p c t
apply-IsTracked b (trades p) c t h = t
apply-IsTracked b (tracks r) c t h = track-IsTracked b r c t
apply-IsTracked b (untracks r) c t h = record {
  rows = rows-untrack_row b.orders r b.tracked t.rows;
  distinct = DistinctRows-untrack_row r b.tracked t.distinct;
  ordered = t.ordered;
}

find_row-All :
    (ns : List Node) (r : ℕ) (ts : List Tracked) (t : Tracked)
    → All (IsExact ns) ts
    → find_row r ts ≡ some t
    → IsExact ns t × (t.ref ≡ r)
unfolding find_row
find_row-All ns r [] t h e = cc
find_row-All ns r (u ∷ ts) t h e = elim (Bool-cases (u.ref == r)) [
  | inl p ↦
      let same : some u ≡ some t = rw p at e in
      let row : u ≡ t = ground arith in
      (subst (IsExact ns) row h.0, ap (λ (x : Tracked). x.ref) (sym row) ∙ (==_iff _ _).0 p)
  | inr p ↦ find_row-All ns r ts t h.1 (rw p at e)
]

-- What `shares_ahead` answers of a tracked order are the shares of the earlier orders at the
-- order's own level.
pub shares_ahead-ahead_of :
    (b : Book) (r k : ℕ)
    → IsTracked b
    → shares_ahead b r ≡ some k
    → (x : Node) × (find r b.orders ≡ some x) × (k ≡ ahead_of r x.side x.tick b.orders)
unfolding shares_ahead
shares_ahead-ahead_of b r k t h = elim (Option-cases (find_row r b.tracked)) [
  | inl e ↦ let none_is : none ≡ some k = rw (e, shares_ahead) at h in cc
  | inr (u, e) ↦
      let k_is : some u.ahead ≡ some k = rw (e, shares_ahead) at h in
      let ((x, found, seq, level, ahead), named) = find_row-All b.orders r b.tracked u t.rows e in
      let moved =
        at_lift
          (λ s i.
            u.ahead ≡ ahead_of u.ref s i b.orders → u.ahead ≡ ahead_of u.ref x.side x.tick b.orders)
          u.side u.tick x level (λ q. q) in
      (
        x,
        ap (λ q. find q b.orders) (sym named) ∙ found,
        subst (λ q. k ≡ ahead_of q x.side x.tick b.orders) named
            (ground (arith, k_is, moved ahead)),
      )
]
