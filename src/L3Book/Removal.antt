-- ===== src/L3Book/Removal.antt =====
-- Unlinking a node and clearing its level keep the book well-formed.
use quant_finance_py.Prelude.{
  ℕ, ◌-◌, ◌≡◌, ◌<◌, refl, ap, sym, ◌∙◌, Bool, true, false, Option, some, List, [], ◌∷◌, arith, ◌==◌,
  ltb, ==_iff, if◌then◌else◌, All, Bool-cases, inl, inr,
}
use quant_finance_py.Execution.{Side, buy, sell}
use quant_finance_py.L3Book.{Book, clear_level}
use quant_finance_py.L3Book.Orders.{
  Node, Tracked, at, find, without, remove, update, update_side, member, discard, extreme, is_best,
}
use quant_finance_py.L3Book.Sums.{
  shares_at, refs_at, at_lift, update_lem, shares_at-without, refs_at-without, Distinct-without,
  length-without,
}
use quant_finance_py.L3Book.Best.{IsExtreme, IsExtreme-discard, member-discard}
use quant_finance_py.L3Book.Invariant.{
  IsConsistent, IsLive, IsLive-without, update_side_all, member-update_side,
}

-- The book without the node, before its level is looked at.
abbrev pub unlinked : Book → Node → List Tracked → Book
unlinked b n rows = record b {
  levels = update n.side n.tick (remove n.ref (b.levels n.side n.tick)) b.levels;
  tracked = rows;
  orders = without n.ref b.orders;
  resting_orders = b.resting_orders - 1;
  qty = update n.side n.tick (b.qty n.side n.tick - n.qty) b.qty;
}

-- A level without shares has no references, since every order has a positive quantity.
refs_at-nil :
    (s : Side) (i l k : ℕ) (ns : List Node)
    → All (IsLive l k) ns
    → shares_at s i ns ≡ 0
    → refs_at s i ns ≡ []
unfolding shares_at refs_at
refs_at-nil s i l k [] h e = refl
refs_at-nil s i l k (m ∷ ns) h e =
    let some_shares : 0 < m.qty = h.0.1 in ground (arith, refs_at-nil s i l k ns h.1)

best_if :
    (c : Bool) (s s' : Side) (x : Option ℕ) (t : Side → Option ℕ)
    → (if c then update_side s x t else t) s' ≡ update_side s (if c then x else t s) t s'
best_if true s s' x t = refl
best_if false buy buy x t = refl
best_if false sell sell x t = refl
best_if false buy sell x t = refl
best_if false sell buy x t = refl

module _ {b : Book} (c : IsConsistent b) (n : Node) (rows : List Tracked)
    (rests : find n.ref b.orders ≡ some n) where
  abbrev gone : Book
  gone = unlinked b n rows

  abbrev dropped : Book
  dropped = clear_level gone n.side n.tick

  gone-levels : (s : Side) (i : ℕ) → gone.levels s i ≡ refs_at s i gone.orders
  gone-levels s i =
      rw (update_lem n (remove n.ref) b.levels s i, refs_at-without s i n.ref b.orders n rests)
        (ap (λ l. if at s i n then remove n.ref l else l) (c.levels s i))

  gone-qty : (s : Side) (i : ℕ) → gone.qty s i ≡ shares_at s i gone.orders
  gone-qty s i =
      rw (update_lem n (λ q. q - n.qty) b.qty s i)
        (ground (arith, c.qty s i, shares_at-without s i n.ref b.orders n rests))

  gone-IsLive : All (IsLive b.ladder b.next_seq) gone.orders
  gone-IsLive = IsLive-without b.ladder b.next_seq n.ref b.orders c.live

  -- The level of the node is empty.
  module _ (empty : (gone.qty n.side n.tick == 0) ≡ true) where
    empty_at : (s : Side) (i : ℕ) → at s i n ≡ true → shares_at s i gone.orders ≡ 0
    empty_at s i e =
        at_lift (λ s' i'. shares_at s' i' gone.orders ≡ 0) s i n e
          (sym (gone-qty n.side n.tick) ∙ (==_iff _ 0).0 empty)

    cleared-qty :
        (s : Side) (i : ℕ) → update n.side n.tick 0 gone.qty s i ≡ shares_at s i gone.orders
    cleared-qty s i = elim (Bool-cases (at s i n)) [
      | inl e ↦ rw (update_lem n (λ q. 0) gone.qty s i, e) (sym (empty_at s i e))
      | inr e ↦ rw (update_lem n (λ q. 0) gone.qty s i, e) (rw e at (gone-qty s i))
    ]

    cleared-levels :
        (s : Side) (i : ℕ) → update n.side n.tick [] gone.levels s i ≡ refs_at s i gone.orders
    cleared-levels s i = elim (Bool-cases (at s i n)) [
      | inl e ↦
          rw (update_lem n (λ l. []) gone.levels s i, e)
            (sym (refs_at-nil s i b.ladder b.next_seq gone.orders gone-IsLive (empty_at s i e)))
      | inr e ↦ rw (update_lem n (λ l. []) gone.levels s i, e) (rw e at (gone-levels s i))
    ]

    cleared-occupied :
        (s : Side) (i : ℕ)
        → member i (update_side n.side (discard n.tick (b.occupied n.side)) b.occupied s)
          ≡ ltb 0 (update n.side n.tick 0 gone.qty s i)
    cleared-occupied s i =
        rw (update_lem n (λ q. 0) gone.qty s i, update_lem n (λ q. q - n.qty) b.qty s i)
          (ground (
            arith,
            member-update_side n.side s (discard n.tick) b.occupied i,
            member-discard n.tick i (b.occupied s),
            c.occupied s i,
          ))

    cleared-best :
        (s : Side)
        → IsExtreme s (update_side n.side (discard n.tick (b.occupied n.side)) b.occupied s) (
            (if is_best n.tick (b.best n.side)
                then update_side n.side (extreme n.side (discard n.tick (b.occupied n.side))) b.best
                else b.best)
              s)
    cleared-best s = rw (best_if (is_best n.tick (b.best n.side)) n.side s _ b.best) (
        update_side_all IsExtreme n.side s _ _ b.occupied b.best
          (IsExtreme-discard n.side n.tick (b.occupied n.side) (b.best n.side) (c.best n.side))
          (c.best s))

  -- Something is left at the level, as there was before.
  kept-occupied :
      (gone.qty n.side n.tick == 0) ≡ false
      → (s : Side) (i : ℕ) → member i (b.occupied s) ≡ ltb 0 (gone.qty s i)
  kept-occupied left s i = elim (Bool-cases (at s i n)) [
    | inl e ↦
        let level = at_lift (λ s' i'. (gone.qty s' i' == 0) ≡ false) s i n e left in
        ground (arith, c.occupied s i, update_lem n (λ q. q - n.qty) b.qty s i, level)
    | inr e ↦ rw (update_lem n (λ q. q - n.qty) b.qty s i, e) (c.occupied s i)
  ]

  pub dropped-IsConsistent : IsConsistent dropped
  unfolding clear_level
  dropped-IsConsistent = elim (Bool-cases (gone.qty n.side n.tick == 0)) [
    | inl e ↦ rw e (record {
      distinct = Distinct-without n.ref b.orders c.distinct;
      live = gone-IsLive;
      levels = cleared-levels e;
      qty = cleared-qty e;
      occupied = cleared-occupied e;
      best = cleared-best e;
      resting = omega (arith, c.resting, length-without n.ref b.orders n rests);
      capacity = omega (arith, c.capacity, length-without n.ref b.orders n rests);
    })
    | inr e ↦ rw e (record {
      distinct = Distinct-without n.ref b.orders c.distinct;
      live = gone-IsLive;
      levels = gone-levels;
      qty = gone-qty;
      occupied = kept-occupied e;
      best = c.best;
      resting = omega (arith, c.resting, length-without n.ref b.orders n rests);
      capacity = omega (arith, c.capacity, length-without n.ref b.orders n rests);
    })
  ]
