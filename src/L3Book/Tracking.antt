-- ===== src/L3Book/Tracking.antt =====
-- The tracked rows against the queue that they stand for.
use quant_finance_py.Prelude.{
  ℕ, ◌+◌, ◌-◌, ◌≡◌, ◌≤◌, refl, ap, subst, sym, ◌∙◌, Bool, true, false, not, ◌&&◌, none, some, List,
  [], ◌∷◌, arith, ◌==◌, ltb, if◌then◌else◌, All, Bool-cases, inl, inr, ==_iff, ◌⊎◌, ap₂,
}
use quant_finance_py.Execution.{Side, buy, sell}
use quant_finance_py.L3Book.Orders.{
  Node, Tracked, same_side, at, find, without, set_qty, credits, credit_ahead, untrack_row,
  find_row,
}
use quant_finance_py.L3Book.Sums.{side_eq, refs_at, ref-find, find-set_qty, find-without_ne}
use quant_finance_py.L3Book.Ahead.{
  ahead_of, Ordered, ahead_of-set_qty_self, ahead_of-set_qty, ahead_of-without, head_first,
}

-- The row's order rests where the row says, and the row knows the shares ahead of it.
abbrev pub IsExact : List Node → Tracked → Type 0
IsExact ns t =
    (x : Node) × (find t.ref ns ≡ some x)
    × (x.seq ≡ t.seq)
    × (at t.side t.tick x ≡ true)
    × (t.ahead ≡ ahead_of t.ref t.side t.tick ns)

-- No reference has two rows.
abbrev pub DistinctRows : List Tracked → Type 0
DistinctRows [] = Unit
DistinctRows (t ∷ ts) = (find_row t.ref ts ≡ none) × DistinctRows ts

-- What `_credit_ahead` makes of one row.
abbrev credited : Node → ℕ → Bool → Tracked → Tracked
credited n q by_seq t = if credits n by_seq t then record t { ahead = t.ahead - q } else t

credited_keeps :
    (n : Node) (q : ℕ) (by_seq : Bool) (t : Tracked)
    → ((credited n q by_seq t).ref ≡ t.ref)
      × ((credited n q by_seq t).seq ≡ t.seq)
      × ((credited n q by_seq t).tick ≡ t.tick)
      × ((credited n q by_seq t).side ≡ t.side)
credited_keeps n q by_seq t = ground arith

credits-at :
    (n x : Node) (t : Tracked)
    → (n.ref == t.ref) ≡ false
    → x.seq ≡ t.seq
    → credits n true t ≡ (at t.side t.tick n && ltb n.seq x.seq)
credits-at n x t e q = sides n.side t.side
  where
    sides :
        (a b : Side)
        → ((t.tick == n.tick) && (same_side b a && (not (t.ref == n.ref) && ltb n.seq t.seq)))
          ≡ ((same_side a b && (n.tick == t.tick)) && ltb n.seq x.seq)
    sides buy buy = ground arith
    sides buy sell = ground arith
    sides sell buy = ground arith
    sides sell sell = ground arith

untrack_row_hit :
    (r : ℕ) (c : Tracked) (cs : List Tracked) → (c.ref == r) ≡ true → untrack_row r (c ∷ cs) ≡ cs
unfolding untrack_row
untrack_row_hit r c cs e = ground (arith, e)

untrack_row_miss :
    (r : ℕ) (c : Tracked) (cs : List Tracked)
    → (c.ref == r) ≡ false
    → untrack_row r (c ∷ cs) ≡ c ∷ untrack_row r cs
unfolding untrack_row
untrack_row_miss r c cs e = ground (arith, e)

module _ (n : Node) (ns : List Node) (o : Ordered ns) (rests : find n.ref ns ≡ some n) where
  -- Another order's row, after the node lost `cut` shares and its list became `ns'`.
  other-IsExact :
      (t : Tracked) (ns' : List Node) (cut : ℕ)
      → (n.ref == t.ref) ≡ false
      → find t.ref ns' ≡ find t.ref ns
      → ((x : Node)
          → find t.ref ns ≡ some x
          → ahead_of t.ref t.side t.tick ns'
              + (if at t.side t.tick n && ltb n.seq x.seq then cut else 0)
            ≡ ahead_of t.ref t.side t.tick ns)
      → IsExact ns t
      → IsExact ns' (credited n cut true t)
  other-IsExact t ns' cut e same falls (x, found, seq, level, ahead) =
      let f = falls x found in
      let c = credits-at n x t e seq in
      elim (Bool-cases (credits n true t)) [
        | inl p ↦ rw p (x, same ∙ found, seq, level, ground (arith, f, c))
        | inr p ↦ rw p (x, same ∙ found, seq, level, ground (arith, f, c))
      ]

  own_credit : (t : Tracked) (cut : ℕ) → (n.ref == t.ref) ≡ true → credited n cut true t ≡ t
  own_credit t cut e = ground arith

  -- The row of the node itself, after it lost shares.
  own-IsExact :
      (t : Tracked) (q : ℕ)
      → (n.ref == t.ref) ≡ true
      → IsExact ns t
      → IsExact (set_qty n.ref q ns) t
  own-IsExact t q e (x, found, seq, level, ahead) =
      let same : n.ref ≡ t.ref = (==_iff _ _).0 e in
      let here : some n ≡ some x = sym rests ∙ ap (λ r. find r ns) same ∙ found in
      (
        record n { qty = q },
        find-set_qty n.ref q t.ref ns ∙ rw (e, rests) refl,
        ground (arith, here),
        ground (arith, here),
        ahead
            ∙ sym (
                ap (λ r. ahead_of t.ref t.side t.tick (set_qty r q ns)) same
                ∙ ahead_of-set_qty_self t.ref t.side t.tick q ns),
      )

  -- The rows after a reduction that leaves the node resting.
  pub shrunk_rows :
      (cut : ℕ) (ts : List Tracked)
      → cut ≤ n.qty
      → All (IsExact ns) ts
      → All (IsExact (set_qty n.ref (n.qty - cut) ns)) (credit_ahead n cut true ts)
  unfolding credit_ahead
  shrunk_rows cut [] le h = tt
  shrunk_rows cut (t ∷ ts) le h = (
    elim (Bool-cases (n.ref == t.ref)) [
      | inl e ↦
          subst (IsExact (set_qty n.ref (n.qty - cut) ns)) (sym (own_credit t cut e))
            (own-IsExact t (n.qty - cut) e h.0)
      | inr e ↦
          other-IsExact t (set_qty n.ref (n.qty - cut) ns) cut e
            (find-set_qty n.ref (n.qty - cut) t.ref ns ∙ rw e refl)
            (λ x found. ahead_of-set_qty t.ref t.side t.tick n x cut ns o rests found e le) h.0
    ],
    shrunk_rows cut ts le h.1,
  )

  left_row :
      (t : Tracked)
      → (n.ref == t.ref) ≡ false
      → IsExact ns t
      → IsExact (without n.ref ns) (credited n n.qty true t)
  left_row t e h =
      other-IsExact t (without n.ref ns) n.qty e (find-without_ne n.ref t.ref ns e)
        (λ x found. ahead_of-without t.ref t.side t.tick n x ns o rests found e) h

  untracked_rows :
      (ts : List Tracked)
      → find_row n.ref ts ≡ none
      → All (IsExact ns) ts
      → All (IsExact (without n.ref ns)) (credit_ahead n n.qty true ts)
  unfolding credit_ahead find_row
  untracked_rows [] u h = tt
  untracked_rows (t ∷ ts) u h =
      (left_row t (ground arith) h.0, untracked_rows ts (ground arith) h.1)

  credited-ref :
      (t : Tracked) (b : Bool) → (t.ref == n.ref) ≡ b → ((credited n n.qty true t).ref == n.ref) ≡ b
  credited-ref t b e = rw ((credited_keeps n n.qty true t).0, e)

  -- The rows after the node has left the book.
  pub removed_rows :
      (ts : List Tracked)
      → DistinctRows ts
      → All (IsExact ns) ts
      → All (IsExact (without n.ref ns)) (untrack_row n.ref (credit_ahead n n.qty true ts))
  unfolding credit_ahead
  removed_rows [] d h = unfold untrack_row in tt
  removed_rows (t ∷ ts) d h = elim (Bool-cases (t.ref == n.ref)) [
    | inl e ↦
        let same : t.ref ≡ n.ref = (==_iff _ _).0 e in
        let hit =
          untrack_row_hit n.ref (credited n n.qty true t) (credit_ahead n n.qty true ts)
            (credited-ref t true e) in
        subst (All (IsExact (without n.ref ns))) (sym hit)
          (untracked_rows ts (subst (λ r. find_row r ts ≡ none) same d.0) h.1)
    | inr e ↦
        let miss =
          untrack_row_miss n.ref (credited n n.qty true t) (credit_ahead n n.qty true ts)
            (credited-ref t false e) in
        subst (All (IsExact (without n.ref ns))) (sym miss)
          (left_row t (ground arith) h.0, removed_rows ts d.1 h.1)
  ]

-- A row of another order at the level of the head came after the head.
row_after :
    (n : Node) (ns : List Node) (rest : List ℕ) (t : Tracked)
    → Ordered ns
    → refs_at n.side n.tick ns ≡ n.ref ∷ rest
    → find n.ref ns ≡ some n
    → IsExact ns t
    → (t.tick == n.tick) ≡ true
    → same_side t.side n.side ≡ true
    → (t.ref == n.ref) ≡ false
    → ltb n.seq t.seq ≡ true
row_after n ns rest t o k l (x, found, seq, level, ahead) tick side ne =
    let x_ref : x.ref ≡ t.ref = ref-find t.ref ns x found in
    let there : at n.side n.tick x ≡ true =
      subst (λ i. at n.side i x ≡ true) ((==_iff _ _).0 tick)
        (subst (λ s. at s t.tick x ≡ true) (side_eq t.side n.side side) level) in
    let first =
      head_first n.side n.tick ns n x rest o k l (ap (λ r. find r ns) x_ref ∙ found) there
        (ground arith) in
    ground (arith, first)

-- An execution at the head of the queue credits just what a cancel of the head would.
pub head_credit :
    (n : Node) (ns : List Node) (rest : List ℕ) (q : ℕ) (ts : List Tracked)
    → Ordered ns
    → refs_at n.side n.tick ns ≡ n.ref ∷ rest
    → find n.ref ns ≡ some n
    → All (IsExact ns) ts
    → credit_ahead n q false ts ≡ credit_ahead n q true ts
unfolding credit_ahead
head_credit n ns rest q [] o k l h = refl
head_credit n ns rest q (t ∷ ts) o k l h =
    ap₂ ◌∷◌
      (same_credit (Bool-cases (t.tick == n.tick)) (Bool-cases (same_side t.side n.side))
        (Bool-cases (t.ref == n.ref)))
      (head_credit n ns rest q ts o k l h.1)
  where
    same_credit :
        ((t.tick == n.tick) ≡ true) ⊎ ((t.tick == n.tick) ≡ false)
        → (same_side t.side n.side ≡ true) ⊎ (same_side t.side n.side ≡ false)
        → ((t.ref == n.ref) ≡ true) ⊎ ((t.ref == n.ref) ≡ false)
        → credited n q false t ≡ credited n q true t
    same_credit (inr a) b c = rw a
    same_credit (inl a) (inr b) c = rw (a, b)
    same_credit (inl a) (inl b) (inl c) = rw (a, b, c)
    same_credit (inl a) (inl b) (inr c) = rw (a, b, c, row_after n ns rest t o k l h.0 a b c)
