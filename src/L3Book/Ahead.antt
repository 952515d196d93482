-- ===== src/L3Book/Ahead.antt =====
-- The shares queued ahead of an order, in a list of orders by arrival.
use quant_finance_py.Prelude.{
  ℕ, ◌+◌, ◌-◌, ◌≡◌, ◌≤◌, ◌<◌, refl, subst, true, false, ◌&&◌, none, some, List, [], ◌∷◌, ◌++◌,
  arith, ◌==◌, ltb, if◌then◌else◌, All, Bool-cases, inl, inr,
}
use quant_finance_py.Execution.{Side}
use quant_finance_py.L3Book.Orders.{Node, at, find, without, set_qty, walk}
use quant_finance_py.L3Book.Sums.{refs_at, Distinct}

-- The quantities at a level of the orders that came before reference `r`.
unfoldable pub ahead_of : ℕ → Side → ℕ → List Node → ℕ
ahead_of r s i [] = 0
ahead_of r s i (n ∷ ns) =
    let rest = ahead_of r s i ns in if n.ref == r then 0 else (if at s i n then n.qty else 0) + rest

-- Sequence numbers rise along the list.
abbrev pub Ordered : List Node → Type 0
Ordered [] = Unit
Ordered (n ∷ ns) = All (λ (m : Node). n.seq < m.seq) ns × Ordered ns

pub find-All :
    (P : Node → Type 0) (r : ℕ) (ns : List Node) (n : Node) → All P ns → find r ns ≡ some n → P n
unfolding find
find-All P r [] n h e = cc
find-All P r (m ∷ ns) n h e = elim (Bool-cases (m.ref == r)) [
  | inl p ↦ let same : some m ≡ some n = rw p at e in subst P (some_node m n same) h.0
  | inr p ↦ find-All P r ns n h.1 (rw p at e)
]
  where
    some_node : (a b : Node) → some a ≡ some b → a ≡ b
    some_node a b q = ground arith

module _ (r : ℕ) (s : Side) (i : ℕ) where
  pub ahead_of-append :
      (ns : List Node) (n x : Node)
      → find r ns ≡ some x
      → ahead_of r s i (ns ++ n ∷ []) ≡ ahead_of r s i ns
  unfolding ahead_of find
  ahead_of-append [] n x h = cc
  ahead_of-append (m ∷ ns) n x h = ground (arith, ahead_of-append ns n x)

  pub ahead_of-set_qty_self :
      (q : ℕ) (ns : List Node) → ahead_of r s i (set_qty r q ns) ≡ ahead_of r s i ns
  unfolding ahead_of set_qty
  ahead_of-set_qty_self q [] = refl
  ahead_of-set_qty_self q (m ∷ ns) = ground (arith, ahead_of-set_qty_self q ns)

  module _ (n x : Node) where
    -- What is ahead of `x` falls by what an earlier order at the level loses.
    abbrev loss : ℕ → ℕ
    loss cut = if at s i n && ltb n.seq x.seq then cut else 0

    pub ahead_of-set_qty :
        (cut : ℕ) (ns : List Node)
        → Ordered ns
        → find n.ref ns ≡ some n
        → find r ns ≡ some x
        → (n.ref == r) ≡ false
        → cut ≤ n.qty
        → ahead_of r s i (set_qty n.ref (n.qty - cut) ns) + loss cut ≡ ahead_of r s i ns
    unfolding ahead_of set_qty find
    ahead_of-set_qty cut [] o h k e le = cc
    ahead_of-set_qty cut (m ∷ ns) o h k e le = ground (
      arith,
      ahead_of-set_qty cut ns o.1,
      find-All (λ (y : Node). m.seq < y.seq) r ns x o.0,
      find-All (λ (y : Node). m.seq < y.seq) n.ref ns n o.0,
    )

    pub ahead_of-without :
        (ns : List Node)
        → Ordered ns
        → find n.ref ns ≡ some n
        → find r ns ≡ some x
        → (n.ref == r) ≡ false
        → ahead_of r s i (without n.ref ns) + loss n.qty ≡ ahead_of r s i ns
    unfolding ahead_of without find
    ahead_of-without [] o h k e = cc
    ahead_of-without (m ∷ ns) o h k e = ground (
      arith,
      ahead_of-without ns o.1,
      find-All (λ (y : Node). m.seq < y.seq) r ns x o.0,
      find-All (λ (y : Node). m.seq < y.seq) n.ref ns n o.0,
    )

  -- The walk of `track` counts what is ahead.
  pub walk-ahead_of :
      (ns full : List Node) (x : Node)
      → All (λ (n : Node). find n.ref full ≡ some n) ns
      → find r ns ≡ some x
      → at s i x ≡ true
      → walk r (refs_at s i ns) full ≡ ahead_of r s i ns
  unfolding walk ahead_of refs_at find
  walk-ahead_of [] full x h k e = cc
  walk-ahead_of (m ∷ ns) full x h k e = elim (Bool-cases (at s i m)) [
    | inl a ↦ rw a (ground (arith, h.0, walk-ahead_of ns full x h.1))
    | inr a ↦ rw a (ground (arith, walk-ahead_of ns full x h.1))
  ]

-- The first reference of a level came before every other order there.
pub head_first :
    (s : Side) (i : ℕ) (ns : List Node) (n x : Node) (rest : List ℕ)
    → Ordered ns
    → refs_at s i ns ≡ n.ref ∷ rest
    → find n.ref ns ≡ some n
    → find x.ref ns ≡ some x
    → at s i x ≡ true
    → (n.ref == x.ref) ≡ false
    → n.seq < x.seq
unfolding refs_at find
head_first s i [] n x rest o h k l e d = cc
head_first s i (m ∷ ns) n x rest o h k l e d =
    ground
      (arith, head_first s i ns n x rest o.1, find-All (λ (y : Node). m.seq < y.seq) x.ref ns x o.0)

find_lift :
    (m : Node) (ns ks : List Node)
    → find m.ref ns ≡ none
    → All (λ (n : Node). find n.ref ns ≡ some n) ks
    → All (λ (n : Node). find n.ref (m ∷ ns) ≡ some n) ks
unfolding find
find_lift m ns [] h a = tt
find_lift m ns (k ∷ ks) h a = (ground (arith, a.0), find_lift m ns ks h a.1)

-- Every order of a list without repeated references is found under its own.
pub Distinct-find : (ns : List Node) → Distinct ns → All (λ (n : Node). find n.ref ns ≡ some n) ns
unfolding find
Distinct-find [] d = tt
Distinct-find (m ∷ ns) d = (ground arith, find_lift m ns ns d.0 (Distinct-find ns d.1))

-- The order of arrival is kept.
All-without : (P : Node → Type 0) (r : ℕ) (ns : List Node) → All P ns → All P (without r ns)
unfolding without
All-without P r [] h = h
All-without P r (m ∷ ns) h = elim (Bool-cases (m.ref == r)) [
  | inl e ↦ rw e h.1
  | inr e ↦ rw e (h.0, All-without P r ns h.1)
]

later-set_qty :
    (k r q : ℕ) (ns : List Node)
    → All (λ (m : Node). k < m.seq) ns
    → All (λ (m : Node). k < m.seq) (set_qty r q ns)
unfolding set_qty
later-set_qty k r q [] h = h
later-set_qty k r q (m ∷ ns) h = elim (Bool-cases (m.ref == r)) [
  | inl e ↦ rw e h
  | inr e ↦ rw e (h.0, later-set_qty k r q ns h.1)
]

pub Ordered-without : (r : ℕ) (ns : List Node) → Ordered ns → Ordered (without r ns)
unfolding without
Ordered-without r [] o = o
Ordered-without r (m ∷ ns) o = elim (Bool-cases (m.ref == r)) [
  | inl e ↦ rw e o.1
  | inr e ↦ rw e (All-without (λ (y : Node). m.seq < y.seq) r ns o.0, Ordered-without r ns o.1)
]

pub Ordered-set_qty : (r q : ℕ) (ns : List Node) → Ordered ns → Ordered (set_qty r q ns)
unfolding set_qty
Ordered-set_qty r q [] o = o
Ordered-set_qty r q (m ∷ ns) o = elim (Bool-cases (m.ref == r)) [
  | inl e ↦ rw e o
  | inr e ↦ rw e (later-set_qty m.seq r q ns o.0, Ordered-set_qty r q ns o.1)
]

later-append :
    (k : ℕ) (ns : List Node) (n : Node)
    → All (λ (m : Node). k < m.seq) ns
    → k < n.seq
    → All (λ (m : Node). k < m.seq) (ns ++ n ∷ [])
later-append k [] n h e = (e, tt)
later-append k (m ∷ ns) n h e = (h.0, later-append k ns n h.1 e)

pub Ordered-append :
    (ns : List Node) (n : Node)
    → Ordered ns
    → All (λ (m : Node). m.seq < n.seq) ns
    → Ordered (ns ++ n ∷ [])
Ordered-append [] n o h = (tt, tt)
Ordered-append (m ∷ ns) n o h = (later-append m.seq ns n o.0 h.0, Ordered-append ns n o.1 h.1)
