-- ===== src/L3Book/Sums.antt =====
-- What a list of resting orders says of each level: the references in queue order and the shares.
use quant_finance_py.Prelude.{
  ℕ, ◌+◌, ◌≡◌, refl, subst, true, false, none, some, List, [], ◌∷◌, ◌++◌, arith, ◌==◌,
  if◌then◌else◌, length, Bool-cases, inl, inr,
}
use quant_finance_py.Execution.{Side, buy, sell}
use quant_finance_py.L3Book.Orders.{
  Node, same_side, at, find, without, set_qty, remove, Table, update,
}

-- The shares that rest at a level.
unfoldable pub shares_at : Side → ℕ → List Node → ℕ
shares_at s i [] = 0
shares_at s i (n ∷ ns) = (if at s i n then n.qty else 0) + shares_at s i ns

-- The references that rest at a level, oldest first.
unfoldable pub refs_at : Side → ℕ → List Node → List ℕ
refs_at s i [] = []
refs_at s i (n ∷ ns) = if at s i n then n.ref ∷ refs_at s i ns else refs_at s i ns

-- No reference rests twice.
abbrev pub Distinct : List Node → Type 0
Distinct [] = Unit
Distinct (n ∷ ns) = (find n.ref ns ≡ none) × Distinct ns

pub side_eq : (a b : Side) → same_side a b ≡ true → a ≡ b
side_eq buy buy h = refl
side_eq sell sell h = refl
side_eq buy sell h = cc
side_eq sell buy h = cc

-- What holds at a node's level holds at the level where the node is.
pub at_lift :
    (P : Side → ℕ → Type 0) (s : Side) (i : ℕ) (n : Node)
    → at s i n ≡ true
    → P n.side n.tick
    → P s i
at_lift P s i n e h =
    let side : n.side ≡ s = side_eq n.side s (ground arith) in
    let tick : n.tick ≡ i = ground arith in subst (P s) tick (subst (λ a. P a n.tick) side h)

-- A table that changes at one node's level.
pub update_lem :
    {V : Type 0} (n : Node) (f : V → V) (t : Table V) (s : Side) (i : ℕ)
    → update n.side n.tick (f (t n.side n.tick)) t s i ≡ (if at s i n then f (t s i) else t s i)
update_lem n f t s i = elim (Bool-cases (at s i n)) [
  | inl e ↦ rw e (at_lift (λ s' i'. f (t n.side n.tick) ≡ f (t s' i')) s i n e refl)
  | inr e ↦ rw e
]

module _ (s : Side) (i : ℕ) where
  pub shares_at-append :
      (ns : List Node) (n : Node)
      → shares_at s i (ns ++ n ∷ []) ≡ shares_at s i ns + (if at s i n then n.qty else 0)
  unfolding shares_at
  shares_at-append [] n = omega arith
  shares_at-append (m ∷ ns) n = omega (arith, shares_at-append ns n)

  pub refs_at-append :
      (ns : List Node) (n : Node)
      → refs_at s i (ns ++ n ∷ [])
        ≡ (if at s i n then refs_at s i ns ++ n.ref ∷ [] else refs_at s i ns)
  unfolding refs_at
  refs_at-append [] n = refl
  refs_at-append (m ∷ ns) n = ground (arith, refs_at-append ns n)

  module _ (r : ℕ) where
    pub shares_at-without :
        (ns : List Node) (n : Node)
        → find r ns ≡ some n
        → shares_at s i (without r ns) + (if at s i n then n.qty else 0) ≡ shares_at s i ns
    unfolding find without shares_at
    shares_at-without [] n h = cc
    shares_at-without (m ∷ ns) n h = ground (arith, shares_at-without ns n)

    pub refs_at-without :
        (ns : List Node) (n : Node)
        → find r ns ≡ some n
        → refs_at s i (without r ns)
          ≡ (if at s i n then remove r (refs_at s i ns) else refs_at s i ns)
    unfolding find without refs_at remove
    refs_at-without [] n h = cc
    refs_at-without (m ∷ ns) n h = ground (arith, refs_at-without ns n)

    pub shares_at-set_qty :
        (q : ℕ) (ns : List Node) (n : Node)
        → find r ns ≡ some n
        → shares_at s i (set_qty r q ns) + (if at s i n then n.qty else 0)
          ≡ shares_at s i ns + (if at s i n then q else 0)
    unfolding find set_qty shares_at
    shares_at-set_qty q [] n h = cc
    shares_at-set_qty q (m ∷ ns) n h = ground (arith, shares_at-set_qty q ns n)

    pub refs_at-set_qty : (q : ℕ) (ns : List Node) → refs_at s i (set_qty r q ns) ≡ refs_at s i ns
    unfolding set_qty refs_at
    refs_at-set_qty q [] = refl
    refs_at-set_qty q (m ∷ ns) = ground (arith, refs_at-set_qty q ns)

-- References.
pub ref-find : (r : ℕ) (ns : List Node) (n : Node) → find r ns ≡ some n → n.ref ≡ r
unfolding find
ref-find r [] n h = cc
ref-find r (m ∷ ns) n h = ground (arith, ref-find r ns n)

pub find-without_ne :
    (r j : ℕ) (ns : List Node) → (r == j) ≡ false → find j (without r ns) ≡ find j ns
unfolding find without
find-without_ne r j [] h = refl
find-without_ne r j (m ∷ ns) h = ground (arith, find-without_ne r j ns h)

pub find-without_self : (r : ℕ) (ns : List Node) → Distinct ns → find r (without r ns) ≡ none
unfolding find without
find-without_self r [] d = refl
find-without_self r (m ∷ ns) d = ground (arith, find-without_self r ns d.1)

pub find-set_qty :
    (r q j : ℕ) (ns : List Node)
    → find j (set_qty r q ns) ≡ (
        if r == j
        then elim (find r ns) [ none ↦ none | some n ↦ some (record n { qty = q }) ]
        else find j ns)
unfolding find set_qty
find-set_qty r q j [] = ground arith
find-set_qty r q j (m ∷ ns) = ground (arith, find-set_qty r q j ns)

pub find-append :
    (j : ℕ) (ns : List Node) (n : Node)
    → find j (ns ++ n ∷ [])
      ≡ elim (find j ns) [ none ↦ (if n.ref == j then some n else none) | some m ↦ some m ]
unfolding find
find-append j [] n = refl
find-append j (m ∷ ns) n = ground (arith, find-append j ns n)

pub find-none-without : (r j : ℕ) (ns : List Node) → find j ns ≡ none → find j (without r ns) ≡ none
unfolding find without
find-none-without r j [] h = h
find-none-without r j (m ∷ ns) h = ground (arith, find-none-without r j ns)

pub Distinct-without : (r : ℕ) (ns : List Node) → Distinct ns → Distinct (without r ns)
unfolding without
Distinct-without r [] d = d
Distinct-without r (m ∷ ns) d =
    ground (arith, Distinct-without r ns d.1, find-none-without r m.ref ns d.0)

find-none-set_qty : (r q j : ℕ) (ns : List Node) → find j ns ≡ none → find j (set_qty r q ns) ≡ none
unfolding find set_qty
find-none-set_qty r q j [] h = h
find-none-set_qty r q j (m ∷ ns) h = ground (arith, find-none-set_qty r q j ns)

pub Distinct-set_qty : (r q : ℕ) (ns : List Node) → Distinct ns → Distinct (set_qty r q ns)
unfolding set_qty
Distinct-set_qty r q [] d = d
Distinct-set_qty r q (m ∷ ns) d =
    ground (arith, Distinct-set_qty r q ns d.1, find-none-set_qty r q m.ref ns d.0)

find-none-append :
    (j : ℕ) (ns : List Node) (n : Node)
    → find j ns ≡ none
    → (n.ref == j) ≡ false
    → find j (ns ++ n ∷ []) ≡ none
find-none-append j ns n h e = rw (find-append j ns n, h, e)

pub Distinct-append :
    (ns : List Node) (n : Node) → Distinct ns → find n.ref ns ≡ none → Distinct (ns ++ n ∷ [])
unfolding find
Distinct-append [] n d h = (refl, tt)
Distinct-append (m ∷ ns) n d h =
    ground (arith, Distinct-append ns n d.1, find-none-append m.ref ns n d.0)

-- Sizes.
pub length-without :
    (r : ℕ) (ns : List Node) (n : Node) → find r ns ≡ some n → length (without r ns) + 1 ≡ length ns
unfolding find without
length-without r [] n h = cc
length-without r (m ∷ ns) n h = ground (arith, length-without r ns n)

pub length-set_qty : (r q : ℕ) (ns : List Node) → length (set_qty r q ns) ≡ length ns
unfolding set_qty
length-set_qty r q [] = refl
length-set_qty r q (m ∷ ns) = ground (arith, length-set_qty r q ns)

pub without-set_qty : (r q : ℕ) (ns : List Node) → without r (set_qty r q ns) ≡ without r ns
unfolding without set_qty
without-set_qty r q [] = refl
without-set_qty r q (m ∷ ns) = ground (arith, without-set_qty r q ns)
