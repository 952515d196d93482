-- ===== src/L3Book/Invariant.antt =====
-- The well-formedness of a book, and that placing, shrinking and removing a node keep it.
use quant_finance_py.Prelude.{
  ℕ, ◌+◌, ◌-◌, ◌≡◌, ◌≤◌, ◌<◌, refl, ap, subst, sym, ◌∙◌, none, some, List, [], ◌∷◌, ◌++◌, arith,
  ◌==◌, ltb, if◌then◌else◌, length, length-append, All, Bool-cases, inl, inr,
}
use quant_finance_py.Execution.{Side, buy, sell}
use quant_finance_py.L3Book.{Book, place, shrink}
use quant_finance_py.L3Book.Orders.{
  Node, same_side, at, find, without, set_qty, update_side, member, add,
}
use quant_finance_py.L3Book.Sums.{
  shares_at, refs_at, Distinct, update_lem, shares_at-append, refs_at-append, shares_at-without,
  shares_at-set_qty, refs_at-set_qty, Distinct-set_qty, Distinct-append, length-set_qty,
}
use quant_finance_py.L3Book.Best.{IsExtreme, IsExtreme-add, member-add}

-- A resting order: positive reference and quantity, a tick on the ladder, an old sequence number.
abbrev pub IsLive : ℕ → ℕ → Node → Type 0
IsLive ladder next_seq n = (0 < n.ref) × (0 < n.qty) × (n.tick < ladder) × (n.seq < next_seq)

pub record IsConsistent (b : Book) : Type 0 where
  pub distinct : Distinct b.orders
  pub live : All (IsLive b.ladder b.next_seq) b.orders
  pub levels : (s : Side) (i : ℕ) → b.levels s i ≡ refs_at s i b.orders
  pub qty : (s : Side) (i : ℕ) → b.qty s i ≡ shares_at s i b.orders
  pub occupied : (s : Side) (i : ℕ) → member i (b.occupied s) ≡ ltb 0 (b.qty s i)
  pub best : (s : Side) → IsExtreme s (b.occupied s) (b.best s)
  pub resting : b.resting_orders ≡ length b.orders
  pub capacity : length b.orders ≤ b.max_orders

pub update_side_all :
    {V W : Type 0} (P : Side → V → W → Type 0) (s s' : Side) (x : V) (y : W) (t : Side → V)
    (u : Side → W)
    → P s x y
    → P s' (t s') (u s')
    → P s' (update_side s x t s') (update_side s y u s')
update_side_all P buy buy x y t u h k = h
update_side_all P sell sell x y t u h k = h
update_side_all P buy sell x y t u h k = k
update_side_all P sell buy x y t u h k = k

pub member-update_side :
    (a s : Side) (f : List ℕ → List ℕ) (occ : Side → List ℕ) (i : ℕ)
    → member i (update_side a (f (occ a)) occ s)
      ≡ (if same_side a s then member i (f (occ s)) else member i (occ s))
member-update_side buy buy f occ i = refl
member-update_side sell sell f occ i = refl
member-update_side buy sell f occ i = refl
member-update_side sell buy f occ i = refl

IsLive-append :
    (l k : ℕ) (ns : List Node) (n : Node)
    → All (IsLive l k) ns
    → IsLive l (k + 1) n
    → All (IsLive l (k + 1)) (ns ++ n ∷ [])
IsLive-append l k [] n h e = (e, tt)
IsLive-append l k (m ∷ ns) n h e =
    ((h.0.0, h.0.1, h.0.2, omega arith), IsLive-append l k ns n h.1 e)

pub IsLive-without :
    (l k r : ℕ) (ns : List Node) → All (IsLive l k) ns → All (IsLive l k) (without r ns)
unfolding without
IsLive-without l k r [] h = h
IsLive-without l k r (m ∷ ns) h = elim (Bool-cases (m.ref == r)) [
  | inl e ↦ rw e h.1
  | inr e ↦ rw e (h.0, IsLive-without l k r ns h.1)
]

IsLive-set_qty :
    (l k r q : ℕ) (ns : List Node) → 0 < q → All (IsLive l k) ns → All (IsLive l k) (set_qty r q ns)
unfolding set_qty
IsLive-set_qty l k r q [] p h = h
IsLive-set_qty l k r q (m ∷ ns) p h = elim (Bool-cases (m.ref == r)) [
  | inl e ↦ rw e ((h.0.0, p, h.0.2, h.0.3), h.1)
  | inr e ↦ rw e (h.0, IsLive-set_qty l k r q ns p h.1)
]

some_eq : (m n : Node) → some m ≡ some n → m ≡ n
some_eq m n h = ground arith

pub IsLive-find :
    (l k r : ℕ) (ns : List Node) (n : Node)
    → All (IsLive l k) ns
    → find r ns ≡ some n
    → IsLive l k n
unfolding find
IsLive-find l k r [] n h e = cc
IsLive-find l k r (m ∷ ns) n h e = elim (Bool-cases (m.ref == r)) [
  | inl p ↦ let same : some m ≡ some n = rw p at e in subst (IsLive l k) (some_eq m n same) h.0
  | inr p ↦ IsLive-find l k r ns n h.1 (rw p at e)
]

module _ {b : Book} (c : IsConsistent b) (n : Node) where
  module _ (fresh : find n.ref b.orders ≡ none) (alive : IsLive b.ladder (b.next_seq + 1) n)
      (room : length b.orders < b.max_orders) where
    place-levels : (s : Side) (i : ℕ) → (place b n).levels s i ≡ refs_at s i (place b n).orders
    unfolding place
    place-levels s i =
        rw (update_lem n (λ l. l ++ n.ref ∷ []) b.levels s i, refs_at-append s i b.orders n)
          (ap (λ l. if at s i n then l ++ n.ref ∷ [] else l) (c.levels s i))

    place-qty : (s : Side) (i : ℕ) → (place b n).qty s i ≡ shares_at s i (place b n).orders
    unfolding place
    place-qty s i =
        rw (update_lem n (λ q. q + n.qty) b.qty s i)
          (ground (arith, c.qty s i, shares_at-append s i b.orders n))

    place-occupied :
        (s : Side) (i : ℕ) → member i ((place b n).occupied s) ≡ ltb 0 ((place b n).qty s i)
    unfolding place
    place-occupied s i = rw (update_lem n (λ q. q + n.qty) b.qty s i) (
        ground (
          arith,
          member-update_side n.side s (add n.tick) b.occupied i,
          member-add n.tick i (b.occupied s),
          c.occupied s i,
        ))

    pub place-IsConsistent : IsConsistent (place b n)
    unfolding place
    place-IsConsistent = record {
      distinct = Distinct-append b.orders n c.distinct fresh;
      live = IsLive-append b.ladder b.next_seq b.orders n c.live alive;
      levels = place-levels;
      qty = place-qty;
      occupied = place-occupied;
      best = λ s.
          update_side_all IsExtreme n.side s _ _ b.occupied b.best
            (IsExtreme-add n.side n.tick (b.occupied n.side) (b.best n.side) (c.best n.side))
            (c.best s);
      resting = omega (arith, c.resting, length-append b.orders (n ∷ []));
      capacity = omega (arith, length-append b.orders (n ∷ []));
    }

  -- A smaller, positive quantity.
  module _ (cut : ℕ) (rests : find n.ref b.orders ≡ some n) (part : cut < n.qty) where
    shrink-qty :
        (s : Side) (i : ℕ) → (shrink b n cut).qty s i ≡ shares_at s i (shrink b n cut).orders
    unfolding shrink
    shrink-qty s i =
        rw (update_lem n (λ q. q - cut) b.qty s i)
          (ground (arith, c.qty s i, shares_at-set_qty s i n.ref (n.qty - cut) b.orders n rests))

    -- The level still holds shares, as the node keeps some.
    shrink-occupied :
        (s : Side) (i : ℕ)
        → member i ((shrink b n cut).occupied s) ≡ ltb 0 ((shrink b n cut).qty s i)
    unfolding shrink
    shrink-occupied s i = rw (update_lem n (λ q. q - cut) b.qty s i) (
        ground (
          arith,
          c.occupied s i,
          c.qty s i,
          shares_at-set_qty s i n.ref (n.qty - cut) b.orders n rests,
          shares_at-without s i n.ref b.orders n rests,
        ))

    pub shrink-IsConsistent : IsConsistent (shrink b n cut)
    unfolding shrink
    shrink-IsConsistent = record {
      distinct = Distinct-set_qty n.ref (n.qty - cut) b.orders c.distinct;
      live = IsLive-set_qty b.ladder b.next_seq n.ref (n.qty - cut) b.orders (omega arith) c.live;
      levels = λ s i. c.levels s i ∙ sym (refs_at-set_qty s i n.ref (n.qty - cut) b.orders);
      qty = shrink-qty;
      occupied = shrink-occupied;
      best = c.best;
      resting = c.resting ∙ sym (length-set_qty n.ref (n.qty - cut) b.orders);
      capacity = omega (arith, length-set_qty n.ref (n.qty - cut) b.orders, c.capacity);
    }
