-- ===== src/Nbbo/Scan.antt =====
-- src/quantfinlib/marketdata/nbbo.py: the sizes and the venues that the loop of `_recompute`
-- collects.
use quant_finance_py.Prelude.{
  ℕ, zero, suc, ◌+◌, ◌<◌, ◌≡◌, refl, ap, ◌∙◌, Bool, true, false, ◌&&◌, ◌||◌, List, [], ◌∷◌, arith,
  ◌==◌, if◌then◌else◌,
}
use quant_finance_py.Prelude.Int.{ℤ, ◌==ℤ◌}
use quant_finance_py.Execution.{Side, buy, sell}
use quant_finance_py.Nbbo.{VenueQuote, Inside, tick, size, absent, nothing, join}
use quant_finance_py.Nbbo.Join.{
  NoBetter, pick, best, size_at, shows, join_all, best-start, best-pick, price-join, price-join-ge,
}

-- What the accumulator holds at price `p`, and whether it marks venue `u` there.
abbrev held : Inside → ℤ → ℕ
held acc p = if acc.price ==ℤ p then acc.shares else 0

abbrev marks : Inside → ℤ → ℕ → Bool
marks acc p u = (acc.price ==ℤ p) && acc.venue_bits u

held-join_bid :
    (v : ℕ) (q : VenueQuote) (acc : Inside) (p : ℤ)
    → NoBetter buy (pick buy acc.price q.bid_tick) p
    → (p ==ℤ absent buy) ≡ false
    → held (join buy v q acc) p ≡ held acc p + (if q.bid_tick ==ℤ p then q.bid_size else 0)
unfolding join
held-join_bid v q acc p k e = ground arith

held-join_ask :
    (v : ℕ) (q : VenueQuote) (acc : Inside) (p : ℤ)
    → NoBetter sell (pick sell acc.price q.ask_tick) p
    → (p ==ℤ absent sell) ≡ false
    → held (join sell v q acc) p ≡ held acc p + (if q.ask_tick ==ℤ p then q.ask_size else 0)
unfolding join
held-join_ask v q acc p k e = ground arith

held-join :
    (s : Side) (v : ℕ) (q : VenueQuote) (acc : Inside) (p : ℤ)
    → NoBetter s (pick s acc.price (tick s q)) p
    → (p ==ℤ absent s) ≡ false
    → held (join s v q acc) p ≡ held acc p + (if tick s q ==ℤ p then size s q else 0)
held-join buy = held-join_bid
held-join sell = held-join_ask

marks-join_bid :
    (v : ℕ) (q : VenueQuote) (acc : Inside) (p : ℤ) (u : ℕ)
    → NoBetter buy (pick buy acc.price q.bid_tick) p
    → (p ==ℤ absent buy) ≡ false
    → marks (join buy v q acc) p u ≡ (marks acc p u || ((q.bid_tick ==ℤ p) && (u == v)))
unfolding join
marks-join_bid v q acc p u k e = ground arith

marks-join_ask :
    (v : ℕ) (q : VenueQuote) (acc : Inside) (p : ℤ) (u : ℕ)
    → NoBetter sell (pick sell acc.price q.ask_tick) p
    → (p ==ℤ absent sell) ≡ false
    → marks (join sell v q acc) p u ≡ (marks acc p u || ((q.ask_tick ==ℤ p) && (u == v)))
unfolding join
marks-join_ask v q acc p u k e = ground arith

marks-join :
    (s : Side) (v : ℕ) (q : VenueQuote) (acc : Inside) (p : ℤ) (u : ℕ)
    → NoBetter s (pick s acc.price (tick s q)) p
    → (p ==ℤ absent s) ≡ false
    → marks (join s v q acc) p u ≡ (marks acc p u || ((tick s q ==ℤ p) && (u == v)))
marks-join buy = marks-join_bid
marks-join sell = marks-join_ask

NoBetter-trans : (s : Side) (a b c : ℤ) → NoBetter s a b → NoBetter s b c → NoBetter s a c
NoBetter-trans buy a b c h k = omega arith
NoBetter-trans sell a b c h k = omega arith

-- The bound on the best price passes to one round and to the rest.
best-cons_bounds :
    (s : Side) (w p : ℤ) (q : VenueQuote) (qs : List VenueQuote)
    → NoBetter s (best s w (q ∷ qs)) p
    → NoBetter s (pick s w (tick s q)) p × NoBetter s (best s (pick s w (tick s q)) qs) p
unfolding best
best-cons_bounds s w p q qs h =
    let k : NoBetter s (best s (pick s w (tick s q)) qs) p = rw (best-pick s w (tick s q) qs) h in
    (NoBetter-trans s _ _ p (best-start s (pick s w (tick s q)) qs) k, k)

pub held-join_all :
    (s : Side) (v : ℕ) (qs : List VenueQuote) (acc : Inside) (p : ℤ)
    → NoBetter s (absent s) acc.price
    → NoBetter s (best s acc.price qs) p
    → (p ==ℤ absent s) ≡ false
    → held (join_all s v qs acc) p ≡ held acc p + size_at s p qs
unfolding join_all size_at
held-join_all s v [] acc p h k e = omega arith
held-join_all s v (q ∷ qs) acc p h k e =
    let b = best-cons_bounds s acc.price p q qs k in
    omega (
      arith,
      held-join s v q acc p b.0 e,
      held-join_all s (v + 1) qs (join s v q acc) p (price-join-ge s v q acc h)
          (rw (price-join s v q acc h) b.1) e,
    )

-- The bits that a scan from venue `v` sets.
pub shows_from : Side → ℤ → ℕ → List VenueQuote → ℕ → Bool
shows_from s p v [] u = false
shows_from s p v (q ∷ qs) u = ((tick s q ==ℤ p) && (u == v)) || shows_from s p (v + 1) qs u

or_assoc : (a b c : Bool) → ((a || b) || c) ≡ (a || (b || c))
or_assoc true b c = refl
or_assoc false b c = refl

pub marks-join_all :
    (s : Side) (v : ℕ) (qs : List VenueQuote) (acc : Inside) (p : ℤ) (u : ℕ)
    → NoBetter s (absent s) acc.price
    → NoBetter s (best s acc.price qs) p
    → (p ==ℤ absent s) ≡ false
    → marks (join_all s v qs acc) p u ≡ (marks acc p u || shows_from s p v qs u)
unfolding join_all shows_from
marks-join_all s v [] acc p u h k e = ground arith
marks-join_all s v (q ∷ qs) acc p u h k e =
    let b = best-cons_bounds s acc.price p q qs k in
    marks-join_all s (v + 1) qs (join s v q acc) p u (price-join-ge s v q acc h)
      (rw (price-join s v q acc h) b.1) e
    ∙ ap (λ x. x || shows_from s p (v + 1) qs u) (marks-join s v q acc p u b.0 e)
    ∙ or_assoc (marks acc p u) ((tick s q ==ℤ p) && (u == v)) (shows_from s p (v + 1) qs u)

shows_from_below :
    (s : Side) (p : ℤ) (v : ℕ) (qs : List VenueQuote) (u : ℕ)
    → u < v
    → shows_from s p v qs u ≡ false
unfolding shows_from
shows_from_below s p v [] u h = refl
shows_from_below s p v (q ∷ qs) u h = ground (arith, shows_from_below s p (v + 1) qs u)

pub shows_from-shows :
    (s : Side) (p : ℤ) (v : ℕ) (qs : List VenueQuote) (u w : ℕ)
    → w ≡ v + u
    → shows_from s p v qs w ≡ shows s p qs u
unfolding shows_from shows
shows_from-shows s p v [] u w e = refl
shows_from-shows s p v (q ∷ qs) zero w e = ground (arith, shows_from_below s p (v + 1) qs w)
shows_from-shows s p v (q ∷ qs) (suc u) w e = ground (arith, shows_from-shows s p (v + 1) qs u w)

join-nothing_bid :
    (v : ℕ) (q : VenueQuote)
    → NoBetter buy q.bid_tick (absent buy)
    → join buy v q (nothing buy) ≡ nothing buy
unfolding join
join-nothing_bid v q h = ground arith

join-nothing_ask :
    (v : ℕ) (q : VenueQuote)
    → NoBetter sell q.ask_tick (absent sell)
    → join sell v q (nothing sell) ≡ nothing sell
unfolding join
join-nothing_ask v q h = ground arith

join-nothing :
    (s : Side) (v : ℕ) (q : VenueQuote)
    → NoBetter s (tick s q) (absent s)
    → join s v q (nothing s) ≡ nothing s
join-nothing buy = join-nothing_bid
join-nothing sell = join-nothing_ask

pick_bounds : (s : Side) (a b p : ℤ) → NoBetter s (pick s a b) p → NoBetter s a p × NoBetter s b p
pick_bounds buy a b p h = ground arith
pick_bounds sell a b p h = ground arith

pub join_all-nothing :
    (s : Side) (v : ℕ) (qs : List VenueQuote)
    → NoBetter s (best s (absent s) qs) (absent s)
    → join_all s v qs (nothing s) ≡ nothing s
unfolding join_all best
join_all-nothing s v [] h = refl
join_all-nothing s v (q ∷ qs) h =
    let b = pick_bounds s (best s (absent s) qs) (tick s q) (absent s) h in
    rw (join-nothing s v q b.1) (join_all-nothing s (v + 1) qs b.0)
