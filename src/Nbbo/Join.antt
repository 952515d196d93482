-- ===== src/Nbbo/Join.antt =====
-- src/quantfinlib/marketdata/nbbo.py: one round of the loop of `_recompute`, and its best price.
use quant_finance_py.Prelude.{
  ℕ, zero, suc, ◌+◌, ◌≡◌, refl, ap, ◌∙◌, Bool, false, List, [], ◌∷◌, arith, if◌then◌else◌,
}
use quant_finance_py.Prelude.Int.{ℤ, ◌≤ℤ◌, ◌==ℤ◌, eq_of_parts}
use quant_finance_py.Execution.{Side, buy, sell}
use quant_finance_py.Nbbo.{VenueQuote, Inside, tick, size, absent, better, join, scan}

-- `a` is no better than `b`.
abbrev pub NoBetter : Side → ℤ → ℤ → Type 0
NoBetter buy a b = a ≤ℤ b
NoBetter sell a b = b ≤ℤ a

-- The better of two prices.
abbrev pub pick : Side → ℤ → ℤ → ℤ
pick s a b = if better s b a then b else a

-- The best of `worst` and the venues' prices.
unfoldable pub best : Side → ℤ → List VenueQuote → ℤ
best s worst [] = worst
best s worst (q ∷ qs) = pick s (best s worst qs) (tick s q)

-- The size that the venues show at a price.
unfoldable pub size_at : Side → ℤ → List VenueQuote → ℕ
size_at s p [] = 0
size_at s p (q ∷ qs) = (if tick s q ==ℤ p then size s q else 0) + size_at s p qs

-- Whether venue `u` of the list shows the price.
unfoldable pub shows : Side → ℤ → List VenueQuote → ℕ → Bool
shows s p [] u = false
shows s p (q ∷ qs) zero = tick s q ==ℤ p
shows s p (q ∷ qs) (suc u) = shows s p qs u

-- The loop on one side alone.
unfoldable pub join_all : Side → ℕ → List VenueQuote → Inside → Inside
join_all s v [] acc = acc
join_all s v (q ∷ qs) acc = join_all s (v + 1) qs (join s v q acc)

pub scan-join_all :
    (v : ℕ) (qs : List VenueQuote) (bid ask : Inside)
    → scan v qs bid ask ≡ (join_all buy v qs bid, join_all sell v qs ask)
unfolding scan join_all
scan-join_all v [] bid ask = refl
scan-join_all v (q ∷ qs) bid ask = scan-join_all (v + 1) qs (join buy v q bid) (join sell v q ask)

pub best-start : (s : Side) (worst : ℤ) (qs : List VenueQuote) → NoBetter s worst (best s worst qs)
unfolding best
best-start buy worst [] = omega arith
best-start sell worst [] = omega arith
best-start buy worst (q ∷ qs) = ground (arith, best-start buy worst qs)
best-start sell worst (q ∷ qs) = ground (arith, best-start sell worst qs)

pick_swap : (s : Side) (a b c : ℤ) → pick s (pick s a b) c ≡ pick s (pick s a c) b
pick_swap buy a b c = ground (arith, eq_of_parts b c)
pick_swap sell a b c = ground (arith, eq_of_parts b c)

pub best-pick :
    (s : Side) (w p : ℤ) (qs : List VenueQuote) → best s (pick s w p) qs ≡ pick s (best s w qs) p
unfolding best
best-pick s w p [] = refl
best-pick s w p (q ∷ qs) =
    ap (λ b. pick s b (tick s q)) (best-pick s w p qs) ∙ pick_swap s (best s w qs) p (tick s q)

-- A quote at the "no quote" price is passed over, since no price is worse.
pub price-join :
    (s : Side) (v : ℕ) (q : VenueQuote) (acc : Inside)
    → NoBetter s (absent s) acc.price
    → (join s v q acc).price ≡ pick s acc.price (tick s q)
unfolding join
price-join buy v q acc h = ground arith
price-join sell v q acc h = ground arith

pick-ge : (s : Side) (w a b : ℤ) → NoBetter s w a → NoBetter s w (pick s a b)
pick-ge buy w a b h = ground arith
pick-ge sell w a b h = ground arith

pub price-join-ge :
    (s : Side) (v : ℕ) (q : VenueQuote) (acc : Inside)
    → NoBetter s (absent s) acc.price
    → NoBetter s (absent s) (join s v q acc).price
price-join-ge s v q acc h =
    rw (price-join s v q acc h) (pick-ge s (absent s) acc.price (tick s q) h)

pub price-join_all :
    (s : Side) (v : ℕ) (qs : List VenueQuote) (acc : Inside)
    → NoBetter s (absent s) acc.price
    → (join_all s v qs acc).price ≡ best s acc.price qs
unfolding join_all best
price-join_all s v [] acc h = refl
price-join_all s v (q ∷ qs) acc h =
    price-join_all s (v + 1) qs (join s v q acc) (price-join-ge s v q acc h)
    ∙ ap (λ w. best s w qs) (price-join s v q acc h)
    ∙ best-pick s acc.price (tick s q) qs
