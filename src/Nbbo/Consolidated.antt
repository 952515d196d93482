-- ===== src/Nbbo/Consolidated.antt =====
-- src/quantfinlib/marketdata/nbbo.py: the consolidated quote, described without the loop.
use quant_finance_py.Prelude.{
  ℕ, zero, suc, ◌≡◌, ap, ◌∙◌, sym, true, false, not, ◌&&◌, List, [], ◌∷◌, arith, if◌then◌else◌,
  get_elem?, some, Bool-cases, inl, inr,
}
use quant_finance_py.Prelude.Int.{ℤ, ◌==ℤ◌}
use quant_finance_py.Execution.{Side, buy, sell}
use quant_finance_py.Nbbo.{VenueQuote, Inside, tick, absent, nothing}
use quant_finance_py.Nbbo.Join.{NoBetter, best, size_at, shows, join_all, price-join_all}
use quant_finance_py.Nbbo.Scan.{held-join_all, marks-join_all, shows_from-shows, join_all-nothing}

-- The consolidated side, described without the loop: the best price, and if there is one, all
-- the size shown there and the venues that show it.
unfoldable pub consolidated : Side → List VenueQuote → Inside
consolidated s qs =
    let p = best s (absent s) qs in
    if p ==ℤ absent s
    then nothing s
    else record { price = p; shares = size_at s p qs; venue_bits = shows s p qs }

NoBetter-refl : (s : Side) (a : ℤ) → NoBetter s a a
NoBetter-refl buy a = omega arith
NoBetter-refl sell a = omega arith

module _ (s : Side) (qs : List VenueQuote) where
  abbrev scanned : Inside
  scanned = join_all s 0 qs (nothing s)

  abbrev top : ℤ
  top = best s (absent s) qs

  scanned-price : scanned.price ≡ top
  scanned-price = price-join_all s 0 qs (nothing s) (NoBetter-refl s (absent s))

  module _ (present : (top ==ℤ absent s) ≡ false) where
    scanned-shares : scanned.shares ≡ size_at s top qs
    scanned-shares =
        let h =
          held-join_all s 0 qs (nothing s) top (NoBetter-refl s (absent s)) (NoBetter-refl s top)
            present in
        ground (arith, h, scanned-price)

    scanned-bits : (u : ℕ) → scanned.venue_bits u ≡ shows s top qs u
    scanned-bits u =
        let h =
          marks-join_all s 0 qs (nothing s) top u (NoBetter-refl s (absent s)) (NoBetter-refl s top)
            present in
        ground (arith, h, scanned-price, shows_from-shows s top 0 qs u u)

NoBetter-of_eq : (s : Side) (a b : ℤ) → (a ==ℤ b) ≡ true → NoBetter s a b
NoBetter-of_eq buy a b h = ground arith
NoBetter-of_eq sell a b h = ground arith

-- The loop of `_recompute` computes the consolidated side.
pub join_all-consolidated :
    (s : Side) (qs : List VenueQuote) → join_all s 0 qs (nothing s) ≡ consolidated s qs
unfolding consolidated
join_all-consolidated s qs = elim (Bool-cases (top s qs ==ℤ absent s)) [
  | inl e ↦ rw e (join_all-nothing s 0 qs (NoBetter-of_eq s _ _ e))
  | inr e ↦ rw e (λ i. record {
    price = scanned-price s qs i;
    shares = scanned-shares s qs e i;
    venue_bits = λ u. scanned-bits s qs e u i;
  })
]

pub best-elem :
    (s : Side) (w : ℤ) (qs : List VenueQuote) (u : ℕ) (q : VenueQuote)
    → get_elem? qs u ≡ some q
    → NoBetter s (tick s q) (best s w qs)
unfolding best
best-elem s w [] u q h = cc
best-elem buy w (r ∷ qs) zero q h = ground arith
best-elem sell w (r ∷ qs) zero q h = ground arith
best-elem buy w (r ∷ qs) (suc u) q h = ground (arith, best-elem buy w qs u q h)
best-elem sell w (r ∷ qs) (suc u) q h = ground (arith, best-elem sell w qs u q h)

pub shows-elem :
    (s : Side) (p : ℤ) (qs : List VenueQuote) (u : ℕ) (q : VenueQuote)
    → get_elem? qs u ≡ some q
    → shows s p qs u ≡ (tick s q ==ℤ p)
unfolding shows
shows-elem s p [] u q h = cc
shows-elem s p (r ∷ qs) zero q h = ground arith
shows-elem s p (r ∷ qs) (suc u) q h = shows-elem s p qs u q h

pub price-consolidated :
    (s : Side) (qs : List VenueQuote) → (consolidated s qs).price ≡ best s (absent s) qs
price-consolidated s qs =
    ap (λ (a : Inside). a.price) (sym (join_all-consolidated s qs)) ∙ scanned-price s qs

pub bits-consolidated :
    (s : Side) (qs : List VenueQuote) (u : ℕ)
    → (consolidated s qs).venue_bits u
      ≡ (not (best s (absent s) qs ==ℤ absent s) && shows s (best s (absent s) qs) qs u)
unfolding consolidated
bits-consolidated s qs u = elim (Bool-cases (best s (absent s) qs ==ℤ absent s)) [
  | inl e ↦ rw e
  | inr e ↦ rw e
]
