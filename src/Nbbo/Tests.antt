-- ===== src/Nbbo/Tests.antt =====
-- Runs of the consolidated quote on two venues.
use quant_finance_py.Prelude.{◌≡◌, refl, false, none, [], ◌∷◌}
use quant_finance_py.Prelude.Int.{pos}
use quant_finance_py.Execution.{buy, sell}
use quant_finance_py.Nbbo.{
  Nbbo, VenueQuote, nothing, no_quote, slot, store, join, scan, recompute, apply_quote, new,
  on_venue_quote,
}
use quant_finance_py.Nbbo.FastPath.{IsFresh, apply_quote-recompute}
use quant_finance_py.Nbbo.Feed.{new-IsFresh, on_venue_quote-IsFresh}

abbrev two_venues : Nbbo
two_venues = record {
  venues = no_quote ∷ no_quote ∷ [];
  bid = nothing buy;
  ask = nothing sell;
  listening = false;
  calls = [];
  update_count = 0;
  change_count = 0;
}

-- Venue 0 quotes 100 for 5 at 101 for 7.
abbrev opening : VenueQuote
opening = slot (pos 100) (pos 5) (pos 101) (pos 7)

abbrev quoted : Nbbo
quoted = (apply_quote two_venues 0 opening 1).0

quoted_inside : (quoted.bid.price ≡ pos 100) × (quoted.ask.shares ≡ 7)
unfolding apply_quote recompute scan join
quoted_inside = (refl, refl)

-- A quote off the inside takes the fast path.
behind : (apply_quote quoted 1 (slot (pos 99) (pos 3) (pos 102) (pos 3)) 2).1 ≡ false
unfolding apply_quote recompute scan join
behind = refl

no_such_venue : on_venue_quote two_venues 2 (pos 99) (pos 3) (pos 102) (pos 3) 1 ≡ none
unfolding on_venue_quote
no_such_venue = refl

on_venue_quote-IsFresh_example : IsFresh quoted
unfolding on_venue_quote
on_venue_quote-IsFresh_example =
    on_venue_quote-IsFresh two_venues quoted 0 (pos 100) (pos 5) (pos 101) (pos 7) 1
      (apply_quote two_venues 0 opening 1).1 (unfold new in new-IsFresh 2 two_venues refl) refl

quoted-IsFresh : IsFresh quoted
quoted-IsFresh =
    on_venue_quote-IsFresh two_venues quoted 0 (pos 100) (pos 5) (pos 101) (pos 7) 1
      (apply_quote two_venues 0 opening 1).1 (unfold new in new-IsFresh 2 two_venues refl)
      (unfold on_venue_quote in refl)

apply_quote-recompute_example :
    apply_quote quoted 1 (slot (pos 99) (pos 3) (pos 102) (pos 3)) 2
    ≡ recompute (store quoted 1 (slot (pos 99) (pos 3) (pos 102) (pos 3))) 2
apply_quote-recompute_example =
    apply_quote-recompute quoted 1 (slot (pos 99) (pos 3) (pos 102) (pos 3)) 2 quoted-IsFresh

abbrev halted : Nbbo
halted = (apply_quote quoted 0 no_quote 2).0
