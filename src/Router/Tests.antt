-- ===== src/Router/Tests.antt =====
-- Three venues, of which the second charges a fee and the third is down.
use quant_finance_py.Prelude.{ℕ, ◌≤◌, ◌≡◌, refl, arith, [], ◌∷◌, All, map}
use quant_finance_py.Prelude.Int.{ℤ, pos, ◌+ℤ◌}
use quant_finance_py.Prelude.Double.{whole}
use quant_finance_py.Execution.{buy}
use quant_finance_py.Router.{Venue, HftSor, sz, no_bid, no_ask, route}
use quant_finance_py.Router.Sweep.{routed, Offers, IsWithin}
use quant_finance_py.Router.Laws.{route-routed, route-IsWithin, route_exhausts}

abbrev venue : ℤ → ℕ → ℤ → Venue ℤ
venue ask shares fee = record {
  bid_tick = no_bid;
  bid_size = 0;
  ask_tick = ask;
  ask_size = shares;
  fee_ticks = fee;
}

abbrev router : HftSor ℤ
router = record {
  venues = venue (pos 101) 40 (pos 0) ∷ venue (pos 100) 30 (pos 3) ∷ venue no_ask 0 (pos 0) ∷ [];
  route_count = 0;
}

-- The first venue is cheaper after fees.
swept : map (λ (p : Venue ℤ × ℕ). p.1) (route whole router buy 50 (pos 105)).1 ≡ 40 ∷ 10 ∷ 0 ∷ []
unfolding route ◌+ℤ◌
swept = refl

short : (route whole router buy 90 (pos 105)).2 ≡ 70
unfolding route ◌+ℤ◌
short = refl

route-routed_example :
    (routed (route whole router buy 50 (pos 105)).1 ≡ (route whole router buy 50 (pos 105)).2)
    × ((route whole router buy 50 (pos 105)).2 ≤ 50)
    × (map (λ (p : Venue ℤ × ℕ). p.0) (route whole router buy 50 (pos 105)).1 ≡ router.venues)
route-routed_example = route-routed whole buy (pos 105) router 50

route-IsWithin_example : All (IsWithin buy (pos 105)) (route whole router buy 50 (pos 105)).1
route-IsWithin_example = route-IsWithin whole buy (pos 105) router 50

route_exhausts_example :
    All
      (λ (p : Venue ℤ × ℕ). Offers buy (pos 105) p.0 → p.1 ≡ sz buy p.0)
      (route whole router buy 90 (pos 105)).1
unfolding route ◌+ℤ◌
route_exhausts_example = route_exhausts whole buy (pos 105) router 90 (omega arith)
