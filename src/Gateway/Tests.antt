-- ===== src/Gateway/Tests.antt =====
-- A gateway over whole numbers: two resting buys of symbol 7, of which a quote fills one.
use quant_finance_py.Gateway.{find_position}
use quant_finance_py.Prelude.Int.{◌+ℤ◌}
use quant_finance_py.Prelude.Int.{◌-ℤ◌}
use quant_finance_py.Prelude.{
  ℕ, zero, suc, ◌<◌, ◌||◌, true, ◌≡◌, refl, arith, Bool, false, Option, some, [], ◌∷◌,
}
use quant_finance_py.Prelude.Int.{ℤ, pos, negsuc, leb_ℤ}
use quant_finance_py.Prelude.Double.{whole, magnitude}
use quant_finance_py.Execution.{Side, buy, sell}
use quant_finance_py.Gateway.{
  OrderRequest, WorkingOrder, Gateway, is_new, filled, new, status, one_of, signed, position,
  equity,
}
use quant_finance_py.Gateway.Orders.{IsConsistent}
use quant_finance_py.Gateway.Safety.{quotes, limits, cancels, step, Call}
use quant_finance_py.Gateway.Returns.{Grows, Sized}
use quant_finance_py.Gateway.Liveness.{step-returns}
use quant_finance_py.Gateway.Lifecycle.{new-IsConsistent, step-IsConsistent, step_final}

-- Orders above 100 shares are refused.
abbrev limit_checker : Option (OrderRequest ℤ → ℤ → ℤ → Bool)
limit_checker = some (λ r mid held. leb_ℤ (pos r.quantity) (pos 100))

abbrev opening : Gateway ℤ
opening = new whole (pos 10000)

abbrev after : Gateway ℤ → Call whole (pos 0) limit_checker → Gateway ℤ
after g c = (step whole (pos 0) limit_checker g c).0

abbrev one_bid : Gateway ℤ
one_bid = after opening (limits 7 buy 10 (pos 50))

abbrev two_bids : Gateway ℤ
two_bids = after one_bid (limits 7 buy 20 (pos 48))

one_bid-IsConsistent : IsConsistent one_bid
unfolding step new position find_position ◌+ℤ◌
one_bid-IsConsistent =
    step-IsConsistent whole (pos 0) limit_checker opening (limits 7 buy 10 (pos 50))
      (new-IsConsistent whole (pos 0) limit_checker (pos 10000)) refl

two_bids-IsConsistent : IsConsistent two_bids
unfolding step new position find_position ◌+ℤ◌
two_bids-IsConsistent =
    step-IsConsistent whole (pos 0) limit_checker one_bid (limits 7 buy 20 (pos 48))
      one_bid-IsConsistent refl

grows_at :
    (q : ℤ) (s : Side) (n : ℕ)
    → 0 < n
    → (whole.same q (pos 0)
        || whole.same
            (one_of whole (whole.negative q))
            (one_of whole (whole.negative (signed whole s n))))
      ≡ true
    → whole.same (magnitude whole (q +ℤ signed whole s n)) (pos 0) ≡ false
unfolding ◌+ℤ◌
grows_at q s zero positive h = absurd (omega arith)
grows_at (pos m) buy (suc n) positive h = ground arith
grows_at (pos zero) sell (suc n) positive h = ground arith
grows_at (pos (suc m)) sell (suc n) positive h = ground arith
grows_at (negsuc m) buy (suc n) positive h = ground arith
grows_at (negsuc m) sell (suc n) positive h = ground arith

whole-Grows : Grows whole
whole-Grows p s n positive h = grows_at p.quantity s n positive h

abbrev quoted : Gateway ℤ
quoted = after two_bids (quotes 7 (pos 47) (pos 49))

-- The better bid is filled at the ask.
rests : quoted.resting ≡ 2 ∷ []
unfolding step new ◌+ℤ◌
rests = refl

paid_cash : quoted.account.cash ≡ pos 9510
unfolding step new ◌-ℤ◌ ◌+ℤ◌
paid_cash = refl

owns : position whole quoted 7 ≡ pos 10
unfolding position find_position step new ◌+ℤ◌
owns = refl

marked_equity : equity whole quoted ≡ pos 9990
unfolding equity step new ◌+ℤ◌ ◌-ℤ◌
marked_equity = refl

step-IsConsistent_example : IsConsistent quoted
unfolding step new position find_position ◌+ℤ◌ ◌-ℤ◌
step-IsConsistent_example =
    step-IsConsistent whole (pos 0) limit_checker two_bids (quotes 7 (pos 47) (pos 49))
      two_bids-IsConsistent refl

abbrev first : WorkingOrder ℤ
first = record {
  id = 1;
  symbol = 7;
  side = buy;
  quantity = 0;
  limit_price = pos 50;
  status = filled;
}

step_final_example : (after quoted (cancels 1)).orders 1 ≡ some first
unfolding step new ◌+ℤ◌
step_final_example =
    step_final whole (pos 0) limit_checker quoted (cancels 1) 1 first step-IsConsistent_example refl
      (λ e. cc)

abbrev second : WorkingOrder ℤ
second = record {
  id = 2;
  symbol = 7;
  side = buy;
  quantity = 20;
  limit_price = pos 48;
  status = is_new;
}

opening-Sized : Sized whole opening.orders
unfolding new
opening-Sized i o h alive = cc

one_bid-Sized : Sized whole one_bid.orders
unfolding new position find_position ◌+ℤ◌
one_bid-Sized =
    (step-returns whole (pos 0) limit_checker opening (limits 7 buy 10 (pos 50)) whole-Grows
      (new-IsConsistent whole (pos 0) limit_checker (pos 10000)) opening-Sized
      ((omega arith, refl), refl)).1

step-returns_example :
    ((step whole (pos 0) limit_checker one_bid (limits 7 sell 20 (pos 48))).1 ≡ true)
    × Sized whole (after one_bid (limits 7 sell 20 (pos 48))).orders
step-returns_example =
    step-returns whole (pos 0) limit_checker one_bid (limits 7 sell 20 (pos 48)) whole-Grows
      one_bid-IsConsistent one_bid-Sized ((omega arith, refl), refl)

-- An order for no shares that is filled on a flat position raises: it stays new and does not rest.
abbrev asked_eight : Gateway ℤ
asked_eight = after quoted (quotes 8 (pos 4) (pos 5))

abbrev no_size : Gateway ℤ × Bool
no_size = step whole (pos 0) limit_checker asked_eight (limits 8 buy 0 (pos 5))

no_size_raises :
    (no_size.1 ≡ false) × (status no_size.0 3 ≡ some is_new) × (no_size.0.resting ≡ 2 ∷ [])
unfolding step new status ◌+ℤ◌ ◌-ℤ◌
no_size_raises = (refl, refl, refl)
