-- ===== src/Pov/Tests.antt =====
-- A tracker over whole numbers that takes all of the market's volume, in slices of 10 to 50.
use quant_finance_py.Prelude.Int.{◌-ℤ◌}
use quant_finance_py.Prelude.{◌≡◌, ◌⊎◌, refl, arith, List, [], ◌∷◌}
use quant_finance_py.Prelude.Int.{ℤ, pos, ◌≤ℤ◌}
use quant_finance_py.Prelude.Double.{whole}
use quant_finance_py.Pov.{PovTracker, fresh, new, due_quantity}
use quant_finance_py.Pov.Bounds.{IsDue, Call, volume, fill_due, due_quantity-IsDue, run, run-new}

abbrev tracker : PovTracker ℤ
tracker = fresh whole 100 (pos 1) 10 50

abbrev calls : List Call
calls = volume (pos 70) ∷ fill_due 80 ∷ volume (pos 200) ∷ fill_due 30 ∷ fill_due 30 ∷ []

sent : (run whole tracker calls).executed ≡ 100
unfolding run ◌-ℤ◌
sent = refl

abbrev busy : PovTracker ℤ
busy = record tracker { market_volume = 70 }

due : due_quantity whole busy ≡ 50
unfolding due_quantity ◌-ℤ◌
due = refl

due_quantity-IsDue_example :
    (due_quantity whole busy ≡ 0) ⊎ IsDue whole busy (due_quantity whole busy)
due_quantity-IsDue_example =
    due_quantity-IsDue whole busy (record { most = omega arith; order = omega arith })

run-new_example : pos (run whole tracker calls).executed ≤ℤ pos 100
unfolding new
run-new_example = run-new whole (pos 100) (pos 1) (pos 10) (pos 50) tracker calls refl
