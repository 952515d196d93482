-- ===== src/LastLook/Tests.antt =====
-- A gate over whole numbers with a tolerance of 2.
use quant_finance_py.Prelude.Int.{◌-ℤ◌}
use quant_finance_py.LastLook.{accept}
use quant_finance_py.Prelude.{◌+◌, ◌≡◌, refl, true, false, List, [], ◌∷◌, map, length}
use quant_finance_py.Prelude.Int.{ℤ, pos}
use quant_finance_py.Prelude.Double.{whole}
use quant_finance_py.LastLook.{LastLookGate, fresh, new}
use quant_finance_py.LastLook.Decisions.{Request, count_of, decide, within, decide-new}

abbrev gate : LastLookGate ℤ
gate = fresh whole (pos 2)

abbrev request : ℤ → ℤ → Request ℤ
request quoted fair = record { maker_sells = true; quoted_price = quoted; current_fair = fair }

abbrev requests : List (Request ℤ)
requests =
    request (pos 100) (pos 101) ∷ request (pos 100) (pos 103) ∷ request (pos 100) (pos 97) ∷ []

answers : (decide whole gate requests).1 ≡ true ∷ false ∷ false ∷ []
unfolding decide accept ◌-ℤ◌
answers = refl

decide-new_example :
    let r = decide whole gate requests in
    (r.1 ≡ map (within whole (pos 2)) requests)
    × (r.0.accepts ≡ count_of (λ b. b) r.1)
    × (r.0.accepts + r.0.rejects ≡ length requests)
    × (r.0.maker_protective_rejects + r.0.taker_protective_rejects ≡ r.0.rejects)
unfolding new
decide-new_example = decide-new whole (pos 2) gate requests refl
