-- ===== src/Iceberg/Tests.antt =====
-- An order of 10 that shows 4 at a time, and one whose tranches are jittered.
use quant_finance_py.Prelude.{
  ℕ, zero, suc, ◌+◌, ◌-◌, ◌≡◌, refl, arith, true, false, none, some, [], ◌∷◌,
}
use quant_finance_py.Prelude.Int.{ℤ, pos, negsuc}
use quant_finance_py.Iceberg.{IcebergOrder, is_complete, on_fill, fills}
use quant_finance_py.Iceberg.Laws.{IsWorking, sweep, fills-remaining, sweep-is_complete}

-- The jittered sizes 6, 3, ... of which a negative one shows as 1.
abbrev rounded : ℕ → ℕ → ℤ
rounded d zero = pos (d + 2)
rounded d (suc zero) = pos (d - 1)
rounded d (suc (suc k)) = negsuc 0

abbrev order : IcebergOrder
order = record { display = 4; jittered = false; draws = 0; remaining = 10; visible = 4 }

abbrev jittered_order : IcebergOrder
jittered_order = record { display = 4; jittered = true; draws = 1; remaining = 10; visible = 6 }

order-IsWorking : IsWorking order
order-IsWorking = record { sized = omega arith; within = omega arith; shown = omega arith }

jittered-IsWorking : IsWorking jittered_order
jittered-IsWorking = record { sized = omega arith; within = omega arith; shown = omega arith }

too_much : on_fill rounded order 5 ≡ none
unfolding on_fill
too_much = refl

fills-remaining_example :
    IsWorking (record { display = 4; jittered = false; draws = 0; remaining = 5; visible = 3 })
    × (5 + 5 ≡ 10)
unfolding fills
fills-remaining_example =
    fills-remaining rounded order
      (record { display = 4; jittered = false; draws = 0; remaining = 5; visible = 3 }) (4 ∷ 1 ∷ [])
      order-IsWorking refl

sweep-is_complete_example :
    (o : IcebergOrder) × (sweep rounded 10 jittered_order ≡ some o) × (is_complete o ≡ true)
sweep-is_complete_example =
    sweep-is_complete rounded 10 jittered_order jittered-IsWorking (omega arith)
