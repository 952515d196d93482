-- ===== src/Scorecard/Tests.antt =====
-- A card of two venues over whole numbers.
use quant_finance_py.Prelude.{
  ℕ, ◌+◌, ◌*◌, ◌/◌, ◌%◌, ◌==◌, if◌then◌else◌, ◌≡◌, refl, true, none, some, List, [], ◌∷◌, ◌++◌,
  arith,
}
use quant_finance_py.Prelude.Int.{ℤ, pos, negsuc, ◌+ℤ◌, ◌-ℤ◌}
use quant_finance_py.Prelude.Double.{whole}
use quant_finance_py.Scorecard.{
  VenueScorecard, empty_card, new_card, on_fill, on_mid, mature_from, write_state, read_state,
}
use quant_finance_py.Scorecard.State.{restored, read_state-write_state}
use quant_finance_py.Scorecard.Pending.{IsCounted}
use quant_finance_py.Scorecard.Events.{Event, filled, run, run-IsCounted, on_mid-mature_from}

abbrev card : VenueScorecard ℤ
card = empty_card whole 2 (pos 1) (pos 1) (pos 100)

abbrev armed_card : VenueScorecard ℤ
armed_card = record card {
  sent = pos 1 ∷ pos 0 ∷ [];
  filled = pos 1 ∷ pos 0 ∷ [];
  fill_rate_ewma = pos 1 ∷ pos 0 ∷ [];
  latency_nanos_ewma = pos 7 ∷ pos 0 ∷ [];
  pending_side = pos 1 ∷ pos 0 ∷ pos 0 ∷ pos 0 ∷ pos 0 ∷ pos 0 ∷ pos 0 ∷ pos 0 ∷ [];
  pending_mid = pos 50 ∷ pos 0 ∷ pos 0 ∷ pos 0 ∷ pos 0 ∷ pos 0 ∷ pos 0 ∷ pos 0 ∷ [];
  pending_ts = pos 10 ∷ pos 0 ∷ pos 0 ∷ pos 0 ∷ pos 0 ∷ pos 0 ∷ pos 0 ∷ pos 0 ∷ [];
  pending_cursor = 1 ∷ 0 ∷ [];
  pending_count = pos 1;
}

abbrev fills : List (Event ℤ)
fills =
    filled 0 (pos 7) (some (record { buy = true; mid_at_fill = pos 50; timestamp_nanos = pos 10 }))
    ∷ []

filled_once : run whole fills card ≡ some armed_card
unfolding on_fill ◌+ℤ◌ ◌-ℤ◌
filled_once = refl

run-IsCounted_example : IsCounted armed_card
unfolding new_card
run-IsCounted_example =
    run-IsCounted whole 2 (pos 1) (pos 1) (pos 100) fills card armed_card refl filled_once

on_mid-mature_from_example :
    on_mid whole (pos 60) (pos 200) card ≡ mature_from whole (pos 60) (pos 200) 0 8 card
on_mid-mature_from_example = on_mid-mature_from whole (pos 60) (pos 200) card refl refl refl refl

abbrev bits : ℤ → ℕ
bits (pos n) = n * 2
bits (negsuc n) = n * 2 + 1

abbrev of_bits : ℕ → ℤ
of_bits n = if n % 2 == 0 then pos (n / 2) else negsuc (n / 2)

exact : (x : ℤ) → of_bits (bits x) ≡ x
exact (pos n) = ground arith
exact (negsuc n) = ground arith

abbrev learned : VenueScorecard ℤ
learned = record (empty_card whole 1 (pos 1) (pos 1) (pos 100)) {
  sent = pos 300 ∷ [];
  latency_nanos_ewma = negsuc 6 ∷ [];
  matured_fill_markouts = pos 5;
}

abbrev bytes : List ℕ
bytes = elim (write_state whole bits of_bits learned (b'x' ∷ [])) [ none ↦ [] | some b ↦ b ]

read_state-write_state_example :
    (r0 : List ℕ) × (bytes ++ (b'y' ∷ []) ≡ (b'x' ∷ []) ++ r0)
    × (read_state whole bits of_bits (empty_card whole 1 (pos 2) (pos 1) (pos 50)) r0
        ≡ some (restored learned (empty_card whole 1 (pos 2) (pos 1) (pos 50)), b'y' ∷ []))
unfolding write_state
read_state-write_state_example =
    read_state-write_state whole bits of_bits exact learned
      (empty_card whole 1 (pos 2) (pos 1) (pos 50)) (b'x' ∷ []) bytes (b'y' ∷ [])
      (record {
        size_sent = refl;
        size_filled = refl;
        size_probes = refl;
        size_rates = refl;
        size_latencies = refl;
        size_hidden = refl;
        size_markouts = refl;
        size_counts = refl;
      })
      refl refl
