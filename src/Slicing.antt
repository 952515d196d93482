-- ===== src/Slicing.antt =====
-- src/quantfinlib/execution/{slice,twap_scheduler,vwap_scheduler}.py: schedules of child orders.
-- numpy's sum of an array and its stable argsort are parameters, and so are the random draws of a
-- jittered schedule. The entries of `out` and the sum `allocated` are numpy's 64-bit integers, whose
-- arithmetic wraps around; `math.floor` of a share that is not finite raises, as `int` of it does. A
-- total beyond 64 bits is refused, also where its shares would fit.
pub mod Rounds
pub mod Allocation
pub mod Schedules
mod Tests
use quant_finance_py.Prelude.{
  ℕ, zero, suc, ◌+◌, ◌-◌, ◌*◌, ◌/◌, ◌%◌, ◌^◌, Bool, true, false, not, ◌&&◌, ◌||◌, Option, none,
  some, List, [], ◌∷◌, map, ◌==◌, ltb, if◌then◌else◌, length, get_elem?, set, replicate,
}
use quant_finance_py.Prelude.Int.{ℤ, pos, negsuc, pos_part, neg_ℕ, ◌+ℤ◌, ◌-ℤ◌, ltb_ℤ, leb_ℤ}
use quant_finance_py.Prelude.Maybe.{◌>>=◌, require}
use quant_finance_py.Prelude.Double.{Double}

pub record Slice : Type 0 where
  pub offset_millis : ℕ
  pub quantity : ℤ

abbrev pub max_duration_millis : ℕ
max_duration_millis = 2 ^ 63 - 1

-- The duration that `_check_duration` lets pass.
unfoldable pub check_duration : ℤ → ℕ → Option ℕ
check_duration duration n =
    if ltb_ℤ duration (pos 0) || ((n == 0) || ltb (max_duration_millis / n) (pos_part duration))
    then none
    else some (pos_part duration)

-- Slice `i` of a list of quantities, from slice `i` on.
unfoldable pub slices : ℕ → ℕ → ℕ → List ℤ → List Slice
slices duration n i [] = []
slices duration n i (q ∷ qs) =
    record { offset_millis = duration * i / n; quantity = q } ∷ slices duration n (suc i) qs

-- What an entry of an int64 array can hold: storing anything else raises.
abbrev pub fits_entry : ℤ → Bool
fits_entry x = leb_ℤ (neg_ℕ (2 ^ 63)) x && leb_ℤ x (pos (2 ^ 63 - 1))

abbrev pub low_bits : ℤ → ℕ
low_bits (pos n) = n % 2 ^ 64
low_bits (negsuc n) = 2 ^ 64 - 1 - n % 2 ^ 64

-- The int64 with the low 64 bits of an integer.
unfoldable pub wrapped : ℤ → ℤ
wrapped x = let low = low_bits x in if ltb low (2 ^ 63) then pos low else neg_ℕ (2 ^ 64 - low)

-- `out[i] += 1`; an index past the end raises.
unfoldable pub bump : List ℤ → ℕ → Option (List ℤ)
unfolding wrapped
bump out i = elim (get_elem? out i) [
  | none ↦ none
  | some v ↦ some (set out i (wrapped (v +ℤ pos 1)))
]

-- The loop that deals out the remainder: `left` rounds from round `k` on.
unfoldable pub deal : List ℕ → ℕ → ℕ → List ℤ → Option (List ℤ)
unfolding bump
deal order zero k out = some out
deal order (suc left) k out = elim (get_elem? order (k % length out)) [
  | none ↦ none
  | some i ↦ (do out' ← bump out i; deal order left (suc k) out')
]

-- `allocated`, from a sum so far.
unfoldable pub allocated : ℤ → List ℤ → ℤ
unfolding wrapped
allocated acc [] = acc
allocated acc (x ∷ xs) = allocated (wrapped (acc +ℤ x)) xs

module _ (d : Double) (sum : List (d.Num) → d.Num) (argsort : List (d.Num) → List ℕ) where
  open d use {Num, of_ℤ, negate, plus, minus, times, over, less, same, finite, floor}

  unfoldable pub any_negative : List Num → Bool
  any_negative [] = false
  any_negative (w ∷ ws) = less w (of_ℤ (pos 0)) || any_negative ws

  abbrev pub raw : ℤ → Num → Num → Num
  raw total total_weight w = over (times (of_ℤ total) w) total_weight

  -- `out[i] = int(np.floor(raw))`, for every weight.
  unfoldable pub floors : ℤ → Num → List Num → Option (List ℤ)
  floors total total_weight [] = some []
  floors total total_weight (w ∷ ws) =
      let share = raw total total_weight w in
      let rest = floors total total_weight ws in
      if finite share && fits_entry (floor share)
      then (do out ← rest; some (floor share ∷ out))
      else none

  abbrev pub fractions : ℤ → Num → List Num → List Num
  fractions total total_weight =
      map (λ w. minus (raw total total_weight w) (of_ℤ (floor (raw total total_weight w))))

  -- A negative remainder deals nothing.
  unfoldable pub allocate_proportionally : ℤ → List Num → Option (List ℤ)
  unfolding any_negative floors wrapped allocated deal
  allocate_proportionally total ws =
      let total_weight = sum ws in
      if any_negative ws || not (fits_entry total)
      then none
      else if same total_weight (of_ℤ (pos 0))
      then (if length ws == 0 then none else some (set (replicate (length ws) (pos 0)) 0 total))
      else (do
        out ← floors total total_weight ws
        deal (argsort (map negate (fractions total total_weight ws)))
            (pos_part (wrapped (total -ℤ allocated (pos 0) out))) 0 out)

  -- `schedule` of vwap_scheduler.py.
  unfoldable pub vwap : ℤ → List Num → ℤ → Option (List Slice)
  unfolding check_duration slices allocate_proportionally
  vwap total profile duration = if (length profile == 0) || leb_ℤ total (pos 0) then none else (do
    millis ← check_duration duration (length profile)
    quantities ← allocate_proportionally total profile
    some (slices millis (length profile) 0 quantities))

  -- `_to_slices`, `schedule` and `schedule_randomized` of twap_scheduler.py.
  unfoldable pub to_slices : ℤ → ℤ → List Num → Option (List Slice)
  unfolding check_duration slices allocate_proportionally
  to_slices total duration weights =
      if (length weights == 0) || leb_ℤ total (pos 0) then none else (do
        millis ← check_duration duration (length weights)
        quantities ← allocate_proportionally total weights
        some (slices millis (length weights) 0 quantities))

  unfoldable pub twap : ℤ → ℤ → ℕ → Option (List Slice)
  unfolding to_slices
  twap total duration num_slices = to_slices total duration (replicate num_slices (of_ℤ (pos 1)))

  abbrev pub jittered : Num → Num → Num
  jittered jitter_pct draw =
      plus (of_ℤ (pos 1)) (times jitter_pct (minus (times (of_ℤ (pos 2)) draw) (of_ℤ (pos 1))))

  unfoldable pub schedule_randomized : ℤ → ℤ → Num → List Num → Option (List Slice)
  unfolding to_slices
  schedule_randomized total duration jitter_pct draws =
      to_slices total duration (map (jittered jitter_pct) draws)
