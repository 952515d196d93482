-- ===== src/Slicing/Schedules.antt =====
-- src/quantfinlib/execution/{twap_scheduler,vwap_scheduler}.py: the slices of a schedule.
use quant_finance_py.Prelude.{
  ℕ, suc, ◌+◌, ◌*◌, ◌/◌, ◌≤◌, ◌<◌, ◌≡◌, refl, ap, subst, ◌∙◌, false, ◌||◌, some, List, [], ◌∷◌,
  ◌==◌, ltb, length, arith,
}
use native.Mathlib.Nat.{le-div_iff_mul-le, div-mul-le_self, mul-div_cancel, mul-le-mul_left}
use quant_finance_py.Prelude.Int.{ℤ, pos, ◌+ℤ◌, ltb_ℤ, leb_ℤ}
use quant_finance_py.Prelude.Double.{Double}
use quant_finance_py.Slicing.{
  Slice, max_duration_millis, check_duration, slices, any_negative, vwap, to_slices,
}
use quant_finance_py.Slicing.Rounds.{sum_ℤ, largest}
use quant_finance_py.Slicing.Allocation.{Sorts, IsWithinTotal, allocate_proportionally-total}

abbrev pub total_quantity : List Slice → ℤ
total_quantity [] = pos 0
total_quantity (s ∷ ss) = s.quantity +ℤ total_quantity ss

-- The offsets do not go back, and none is past the end.
abbrev pub IsPaced : ℕ → ℕ → List Slice → Type 0
IsPaced last start [] = Unit
IsPaced last start (s ∷ ss) =
    (start ≤ s.offset_millis) × (s.offset_millis ≤ last) × IsPaced last s.offset_millis ss

div_mono : (a b n : ℕ) → 0 < n → a ≤ b → a / n ≤ b / n
div_mono a b n p h = (le-div_iff_mul-le p).1 (let low = div-mul-le_self a n in omega arith)

share_mono : (duration n i j : ℕ) → 0 < n → i ≤ j → duration * i / n ≤ duration * j / n
share_mono duration n i j p h =
    div_mono (duration * i) (duration * j) n p (mul-le-mul_left duration h)

slices-total : (duration n i : ℕ) (qs : List ℤ) → total_quantity (slices duration n i qs) ≡ sum_ℤ qs
unfolding slices
slices-total duration n i [] = refl
slices-total duration n i (q ∷ qs) = ap (λ s. q +ℤ s) (slices-total duration n (suc i) qs)

length-slices : (duration n i : ℕ) (qs : List ℤ) → length (slices duration n i qs) ≡ length qs
unfolding slices
length-slices duration n i [] = refl
length-slices duration n i (q ∷ qs) = ap suc (length-slices duration n (suc i) qs)

slices-IsPaced :
    (duration n i start : ℕ) (qs : List ℤ)
    → 0 < n
    → i + length qs ≤ n
    → start ≤ duration * i / n
    → IsPaced duration start (slices duration n i qs)
unfolding slices
slices-IsPaced duration n i start [] p h k = tt
slices-IsPaced duration n i start (q ∷ qs) p h k = (
  k,
  subst (λ top. duration * i / n ≤ top) (mul-div_cancel duration p)
      (share_mono duration n i n p (omega arith)),
  slices-IsPaced duration n (suc i) (duration * i / n) qs p (omega arith)
      (share_mono duration n i (suc i) p (omega arith)),
)

check_duration_in_range :
    (duration : ℕ) (n : ℕ)
    → 0 < n
    → duration ≤ max_duration_millis / n
    → check_duration (pos duration) n ≡ some duration
unfolding check_duration
check_duration_in_range duration n p h =
    let slots : (n == 0) ≡ false = ground arith in
    let short : ltb (max_duration_millis / n) duration ≡ false = ground arith in
    let forward : ltb_ℤ (pos duration) (pos 0) ≡ false = ground arith in rw (forward, slots, short)

module _ (d : Double) (sum : List (d.Num) → d.Num) (argsort : List (d.Num) → List ℕ) where
  open d use {Num}

  abbrev pub IsSchedule : ℕ → ℕ → ℕ → List Slice → Type 0
  IsSchedule total duration n ss =
      (total_quantity ss ≡ pos total) × (length ss ≡ n) × IsPaced duration 0 ss

  -- For a positive total within 64 bits, a duration in range and weights of which none is negative,
  -- and whose shares are finite, not negative and rounded down do not exceed the total, both
  -- schedulers give the same slices: one for each weight, whose quantities add up to the total, at
  -- offsets that do not go back and stay within the duration. Without any weight the shares do not
  -- matter.
  pub to_slices-vwap :
      (total duration : ℕ) (ws : List Num)
      → Sorts d sum argsort
      → 0 < length ws
      → 0 < total
      → total ≤ largest
      → duration ≤ max_duration_millis / length ws
      → any_negative d sum argsort ws ≡ false
      → IsWithinTotal d sum argsort (pos total) ws
      → (ss : List Slice) × (to_slices d sum argsort (pos total) (pos duration) ws ≡ some ss)
        × (vwap d sum argsort (pos total) ws (pos duration) ≡ some ss)
        × IsSchedule total duration (length ws) ss
  unfolding to_slices vwap
  to_slices-vwap total duration ws sorts filled positive fits short fine within =
      let (out, made, all, size) =
        allocate_proportionally-total d sum argsort total ws sorts filled fits fine within in
      let go : ((length ws == 0) || leb_ℤ (pos total) (pos 0)) ≡ false = ground arith in
      let checked = check_duration_in_range duration (length ws) filled short in
      (
        slices duration (length ws) 0 out,
        rw (go, checked, made),
        rw (go, checked, made),
        (
          slices-total duration (length ws) 0 out ∙ all,
          length-slices duration (length ws) 0 out ∙ size,
          slices-IsPaced duration (length ws) 0 0 out filled (omega arith) (omega arith),
        ),
      )
