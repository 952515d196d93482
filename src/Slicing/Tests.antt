-- ===== src/Slicing/Tests.antt =====
-- Schedules over whole numbers, with the indices sorted by insertion.
use quant_finance_py.Slicing.{any_negative}
use quant_finance_py.Prelude.Int.{◌-ℤ◌}
use quant_finance_py.Prelude.Int.{◌+ℤ◌}
use quant_finance_py.Prelude.{
  ℕ, suc, ◌+◌, ◌≤◌, ◌<◌, ◌≡◌, refl, ap, ◌∙◌, ◌^◌, none, some, List, [], ◌∷◌, map, if◌then◌else◌,
  length, arith, All, Bool-cases, inl, inr,
}
use quant_finance_py.Prelude.Int.{ℤ, pos, leb_ℤ}
use quant_finance_py.Prelude.Double.{whole}
use quant_finance_py.Slicing.{Slice, allocate_proportionally, to_slices, vwap}
use quant_finance_py.Slicing.Rounds.{sum_ℤ}
use quant_finance_py.Slicing.Allocation.{Sorts}
use quant_finance_py.Slicing.Schedules.{IsSchedule, to_slices-vwap}

abbrev insert : ℤ × ℕ → List (ℤ × ℕ) → List (ℤ × ℕ)
insert p [] = p ∷ []
insert p (q ∷ qs) = if leb_ℤ p.0 q.0 then p ∷ q ∷ qs else q ∷ insert p qs

abbrev sorted : ℕ → List ℤ → List (ℤ × ℕ)
sorted i [] = []
sorted i (x ∷ xs) = insert (x, i) (sorted (suc i) xs)

abbrev second_of : List (ℤ × ℕ) → List ℕ
second_of = map (λ (p : ℤ × ℕ). p.1)

abbrev argsort : List ℤ → List ℕ
argsort xs = second_of (sorted 0 xs)

length-insert :
    (p : ℤ × ℕ) (qs : List (ℤ × ℕ)) → length (second_of (insert p qs)) ≡ suc (length (second_of qs))
length-insert p [] = refl
length-insert p (q ∷ qs) = elim (Bool-cases (leb_ℤ p.0 q.0)) [
  | inl c ↦ rw c refl
  | inr c ↦ rw c (ap suc (length-insert p qs))
]

length-sorted : (i : ℕ) (xs : List ℤ) → length (second_of (sorted i xs)) ≡ length xs
length-sorted i [] = refl
length-sorted i (x ∷ xs) =
    length-insert (x, i) (sorted (suc i) xs) ∙ ap suc (length-sorted (suc i) xs)

All-insert :
    (n : ℕ) (p : ℤ × ℕ) (qs : List (ℤ × ℕ))
    → p.1 < n
    → All (λ i. i < n) (second_of qs)
    → All (λ i. i < n) (second_of (insert p qs))
All-insert n p [] h k = (h, tt)
All-insert n p (q ∷ qs) h k = elim (Bool-cases (leb_ℤ p.0 q.0)) [
  | inl c ↦ rw c (h, k)
  | inr c ↦ rw c (k.0, All-insert n p qs h k.1)
]

All-sorted :
    (n i : ℕ) (xs : List ℤ) → i + length xs ≤ n → All (λ j. j < n) (second_of (sorted i xs))
All-sorted n i [] h = tt
All-sorted n i (x ∷ xs) h =
    All-insert n (x, i) (sorted (suc i) xs) (omega arith) (All-sorted n (suc i) xs (omega arith))

argsort-Sorts : Sorts whole sum_ℤ argsort
argsort-Sorts xs = (length-sorted 0 xs, All-sorted (length xs) 0 xs (omega arith))

abbrev profile : List ℤ
profile = pos 3 ∷ pos 1 ∷ pos 3 ∷ []

dealt :
    allocate_proportionally whole sum_ℤ argsort (pos 10) profile ≡ some (pos 5 ∷ pos 1 ∷ pos 4 ∷ [])
unfolding allocate_proportionally ◌+ℤ◌ ◌-ℤ◌
dealt = refl

-- A total beyond 64 bits is refused.
too_much : allocate_proportionally whole sum_ℤ argsort (pos (2 ^ 63)) profile ≡ none
unfolding allocate_proportionally ◌+ℤ◌ ◌-ℤ◌
too_much = refl

to_slices-vwap_example :
    (ss : List Slice) × (to_slices whole sum_ℤ argsort (pos 10) (pos 3000) profile ≡ some ss)
    × (vwap whole sum_ℤ argsort (pos 10) profile (pos 3000) ≡ some ss)
    × IsSchedule whole sum_ℤ argsort 10 3000 3 ss
unfolding any_negative ◌+ℤ◌
to_slices-vwap_example =
    to_slices-vwap whole sum_ℤ argsort 10 3000 profile argsort-Sorts (omega arith) (omega arith)
      (omega arith) (omega arith) refl
      (inr (((refl, refl), ((refl, refl), ((refl, refl), tt))), omega arith))
