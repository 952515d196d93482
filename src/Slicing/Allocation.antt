-- ===== src/Slicing/Allocation.antt =====
-- src/quantfinlib/execution/vwap_scheduler.py: `allocate_proportionally` gives away the whole
-- total.
use quant_finance_py.Prelude.{
  ℕ, zero, suc, ◌+◌, ◌≤◌, ◌<◌, ◌≡◌, ◌⊎◌, inl, inr, refl, ap, sym, subst, ◌∙◌, true, false, some,
  List, [], ◌∷◌, map, ◌==◌, length, set, replicate, length-replicate, arith, Bool-cases, All,
}
use quant_finance_py.Prelude.Int.{ℤ, pos, pos_part, ◌+ℤ◌, ◌-ℤ◌, int_laws, ◌≤ℤ◌}
use quant_finance_py.Prelude.Double.{Double}
use quant_finance_py.Slicing.{
  wrapped, allocated, raw, floors, fractions, any_negative, allocate_proportionally,
}
use quant_finance_py.Slicing.Rounds.{
  sum_ℤ, largest, IsNatural, wrapped_small, fits_small, IsNatural-plus, IsNatural-minus,
  sum-IsNatural, allocated-sum, IsOrder, deal-sum,
}

sum-zeros : (n : ℕ) → sum_ℤ (replicate n (pos 0)) ≡ pos 0
sum-zeros zero = refl
sum-zeros (suc n) = ap (λ s. pos 0 +ℤ s) (sum-zeros n) ∙ omega int_laws

length-map {ℓ κ} :
    {A : Type ℓ} {B : Type κ} (f : A → B) (xs : List A) → length (map f xs) ≡ length xs
length-map f [] = refl
length-map f (x ∷ xs) = ap suc (length-map f xs)

-- Without weight everything goes to the first entry.
first_only :
    (n : ℕ) (total : ℤ)
    → 0 < n
    → (sum_ℤ (set (replicate n (pos 0)) 0 total) ≡ total)
      × (length (set (replicate n (pos 0)) 0 total) ≡ n)
first_only zero total h = absurd (omega arith)
first_only (suc n) total h =
    (ap (λ s. total +ℤ s) (sum-zeros n) ∙ omega int_laws, ap suc (length-replicate n (pos 0)))

module _ (d : Double) (sum : List (d.Num) → d.Num) (argsort : List (d.Num) → List ℕ) where
  open d use {Num, of_ℤ, negate, same, finite, floor}

  -- numpy sorts an array's indices.
  abbrev pub Sorts : Type 0
  Sorts = (xs : List Num) → IsOrder (length xs) (argsort xs)

  -- A share is finite and its floor is not negative.
  abbrev pub IsShare : ℤ → Num → Num → Type 0
  IsShare total total_weight w =
      (finite (raw d sum argsort total total_weight w) ≡ true)
      × IsNatural (floor (raw d sum argsort total total_weight w))

  abbrev pub rounded_shares : ℤ → Num → List Num → List ℤ
  rounded_shares total total_weight = map (λ w. floor (raw d sum argsort total total_weight w))

  -- The shares are finite and not negative, and rounded down they do not exceed the total, if there
  -- is weight.
  abbrev pub IsWithinTotal : ℤ → List Num → Type 0
  IsWithinTotal total ws =
      (same (sum ws) (of_ℤ (pos 0)) ≡ true)
      ⊎ (All (IsShare total (sum ws)) ws × (sum_ℤ (rounded_shares total (sum ws) ws) ≤ℤ total))

  rounded_shares-IsNatural :
      (total : ℤ) (tw : Num) (ws : List Num)
      → All (IsShare total tw) ws
      → All IsNatural (rounded_shares total tw ws)
  rounded_shares-IsNatural total tw [] h = tt
  rounded_shares-IsNatural total tw (w ∷ ws) h = (h.0.1, rounded_shares-IsNatural total tw ws h.1)

  -- The floors of shares that fit are stored.
  floors-rounded_shares :
      (total : ℤ) (tw : Num) (ws : List Num)
      → All (IsShare total tw) ws
      → pos_part (sum_ℤ (rounded_shares total tw ws)) ≤ largest
      → floors d sum argsort total tw ws ≡ some (rounded_shares total tw ws)
  unfolding floors
  floors-rounded_shares total tw [] h fits = refl
  floors-rounded_shares total tw (w ∷ ws) ((real, natural), h) fits =
      let share = floor (raw d sum argsort total tw w) in
      let both =
        IsNatural-plus share (sum_ℤ (rounded_shares total tw ws)) natural
          (sum-IsNatural (rounded_shares total tw ws) (rounded_shares-IsNatural total tw ws h)) in
      let entry = fits_small share natural (omega arith) in
      rw (real, entry, floors-rounded_shares total tw ws h (omega arith))

  -- What is left over is not negative, and makes up the total.
  remainder :
      (total : ℕ) (out : List ℤ)
      → total ≤ largest
      → All IsNatural out
      → sum_ℤ out ≤ℤ pos total
      → (wrapped (pos total -ℤ allocated (pos 0) out) ≡ pos total -ℤ sum_ℤ out)
        × (pos_part (sum_ℤ out) + pos_part (pos total -ℤ sum_ℤ out) ≡ total)
        × (sum_ℤ out +ℤ pos (pos_part (pos total -ℤ sum_ℤ out)) ≡ pos total)
  remainder total out fits natural le =
      let positive = sum-IsNatural out natural in
      let left = IsNatural-minus (pos total) (sum_ℤ out) refl positive le in
      let all : allocated (pos 0) out ≡ sum_ℤ out =
        allocated-sum (pos 0) out refl natural (omega arith) ∙ omega int_laws in
      (
        ap (λ a. wrapped (pos total -ℤ a)) all
            ∙ wrapped_small (pos total -ℤ sum_ℤ out) left.0 (omega arith),
        omega arith,
        omega (int_laws, left.1),
      )

  -- With weight, the shares are rounded down and what is left over is dealt out.
  weighted-total :
      (total : ℕ) (ws : List Num)
      → Sorts
      → 0 < length ws
      → total ≤ largest
      → any_negative d sum argsort ws ≡ false
      → same (sum ws) (of_ℤ (pos 0)) ≡ false
      → All (IsShare (pos total) (sum ws)) ws
      → sum_ℤ (rounded_shares (pos total) (sum ws) ws) ≤ℤ pos total
      → (out : List ℤ) × (allocate_proportionally d sum argsort (pos total) ws ≡ some out)
        × (sum_ℤ out ≡ pos total)
        × (length out ≡ length ws)
  unfolding allocate_proportionally
  weighted-total total ws sorts filled fits fine weighted real le =
      let start = rounded_shares (pos total) (sum ws) ws in
      let natural = rounded_shares-IsNatural (pos total) (sum ws) ws real in
      let (left, room, whole) = remainder total start fits natural le in
      let size = length-map (λ w. floor (raw d sum argsort (pos total) (sum ws) w)) ws in
      let lost = fractions d sum argsort (pos total) (sum ws) ws in
      let sizes : length (map negate lost) ≡ length start =
        length-map negate lost ∙ length-map _ ws ∙ sym size in
      let (out, dealt, total_of, count) =
        deal-sum (argsort (map negate lost)) (pos_part (pos total -ℤ sum_ℤ start)) 0 start
          (subst (λ n. IsOrder n (argsort (map negate lost))) sizes (sorts (map negate lost)))
          (omega arith) natural (omega arith) in
      let small = fits_small (pos total) refl fits in
      let stored = floors-rounded_shares (pos total) (sum ws) ws real (omega arith) in
      (out, rw (fine, small, weighted, stored, left, dealt), total_of ∙ whole, count ∙ size)

  -- Weights of which none is negative get an allocation of a total within 64 bits, one quantity each,
  -- that adds up to the total exactly, provided that the shares are finite and not negative, and
  -- rounded down do not exceed the total.
  pub allocate_proportionally-total :
      (total : ℕ) (ws : List Num)
      → Sorts
      → 0 < length ws
      → total ≤ largest
      → any_negative d sum argsort ws ≡ false
      → IsWithinTotal (pos total) ws
      → (out : List ℤ) × (allocate_proportionally d sum argsort (pos total) ws ≡ some out)
        × (sum_ℤ out ≡ pos total)
        × (length out ≡ length ws)
  unfolding allocate_proportionally
  allocate_proportionally-total total ws sorts filled fits fine within =
      elim (Bool-cases (same (sum ws) (of_ℤ (pos 0)))) [
        | inl weightless ↦
            (let some_weights : (length ws == 0) ≡ false = ground arith in
              let small = fits_small (pos total) refl fits in
              let (all, size) = first_only (length ws) (pos total) filled in
              (
                set (replicate (length ws) (pos 0)) 0 (pos total),
                rw (fine, small, weightless, some_weights),
                all,
                size,
              ))
        | inr weighted ↦ elim within [
          | inl no_weight ↦
              absurd (let bad : true ≡ false = sym no_weight ∙ weighted in ground arith)
          | inr (real, le) ↦ weighted-total total ws sorts filled fits fine weighted real le
        ]
      ]
