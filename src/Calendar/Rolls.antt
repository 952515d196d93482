-- ===== src/Calendar/Rolls.antt =====
-- src/quantfinlib/fx/business_calendar.py: the roll conventions and the lag walks.
use quant_finance_py.Prelude.{
  ℕ, zero, suc, ◌≤◌, ◌<◌, ◌≡◌, ◌≢◌, ◌⊎◌, refl, subst, false, ◌&&◌, ◌||◌, none, some, List, [], ◌∷◌,
  ◌++◌, ◌==◌, arith, Bool-cases, inl, inr, Option-cases,
}
use quant_finance_py.Calendar.Civil.{month_of}
use quant_finance_py.Calendar.{
  BusinessCalendar, Roll, no_roll, following, modified_following, preceding, union, is_holiday,
  is_business_day, next_business_day, previous_business_day, roll, add_business_days,
  subtract_business_days,
}
use quant_finance_py.Calendar.Walks.{
  IsBusinessDay, NoneBetween, next_business_day_lem, previous_business_day_lem, previous-next,
}

is_holiday-append :
    (xs ys : List ℕ) (d : ℕ) → is_holiday (xs ++ ys) d ≡ (is_holiday xs d || is_holiday ys d)
unfolding is_holiday
is_holiday-append [] ys d = refl
is_holiday-append (x ∷ xs) ys d = rw (is_holiday-append xs ys d) (ground arith)

-- A day is a business day of the joint calendar exactly if it is one of both centers.
pub is_business_day-union :
    (a b : BusinessCalendar) (d : ℕ)
    → is_business_day (union a b) d ≡ (is_business_day a d && is_business_day b d)
unfolding is_business_day
is_business_day-union a b d = rw (is_holiday-append a.holidays b.holidays d) (ground arith)

-- What each convention asks of the day that it rolls to.
abbrev pub IsForward : BusinessCalendar → ℕ → ℕ → Type 0
IsForward c d e = IsBusinessDay c e × (d ≤ e) × NoneBetween c d e

abbrev pub IsBack : BusinessCalendar → ℕ → ℕ → Type 0
IsBack c d e = IsBusinessDay c e × (e ≤ d) × NoneBetween c (suc e) (suc d)

abbrev pub IsRolled : BusinessCalendar → Roll → ℕ → ℕ → Type 0
IsRolled c no_roll d e = e ≡ d
IsRolled c following d e = IsForward c d e
IsRolled c preceding d e = IsBack c d e
IsRolled c modified_following d e =
    (IsForward c d e × (month_of e ≡ month_of d))
    ⊎ ((e < d) × IsBack c d e × (month_of (next_business_day c d) ≢ month_of d))

module _ (c : BusinessCalendar) where
  stays : (d : ℕ) → IsBusinessDay c d → IsForward c d d
  stays d b = (b, omega arith, λ x from to. absurd (omega arith))

  forward : (d : ℕ) → is_business_day c d ≡ false → IsForward c d (next_business_day c d)
  forward d off =
      let (business, later, clear) = next_business_day_lem c d in
      (
        business,
        omega arith,
        λ x from to. elim (Bool-cases (d == x)) [
          | inl same ↦ subst (λ y. is_business_day c y ≡ false) (ground arith) off
          | inr other ↦ clear x (ground arith) to
        ],
      )

  back :
      (d e : ℕ)
      → is_business_day c d ≡ false
      → previous_business_day c d ≡ some e
      → (e < d) × IsBack c d e
  back d e off h =
      let (business, earlier, clear) = previous_business_day_lem c d e h in
      (
        earlier,
        (
          business,
          omega arith,
          λ x from to. elim (Bool-cases (d == x)) [
            | inl same ↦ subst (λ y. is_business_day c y ≡ false) (ground arith) off
            | inr other ↦ clear x from (ground arith)
          ],
        ),
      )

  -- What a roll answers is the day itself without a convention, else the nearest business day on the
  -- side of the convention, with none between; modified following goes back only out of the month.
  pub roll-IsRolled : (r : Roll) (d e : ℕ) → roll c r d ≡ some e → IsRolled c r d e
  unfolding roll
  roll-IsRolled no_roll d e h = ground arith
  roll-IsRolled following d e h = elim (Bool-cases (is_business_day c d)) [
    | inl b ↦
        (let same : some d ≡ some e = rw b at h in subst (IsRolled c following d) (cc) (stays d b))
    | inr b ↦
        (let same : some (next_business_day c d) ≡ some e = rw b at h in
          subst (IsRolled c following d) (cc) (forward d b))
  ]
  roll-IsRolled preceding d e h = elim (Bool-cases (is_business_day c d)) [
    | inl b ↦
        (let same : some d ≡ some e = rw b at h in
          subst (IsRolled c preceding d) (cc) (b, omega arith, λ x from to. absurd (omega arith)))
    | inr b ↦ (back d e b (rw b at h)).1
  ]
  roll-IsRolled modified_following d e h = elim (Bool-cases (is_business_day c d)) [
    | inl b ↦
        (let same : some d ≡ some e = rw b at h in
          subst (IsRolled c modified_following d) (cc) (inl (stays d b, refl)))
    | inr b ↦ elim (Bool-cases (month_of (next_business_day c d) == month_of d)) [
      | inl m ↦
          (let same : some (next_business_day c d) ≡ some e = rw (b, m) at h in
            let on = forward d b in
            subst (IsRolled c modified_following d) (cc) (inl (on, ground arith)))
      | inr m ↦
          (let prior : previous_business_day c d ≡ some e = rw (b, m) at h in
            let (earlier, rolled) = back d e b prior in inr (earlier, rolled, λ same. ground arith))
    ]
  ]

  subtract-suc :
      (n d e f : ℕ)
      → subtract_business_days c d n ≡ some e
      → previous_business_day c e ≡ some f
      → subtract_business_days c d (suc n) ≡ some f
  unfolding subtract_business_days
  subtract-suc zero d e f h k = (let same : d ≡ e = cc in rw (same, k))
  subtract-suc (suc n) d e f h k = elim (Option-cases (previous_business_day c d)) [
    | inl p ↦ (let bad : none ≡ some e = rw p at h in cc)
    | inr (e', p) ↦ rw p (subtract-suc n e' e f (rw p at h) k)
  ]

  -- A walk forward from a business day, then back over the same number of days, returns to it.
  pub subtract-add :
      (n d : ℕ)
      → 0 < d
      → IsBusinessDay c d
      → subtract_business_days c (add_business_days c d n) n ≡ some d
  unfolding add_business_days
  subtract-add zero d pos b = unfold subtract_business_days in refl
  subtract-add (suc n) d pos b =
      let (business, later, clear) = next_business_day_lem c d in
      subtract-suc n (add_business_days c (next_business_day c d) n) (next_business_day c d) d
        (subtract-add n (next_business_day c d) (omega arith) business) (previous-next c d pos b)
