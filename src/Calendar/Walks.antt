-- ===== src/Calendar/Walks.antt =====
-- src/quantfinlib/fx/business_calendar.py: where the loops over days stop.
use quant_finance_py.Prelude.{
  ℕ, zero, suc, ◌+◌, ◌-◌, ◌≤◌, ◌<◌, ◌≡◌, refl, ap, sym, subst, ◌∙◌, true, false, none, some, List,
  [], ◌∷◌, ◌==◌, ltb, arith, Bool-cases, inl, inr,
}
use quant_finance_py.Calendar.{
  BusinessCalendar, weekday, is_holiday, is_business_day, last_holiday, seek_next,
  next_business_day, seek_previous, previous_business_day,
}

abbrev pub IsBusinessDay : BusinessCalendar → ℕ → Type 0
IsBusinessDay c d = is_business_day c d ≡ true

-- No day from `a` up to before `b` is a business day.
abbrev pub NoneBetween : BusinessCalendar → ℕ → ℕ → Type 0
NoneBetween c a b = (e : ℕ) → a ≤ e → e < b → is_business_day c e ≡ false

past_holidays : (hs : List ℕ) (d : ℕ) → last_holiday hs < d → is_holiday hs d ≡ false
unfolding is_holiday
past_holidays [] d h = refl
past_holidays (x ∷ hs) d h =
    let other : (x == d) ≡ false = ground arith in rw other (past_holidays hs d (omega arith))

business_past :
    (c : BusinessCalendar) (d : ℕ)
    → last_holiday c.holidays < d
    → is_business_day c d ≡ ltb (weekday d) 5
unfolding is_business_day
business_past c d h = rw (past_holidays c.holidays d h) (ground arith)

weekend_over :
    (d : ℕ)
    → ltb (weekday d) 5 ≡ false
    → ltb (weekday (suc d)) 5 ≡ false
    → ltb (weekday (suc (suc d))) 5 ≡ true
weekend_over d h k = ground arith

module _ (c : BusinessCalendar) where
  seek_next_here : (fuel d : ℕ) → is_business_day c d ≡ true → seek_next c (suc fuel) d ≡ d
  unfolding seek_next
  seek_next_here fuel d h = rw (h, seek_next)

  seek_next_on :
      (fuel d : ℕ)
      → is_business_day c d ≡ false
      → seek_next c (suc fuel) d ≡ seek_next c fuel (suc d)
  unfolding seek_next
  seek_next_on fuel d h = rw (h, seek_next)

  seek_next_from : (fuel d : ℕ) → IsBusinessDay c d → IsBusinessDay c (seek_next c fuel d)
  seek_next_from zero d b = unfold seek_next in b
  seek_next_from (suc fuel) d b = subst (IsBusinessDay c) (sym (seek_next_here fuel d b)) b

  -- Past the last holiday a weekend is over after two days.
  seek_next_past :
      (fuel d : ℕ) → last_holiday c.holidays < d → 2 ≤ fuel → IsBusinessDay c (seek_next c fuel d)
  seek_next_past zero d h k = ground arith
  seek_next_past (suc zero) d h k = ground arith
  seek_next_past (suc (suc fuel)) d h k = elim (Bool-cases (is_business_day c d)) [
    | inl b ↦ seek_next_from (suc (suc fuel)) d b
    | inr b ↦ elim (Bool-cases (is_business_day c (suc d))) [
      | inl b' ↦
          subst (IsBusinessDay c) (sym (seek_next_on (suc fuel) d b))
            (seek_next_from (suc fuel) (suc d) b')
      | inr b' ↦
          (let open_days : ltb (weekday (suc (suc d))) 5 ≡ true =
              weekend_over d (sym (business_past c d h) ∙ b)
                (sym (business_past c (suc d) (omega arith)) ∙ b') in
            subst (IsBusinessDay c)
              (sym (seek_next_on (suc fuel) d b ∙ seek_next_on fuel (suc d) b'))
              (seek_next_from fuel (suc (suc d))
                (business_past c (suc (suc d)) (omega arith) ∙ open_days)))
    ]
  ]

  seek_next-IsBusinessDay :
      (fuel d : ℕ)
      → 2 ≤ fuel
      → last_holiday c.holidays + 3 ≤ d + fuel
      → IsBusinessDay c (seek_next c fuel d)
  seek_next-IsBusinessDay zero d h k = ground arith
  seek_next-IsBusinessDay (suc fuel) d h k = elim (Bool-cases (ltb (last_holiday c.holidays) d)) [
    | inl past ↦ seek_next_past (suc fuel) d (ground arith) h
    | inr before ↦ elim (Bool-cases (is_business_day c d)) [
      | inl b ↦ subst (IsBusinessDay c) (sym (seek_next_here fuel d b)) b
      | inr b ↦
          subst (IsBusinessDay c) (sym (seek_next_on fuel d b))
            (seek_next-IsBusinessDay fuel (suc d) (ground arith) (omega arith))
    ]
  ]

  seek_next-NoneBetween : (fuel d : ℕ) → NoneBetween c d (seek_next c fuel d)
  seek_next-NoneBetween zero d = unfold seek_next in (λ e le lt. ground arith)
  seek_next-NoneBetween (suc fuel) d = elim (Bool-cases (is_business_day c d)) [
    | inl b ↦ (λ e le lt. (let here = seek_next_here fuel d b in absurd (omega arith)))
    | inr b ↦ (λ e le lt. elim (Bool-cases (d == e)) [
      | inl same ↦ subst (λ x. is_business_day c x ≡ false) (ground arith) b
      | inr other ↦
          (let on = seek_next_on fuel d b in
            seek_next-NoneBetween fuel (suc d) e (ground arith) (omega arith))
    ])
  ]

  seek_next-le : (fuel d : ℕ) → d ≤ seek_next c fuel d
  seek_next-le zero d = unfold seek_next in omega arith
  seek_next-le (suc fuel) d = elim (Bool-cases (is_business_day c d)) [
    | inl b ↦ (let here = seek_next_here fuel d b in omega arith)
    | inr b ↦
        (let on = seek_next_on fuel d b in let rest = seek_next-le fuel (suc d) in omega arith)
  ]

  -- The next business day is one, is later, and none lies between.
  pub next_business_day_lem :
      (d : ℕ)
      → IsBusinessDay c (next_business_day c d)
        × (d < next_business_day c d)
        × NoneBetween c (suc d) (next_business_day c d)
  unfolding next_business_day
  next_business_day_lem d = (
    seek_next-IsBusinessDay (last_holiday c.holidays + 2) (suc d) (omega arith) (omega arith),
    (let le = seek_next-le (last_holiday c.holidays + 2) (suc d) in omega arith),
    seek_next-NoneBetween (last_holiday c.holidays + 2) (suc d),
  )

  seek_previous_here :
      (d : ℕ) → is_business_day c (suc d) ≡ true → seek_previous c (suc d) ≡ some (suc d)
  unfolding seek_previous
  seek_previous_here d h = rw (h, seek_previous)

  seek_previous_on :
      (d : ℕ) → is_business_day c (suc d) ≡ false → seek_previous c (suc d) ≡ seek_previous c d
  unfolding seek_previous
  seek_previous_on d h = rw (h, seek_previous)

  seek_previous_lem :
      (d e : ℕ)
      → seek_previous c d ≡ some e
      → IsBusinessDay c e × (e ≤ d) × NoneBetween c (suc e) (suc d)
  seek_previous_lem zero e h = (let bad : none ≡ some e = unfold seek_previous in h in cc)
  seek_previous_lem (suc d) e h = elim (Bool-cases (is_business_day c (suc d))) [
    | inl b ↦
        (let same : suc d ≡ e =
            (let q : some (suc d) ≡ some e = sym (seek_previous_here d b) ∙ h in cc) in
          (subst (IsBusinessDay c) same b, omega arith, λ x le lt. absurd (omega arith)))
    | inr b ↦
        (let (business, le, clear) = seek_previous_lem d e (sym (seek_previous_on d b) ∙ h) in
          (
            business,
            omega arith,
            λ x from to. elim (Bool-cases (suc d == x)) [
              | inl same ↦ subst (λ y. is_business_day c y ≡ false) (ground arith) b
              | inr other ↦ clear x from (ground arith)
            ],
          ))
  ]

  -- The previous business day is one, is earlier, and none lies between.
  pub previous_business_day_lem :
      (d e : ℕ)
      → previous_business_day c d ≡ some e
      → IsBusinessDay c e × (e < d) × NoneBetween c (suc e) d
  unfolding previous_business_day
  previous_business_day_lem zero e h = (let bad : none ≡ some e = unfold seek_previous in h in cc)
  previous_business_day_lem (suc d) e h =
      let one : suc d - 1 ≡ d = omega arith in
      let (business, le, clear) =
        seek_previous_lem d e (subst (λ x. seek_previous c x ≡ some e) one h) in
      (business, omega arith, clear)

  -- A walk back over days without business ends at the business day below them.
  seek_previous_back :
      (d e : ℕ)
      → 0 < d
      → IsBusinessDay c d
      → d ≤ e
      → NoneBetween c (suc d) (suc e)
      → seek_previous c e ≡ some d
  seek_previous_back d zero pos b le clear = absurd (omega arith)
  seek_previous_back d (suc e) pos b le clear = elim (Bool-cases (d == suc e)) [
    | inl same ↦
        (let eq : d ≡ suc e = ground arith in
          seek_previous_here e (subst (IsBusinessDay c) eq b) ∙ ap (λ x. some x) (sym eq))
    | inr other ↦
        (let below : d ≤ e = ground arith in
          seek_previous_on e (clear (suc e) (omega arith) (omega arith))
          ∙ seek_previous_back d e pos b below (λ x from to. clear x from (omega arith)))
  ]

  pub previous-next :
      (d : ℕ) → 0 < d → IsBusinessDay c d → previous_business_day c (next_business_day c d) ≡ some d
  unfolding previous_business_day
  previous-next d pos b =
      let (business, later, clear) = next_business_day_lem d in
      seek_previous_back d (next_business_day c d - 1) pos b (omega arith)
        (λ x from to. clear x from (omega arith))
