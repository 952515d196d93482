-- ===== src/Dsl/WarmUp.antt =====
-- src/quantfinlib/dsl/rules.py: rules at a bar where an indicator is not a number yet.
use quant_finance_py.Prelude.{
  ℕ, zero, suc, ◌+◌, ◌-◌, ◌≡◌, ◌≢◌, ap, sym, ◌∙◌, Bool, true, false, not, ◌&&◌, none, some, List,
  ltb, get_elem?, arith, Bool-cases, Option-cases, inl, inr,
}
use quant_finance_py.Prelude.Maybe.{>>=-some}
use quant_finance_py.Prelude.Double.{Double}
use quant_finance_py.Dsl.{
  Rule, and_, or_, valid, at_least, more, both, crossed, single, crossed_value, steps, monotone,
  cross_above, cross_below, cross_above_value, cross_below_value, above, below, above_value,
  below_value, rising, falling,
}

module _ (d : Double) where
  open d use {Num, at_most, less}

  -- What an array has at a bar is not a number, if it has anything.
  abbrev pub IsWarmingUp : List Num → ℕ → Type 0
  IsWarmingUp a i = (x : Num) → get_elem? a i ≡ some x → valid d x ≡ false

  not_valid :
      (a : List Num) (i : ℕ) (x : Num) (rest : Bool)
      → IsWarmingUp a i
      → get_elem? a i ≡ some x
      → (valid d x && rest) ≢ true
  not_valid a i x rest w at h =
      (let no = w x at in let bad : (false && rest) ≡ true = rw no at h in ground arith)

  both_warm :
      (test : Num → Num → Bool) (a b : List Num) (i : ℕ)
      → IsWarmingUp a i
      → both d test a b i ≢ some true
  unfolding both
  both_warm test a b i w h =
      let (x, at, h') = >>=-some (get_elem? a i) _ true h in
      let (y, at', h'') = >>=-some (get_elem? b i) _ true h' in
      not_valid a i x (valid d y && test x y) w at (cc)

  single_warm :
      (test : Num → Bool) (a : List Num) (i : ℕ) → IsWarmingUp a i → single d test a i ≢ some true
  unfolding single
  single_warm test a i w h =
      let (x, at, h') = >>=-some (get_elem? a i) _ true h in not_valid a i x (test x) w at (cc)

  crossed_warm :
      (before after : Num → Num → Bool) (a b : List Num) (i : ℕ)
      → IsWarmingUp a i
      → crossed d before after a b i ≢ some true
  unfolding crossed
  crossed_warm before after a b zero w h = cc
  crossed_warm before after a b (suc i) w h =
      let (x, at, h') = >>=-some (get_elem? a (suc i)) _ true h in
      let (y, at_y, h'') = >>=-some (get_elem? b (suc i)) _ true h' in
      let (x', at', h3) = >>=-some (get_elem? a i) _ true h'' in
      let (y', at_y', h4) = >>=-some (get_elem? b i) _ true h3 in
      not_valid a (suc i) x
        (valid d y && (valid d x' && (valid d y' && (before x' y' && after x y)))) w at (cc)

  crossed_value_warm :
      (before after : Num → Bool) (a : List Num) (i : ℕ)
      → IsWarmingUp a i
      → crossed_value d before after a i ≢ some true
  unfolding crossed_value
  crossed_value_warm before after a zero w h = cc
  crossed_value_warm before after a (suc i) w h =
      let (x, at, h') = >>=-some (get_elem? a (suc i)) _ true h in
      let (x', at', h'') = >>=-some (get_elem? a i) _ true h' in
      not_valid a (suc i) x (valid d x' && (before x' && after x)) w at (cc)

  -- One round of the loop that goes on.
  steps_on :
      (fails : Num → Num → Bool) (a : List Num) (j count : ℕ)
      → steps d fails a j (suc count) ≡ some true
      → (x : Num) × (get_elem? a (suc j) ≡ some x)
        × (valid d x ≡ true)
        × (steps d fails a (suc j) count ≡ some true)
  unfolding steps
  steps_on fails a j count h = elim (Option-cases (get_elem? a (suc j))) [
    | inl c ↦ (let bad : none ≡ some true = rw (c, steps) at h in absurd (cc))
    | inr (x, c) ↦ elim (Option-cases (get_elem? a j)) [
      | inl k ↦ (let bad : none ≡ some true = rw (c, k, steps) at h in absurd (cc))
      | inr (x', k) ↦ elim (Bool-cases (valid d x && (valid d x' && not (fails x x')))) [
        | inr t ↦ (let bad : some false ≡ some true = rw (c, k, t, steps) at h in absurd (cc))
        | inl t ↦ (x, c, ground arith, rw (c, k, t, steps) at h)
      ]
    ]
  ]

  steps_last :
      (fails : Num → Num → Bool) (a : List Num) (count j : ℕ)
      → steps d fails a j (suc count) ≡ some true
      → (x : Num) × (get_elem? a (j + suc count) ≡ some x) × (valid d x ≡ true)
  steps_last fails a zero j h =
      let (x, at, ok, on) = steps_on fails a j zero h in
      (x, ap (get_elem? a) (omega arith) ∙ at, ok)
  steps_last fails a (suc count) j h =
      let (x, at, ok, on) = steps_on fails a j (suc count) h in
      let (y, at', ok') = steps_last fails a count (suc j) on in
      (y, ap (get_elem? a) (omega arith) ∙ at', ok')

  monotone_warm :
      (fails : Num → Num → Bool) (a : List Num) (bars i : ℕ)
      → IsWarmingUp a i
      → monotone d fails a (suc bars) i ≢ some true
  unfolding monotone
  monotone_warm fails a bars i w h = elim (Bool-cases (ltb i (suc bars))) [
    | inl c ↦ (let bad : some false ≡ some true = rw c at h in cc)
    | inr c ↦
        (let on : steps d fails a (i - suc bars) (suc bars) ≡ some true = rw c at h in
          let (x, at, ok) = steps_last fails a bars (i - suc bars) on in
          let no = w x (ap (get_elem? a) (ground arith) ∙ at) in
          let bad : false ≡ true = sym no ∙ ok in ground arith)
  ]

  -- Rules that are combined without negation; a number of bars is one or more.
  pub data Formula : Type 0 where
    f_cross_above f_cross_below f_above f_below : List Num → List Num → Formula
    f_cross_above_value f_cross_below_value f_above_value f_below_value : List Num → Num → Formula
    f_rising f_falling : List Num → ℕ → Formula
    f_and f_or : Formula → Formula → Formula

  unfoldable pub rule_of : Formula → Rule
  unfolding and_ or_ both crossed single crossed_value monotone
  rule_of (f_cross_above a b) = cross_above d a b
  rule_of (f_cross_below a b) = cross_below d a b
  rule_of (f_above a b) = above d a b
  rule_of (f_below a b) = below d a b
  rule_of (f_cross_above_value a x) = cross_above_value d a x
  rule_of (f_cross_below_value a x) = cross_below_value d a x
  rule_of (f_above_value a x) = above_value d a x
  rule_of (f_below_value a x) = below_value d a x
  rule_of (f_rising a n) = rising d a (suc n)
  rule_of (f_falling a n) = falling d a (suc n)
  rule_of (f_and f g) = and_ (rule_of f) (rule_of g)
  rule_of (f_or f g) = or_ (rule_of f) (rule_of g)

  -- Every first array is warming up.
  abbrev pub AllWarmingUp : Formula → ℕ → Type 0
  AllWarmingUp (f_cross_above a b) i = IsWarmingUp a i
  AllWarmingUp (f_cross_below a b) i = IsWarmingUp a i
  AllWarmingUp (f_above a b) i = IsWarmingUp a i
  AllWarmingUp (f_below a b) i = IsWarmingUp a i
  AllWarmingUp (f_cross_above_value a x) i = IsWarmingUp a i
  AllWarmingUp (f_cross_below_value a x) i = IsWarmingUp a i
  AllWarmingUp (f_above_value a x) i = IsWarmingUp a i
  AllWarmingUp (f_below_value a x) i = IsWarmingUp a i
  AllWarmingUp (f_rising a n) i = IsWarmingUp a i
  AllWarmingUp (f_falling a n) i = IsWarmingUp a i
  AllWarmingUp (f_and f g) i = AllWarmingUp f i × AllWarmingUp g i
  AllWarmingUp (f_or f g) i = AllWarmingUp f i × AllWarmingUp g i

  and_left : (r s : Rule) (i : ℕ) → and_ r s i ≡ some true → r i ≡ some true
  unfolding and_
  and_left r s i h = elim (Option-cases (r i)) [
    | inl c ↦ (let bad : none ≡ some true = rw (c, and_) at h in absurd (cc))
    | inr (b, c) ↦ elim (Bool-cases b) [
      | inl t ↦ c ∙ ap (λ x. some x) t
      | inr t ↦ (let bad : some false ≡ some true = rw (c, t, and_) at h in absurd (cc))
    ]
  ]

  or_either : (r s : Rule) (i : ℕ) → r i ≢ some true → or_ r s i ≡ some true → s i ≡ some true
  unfolding or_
  or_either r s i off h = elim (Option-cases (r i)) [
    | inl c ↦ (let bad : none ≡ some true = rw (c, or_) at h in absurd (cc))
    | inr (b, c) ↦ elim (Bool-cases b) [
      | inl t ↦ absurd (off (c ∙ ap (λ x. some x) t))
      | inr t ↦ rw (c, t, or_) at h
    ]
  ]

  -- Rules that are combined without negation, of indicators that all warm up at a bar, are not
  -- satisfied there; a rising or falling rule spans one bar or more.
  pub rule_of-AllWarmingUp : (f : Formula) (i : ℕ) → AllWarmingUp f i → rule_of f i ≢ some true
  unfolding rule_of
  rule_of-AllWarmingUp (f_cross_above a b) i w = crossed_warm at_most (more d) a b i w
  rule_of-AllWarmingUp (f_cross_below a b) i w = crossed_warm (at_least d) less a b i w
  rule_of-AllWarmingUp (f_above a b) i w = both_warm _ a b i w
  rule_of-AllWarmingUp (f_below a b) i w = both_warm _ a b i w
  rule_of-AllWarmingUp (f_cross_above_value a x) i w =
      crossed_value_warm (λ y. at_most y x) (λ y. more d y x) a i w
  rule_of-AllWarmingUp (f_cross_below_value a x) i w =
      crossed_value_warm (λ y. at_least d y x) (λ y. less y x) a i w
  rule_of-AllWarmingUp (f_above_value a x) i w = single_warm _ a i w
  rule_of-AllWarmingUp (f_below_value a x) i w = single_warm _ a i w
  rule_of-AllWarmingUp (f_rising a n) i w = monotone_warm _ a n i w
  rule_of-AllWarmingUp (f_falling a n) i w = monotone_warm _ a n i w
  rule_of-AllWarmingUp (f_and f g) i w =
      λ h. rule_of-AllWarmingUp f i w.0 (and_left (rule_of f) (rule_of g) i h)
  rule_of-AllWarmingUp (f_or f g) i w = λ h.
      rule_of-AllWarmingUp g i w.1
        (or_either (rule_of f) (rule_of g) i (rule_of-AllWarmingUp f i w.0) h)
