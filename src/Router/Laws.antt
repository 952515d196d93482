-- ===== src/Router/Laws.antt =====
-- src/quantfinlib/execution/hft_sor.py: what `route` gives to the venues.
use quant_finance_py.Prelude.{
  ℕ, zero, suc, ◌+◌, ◌-◌, min, ◌≤◌, ◌<◌, ◌≡◌, inl, inr, refl, ap, sym, subst, ◌∙◌, true, false,
  ◌&&◌, none, some, List, [], ◌∷◌, ◌==◌, ltb, length, get_elem?, set, map, All, arith, Bool-cases,
  Option-cases,
}
use quant_finance_py.Prelude.Int.{ℤ}
use quant_finance_py.Prelude.Double.{Double}
use quant_finance_py.Execution.{Side, buy, sell}
use quant_finance_py.Router.{Venue, HftSor, sz, eligible, pick, take_at, sweep, route}
use quant_finance_py.Router.Sweep.{
  routed, unused, Offers, eligible-Offers, eligible_if_Offers, IsWithin, IsEmptyOrFull, All-set,
  routed-set, unused-set, pick-none, pick_chosen,
}

eligible_size :
    {F : Type 0} (s : Side) (limit : ℤ) (v : Venue F) → eligible s limit v ≡ true → 0 < sz s v
eligible_size buy limit v h = ground arith
eligible_size sell limit v h = ground arith

all_used :
    {F : Type 0} (s : Side) (limit : ℤ) (ps : List (Venue F × ℕ))
    → unused ps ≡ 0
    → All (λ (p : Venue F × ℕ). ((p.1 == 0) && eligible s limit p.0) ≡ false) ps
all_used s limit [] h = tt
all_used s limit (p ∷ ps) h =
    let out : (p.1 == 0) ≡ false = ground arith in (rw out, all_used s limit ps (omega arith))

module _ (d : Double) (s : Side) (limit : ℤ) where
  open d use {Num}

  took :
      (ps : List (Venue Num × ℕ)) (r b : ℕ) (v : Venue Num)
      → get_elem? ps b ≡ some (v, 0)
      → take_at d s r b ps ≡ (set ps b (v, min r (sz s v)), r - min r (sz s v))
  took ps r b v h = rw (h, take_at)

  -- The three ways a round goes.
  module _ (fuel r : ℕ) (ps : List (Venue Num × ℕ)) where
    sweep_filled : ltb 0 r ≡ false → sweep d (suc fuel) s limit r ps ≡ (ps, r)
    unfolding sweep
    sweep_filled c = rw (c, sweep)

    sweep_dry :
        pick d s limit 0 ps none ≡ none → ltb 0 r ≡ true → sweep d (suc fuel) s limit r ps ≡ (ps, r)
    unfolding sweep
    sweep_dry e c = rw (c, e, sweep)

    sweep_takes :
        (b : ℕ) (x : Num) (v : Venue Num)
        → ltb 0 r ≡ true
        → pick d s limit 0 ps none ≡ some (b, x)
        → get_elem? ps b ≡ some (v, 0)
        → sweep d (suc fuel) s limit r ps
          ≡ sweep d fuel s limit (r - min r (sz s v)) (set ps b (v, min r (sz s v)))
    unfolding sweep
    sweep_takes b x v c e found = rw (c, e, took ps r b v found, sweep)

  -- What every round keeps, the loop keeps.
  sweep_induction :
      (P : List (Venue Num × ℕ) × ℕ → Type 0)
      → ((ps : List (Venue Num × ℕ)) (r b : ℕ) (v : Venue Num)
          → get_elem? ps b ≡ some (v, 0)
          → eligible s limit v ≡ true
          → 0 < r
          → P (ps, r)
          → P (set ps b (v, min r (sz s v)), r - min r (sz s v)))
      → (fuel r : ℕ) (ps : List (Venue Num × ℕ)) → P (ps, r)
      → P (sweep d fuel s limit r ps)
  sweep_induction P keep zero r ps h = unfold sweep in h
  sweep_induction P keep (suc fuel) r ps h = elim (Bool-cases (ltb 0 r)) [
    | inr c ↦ subst P (sym (sweep_filled fuel r ps c)) h
    | inl c ↦ elim (Option-cases (pick d s limit 0 ps none)) [
      | inl e ↦ subst P (sym (sweep_dry fuel r ps e c)) h
      | inr ((b, x), e) ↦
          let (v, found, fits) = pick_chosen d s limit b ps x e in
          subst P (sym (sweep_takes fuel r ps b x v c e found)) (
            sweep_induction P keep fuel (r - min r (sz s v)) (set ps b (v, min r (sz s v)))
              (keep ps r b v found fits (ground arith) h))
    ]
  ]

  -- With a round for each unused venue, the loop ends filled or with no venue left to take.
  sweep_ends :
      (fuel r : ℕ) (ps : List (Venue Num × ℕ))
      → unused ps ≤ fuel
      → 0 < (sweep d fuel s limit r ps).1
      → All
          (λ (p : Venue Num × ℕ). ((p.1 == 0) && eligible s limit p.0) ≡ false)
          (sweep d fuel s limit r ps).0
  sweep_ends zero r ps h k = unfold sweep in all_used s limit ps (omega arith)
  sweep_ends (suc fuel) r ps h k = elim (Bool-cases (ltb 0 r)) [
    | inr c ↦
        (let stop = sweep_filled fuel r ps c in
          absurd (
            subst (λ (q : List (Venue Num × ℕ) × ℕ). 0 < q.1 → ⊥) (sym stop) (λ x. ground arith) k))
    | inl c ↦ elim (Option-cases (pick d s limit 0 ps none)) [
      | inl e ↦
          subst
            (λ (q : List (Venue Num × ℕ) × ℕ).
              All (λ (p : Venue Num × ℕ). ((p.1 == 0) && eligible s limit p.0) ≡ false) q.0)
            (sym (sweep_dry fuel r ps e c)) (pick-none d s limit 0 ps none e).1
      | inr ((b, x), e) ↦
          let (v, found, fits) = pick_chosen d s limit b ps x e in
          let taken : 0 < min r (sz s v) =
            (let big = eligible_size s limit v fits in ground arith) in
          let left = unused-set ps b (min r (sz s v)) v found taken in
          let goes = sweep_takes fuel r ps b x v c e found in
          subst
            (λ (q : List (Venue Num × ℕ) × ℕ).
              All (λ (p : Venue Num × ℕ). ((p.1 == 0) && eligible s limit p.0) ≡ false) q.0)
            (sym goes)
            (sweep_ends fuel (r - min r (sz s v)) (set ps b (v, min r (sz s v))) (omega arith)
              (subst (λ (q : List (Venue Num × ℕ) × ℕ). 0 < q.1) goes k))
    ]
  ]

  -- The quantities given so far and what remains add up, and the venues stay.
  abbrev Balance : List (Venue Num) → ℕ → List (Venue Num × ℕ) × ℕ → Type 0
  Balance vs q r = (routed (r.0) + r.1 ≡ q) × (map (λ p. p.0) (r.0) ≡ vs)

  map-set :
      (ps : List (Venue Num × ℕ)) (b n : ℕ) (v : Venue Num)
      → get_elem? ps b ≡ some (v, 0)
      → map (λ p. p.0) (set ps b (v, n)) ≡ map (λ p. p.0) ps
  map-set [] b n v h = refl
  map-set (p ∷ ps) zero n v h =
      (let same : p ≡ (v, 0) = ground arith in
        ap (λ (q : Venue Num × ℕ). q.0 ∷ map (λ p. p.0) ps) (sym same))
  map-set (p ∷ ps) (suc b) n v h = ap (λ vs. p.0 ∷ vs) (map-set ps b n v h)

  sweep-Balance :
      (vs : List (Venue Num)) (q fuel r : ℕ) (ps : List (Venue Num × ℕ))
      → Balance vs q (ps, r)
      → Balance vs q (sweep d fuel s limit r ps)
  sweep-Balance vs q = sweep_induction (Balance vs q) (λ ps r b v found fits more h.
      let sum = routed-set ps b (min r (sz s v)) v found in
      (omega arith, map-set ps b (min r (sz s v)) v found ∙ h.1))

  sweep-IsWithin :
      (fuel r : ℕ) (ps : List (Venue Num × ℕ))
      → All (IsWithin s limit) ps
      → All (IsWithin s limit) (sweep d fuel s limit r ps).0
  sweep-IsWithin =
      sweep_induction (λ (q : List (Venue Num × ℕ) × ℕ). All (IsWithin s limit) q.0)
        (λ ps r b v found fits more h.
          All-set (IsWithin s limit) ps b _ h (omega arith, inr (eligible-Offers s limit v fits)))

  -- Until the order is filled, every venue taken gives all it shows.
  sweep-IsEmptyOrFull :
      (fuel r : ℕ) (ps : List (Venue Num × ℕ))
      → (0 < r → All (IsEmptyOrFull s) ps)
      → 0 < (sweep d fuel s limit r ps).1
      → All (IsEmptyOrFull s) (sweep d fuel s limit r ps).0
  sweep-IsEmptyOrFull =
      sweep_induction (λ (q : List (Venue Num × ℕ) × ℕ). 0 < q.1 → All (IsEmptyOrFull s) q.0)
        (λ ps r b v found fits more h k.
          All-set (IsEmptyOrFull s) ps b _ (h more) (inr (omega arith)))

  blank-unused : (vs : List (Venue Num)) → unused (map (λ v. (v, 0)) vs) ≡ length vs
  blank-unused [] = refl
  blank-unused (v ∷ vs) = omega (arith, blank-unused vs)

  blank-routed : (vs : List (Venue Num)) → routed (map (λ v. (v, 0)) vs) ≡ 0
  blank-routed [] = refl
  blank-routed (v ∷ vs) = omega (arith, blank-routed vs)

  blank-venues :
      (vs : List (Venue Num)) → map (λ (p : Venue Num × ℕ). p.0) (map (λ v. (v, 0)) vs) ≡ vs
  blank-venues [] = refl
  blank-venues (v ∷ vs) = ap (λ xs. v ∷ xs) (blank-venues vs)

  blank-All :
      (P : Venue Num × ℕ → Type 0) (vs : List (Venue Num))
      → ((v : Venue Num) → P (v, 0))
      → All P (map (λ v. (v, 0)) vs)
  blank-All P [] h = tt
  blank-All P (v ∷ vs) h = (h v, blank-All P vs h)

  full_of :
      (ps : List (Venue Num × ℕ))
      → All (λ (p : Venue Num × ℕ). ((p.1 == 0) && eligible s limit p.0) ≡ false) ps
      → All (IsEmptyOrFull s) ps
      → All (λ (p : Venue Num × ℕ). Offers s limit p.0 → p.1 ≡ sz s p.0) ps
  full_of [] h k = tt
  full_of (p ∷ ps) h k = (
    λ fits. elim (k.0) [
      | inl out ↦
          (let closed : ((p.1 == 0) && true) ≡ false =
              rw (eligible_if_Offers s limit p.0 fits) at h.0 in
            ground arith)
      | inr all ↦ all
    ],
    full_of ps h.1 k.1,
  )

  module _ (r : HftSor Num) (q : ℕ) where
    -- The quantities given to the venues, in their order, add up to the total that `route` returns,
    -- which is at most the order's quantity.
    pub route-routed :
        (routed (route d r s q limit).1 ≡ (route d r s q limit).2)
        × ((route d r s q limit).2 ≤ q)
        × (map (λ p. p.0) (route d r s q limit).1 ≡ r.venues)
    unfolding route
    route-routed =
        let (sum, same) =
          sweep-Balance r.venues q (length r.venues) q (map (λ v. (v, 0)) r.venues)
            (omega (arith, blank-routed r.venues), blank-venues r.venues) in
        (omega arith, omega arith, same)

    -- No venue is given more than it shows, nor anything if it shows none, has no quote, or its
    -- price is past the limit.
    pub route-IsWithin : All (IsWithin s limit) (route d r s q limit).1
    unfolding route
    route-IsWithin =
        sweep-IsWithin (length r.venues) q (map (λ v. (v, 0)) r.venues)
          (blank-All (IsWithin s limit) r.venues (λ v. (omega arith, inl refl)))

    -- If the order is not filled, every venue that could take part gives all it shows.
    pub route_exhausts :
        (route d r s q limit).2 < q
        → All (λ (p : Venue Num × ℕ). Offers s limit p.0 → p.1 ≡ sz s p.0) (route d r s q limit).1
    unfolding route
    route_exhausts short =
        let start = map (λ v. (v, 0)) r.venues in
        let more : 0 < (sweep d (length r.venues) s limit q start).1 = omega arith in
        full_of (sweep d (length r.venues) s limit q start).0
          (sweep_ends (length r.venues) q start (omega (arith, blank-unused r.venues)) more)
          (sweep-IsEmptyOrFull (length r.venues) q start
            (λ some_left. blank-All (IsEmptyOrFull s) r.venues (λ v. inl refl)) more)
