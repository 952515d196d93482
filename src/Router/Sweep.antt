-- ===== src/Router/Sweep.antt =====
-- src/quantfinlib/execution/hft_sor.py: what one round of the selection finds, and what a chosen
-- venue takes.
use quant_finance_py.Prelude.{
  ℕ, zero, suc, ◌+◌, ◌≤◌, ◌<◌, ◌≡◌, ◌≢◌, ◌⊎◌, inl, inr, refl, ap, subst, true, false, ◌&&◌, Option,
  none, some, List, [], ◌∷◌, ◌==◌, ltb, if◌then◌else◌, get_elem?, set, All, arith, Bool-cases,
  and_right,
}
use quant_finance_py.Prelude.Int.{ℤ, ◌≤ℤ◌, ◌==ℤ◌, ltb_ℤ, eq_of_parts}
use quant_finance_py.Prelude.Double.{Double}
use quant_finance_py.Execution.{Side, buy, sell}
use quant_finance_py.Router.{Venue, no_bid, no_ask, sz, eligible, all_in, cheaper, consider, pick}

not_same : (a b : ℤ) → a ≢ b → (a ==ℤ b) ≡ false
not_same a b h = elim (Bool-cases (a ==ℤ b)) [
  | inl c ↦ absurd (h (eq_of_parts a b (ground arith)))
  | inr c ↦ c
]

module _ {F : Type 0} where
  -- What the entries add up to.
  abbrev pub routed : List (Venue F × ℕ) → ℕ
  routed [] = 0
  routed (p ∷ ps) = p.1 + routed ps

  -- The venues without a quantity.
  abbrev pub unused : List (Venue F × ℕ) → ℕ
  unused [] = 0
  unused (p ∷ ps) = (if p.1 == 0 then 1 else 0) + unused ps

  -- A venue shows shares at a price that is within the limit and that is a price.
  abbrev pub Offers : Side → ℤ → Venue F → Type 0
  Offers buy limit v = (0 < v.ask_size) × (v.ask_tick ≤ℤ limit) × (v.ask_tick ≢ no_ask)
  Offers sell limit v = (0 < v.bid_size) × (limit ≤ℤ v.bid_tick) × (v.bid_tick ≢ no_bid)

  pub eligible-Offers :
      (s : Side) (limit : ℤ) (v : Venue F) → eligible s limit v ≡ true → Offers s limit v
  eligible-Offers buy limit v h = (ground arith, ground arith, λ e. ground arith)
  eligible-Offers sell limit v h = (ground arith, ground arith, λ e. ground arith)

  pub eligible_if_Offers :
      (s : Side) (limit : ℤ) (v : Venue F) → Offers s limit v → eligible s limit v ≡ true
  eligible_if_Offers buy limit v h =
      let shown : ltb 0 v.ask_size ≡ true = (let more = h.0 in ground arith) in
      let priced : (v.ask_tick ==ℤ no_ask) ≡ false = not_same v.ask_tick no_ask h.2 in
      let inside : ltb_ℤ limit v.ask_tick ≡ false = (let near = h.1 in ground arith) in
      rw (shown, priced, inside)
  eligible_if_Offers sell limit v h =
      let shown : ltb 0 v.bid_size ≡ true = (let more = h.0 in ground arith) in
      let priced : (v.bid_tick ==ℤ no_bid) ≡ false = not_same v.bid_tick no_bid h.2 in
      let inside : ltb_ℤ v.bid_tick limit ≡ false = (let near = h.1 in ground arith) in
      rw (shown, priced, inside)

  -- An entry is within the size shown, and of a venue that offers.
  abbrev pub IsWithin : Side → ℤ → Venue F × ℕ → Type 0
  IsWithin s limit p = (p.1 ≤ sz s p.0) × ((p.1 ≡ 0) ⊎ Offers s limit p.0)

  abbrev pub IsEmptyOrFull : Side → Venue F × ℕ → Type 0
  IsEmptyOrFull s p = (p.1 ≡ 0) ⊎ (p.1 ≡ sz s p.0)

  pub All-set :
      (P : Venue F × ℕ → Type 0) (ps : List (Venue F × ℕ)) (i : ℕ) (q : Venue F × ℕ)
      → All P ps
      → P q
      → All P (set ps i q)
  All-set P [] i q h k = tt
  All-set P (p ∷ ps) zero q h k = (k, h.1)
  All-set P (p ∷ ps) (suc i) q h k = (h.0, All-set P ps i q h.1 k)

  pub routed-set :
      (ps : List (Venue F × ℕ)) (i n : ℕ) (v : Venue F)
      → get_elem? ps i ≡ some (v, 0)
      → routed (set ps i (v, n)) ≡ routed ps + n
  routed-set [] i n v h = ground arith
  routed-set (p ∷ ps) zero n v h =
      let same : p ≡ (v, 0) = ground arith in
      let out : p.1 ≡ 0 = ap (λ (q : Venue F × ℕ). q.1) same in omega arith
  routed-set (p ∷ ps) (suc i) n v h = let rest = routed-set ps i n v h in omega arith

  pub unused-set :
      (ps : List (Venue F × ℕ)) (i n : ℕ) (v : Venue F)
      → get_elem? ps i ≡ some (v, 0)
      → 0 < n
      → unused (set ps i (v, n)) + 1 ≡ unused ps
  unused-set [] i n v h k = ground arith
  unused-set (p ∷ ps) zero n v h k =
      let same : p ≡ (v, 0) = ground arith in
      let out : p.1 ≡ 0 = ap (λ (q : Venue F × ℕ). q.1) same in ground arith
  unused-set (p ∷ ps) (suc i) n v h k = let rest = unused-set ps i n v h k in omega arith

module _ (d : Double) (s : Side) (limit : ℤ) where
  open d use {Num}

  -- A venue that the selection may take.
  abbrev pub IsOpen : Venue Num × ℕ → Type 0
  IsOpen p = (p.1 ≡ 0) × (eligible s limit p.0 ≡ true)

  -- The choice of `pick` stands in the list at its number.
  abbrev Chosen : ℕ → List (Venue Num × ℕ) → ℕ → Type 0
  Chosen i ps b =
      (j : ℕ) × (v : Venue Num) × (b ≡ i + j)
      × (get_elem? ps j ≡ some (v, 0))
      × (eligible s limit v ≡ true)

  IsOpen-parts : (p : Venue Num × ℕ) → ((p.1 == 0) && eligible s limit p.0) ≡ true → IsOpen p
  IsOpen-parts p h = (ground arith, and_right (p.1 == 0) _ h)

  consider-some :
      (i b : ℕ) (p : Venue Num × ℕ) (best : Option (ℕ × Num)) (x : Num)
      → consider d s limit i p best ≡ some (b, x)
      → ((b ≡ i) × IsOpen p) ⊎ (best ≡ some (b, x))
  unfolding consider
  consider-some i b p none x h = elim (Bool-cases ((p.1 == 0) && eligible s limit p.0)) [
    | inl c ↦
        (let e : some (i, all_in d s p.0) ≡ some (b, x) = rw c at h in inl (cc, IsOpen-parts p c))
    | inr c ↦ inr (rw c at h)
  ]
  consider-some i b p (some (b', x')) x h = elim (Bool-cases ((p.1 == 0) && eligible s limit p.0)) [
    | inl c ↦ elim (Bool-cases (cheaper d s (all_in d s p.0) x')) [
      | inl k ↦
          (let e : some (i, all_in d s p.0) ≡ some (b, x) = rw (c, k) at h in
            inl (cc, IsOpen-parts p c))
      | inr k ↦ inr (rw (c, k) at h)
    ]
    | inr c ↦ inr (rw c at h)
  ]

  consider-none :
      (i : ℕ) (p : Venue Num × ℕ) (best : Option (ℕ × Num))
      → consider d s limit i p best ≡ none
      → (best ≡ none) × (((p.1 == 0) && eligible s limit p.0) ≡ false)
  unfolding consider
  consider-none i p none h = elim (Bool-cases ((p.1 == 0) && eligible s limit p.0)) [
    | inl c ↦ (let e : some (i, all_in d s p.0) ≡ none = rw c at h in cc)
    | inr c ↦ (refl, c)
  ]
  consider-none i p (some (b, x)) h = elim (Bool-cases ((p.1 == 0) && eligible s limit p.0)) [
    | inl c ↦ elim (Bool-cases (cheaper d s (all_in d s p.0) x)) [
      | inl k ↦ (let e : some (i, all_in d s p.0) ≡ none = rw (c, k) at h in cc)
      | inr k ↦ (let e : some (b, x) ≡ none = rw (c, k) at h in cc)
    ]
    | inr c ↦ (let e : some (b, x) ≡ none = rw c at h in cc)
  ]

  pub pick-none :
      (i : ℕ) (ps : List (Venue Num × ℕ)) (best : Option (ℕ × Num))
      → pick d s limit i ps best ≡ none
      → (best ≡ none) × All (λ (p : Venue Num × ℕ). ((p.1 == 0) && eligible s limit p.0) ≡ false) ps
  unfolding pick
  pick-none i [] best h = (h, tt)
  pick-none i (p ∷ ps) best h =
      let (first, rest) = pick-none (suc i) ps (consider d s limit i p best) h in
      let (none_before, closed) = consider-none i p best first in (none_before, (closed, rest))

  pick-some :
      (i b : ℕ) (ps : List (Venue Num × ℕ)) (best : Option (ℕ × Num)) (x : Num)
      → pick d s limit i ps best ≡ some (b, x)
      → Chosen i ps b ⊎ (best ≡ some (b, x))
  unfolding pick
  pick-some i b [] best x h = inr h
  pick-some i b (p ∷ ps) best x h =
      elim (pick-some (suc i) b ps (consider d s limit i p best) x h) [
        | inl (j, v, at, found, fits) ↦ inl (suc j, v, omega arith, found, fits)
        | inr e ↦ elim (consider-some i b p best x e) [
          | inl (same, (out, fits)) ↦ inl (0, p.0, omega arith, ap (λ n. some (p.0, n)) out, fits)
          | inr before ↦ inr before
        ]
      ]

  -- What `pick` chooses is an unused venue that takes part.
  pub pick_chosen :
      (b : ℕ) (ps : List (Venue Num × ℕ)) (x : Num)
      → pick d s limit 0 ps none ≡ some (b, x)
      → (v : Venue Num) × (get_elem? ps b ≡ some (v, 0)) × (eligible s limit v ≡ true)
  pick_chosen b ps x h = elim (pick-some 0 b ps none x h) [
    | inl (j, v, at, found, fits) ↦
        (v, subst (λ k. get_elem? ps k ≡ some (v, 0)) (omega arith) found, fits)
    | inr e ↦ cc
  ]
