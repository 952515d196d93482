-- ===== src/LastLook/Decisions.antt =====
-- src/quantfinlib/trading/last_look_gate.py: a sequence of requests to one gate.
use quant_finance_py.Prelude.{
  ℕ, ◌+◌, ◌≡◌, refl, ap, ap₂, sym, ◌∙◌, not, ◌||◌, none, Bool, some, List, [], ◌∷◌, map,
  if◌then◌else◌, length, arith, Bool-cases, inl, inr,
}
use quant_finance_py.Prelude.Int.{pos}
use quant_finance_py.Prelude.Double.{Double, magnitude}
use quant_finance_py.LastLook.{LastLookGate, fresh, new, hurts_maker, accept}

pub record Request (F : Type 0) : Type 0 where
  pub maker_sells : Bool
  pub quoted_price : F
  pub current_fair : F

-- How many answers are of one kind.
abbrev pub count_of : (Bool → Bool) → List Bool → ℕ
count_of f [] = 0
count_of f (b ∷ bs) = (if f b then 1 else 0) + count_of f bs

module _ (d : Double) where
  open d use {Num, of_ℤ, minus, at_most, same}

  -- The gate after the requests, and its answers in order.
  unfoldable pub decide : LastLookGate Num → List (Request Num) → LastLookGate Num × List Bool
  decide g [] = (g, [])
  decide g (r ∷ rs) =
      let (g', answer) = accept d g r.maker_sells r.quoted_price r.current_fair in
      let (g'', answers) = decide g' rs in (g'', answer ∷ answers)

  abbrev pub within : Num → Request Num → Bool
  within tolerance r = at_most (magnitude d (minus r.current_fair r.quoted_price)) tolerance

  -- What one decision does to the counts.
  accept_parts :
      (g : LastLookGate Num) (s : Bool) (q f : Num)
      → let r = accept d g s q f in
        (r.1 ≡ within g.tolerance (record { maker_sells = s; quoted_price = q; current_fair = f }))
        × (r.0.tolerance ≡ g.tolerance)
        × (r.0.accepts ≡ g.accepts + (if r.1 then 1 else 0))
        × (r.0.accepts + r.0.rejects ≡ g.accepts + g.rejects + 1)
        × (r.0.maker_protective_rejects + r.0.taker_protective_rejects + g.rejects
            ≡ g.maker_protective_rejects + g.taker_protective_rejects + r.0.rejects)
  unfolding accept
  accept_parts g s q f = elim (Bool-cases (at_most (magnitude d (minus f q)) g.tolerance)) [
    | inl c ↦ rw c (refl, refl, refl, omega arith, omega arith)
    | inr c ↦ elim (Bool-cases (hurts_maker d s (minus f q))) [
      | inl k ↦ rw (c, k) (refl, refl, omega arith, omega arith, omega arith)
      | inr k ↦ rw (c, k) (refl, refl, omega arith, omega arith, omega arith)
    ]
  ]

  decide_parts :
      (g : LastLookGate Num) (rs : List (Request Num))
      → let r = decide g rs in
        (r.1 ≡ map (within g.tolerance) rs)
        × (r.0.accepts ≡ g.accepts + count_of (λ b. b) r.1)
        × (r.0.accepts + r.0.rejects ≡ g.accepts + g.rejects + length rs)
        × (r.0.maker_protective_rejects + r.0.taker_protective_rejects + g.rejects
            ≡ g.maker_protective_rejects + g.taker_protective_rejects + r.0.rejects)
  unfolding decide
  decide_parts g [] = (refl, omega arith, omega arith, omega arith)
  decide_parts g (r ∷ rs) =
      let (answer, tolerance, kept, total, split) =
        accept_parts g r.maker_sells r.quoted_price r.current_fair in
      let g' = (accept d g r.maker_sells r.quoted_price r.current_fair).0 in
      let (answers, kept', total', split') = decide_parts g' rs in
      (
        ap₂ (λ x xs. x ∷ xs) answer (answers ∙ ap (λ t. map (within t) rs) tolerance),
        omega arith,
        omega arith,
        omega arith,
      )

  -- A new gate answers each request by its move alone, whoever sells and whatever was asked before:
  -- it accepts those within the tolerance. Its counts are those of the answers, and each reject
  -- counts for the maker or for the taker.
  pub decide-new :
      (tolerance : Num) (g : LastLookGate Num) (rs : List (Request Num))
      → new d tolerance ≡ some g
      → let r = decide g rs in
        (r.1 ≡ map (within tolerance) rs)
        × (r.0.accepts ≡ count_of (λ b. b) r.1)
        × (r.0.accepts + r.0.rejects ≡ length rs)
        × (r.0.maker_protective_rejects + r.0.taker_protective_rejects ≡ r.0.rejects)
  unfolding new
  decide-new tolerance g rs h =
      elim (Bool-cases (at_most tolerance (of_ℤ (pos 0)) || not (same tolerance tolerance))) [
        | inl c ↦ (let bad : none ≡ some g = rw c at h in cc)
        | inr c ↦
            (let is : some (fresh d tolerance) ≡ some g = rw c at h in
              let at : fresh d tolerance ≡ g = cc in
              let (answers, kept, total, split) = decide_parts g rs in
              let t : g.tolerance ≡ tolerance =
                ap (λ (x : LastLookGate Num). x.tolerance) (sym at) in
              let a : g.accepts ≡ 0 = ap (λ (x : LastLookGate Num). x.accepts) (sym at) in
              let b : g.rejects ≡ 0 = ap (λ (x : LastLookGate Num). x.rejects) (sym at) in
              let m : g.maker_protective_rejects ≡ 0 =
                ap (λ (x : LastLookGate Num). x.maker_protective_rejects) (sym at) in
              let k : g.taker_protective_rejects ≡ 0 =
                ap (λ (x : LastLookGate Num). x.taker_protective_rejects) (sym at) in
              (answers ∙ ap (λ s. map (within s) rs) t, omega arith, omega arith, omega arith))
      ]
