-- ===== src/Crb/Ledger.antt =====
-- src/quantfinlib/crb/central_risk_book.py: the arrays of the book implement a ledger of legs.
use quant_finance_py.Prelude.{
  ℕ, ◌≤◌, ◌<◌, ◌≡◌, inl, inr, refl, ap, sym, subst, ◌∙◌, true, false, none, some, List, ◌==◌,
  if◌then◌else◌, length, arith, Bool-cases, Option-cases,
}
use quant_finance_py.Prelude.Double.{Double}
use quant_finance_py.Prelude.Dict.{Text, Dict, same_text, find_key, same_text-eq}
use quant_finance_py.Crb.{CentralRiskBook, nought, slot, bump}
use quant_finance_py.Crb.Slots.{slot-bump_self, slot-bump_other}
use quant_finance_py.Crb.Index.{IsIndexed, IsRegistered}

module _ (d : Double) where
  open d use {Num, plus}

  -- Nothing is booked in the slots of ids that are not given out.
  abbrev pub IsFresh : CentralRiskBook Num → List Num → Type 0
  IsFresh b xs = (i : ℕ) → length b.names ≤ i → slot d i xs ≡ nought d

  pub record IsLedger (b : CentralRiskBook Num) : Type 0 where
    pub indexed : IsIndexed d b
    pub sizes : length b.gross ≡ length b.net
    pub fresh_net : IsFresh b b.net
    pub fresh_gross : IsFresh b b.gross
    pub fresh_desk :
        (desk : Text) (row : List Num) → find_key desk b.desk_net ≡ some row → IsFresh b row

  -- What an array holds for a factor.
  abbrev pub held : Dict ℕ → List Num → Text → Num
  held ids xs g = elim (find_key g ids) [ none ↦ nought d | some i ↦ slot d i xs ]

  pub held-found :
      (ids : Dict ℕ) (xs : List Num) (g : Text) (i : ℕ)
      → find_key g ids ≡ some i
      → held ids xs g ≡ slot d i xs
  held-found ids xs g i h = rw (h, held) refl

  pub held-none :
      (ids : Dict ℕ) (xs : List Num) (g : Text) → find_key g ids ≡ none → held ids xs g ≡ nought d
  held-none ids xs g h = rw (h, held) refl

  module _ (b r : CentralRiskBook Num) (f : Text) (i : ℕ) (reg : IsRegistered d b f i r)
      (xs : List Num) (fresh : IsFresh b xs) where
    held-before : slot d i xs ≡ held b.ids xs f
    held-before = elim reg.before [
      | inl e ↦ sym (held-found b.ids xs f i e)
      | inr (e, le) ↦ fresh i le ∙ sym (held-none b.ids xs f e)
    ]

    -- An array that is not written.
    pub held-registered : (g : Text) → held r.ids xs g ≡ held b.ids xs g
    held-registered g = elim (Bool-cases (same_text f g)) [
      | inl c ↦
          (let is = same_text-eq f g c in
            subst (λ t. held r.ids xs t ≡ held b.ids xs t) is
              (held-found r.ids xs f i reg.found ∙ held-before))
      | inr c ↦ ap (λ o. elim o [ none ↦ nought d | some k ↦ slot d k xs ]) (reg.others g c)
    ]

    module _ (ys : List Num) (wider : (k : ℕ) → slot d k ys ≡ slot d k xs) (room : i < length ys)
        (x : Num) where
      -- An array that is written at the id of the factor.
      held-bump_self : held r.ids (bump d i x ys) f ≡ plus (held b.ids xs f) x
      held-bump_self =
          held-found r.ids (bump d i x ys) f i reg.found
          ∙ slot-bump_self d i x ys room
          ∙ ap (λ v. plus v x) (wider i ∙ held-before)

      held-bump_other :
          (g : Text) → same_text f g ≡ false → held r.ids (bump d i x ys) g ≡ held b.ids xs g
      held-bump_other g c = elim (Option-cases (find_key g r.ids)) [
        | inl e ↦
            held-none r.ids (bump d i x ys) g e
            ∙ sym (held-none b.ids xs g (sym (reg.others g c) ∙ e))
        | inr (k, e) ↦
            (let differ : (i == k) ≡ false = elim (Bool-cases (i == k)) [
              | inl same ↦
                  (let eq : i ≡ k = ground arith in
                    let clash = reg.indexed.apart f g i reg.found (e ∙ ap some (sym eq)) in
                    absurd (let bad : true ≡ false = sym clash ∙ c in cc))
              | inr other ↦ other
            ] in
              held-found r.ids (bump d i x ys) g k e
              ∙ slot-bump_other d i k x ys differ
              ∙ wider k
              ∙ sym (held-found b.ids xs g k (sym (reg.others g c) ∙ e)))
      ]

      pub held-bump :
          (g : Text)
          → held r.ids (bump d i x ys) g
            ≡ (if same_text f g then plus (held b.ids xs g) x else held b.ids xs g)
      held-bump g = elim (Bool-cases (same_text f g)) [
        | inl c ↦
            (let is = same_text-eq f g c in
              rw c (
                subst (λ t. held r.ids (bump d i x ys) t ≡ plus (held b.ids xs t) x) is
                  held-bump_self))
        | inr c ↦ rw c (held-bump_other g c)
      ]

      pub bump-IsFresh : IsFresh r (bump d i x ys)
      bump-IsFresh k le =
          let low = reg.indexed.below f i reg.found in
          let differ : (i == k) ≡ false = ground arith in
          let up = reg.grows in slot-bump_other d i k x ys differ ∙ wider k ∙ fresh k (omega arith)
