-- ===== src/Crb/Index.antt =====
-- src/quantfinlib/crb/factor_registry.py: the ids of the factors.
use quant_finance_py.Prelude.{
  ℕ, ◌+◌, ◌≤◌, ◌<◌, ◌≡◌, ◌⊎◌, inl, inr, refl, ap, sym, ◌∙◌, true, false, none, some, [], ◌∷◌, ◌++◌,
  length, arith, Bool-cases, Option-cases, length-append,
}
use quant_finance_py.Prelude.Maybe.{some-inj}
use quant_finance_py.Prelude.Double.{Double}
use quant_finance_py.Prelude.Dict.{
  Text, same_text, find_key, put_key, same_text-eq, find_key-put_key_self, find_key-put_key_other,
}
use quant_finance_py.Crb.{CentralRiskBook, register}

module _ (d : Double) where
  open d use {Num}

  -- The index gives each factor an id of its own, below the number of names.
  pub record IsIndexed (b : CentralRiskBook Num) : Type 0 where
    pub below : (f : Text) (i : ℕ) → find_key f b.ids ≡ some i → i < length b.names
    pub apart :
        (f g : Text) (i : ℕ)
        → find_key f b.ids ≡ some i
        → find_key g b.ids ≡ some i
        → same_text f g ≡ true

  -- What registering a factor in a book `b` gives.
  pub record IsRegistered (b : CentralRiskBook Num) (f : Text) (i : ℕ) (r : CentralRiskBook Num)
      : Type 0 where
    pub found : find_key f r.ids ≡ some i
    pub before : (find_key f b.ids ≡ some i) ⊎ ((find_key f b.ids ≡ none) × (length b.names ≤ i))
    pub others : (g : Text) → same_text f g ≡ false → find_key g r.ids ≡ find_key g b.ids
    pub grows : length b.names ≤ length r.names
    pub same_net : r.net ≡ b.net
    pub same_gross : r.gross ≡ b.gross
    pub same_desks : r.desk_net ≡ b.desk_net
    pub same_fixings : r.pending_fixings ≡ b.pending_fixings
    pub same_count : r.flows_booked ≡ b.flows_booked
    pub indexed : IsIndexed r

  new_id-IsIndexed :
      (b r : CentralRiskBook Num) (f : Text)
      → IsIndexed b
      → find_key f b.ids ≡ none
      → find_key f r.ids ≡ some (length b.names)
      → ((g : Text) → same_text f g ≡ false → find_key g r.ids ≡ find_key g b.ids)
      → length r.names ≡ length b.names + 1
      → IsIndexed r
  new_id-IsIndexed b r f h none_yet found others size = record {
    below = λ g i e. elim (Bool-cases (same_text f g)) [
      | inl c ↦
          (let now : find_key f r.ids ≡ some i =
              ap (λ x. find_key x r.ids) (same_text-eq f g c) ∙ e in
            let same = some-inj (length b.names) i (sym found ∙ now) in omega arith)
      | inr c ↦ (let lower = h.below g i (sym (others g c) ∙ e) in omega arith)
    ];
    apart = λ g k i e e'. elim (Bool-cases (same_text f g)) [
      | inl c ↦ elim (Bool-cases (same_text f k)) [
        | inl c' ↦ ap (λ x. same_text x k) (sym (same_text-eq f g c)) ∙ c'
        | inr c' ↦
            (let now : find_key f r.ids ≡ some i =
                ap (λ x. find_key x r.ids) (same_text-eq f g c) ∙ e in
              let same = some-inj (length b.names) i (sym found ∙ now) in
              let lower = h.below k i (sym (others k c') ∙ e') in absurd (omega arith))
      ]
      | inr c ↦ elim (Bool-cases (same_text f k)) [
        | inl c' ↦
            (let now : find_key f r.ids ≡ some i =
                ap (λ x. find_key x r.ids) (same_text-eq f k c') ∙ e' in
              let same = some-inj (length b.names) i (sym found ∙ now) in
              let lower = h.below g i (sym (others g c) ∙ e) in absurd (omega arith))
        | inr c' ↦ h.apart g k i (sym (others g c) ∙ e) (sym (others k c') ∙ e')
      ]
    ];
  }

  pub register-IsRegistered :
      (b : CentralRiskBook Num) (f : Text)
      → IsIndexed b
      → IsRegistered b f (register d b f).0 (register d b f).1
  unfolding register
  register-IsRegistered b f h = elim (Option-cases (find_key f b.ids)) [
    | inr (i, c) ↦
        rw (c, register)
          (record {
            found = c;
            before = inl c;
            others = λ g e. refl;
            grows = omega arith;
            same_net = refl;
            same_gross = refl;
            same_desks = refl;
            same_fixings = refl;
            same_count = refl;
            indexed = h;
          })
    | inl c ↦
        (let n = length b.names in
          let r = record b { ids = put_key f n b.ids; names = b.names ++ f ∷ [] } in
          let size : length r.names ≡ n + 1 = length-append b.names (f ∷ []) in
          let found = find_key-put_key_self f n b.ids in
          let others =
            λ (g : Text) (e : same_text f g ≡ false). find_key-put_key_other g f n b.ids e in
          rw (c, register)
            (record {
              found = found;
              before = inr (c, omega arith);
              others = others;
              grows = omega arith;
              same_net = refl;
              same_gross = refl;
              same_desks = refl;
              same_fixings = refl;
              same_count = refl;
              indexed = new_id-IsIndexed b r f h c found others size;
            }))
  ]
