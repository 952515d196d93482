-- ===== src/Crb/Bookings.antt =====
-- src/quantfinlib/crb/central_risk_book.py: a booking is all or nothing.
use quant_finance_py.Prelude.{
  ◌+◌, ◌≡◌, ◌⊎◌, inl, inr, refl, ap, ap₂, ◌∙◌, Bool, true, false, not, ◌&&◌, none, some, List, [],
  ◌∷◌, if◌then◌else◌, Bool-cases, Option-cases, All,
}
use quant_finance_py.Prelude.Double.{Double, magnitude}
use quant_finance_py.Prelude.Dict.{Text, find_key, put_key}
use quant_finance_py.Crb.{
  CentralRiskBook, Outcome, returned, raised, ◌>>=◌, nought, post, add, counted, require_positive,
  require_pair, pending_fixing,
}
use quant_finance_py.Crb.Products.{
  or_raise, OptionType, Greeks, Inputs, delta_of, gamma_of, vega_of, valid_inputs, book_cash_equity,
  book_equity_option, book_fx_spot, book_fx_swap, book_ndf, book_fx_option,
}
use quant_finance_py.Crb.Ledger.{IsLedger}
use quant_finance_py.Crb.Flows.{
  Flow, cash_equity, equity_option, fx_spot, fx_swap, ndf, fx_option, Leg, post_all, with_flow,
  equity_option_legs, fx_option_legs, with_greeks, outright_legs, legs_of, IsAtomic,
}
use quant_finance_py.Crb.Posting.{post-IsLedger, post_fixings, post_count}

all_true : (a b : Bool) → (a && b) ≡ true → (a ≡ true) × (b ≡ true)
all_true true b h = (refl, h)
all_true false b h = cc

module _ (d : Double) where
  open d use {Num, negate, plus, minus, times, over, finite}

  pub post_all-IsLedger :
      (ls : List (Leg Num)) (b : CentralRiskBook Num) → IsLedger d b → IsLedger d (post_all d ls b)
  post_all-IsLedger [] b h = h
  post_all-IsLedger (l ∷ ls) b h =
      post_all-IsLedger ls (post d l.desk l.factor l.amount b)
        (post-IsLedger d l.desk l.factor l.amount b h)

  post_all_count :
      (ls : List (Leg Num)) (b : CentralRiskBook Num)
      → IsLedger d b
      → (post_all d ls b).flows_booked ≡ b.flows_booked
  post_all_count [] b h = refl
  post_all_count (l ∷ ls) b h =
      post_all_count ls (post d l.desk l.factor l.amount b)
        (post-IsLedger d l.desk l.factor l.amount b h)
      ∙ post_count d l.desk l.factor l.amount b h

  post_all_fixings :
      (ls : List (Leg Num)) (b : CentralRiskBook Num)
      → IsLedger d b
      → (post_all d ls b).pending_fixings ≡ b.pending_fixings
  post_all_fixings [] b h = refl
  post_all_fixings (l ∷ ls) b h =
      post_all_fixings ls (post d l.desk l.factor l.amount b)
        (post-IsLedger d l.desk l.factor l.amount b h)
      ∙ post_fixings d l.desk l.factor l.amount b h

  counted_all :
      (ls : List (Leg Num)) (b : CentralRiskBook Num)
      → IsLedger d b
      → counted d (post_all d ls b) ≡ returned (with_flow d ls b.pending_fixings b)
  counted_all ls b h =
      ap₂
        (λ n fixings.
          returned (record (post_all d ls b) { flows_booked = n + 1; pending_fixings = fixings }))
        (post_all_count ls b h) (post_all_fixings ls b h)

  add_finite :
      (desk f : Text) (x : Num) (b : CentralRiskBook Num)
      → finite x ≡ true
      → add d desk f x b ≡ returned (post d desk f x b)
  unfolding add
  add_finite desk f x b h = rw (h, add) refl

  -- The statements of a booking: its legs one after the other, and what follows.
  abbrev chain :
      (CentralRiskBook Num → Outcome (CentralRiskBook Num))
      → List (Leg Num)
      → CentralRiskBook Num
      → Outcome (CentralRiskBook Num)
  chain k [] b = k b
  chain k (l ∷ ls) b = do b1 ← add d l.desk l.factor l.amount b; chain k ls b1

  chain_finite :
      (k : CentralRiskBook Num → Outcome (CentralRiskBook Num)) (ls : List (Leg Num))
      (b : CentralRiskBook Num)
      → All (λ (l : Leg Num). finite l.amount ≡ true) ls
      → chain k ls b ≡ k (post_all d ls b)
  chain_finite k [] b h = refl
  chain_finite k (l ∷ ls) b h =
      ap (λ o. o >>= λ b1. chain k ls b1) (add_finite l.desk l.factor l.amount b h.0)
      ∙ chain_finite k ls (post d l.desk l.factor l.amount b) h.1

  module _ (is_blank : Text → Bool) (greeks : Greeks Num) where
    abbrev guard_outright : Text → Text → Num → Num → Bool
    guard_outright desk pair n rate =
        not (is_blank desk)
        && (require_pair d pair
            && (finite n && (require_positive d rate && finite (times (negate n) rate))))

    abbrev guard_swap : Text → Text → Num → Num → Num → Bool
    guard_swap desk pair n near far =
        not (is_blank desk)
        && (require_pair d pair
            && (finite n
                && (require_positive d near
                    && (require_positive d far && finite (times n (minus far near))))))

    abbrev fixed : Text → Num → CentralRiskBook Num → CentralRiskBook Num
    fixed pair n b = record b {
      pending_fixings =
          put_key pair (plus (pending_fixing d b pair) (magnitude d n)) b.pending_fixings;
    }

    outright_finite :
        (desk pair : Text) (n rate : Num)
        → guard_outright desk pair n rate ≡ true
        → All
            (λ (l : Leg Num). finite l.amount ≡ true)
            (outright_legs d is_blank greeks desk pair n rate)
    outright_finite desk pair n rate c =
        let (a, c1) = all_true _ _ c in
        let (p, c2) = all_true _ _ c1 in
        let (base, c3) = all_true _ _ c2 in let (r, quote) = all_true _ _ c3 in (base, (quote, tt))

    cash_equity-IsAtomic :
        (b : CentralRiskBook Num) (desk symbol : Text) (qty price : Num)
        → IsLedger d b
        → IsAtomic d is_blank greeks b (cash_equity desk symbol qty price)
    unfolding book_cash_equity
    cash_equity-IsAtomic b desk symbol qty price h =
        elim (Bool-cases (not (is_blank desk) && (finite qty && require_positive d price))) [
          | inr c ↦ inl (rw (c, book_cash_equity) refl)
          | inl c ↦ elim (Bool-cases (finite (times qty price))) [
            | inr k ↦ inl (rw (c, book_cash_equity) (unfold add in rw (k, add) refl))
            | inl k ↦ inr (
                rw (c, book_cash_equity)
                  (chain_finite (counted d)
                      (legs_of d is_blank greeks (cash_equity desk symbol qty price)) b (k, tt)
                    ∙ counted_all (legs_of d is_blank greeks (cash_equity desk symbol qty price)) b
                        h))
          ]
        ]

    module _ (finite_negate : (x : Num) → finite (negate x) ≡ finite x) where
      fx_spot-IsAtomic :
          (b : CentralRiskBook Num) (desk pair : Text) (n rate : Num)
          → IsLedger d b
          → IsAtomic d is_blank greeks b (fx_spot desk pair n rate)
      unfolding book_fx_spot
      fx_spot-IsAtomic b desk pair n rate h = elim (Bool-cases (guard_outright desk pair n rate)) [
        | inr c ↦ inl (rw (c, book_fx_spot) refl)
        | inl c ↦
            (let legs = outright_legs d is_blank greeks desk pair n rate in
              inr (
                rw (c, book_fx_spot)
                  (chain_finite (counted d) legs b (outright_finite desk pair n rate c)
                    ∙ counted_all legs b h)))
      ]

      ndf-IsAtomic :
          (b : CentralRiskBook Num) (desk pair : Text) (n rate : Num)
          → IsLedger d b
          → IsAtomic d is_blank greeks b (ndf desk pair n rate)
      unfolding book_ndf
      ndf-IsAtomic b desk pair n rate h = elim (Bool-cases (guard_outright desk pair n rate)) [
        | inr c ↦ inl (rw (c, book_ndf) refl)
        | inl c ↦
            (let legs = outright_legs d is_blank greeks desk pair n rate in
              inr (
                rw (c, book_ndf)
                  (chain_finite (λ b2. counted d (fixed pair n b2)) legs b
                      (outright_finite desk pair n rate c)
                    ∙ ap₂
                        (λ m fixings. returned (record (post_all d legs b) {
                          flows_booked = m + 1;
                          pending_fixings =
                              put_key pair
                                (plus
                                  (elim (find_key pair fixings) [ none ↦ nought d | some v ↦ v ])
                                  (magnitude d n))
                                fixings;
                        }))
                        (post_all_count legs b h) (post_all_fixings legs b h))))
      ]

      fx_swap-IsAtomic :
          (b : CentralRiskBook Num) (desk pair : Text) (n near far : Num)
          → IsLedger d b
          → IsAtomic d is_blank greeks b (fx_swap desk pair n near far)
      unfolding book_fx_swap
      fx_swap-IsAtomic b desk pair n near far h =
          elim (Bool-cases (guard_swap desk pair n near far)) [
            | inr c ↦ inl (rw (c, book_fx_swap) refl)
            | inl c ↦
                (let legs = legs_of d is_blank greeks (fx_swap desk pair n near far) in
                  let (a, c1) = all_true _ _ c in
                  let (p, c2) = all_true _ _ c1 in
                  let (base, c3) = all_true _ _ c2 in
                  let (r1, c4) = all_true _ _ c3 in
                  let (r2, quote) = all_true _ _ c4 in
                  inr (
                    rw (c, book_fx_swap)
                      (chain_finite (counted d) legs b (quote, (finite_negate n ∙ base, tt))
                        ∙ counted_all legs b h)))
          ]

    -- The last steps of an option's booking, behind its greeks.
    atomic_legs :
        (legs : List (Leg Num)) (sound : Bool) (b : CentralRiskBook Num)
        → IsLedger d b
        → (sound ≡ true → All (λ (l : Leg Num). finite l.amount ≡ true) legs)
        → ((if sound then chain (counted d) legs b else raised b) ≡ raised b)
          ⊎ ((if sound then chain (counted d) legs b else raised b)
              ≡ returned (with_flow d legs b.pending_fixings b))
    atomic_legs legs true b h k =
        inr (chain_finite (counted d) legs b (k refl) ∙ counted_all legs b h)
    atomic_legs legs false b h k = inl refl

    -- A computation of greeks that raises leaves the book.
    abbrev behind_greeks :
        OptionType
        → Inputs Num
        → CentralRiskBook Num
        → (Num → Num → Num → Outcome (CentralRiskBook Num))
        → Outcome (CentralRiskBook Num)
    behind_greeks t x b k = or_raise (delta_of d is_blank greeks t x) b (λ delta.
        or_raise (gamma_of d is_blank greeks x) b
          (λ gamma. or_raise (vega_of d is_blank greeks x) b (λ vega. k delta gamma vega)))

    atomic_greeks :
        (t : OptionType) (x : Inputs Num) (b : CentralRiskBook Num)
        (k : Num → Num → Num → Outcome (CentralRiskBook Num))
        (legs : Num → Num → Num → List (Leg Num))
        → ((delta gamma vega : Num)
            → (k delta gamma vega ≡ raised b)
              ⊎ (k delta gamma vega
                  ≡ returned (with_flow d (legs delta gamma vega) b.pending_fixings b)))
        → (behind_greeks t x b k ≡ raised b)
          ⊎ (behind_greeks t x b k
              ≡ returned (with_flow d (with_greeks d is_blank greeks t x legs) b.pending_fixings b))
    atomic_greeks t x b k legs h = elim (Option-cases (delta_of d is_blank greeks t x)) [
      | inl c ↦ inl (rw c refl)
      | inr (delta, c) ↦ elim (Option-cases (gamma_of d is_blank greeks x)) [
        | inl c' ↦ inl (rw (c, c') refl)
        | inr (gamma, c') ↦ elim (Option-cases (vega_of d is_blank greeks x)) [
          | inl e ↦ inl (rw (c, c', e) refl)
          | inr (vega, e) ↦
              (let all : with_greeks d is_blank greeks t x legs ≡ legs delta gamma vega =
                  rw (c, c', e, with_greeks) refl in
                rw (all, c, c', e) (h delta gamma vega))
        ]
      ]
    ]

    equity_option-IsAtomic :
        (b : CentralRiskBook Num) (desk symbol : Text) (t : OptionType) (contracts multiplier : Num)
        (x : Inputs Num)
        → IsLedger d b
        → IsAtomic d is_blank greeks b (equity_option desk symbol t contracts multiplier x)
    unfolding book_equity_option
    equity_option-IsAtomic b desk symbol t contracts multiplier x h =
        elim (Bool-cases (
          not (is_blank desk)
          && (finite contracts
              && (require_positive d multiplier && valid_inputs d is_blank greeks x)))) [
                | inr c ↦ inl (rw (c, book_equity_option) refl)
                | inl c ↦
                    rw (c, book_equity_option)
                      (atomic_greeks t x b _
                        (equity_option_legs d is_blank greeks desk symbol
                          (times contracts multiplier) x)
                        (λ delta gamma vega.
                          atomic_legs
                            (equity_option_legs d is_blank greeks desk symbol
                              (times contracts multiplier) x delta gamma vega)
                            _ b h
                            (λ sound.
                              let (f1, rest) = all_true _ _ sound in
                              let (f2, f3) = all_true _ _ rest in (f1, (f2, (f3, tt))))))
              ]

    fx_option-IsAtomic :
        (b : CentralRiskBook Num) (desk pair : Text) (t : OptionType) (n : Num) (x : Inputs Num)
        → IsLedger d b
        → IsAtomic d is_blank greeks b (fx_option desk pair t n x)
    unfolding book_fx_option
    fx_option-IsAtomic b desk pair t n x h =
        elim (Bool-cases (
          not (is_blank desk)
          && (require_pair d pair && (finite n && valid_inputs d is_blank greeks x)))) [
            | inr c ↦ inl (rw (c, book_fx_option) refl)
            | inl c ↦
                rw (c, book_fx_option)
                  (atomic_greeks t x b _ (fx_option_legs d is_blank greeks desk pair n x)
                    (λ delta gamma vega.
                      atomic_legs (fx_option_legs d is_blank greeks desk pair n x delta gamma vega)
                        _ b h
                        (λ sound.
                          let (f1, rest) = all_true _ _ sound in
                          let (f2, rest') = all_true _ _ rest in
                          let (f3, f4) = all_true _ _ rest' in (f1, (f2, (f3, (f4, tt)))))))
          ]

    -- In a well-formed book every booking either raises and leaves the book as it was, or books all
    -- legs of its flow, counts it once and, for a non-deliverable forward alone, adds its size to
    -- the fixings pending on its pair. The negative of a number is finite exactly if it is.
    pub apply-IsAtomic :
        ((x : Num) → finite (negate x) ≡ finite x)
        → (b : CentralRiskBook Num) (flow : Flow Num) → IsLedger d b
        → IsAtomic d is_blank greeks b flow
    apply-IsAtomic k b (cash_equity desk symbol qty price) h =
        cash_equity-IsAtomic b desk symbol qty price h
    apply-IsAtomic k b (equity_option desk symbol t contracts multiplier x) h =
        equity_option-IsAtomic b desk symbol t contracts multiplier x h
    apply-IsAtomic k b (fx_spot desk pair n rate) h = fx_spot-IsAtomic k b desk pair n rate h
    apply-IsAtomic k b (fx_swap desk pair n near far) h =
        fx_swap-IsAtomic k b desk pair n near far h
    apply-IsAtomic k b (ndf desk pair n rate) h = ndf-IsAtomic k b desk pair n rate h
    apply-IsAtomic k b (fx_option desk pair t n x) h = fx_option-IsAtomic b desk pair t n x h
