-- ===== src/Crb/Netting.antt =====
-- src/quantfinlib/crb/central_risk_book.py: the book under any flows is the ledger of their legs.
use quant_finance_py.Prelude.{
  ◌≡◌, inl, inr, refl, ap, sym, subst, ◌∙◌, Bool, ◌&&◌, none, some, List, [], ◌∷◌, ◌++◌,
  if◌then◌else◌,
}
use quant_finance_py.Prelude.Double.{Double, magnitude}
use quant_finance_py.Prelude.Dict.{Text, Dict, same_text, find_key}
use quant_finance_py.Crb.{
  CentralRiskBook, Outcome, returned, raised, nought, new_book, post, exposure, gross_exposure,
  desk_exposure,
}
use quant_finance_py.Crb.Products.{Greeks}
use quant_finance_py.Crb.Slots.{slot-replicate}
use quant_finance_py.Crb.Ledger.{IsLedger}
use quant_finance_py.Crb.Posting.{
  exposure-post, gross_exposure-post, desk_exposure-post, post-IsLedger,
}
use quant_finance_py.Crb.Flows.{Flow, Leg, post_all, with_flow, apply, legs_of, fixings_after}
use quant_finance_py.Crb.Bookings.{post_all-IsLedger, apply-IsAtomic}

module _ (d : Double) where
  open d use {Num, plus, negate, finite}

  -- What some legs add to an amount, in their order: those of a factor, their sizes, and those of a
  -- desk.
  abbrev pub total : Text → List (Leg Num) → Num → Num
  total t [] v = v
  total t (l ∷ ls) v = total t ls (if same_text l.factor t then plus v l.amount else v)

  abbrev pub gross_total : Text → List (Leg Num) → Num → Num
  gross_total t [] v = v
  gross_total t (l ∷ ls) v =
      gross_total t ls (if same_text l.factor t then plus v (magnitude d l.amount) else v)

  abbrev pub desk_total : Text → Text → List (Leg Num) → Num → Num
  desk_total e t [] v = v
  desk_total e t (l ∷ ls) v =
      desk_total e t ls (if same_text l.desk e && same_text l.factor t then plus v l.amount else v)

  -- The book holds what the legs add to another book.
  abbrev pub HasTotals : List (Leg Num) → CentralRiskBook Num → CentralRiskBook Num → Type 0
  HasTotals ls b b' =
      (e t : Text)
      → (exposure d b' t ≡ total t ls (exposure d b t))
        × (gross_exposure d b' t ≡ gross_total t ls (gross_exposure d b t))
        × (desk_exposure d b' e t ≡ desk_total e t ls (desk_exposure d b e t))

  post_all-HasTotals :
      (ls : List (Leg Num)) (b : CentralRiskBook Num)
      → IsLedger d b
      → HasTotals ls b (post_all d ls b)
  post_all-HasTotals [] b h e t = (refl, refl, refl)
  post_all-HasTotals (l ∷ ls) b h e t =
      let b1 = post d l.desk l.factor l.amount b in
      let (net, gross, mine) =
        post_all-HasTotals ls b1 (post-IsLedger d l.desk l.factor l.amount b h) e t in
      (
        net ∙ ap (total t ls) (exposure-post d l.desk l.factor l.amount b h t),
        gross ∙ ap (gross_total t ls) (gross_exposure-post d l.desk l.factor l.amount b h t),
        mine ∙ ap (desk_total e t ls) (desk_exposure-post d l.desk l.factor l.amount b h e t),
      )

  with_flow-HasTotals :
      (ls : List (Leg Num)) (fixings : Dict Num) (b : CentralRiskBook Num)
      → IsLedger d b
      → HasTotals ls b (with_flow d ls fixings b)
  unfolding exposure gross_exposure desk_exposure
  with_flow-HasTotals ls fixings b h e t = post_all-HasTotals ls b h e t

  totals-append :
      (ls ms : List (Leg Num)) (b b1 b2 : CentralRiskBook Num)
      → HasTotals ls b b1
      → HasTotals ms b1 b2
      → HasTotals (ls ++ ms) b b2
  totals-append ls ms b b1 b2 h k e t =
      let (net, gross, mine) = h e t in
      let (net', gross', mine') = k e t in
      (
        net' ∙ ap (total t ms) net ∙ sym (total-append ls (exposure d b t)),
        gross' ∙ ap (gross_total t ms) gross ∙ sym (gross_total-append ls (gross_exposure d b t)),
        mine' ∙ ap (desk_total e t ms) mine ∙ sym (desk_total-append ls (desk_exposure d b e t)),
      )
    where
      total-append :
          (xs : List (Leg Num)) (v : Num) → total t (xs ++ ms) v ≡ total t ms (total t xs v)
      total-append [] v = refl
      total-append (x ∷ xs) v =
          total-append xs (if same_text x.factor t then plus v x.amount else v)

      gross_total-append :
          (xs : List (Leg Num)) (v : Num)
          → gross_total t (xs ++ ms) v ≡ gross_total t ms (gross_total t xs v)
      gross_total-append [] v = refl
      gross_total-append (x ∷ xs) v =
          gross_total-append xs (if same_text x.factor t then plus v (magnitude d x.amount) else v)

      desk_total-append :
          (xs : List (Leg Num)) (v : Num)
          → desk_total e t (xs ++ ms) v ≡ desk_total e t ms (desk_total e t xs v)
      desk_total-append [] v = refl
      desk_total-append (x ∷ xs) v =
          desk_total-append xs
            (if same_text x.desk e && same_text x.factor t then plus v x.amount else v)

  with_flow-IsLedger :
      (ls : List (Leg Num)) (fixings : Dict Num) (b : CentralRiskBook Num)
      → IsLedger d b
      → IsLedger d (with_flow d ls fixings b)
  with_flow-IsLedger ls fixings b h =
      let k = post_all-IsLedger d ls b h in
      record {
        indexed = record { below = k.indexed.below; apart = k.indexed.apart };
        sizes = k.sizes;
        fresh_net = k.fresh_net;
        fresh_gross = k.fresh_gross;
        fresh_desk = k.fresh_desk;
      }

  pub new_book-IsLedger : IsLedger d (new_book d)
  unfolding find_key
  new_book-IsLedger = record {
    indexed = record {
      below = λ f i e. absurd (let none_found : none ≡ some i = e in cc);
      apart = λ f g i e e'. absurd (let none_found : none ≡ some i = e in cc);
    };
    sizes = refl;
    fresh_net = λ i le. slot-replicate d i 16;
    fresh_gross = λ i le. slot-replicate d i 16;
    fresh_desk = λ e row found. absurd (let none_found : none ≡ some row = found in cc);
  }

  abbrev pub book_of : Outcome (CentralRiskBook Num) → CentralRiskBook Num
  book_of (returned b) = b
  book_of (raised b) = b

  abbrev pub legs_if : Outcome (CentralRiskBook Num) → List (Leg Num) → List (Leg Num)
  legs_if (returned b) ls = ls
  legs_if (raised b) ls = []

  module _ (is_blank : Text → Bool) (greeks : Greeks Num) where
    -- The book behind some flows, whatever raised, and the legs of those that did not.
    abbrev pub run : CentralRiskBook Num → List (Flow Num) → CentralRiskBook Num
    run b [] = b
    run b (f ∷ fs) = run (book_of (apply d is_blank greeks b f)) fs

    abbrev pub booked_legs : CentralRiskBook Num → List (Flow Num) → List (Leg Num)
    booked_legs b [] = []
    booked_legs b (f ∷ fs) =
        legs_if (apply d is_blank greeks b f) (legs_of d is_blank greeks f)
        ++ booked_legs (book_of (apply d is_blank greeks b f)) fs

    module _ (finite_negate : (x : Num) → finite (negate x) ≡ finite x) where
      apply-HasTotals :
          (b : CentralRiskBook Num) (f : Flow Num)
          → IsLedger d b
          → IsLedger d (book_of (apply d is_blank greeks b f))
            × HasTotals
                (legs_if (apply d is_blank greeks b f) (legs_of d is_blank greeks f))
                b
                (book_of (apply d is_blank greeks b f))
      apply-HasTotals b f h = elim (apply-IsAtomic d is_blank greeks finite_negate b f h) [
        | inl e ↦
            subst
              (λ o.
                IsLedger d (book_of o)
                × HasTotals (legs_if o (legs_of d is_blank greeks f)) b (book_of o))
              (sym e) (h, λ e t. (refl, refl, refl))
        | inr e ↦
            subst
              (λ o.
                IsLedger d (book_of o)
                × HasTotals (legs_if o (legs_of d is_blank greeks f)) b (book_of o))
              (sym e)
              (
                with_flow-IsLedger (legs_of d is_blank greeks f)
                    (fixings_after d is_blank greeks f b) b h,
                with_flow-HasTotals (legs_of d is_blank greeks f)
                    (fixings_after d is_blank greeks f b) b h,
              )
      ]

      run-HasTotals :
          (fs : List (Flow Num)) (b : CentralRiskBook Num)
          → IsLedger d b
          → HasTotals (booked_legs b fs) b (run b fs)
      run-HasTotals [] b h = λ e t. (refl, refl, refl)
      run-HasTotals (f ∷ fs) b h =
          let (k, first) = apply-HasTotals b f h in
          totals-append (legs_if (apply d is_blank greeks b f) (legs_of d is_blank greeks f))
            (booked_legs (book_of (apply d is_blank greeks b f)) fs) b
            (book_of (apply d is_blank greeks b f)) (run b (f ∷ fs)) first
            (run-HasTotals fs (book_of (apply d is_blank greeks b f)) k)

      -- After any flows into a new book, the net exposure of a factor is the sum of the amounts of
      -- its legs in their order, the gross exposure that of their sizes, and a desk's exposure that
      -- of the desk's own legs; the legs are those of the flows that did not raise. The negative of
      -- a number is finite exactly if it is.
      pub run-new_book :
          (fs : List (Flow Num)) (e t : Text)
          → (exposure d (run (new_book d) fs) t ≡ total t (booked_legs (new_book d) fs) (nought d))
            × (gross_exposure d (run (new_book d) fs) t
                ≡ gross_total t (booked_legs (new_book d) fs) (nought d))
            × (desk_exposure d (run (new_book d) fs) e t
                ≡ desk_total e t (booked_legs (new_book d) fs) (nought d))
      unfolding exposure gross_exposure desk_exposure
      run-new_book fs e t = run-HasTotals fs (new_book d) new_book-IsLedger e t
