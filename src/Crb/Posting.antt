-- ===== src/Crb/Posting.antt =====
-- src/quantfinlib/crb/central_risk_book.py: what one leg does to the book.
use quant_finance_py.Prelude.{
  ℕ, ◌<◌, ◌≡◌, refl, ap, sym, subst, ◌∙◌, false, ◌&&◌, Option, none, some, List, [], if◌then◌else◌,
  length, arith, Bool-cases, Option-cases, inl, inr,
}
use quant_finance_py.Prelude.Maybe.{some-inj}
use quant_finance_py.Prelude.Double.{Double, magnitude}
use quant_finance_py.Prelude.Dict.{
  Text, Dict, same_text, find_key, put_key, same_text-eq, find_key-put_key_self,
  find_key-put_key_other,
}
use quant_finance_py.Crb.{
  CentralRiskBook, nought, register, slot, bump, grown, desk_row, post, exposure, gross_exposure,
  desk_exposure,
}
use quant_finance_py.Crb.Slots.{
  HasRoom, grown-HasRoom, row_of, row_of-found, slot-row_of, slot-desk_row, length-desk_row,
  length-bump,
}
use quant_finance_py.Crb.Index.{IsRegistered, register-IsRegistered, IsIndexed}
use quant_finance_py.Crb.Ledger.{IsFresh, IsLedger, held, held-registered, held-bump, bump-IsFresh}

module _ (d : Double) where
  open d use {Num, plus}

  held-nil : (ids : Dict ℕ) (t : Text) → held d ids [] t ≡ nought d
  held-nil ids t = elim (Option-cases (find_key t ids)) [
    | inl k ↦ rw (k, held) refl
    | inr (i, k) ↦ rw (k, held) (unfold slot in refl)
  ]

  desk_exposure-held :
      (b : CentralRiskBook Num) (e t : Text)
      → desk_exposure d b e t ≡ held d b.ids (row_of d e b.desk_net) t
  unfolding desk_exposure
  desk_exposure-held b e t = elim (Option-cases (find_key e b.desk_net)) [
    | inl c ↦ rw (c, desk_exposure, row_of) (sym (held-nil b.ids t))
    | inr (row, c) ↦ rw (c, desk_exposure, row_of) refl
  ]

  row_of-put_key_self :
      (e : Text) (row : List Num) (rows : Dict (List Num)) → row_of d e (put_key e row rows) ≡ row
  row_of-put_key_self e row rows =
      row_of-found d e (put_key e row rows) row (find_key-put_key_self e row rows)

  row_of-put_key_other :
      (e desk : Text) (row : List Num) (rows : Dict (List Num))
      → same_text desk e ≡ false
      → row_of d e (put_key desk row rows) ≡ row_of d e rows
  row_of-put_key_other e desk row rows h =
      ap (λ (o : Option (List Num)). elim o [ none ↦ [] | some r ↦ r ])
        (find_key-put_key_other e desk row rows h)

  module _ (desk f : Text) (x : Num) (b : CentralRiskBook Num) (h : IsLedger d b) where
    abbrev i : ℕ
    i = (register d b f).0

    abbrev r : CentralRiskBook Num
    r = (register d b f).1

    abbrev g : CentralRiskBook Num
    g = grown d i r

    reg : IsRegistered d b f i r
    reg = register-IsRegistered d b f h.indexed

    room : HasRoom d r i g
    room = grown-HasRoom d i r (ap length reg.same_gross ∙ h.sizes ∙ ap length (sym reg.same_net))

    wider_net : (k : ℕ) → slot d k g.net ≡ slot d k b.net
    wider_net k = room.wider_net k ∙ ap (slot d k) reg.same_net

    wider_gross : (k : ℕ) → slot d k g.gross ≡ slot d k b.gross
    wider_gross k = room.wider_gross k ∙ ap (slot d k) reg.same_gross

    room_gross : i < length g.gross
    room_gross = let size = room.room_gross in let space = room.room_net in omega arith

    same_desks : g.desk_net ≡ b.desk_net
    same_desks = room.same_desks ∙ reg.same_desks

    wider_desk : (k : ℕ) → slot d k (desk_row d desk i g) ≡ slot d k (row_of d desk b.desk_net)
    wider_desk k =
        slot-desk_row d desk i g k ∙ ap (λ rows. slot d k (row_of d desk rows)) same_desks

    IsFresh-row_of : (e : Text) → IsFresh d b (row_of d e b.desk_net)
    IsFresh-row_of e k le =
        slot-row_of d k e b.desk_net (λ row found. h.fresh_desk e row found k le)

    pub exposure-post :
        (t : Text)
        → exposure d (post d desk f x b) t
          ≡ (if same_text f t then plus (exposure d b t) x else exposure d b t)
    unfolding exposure post
    exposure-post t =
        ap (λ ids. held d ids (bump d i x g.net) t) room.same_ids
        ∙ held-bump d b r f i reg b.net h.fresh_net g.net wider_net room.room_net x t

    pub gross_exposure-post :
        (t : Text)
        → gross_exposure d (post d desk f x b) t ≡ (
            if same_text f t
            then plus (gross_exposure d b t) (magnitude d x)
            else gross_exposure d b t)
    unfolding gross_exposure post
    gross_exposure-post t =
        ap (λ ids. held d ids (bump d i (magnitude d x) g.gross) t) room.same_ids
        ∙ held-bump d b r f i reg b.gross h.fresh_gross g.gross wider_gross room_gross
            (magnitude d x) t

    post_row :
        (e t : Text)
        → desk_exposure d (post d desk f x b) e t
          ≡ held d r.ids (row_of d e (put_key desk (bump d i x (desk_row d desk i g)) g.desk_net)) t
    unfolding post
    post_row e t =
        desk_exposure-held (post d desk f x b) e t
        ∙ ap
            (λ ids.
              held d ids (row_of d e (put_key desk (bump d i x (desk_row d desk i g)) g.desk_net))
                t)
            room.same_ids

    pub desk_exposure-post :
        (e t : Text)
        → desk_exposure d (post d desk f x b) e t ≡ (
            if same_text desk e && same_text f t
            then plus (desk_exposure d b e t) x
            else desk_exposure d b e t)
    desk_exposure-post e t = elim (Bool-cases (same_text desk e)) [
      | inl c ↦ rw c (
          subst
            (λ n.
              desk_exposure d (post d desk f x b) n t
              ≡ (if same_text f t then plus (desk_exposure d b n t) x else desk_exposure d b n t))
            (same_text-eq desk e c)
            (post_row desk t
              ∙ ap (λ row. held d r.ids row t)
                  (row_of-put_key_self desk (bump d i x (desk_row d desk i g)) g.desk_net)
              ∙ held-bump d b r f i reg (row_of d desk b.desk_net) (IsFresh-row_of desk)
                  (desk_row d desk i g) wider_desk (length-desk_row d desk i g room.room_net) x t
              ∙ ap (λ v. if same_text f t then plus v x else v)
                  (sym (desk_exposure-held b desk t))))
      | inr c ↦ rw c (
          post_row e t
          ∙ ap (λ row. held d r.ids row t)
              (row_of-put_key_other e desk (bump d i x (desk_row d desk i g)) g.desk_net c)
          ∙ ap (λ rows. held d r.ids (row_of d e rows) t) same_desks
          ∙ held-registered d b r f i reg (row_of d e b.desk_net) (IsFresh-row_of e) t
          ∙ sym (desk_exposure-held b e t))
    ]

    IsFresh-post : (xs : List Num) → IsFresh d r xs → IsFresh d (post d desk f x b) xs
    unfolding post
    IsFresh-post xs fresh k le = fresh k (let size = ap length room.same_names in omega arith)

    find_key-post :
        (t : Text) (k : ℕ) → find_key t (post d desk f x b).ids ≡ some k → find_key t r.ids ≡ some k
    unfolding post
    find_key-post t k e = ap (find_key t) (sym room.same_ids) ∙ e

    post-IsIndexed : IsIndexed d (post d desk f x b)
    unfolding post
    post-IsIndexed = record {
      below = λ t k e.
          let low = reg.indexed.below t k (find_key-post t k e) in
          let size = ap length room.same_names in omega arith;
      apart = λ t u k e e'. reg.indexed.apart t u k (find_key-post t k e) (find_key-post u k e');
    }

    IsFresh-desk_net :
        (e : Text) (row : List Num)
        → find_key e (post d desk f x b).desk_net ≡ some row
        → IsFresh d r row
    unfolding post
    IsFresh-desk_net e row found = elim (Bool-cases (same_text desk e)) [
      | inl c ↦
          (let mine = bump d i x (desk_row d desk i g) in
            let now : find_key desk (put_key desk mine g.desk_net) ≡ some row =
              ap (λ n. find_key n (put_key desk mine g.desk_net)) (same_text-eq desk e c) ∙ found in
            let is = some-inj mine row (sym (find_key-put_key_self desk mine g.desk_net) ∙ now) in
            subst (IsFresh d r) is (
              bump-IsFresh d b r f i reg (row_of d desk b.desk_net) (IsFresh-row_of desk)
                (desk_row d desk i g) wider_desk (length-desk_row d desk i g room.room_net) x))
      | inr c ↦
          (let old : find_key e b.desk_net ≡ some row =
              ap (find_key e) (sym same_desks)
              ∙ sym (find_key-put_key_other e desk (bump d i x (desk_row d desk i g)) g.desk_net c)
              ∙ found in
            λ k le. h.fresh_desk e row old k (let up = reg.grows in omega arith))
    ]

    pub post-IsLedger : IsLedger d (post d desk f x b)
    unfolding post
    post-IsLedger = record {
      indexed = post-IsIndexed;
      sizes =
          length-bump d i (magnitude d x) g.gross ∙ room.room_gross ∙ sym (length-bump d i x g.net);
      fresh_net =
          IsFresh-post _
            (bump-IsFresh d b r f i reg b.net h.fresh_net g.net wider_net room.room_net x);
      fresh_gross = IsFresh-post _ (
          bump-IsFresh d b r f i reg b.gross h.fresh_gross g.gross wider_gross room_gross
            (magnitude d x));
      fresh_desk = λ e row found. IsFresh-post row (IsFresh-desk_net e row found);
    }

    pub post_fixings : (post d desk f x b).pending_fixings ≡ b.pending_fixings
    unfolding post
    post_fixings = room.same_fixings ∙ reg.same_fixings

    pub post_count : (post d desk f x b).flows_booked ≡ b.flows_booked
    unfolding post
    post_count = room.same_count ∙ reg.same_count
