-- ===== src/Crb/Slots.antt =====
-- src/quantfinlib/crb/{central_risk_book,factor_registry}.py: the arrays and the index of the book.
use quant_finance_py.Prelude.{
  ℕ, zero, suc, ◌+◌, ◌-◌, ◌*◌, ◌≤◌, ◌<◌, max, ◌≡◌, inl, inr, refl, ◌∙◌, false, none, some, List, [],
  ◌∷◌, ◌++◌, ◌==◌, ltb, if◌then◌else◌, length, set, replicate, arith, Bool-cases, Option-cases,
  length-set, length-append, length-replicate, get_elem?-set_self,
}
use quant_finance_py.Prelude.Double.{Double}
use quant_finance_py.Prelude.Dict.{Text, Dict, find_key}
use quant_finance_py.Crb.{CentralRiskBook, nought, slot, widen, bump, grown, desk_row}

module _ (d : Double) where
  open d use {Num, plus}

  slot-set_self : (i : ℕ) (xs : List Num) (v : Num) → i < length xs → slot d i (set xs i v) ≡ v
  unfolding slot
  slot-set_self i xs v h = rw (get_elem?-set_self xs i v h, slot) refl

  slot-set_other :
      (i j : ℕ) (xs : List Num) (v : Num) → (i == j) ≡ false → slot d j (set xs i v) ≡ slot d j xs
  unfolding slot
  slot-set_other i j [] v h = refl
  slot-set_other zero zero (x ∷ xs) v h = absurd (ground arith)
  slot-set_other zero (suc j) (x ∷ xs) v h = refl
  slot-set_other (suc i) zero (x ∷ xs) v h = refl
  slot-set_other (suc i) (suc j) (x ∷ xs) v h = slot-set_other i j xs v (ground arith)

  pub slot-replicate : (i n : ℕ) → slot d i (replicate n (nought d)) ≡ nought d
  unfolding slot
  slot-replicate i zero = refl
  slot-replicate zero (suc n) = refl
  slot-replicate (suc i) (suc n) = slot-replicate i n

  slot-append : (i n : ℕ) (xs : List Num) → slot d i (xs ++ replicate n (nought d)) ≡ slot d i xs
  unfolding slot
  slot-append i n [] = slot-replicate i n
  slot-append zero n (x ∷ xs) = refl
  slot-append (suc i) n (x ∷ xs) = slot-append i n xs

  pub slot-widen : (i n : ℕ) (xs : List Num) → slot d i (widen d n xs) ≡ slot d i xs
  unfolding widen
  slot-widen i n xs = slot-append i (n - length xs) xs

  pub length-widen : (n : ℕ) (xs : List Num) → n ≤ length (widen d n xs)
  unfolding widen
  length-widen n xs = omega (
    arith,
    length-append xs (replicate (n - length xs) (nought d)),
    length-replicate (n - length xs) (nought d),
  )

  pub slot-bump_self :
      (i : ℕ) (x : Num) (xs : List Num)
      → i < length xs
      → slot d i (bump d i x xs) ≡ plus (slot d i xs) x
  unfolding bump
  slot-bump_self i x xs h = slot-set_self i xs (plus (slot d i xs) x) h

  pub slot-bump_other :
      (i j : ℕ) (x : Num) (xs : List Num)
      → (i == j) ≡ false
      → slot d j (bump d i x xs) ≡ slot d j xs
  unfolding bump
  slot-bump_other i j x xs h = slot-set_other i j xs (plus (slot d i xs) x) h

  pub length-bump : (i : ℕ) (x : Num) (xs : List Num) → length (bump d i x xs) ≡ length xs
  unfolding bump
  length-bump i x xs = length-set xs i (plus (slot d i xs) x)

  -- A book whose arrays have room for index `i`.
  pub record HasRoom (b : CentralRiskBook Num) (i : ℕ) (g : CentralRiskBook Num) : Type 0 where
    pub room_net : i < length g.net
    pub room_gross : length g.gross ≡ length g.net
    pub wider_net : (k : ℕ) → slot d k g.net ≡ slot d k b.net
    pub wider_gross : (k : ℕ) → slot d k g.gross ≡ slot d k b.gross
    pub same_ids : g.ids ≡ b.ids
    pub same_names : g.names ≡ b.names
    pub same_desks : g.desk_net ≡ b.desk_net
    pub same_fixings : g.pending_fixings ≡ b.pending_fixings
    pub same_count : g.flows_booked ≡ b.flows_booked

  same_length :
      (n : ℕ) (xs ys : List Num)
      → length xs ≡ length ys
      → length (widen d n xs) ≡ length (widen d n ys)
  unfolding widen
  same_length n xs ys e = omega (
    arith,
    length-append xs (replicate (n - length xs) (nought d)),
    length-append ys (replicate (n - length ys) (nought d)),
    length-replicate (n - length xs) (nought d),
    length-replicate (n - length ys) (nought d),
  )

  pub grown-HasRoom :
      (i : ℕ) (b : CentralRiskBook Num) → length b.gross ≡ length b.net → HasRoom b i (grown d i b)
  unfolding grown
  grown-HasRoom i b h = elim (Bool-cases (ltb i (length b.net))) [
    | inl c ↦
        rw (c, grown)
          (record {
            room_net = ground arith;
            room_gross = h;
            wider_net = λ k. refl;
            wider_gross = λ k. refl;
            same_ids = refl;
            same_names = refl;
            same_desks = refl;
            same_fixings = refl;
            same_count = refl;
          })
    | inr c ↦
        (let n = max (length b.net * 2) (i + 1) in
          let long = length-widen n b.net in
          rw (c, grown)
            (record {
              room_net = ground arith;
              room_gross = same_length n b.gross b.net h;
              wider_net = λ k. slot-widen k n b.net;
              wider_gross = λ k. slot-widen k n b.gross;
              same_ids = refl;
              same_names = refl;
              same_desks = refl;
              same_fixings = refl;
              same_count = refl;
            }))
  ]

  -- The exposures of a desk, none of a desk without any.
  abbrev pub row_of : Text → Dict (List Num) → List Num
  row_of desk rows = elim (find_key desk rows) [ none ↦ [] | some row ↦ row ]

  pub row_of-found :
      (desk : Text) (rows : Dict (List Num)) (row : List Num)
      → find_key desk rows ≡ some row
      → row_of desk rows ≡ row
  row_of-found desk rows row h = rw (h, row_of) refl

  pub slot-row_of :
      (k : ℕ) (desk : Text) (rows : Dict (List Num))
      → ((row : List Num) → find_key desk rows ≡ some row → slot d k row ≡ nought d)
      → slot d k (row_of desk rows) ≡ nought d
  slot-row_of k desk rows h = elim (Option-cases (find_key desk rows)) [
    | inl c ↦ rw (c, row_of) (unfold slot in refl)
    | inr (row, c) ↦ rw (c, row_of) (h row c)
  ]

  widened :
      (i n : ℕ) (xs : List Num) (k : ℕ)
      → slot d k (if ltb i (length xs) then xs else widen d n xs) ≡ slot d k xs
  widened i n xs k = elim (Bool-cases (ltb i (length xs))) [
    | inl c ↦ rw c refl
    | inr c ↦ rw c (slot-widen k n xs)
  ]

  room_in :
      (i n : ℕ) (xs : List Num)
      → i < n
      → i < length (if ltb i (length xs) then xs else widen d n xs)
  room_in i n xs h = elim (Bool-cases (ltb i (length xs))) [
    | inl c ↦ rw c (ground arith)
    | inr c ↦ rw c (let long = length-widen n xs in omega arith)
  ]

  module _ (desk : Text) (i : ℕ) (b : CentralRiskBook Num) where
    pub slot-desk_row : (k : ℕ) → slot d k (desk_row d desk i b) ≡ slot d k (row_of desk b.desk_net)
    unfolding desk_row
    slot-desk_row k = elim (Option-cases (find_key desk b.desk_net)) [
      | inl c ↦
          rw (c, desk_row, row_of)
            (widened i (length b.net) (replicate (length b.net) (nought d)) k
              ∙ slot-replicate k (length b.net)
              ∙ (unfold slot in refl))
      | inr (row, c) ↦ rw (c, desk_row, row_of) (widened i (length b.net) row k)
    ]

    pub length-desk_row : i < length b.net → i < length (desk_row d desk i b)
    unfolding desk_row
    length-desk_row h = elim (Option-cases (find_key desk b.desk_net)) [
      | inl c ↦ rw (c, desk_row) (room_in i (length b.net) (replicate (length b.net) (nought d)) h)
      | inr (row, c) ↦ rw (c, desk_row) (room_in i (length b.net) row h)
    ]
