-- ===== src/L3Book/Rows.antt =====
-- The table of tracked rows, as rows are credited, dropped and added.
use quant_finance_py.Prelude.{
  ℕ, ◌-◌, ◌≡◌, refl, subst, sym, ◌∙◌, Bool, false, none, List, [], ◌∷◌, ◌++◌, arith, ◌==◌,
  if◌then◌else◌, All, Bool-cases, inl, inr,
}
use quant_finance_py.L3Book.Orders.{Node, Tracked, credits, credit_ahead, untrack_row, find_row}
use quant_finance_py.L3Book.Sums.{find-append}
use quant_finance_py.L3Book.Ahead.{Ordered, ahead_of-append}
use quant_finance_py.L3Book.Tracking.{IsExact, DistinctRows}

-- The rows are exact for the orders, one to a reference, and the orders stand by arrival.
pub record Tracks (ns : List Node) (ts : List Tracked) : Type 0 where
  pub rows : All (IsExact ns) ts
  pub distinct : DistinctRows ts
  pub ordered : Ordered ns

pub find_row-credit_ahead :
    (r : ℕ) (n : Node) (q : ℕ) (by_seq : Bool) (ts : List Tracked)
    → find_row r ts ≡ none
    → find_row r (credit_ahead n q by_seq ts) ≡ none
unfolding find_row credit_ahead
find_row-credit_ahead r n q by_seq [] h = h
find_row-credit_ahead r n q by_seq (t ∷ ts) h =
    ground (arith, find_row-credit_ahead r n q by_seq ts)

pub DistinctRows-credit_ahead :
    (n : Node) (q : ℕ) (by_seq : Bool) (ts : List Tracked)
    → DistinctRows ts
    → DistinctRows (credit_ahead n q by_seq ts)
unfolding credit_ahead
DistinctRows-credit_ahead n q by_seq [] d = d
DistinctRows-credit_ahead n q by_seq (t ∷ ts) d = (
  subst (λ r. find_row r (credit_ahead n q by_seq ts) ≡ none) (same t)
      (find_row-credit_ahead t.ref n q by_seq ts d.0),
  DistinctRows-credit_ahead n q by_seq ts d.1,
)
  where
    same :
        (u : Tracked)
        → u.ref ≡ (if credits n by_seq u then record u { ahead = u.ahead - q } else u).ref
    same u = ground arith

pub find_row-untrack_row :
    (r j : ℕ) (ts : List Tracked) → find_row j ts ≡ none → find_row j (untrack_row r ts) ≡ none
unfolding find_row untrack_row
find_row-untrack_row r j [] h = h
find_row-untrack_row r j (t ∷ ts) h = ground (arith, find_row-untrack_row r j ts)

pub DistinctRows-untrack_row :
    (r : ℕ) (ts : List Tracked) → DistinctRows ts → DistinctRows (untrack_row r ts)
unfolding untrack_row
DistinctRows-untrack_row r [] d = d
DistinctRows-untrack_row r (t ∷ ts) d = elim (Bool-cases (t.ref == r)) [
  | inl e ↦ rw e d.1
  | inr e ↦ rw e (find_row-untrack_row r t.ref ts d.0, DistinctRows-untrack_row r ts d.1)
]

pub rows-untrack_row :
    (ns : List Node) (r : ℕ) (ts : List Tracked)
    → All (IsExact ns) ts
    → All (IsExact ns) (untrack_row r ts)
unfolding untrack_row
rows-untrack_row ns r [] h = h
rows-untrack_row ns r (t ∷ ts) h = elim (Bool-cases (t.ref == r)) [
  | inl e ↦ rw e h.1
  | inr e ↦ rw e (h.0, rows-untrack_row ns r ts h.1)
]

pub rows-append :
    (ns : List Node) (n : Node) (ts : List Tracked)
    → All (IsExact ns) ts
    → All (IsExact (ns ++ n ∷ [])) ts
rows-append ns n [] h = tt
rows-append ns n (t ∷ ts) h =
    let (x, found, seq, level, ahead) = h.0 in
    (
      (
        x,
        find-append t.ref ns n ∙ rw found refl,
        seq,
        level,
        ahead ∙ sym (ahead_of-append t.ref t.side t.tick ns n x found),
      ),
      rows-append ns n ts h.1,
    )

pub rows_snoc :
    (ns : List Node) (ts : List Tracked) (t : Tracked)
    → All (IsExact ns) ts
    → IsExact ns t
    → All (IsExact ns) (ts ++ t ∷ [])
rows_snoc ns [] t h e = (e, tt)
rows_snoc ns (u ∷ ts) t h e = (h.0, rows_snoc ns ts t h.1 e)

pub find_row_snoc :
    (r : ℕ) (ts : List Tracked) (t : Tracked)
    → find_row r ts ≡ none
    → (t.ref == r) ≡ false
    → find_row r (ts ++ t ∷ []) ≡ none
unfolding find_row
find_row_snoc r [] t h e = rw e
find_row_snoc r (u ∷ ts) t h e = ground (arith, find_row_snoc r ts t)

pub DistinctRows-snoc :
    (ts : List Tracked) (t : Tracked)
    → DistinctRows ts
    → find_row t.ref ts ≡ none
    → DistinctRows (ts ++ t ∷ [])
unfolding find_row
DistinctRows-snoc [] t d h = (refl, tt)
DistinctRows-snoc (u ∷ ts) t d h =
    (find_row_snoc u.ref ts t d.0 (ground arith), DistinctRows-snoc ts t d.1 (ground arith))
