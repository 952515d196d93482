-- ===== src/L3Book/Best.antt =====
-- The set of occupied levels and the best of them.
use quant_finance_py.Prelude.{
  ℕ, ◌≡◌, refl, true, false, not, ◌&&◌, ◌||◌, Option, none, some, List, [], ◌∷◌, arith, ◌==◌,
  if◌then◌else◌, Bool-cases, ap, sym, ◌∙◌, ==_iff, and_right, inl, inr,
}
use quant_finance_py.Execution.{Side, buy, sell}
use quant_finance_py.L3Book.Orders.{member, add, discard, improves, extreme, is_best}

member_of_eq : (a b : ℕ) (ys : List ℕ) → (a == b) ≡ true → member a ys ≡ member b ys
member_of_eq a b ys h = ap (λ c. member c ys) ((==_iff a b).0 h)

pub member-add : (i j : ℕ) (xs : List ℕ) → member j (add i xs) ≡ ((i == j) || member j xs)
unfolding add
member-add i j xs = ground (arith, member_of_eq i j xs)

pub member-discard :
    (i j : ℕ) (xs : List ℕ) → member j (discard i xs) ≡ (not (i == j) && member j xs)
unfolding member discard
member-discard i j [] = ground arith
member-discard i j (x ∷ xs) = ground (arith, member-discard i j xs)

-- The level of `o` is occupied and no occupied level improves on it; `none` is for the empty set.
abbrev pub IsExtreme : Side → List ℕ → Option ℕ → Type 0
IsExtreme s occ none = (i : ℕ) → member i occ ≡ false
IsExtreme s occ (some b) =
    (member b occ ≡ true) × ((i : ℕ) → member i occ ≡ true → improves s i (some b) ≡ false)

-- One more level: it is the best if it improves on the best there was.
IsExtreme-grow :
    (s : Side) (i : ℕ) (occ occ' : List ℕ) (o : Option ℕ)
    → ((j : ℕ) → member j occ' ≡ ((i == j) || member j occ))
    → IsExtreme s occ o
    → IsExtreme s occ' (if improves s i o then some i else o)
IsExtreme-grow buy i occ occ' none m h = (ground (arith, m i), λ j k. ground (arith, m j, h j))
IsExtreme-grow sell i occ occ' none m h = (ground (arith, m i), λ j k. ground (arith, m j, h j))
IsExtreme-grow buy i occ occ' (some b) m h = elim (Bool-cases (improves buy i (some b))) [
  | inl e ↦ rw e (ground (arith, m i), λ j k. ground (arith, m j, h.1 j))
  | inr e ↦ rw e (ground (arith, m b, h.0), λ j k. ground (arith, m j, h.1 j))
]
IsExtreme-grow sell i occ occ' (some b) m h = elim (Bool-cases (improves sell i (some b))) [
  | inl e ↦ rw e (ground (arith, m i), λ j k. ground (arith, m j, h.1 j))
  | inr e ↦ rw e (ground (arith, m b, h.0), λ j k. ground (arith, m j, h.1 j))
]

member-cons : (i j : ℕ) (xs : List ℕ) → member j (i ∷ xs) ≡ ((i == j) || member j xs)
unfolding member
member-cons i j xs = refl

pub extreme-IsExtreme : (s : Side) (occ : List ℕ) → IsExtreme s occ (extreme s occ)
unfolding extreme
extreme-IsExtreme s [] = λ i. unfold member in refl
extreme-IsExtreme s (i ∷ is) =
    IsExtreme-grow s i is (i ∷ is) (extreme s is) (λ j. member-cons i j is) (extreme-IsExtreme s is)

pub IsExtreme-add :
    (s : Side) (i : ℕ) (occ : List ℕ) (o : Option ℕ)
    → IsExtreme s occ o
    → IsExtreme s (add i occ) (if improves s i o then some i else o)
IsExtreme-add s i occ o = IsExtreme-grow s i occ (add i occ) o (λ j. member-add i j occ)

-- A level goes: the best is looked for again if it was the one.
pub IsExtreme-discard :
    (s : Side) (i : ℕ) (occ : List ℕ) (o : Option ℕ)
    → IsExtreme s occ o
    → IsExtreme s (discard i occ) (if is_best i o then extreme s (discard i occ) else o)
IsExtreme-discard s i occ none h = λ j. ground (arith, member-discard i j occ, h j)
IsExtreme-discard s i occ (some b) h = elim (Bool-cases (b == i)) [
  | inl e ↦ rw e (extreme-IsExtreme s (discard i occ))
  | inr e ↦ rw e (
    ground (arith, member-discard i b occ, h.0),
    λ j k. h.1 j (and_right (not (i == j)) (member j occ) (sym (member-discard i j occ) ∙ k)),
  )
]
