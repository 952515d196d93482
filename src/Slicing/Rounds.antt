-- ===== src/Slicing/Rounds.antt =====
-- src/quantfinlib/execution/vwap_scheduler.py: 64-bit sums of entries that are not negative, and the
-- rounds that deal out the remainder.
use quant_finance_py.Prelude.{
  ℕ, zero, suc, ◌+◌, ◌-◌, ◌^◌, ◌%◌, ◌≤◌, ◌<◌, ◌≡◌, refl, ap, sym, subst, ◌∙◌, true, some, List, [],
  ◌∷◌, length, get_elem?, set, length-set, arith, All,
}
use quant_finance_py.Prelude.Int.{ℤ, pos, negsuc, pos_part, neg_part, ◌+ℤ◌, ◌-ℤ◌, int_laws, ◌≤ℤ◌}
use quant_finance_py.Slicing.{fits_entry, wrapped, bump, deal, allocated}

abbrev pub sum_ℤ : List ℤ → ℤ
sum_ℤ [] = pos 0
sum_ℤ (x ∷ xs) = x +ℤ sum_ℤ xs

abbrev pub largest : ℕ
largest = 2 ^ 63 - 1

abbrev pub IsNatural : ℤ → Type 0
IsNatural x = neg_part x ≡ 0

pub wrapped_small : (x : ℤ) → IsNatural x → pos_part x ≤ largest → wrapped x ≡ x
unfolding wrapped
wrapped_small (pos n) h k = ground arith
wrapped_small (negsuc n) h k = absurd (omega arith)

pub fits_small : (x : ℤ) → IsNatural x → pos_part x ≤ largest → fits_entry x ≡ true
fits_small (pos n) h k = ground arith
fits_small (negsuc n) h k = absurd (omega arith)

pub IsNatural-plus :
    (x y : ℤ)
    → IsNatural x
    → IsNatural y
    → IsNatural (x +ℤ y) × (pos_part (x +ℤ y) ≡ pos_part x + pos_part y)
unfolding ◌+ℤ◌
IsNatural-plus (pos a) (pos b) h k = (ground arith, ground arith)
IsNatural-plus (pos a) (negsuc b) h k = absurd (omega arith)
IsNatural-plus (negsuc a) y h k = absurd (omega arith)

pub IsNatural-minus :
    (x y : ℤ)
    → IsNatural x
    → IsNatural y
    → y ≤ℤ x
    → IsNatural (x -ℤ y) × (pos_part (x -ℤ y) ≡ pos_part x - pos_part y)
unfolding ◌-ℤ◌
IsNatural-minus (pos a) (pos b) h k le = (ground arith, ground arith)
IsNatural-minus (pos a) (negsuc b) h k le = absurd (omega arith)
IsNatural-minus (negsuc a) y h k le = absurd (omega arith)

pub sum-IsNatural : (xs : List ℤ) → All IsNatural xs → IsNatural (sum_ℤ xs)
sum-IsNatural [] h = refl
sum-IsNatural (x ∷ xs) h = (IsNatural-plus x (sum_ℤ xs) h.0 (sum-IsNatural xs h.1)).0

-- An entry is at most the sum.
get-le-sum :
    (xs : List ℤ) (i : ℕ) (v : ℤ)
    → All IsNatural xs
    → get_elem? xs i ≡ some v
    → IsNatural v × (pos_part v ≤ pos_part (sum_ℤ xs))
get-le-sum [] i v h k = cc
get-le-sum (x ∷ xs) zero v h k =
    let same : x ≡ v = cc in
    let both = IsNatural-plus x (sum_ℤ xs) h.0 (sum-IsNatural xs h.1) in
    subst (λ z. IsNatural z × (pos_part z ≤ pos_part (x +ℤ sum_ℤ xs))) same (h.0, omega arith)
get-le-sum (x ∷ xs) (suc i) v h k =
    let both = IsNatural-plus x (sum_ℤ xs) h.0 (sum-IsNatural xs h.1) in
    let (natural, le) = get-le-sum xs i v h.1 k in (natural, omega arith)

All-set :
    (xs : List ℤ) (i : ℕ) (v : ℤ) → All IsNatural xs → IsNatural v → All IsNatural (set xs i v)
All-set [] i v h k = tt
All-set (x ∷ xs) zero v h k = (k, h.1)
All-set (x ∷ xs) (suc i) v h k = (h.0, All-set xs i v h.1 k)

plus_assoc : (x y z : ℤ) → x +ℤ (y +ℤ z) ≡ (x +ℤ y) +ℤ z
plus_assoc x y z = omega int_laws

pub allocated-sum :
    (acc : ℤ) (xs : List ℤ)
    → IsNatural acc
    → All IsNatural xs
    → pos_part acc + pos_part (sum_ℤ xs) ≤ largest
    → allocated acc xs ≡ acc +ℤ sum_ℤ xs
unfolding allocated
allocated-sum acc [] h k fits = omega int_laws
allocated-sum acc (x ∷ xs) h k fits =
    let first = IsNatural-plus acc x h k.0 in
    let all = IsNatural-plus x (sum_ℤ xs) k.0 (sum-IsNatural xs k.1) in
    ap (λ a. allocated a xs) (wrapped_small (acc +ℤ x) first.0 (omega arith))
    ∙ allocated-sum (acc +ℤ x) xs first.0 k.1 (omega arith)
    ∙ sym (plus_assoc acc x (sum_ℤ xs))

bump_at :
    (out : List ℤ) (i : ℕ) (v : ℤ)
    → get_elem? out i ≡ some v
    → IsNatural v
    → pos_part v < largest
    → bump out i ≡ some (set out i (v +ℤ pos 1))
unfolding bump
bump_at out i v here natural below =
    let more = IsNatural-plus v (pos 1) natural refl in
    rw (here, bump) (ap (λ x. some (set out i x)) (wrapped_small (v +ℤ pos 1) more.0 (omega arith)))

-- What the argsort of an array of `n` entries gives: `n` indices of entries.
abbrev pub IsOrder : ℕ → List ℕ → Type 0
IsOrder n order = (length order ≡ n) × All (λ i. i < n) order

get_in_range {ℓ} :
    {A : Type ℓ} (xs : List A) (i : ℕ) → i < length xs → (x : A) × (get_elem? xs i ≡ some x)
get_in_range [] i h = absurd (omega arith)
get_in_range (x ∷ xs) zero h = (x, refl)
get_in_range (x ∷ xs) (suc i) h = get_in_range xs i (omega arith)

All-get : (n : ℕ) (xs : List ℕ) (i x : ℕ) → All (λ j. j < n) xs → get_elem? xs i ≡ some x → x < n
All-get n [] i x h k = cc
All-get n (y ∷ ys) zero x h k = (let same : y ≡ x = cc in subst (λ j. j < n) same h.0)
All-get n (y ∷ ys) (suc i) x h k = All-get n ys i x h.1 k

plus_one : (x s : ℤ) → (x +ℤ pos 1) +ℤ s ≡ (x +ℤ s) +ℤ pos 1
plus_one x s = omega int_laws

plus_suc : (x : ℤ) (n : ℕ) → (x +ℤ pos 1) +ℤ pos n ≡ x +ℤ pos (suc n)
plus_suc x n = omega int_laws

sum-set :
    (xs : List ℤ) (i : ℕ) (x : ℤ)
    → get_elem? xs i ≡ some x
    → sum_ℤ (set xs i (x +ℤ pos 1)) ≡ sum_ℤ xs +ℤ pos 1
sum-set [] i x h = cc
sum-set (y ∷ ys) zero x h =
    (let same : y ≡ x = cc in
      subst (λ z. (x +ℤ pos 1) +ℤ sum_ℤ ys ≡ (z +ℤ sum_ℤ ys) +ℤ pos 1) (sym same)
        (plus_one x (sum_ℤ ys)))
sum-set (y ∷ ys) (suc i) x h = ap (λ s. y +ℤ s) (sum-set ys i x h) ∙ plus_assoc y (sum_ℤ ys) (pos 1)

deal_on :
    (order : List ℕ) (left k : ℕ) (out out' : List ℤ) (i : ℕ)
    → get_elem? order (k % length out) ≡ some i
    → bump out i ≡ some out'
    → deal order (suc left) k out ≡ deal order left (suc k) out'
unfolding deal
deal_on order left k out out' i h here = rw (h, deal, here)

-- Each round adds one.
pub deal-sum :
    (order : List ℕ) (left k : ℕ) (out : List ℤ)
    → IsOrder (length out) order
    → 0 < length out
    → All IsNatural out
    → pos_part (sum_ℤ out) + left ≤ largest
    → (out' : List ℤ) × (deal order left k out ≡ some out')
      × (sum_ℤ out' ≡ sum_ℤ out +ℤ pos left)
      × (length out' ≡ length out)
unfolding deal
deal-sum order zero k out h p natural fits = (out, refl, omega int_laws, refl)
deal-sum order (suc left) k out h p natural fits =
    let below : k % length out < length out = omega arith in
    let at : k % length out < length order = subst (λ n. k % length out < n) (sym h.0) below in
    let (i, found) = get_in_range order (k % length out) at in
    let within : i < length out = All-get (length out) order (k % length out) i h.1 found in
    let (v, here) = get_in_range out i within in
    let (positive, le) = get-le-sum out i v natural here in
    let same = length-set out i (v +ℤ pos 1) in
    let more = IsNatural-plus v (pos 1) positive refl in
    let next = IsNatural-plus (sum_ℤ out) (pos 1) (sum-IsNatural out natural) refl in
    let added = sum-set out i v here in
    let room = ap pos_part added in
    let (out', dealt, sum, size) =
      deal-sum order left (suc k) (set out i (v +ℤ pos 1))
        (subst (λ n. IsOrder n order) (sym same) h) (omega arith)
        (All-set out i (v +ℤ pos 1) natural more.0) (omega arith) in
    (
      out',
      deal_on order left k out _ i found (bump_at out i v here positive (omega arith)) ∙ dealt,
      sum ∙ ap (λ s. s +ℤ pos left) added ∙ plus_suc (sum_ℤ out) left,
      size ∙ same,
    )
