-- ===== src/Prelude/Dict.antt =====
-- Dictionaries with texts as keys, in the order in which the keys came.
use mathlib.Core.Path.{◌≡◌, refl, ap, ◌∙◌}
use mathlib.Core.Logic.{inl, inr}
use mathlib.Core.Bool.{Bool, true, false, ◌&&◌}
use mathlib.Core.Option.{Option, none, some}
use mathlib.Core.List.{List, [], ◌∷◌}
use native.Mathlib.Omega.{arith}
use Prim.Native.Nat.{ℕ}
use quant_finance_py.Prelude.Tests.{◌==◌, if◌then◌else◌, Bool-cases}

-- A text is the list of its code points.
abbrev pub Text : Type 0
Text = List ℕ

abbrev pub Dict {ℓ} : Type ℓ → Type ℓ
Dict A = List (Text × A)

unfoldable pub same_text : Text → Text → Bool
same_text [] [] = true
same_text [] (y ∷ ys) = false
same_text (x ∷ xs) [] = false
same_text (x ∷ xs) (y ∷ ys) = (x == y) && same_text xs ys

unfoldable pub find_key {ℓ} : {A : Type ℓ} → Text → Dict A → Option A
unfolding same_text
find_key k [] = none
find_key k (e ∷ es) = if same_text e.0 k then some e.1 else find_key k es

unfoldable pub put_key {ℓ} : {A : Type ℓ} → Text → A → Dict A → Dict A
unfolding same_text
put_key k v [] = (k, v) ∷ []
put_key k v (e ∷ es) = if same_text e.0 k then (e.0, v) ∷ es else e ∷ put_key k v es

pub same_text_self : (k : Text) → same_text k k ≡ true
unfolding same_text
same_text_self [] = refl
same_text_self (x ∷ xs) =
    (let same : (x == x) ≡ true = ground arith in rw (same, same_text_self xs) refl)

pub same_text-eq : (j k : Text) → same_text j k ≡ true → j ≡ k
unfolding same_text
same_text-eq [] [] h = refl
same_text-eq [] (y ∷ ys) h = cc
same_text-eq (x ∷ xs) [] h = cc
same_text-eq (x ∷ xs) (y ∷ ys) h = elim (Bool-cases (x == y)) [
  | inl c ↦
      (let rest : same_text xs ys ≡ true = rw c at h in
        let same : x ≡ y = ground arith in
        ap (λ z. z ∷ xs) same ∙ ap (λ zs. y ∷ zs) (same_text-eq xs ys rest))
  | inr c ↦ (let bad : false ≡ true = rw c at h in cc)
]

pub find_key-put_key_self {ℓ} :
    {A : Type ℓ} (k : Text) (v : A) (es : Dict A) → find_key k (put_key k v es) ≡ some v
unfolding find_key put_key
find_key-put_key_self k v [] = rw (same_text_self k) refl
find_key-put_key_self k v (e ∷ es) = elim (Bool-cases (same_text e.0 k)) [
  | inl c ↦ rw (c, c) refl
  | inr c ↦ rw (c, c) (find_key-put_key_self k v es)
]

pub find_key-put_key_other {ℓ} :
    {A : Type ℓ} (j k : Text) (v : A) (es : Dict A)
    → same_text k j ≡ false
    → find_key j (put_key k v es) ≡ find_key j es
unfolding find_key put_key
find_key-put_key_other j k v [] h = rw h refl
find_key-put_key_other j k v (e ∷ es) h = elim (Bool-cases (same_text e.0 k)) [
  | inl c ↦
      (let is = same_text-eq e.0 k c in
        let other : same_text e.0 j ≡ false = ap (λ x. same_text x j) is ∙ h in rw (c, other) refl)
  | inr c ↦ elim (Bool-cases (same_text e.0 j)) [
    | inl o ↦ rw (c, o) refl
    | inr o ↦ rw (c, o) (find_key-put_key_other j k v es h)
  ]
]
