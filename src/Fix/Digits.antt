-- ===== src/Fix/Digits.antt =====
-- src/quantfinlib/fix/fix_order_encoder.py: rendered numbers are digits that spell them.
use quant_finance_py.Prelude.{
  ℕ, zero, suc, ◌+◌, ◌-◌, ◌*◌, ◌/◌, ◌%◌, ◌^◌, ◌<◌, ◌≤◌, ◌≡◌, refl, ap, sym, subst, ◌∙◌, true, false,
  List, [], ◌∷◌, ◌++◌, ltb, arith, length, All, Bool-cases, inl, inr, length-append,
}
use native.Mathlib.Nat.{pow-suc, mul_assoc}
use quant_finance_py.Fix.Render.{decimal_digits, padded}

abbrev pub IsDigit : ℕ → Type 0
IsDigit b = (48 ≤ b) × (b < 58)

-- The number that digits spell behind `acc`.
unfoldable pub spelled : ℕ → List ℕ → ℕ
spelled acc [] = acc
spelled acc (b ∷ bs) = spelled (acc * 10 + (b - 48)) bs

spelled-append :
    (acc b : ℕ) (bs : List ℕ) → spelled acc (bs ++ b ∷ []) ≡ spelled acc bs * 10 + (b - 48)
unfolding spelled
spelled-append acc b [] = refl
spelled-append acc b (x ∷ xs) = spelled-append (acc * 10 + (x - 48)) b xs

digits-append : (b : ℕ) (bs : List ℕ) → IsDigit b → All IsDigit bs → All IsDigit (bs ++ b ∷ [])
digits-append b [] h hs = (h, tt)
digits-append b (x ∷ xs) h hs = (hs.0, digits-append b xs h hs.1)

pub decimal_digits_one :
    (fuel n : ℕ) → ltb n 10 ≡ true → decimal_digits (suc fuel) n ≡ (48 + n) ∷ []
unfolding decimal_digits
decimal_digits_one fuel n c = rw (c, decimal_digits)

pub decimal_digits_more :
    (fuel n : ℕ)
    → ltb n 10 ≡ false
    → decimal_digits (suc fuel) n ≡ decimal_digits fuel (n / 10) ++ (48 + n % 10) ∷ []
unfolding decimal_digits
decimal_digits_more fuel n c = rw (c, decimal_digits)

pub decimal_digits-IsDigit : (fuel n : ℕ) → All IsDigit (decimal_digits fuel n)
decimal_digits-IsDigit zero n = unfold decimal_digits in tt
decimal_digits-IsDigit (suc fuel) n = elim (Bool-cases (ltb n 10)) [
  | inl c ↦
      subst (All IsDigit) (sym (decimal_digits_one fuel n c)) ((omega arith, ground arith), tt)
  | inr c ↦ subst (All IsDigit) (sym (decimal_digits_more fuel n c)) (
      digits-append (48 + n % 10) _ (omega arith, omega arith)
        (decimal_digits-IsDigit fuel (n / 10)))
]

pub spelled-decimal_digits : (fuel n : ℕ) → n < fuel → spelled 0 (decimal_digits fuel n) ≡ n
spelled-decimal_digits zero n h = ground arith
spelled-decimal_digits (suc fuel) n h = elim (Bool-cases (ltb n 10)) [
  | inl c ↦ ap (spelled 0) (decimal_digits_one fuel n c) ∙ (unfold spelled in omega arith)
  | inr c ↦
      let ten : 10 ≤ n = ground arith in
      let rest = spelled-decimal_digits fuel (n / 10) (omega arith) in
      let last = spelled-append 0 (48 + n % 10) (decimal_digits fuel (n / 10)) in
      ap (spelled 0) (decimal_digits_more fuel n c) ∙ omega (arith, last, rest)
]

pub padded-IsDigit : (w n : ℕ) → All IsDigit (padded w n)
unfolding padded
padded-IsDigit zero n = tt
padded-IsDigit (suc w) n =
    digits-append (48 + n % 10) _ (omega arith, omega arith) (padded-IsDigit w (n / 10))

pub length-padded : (w n : ℕ) → length (padded w n) ≡ w
unfolding padded
length-padded zero n = refl
length-padded (suc w) n =
    omega (arith, length-append (padded w (n / 10)) ((48 + n % 10) ∷ []), length-padded w (n / 10))

pub spelled-padded : (acc w n : ℕ) → n < 10 ^ w → spelled acc (padded w n) ≡ acc * 10 ^ w + n
unfolding padded
spelled-padded acc zero n h = unfold spelled in omega arith
spelled-padded acc (suc w) n h =
    let small : n / 10 < 10 ^ w = omega (arith, pow-suc 10 w) in
    let rest = spelled-padded acc w (n / 10) small in
    rw (spelled-append acc (48 + n % 10) (padded w (n / 10)), rest, pow-suc 10 w)
      (omega (arith, mul_assoc acc (10 ^ w) 10))
