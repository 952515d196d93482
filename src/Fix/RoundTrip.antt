-- ===== src/Fix/RoundTrip.antt =====
-- src/quantfinlib/fix/fix_parse.py, fix_order_encoder.py: what the parsers read of rendered
-- numbers.
use quant_finance_py.Prelude.{
  ℕ, zero, suc, ◌+◌, ◌-◌, ◌*◌, ◌/◌, ◌%◌, ◌^◌, ◌<◌, ◌≡◌, refl, ap, sym, subst, ◌∙◌, true, false,
  ◌||◌, none, some, List, [], ◌∷◌, ◌++◌, ◌==◌, ltb, if◌then◌else◌, arith, length, All, Bool-cases,
  replicate, inl, inr, length-append,
}
use mathlib.Core.List.{append-nil}
use native.Mathlib.Nat.{mod-lt, one-le-pow, div-add-mod'}
use quant_finance_py.Prelude.Int.{ℤ, pos, negsuc, ◌+ℤ◌}
use quant_finance_py.Fix.Parse.{
  minus, dot, ascii_zero, ascii_nine, step, all_zeros, parse_long_from, parse_long, digits_or_else,
  parse_long_or_else, mantissa_from, price_mantissa, price_decimals,
}
use quant_finance_py.Fix.Render.{decimal_digits, decimal, padded, price}
use quant_finance_py.Fix.Digits.{
  IsDigit, spelled, decimal_digits_one, decimal_digits_more, decimal_digits-IsDigit,
  spelled-decimal_digits, padded-IsDigit, length-padded, spelled-padded,
}

-- Digits are read as what they spell.
pub step_digit : (n b : ℕ) → IsDigit b → step (pos n) b ≡ pos (n * 10 + (b - 48))
unfolding step ◌+ℤ◌
step_digit n b h = let (lo, hi) = h in ground arith

parse_long_from_digits :
    (n : ℕ) (bs ts : List ℕ)
    → All IsDigit bs
    → parse_long_from (pos n) (bs ++ ts) ≡ parse_long_from (pos (spelled n bs)) ts
unfolding parse_long_from spelled
parse_long_from_digits n [] ts h = refl
parse_long_from_digits n (b ∷ bs) ts ((lo, hi), hs) =
    let not_minus : (b == minus) ≡ false = ground arith in
    let not_dot : (b == dot) ≡ false = ground arith in
    rw (not_minus, not_dot, step_digit n b (lo, hi))
      (parse_long_from_digits (n * 10 + (b - 48)) bs ts hs)

digits_or_else_digits :
    (n : ℕ) (bs : List ℕ) (fallback : ℤ)
    → All IsDigit bs
    → digits_or_else (pos n) bs fallback ≡ pos (spelled n bs)
unfolding digits_or_else spelled
digits_or_else_digits n [] fallback h = refl
digits_or_else_digits n (b ∷ bs) fallback ((lo, hi), hs) =
    let digit : (ltb b ascii_zero || ltb ascii_nine b) ≡ false = ground arith in
    rw (digit, step_digit n b (lo, hi)) (digits_or_else_digits (n * 10 + (b - 48)) bs fallback hs)

mantissa_from_digits :
    (n : ℕ) (bs ts : List ℕ)
    → All IsDigit bs
    → mantissa_from (pos n) (bs ++ ts) ≡ mantissa_from (pos (spelled n bs)) ts
unfolding mantissa_from spelled
mantissa_from_digits n [] ts h = refl
mantissa_from_digits n (b ∷ bs) ts ((lo, hi), hs) =
    let not_dot : (b == dot) ≡ false = ground arith in
    ap (λ c. mantissa_from (if c then pos n else step (pos n) b) (bs ++ ts)) not_dot
    ∙ ap (λ v. mantissa_from v (bs ++ ts)) (step_digit n b (lo, hi))
    ∙ mantissa_from_digits (n * 10 + (b - 48)) bs ts hs

price_decimals_digits :
    (bs ts : List ℕ) → All IsDigit bs → price_decimals (bs ++ ts) ≡ price_decimals ts
unfolding price_decimals
price_decimals_digits [] ts h = refl
price_decimals_digits (b ∷ bs) ts ((lo, hi), hs) =
    let not_dot : (b == dot) ≡ false = ground arith in rw not_dot (price_decimals_digits bs ts hs)

all_zeros-minus : (front back : List ℕ) → all_zeros (front ++ minus ∷ back) ≡ false
unfolding all_zeros
all_zeros-minus [] back = refl
all_zeros-minus (b ∷ bs) back = elim (Bool-cases (b == ascii_zero)) [
  | inl c ↦ rw c (all_zeros-minus bs back)
  | inr c ↦ rw c
]

all_zeros-replicate : (k : ℕ) → all_zeros (replicate k ascii_zero) ≡ true
unfolding all_zeros
all_zeros-replicate zero = refl
all_zeros-replicate (suc k) = all_zeros-replicate k

parse_long_from-minus :
    (v : ℤ) (front back : List ℕ) → parse_long_from v (front ++ minus ∷ back) ≡ none
unfolding parse_long_from
parse_long_from-minus v [] back = refl
parse_long_from-minus v (b ∷ bs) back =
    let zeros = all_zeros-minus bs back in
    let rest = parse_long_from-minus (step v b) bs back in
    elim (Bool-cases (b == minus)) [
      | inl c ↦ rw c
      | inr c ↦ elim (Bool-cases (b == dot)) [ inl d ↦ rw (c, d, zeros) | inr d ↦ rw (c, d) rest ]
    ]

length-decimal_digits : (fuel n : ℕ) → 0 < length (decimal_digits (suc fuel) n)
length-decimal_digits fuel n = elim (Bool-cases (ltb n 10)) [
  | inl c ↦ subst (λ xs. 0 < length xs) (sym (decimal_digits_one fuel n c)) (omega arith)
  | inr c ↦
      subst (λ xs. 0 < length xs) (sym (decimal_digits_more fuel n c))
        (omega (arith, length-append (decimal_digits fuel (n / 10)) ((48 + n % 10) ∷ [])))
]

parse_long_or_else_digits :
    (bs : List ℕ) (fallback : ℤ)
    → All IsDigit bs
    → 0 < length bs
    → parse_long_or_else bs fallback ≡ pos (spelled 0 bs)
unfolding parse_long_or_else
parse_long_or_else_digits [] fallback h k = ground arith
parse_long_or_else_digits (b ∷ bs) fallback h k = digits_or_else_digits 0 (b ∷ bs) fallback h

price_mantissa_digits :
    (bs ts : List ℕ)
    → All IsDigit bs
    → 0 < length bs
    → price_mantissa (bs ++ ts) ≡ mantissa_from (pos (spelled 0 bs)) ts
unfolding price_mantissa
price_mantissa_digits [] ts h k = ground arith
price_mantissa_digits (b ∷ bs) ts h k =
    let (lo, hi) = h.0 in
    let not_minus : (b == minus) ≡ false = ground arith in
    rw not_minus (mantissa_from_digits 0 (b ∷ bs) ts h)

-- What is known of `decimal`.
module _ (n : ℕ) where
  decimal-IsDigit : All IsDigit (decimal n)
  unfolding decimal
  decimal-IsDigit = decimal_digits-IsDigit (suc n) n

  spelled-decimal : spelled 0 (decimal n) ≡ n
  unfolding decimal
  spelled-decimal = spelled-decimal_digits (suc n) n (omega arith)

  length-decimal : 0 < length (decimal n)
  unfolding decimal
  length-decimal = length-decimal_digits n n

-- A rendered integer is read back, alone and with a zero fraction behind it.
pub parse_long-decimal :
    (n k : ℕ)
    → (parse_long (decimal n) ≡ some (pos n))
      × (parse_long (decimal n ++ dot ∷ replicate k ascii_zero) ≡ some (pos n))
unfolding parse_long
parse_long-decimal n k =
    let read = λ (ts : List ℕ).
      parse_long_from_digits 0 (decimal n) ts (decimal-IsDigit n)
      ∙ ap (λ v. parse_long_from (pos v) ts) (spelled-decimal n) in
    (
      ap parse_long (sym (append-nil (decimal n))) ∙ read [] ∙ (unfold parse_long_from in refl),
      read (dot ∷ replicate k ascii_zero) ∙ (unfold parse_long_from in rw (all_zeros-replicate k)),
    )

-- A rendered integer is read back by the tolerant parser, whatever its fallback.
pub parse_long_or_else-decimal :
    (n : ℕ) (fallback : ℤ) → parse_long_or_else (decimal n) fallback ≡ pos n
parse_long_or_else-decimal n fallback =
    parse_long_or_else_digits (decimal n) fallback (decimal-IsDigit n) (length-decimal n)
    ∙ ap pos (spelled-decimal n)

price_mantissa-decimal :
    (n : ℕ) (ts : List ℕ) → price_mantissa (decimal n ++ ts) ≡ mantissa_from (pos n) ts
price_mantissa-decimal n ts =
    price_mantissa_digits (decimal n) ts (decimal-IsDigit n) (length-decimal n)
    ∙ ap (λ v. mantissa_from (pos v) ts) (spelled-decimal n)

-- A minus sign anywhere in the field is refused.
pub parse_long-minus : (front back : List ℕ) → parse_long (front ++ minus ∷ back) ≡ none
unfolding parse_long
parse_long-minus front back = parse_long_from-minus (pos 0) front back

whole_price : (m : ℕ) → (price_mantissa (decimal m) ≡ pos m) × (price_decimals (decimal m) ≡ 0)
whole_price m = (
  ap price_mantissa (sym (append-nil (decimal m)))
      ∙ price_mantissa-decimal m []
      ∙ (unfold mantissa_from in refl),
  ap price_decimals (sym (append-nil (decimal m)))
      ∙ price_decimals_digits (decimal m) [] (decimal-IsDigit m)
      ∙ (unfold price_decimals in refl),
)

mantissa_from-dot :
    (n : ℕ) (bs : List ℕ) → All IsDigit bs → mantissa_from (pos n) (dot ∷ bs) ≡ pos (spelled n bs)
unfolding mantissa_from
mantissa_from-dot n bs h =
    ap (mantissa_from (pos n)) (sym (append-nil bs)) ∙ mantissa_from_digits n bs [] h

scaled_price :
    (m w : ℕ)
    → (price_mantissa (decimal (m / 10 ^ w) ++ dot ∷ padded w (m % 10 ^ w)) ≡ pos m)
      × (price_decimals (decimal (m / 10 ^ w) ++ dot ∷ padded w (m % 10 ^ w)) ≡ w)
scaled_price m w =
    let small : m % 10 ^ w < 10 ^ w = mod-lt m (one-le-pow w 10 (omega arith)) in
    let frac = padded w (m % 10 ^ w) in
    (
      price_mantissa-decimal (m / 10 ^ w) (dot ∷ frac)
          ∙ mantissa_from-dot (m / 10 ^ w) frac (padded-IsDigit w (m % 10 ^ w))
          ∙ ap pos (spelled-padded (m / 10 ^ w) w (m % 10 ^ w) small ∙ div-add-mod' m (10 ^ w)),
      price_decimals_digits (decimal (m / 10 ^ w)) (dot ∷ frac) (decimal-IsDigit (m / 10 ^ w))
          ∙ (unfold price_decimals in length-padded w (m % 10 ^ w)),
    )

-- The mantissa and the decimals of a price that the encoder rendered are read back.
pub price_mantissa-price :
    (m d : ℤ) (bs : List ℕ)
    → price m d ≡ some bs
    → (price_mantissa bs ≡ m) × (pos (price_decimals bs) ≡ d)
unfolding price
price_mantissa-price (pos m) (pos zero) bs h =
    let (a, b) = whole_price m in
    let same : decimal m ≡ bs = cc in
    subst (λ x. (price_mantissa x ≡ pos m) × (pos (price_decimals x) ≡ pos 0)) same (a, ap pos b)
price_mantissa-price (pos m) (pos (suc d)) bs h =
    let (a, b) = scaled_price m (suc d) in
    let same : (decimal (m / 10 ^ suc d) ++ dot ∷ padded (suc d) (m % 10 ^ suc d)) ≡ bs = cc in
    subst (λ x. (price_mantissa x ≡ pos m) × (pos (price_decimals x) ≡ pos (suc d))) same
      (a, ap pos b)
price_mantissa-price (negsuc m) d bs h = cc
price_mantissa-price (pos m) (negsuc d) bs h = cc
