-- ===== src/Fix/Parse.antt =====
-- src/quantfinlib/fix/fix_parse.py: a field is the list of its bytes, from `frm` up to `to`.
-- A byte below '0' counts as a negative digit, as it does in the source, so that values are signed.
use quant_finance_py.Prelude.{
  ℕ, ◌+◌, ◌*◌, Bool, true, ◌||◌, ◌&&◌, Option, none, some, List, [], ◌∷◌, ◌==◌, ltb, if◌then◌else◌,
  length,
}
use quant_finance_py.Prelude.Int.{ℤ, pos, negsuc, ◌+ℤ◌, sub_ℕ, neg_part, pos_part}

abbrev pub minus : ℕ
minus = b'-'

abbrev pub dot : ℕ
dot = b'.'

abbrev pub ascii_zero : ℕ
ascii_zero = b'0'

abbrev pub ascii_nine : ℕ
ascii_nine = b'9'

-- `v * 10 + (b - _ZERO)`.
unfoldable pub step : ℤ → ℕ → ℤ
unfolding ◌+ℤ◌
step (pos n) b = pos (n * 10) +ℤ sub_ℕ b ascii_zero
step (negsuc n) b = negsuc (n * 10 + 9) +ℤ sub_ℕ b ascii_zero

unfoldable pub all_zeros : List ℕ → Bool
all_zeros [] = true
all_zeros (b ∷ bs) = (b == ascii_zero) && all_zeros bs

-- The loop of `parse_long`; `none` is the raised error.
unfoldable pub parse_long_from : ℤ → List ℕ → Option ℤ
unfolding step all_zeros
parse_long_from v [] = some v
parse_long_from v (b ∷ bs) =
    let rest = parse_long_from (step v b) bs in
    if b == minus then none else if b == dot then (if all_zeros bs then some v else none) else rest

unfoldable pub parse_long : List ℕ → Option ℤ
unfolding parse_long_from
parse_long bs = parse_long_from (pos 0) bs

unfoldable pub digits_or_else : ℤ → List ℕ → ℤ → ℤ
unfolding step
digits_or_else v [] fallback = v
digits_or_else v (b ∷ bs) fallback =
    let rest = digits_or_else (step v b) bs fallback in
    if ltb b ascii_zero || ltb ascii_nine b then fallback else rest

unfoldable pub parse_long_or_else : List ℕ → ℤ → ℤ
unfolding digits_or_else
parse_long_or_else [] fallback = fallback
parse_long_or_else (b ∷ bs) fallback = digits_or_else (pos 0) (b ∷ bs) fallback

-- The loop of `price_mantissa`.
unfoldable pub mantissa_from : ℤ → List ℕ → ℤ
unfolding step
mantissa_from v [] = v
mantissa_from v (b ∷ bs) = mantissa_from (if b == dot then v else step v b) bs

abbrev pub negate : ℤ → ℤ
negate v = sub_ℕ (neg_part v) (pos_part v)

unfoldable pub price_mantissa : List ℕ → ℤ
unfolding mantissa_from
price_mantissa [] = pos 0
price_mantissa (b ∷ bs) =
    if b == minus then negate (mantissa_from (pos 0) bs) else mantissa_from (pos 0) (b ∷ bs)

-- The bytes behind the first point.
unfoldable pub price_decimals : List ℕ → ℕ
price_decimals [] = 0
price_decimals (b ∷ bs) = let rest = price_decimals bs in if b == dot then length bs else rest
