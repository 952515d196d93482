-- ===== src/Fix/Tests.antt =====
-- Rendered fields at concrete numbers, and fields of other origin.
use quant_finance_py.Prelude.{ℕ, ◌≡◌, refl, some, List, [], ◌∷◌}
use quant_finance_py.Prelude.Int.{pos, negsuc}
use quant_finance_py.Fix.Parse.{parse_long, parse_long_or_else, price_mantissa, price_decimals}
use quant_finance_py.Fix.Render.{price}
use quant_finance_py.Fix.RoundTrip.{price_mantissa-price}

-- 1.08505
abbrev quote : List ℕ
quote = b'1' ∷ b'.' ∷ b'0' ∷ b'8' ∷ b'5' ∷ b'0' ∷ b'5' ∷ []

rendered : price (pos 108505) (pos 5) ≡ some quote
unfolding price
rendered = refl

-- -0.5
negative : price_mantissa (b'-' ∷ b'0' ∷ b'.' ∷ b'5' ∷ []) ≡ negsuc 4
unfolding price_mantissa
negative = refl

-- A plus sign is taken for the digit -5.
plus_sign : parse_long (b'+' ∷ b'5' ∷ []) ≡ some (negsuc 44)
unfolding parse_long
plus_sign = refl

foreign : parse_long_or_else (b'O' ∷ b'R' ∷ b'D' ∷ []) (negsuc 0) ≡ negsuc 0
unfolding parse_long_or_else
foreign = refl

price_mantissa-price_example :
    (price_mantissa quote ≡ pos 108505) × (pos (price_decimals quote) ≡ pos 5)
unfolding price
price_mantissa-price_example = price_mantissa-price (pos 108505) (pos 5) quote refl
