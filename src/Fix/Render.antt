-- ===== src/Fix/Render.antt =====
-- src/quantfinlib/fix/fix_order_encoder.py: `_price`, with `str` and the zero-padded format of
-- integers, for numbers.
use quant_finance_py.Prelude.{
  ℕ, zero, suc, ◌+◌, ◌/◌, ◌%◌, ◌^◌, true, false, Option, none, some, List, [], ◌∷◌, ◌++◌, ltb,
}
use quant_finance_py.Prelude.Int.{ℤ, pos, negsuc}
use quant_finance_py.Fix.Parse.{dot, ascii_zero}

-- `str(n)`, by one round for each digit, of which a number below 10 ^ fuel has at most `fuel`.
unfoldable pub decimal_digits : ℕ → ℕ → List ℕ
decimal_digits zero n = []
decimal_digits (suc fuel) n = elim (ltb n 10) [
  | true ↦ (ascii_zero + n) ∷ []
  | false ↦ decimal_digits fuel (n / 10) ++ (ascii_zero + n % 10) ∷ []
]

unfoldable pub decimal : ℕ → List ℕ
unfolding decimal_digits
decimal n = decimal_digits (suc n) n

-- `f"{n:0{w}d}"` of a number below 10 ^ w.
unfoldable pub padded : ℕ → ℕ → List ℕ
padded zero n = []
padded (suc w) n = padded w (n / 10) ++ (ascii_zero + n % 10) ∷ []

-- `_price`; `none` is the raised error.
unfoldable pub price : ℤ → ℤ → Option (List ℕ)
unfolding decimal padded
price (pos m) (pos zero) = some (decimal m)
price (pos m) (pos (suc d)) =
    some (decimal (m / 10 ^ suc d) ++ dot ∷ padded (suc d) (m % 10 ^ suc d))
price (negsuc m) d = none
price (pos m) (negsuc d) = none
