-- ===== src/Itch/Tests.antt =====
-- A symbol of six letters, one of nine with a space at the eighth place, and a field.
use quant_finance_py.Prelude.{
  ℕ, ◌%◌, ◌^◌, ◌+◌, ◌≡◌, refl, some, List, [], ◌∷◌, ◌++◌, arith, map, take,
}
use quant_finance_py.Prelude.Int.{pos}
use quant_finance_py.Prelude.Maybe.{◌>>=◌}
use quant_finance_py.Itch.{buy_byte}
use quant_finance_py.Itch.Encode.{add_bytes}
use quant_finance_py.Itch.View.{stock}
use quant_finance_py.Itch.Stock.{
  pack_stock, unpack_stock, strip_spaces, pack_stock-unpack_stock, stock-add_bytes,
}

abbrev eurusd : List ℕ
eurusd = b'E' ∷ b'U' ∷ b'R' ∷ b'U' ∷ b'S' ∷ b'D' ∷ []

kept : strip_spaces (map (λ c. c % 256) (take 8 eurusd)) ≡ eurusd
unfolding strip_spaces
kept = refl

abbrev long : List ℕ
long = eurusd ++ b'X' ∷ b' ' ∷ b'Y' ∷ []

cut_short : unpack_stock (pack_stock long) ≡ eurusd ++ b'X' ∷ []
unfolding pack_stock unpack_stock
cut_short = refl

stock-add_bytes_example :
    (stock (add_bytes 7 3 1 buy_byte 25 (pack_stock long) (pos 1048) ++ 0 ∷ []) >>= λ packed.
    some (unpack_stock packed))
    ≡ some (strip_spaces (map (λ c. c % 256) (take 8 long)))
stock-add_bytes_example = stock-add_bytes 7 3 1 buy_byte 25 long (pos 1048) (0 ∷ [])

pack_stock-unpack_stock_example : pack_stock (unpack_stock (256 ^ 3 + 32)) ≡ 256 ^ 3 + 32
pack_stock-unpack_stock_example = pack_stock-unpack_stock (256 ^ 3 + 32) (omega arith)
