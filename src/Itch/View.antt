-- ===== src/Itch/View.antt =====
-- src/quantfinlib/marketdata/itch_codec.py: `ItchView`, the getters over one message.
use quant_finance_py.Prelude.{ℕ, ◌+◌, ◌*◌, ◌^◌, ◌||◌, Option, some, List, ◌==◌, if◌then◌else◌}
use quant_finance_py.Prelude.Int.{ℤ}
use quant_finance_py.Prelude.Maybe.{◌>>=◌, require}
use quant_finance_py.Prelude.Bytes.{read}
use quant_finance_py.Itch.{
  executed, cancel, replace, trade, has_side, has_shares, has_order_ref, signed_price,
}

module _ (m : List ℕ) where
  unfoldable pub type : Option ℕ
  unfolding read
  type = read 1 0 m

  unfoldable pub stock_locate : Option ℕ
  unfolding read
  stock_locate = read 2 1 m

  unfoldable pub tracking_number : Option ℕ
  unfolding read
  tracking_number = read 2 3 m

  -- `_u48`: a 16-bit and a 32-bit field.
  unfoldable pub timestamp_nanos : Option ℕ
  unfolding read
  timestamp_nanos = do hi ← read 2 5 m; lo ← read 4 7 m; some (hi * 2 ^ 32 + lo)

  unfoldable pub order_ref : Option ℕ
  unfolding read type
  order_ref = do t ← type; require (has_order_ref t) (read 8 11 m)

  unfoldable pub orig_ref : Option ℕ
  unfolding read type
  orig_ref = do t ← type; require (t == replace) (read 8 11 m)

  unfoldable pub new_ref : Option ℕ
  unfolding read type
  new_ref = do t ← type; require (t == replace) (read 8 19 m)

  unfoldable pub side_byte : Option ℕ
  unfolding read type
  side_byte = do t ← type; require (has_side t) (read 1 19 m)

  unfoldable pub shares : Option ℕ
  unfolding read type
  shares = do t ← type; require (has_shares t) (if t == replace then read 4 27 m else read 4 20 m)

  unfoldable pub delta_shares : Option ℕ
  unfolding read type
  delta_shares = do t ← type; require ((t == executed) || (t == cancel)) (read 4 19 m)

  unfoldable pub stock : Option ℕ
  unfolding read type
  stock = do t ← type; require (has_side t) (read 8 24 m)

  unfoldable pub price_tick : Option ℤ
  unfolding read type
  price_tick = do
    t ← type
    raw ← require (has_shares t) (if t == replace then read 4 31 m else read 4 32 m)
    some (signed_price raw)

  unfoldable pub match_number : Option ℕ
  unfolding read type
  match_number = do
    t ← type
    require ((t == executed) || (t == trade)) (if t == trade then read 8 36 m else read 8 23 m)
