-- ===== src/Itch/RoundTrip.antt =====
-- What an encoder writes, the view reads back.
use quant_finance_py.Prelude.{
  ℕ, ◌+◌, ◌-◌, ◌%◌, ◌^◌, ◌<◌, ◌≡◌, refl, ap, true, some, List, [], ◌∷◌, ◌++◌, arith, leb, length,
  take, drop,
}
use quant_finance_py.Prelude.Int.{ℤ, pos, negsuc, ◌≤ℤ◌}
use quant_finance_py.Prelude.Bytes.{be, be_value, read, be_value-be}
use quant_finance_py.Itch.{add, executed, cancel, delete, replace, trade, signed_price, mask_price}
use quant_finance_py.Itch.View.{
  type, stock_locate, order_ref, orig_ref, new_ref, side_byte, shares, delta_shares, price_tick,
}
use quant_finance_py.Itch.Encode.{
  add_bytes, executed_bytes, cancel_bytes, delete_bytes, replace_bytes, trade_bytes,
}

-- A field of `w` bytes that is all within the message.
read_field :
    (w i v : ℕ) (m : List ℕ)
    → leb (i + w) (length m) ≡ true
    → take w (drop i m) ≡ be w v
    → v < 256 ^ w
    → read w i m ≡ some v
unfolding read
read_field w i v m fit at h = rw (fit, at) (ap some (be_value-be w v h))

read_byte :
    (i x : ℕ) (m : List ℕ)
    → leb (i + 1) (length m) ≡ true
    → take 1 (drop i m) ≡ x ∷ []
    → read 1 i m ≡ some x
unfolding read be_value
read_byte i x m fit at = rw (fit, at) (ground arith)

-- The prices of the signed 32-bit domain survive the mask.
abbrev pub InDomain : ℤ → Type 0
InDomain p = (negsuc (2 ^ 31 - 1) ≤ℤ p) × (p ≤ℤ pos (2 ^ 31 - 1))

signed_price-mask_price : (p : ℤ) → InDomain p → signed_price (mask_price p) ≡ p
signed_price-mask_price (pos n) h = ground arith
signed_price-mask_price (negsuc n) h = ground arith

mask_price-lt : (p : ℤ) → mask_price p < 256 ^ 4
mask_price-lt (pos n) = omega arith
mask_price-lt (negsuc n) = omega arith

read_price :
    (i : ℕ) (p : ℤ) (m : List ℕ)
    → leb (i + 4) (length m) ≡ true
    → take 4 (drop i m) ≡ be 4 (mask_price p)
    → read 4 i m ≡ some (mask_price p)
read_price i p m fit at = read_field 4 i (mask_price p) m fit at (mask_price-lt p)

-- An add.
module _ (locate ts ref side n stock : ℕ) (price : ℤ) (rest : List ℕ) where
  abbrev pub add_message : List ℕ
  add_message = add_bytes locate ts ref side n stock price ++ rest

  pub add-header :
      (read 1 0 add_message ≡ some add) × (read 2 1 add_message ≡ some (locate % 2 ^ 16))
  unfolding add_bytes
  add-header = (
    read_byte 0 add add_message (ground arith) refl,
    read_field 2 1 (locate % 2 ^ 16) add_message (ground arith) refl (omega arith),
  )

  add-ref : ref < 256 ^ 8 → read 8 11 add_message ≡ some ref
  unfolding add_bytes
  add-ref h = read_field 8 11 ref add_message (ground arith) refl h

  add-side : read 1 19 add_message ≡ some side
  unfolding add_bytes
  add-side = read_byte 19 side add_message (ground arith) refl

  add-shares : n < 256 ^ 4 → read 4 20 add_message ≡ some n
  unfolding add_bytes
  add-shares h = read_field 4 20 n add_message (ground arith) refl h

  add-price : read 4 32 add_message ≡ some (mask_price price)
  unfolding add_bytes
  add-price = read_price 32 price add_message (ground arith) refl

  pub add-stock : stock < 256 ^ 8 → read 8 24 add_message ≡ some stock
  unfolding add_bytes
  add-stock h = read_field 8 24 stock add_message (ground arith) refl h

  -- Every field of an encoded add is read back, the locate code by its low 16 bits.
  pub add_fields :
      ref < 256 ^ 8
      → n < 256 ^ 4
      → InDomain price
      → (type add_message ≡ some add)
        × (stock_locate add_message ≡ some (locate % 2 ^ 16))
        × (order_ref add_message ≡ some ref)
        × (side_byte add_message ≡ some side)
        × (shares add_message ≡ some n)
        × (price_tick add_message ≡ some price)
  unfolding type stock_locate order_ref side_byte shares price_tick
  add_fields h k d = (
    add-header.0,
    add-header.1,
    rw (add-header.0, add-ref h),
    rw (add-header.0, add-side),
    rw (add-header.0, add-shares k),
    rw (add-header.0, add-price, signed_price-mask_price price d),
  )

-- An execution.
module _ (locate ts ref n match : ℕ) (rest : List ℕ) where
  abbrev executed_message : List ℕ
  executed_message = executed_bytes locate ts ref n match ++ rest

  executed-header :
      (read 1 0 executed_message ≡ some executed)
      × (read 2 1 executed_message ≡ some (locate % 2 ^ 16))
  unfolding executed_bytes
  executed-header = (
    read_byte 0 executed executed_message (ground arith) refl,
    read_field 2 1 (locate % 2 ^ 16) executed_message (ground arith) refl (omega arith),
  )

  executed-ref : ref < 256 ^ 8 → read 8 11 executed_message ≡ some ref
  unfolding executed_bytes
  executed-ref h = read_field 8 11 ref executed_message (ground arith) refl h

  executed-shares : n < 256 ^ 4 → read 4 19 executed_message ≡ some n
  unfolding executed_bytes
  executed-shares h = read_field 4 19 n executed_message (ground arith) refl h

  -- Every field of an encoded execution that the book uses is read back.
  pub executed_fields :
      ref < 256 ^ 8
      → n < 256 ^ 4
      → (type executed_message ≡ some executed)
        × (stock_locate executed_message ≡ some (locate % 2 ^ 16))
        × (order_ref executed_message ≡ some ref)
        × (delta_shares executed_message ≡ some n)
  unfolding type stock_locate order_ref delta_shares
  executed_fields h k = (
    executed-header.0,
    executed-header.1,
    rw (executed-header.0, executed-ref h),
    rw (executed-header.0, executed-shares k),
  )

-- A partial cancel.
module _ (locate ts ref n : ℕ) (rest : List ℕ) where
  abbrev cancel_message : List ℕ
  cancel_message = cancel_bytes locate ts ref n ++ rest

  cancel-header :
      (read 1 0 cancel_message ≡ some cancel) × (read 2 1 cancel_message ≡ some (locate % 2 ^ 16))
  unfolding cancel_bytes
  cancel-header = (
    read_byte 0 cancel cancel_message (ground arith) refl,
    read_field 2 1 (locate % 2 ^ 16) cancel_message (ground arith) refl (omega arith),
  )

  cancel-ref : ref < 256 ^ 8 → read 8 11 cancel_message ≡ some ref
  unfolding cancel_bytes
  cancel-ref h = read_field 8 11 ref cancel_message (ground arith) refl h

  cancel-shares : n < 256 ^ 4 → read 4 19 cancel_message ≡ some n
  unfolding cancel_bytes
  cancel-shares h = read_field 4 19 n cancel_message (ground arith) refl h

  -- Every field of an encoded cancel that the book uses is read back.
  pub cancel_fields :
      ref < 256 ^ 8
      → n < 256 ^ 4
      → (type cancel_message ≡ some cancel)
        × (stock_locate cancel_message ≡ some (locate % 2 ^ 16))
        × (order_ref cancel_message ≡ some ref)
        × (delta_shares cancel_message ≡ some n)
  unfolding type stock_locate order_ref delta_shares
  cancel_fields h k = (
    cancel-header.0,
    cancel-header.1,
    rw (cancel-header.0, cancel-ref h),
    rw (cancel-header.0, cancel-shares k),
  )

-- A delete.
module _ (locate ts ref : ℕ) (rest : List ℕ) where
  abbrev delete_message : List ℕ
  delete_message = delete_bytes locate ts ref ++ rest

  delete-header :
      (read 1 0 delete_message ≡ some delete) × (read 2 1 delete_message ≡ some (locate % 2 ^ 16))
  unfolding delete_bytes
  delete-header = (
    read_byte 0 delete delete_message (ground arith) refl,
    read_field 2 1 (locate % 2 ^ 16) delete_message (ground arith) refl (omega arith),
  )

  delete-ref : ref < 256 ^ 8 → read 8 11 delete_message ≡ some ref
  unfolding delete_bytes
  delete-ref h = read_field 8 11 ref delete_message (ground arith) refl h

  -- Every field of an encoded delete is read back.
  pub delete_fields :
      ref < 256 ^ 8
      → (type delete_message ≡ some delete)
        × (stock_locate delete_message ≡ some (locate % 2 ^ 16))
        × (order_ref delete_message ≡ some ref)
  unfolding type stock_locate order_ref
  delete_fields h = (delete-header.0, delete-header.1, rw (delete-header.0, delete-ref h))

-- A replace.
module _ (locate ts ref ref' n : ℕ) (price : ℤ) (rest : List ℕ) where
  abbrev replace_message : List ℕ
  replace_message = replace_bytes locate ts ref ref' n price ++ rest

  replace-header :
      (read 1 0 replace_message ≡ some replace)
      × (read 2 1 replace_message ≡ some (locate % 2 ^ 16))
  unfolding replace_bytes
  replace-header = (
    read_byte 0 replace replace_message (ground arith) refl,
    read_field 2 1 (locate % 2 ^ 16) replace_message (ground arith) refl (omega arith),
  )

  replace-ref : ref < 256 ^ 8 → read 8 11 replace_message ≡ some ref
  unfolding replace_bytes
  replace-ref h = read_field 8 11 ref replace_message (ground arith) refl h

  replace-new_ref : ref' < 256 ^ 8 → read 8 19 replace_message ≡ some ref'
  unfolding replace_bytes
  replace-new_ref h = read_field 8 19 ref' replace_message (ground arith) refl h

  replace-shares : n < 256 ^ 4 → read 4 27 replace_message ≡ some n
  unfolding replace_bytes
  replace-shares h = read_field 4 27 n replace_message (ground arith) refl h

  replace-price : read 4 31 replace_message ≡ some (mask_price price)
  unfolding replace_bytes
  replace-price = read_price 31 price replace_message (ground arith) refl

  -- Every field of an encoded replace is read back.
  pub replace_fields :
      ref < 256 ^ 8
      → ref' < 256 ^ 8
      → n < 256 ^ 4
      → InDomain price
      → (type replace_message ≡ some replace)
        × (stock_locate replace_message ≡ some (locate % 2 ^ 16))
        × (orig_ref replace_message ≡ some ref)
        × (new_ref replace_message ≡ some ref')
        × (shares replace_message ≡ some n)
        × (price_tick replace_message ≡ some price)
  unfolding type stock_locate orig_ref new_ref shares price_tick
  replace_fields h h' k d = (
    replace-header.0,
    replace-header.1,
    rw (replace-header.0, replace-ref h),
    rw (replace-header.0, replace-new_ref h'),
    rw (replace-header.0, replace-shares k),
    rw (replace-header.0, replace-price, signed_price-mask_price price d),
  )

-- A trade off the book.
module _ (locate ts ref side n stock : ℕ) (price : ℤ) (match : ℕ) (rest : List ℕ) where
  abbrev trade_message : List ℕ
  trade_message = trade_bytes locate ts ref side n stock price match ++ rest

  trade-header :
      (read 1 0 trade_message ≡ some trade) × (read 2 1 trade_message ≡ some (locate % 2 ^ 16))
  unfolding trade_bytes
  trade-header = (
    read_byte 0 trade trade_message (ground arith) refl,
    read_field 2 1 (locate % 2 ^ 16) trade_message (ground arith) refl (omega arith),
  )

  trade-price : read 4 32 trade_message ≡ some (mask_price price)
  unfolding trade_bytes
  trade-price = read_price 32 price trade_message (ground arith) refl

  -- The price of an encoded trade is read back.
  pub trade_fields :
      InDomain price
      → (type trade_message ≡ some trade)
        × (stock_locate trade_message ≡ some (locate % 2 ^ 16))
        × (price_tick trade_message ≡ some price)
  unfolding type stock_locate price_tick
  trade_fields d = (
    trade-header.0,
    trade-header.1,
    rw (trade-header.0, trade-price, signed_price-mask_price price d),
  )
