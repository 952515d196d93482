-- ===== src/Itch/Encode.antt =====
-- src/quantfinlib/marketdata/itch_codec.py: the encoders. Each writes a contiguous message; `field`
-- is `struct.pack_into` of an unsigned field.
use quant_finance_py.Prelude.{
  ℕ, ◌+◌, ◌/◌, ◌%◌, ◌^◌, ◌&&◌, Option, none, some, List, ◌∷◌, ◌++◌, ltb, leb, if◌then◌else◌, length,
  take, drop,
}
use quant_finance_py.Prelude.Int.{ℤ}
use quant_finance_py.Prelude.Maybe.{◌>>=◌, require}
use quant_finance_py.Prelude.Bytes.{be, fits}
use quant_finance_py.Itch.{add, executed, cancel, delete, replace, trade, mask_price}

-- `_header`: the type, the locate code, a zero tracking number and the 48-bit time.
unfoldable pub header : ℕ → ℕ → ℕ → List ℕ
unfolding be
header msg_type locate ts_nanos =
    msg_type
    ∷ (be 2 (locate % 2 ^ 16)
        ++ 0 ∷ 0 ∷ ts_nanos / 2 ^ 40 % 256 ∷ ts_nanos / 2 ^ 32 % 256 ∷ be 4 (ts_nanos % 2 ^ 32))

unfoldable pub add_bytes : ℕ → ℕ → ℕ → ℕ → ℕ → ℕ → ℤ → List ℕ
unfolding be header
add_bytes locate ts order_ref side shares packed_stock price_tick =
    header add locate ts
    ++ (be 8 order_ref
        ++ (side ∷ (be 4 shares ++ (be 8 packed_stock ++ be 4 (mask_price price_tick)))))

unfoldable pub executed_bytes : ℕ → ℕ → ℕ → ℕ → ℕ → List ℕ
unfolding be header
executed_bytes locate ts order_ref executed_shares match_number =
    header executed locate ts ++ (be 8 order_ref ++ (be 4 executed_shares ++ be 8 match_number))

unfoldable pub cancel_bytes : ℕ → ℕ → ℕ → ℕ → List ℕ
unfolding be header
cancel_bytes locate ts order_ref cancelled_shares =
    header cancel locate ts ++ (be 8 order_ref ++ be 4 cancelled_shares)

unfoldable pub delete_bytes : ℕ → ℕ → ℕ → List ℕ
unfolding be header
delete_bytes locate ts order_ref = header delete locate ts ++ be 8 order_ref

unfoldable pub replace_bytes : ℕ → ℕ → ℕ → ℕ → ℕ → ℤ → List ℕ
unfolding be header
replace_bytes locate ts orig_ref new_ref shares price_tick =
    header replace locate ts
    ++ (be 8 orig_ref ++ (be 8 new_ref ++ (be 4 shares ++ be 4 (mask_price price_tick))))

unfoldable pub trade_bytes : ℕ → ℕ → ℕ → ℕ → ℕ → ℕ → ℤ → ℕ → List ℕ
unfolding be header
trade_bytes locate ts order_ref side shares packed_stock price_tick match_number =
    header trade locate ts
    ++ (be 8 order_ref
        ++ (side
            ∷ (be 4 shares
                ++ (be 8 packed_stock ++ (be 4 (mask_price price_tick) ++ be 8 match_number)))))

-- A message written into a buffer from an offset on.
unfoldable pub write : List ℕ → ℕ → List ℕ → Option (List ℕ)
write buf off msg =
    if leb (off + length msg) (length buf)
    then some (take off buf ++ (msg ++ drop (off + length msg) buf))
    else none

-- The encoders: the buffer after the call and the bytes written.
unfoldable pub encode_add : List ℕ → ℕ → ℕ → ℕ → ℕ → ℕ → ℕ → ℕ → ℤ → Option (List ℕ × ℕ)
unfolding add_bytes write
encode_add buf off locate ts order_ref side shares packed_stock price_tick =
    require (fits 8 order_ref && (ltb side 256 && (fits 4 shares && fits 8 packed_stock))) (do
      buf' ← write buf off (add_bytes locate ts order_ref side shares packed_stock price_tick)
      some (buf', 36))

unfoldable pub encode_executed : List ℕ → ℕ → ℕ → ℕ → ℕ → ℕ → ℕ → Option (List ℕ × ℕ)
unfolding executed_bytes write
encode_executed buf off locate ts order_ref executed_shares match_number =
    require (fits 8 order_ref && (fits 4 executed_shares && fits 8 match_number)) (do
      buf' ← write buf off (executed_bytes locate ts order_ref executed_shares match_number)
      some (buf', 31))

unfoldable pub encode_cancel : List ℕ → ℕ → ℕ → ℕ → ℕ → ℕ → Option (List ℕ × ℕ)
unfolding cancel_bytes write
encode_cancel buf off locate ts order_ref cancelled_shares =
    require (fits 8 order_ref && fits 4 cancelled_shares)
      (do buf' ← write buf off (cancel_bytes locate ts order_ref cancelled_shares); some (buf', 23))

unfoldable pub encode_delete : List ℕ → ℕ → ℕ → ℕ → ℕ → Option (List ℕ × ℕ)
unfolding delete_bytes write
encode_delete buf off locate ts order_ref =
    require (fits 8 order_ref)
      (do buf' ← write buf off (delete_bytes locate ts order_ref); some (buf', 19))

unfoldable pub encode_replace : List ℕ → ℕ → ℕ → ℕ → ℕ → ℕ → ℕ → ℤ → Option (List ℕ × ℕ)
unfolding replace_bytes write
encode_replace buf off locate ts orig_ref new_ref shares price_tick =
    require (fits 8 orig_ref && (fits 8 new_ref && fits 4 shares)) (do
      buf' ← write buf off (replace_bytes locate ts orig_ref new_ref shares price_tick)
      some (buf', 35))

unfoldable pub encode_trade : List ℕ → ℕ → ℕ → ℕ → ℕ → ℕ → ℕ → ℕ → ℤ → ℕ → Option (List ℕ × ℕ)
unfolding trade_bytes write
encode_trade buf off locate ts order_ref side shares packed_stock price_tick match_number =
    require
      (fits 8 order_ref
        && (ltb side 256 && (fits 4 shares && (fits 8 packed_stock && fits 8 match_number))))
      (do
        buf' ←
            write buf off
              (trade_bytes locate ts order_ref side shares packed_stock price_tick match_number)
        some (buf', 44))
