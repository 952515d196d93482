-- ===== src/Itch.antt =====
-- src/quantfinlib/marketdata/itch_codec.py: the binary messages of the feed.
-- A view on a buffer at an offset is the rest of the buffer from there. An encoder gives the bytes
-- of its message, which fill the buffer from the offset on; `none` is a raised exception: a value
-- that does not fit its field, an index past the end, or a failed assertion.
pub mod View
pub mod Encode
pub mod RoundTrip
pub mod Stock
mod Tests
use quant_finance_py.Prelude.{
  ℕ, ◌+◌, ◌-◌, ◌%◌, ◌^◌, Bool, true, false, ◌||◌, Option, none, some, ◌==◌, ltb, if◌then◌else◌,
}
use quant_finance_py.Prelude.Int.{ℤ, pos, negsuc}

abbrev pub add : ℕ
add = b'A'

abbrev pub add_mpid : ℕ
add_mpid = b'F'

abbrev pub executed : ℕ
executed = b'E'

abbrev pub cancel : ℕ
cancel = b'X'

abbrev pub delete : ℕ
delete = b'D'

abbrev pub replace : ℕ
replace = b'U'

abbrev pub trade : ℕ
trade = b'P'

abbrev pub buy_byte : ℕ
buy_byte = b'B'

abbrev pub sell_byte : ℕ
sell_byte = b'S'

-- `length`: `none` is the result -1.
abbrev pub wire_length : ℕ → Option ℕ
wire_length t =
    if t == add
    then some 36
    else if t == add_mpid
    then some 40
    else if t == executed
    then some 31
    else if t == cancel
    then some 23
    else if t == delete
    then some 19
    else if t == replace
    then some 35
    else if t == trade
    then some 44
    else none

-- The sets of types that carry a field.
abbrev pub has_side : ℕ → Bool
has_side t = (t == add) || ((t == add_mpid) || (t == trade))

abbrev pub has_shares : ℕ → Bool
has_shares t = has_side t || (t == replace)

abbrev pub has_order_ref : ℕ → Bool
has_order_ref t = has_shares t || ((t == executed) || ((t == cancel) || (t == delete)))

-- A signed 32-bit price from its unsigned field, and `price_tick & 0xFFFFFFFF`.
abbrev pub signed_price : ℕ → ℤ
signed_price raw = if ltb raw (2 ^ 31) then pos raw else negsuc (2 ^ 32 - raw - 1)

abbrev pub mask_price : ℤ → ℕ
mask_price (pos n) = n % 2 ^ 32
mask_price (negsuc n) = 2 ^ 32 - 1 - n % 2 ^ 32
