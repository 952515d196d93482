-- ===== src/Fix/StreamTests.antt =====
-- A heartbeat that arrives in two pieces, and a market order in a stream.
use quant_finance_py.Prelude.{ℕ, ◌≡◌, refl, arith, none, some, List, [], ◌∷◌, ◌++◌, drop}
use quant_finance_py.Execution.{buy}
use quant_finance_py.Fix.Message.{
  framed, FixOrderEncoder, encode_order, refresh_date, timestamp, order_body,
}
use quant_finance_py.Fix.Poll.{parsed, poll}
use quant_finance_py.Fix.Reader.{FixMessage, parse}
use quant_finance_py.Fix.OrderFields.{SaysOrder}
use quant_finance_py.Fix.Orders.{parse-poll-encode_order}

-- 35=0
abbrev heartbeat : List ℕ
heartbeat = b'3' ∷ b'5' ∷ b'=' ∷ b'0' ∷ 1 ∷ []

checksum : drop 22 (framed heartbeat) ≡ b'1' ∷ b'6' ∷ b'3' ∷ 1 ∷ []
unfolding framed
checksum = refl

abbrev encoder : FixOrderEncoder
encoder = record {
  sender_comp_id = b'A' ∷ [];
  target_comp_id = b'B' ∷ [];
  symbols = none ∷ some (b'E' ∷ b'U' ∷ b'R' ∷ b'U' ∷ b'S' ∷ b'D' ∷ []) ∷ [];
  date_prefix = [];
  cached_epoch_day = none;
  last = [];
}

abbrev refreshed : FixOrderEncoder
refreshed = refresh_date encoder 86400000

-- 1970-01-02
next_day : refreshed.date_prefix ≡ b'1' ∷ b'9' ∷ b'7' ∷ b'0' ∷ b'0' ∷ b'1' ∷ b'0' ∷ b'2' ∷ b'-' ∷ []
unfolding refresh_date
next_day = refl

abbrev order_bytes : List ℕ
order_bytes = framed (
    order_body refreshed 7 42 (b'E' ∷ b'U' ∷ b'R' ∷ b'U' ∷ b'S' ∷ b'D' ∷ []) buy 1000 none
      (timestamp refreshed.date_prefix 0))

abbrev symbol : List ℕ
symbol = b'E' ∷ b'U' ∷ b'R' ∷ b'U' ∷ b'S' ∷ b'D' ∷ []

parse-poll-encode_order_example :
    (m : FixMessage) × (poll (order_bytes ++ b'8' ∷ []) ≡ parsed m (b'8' ∷ []))
    × (parse order_bytes ≡ some m)
    × SaysOrder
        (b'A' ∷ [])
        (b'B' ∷ [])
        7
        42
        symbol
        buy
        1000
        none
        (timestamp refreshed.date_prefix 0)
        m
unfolding encode_order
parse-poll-encode_order_example =
    parse-poll-encode_order encoder (record refreshed { last = order_bytes }) 7 42 1 symbol buy 1000
      none 86400000 127 (b'8' ∷ []) (refl, tt) (refl, tt) tt tt refl
      (refl, (refl, (refl, (refl, (refl, (refl, tt)))))) refl (omega arith)
