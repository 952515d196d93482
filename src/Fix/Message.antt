-- ===== src/Fix/Message.antt =====
-- src/quantfinlib/fix/fix_message.py, fix_order_encoder.py: messages that are built and framed. A
-- text is the list of its Latin-1 bytes. Numbers of orders, quantities and times are not negative.
-- An order that is refused after the date was refreshed leaves the fresh date behind in the source.
use quant_finance_py.Prelude.{
  ℕ, ◌+◌, ◌/◌, ◌%◌, Bool, false, ◌||◌, Option, none, some, List, [], ◌∷◌, ◌++◌, ◌==◌, ltb,
  if◌then◌else◌, length, get_elem?, set, replicate,
}
use quant_finance_py.Prelude.Int.{ℤ}
use quant_finance_py.Prelude.Maybe.{◌>>=◌}
use quant_finance_py.Execution.{Side, buy, sell}
use quant_finance_py.Calendar.Civil.{of_ordinal}
use quant_finance_py.Fix.Render.{decimal, padded, price}

abbrev pub soh : ℕ
soh = 1

abbrev pub begin_string : List ℕ
begin_string = b'F' ∷ b'I' ∷ b'X' ∷ b'.' ∷ b'4' ∷ b'.' ∷ b'4' ∷ []

-- `tag=value` with its delimiter.
unfoldable pub field_bytes : ℕ → List ℕ → List ℕ
unfolding decimal
field_bytes tag value = decimal tag ++ b'=' ∷ (value ++ soh ∷ [])

abbrev pub total_of : List ℕ → ℕ
total_of [] = 0
total_of (b ∷ bs) = b + total_of bs

-- The frame around the fields behind BodyLength.
abbrev pub head_of : List ℕ → List ℕ
head_of body = field_bytes 8 begin_string ++ field_bytes 9 (decimal (length body))

abbrev pub trailer_of : List ℕ → List ℕ
trailer_of payload = field_bytes 10 (padded 3 (total_of payload % 256))

unfoldable pub framed : List ℕ → List ℕ
unfolding field_bytes decimal padded
framed body = (head_of body ++ body) ++ trailer_of (head_of body ++ body)

pub record FixMessageBuilder : Type 0 where
  pub msg_type : List ℕ
  pub body : List ℕ

abbrev pub builder : List ℕ → FixMessageBuilder
builder msg_type = record { msg_type = msg_type; body = [] }

-- `field` with a rendered value.
unfoldable pub field : FixMessageBuilder → ℕ → List ℕ → FixMessageBuilder
unfolding field_bytes
field b tag rendered = record b { body = b.body ++ field_bytes tag rendered }

-- `encode`: the original sending time is absent or a text.
unfoldable pub after_length :
    FixMessageBuilder → List ℕ → List ℕ → ℕ → List ℕ → Bool → Option (List ℕ) → List ℕ
unfolding field_bytes decimal
after_length b sender target seq_num sending_time poss_dup orig =
    field_bytes 35 b.msg_type
    ++ (field_bytes 49 sender
        ++ (field_bytes 56 target
            ++ (field_bytes 34 (decimal seq_num)
                ++ ((if poss_dup then field_bytes 43 (b'Y' ∷ []) else [])
                    ++ (field_bytes 52 sending_time
                        ++ (elim orig [ none ↦ [] | some time ↦ field_bytes 122 time ]
                            ++ b.body))))))

unfoldable pub encode :
    FixMessageBuilder → List ℕ → List ℕ → ℕ → List ℕ → Bool → Option (List ℕ) → List ℕ
unfolding after_length framed
encode b sender target seq_num sending_time poss_dup orig =
    framed (after_length b sender target seq_num sending_time poss_dup orig)

pub record FixOrderEncoder : Type 0 where
  pub sender_comp_id : List ℕ
  pub target_comp_id : List ℕ
  pub symbols : List (Option (List ℕ))
  pub date_prefix : List ℕ
  pub cached_epoch_day : Option ℕ
  pub last : List ℕ

unfoldable pub new_encoder : List ℕ → List ℕ → ℕ → ℕ → Option FixOrderEncoder
new_encoder sender target max_symbols buffer_size =
    if (length sender == 0) || ((length target == 0) || ((max_symbols == 0) || ltb buffer_size 256))
    then none
    else some (record {
      sender_comp_id = sender;
      target_comp_id = target;
      symbols = replicate max_symbols none;
      date_prefix = [];
      cached_epoch_day = none;
      last = [];
    })

unfoldable pub register_symbol : FixOrderEncoder → ℕ → List ℕ → Option FixOrderEncoder
register_symbol e id symbol =
    if ltb id (length e.symbols)
    then some (record e { symbols = set e.symbols id (some symbol) })
    else none

abbrev pub millis_per_day : ℕ
millis_per_day = 86400000

-- The ordinal of 1970-01-01.
abbrev pub epoch : ℕ
epoch = 719163

abbrev pub date_text : ℕ → List ℕ
date_text day =
    let date = of_ordinal (epoch + day) in
    padded 4 date.year ++ (padded 2 date.month ++ (padded 2 date.day ++ b'-' ∷ []))

abbrev pub is_cached : Option ℕ → ℕ → Bool
is_cached none day = false
is_cached (some cached) day = cached == day

unfoldable pub refresh_date : FixOrderEncoder → ℕ → FixOrderEncoder
unfolding padded of_ordinal
refresh_date e millis =
    let day = millis / millis_per_day in
    if is_cached e.cached_epoch_day day
    then e
    else record e { date_prefix = date_text day; cached_epoch_day = some day }

-- The time of a day behind the cached date.
unfoldable pub timestamp : List ℕ → ℕ → List ℕ
unfolding padded
timestamp date_prefix millis_of_day =
    date_prefix
    ++ (padded 2 (millis_of_day / 3600000)
        ++ b':'
          ∷ (padded 2 (millis_of_day / 60000 % 60)
              ++ b':'
                ∷ (padded 2 (millis_of_day / 1000 % 60) ++ b'.' ∷ padded 3 (millis_of_day % 1000))))

abbrev pub side_code : Side → List ℕ
side_code buy = b'1' ∷ []
side_code sell = b'2' ∷ []

-- The fields of an order; `limit` is its rendered price, absent from a market order.
unfoldable pub order_body :
    FixOrderEncoder → ℕ → ℕ → List ℕ → Side → ℕ → Option (List ℕ) → List ℕ → List ℕ
unfolding field_bytes decimal
order_body e seq_num cl_ord_id symbol s quantity limit time =
    field_bytes 35 (b'D' ∷ [])
    ++ (field_bytes 49 e.sender_comp_id
        ++ (field_bytes 56 e.target_comp_id
            ++ (field_bytes 34 (decimal seq_num)
                ++ (field_bytes 52 time
                    ++ (field_bytes 11 (decimal cl_ord_id)
                        ++ (field_bytes 55 symbol
                            ++ (field_bytes 54 (side_code s)
                                ++ (field_bytes 38 (decimal quantity)
                                    ++ (field_bytes 40
                                          (elim limit [ none ↦ b'1' ∷ [] | some p ↦ b'2' ∷ [] ])
                                        ++ (elim limit [ none ↦ [] | some p ↦ field_bytes 44 p ]
                                            ++ field_bytes 60 time))))))))))

-- `_encode`, with the rendered price of a limit order.
unfoldable pub encode_order :
    FixOrderEncoder → ℕ → ℕ → ℕ → Side → ℕ → Option (List ℕ) → ℕ → Option (FixOrderEncoder × ℕ)
unfolding refresh_date timestamp order_body framed
encode_order e seq_num cl_ord_id symbol_id s quantity limit millis =
    elim (get_elem? e.symbols symbol_id) [
      | none ↦ none
      | some slot ↦ elim slot [
        | none ↦ none
        | some symbol ↦
            let e' = refresh_date e millis in
            let time = timestamp e'.date_prefix (millis % millis_per_day) in
            let full = framed (order_body e' seq_num cl_ord_id symbol s quantity limit time) in
            some (record e' { last = full }, length full)
      ]
    ]

unfoldable pub encode_limit :
    FixOrderEncoder → ℕ → ℕ → ℕ → Side → ℕ → ℤ → ℤ → ℕ → Option (FixOrderEncoder × ℕ)
unfolding encode_order price
encode_limit e seq_num cl_ord_id symbol_id s quantity mantissa decimals millis = do
  rendered ← price mantissa decimals
  encode_order e seq_num cl_ord_id symbol_id s quantity (some rendered) millis

unfoldable pub encode_market :
    FixOrderEncoder → ℕ → ℕ → ℕ → Side → ℕ → ℕ → Option (FixOrderEncoder × ℕ)
unfolding encode_order
encode_market e seq_num cl_ord_id symbol_id s quantity millis =
    encode_order e seq_num cl_ord_id symbol_id s quantity none millis
