-- ===== src/Fix/Orders.antt =====
-- src/quantfinlib/fix/{fix_order_encoder,fix_decoder,fix_message}.py: an order from the encoder
-- over a stream to the parser.
use quant_finance_py.Prelude.{
  ℕ, ◌%◌, ◌≤◌, ◌≡◌, ap, sym, subst, ◌∙◌, Option, some, List, [], ◌∷◌, ◌++◌, length, get_elem?,
}
use quant_finance_py.Prelude.Maybe.{some-inj}
use quant_finance_py.Execution.{Side}
use quant_finance_py.Fix.Render.{decimal}
use quant_finance_py.Fix.Message.{
  framed, FixOrderEncoder, encode_order, refresh_date, timestamp, millis_per_day,
}
use quant_finance_py.Fix.Decoder.{body_length_cap}
use quant_finance_py.Fix.Poll.{parsed, poll, poll_parsed}
use quant_finance_py.Fix.Reader.{FixMessage, parse}
use quant_finance_py.Fix.Fields.{wire, IsPlainText, IsPlainOption, fields_of}
use quant_finance_py.Fix.Parsing.{header_of, checksum_of, parse-framed}
use quant_finance_py.Fix.Fragments.{order_text, encode_order-framed, extract-encode_order}
use quant_finance_py.Fix.OrderFields.{
  order_fields, order_body-wire, order_fields-IsPlain, SaysOrder, order_fields-SaysOrder,
  refresh_date-IsPlainText, refresh_date_ids, timestamp-IsPlainText,
}

-- The bytes of an accepted order are parsed into a message that says the order.
parse-encode_order :
    (e e' : FixOrderEncoder) (seq_num cl_ord_id symbol_id : ℕ) (symbol : List ℕ) (s : Side)
    (quantity : ℕ) (limit : Option (List ℕ)) (millis n : ℕ)
    → IsPlainText e.sender_comp_id
    → IsPlainText e.target_comp_id
    → IsPlainText e.date_prefix
    → IsPlainOption limit
    → get_elem? e.symbols symbol_id ≡ some (some symbol)
    → IsPlainText symbol
    → encode_order e seq_num cl_ord_id symbol_id s quantity limit millis ≡ some (e', n)
    → (m : FixMessage) × (parse e'.last ≡ some m)
      × SaysOrder e.sender_comp_id e.target_comp_id seq_num cl_ord_id symbol s quantity limit
          (timestamp (refresh_date e millis).date_prefix (millis % millis_per_day))
          m
parse-encode_order e e' seq_num cl_ord_id symbol_id symbol s quantity limit millis n sender target
      dated priced at named h =
    let (symbol', at', is, size) =
      encode_order-framed e e' seq_num cl_ord_id symbol_id s quantity limit millis n h in
    let fresh = refresh_date e millis in
    let time = timestamp fresh.date_prefix (millis % millis_per_day) in
    let fs = order_fields fresh seq_num cl_ord_id symbol s quantity limit time in
    let (same_sender, same_target) = refresh_date_ids e millis in
    let (plain, other) =
      order_fields-IsPlain fresh seq_num cl_ord_id symbol s quantity limit time
        (subst IsPlainText (sym same_sender) sender) (subst IsPlainText (sym same_target) target)
        named priced
        (timestamp-IsPlainText fresh.date_prefix (millis % millis_per_day)
          (refresh_date-IsPlainText e millis dated)) in
    let one : symbol' ≡ symbol = some-inj _ _ (some-inj _ _ (sym at' ∙ at)) in
    let text : e'.last ≡ framed (wire fs) =
      sym is
      ∙ ap (λ x. framed (order_text e seq_num cl_ord_id x s quantity limit millis)) one
      ∙ ap framed (order_body-wire fresh seq_num cl_ord_id symbol s quantity limit time) in
    let says =
      order_fields-SaysOrder fresh seq_num cl_ord_id symbol s quantity limit time
        (decimal (length (wire fs))) (checksum_of fs) in
    (
      fields_of [] (header_of fs ++ (10, checksum_of fs) ∷ []),
      ap parse text ∙ parse-framed fs plain other,
      subst
          (λ x.
            SaysOrder x e.target_comp_id seq_num cl_ord_id symbol s quantity limit time
              (fields_of [] (header_of fs ++ (10, checksum_of fs) ∷ [])))
          same_sender
          (subst
            (λ x.
              SaysOrder fresh.sender_comp_id x seq_num cl_ord_id symbol s quantity limit time
                (fields_of [] (header_of fs ++ (10, checksum_of fs) ∷ [])))
            same_target says),
    )

-- An order of a registered symbol that the encoder accepted, of a length within the cap, is cut out
-- of the stream whole, whatever stands behind it, and parsed into a message with the order's type,
-- sender, target, numbers, symbol, side, quantity, limit price, which is absent from a market
-- order, and times. The names, the symbol, the rendered price and the cached date have no
-- delimiter.
pub parse-poll-encode_order :
    (e e' : FixOrderEncoder) (seq_num cl_ord_id symbol_id : ℕ) (symbol : List ℕ) (s : Side)
    (quantity : ℕ) (limit : Option (List ℕ)) (millis n : ℕ) (rest : List ℕ)
    → IsPlainText e.sender_comp_id
    → IsPlainText e.target_comp_id
    → IsPlainText e.date_prefix
    → IsPlainOption limit
    → get_elem? e.symbols symbol_id ≡ some (some symbol)
    → IsPlainText symbol
    → encode_order e seq_num cl_ord_id symbol_id s quantity limit millis ≡ some (e', n)
    → n ≤ body_length_cap
    → (m : FixMessage) × (poll (e'.last ++ rest) ≡ parsed m rest)
      × (parse e'.last ≡ some m)
      × SaysOrder e.sender_comp_id e.target_comp_id seq_num cl_ord_id symbol s quantity limit
          (timestamp (refresh_date e millis).date_prefix (millis % millis_per_day))
          m
parse-poll-encode_order e e' seq_num cl_ord_id symbol_id symbol s quantity limit millis n rest
      sender target dated priced at named h k =
    let (m, is, says) =
      parse-encode_order e e' seq_num cl_ord_id symbol_id symbol s quantity limit millis n sender
        target dated priced at named h in
    let (cut, size) =
      extract-encode_order e e' seq_num cl_ord_id symbol_id s quantity limit millis n rest h k in
    (m, poll_parsed (e'.last ++ rest) e'.last rest m cut is, is, says)
