-- ===== src/Fix/OrderFields.antt =====
-- src/quantfinlib/fix/fix_order_encoder.py: the fields of an order, and what a message with them
-- says.
use quant_finance_py.Prelude.{
  ℕ, ◌+◌, ◌/◌, ◌%◌, ◌≡◌, refl, false, Option, none, some, List, [], ◌∷◌, ◌++◌, ◌==◌, All,
  Bool-cases, inl, inr,
}
use mathlib.Core.List.{append-nil}
use quant_finance_py.Prelude.Int.{pos}
use quant_finance_py.Execution.{Side, buy, sell}
use quant_finance_py.Calendar.Civil.{of_ordinal}
use quant_finance_py.Fix.Render.{decimal, padded}
use quant_finance_py.Fix.Framing.{decimal-IsDigit}
use quant_finance_py.Fix.Message.{
  field_bytes, FixOrderEncoder, refresh_date, date_text, epoch, timestamp, millis_per_day,
  side_code, order_body, is_cached, begin_string,
}
use quant_finance_py.Fix.Reader.{FixMessage, put_field, get_string, get_long}
use quant_finance_py.Fix.Fields.{
  wire, IsPlainByte, IsPlainText, IsPlainOption, IsPlain, fields_of, All-append, digits-IsPlainByte,
  int_of-decimal,
}
use quant_finance_py.Fix.Digits.{padded-IsDigit}

-- The fields of an order.
abbrev pub order_fields :
    FixOrderEncoder → ℕ → ℕ → List ℕ → Side → ℕ → Option (List ℕ) → List ℕ → List (ℕ × List ℕ)
order_fields e seq_num cl_ord_id symbol s quantity limit time =
    (35, b'D' ∷ [])
    ∷ (49, e.sender_comp_id)
    ∷ (56, e.target_comp_id)
    ∷ (34, decimal seq_num)
    ∷ (52, time)
    ∷ (11, decimal cl_ord_id)
    ∷ (55, symbol)
    ∷ (54, side_code s)
    ∷ (38, decimal quantity)
    ∷ (elim limit [
      | none ↦ (40, b'1' ∷ []) ∷ (60, time) ∷ []
      | some p ↦ (40, b'2' ∷ []) ∷ (44, p) ∷ (60, time) ∷ []
    ])

pub order_body-wire :
    (e : FixOrderEncoder) (seq_num cl_ord_id : ℕ) (symbol : List ℕ) (s : Side) (quantity : ℕ)
    (limit : Option (List ℕ)) (time : List ℕ)
    → order_body e seq_num cl_ord_id symbol s quantity limit time
      ≡ wire (order_fields e seq_num cl_ord_id symbol s quantity limit time)
unfolding order_body
order_body-wire e seq_num cl_ord_id symbol s quantity none time =
    rw (append-nil (field_bytes 60 time)) refl
order_body-wire e seq_num cl_ord_id symbol s quantity (some p) time =
    rw (append-nil (field_bytes 60 time)) refl

padded-IsPlainText : (w n : ℕ) → IsPlainText (padded w n)
padded-IsPlainText w n = digits-IsPlainByte (padded w n) (padded-IsDigit w n)

-- A number, a byte and more behind it.
behind :
    (w n c : ℕ) (rest : List ℕ)
    → IsPlainByte c
    → IsPlainText rest
    → IsPlainText (padded w n ++ c ∷ rest)
behind w n c rest h k =
    All-append IsPlainByte (padded w n) (c ∷ rest) (padded-IsPlainText w n) (h, k)

date_text-IsPlainText : (day : ℕ) → IsPlainText (date_text day)
date_text-IsPlainText day =
    let date = of_ordinal (epoch + day) in
    All-append IsPlainByte (padded 4 date.year) _ (padded-IsPlainText 4 date.year) (
      All-append IsPlainByte (padded 2 date.month) _ (padded-IsPlainText 2 date.month)
        (All-append IsPlainByte (padded 2 date.day) _ (padded-IsPlainText 2 date.day) (refl, tt)))

pub refresh_date-IsPlainText :
    (e : FixOrderEncoder) (millis : ℕ)
    → IsPlainText e.date_prefix
    → IsPlainText (refresh_date e millis).date_prefix
unfolding refresh_date
refresh_date-IsPlainText e millis h =
    elim (Bool-cases (is_cached e.cached_epoch_day (millis / millis_per_day))) [
      | inl c ↦ rw c h
      | inr c ↦ rw c (date_text-IsPlainText (millis / millis_per_day))
    ]

pub refresh_date_ids :
    (e : FixOrderEncoder) (millis : ℕ)
    → ((refresh_date e millis).sender_comp_id ≡ e.sender_comp_id)
      × ((refresh_date e millis).target_comp_id ≡ e.target_comp_id)
unfolding refresh_date
refresh_date_ids e millis =
    elim (Bool-cases (is_cached e.cached_epoch_day (millis / millis_per_day))) [
      | inl c ↦ rw c (refl, refl)
      | inr c ↦ rw c (refl, refl)
    ]

pub timestamp-IsPlainText :
    (date_prefix : List ℕ) (millis : ℕ)
    → IsPlainText date_prefix
    → IsPlainText (timestamp date_prefix millis)
unfolding timestamp
timestamp-IsPlainText date_prefix millis h =
    let minutes = padded 2 (millis / 60000 % 60) in
    let seconds = padded 2 (millis / 1000 % 60) in
    let thousandths = padded 3 (millis % 1000) in
    All-append IsPlainByte date_prefix _ h (
      behind 2 (millis / 3600000) b':' (minutes ++ b':' ∷ (seconds ++ b'.' ∷ thousandths)) refl (
        behind 2 (millis / 60000 % 60) b':' (seconds ++ b'.' ∷ thousandths) refl (
          behind 2 (millis / 1000 % 60) b'.' thousandths refl
            (padded-IsPlainText 3 (millis % 1000)))))

decimal-IsPlainText : (n : ℕ) → IsPlainText (decimal n)
decimal-IsPlainText n = digits-IsPlainByte (decimal n) (decimal-IsDigit n)

side_code-IsPlainText : (s : Side) → IsPlainText (side_code s)
side_code-IsPlainText buy = (refl, tt)
side_code-IsPlainText sell = (refl, tt)

pub order_fields-IsPlain :
    (e : FixOrderEncoder) (seq_num cl_ord_id : ℕ) (symbol : List ℕ) (s : Side) (quantity : ℕ)
    (limit : Option (List ℕ)) (time : List ℕ)
    → IsPlainText e.sender_comp_id
    → IsPlainText e.target_comp_id
    → IsPlainText symbol
    → IsPlainOption limit
    → IsPlainText time
    → All IsPlain (order_fields e seq_num cl_ord_id symbol s quantity limit time)
      × All
          (λ f. (f.0 == 9) ≡ false)
          (order_fields e seq_num cl_ord_id symbol s quantity limit time)
order_fields-IsPlain e seq_num cl_ord_id symbol s quantity none time sender target named lim at =
    (search (decimal-IsPlainText, side_code-IsPlainText), (search))
order_fields-IsPlain e seq_num cl_ord_id symbol s quantity (some p) time sender target named lim
      at =
    (search (decimal-IsPlainText, side_code-IsPlainText), (search))

-- What a parsed order says.
abbrev pub SaysOrder :
    List ℕ → List ℕ → ℕ → ℕ → List ℕ → Side → ℕ → Option (List ℕ) → List ℕ → FixMessage → Type 0
SaysOrder sender target seq_num cl_ord_id symbol s quantity limit time m =
    (get_string (pos 35) m ≡ some (b'D' ∷ []))
    × (get_string (pos 49) m ≡ some sender)
    × (get_string (pos 56) m ≡ some target)
    × (get_long (pos 34) m ≡ some (pos seq_num))
    × (get_long (pos 11) m ≡ some (pos cl_ord_id))
    × (get_string (pos 55) m ≡ some symbol)
    × (get_string (pos 54) m ≡ some (side_code s))
    × (get_long (pos 38) m ≡ some (pos quantity))
    × (get_string (pos 44) m ≡ limit)
    × (get_string (pos 52) m ≡ some time)
    × (get_string (pos 60) m ≡ some time)

pub order_fields-SaysOrder :
    (e : FixOrderEncoder) (seq_num cl_ord_id : ℕ) (symbol : List ℕ) (s : Side) (quantity : ℕ)
    (limit : Option (List ℕ)) (time size sum : List ℕ)
    → SaysOrder e.sender_comp_id e.target_comp_id seq_num cl_ord_id symbol s quantity limit time (
        fields_of [] (
          (8, begin_string)
            ∷ (9, size)
            ∷ order_fields e seq_num cl_ord_id symbol s quantity limit time
          ++ (10, sum) ∷ []))
unfolding put_field get_string get_long
order_fields-SaysOrder e seq_num cl_ord_id symbol s quantity none time size sum =
    search int_of-decimal
order_fields-SaysOrder e seq_num cl_ord_id symbol s quantity (some p) time size sum =
    search int_of-decimal
