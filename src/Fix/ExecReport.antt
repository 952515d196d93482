-- ===== src/Fix/ExecReport.antt =====
-- src/quantfinlib/fix/fix_exec_report_view.py: `FixExecReportView`, which reads an execution report
-- in place. The view keeps the bytes of the symbol where the source keeps their offset and length.
-- A place in the buffer is the bytes from there on, with the number of them inside the window.
use quant_finance_py.Prelude.{
  ℕ, zero, suc, ◌-◌, Bool, true, false, Option, none, some, List, [], ◌∷◌, ◌==◌, if◌then◌else◌,
  drop,
}
use quant_finance_py.Prelude.Int.{ℤ, pos, negsuc, ◌==ℤ◌}
use quant_finance_py.Prelude.Maybe.{◌>>=◌}
use quant_finance_py.Fix.Parse.{
  step, parse_long, parse_long_or_else, price_mantissa, price_decimals,
}
use quant_finance_py.Fix.Message.{soh}
use quant_finance_py.Fix.Reader.{same_bytes}

pub record FixExecReportView : Type 0 where
  pub cl_ord_id : ℤ
  pub exec_type : ℕ
  pub ord_status : ℕ
  pub side : ℕ
  pub last_qty : ℤ
  pub cum_qty : ℤ
  pub leaves_qty : ℤ
  pub last_px_mantissa : ℤ
  pub last_px_decimals : ℕ
  pub symbol : Option (List ℕ)

abbrev pub empty_view : FixExecReportView
empty_view = record {
  cl_ord_id = negsuc 0;
  exec_type = 0;
  ord_status = 0;
  side = 0;
  last_qty = pos 0;
  cum_qty = pos 0;
  leaves_qty = pos 0;
  last_px_mantissa = pos 0;
  last_px_decimals = 0;
  symbol = none;
}

pub record Place : Type 0 where
  pub rest : List ℕ
  pub left : ℕ

-- `p += 1`.
abbrev pub skip : Place → Place
skip p = record { rest = drop 1 p.rest; left = p.left - 1 }

-- The loop up to a byte: the bytes before it, and its place. Reading past the buffer raises.
unfoldable pub scan : ℕ → ℕ → List ℕ → Option (List ℕ × Place)
scan c zero xs = some ([], record { rest = xs; left = zero })
scan c (suc n) [] = none
scan c (suc n) (b ∷ bs) =
    let more = scan c n bs in
    if b == c
    then some ([], record { rest = b ∷ bs; left = suc n })
    else (do q ← more; some (b ∷ q.0, q.1))

abbrev pub tag_from : ℤ → List ℕ → ℤ
tag_from tag [] = tag
tag_from tag (b ∷ bs) = tag_from (step tag b) bs

abbrev pub is_exec_report : List ℕ → Bool
is_exec_report [] = false
is_exec_report (b ∷ []) = b == b'8'
is_exec_report (b ∷ c ∷ bs) = false

-- `buffer[value_start]`.
abbrev pub byte_at : List ℕ → Option ℕ
byte_at [] = none
byte_at (b ∷ bs) = some b

-- The branches of the tags, other than that of the message type; `first` is the byte at the start
-- of the value.
unfoldable pub on_field : ℤ → List ℕ → Option ℕ → FixExecReportView → Option FixExecReportView
unfolding step parse_long parse_long_or_else price_mantissa price_decimals
on_field tag value first v =
    if tag ==ℤ pos 11
    then some (record v { cl_ord_id = parse_long_or_else value (negsuc 0) })
    else if tag ==ℤ pos 150
    then (do b ← first; some (record v { exec_type = b }))
    else if tag ==ℤ pos 39
    then (do b ← first; some (record v { ord_status = b }))
    else if tag ==ℤ pos 54
    then (do b ← first; some (record v { side = b }))
    else if tag ==ℤ pos 32
    then (do n ← parse_long value; some (record v { last_qty = n }))
    else if tag ==ℤ pos 14
    then (do n ← parse_long value; some (record v { cum_qty = n }))
    else if tag ==ℤ pos 151
    then (do n ← parse_long value; some (record v { leaves_qty = n }))
    else if tag ==ℤ pos 31
    then some (record v {
      last_px_mantissa = price_mantissa value;
      last_px_decimals = price_decimals value;
    })
    else if tag ==ℤ pos 55
    then some (record v { symbol = some value })
    else some v

-- The loop of `wrap`: each round takes at least one byte of the window.
unfoldable pub wrap_from : ℕ → Place → Bool → FixExecReportView → Option (FixExecReportView × Bool)
unfolding scan on_field
wrap_from zero p report v = some (v, report)
wrap_from (suc fuel) p report v = elim p.left [
  | zero ↦ some (v, report)
  | suc n ↦ do
    tag ← scan b'=' (suc n) p.rest
    value ← scan soh (skip tag.1).left (skip tag.1).rest
    elim (tag_from (pos 0) tag.0 ==ℤ pos 35) [
      | true ↦ elim (is_exec_report value.0) [
        | true ↦ wrap_from fuel (skip value.1) true v
        | false ↦ some (v, false)
      ]
      | false ↦ do
        v' ← on_field (tag_from (pos 0) tag.0) value.0 (byte_at (skip tag.1).rest) v
        wrap_from fuel (skip value.1) report v'
    ]
]

-- `wrap`; `none` is a raised error.
unfoldable pub wrap : List ℕ → ℕ → ℕ → Option (FixExecReportView × Bool)
unfolding wrap_from
wrap buffer offset count =
    wrap_from count (record { rest = drop offset buffer; left = count }) false empty_view

unfoldable pub symbol_equals : FixExecReportView → List ℕ → Bool
unfolding same_bytes
symbol_equals v ascii_symbol = elim v.symbol [ none ↦ false | some s ↦ same_bytes s ascii_symbol ]
