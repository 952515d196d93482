-- ===== src/Fix/Reports.antt =====
-- src/quantfinlib/fix/fix_exec_report_view.py: an execution report is read back.
use quant_finance_py.Prelude.{
  ℕ, zero, suc, ◌/◌, ◌%◌, ◌^◌, ◌≡◌, refl, ap, subst, ◌∙◌, true, false, some, List, [], ◌∷◌, ◌++◌,
  length, All,
}
use quant_finance_py.Prelude.Int.{ℤ, pos, negsuc, pos_part}
use quant_finance_py.Prelude.Maybe.{some-inj}
use quant_finance_py.Fix.Parse.{dot, price_decimals}
use quant_finance_py.Fix.Render.{decimal, padded, price}
use quant_finance_py.Fix.Digits.{padded-IsDigit}
use quant_finance_py.Fix.RoundTrip.{
  parse_long-decimal, parse_long_or_else-decimal, price_mantissa-price,
}
use quant_finance_py.Fix.Message.{framed}
use quant_finance_py.Fix.Framing.{decimal-IsDigit}
use quant_finance_py.Fix.Parsing.{header_of, checksum_of, framed_fields, framed_fields-IsPlain}
use quant_finance_py.Fix.Fields.{wire, IsPlainByte, IsPlain, All-append, digits-IsPlainByte}
use quant_finance_py.Fix.Views.{read_fields, wrap-wire}
use quant_finance_py.Fix.ExecReport.{FixExecReportView, empty_view, on_field, wrap}

-- The fields of a report.
pub record Report : Type 0 where
  pub cl_ord_id : ℕ
  pub exec_type : ℕ
  pub ord_status : ℕ
  pub side : ℕ
  pub symbol : List ℕ
  pub last_qty : ℕ
  pub last_px : List ℕ
  pub cum_qty : ℕ
  pub leaves_qty : ℕ

abbrev pub fields_of_report : Report → List (ℕ × List ℕ)
fields_of_report r =
    (35, b'8' ∷ [])
    ∷ (11, decimal r.cl_ord_id)
    ∷ (150, r.exec_type ∷ [])
    ∷ (39, r.ord_status ∷ [])
    ∷ (54, r.side ∷ [])
    ∷ (55, r.symbol)
    ∷ (32, decimal r.last_qty)
    ∷ (31, r.last_px)
    ∷ (14, decimal r.cum_qty)
    ∷ (151, decimal r.leaves_qty)
    ∷ []

abbrev pub view_of_report : Report → ℤ → ℕ → FixExecReportView
view_of_report r mantissa decimals = record {
  cl_ord_id = pos r.cl_ord_id;
  exec_type = r.exec_type;
  ord_status = r.ord_status;
  side = r.side;
  last_qty = pos r.last_qty;
  cum_qty = pos r.cum_qty;
  leaves_qty = pos r.leaves_qty;
  last_px_mantissa = mantissa;
  last_px_decimals = decimals;
  symbol = some r.symbol;
}

read_fields-report :
    (r : Report) (m d : ℤ)
    → price m d ≡ some r.last_px
    → read_fields
        (header_of (fields_of_report r) ++ (10, checksum_of (fields_of_report r)) ∷ [])
        false
        empty_view
      ≡ some (view_of_report r m (pos_part d), true)
unfolding on_field
read_fields-report r m d h =
    let (mantissa, decimals) = price_mantissa-price m d r.last_px h in
    let places : price_decimals r.last_px ≡ pos_part d = ap pos_part decimals in
    rw
      (
        parse_long_or_else-decimal r.cl_ord_id (negsuc 0),
        (parse_long-decimal r.last_qty 0).0,
        mantissa,
        places,
        (parse_long-decimal r.cum_qty 0).0,
        (parse_long-decimal r.leaves_qty 0).0,
      )
      refl

price-IsPlainByte : (m d : ℤ) (bs : List ℕ) → price m d ≡ some bs → All IsPlainByte bs
unfolding price
price-IsPlainByte (pos m) (pos zero) bs h =
    subst (All IsPlainByte) (some-inj _ bs h) (digits-IsPlainByte (decimal m) (decimal-IsDigit m))
price-IsPlainByte (pos m) (pos (suc d)) bs h =
    let w = suc d in
    subst (All IsPlainByte) (some-inj _ bs h) (
      All-append IsPlainByte (decimal (m / 10 ^ w)) (dot ∷ padded w (m % 10 ^ w))
        (digits-IsPlainByte (decimal (m / 10 ^ w)) (decimal-IsDigit (m / 10 ^ w)))
        (refl, digits-IsPlainByte (padded w (m % 10 ^ w)) (padded-IsDigit w (m % 10 ^ w))))
price-IsPlainByte (negsuc m) d bs h = cc
price-IsPlainByte (pos m) (negsuc d) bs h = cc

-- A report whose one-byte fields and symbol have no delimiter.
abbrev pub IsWritten : Report → Type 0
IsWritten r =
    IsPlainByte r.exec_type
    × IsPlainByte r.ord_status
    × IsPlainByte r.side
    × All IsPlainByte r.symbol

fields_of_report-IsPlain :
    (r : Report) → IsWritten r → All IsPlainByte r.last_px → All IsPlain (fields_of_report r)
fields_of_report-IsPlain r (e, o, s, t) p =
    let plain = λ (n : ℕ). digits-IsPlainByte (decimal n) (decimal-IsDigit n) in
    (
      (refl, tt),
      (
        plain r.cl_ord_id,
        (
          (e, tt),
          (
            (o, tt),
            ((s, tt), (t, (plain r.last_qty, (p, (plain r.cum_qty, (plain r.leaves_qty, tt)))))),
          ),
        ),
      ),
    )

-- A framed execution report, whose one-byte fields and symbol have no delimiter and whose price was
-- rendered, is read back from wherever it lies in the buffer: its numbers, its codes, the mantissa
-- and the decimals of the price, and the symbol.
pub wrap-report :
    (r : Report) (m d : ℤ) (front back : List ℕ)
    → IsWritten r
    → price m d ≡ some r.last_px
    → wrap
        (front ++ (framed (wire (fields_of_report r)) ++ back))
        (length front)
        (length (framed (wire (fields_of_report r))))
      ≡ some (view_of_report r m (pos_part d), true)
wrap-report r m d front back h k =
    let fs = fields_of_report r in
    let plain = fields_of_report-IsPlain r h (price-IsPlainByte m d r.last_px k) in
    ap (λ msg. wrap (front ++ (msg ++ back)) (length front) (length msg)) (framed_fields fs)
    ∙ wrap-wire (header_of fs ++ (10, checksum_of fs) ∷ []) front back
        (framed_fields-IsPlain fs plain)
    ∙ read_fields-report r m d k
