-- ===== src/Fix/Views.antt =====
-- src/quantfinlib/fix/fix_exec_report_view.py: a window of fields is read field by field.
use quant_finance_py.Prelude.{
  ℕ, zero, suc, ◌+◌, ◌-◌, ◌*◌, ◌≤◌, ◌≡◌, refl, ap, sym, ◌∙◌, Bool, true, false, Option, some, List,
  [], ◌∷◌, ◌++◌, ◌==◌, length, All, arith, length-append, drop-append,
}
use mathlib.Core.List.{append_assoc}
use quant_finance_py.Prelude.Int.{ℤ, pos, ◌==ℤ◌}
use quant_finance_py.Prelude.Maybe.{◌>>=◌}
use quant_finance_py.Fix.Render.{decimal}
use quant_finance_py.Fix.Digits.{IsDigit, spelled}
use quant_finance_py.Fix.RoundTrip.{step_digit}
use quant_finance_py.Fix.Message.{soh, field_bytes}
use quant_finance_py.Fix.Framing.{decimal-IsDigit, decimal-spelled}
use quant_finance_py.Fix.Fields.{wire, IsPlain}
use quant_finance_py.Fix.ExecReport.{
  FixExecReportView, empty_view, scan, tag_from, is_exec_report, byte_at, on_field, wrap_from, wrap,
}

-- What a row of fields makes of a view: each is read on its own, up to a message type that is not
-- that of an execution report.
abbrev pub read_fields :
    List (ℕ × List ℕ) → Bool → FixExecReportView → Option (FixExecReportView × Bool)
read_fields [] report v = some (v, report)
read_fields (f ∷ fs) report v = elim (pos f.0 ==ℤ pos 35) [
  | true ↦ elim (is_exec_report f.1) [ true ↦ read_fields fs true v | false ↦ some (v, false) ]
  | false ↦ do v' ← on_field (pos f.0) f.1 (byte_at (f.1 ++ soh ∷ [])) v; read_fields fs report v'
]

tag_from_digits : (n : ℕ) (ds : List ℕ) → All IsDigit ds → tag_from (pos n) ds ≡ pos (spelled n ds)
unfolding spelled
tag_from_digits n [] h = refl
tag_from_digits n (d ∷ ds) h =
    ap (λ v. tag_from v ds) (step_digit n d h.0) ∙ tag_from_digits (n * 10 + (d - 48)) ds h.1

tag_from-decimal : (n : ℕ) → tag_from (pos 0) (decimal n) ≡ pos n
tag_from-decimal n = tag_from_digits 0 (decimal n) (decimal-IsDigit n) ∙ ap pos (decimal-spelled n)

scan-here :
    (c n : ℕ) (ys : List ℕ)
    → scan c (suc n) (c ∷ ys) ≡ some ([], record { rest = c ∷ ys; left = suc n })
unfolding scan
scan-here c n ys = (let here : (c == c) ≡ true = ground arith in rw here refl)

scan-found :
    (c n : ℕ) (xs ys : List ℕ)
    → All (λ b. (b == c) ≡ false) xs
    → scan c (length xs + suc n) (xs ++ c ∷ ys) ≡ some (xs, record { rest = c ∷ ys; left = suc n })
unfolding scan
scan-found c n [] ys h =
    let none_before : 0 + suc n ≡ suc n = omega arith in
    ap (λ m. scan c m (c ∷ ys)) none_before ∙ scan-here c n ys
scan-found c n (b ∷ bs) ys h =
    let one_before : length (b ∷ bs) + suc n ≡ suc (length bs + suc n) = omega arith in
    ap (λ m. scan c m (b ∷ bs ++ c ∷ ys)) one_before ∙ rw (h.0, scan-found c n bs ys h.1) refl

digits_before : (ds : List ℕ) → All IsDigit ds → All (λ b. (b == b'=') ≡ false) ds
digits_before [] h = tt
digits_before (d ∷ ds) h = let (low, high) = h.0 in (ground arith, digits_before ds h.1)

byte_at-append : (xs ys : List ℕ) → byte_at (xs ++ soh ∷ ys) ≡ byte_at (xs ++ soh ∷ [])
byte_at-append [] ys = refl
byte_at-append (x ∷ xs) ys = refl

less_one : (n : ℕ) → suc n - 1 ≡ n
less_one n = omega arith

-- A round behind its scans.
abbrev after_scans :
    ℕ
    → Bool
    → FixExecReportView
    → ℤ
    → List ℕ
    → Option ℕ
    → List ℕ
    → ℕ
    → Option (FixExecReportView × Bool)
after_scans fuel report v tag value first back left = elim (tag ==ℤ pos 35) [
  | true ↦ elim (is_exec_report value) [
    | true ↦ wrap_from fuel (record { rest = back; left = left }) true v
    | false ↦ some (v, false)
  ]
  | false ↦ do
    v' ← on_field tag value first v
    wrap_from fuel (record { rest = back; left = left }) report v'
]

round :
    (fuel n m left : ℕ) (report : Bool) (v : FixExecReportView) (xs ys ds value back : List ℕ)
    → scan b'=' (suc n) xs ≡ some (ds, record { rest = b'=' ∷ ys; left = suc m })
    → scan soh m ys ≡ some (value, record { rest = soh ∷ back; left = suc left })
    → wrap_from (suc fuel) (record { rest = xs; left = suc n }) report v
      ≡ after_scans fuel report v (tag_from (pos 0) ds) value (byte_at ys) back (suc left - 1)
unfolding wrap_from
round fuel n m left report v xs ys ds value back h k = rw (h, less_one m, k, wrap_from) refl

-- A field is read whole, and the next round starts behind it.
round-field :
    (fuel n left : ℕ) (report : Bool) (v : FixExecReportView) (f : ℕ × List ℕ) (back : List ℕ)
    → IsPlain f
    → suc n ≡ length (decimal f.0) + suc (length f.1 + suc left)
    → wrap_from
        (suc fuel)
        (record { rest = decimal f.0 ++ b'=' ∷ (f.1 ++ soh ∷ back); left = suc n })
        report
        v
      ≡ after_scans fuel report v (pos f.0) f.1 (byte_at (f.1 ++ soh ∷ [])) back left
round-field fuel n left report v f back plain size =
    let ds = decimal f.0 in
    let tag : scan b'=' (suc n) (ds ++ b'=' ∷ (f.1 ++ soh ∷ back))
        ≡ some
            (ds, record { rest = b'=' ∷ (f.1 ++ soh ∷ back); left = suc (length f.1 + suc left) }) =
      ap (λ m. scan b'=' m (ds ++ b'=' ∷ (f.1 ++ soh ∷ back))) size
      ∙ scan-found b'=' (length f.1 + suc left) ds (f.1 ++ soh ∷ back)
          (digits_before ds (decimal-IsDigit f.0)) in
    let one =
      round fuel n (length f.1 + suc left) left report v (ds ++ b'=' ∷ (f.1 ++ soh ∷ back))
        (f.1 ++ soh ∷ back) ds f.1 back tag (scan-found soh left f.1 back plain) in
    one
    ∙ ap (λ t. after_scans fuel report v t f.1 (byte_at (f.1 ++ soh ∷ back)) back (suc left - 1))
        (tag_from-decimal f.0)
    ∙ ap (λ b. after_scans fuel report v (pos f.0) f.1 b back (suc left - 1))
        (byte_at-append f.1 back)
    ∙ ap (after_scans fuel report v (pos f.0) f.1 (byte_at (f.1 ++ soh ∷ [])) back) (less_one left)

field_bytes-behind :
    (f : ℕ × List ℕ) (back : List ℕ)
    → field_bytes f.0 f.1 ++ back ≡ decimal f.0 ++ b'=' ∷ (f.1 ++ soh ∷ back)
unfolding field_bytes
field_bytes-behind f back =
    append_assoc (decimal f.0) (b'=' ∷ (f.1 ++ soh ∷ [])) back
    ∙ ap (λ xs. decimal f.0 ++ b'=' ∷ xs) (append_assoc f.1 (soh ∷ []) back)

length-field_bytes :
    (f : ℕ × List ℕ) (back : List ℕ)
    → length (field_bytes f.0 f.1 ++ back)
      ≡ length (decimal f.0) + suc (length f.1 + suc (length back))
length-field_bytes f back =
    ap length (field_bytes-behind f back)
    ∙ omega (
      arith,
      length-append (decimal f.0) (b'=' ∷ (f.1 ++ soh ∷ back)),
      length-append f.1 (soh ∷ back),
    )

wrap_from-wire :
    (fs : List (ℕ × List ℕ)) (fuel : ℕ) (report : Bool) (v : FixExecReportView) (back : List ℕ)
    → All IsPlain fs
    → length (wire fs) ≤ fuel
    → wrap_from fuel (record { rest = wire fs ++ back; left = length (wire fs) }) report v
      ≡ read_fields fs report v
unfolding wrap_from
wrap_from-wire [] zero report v back h k = refl
wrap_from-wire [] (suc fuel) report v back h k = refl
wrap_from-wire (f ∷ fs) zero report v back h k =
    absurd (omega (arith, length-field_bytes f (wire fs)))
wrap_from-wire (f ∷ fs) (suc fuel) report v back h k =
    let size = length-field_bytes f (wire fs) in
    let n = length (wire (f ∷ fs)) - 1 in
    let filled : length (wire (f ∷ fs)) ≡ suc n = omega arith in
    let shape : wire (f ∷ fs) ++ back ≡ decimal f.0 ++ b'=' ∷ (f.1 ++ soh ∷ (wire fs ++ back)) =
      append_assoc (field_bytes f.0 f.1) (wire fs) back ∙ field_bytes-behind f (wire fs ++ back) in
    let rest =
      λ (r : Bool) (w : FixExecReportView). wrap_from-wire fs fuel r w back h.1 (omega arith) in
    ap (λ xs. wrap_from (suc fuel) (record { rest = xs; left = length (wire (f ∷ fs)) }) report v)
      shape
    ∙ ap
        (λ l.
          wrap_from (suc fuel)
            (record { rest = decimal f.0 ++ b'=' ∷ (f.1 ++ soh ∷ (wire fs ++ back)); left = l })
            report v)
        filled
    ∙ round-field fuel n (length (wire fs)) report v f (wire fs ++ back) h.0 (sym filled ∙ size)
    ∙ (λ i. elim (pos f.0 ==ℤ pos 35) [
      | true ↦ elim (is_exec_report f.1) [ true ↦ rest true v i | false ↦ some (v, false) ]
      | false ↦ do w ← on_field (pos f.0) f.1 (byte_at (f.1 ++ soh ∷ [])) v; rest report w i
    ])

-- A window of fields whose values have no delimiter is read field by field, wherever it lies in the
-- buffer.
pub wrap-wire :
    (fs : List (ℕ × List ℕ)) (front back : List ℕ)
    → All IsPlain fs
    → wrap (front ++ (wire fs ++ back)) (length front) (length (wire fs))
      ≡ read_fields fs false empty_view
unfolding wrap
wrap-wire fs front back h =
    ap
      (λ xs.
        wrap_from (length (wire fs)) (record { rest = xs; left = length (wire fs) }) false
          empty_view)
      (drop-append front (wire fs ++ back))
    ∙ wrap_from-wire fs (length (wire fs)) false empty_view back h (omega arith)
