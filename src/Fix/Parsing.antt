-- ===== src/Fix/Parsing.antt =====
-- src/quantfinlib/fix/fix_message.py: a framed message is parsed into its fields.
use quant_finance_py.Prelude.{
  ℕ, suc, ◌+◌, ◌%◌, ◌≡◌, refl, ap, sym, ◌∙◌, true, false, none, some, List, [], ◌∷◌, ◌++◌, ◌==◌,
  length, All, arith, Bool-cases, inl, inr, length-append,
}
use mathlib.Core.List.{append_assoc, append-nil}
use quant_finance_py.Prelude.Int.{pos, sub_ℕ, ◌==ℤ◌}
use quant_finance_py.Fix.Render.{decimal, decimal_digits, padded}
use quant_finance_py.Fix.Digits.{IsDigit, padded-IsDigit}
use quant_finance_py.Fix.Message.{
  soh, begin_string, field_bytes, total_of, head_of, trailer_of, framed,
}
use quant_finance_py.Fix.Decoder.{find_soh}
use quant_finance_py.Fix.Framing.{opened_by, find_soh_digits, framed-opened_by, decimal-IsDigit}
use quant_finance_py.Fix.Reader.{
  starts_with, find_text, split_soh, FixMessage, put_field, get_string, get_long, int_of,
  read_pairs, check_length, checksum_tag, opening, parse,
}
use quant_finance_py.Fix.Fields.{
  All-append, text_of, wire, IsPlain, fields_of, digits-IsPlainByte, field_bytes-text_of,
  wire-append, int_of-decimal, read_pairs-wire,
}
use quant_finance_py.Fix.Cuts.{parse_parts}

-- The fields of a framed message: the two in front, its own, and the checksum.
abbrev pub header_of : List (ℕ × List ℕ) → List (ℕ × List ℕ)
header_of fs = (8, begin_string) ∷ (9, decimal (length (wire fs))) ∷ fs

abbrev pub checksum_of : List (ℕ × List ℕ) → List ℕ
checksum_of fs = padded 3 (total_of (wire (header_of fs)) % 256)

-- A row of fields ends in a delimiter.
wire-soh :
    (f : ℕ × List ℕ) (fs : List (ℕ × List ℕ))
    → (front : List ℕ) × (wire (f ∷ fs) ≡ front ++ soh ∷ [])
wire-soh f [] = (text_of f, append-nil (field_bytes f.0 f.1) ∙ field_bytes-text_of f)
wire-soh f (g ∷ gs) =
    let (front, is) = wire-soh g gs in
    (
      field_bytes f.0 f.1 ++ front,
      ap (λ xs. field_bytes f.0 f.1 ++ xs) is
          ∙ sym (append_assoc (field_bytes f.0 f.1) front (soh ∷ [])),
    )

-- Fields of other tags leave the value of a tag.
get_string-put_field :
    (m : FixMessage) (n : ℕ) (value v : List ℕ)
    → (n == 9) ≡ false
    → get_string (pos 9) m ≡ some v
    → get_string (pos 9) (put_field (pos n) value m) ≡ some v
unfolding get_string put_field
get_string-put_field [] n value v h k = absurd (let no_field : none ≡ some v = k in cc)
get_string-put_field (f ∷ fs) n value v h k = elim (Bool-cases (f.0 ==ℤ pos n)) [
  | inl c ↦
      (let other : (f.0 ==ℤ pos 9) ≡ false = ground arith in
        let apart : (pos n ==ℤ pos 9) ≡ false = ground arith in
        let rest : get_string (pos 9) fs ≡ some v = rw (other, get_string) at k in
        rw (c, apart, rest) refl)
  | inr c ↦ elim (Bool-cases (f.0 ==ℤ pos 9)) [
    | inl e ↦ (let first : some f.1 ≡ some v = rw (e, get_string) at k in rw (c, e) first)
    | inr e ↦
        (let rest : get_string (pos 9) fs ≡ some v = rw (e, get_string) at k in
          rw (c, e) (get_string-put_field fs n value v h rest))
  ]
]

get_string-fields_of :
    (m : FixMessage) (fs : List (ℕ × List ℕ)) (v : List ℕ)
    → All (λ f. (f.0 == 9) ≡ false) fs
    → get_string (pos 9) m ≡ some v
    → get_string (pos 9) (fields_of m fs) ≡ some v
get_string-fields_of m [] v h k = k
get_string-fields_of m (f ∷ fs) v h k =
    get_string-fields_of (put_field (pos f.0) f.1 m) fs v h.1
      (get_string-put_field m f.0 f.1 v h.0 k)

-- The check of a length that is right.
check_length-opened_by :
    (ds ts value : List ℕ) (n checksum_field : ℕ) (m : FixMessage)
    → All IsDigit ds
    → get_string (pos 9) m ≡ some value
    → int_of value ≡ some (pos n)
    → n + 13 + length ds ≡ checksum_field + 1
    → check_length (opened_by (ds ++ soh ∷ ts)) checksum_field m ≡ some m
unfolding check_length find_text starts_with find_soh get_long
check_length-opened_by ds ts value n checksum_field m h k l e =
    let right : (pos n ==ℤ sub_ℕ (checksum_field + 1) (10 + suc (suc (length ds)) + 1)) ≡ true =
      ground arith in
    rw (find_soh_digits ds ts h, k, l) (rw right refl)

-- The bytes of a framed message as fields.
framed-wire :
    (fs : List (ℕ × List ℕ))
    → framed (wire fs) ≡ wire (header_of fs) ++ (b'1' ∷ b'0' ∷ b'=' ∷ (checksum_of fs ++ soh ∷ []))
unfolding framed
framed-wire fs =
    ap (λ payload. payload ++ trailer_of payload)
      (append_assoc (field_bytes 8 begin_string) (field_bytes 9 (decimal (length (wire fs))))
        (wire fs))
    ∙ (unfold decimal decimal_digits in refl)

-- The whole message as a row of fields, each of which reads well.
pub framed_fields :
    (fs : List (ℕ × List ℕ)) → framed (wire fs) ≡ wire (header_of fs ++ (10, checksum_of fs) ∷ [])
unfolding padded
framed_fields fs =
    let last : b'1' ∷ b'0' ∷ b'=' ∷ (checksum_of fs ++ soh ∷ [])
        ≡ wire ((10, checksum_of fs) ∷ []) =
      unfold field_bytes in unfold decimal in unfold decimal_digits in refl in
    framed-wire fs
    ∙ ap (λ xs. wire (header_of fs) ++ xs) last
    ∙ sym (wire-append (header_of fs) ((10, checksum_of fs) ∷ []))

pub framed_fields-IsPlain :
    (fs : List (ℕ × List ℕ))
    → All IsPlain fs
    → All IsPlain (header_of fs ++ (10, checksum_of fs) ∷ [])
framed_fields-IsPlain fs h = (
  (refl, (refl, (refl, (refl, (refl, (refl, (refl, tt))))))),
  (
    digits-IsPlainByte (decimal (length (wire fs))) (decimal-IsDigit (length (wire fs))),
    All-append IsPlain fs ((10, checksum_of fs) ∷ []) h (
      digits-IsPlainByte (checksum_of fs) (padded-IsDigit 3 (total_of (wire (header_of fs)) % 256)),
      tt,
    ),
  ),
)

read_pairs-header :
    (fs : List (ℕ × List ℕ)) (front : List ℕ)
    → All IsPlain fs
    → wire (header_of fs) ≡ front ++ soh ∷ []
    → read_pairs [] (split_soh (front ++ (checksum_tag ++ checksum_of fs)))
      ≡ some (fields_of [] (header_of fs ++ (10, checksum_of fs) ∷ []))
unfolding decimal decimal_digits
read_pairs-header fs front h is =
    let sum = checksum_of fs in
    let tail = b'1' ∷ b'0' ∷ b'=' ∷ sum in
    ap (λ xs. read_pairs [] (split_soh xs))
      (sym (append_assoc front (soh ∷ []) tail) ∙ ap (λ xs. xs ++ tail) (sym is))
    ∙ read_pairs-wire [] (header_of fs) (10, sum)
        (
          (refl, (refl, (refl, (refl, (refl, (refl, (refl, tt))))))),
          (digits-IsPlainByte (decimal (length (wire fs))) (decimal-IsDigit (length (wire fs))), h),
        )
        (digits-IsPlainByte sum (padded-IsDigit 3 (total_of (wire (header_of fs)) % 256)))

length-header :
    (ds body : List ℕ)
    → length (field_bytes 8 begin_string ++ (field_bytes 9 ds ++ body))
      ≡ length body + 13 + length ds
unfolding field_bytes decimal decimal_digits
length-header ds body =
    omega (arith, length-append (ds ++ soh ∷ []) body, length-append ds (soh ∷ []))

get_string-header :
    (fs : List (ℕ × List ℕ))
    → All (λ f. (f.0 == 9) ≡ false) fs
    → get_string (pos 9) (fields_of [] (header_of fs ++ (10, checksum_of fs) ∷ []))
      ≡ some (decimal (length (wire fs)))
get_string-header fs h =
    get_string-fields_of _ (fs ++ (10, checksum_of fs) ∷ []) (decimal (length (wire fs)))
      (All-append (λ f. (f.0 == 9) ≡ false) fs ((10, checksum_of fs) ∷ []) h (refl, tt))
      (unfold get_string in unfold put_field in refl)

-- A framed message of fields whose values have no delimiter, and none of which is a BodyLength, is
-- parsed into these fields behind BeginString and BodyLength and before its CheckSum, as a
-- dictionary has them.
pub parse-framed :
    (fs : List (ℕ × List ℕ))
    → All IsPlain fs
    → All (λ f. (f.0 == 9) ≡ false) fs
    → parse (framed (wire fs)) ≡ some (fields_of [] (header_of fs ++ (10, checksum_of fs) ∷ []))
parse-framed fs plain other =
    let body = wire fs in
    let ds = decimal (length body) in
    let (front, is) = wire-soh (8, begin_string) ((9, ds) ∷ fs) in
    let tail = b'1' ∷ b'0' ∷ b'=' ∷ (checksum_of fs ++ soh ∷ []) in
    let shape : framed body ≡ front ++ (checksum_tag ++ (checksum_of fs ++ soh ∷ [])) =
      framed-wire fs ∙ ap (λ xs. xs ++ tail) is ∙ append_assoc front (soh ∷ []) tail in
    let more = body ++ (trailer_of (head_of body ++ body) ++ []) in
    let opened : framed body ≡ opened_by (ds ++ soh ∷ more) =
      sym (append-nil (framed body)) ∙ framed-opened_by body [] in
    let size : length body + 13 + length ds ≡ length front + 1 =
      sym (length-header ds body) ∙ ap length is ∙ length-append front (soh ∷ []) in
    parse_parts (framed body) front (checksum_of fs) _ shape
      (ap (starts_with opening) opened ∙ (unfold starts_with in refl))
      (padded-IsDigit 3 (total_of (wire (header_of fs)) % 256))
      (ap (λ xs. padded 3 (total_of xs % 256)) (sym is)) (read_pairs-header fs front plain is)
      (ap
          (λ raw.
            check_length raw (length front)
              (fields_of [] (header_of fs ++ (10, checksum_of fs) ∷ [])))
          opened
        ∙ check_length-opened_by ds more ds (length body) (length front) _
            (decimal-IsDigit (length body)) (get_string-header fs other)
            (int_of-decimal (length body)) size)
