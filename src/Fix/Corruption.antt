-- ===== src/Fix/Corruption.antt =====
-- src/quantfinlib/fix/fix_message.py: messages that `parse` refuses by their checksum.
use mathlib.Core.List.{append_assoc}
use quant_finance_py.Prelude.{
  ℕ, ◌+◌, ◌%◌, ◌^◌, ◌<◌, ◌≡◌, ◌≢◌, refl, ap, sym, ◌∙◌, true, none, List, [], ◌∷◌, ◌++◌, arith,
  Bool-cases, inl, inr,
}
use quant_finance_py.Fix.Render.{padded, decimal, decimal_digits}
use quant_finance_py.Fix.Digits.{padded-IsDigit, spelled, spelled-padded}
use quant_finance_py.Fix.Message.{soh, total_of, head_of, trailer_of, field_bytes}
use quant_finance_py.Fix.Reader.{same_bytes, starts_with, opening, checksum_tag, parse}
use quant_finance_py.Fix.Cuts.{parse_cuts}

same_bytes-true : (xs ys : List ℕ) → same_bytes xs ys ≡ true → xs ≡ ys
unfolding same_bytes
same_bytes-true [] [] h = refl
same_bytes-true [] (y ∷ ys) h = cc
same_bytes-true (x ∷ xs) [] h = cc
same_bytes-true (x ∷ xs) (y ∷ ys) h =
    let rest = same_bytes-true xs ys (ground arith) in let first : x ≡ y = ground arith in cc

padded-inj : (w m n : ℕ) → m < 10 ^ w → n < 10 ^ w → padded w m ≡ padded w n → m ≡ n
padded-inj w m n h k e =
    omega (arith, spelled-padded 0 w m h, ap (spelled 0) e, spelled-padded 0 w n k)

total_of-append : (xs ys : List ℕ) → total_of (xs ++ ys) ≡ total_of xs + total_of ys
total_of-append [] ys = omega arith
total_of-append (x ∷ xs) ys = omega (arith, total_of-append xs ys)

-- A text whose checksum field does not spell the sum of the bytes in front of it is refused.
parse-mismatch :
    (raw front : List ℕ) (total : ℕ)
    → raw ≡ front ++ (checksum_tag ++ (padded 3 (total % 256) ++ soh ∷ []))
    → total_of (front ++ soh ∷ []) % 256 ≢ total % 256
    → parse raw ≡ none
unfolding parse
parse-mismatch raw front total shape differ =
    let sum = padded 3 (total % 256) in
    let (found, payload, text, declared, ends) =
      parse_cuts raw front sum shape (padded-IsDigit 3 (total % 256)) in
    elim (Bool-cases (starts_with opening raw)) [
      | inr c ↦ rw c refl
      | inl c ↦ elim (Bool-cases (same_bytes (padded 3 (total_of (front ++ soh ∷ []) % 256)) sum)) [
        | inr k ↦ rw (c, found, payload, text, declared, ends, k) refl
        | inl k ↦
            absurd (differ (padded-inj 3 _ _ (omega arith) (omega arith) (same_bytes-true _ _ k)))
      ]
    ]

-- A framed message of which one byte in front of the delimiter of its CheckSum field was replaced
-- with another byte is refused.
pub parse-corrupted :
    (body xs ys : List ℕ) (a b : ℕ)
    → a < 256
    → b < 256
    → a ≢ b
    → head_of body ++ body ≡ xs ++ a ∷ (ys ++ soh ∷ [])
    → parse ((xs ++ b ∷ (ys ++ soh ∷ [])) ++ trailer_of (head_of body ++ body)) ≡ none
unfolding field_bytes decimal decimal_digits
parse-corrupted body xs ys a b small small' other is =
    let total = total_of (head_of body ++ body) in
    let sum = padded 3 (total % 256) in
    let front = xs ++ b ∷ ys in
    let before = total_of-append xs (a ∷ (ys ++ soh ∷ [])) in
    let after = total_of-append front (soh ∷ []) in
    let middle = total_of-append xs (b ∷ ys) in
    let last = total_of-append ys (soh ∷ []) in
    let whole = ap total_of is in
    parse-mismatch _ front total
      (ap (λ t. t ++ (b'1' ∷ b'0' ∷ b'=' ∷ (sum ++ soh ∷ [])))
          (sym (append_assoc xs (b ∷ ys) (soh ∷ [])))
        ∙ append_assoc front (soh ∷ []) (b'1' ∷ b'0' ∷ b'=' ∷ (sum ++ soh ∷ [])))
      (λ e. other (omega arith))
