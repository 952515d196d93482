-- ===== src/Fix/Cuts.antt =====
-- src/quantfinlib/fix/fix_message.py: the parts that `parse` cuts out of a text.
use quant_finance_py.Prelude.{
  ℕ, ◌+◌, ◌-◌, ◌%◌, ◌≡◌, refl, ap, sym, ◌∙◌, true, false, none, some, List, [], ◌∷◌, ◌++◌, ◌==◌,
  length, take, drop, All, arith, length-append, take-append, drop-append,
}
use mathlib.Core.List.{append_assoc}
use quant_finance_py.Fix.Render.{padded}
use quant_finance_py.Fix.Digits.{IsDigit}
use quant_finance_py.Fix.Message.{soh, total_of}
use quant_finance_py.Fix.Reader.{
  starts_with, rfind_text, ends_with, same_bytes, split_soh, FixMessage, read_pairs, check_length,
  checksum_tag, opening, parse,
}

rfind-behind :
    (t front back : List ℕ)
    → rfind_text t back ≡ some 0
    → rfind_text t (front ++ back) ≡ some (length front)
unfolding rfind_text
rfind-behind t [] back h = h
rfind-behind t (b ∷ bs) back h = rw (rfind-behind t bs back h) refl

rfind-digits : (ds : List ℕ) → All IsDigit ds → rfind_text checksum_tag (ds ++ soh ∷ []) ≡ none
unfolding rfind_text starts_with
rfind-digits [] h = refl
rfind-digits (d ∷ ds) h =
    let (low, high) = h.0 in
    let other : (soh == d) ≡ false = ground arith in rw (rfind-digits ds h.1, other) refl

rfind-checksum :
    (front ds : List ℕ)
    → All IsDigit ds
    → rfind_text checksum_tag (front ++ (checksum_tag ++ (ds ++ soh ∷ []))) ≡ some (length front)
unfolding rfind_text starts_with
rfind-checksum front ds h =
    rfind-behind checksum_tag front (checksum_tag ++ (ds ++ soh ∷ []))
      (rw (rfind-digits ds h, rfind_text) refl)

ends_with-last : (c : ℕ) (xs : List ℕ) → ends_with c (xs ++ c ∷ []) ≡ true
unfolding ends_with
ends_with-last c [] = ground arith
ends_with-last c (x ∷ []) = ground arith
ends_with-last c (x ∷ y ∷ ys) = ends_with-last c (y ∷ ys)

same_bytes_self : (xs : List ℕ) → same_bytes xs xs ≡ true
unfolding same_bytes
same_bytes_self [] = refl
same_bytes_self (x ∷ xs) =
    (let same : (x == x) ≡ true = ground arith in rw (same, same_bytes_self xs) refl)

take_front {ℓ} : {A : Type ℓ} (n : ℕ) (xs ys : List A) → n ≡ length xs → take n (xs ++ ys) ≡ xs
take_front n xs ys h = ap (λ k. take k (xs ++ ys)) h ∙ take-append xs ys

drop_front {ℓ} : {A : Type ℓ} (n : ℕ) (xs ys : List A) → n ≡ length xs → drop n (xs ++ ys) ≡ ys
drop_front n xs ys h = ap (λ k. drop k (xs ++ ys)) h ∙ drop-append xs ys

-- What `parse` cuts out of a text that ends in a checksum of digits.
pub parse_cuts :
    (raw front sum : List ℕ)
    → raw ≡ front ++ (checksum_tag ++ (sum ++ soh ∷ []))
    → All IsDigit sum
    → (rfind_text checksum_tag raw ≡ some (length front))
      × (take (length front + 1) raw ≡ front ++ soh ∷ [])
      × (take (length raw - 1) raw ≡ front ++ (checksum_tag ++ sum))
      × (drop (length front + 4) (front ++ (checksum_tag ++ sum)) ≡ sum)
      × (ends_with soh raw ≡ true)
parse_cuts raw front sum shape digits =
    let inner = front ++ (checksum_tag ++ sum) in
    let closed : raw ≡ inner ++ soh ∷ [] =
      shape
      ∙ ap (λ xs. front ++ xs) (sym (append_assoc checksum_tag sum (soh ∷ [])))
      ∙ sym (append_assoc front (checksum_tag ++ sum) (soh ∷ [])) in
    let size : length raw ≡ length inner + 1 = ap length closed ∙ length-append inner (soh ∷ []) in
    (
      ap (rfind_text checksum_tag) shape ∙ rfind-checksum front sum digits,
      ap (take (length front + 1))
            (shape ∙ sym (append_assoc front (soh ∷ []) (b'1' ∷ b'0' ∷ b'=' ∷ (sum ++ soh ∷ []))))
          ∙ take_front (length front + 1) (front ++ soh ∷ []) _
              (sym (length-append front (soh ∷ []))),
      ap (take (length raw - 1)) closed
          ∙ take_front (length raw - 1) inner (soh ∷ []) (omega arith),
      ap (drop (length front + 4)) (sym (append_assoc front checksum_tag sum))
          ∙ drop_front (length front + 4) (front ++ checksum_tag) sum
              (sym (length-append front checksum_tag)),
      ap (ends_with soh) closed ∙ ends_with-last soh inner,
    )

-- A text whose parts are right is parsed.
pub parse_parts :
    (raw front sum : List ℕ) (m : FixMessage)
    → raw ≡ front ++ (checksum_tag ++ (sum ++ soh ∷ []))
    → starts_with opening raw ≡ true
    → All IsDigit sum
    → padded 3 (total_of (front ++ soh ∷ []) % 256) ≡ sum
    → read_pairs [] (split_soh (front ++ (checksum_tag ++ sum))) ≡ some m
    → check_length raw (length front) m ≡ some m
    → parse raw ≡ some m
unfolding parse
parse_parts raw front sum m shape opens digits total read checked =
    let (found, payload, text, declared, ends) = parse_cuts raw front sum shape digits in
    rw (opens, found, payload, text, declared, total, ends, same_bytes_self sum, read, checked) refl
