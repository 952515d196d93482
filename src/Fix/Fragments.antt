-- ===== src/Fix/Fragments.antt =====
-- src/quantfinlib/fix/fix_decoder.py, fix_order_encoder.py: messages that arrive in pieces, and the
-- messages of the order encoder.
use quant_finance_py.Prelude.{
  ℕ, ◌+◌, ◌%◌, ◌≤◌, ◌<◌, ◌≡◌, refl, ap, sym, subst, ◌∙◌, true, false, Option, none, some, List, [],
  ◌∷◌, ◌++◌, ◌==◌, ltb, leb, length, get_elem?, All, arith, Bool-cases, inl, inr, length-append,
  Option-cases,
}
use mathlib.Core.List.{append_assoc, append-nil}
use quant_finance_py.Execution.{Side}
use quant_finance_py.Fix.Render.{decimal}
use quant_finance_py.Fix.Digits.{IsDigit, spelled}
use quant_finance_py.Fix.Message.{
  soh, head_of, trailer_of, framed, FixOrderEncoder, encode_order, refresh_date, timestamp,
  order_body, millis_per_day,
}
use quant_finance_py.Fix.Decoder.{body_length_cap, wait, message, find_soh, cut, poll_from, extract}
use quant_finance_py.Fix.Framing.{
  opened_by, extract-opened_by, decimal_cons, decimal-IsDigit, decimal-spelled, length-framed,
  framed-opened_by, extract-framed,
}

-- A list that begins with `p` and is cut behind it.
pub strip :
    (p ts xs ys : List ℕ)
    → p ++ ts ≡ xs ++ ys
    → length p ≤ length xs
    → (zs : List ℕ) × (xs ≡ p ++ zs) × (ts ≡ zs ++ ys)
strip [] ts xs ys e h = (xs, refl, e)
strip (a ∷ more) ts [] ys e h = absurd (omega arith)
strip (a ∷ more) ts (x ∷ xs) ys e h =
    let same : a ≡ x = cc in
    let rest : more ++ ts ≡ xs ++ ys = cc in
    let (zs, front, back) = strip more ts xs ys rest (omega arith) in
    (zs, ap (λ y. y ∷ xs) (sym same) ∙ ap (λ zs'. a ∷ zs') front, back)

All-prefix :
    (ds ts xs ys : List ℕ)
    → ds ++ ts ≡ xs ++ ys
    → length xs ≤ length ds
    → All IsDigit ds
    → All IsDigit xs
All-prefix ds ts [] ys e h k = tt
All-prefix [] ts (x ∷ xs) ys e h k = absurd (omega arith)
All-prefix (d ∷ ds) ts (x ∷ xs) ys e h k =
    let same : d ≡ x = cc in
    let rest : ds ++ ts ≡ xs ++ ys = cc in
    (subst IsDigit same k.0, All-prefix ds ts xs ys rest (omega arith) k.1)

find_soh-none : (ds : List ℕ) → All IsDigit ds → find_soh ds ≡ none
unfolding find_soh
find_soh-none [] h = refl
find_soh-none (b ∷ bs) h =
    let (low, high) = h.0 in
    let other : (b == soh) ≡ false = ground arith in rw (other, find_soh-none bs h.1)

pub extract_short : (xs : List ℕ) → length xs < 20 → extract xs ≡ wait
unfolding extract
extract_short xs h = (let short : ltb (length xs) 20 ≡ true = ground arith in rw short)

extract_digits :
    (ds : List ℕ) → All IsDigit ds → 20 ≤ length (opened_by ds) → extract (opened_by ds) ≡ wait
unfolding extract poll_from find_soh
extract_digits ds h k =
    let long : ltb (length (opened_by ds)) 20 ≡ false = ground arith in
    rw (long, find_soh-none ds h)

cut_wait : (xs : List ℕ) (end n : ℕ) → length xs < end + 1 + n + 7 → cut xs end n ≡ wait
unfolding cut
cut_wait xs end n h =
    (let short : ltb (length xs) (end + 1 + n + 7) ≡ true = ground arith in rw short)

extract_in_body :
    (body xs us : List ℕ)
    → xs ≡ opened_by (decimal (length body) ++ soh ∷ us)
    → 20 ≤ length xs
    → length body ≤ body_length_cap
    → length xs < 12 + length (decimal (length body)) + 1 + length body + 7
    → extract xs ≡ wait
extract_in_body body xs us front long h short =
    let n = length body in
    let (d, more, is) = decimal_cons n in
    let number = decimal-spelled n in
    let size = ap length front in
    ap extract front
    ∙ extract-opened_by (decimal n) us (decimal-IsDigit n) (omega (arith, ap length is))
        (omega arith) (omega arith)
    ∙ cut_wait (opened_by (decimal n ++ soh ∷ us)) (12 + length (decimal n)) (spelled 0 (decimal n))
        (omega arith)

-- As long as a part of a framed message within the cap is missing, the decoder waits, wherever the
-- stream was cut.
pub extract-prefix :
    (body xs ys : List ℕ)
    → length body ≤ body_length_cap
    → framed body ≡ xs ++ ys
    → 0 < length ys
    → extract xs ≡ wait
extract-prefix body xs ys h e missing =
    let n = length body in
    let ds = decimal n in
    let tail = body ++ (trailer_of (head_of body ++ body) ++ []) in
    let shape : opened_by (ds ++ soh ∷ tail) ≡ xs ++ ys =
      sym (framed-opened_by body []) ∙ append-nil (framed body) ∙ e in
    let size : length xs + length ys ≡ 12 + length ds + 1 + n + 7 =
      sym (length-append xs ys) ∙ sym (ap length e) ∙ length-framed body in
    elim (Bool-cases (ltb (length xs) 20)) [
      | inl c ↦ extract_short xs (ground arith)
      | inr c ↦
          (let long : 20 ≤ length xs = ground arith in
            let (zs, front, back) =
              strip (opened_by []) (ds ++ soh ∷ tail) xs ys shape (omega arith) in
            let longer : 20 ≤ length (opened_by zs) = omega (arith, ap length front) in
            elim (Bool-cases (leb (length zs) (length ds))) [
              | inl k ↦
                  ap extract front
                  ∙ extract_digits zs
                      (All-prefix ds (soh ∷ tail) zs ys back (ground arith) (decimal-IsDigit n))
                      longer
              | inr k ↦
                  (let past : length (ds ++ soh ∷ []) ≤ length zs =
                      (let sum = length-append ds (soh ∷ []) in ground arith) in
                    let (us, front', back') =
                      strip (ds ++ soh ∷ []) tail zs ys (append_assoc ds (soh ∷ []) tail ∙ back)
                        past in
                    extract_in_body body xs us
                      (front ∙ ap opened_by (front' ∙ append_assoc ds (soh ∷ []) us)) long h
                      (omega arith))
            ])
    ]

-- The fields of an order at its time, as text.
abbrev pub order_text : FixOrderEncoder → ℕ → ℕ → List ℕ → Side → ℕ → Option (List ℕ) → ℕ → List ℕ
order_text e seq_num cl_ord_id symbol s quantity limit millis =
    order_body (refresh_date e millis) seq_num cl_ord_id symbol s quantity limit
      (timestamp (refresh_date e millis).date_prefix (millis % millis_per_day))

pub encode_order-framed :
    (e e' : FixOrderEncoder) (seq_num cl_ord_id symbol_id : ℕ) (s : Side) (quantity : ℕ)
    (limit : Option (List ℕ)) (millis n : ℕ)
    → encode_order e seq_num cl_ord_id symbol_id s quantity limit millis ≡ some (e', n)
    → (symbol : List ℕ) × (get_elem? e.symbols symbol_id ≡ some (some symbol))
      × (framed (order_text e seq_num cl_ord_id symbol s quantity limit millis) ≡ e'.last)
      × (n ≡ length e'.last)
unfolding encode_order
encode_order-framed e e' seq_num cl_ord_id symbol_id s quantity limit millis n h =
    elim (Option-cases (get_elem? e.symbols symbol_id)) [
      | inl c ↦ (let bad : none ≡ some (e', n) = rw (c, encode_order) at h in cc)
      | inr (slot, c) ↦ elim (Option-cases slot) [
        | inl k ↦ (let bad : none ≡ some (e', n) = rw (c, k, encode_order) at h in cc)
        | inr (symbol, k) ↦
            (let fresh = refresh_date e millis in
              let time = timestamp fresh.date_prefix (millis % millis_per_day) in
              let body = order_body fresh seq_num cl_ord_id symbol s quantity limit time in
              let made : some (record fresh { last = framed body }, length (framed body))
                  ≡ some (e', n) =
                rw (c, k, encode_order) at h in
              let whole : (record fresh { last = framed body }, length (framed body)) ≡ (e', n) =
                cc in
              let last : framed body ≡ e'.last = ap (λ (p : FixOrderEncoder × ℕ). p.0.last) whole in
              (
                symbol,
                c ∙ ap (λ x. some x) k,
                last,
                ap (λ (p : FixOrderEncoder × ℕ). p.1) (sym whole) ∙ ap length last,
              ))
      ]
    ]

-- An order that the encoder accepted, of a length within the cap, is cut out of the stream whole,
-- whatever stands behind it, and its length is the one returned.
pub extract-encode_order :
    (e e' : FixOrderEncoder) (seq_num cl_ord_id symbol_id : ℕ) (s : Side) (quantity : ℕ)
    (limit : Option (List ℕ)) (millis n : ℕ) (rest : List ℕ)
    → encode_order e seq_num cl_ord_id symbol_id s quantity limit millis ≡ some (e', n)
    → n ≤ body_length_cap
    → (extract (e'.last ++ rest) ≡ message e'.last rest) × (n ≡ length e'.last)
extract-encode_order e e' seq_num cl_ord_id symbol_id s quantity limit millis n rest h k =
    let (symbol, named, is, size) =
      encode_order-framed e e' seq_num cl_ord_id symbol_id s quantity limit millis n h in
    let body = order_text e seq_num cl_ord_id symbol s quantity limit millis in
    let long = ap length is in
    let fits : length body ≤ body_length_cap = omega (arith, length-framed body) in
    (subst (λ bs. extract (bs ++ rest) ≡ message bs rest) is (extract-framed body rest fits), size)
