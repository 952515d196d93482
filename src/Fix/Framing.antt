-- ===== src/Fix/Framing.antt =====
-- src/quantfinlib/fix/fix_decoder.py, fix_message.py: a framed message is cut out of the stream.
use quant_finance_py.Prelude.{
  take-append, drop-append, ℕ, suc, ◌+◌, ◌-◌, ◌*◌, ◌/◌, ◌%◌, ◌≤◌, ◌<◌, ◌≡◌, refl, ap, sym, ◌∙◌,
  false, ◌||◌, some, List, [], ◌∷◌, ◌++◌, ◌==◌, ltb, length, take, All, arith, Bool-cases, inl, inr,
  length-append,
}
use mathlib.Core.List.{append_assoc}
use quant_finance_py.Fix.Render.{decimal_digits, decimal, padded}
use quant_finance_py.Fix.Digits.{
  IsDigit, spelled, decimal_digits_one, decimal_digits_more, decimal_digits-IsDigit,
  spelled-decimal_digits, length-padded,
}
use quant_finance_py.Fix.Message.{
  soh, begin_string, field_bytes, total_of, head_of, trailer_of, framed,
}
use quant_finance_py.Fix.Decoder.{
  body_length_cap, message, find_soh, body_length, cut, poll_from, extract,
}

pub find_soh_digits :
    (ds ts : List ℕ) → All IsDigit ds → find_soh (ds ++ soh ∷ ts) ≡ some (length ds)
unfolding find_soh
find_soh_digits [] ts h = refl
find_soh_digits (b ∷ bs) ts h =
    let (low, high) = h.0 in
    let other : (b == soh) ≡ false = ground arith in rw (other, find_soh_digits bs ts h.1)

spelled-le : (acc : ℕ) (ds : List ℕ) → acc ≤ spelled acc ds
unfolding spelled
spelled-le acc [] = omega arith
spelled-le acc (b ∷ bs) = let rest = spelled-le (acc * 10 + (b - 48)) bs in omega arith

body_length_digits :
    (acc : ℕ) (ds : List ℕ)
    → All IsDigit ds
    → spelled acc ds ≤ body_length_cap
    → body_length acc ds ≡ some (spelled acc ds)
unfolding body_length spelled
body_length_digits acc [] h k = refl
body_length_digits acc (b ∷ bs) h k =
    let (low, high) = h.0 in
    let digit : (ltb b b'0' || ltb b'9' b) ≡ false = ground arith in
    let grows = spelled-le (acc * 10 + (b - 48)) bs in
    let fits : ltb body_length_cap (acc * 10 + (b - b'0')) ≡ false = ground arith in
    rw (digit, fits, body_length_digits (acc * 10 + (b - 48)) bs h.1 k)

split_last : (xs : List ℕ) (x : ℕ) → (d : ℕ) × (ds : List ℕ) × (xs ++ x ∷ [] ≡ d ∷ ds)
split_last [] x = (x, [], refl)
split_last (y ∷ ys) x = (y, ys ++ x ∷ [], refl)

pub decimal_cons : (n : ℕ) → (d : ℕ) × (ds : List ℕ) × (decimal n ≡ d ∷ ds)
unfolding decimal
decimal_cons n = elim (Bool-cases (ltb n 10)) [
  | inl c ↦ (48 + n, [], decimal_digits_one n n c)
  | inr c ↦
      (let (d, ds, is) = split_last (decimal_digits n (n / 10)) (48 + n % 10) in
        (d, ds, decimal_digits_more n n c ∙ is))
]

-- The stream from its BeginString on.
abbrev pub opened_by : List ℕ → List ℕ
opened_by ts = b'8' ∷ b'=' ∷ (begin_string ++ soh ∷ b'9' ∷ b'=' ∷ ts)

pub extract-opened_by :
    (ds ts : List ℕ)
    → All IsDigit ds
    → 0 < length ds
    → spelled 0 ds ≤ body_length_cap
    → 20 ≤ length (opened_by (ds ++ soh ∷ ts))
    → extract (opened_by (ds ++ soh ∷ ts))
      ≡ cut (opened_by (ds ++ soh ∷ ts)) (12 + length ds) (spelled 0 ds)
unfolding extract poll_from find_soh
extract-opened_by [] ts h p k l = absurd (omega arith)
extract-opened_by (d ∷ ds) ts h p k l =
    let long : ltb (length (opened_by (d ∷ ds ++ soh ∷ ts))) 20 ≡ false = ground arith in
    let next = find_soh_digits (d ∷ ds) ts h in
    let counted : body_length 0 (take (suc (length ds)) (d ∷ (ds ++ soh ∷ ts)))
        ≡ some (spelled 0 (d ∷ ds)) =
      ap (body_length 0) (take-append (d ∷ ds) (soh ∷ ts)) ∙ body_length_digits 0 (d ∷ ds) h k in
    rw (long, next, counted)

head_is :
    (ds : List ℕ) → field_bytes 8 begin_string ++ field_bytes 9 ds ≡ opened_by (ds ++ soh ∷ [])
unfolding field_bytes decimal decimal_digits
head_is ds = refl

length-trailer_of : (payload : List ℕ) → length (trailer_of payload) ≡ 7
unfolding field_bytes decimal decimal_digits
length-trailer_of payload =
    let digits = padded 3 (total_of payload % 256) in
    omega (arith, length-append digits (soh ∷ []), length-padded 3 (total_of payload % 256))

pub decimal-IsDigit : (n : ℕ) → All IsDigit (decimal n)
unfolding decimal
decimal-IsDigit n = decimal_digits-IsDigit (suc n) n

pub decimal-spelled : (n : ℕ) → spelled 0 (decimal n) ≡ n
unfolding decimal
decimal-spelled n = spelled-decimal_digits (suc n) n (omega arith)

cut-message :
    (msg rest : List ℕ) (end n : ℕ)
    → end + 1 + n + 7 ≡ length msg
    → cut (msg ++ rest) end n ≡ message msg rest
unfolding cut
cut-message msg rest end n h =
    let whole : ltb (length (msg ++ rest)) (length msg) ≡ false =
      (let sum = length-append msg rest in ground arith) in
    rw (h, whole, take-append msg rest, drop-append msg rest)

-- What `framed` puts in front of the fields behind BodyLength, and behind them.
pub framed-opened_by :
    (body rest : List ℕ)
    → framed body ++ rest
      ≡ opened_by
          (decimal (length body) ++ soh ∷ (body ++ (trailer_of (head_of body ++ body) ++ rest)))
unfolding framed
framed-opened_by body rest =
    let tail = body ++ (trailer_of (head_of body ++ body) ++ rest) in
    append_assoc (head_of body ++ body) (trailer_of (head_of body ++ body)) rest
    ∙ append_assoc (head_of body) body (trailer_of (head_of body ++ body) ++ rest)
    ∙ ap (λ xs. xs ++ tail) (head_is (decimal (length body)))
    ∙ ap opened_by (append_assoc (decimal (length body)) (soh ∷ []) tail)

pub length-framed :
    (body : List ℕ)
    → length (framed body) ≡ 12 + length (decimal (length body)) + 1 + length body + 7
unfolding framed
length-framed body = omega (
  arith,
  length-append (head_of body ++ body) (trailer_of (head_of body ++ body)),
  length-append (head_of body) body,
  ap length (head_is (decimal (length body))),
  length-append (decimal (length body)) (soh ∷ []),
  length-trailer_of (head_of body ++ body),
)

-- The framed message of fields within the cap is cut out of the stream, whatever stands behind it.
pub extract-framed :
    (body rest : List ℕ)
    → length body ≤ body_length_cap
    → extract (framed body ++ rest) ≡ message (framed body) rest
extract-framed body rest h =
    let n = length body in
    let ds = decimal n in
    let (d, more, is) = decimal_cons n in
    let filled : 0 < length ds = omega (arith, ap length is) in
    let number = decimal-spelled n in
    let e = framed-opened_by body rest in
    let tail = body ++ (trailer_of (head_of body ++ body) ++ rest) in
    let enough : 20 ≤ length (opened_by (ds ++ soh ∷ tail)) = omega (
      arith,
      length-append ds (soh ∷ tail),
      length-append body (trailer_of (head_of body ++ body) ++ rest),
      length-append (trailer_of (head_of body ++ body)) rest,
      length-trailer_of (head_of body ++ body),
    ) in
    ap extract e
    ∙ extract-opened_by ds tail (decimal-IsDigit n) filled (omega arith) enough
    ∙ ap (λ bs. cut bs (12 + length ds) (spelled 0 ds)) (sym e)
    ∙ ap (cut (framed body ++ rest) (12 + length ds)) number
    ∙ cut-message (framed body) rest (12 + length ds) n (sym (length-framed body))
