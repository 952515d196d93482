-- ===== src/Fix/Decoder.antt =====
-- src/quantfinlib/fix/fix_decoder.py: `FixDecoder`, which cuts a stream of bytes into messages. The
-- decoder is its buffer. `extract` is `poll` up to the bytes that it hands to `FixMessage.parse`;
-- `Fix/Poll` has the whole of it.
use quant_finance_py.Prelude.{
  ℕ, zero, suc, ◌+◌, ◌-◌, ◌*◌, ◌^◌, Bool, false, ◌||◌, ◌&&◌, Option, none, some, List, [], ◌∷◌,
  ◌++◌, ◌==◌, ltb, if◌then◌else◌, length, get_elem?, take, drop,
}
use quant_finance_py.Fix.Message.{soh}

abbrev pub body_length_cap : ℕ
body_length_cap = 2 ^ 20

-- What the buffer holds: more bytes are needed, an error, or a message and the bytes behind it.
pub data Frame : Type 0 where
  wait corrupt : Frame
  message : List ℕ → List ℕ → Frame

-- `feed`: a slice of the data.
unfoldable pub feed : List ℕ → List ℕ → ℕ → ℕ → List ℕ
feed buffer bytes offset count = buffer ++ take count (drop offset bytes)

-- `bytearray.find` of a delimiter.
unfoldable pub find_soh : List ℕ → Option ℕ
find_soh [] = none
find_soh (b ∷ bs) =
    if b == soh then some 0 else elim (find_soh bs) [ none ↦ none | some i ↦ some (suc i) ]

-- The loop over the digits of BodyLength.
unfoldable pub body_length : ℕ → List ℕ → Option ℕ
body_length v [] = some v
body_length v (b ∷ bs) =
    let next = v * 10 + (b - b'0') in
    let rest = body_length next bs in
    if ltb b b'0' || ltb b'9' b then none else if ltb body_length_cap next then none else rest

abbrev pub is_byte : Option ℕ → ℕ → Bool
is_byte none b = false
is_byte (some c) b = c == b

-- The message of a BodyLength field that ends before index `end`.
unfoldable pub cut : List ℕ → ℕ → ℕ → Frame
cut buf end n =
    let total = end + 1 + n + 7 in
    if ltb (length buf) total then wait else message (take total buf) (drop total buf)

-- From the first delimiter, at index `i`.
unfoldable pub poll_from : List ℕ → ℕ → Frame
unfolding find_soh body_length cut
poll_from buf i =
    if is_byte (get_elem? buf (i + 1)) b'9' && is_byte (get_elem? buf (i + 2)) b'='
    then elim (find_soh (drop (i + 3) buf)) [
      | none ↦ wait
      | some zero ↦ corrupt
      | some (suc j) ↦ elim (body_length 0 (take (suc j) (drop (i + 3) buf))) [
        | none ↦ corrupt
        | some n ↦ cut buf (i + 3 + suc j) n
      ]
    ]
    else corrupt

unfoldable pub extract : List ℕ → Frame
unfolding find_soh poll_from
extract buf =
    if ltb (length buf) 20
    then wait
    else elim (find_soh buf) [ none ↦ wait | some i ↦ poll_from buf i ]
