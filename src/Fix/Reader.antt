-- ===== src/Fix/Reader.antt =====
-- src/quantfinlib/fix/fix_message.py: `FixMessage.parse` and the getters. A text is the list of its
-- Latin-1 bytes; a message is its fields in the order of the dictionary that holds them. The limit
-- that an interpreter may set on the digits of an integer is left out.
use quant_finance_py.Prelude.{
  ℕ, zero, suc, ◌+◌, ◌-◌, ◌*◌, ◌%◌, Bool, true, false, ◌||◌, ◌&&◌, not, Option, none, some, List,
  [], ◌∷◌, ◌++◌, ◌==◌, ltb, if◌then◌else◌, length, take, drop,
}
use quant_finance_py.Prelude.Int.{ℤ, pos, sub_ℕ, ◌==ℤ◌}
use quant_finance_py.Prelude.Maybe.{◌>>=◌}
use quant_finance_py.Fix.Parse.{negate}
use quant_finance_py.Fix.Render.{padded}
use quant_finance_py.Fix.Message.{soh, begin_string, total_of}
use quant_finance_py.Fix.Decoder.{find_soh}

-- The white space of Latin-1.
abbrev pub is_space : ℕ → Bool
is_space b =
    (b == 32) || ((b == 133) || ((b == 160) || ((ltb 8 b && ltb b 14) || (ltb 27 b && ltb b 32))))

abbrev pub is_digit : ℕ → Bool
is_digit b = not (ltb b b'0') && not (ltb b'9' b)

-- `str.strip`.
unfoldable pub lstrip : List ℕ → List ℕ
lstrip [] = []
lstrip (b ∷ bs) = if is_space b then lstrip bs else b ∷ bs

unfoldable pub rstrip : List ℕ → List ℕ
rstrip [] = []
rstrip (b ∷ bs) = elim (rstrip bs) [ [] ↦ if is_space b then [] else b ∷ [] | c ∷ cs ↦ b ∷ c ∷ cs ]

-- Digits with single underscores between them, behind a digit or not.
unfoldable pub digits_of : Bool → ℕ → List ℕ → Option ℕ
digits_of behind v [] = if behind then some v else none
digits_of behind v (b ∷ bs) =
    let more = digits_of true (v * 10 + (b - b'0')) bs in
    let skipped = digits_of false v bs in
    if is_digit b then more else if behind && (b == b'_') then skipped else none

unfoldable pub signed_digits : List ℕ → Option ℤ
unfolding digits_of
signed_digits [] = none
signed_digits (b ∷ bs) =
    if b == b'-'
    then (do n ← digits_of false 0 bs; some (negate (pos n)))
    else (do n ← digits_of false 0 (if b == b'+' then bs else b ∷ bs); some (pos n))

-- `int` of a text.
unfoldable pub int_of : List ℕ → Option ℤ
unfolding lstrip rstrip signed_digits
int_of bs = signed_digits (rstrip (lstrip bs))

-- `find` of a byte, `startswith`, `index` and `rfind` of a text.
unfoldable pub find_byte : ℕ → List ℕ → Option ℕ
find_byte c [] = none
find_byte c (b ∷ bs) =
    if b == c then some 0 else elim (find_byte c bs) [ none ↦ none | some i ↦ some (suc i) ]

unfoldable pub starts_with : List ℕ → List ℕ → Bool
starts_with [] bs = true
starts_with (p ∷ ps) [] = false
starts_with (p ∷ ps) (b ∷ bs) = (p == b) && starts_with ps bs

unfoldable pub find_text : List ℕ → List ℕ → Option ℕ
unfolding starts_with
find_text t [] = if starts_with t [] then some 0 else none
find_text t (b ∷ bs) =
    if starts_with t (b ∷ bs)
    then some 0
    else elim (find_text t bs) [ none ↦ none | some i ↦ some (suc i) ]

unfoldable pub rfind_text : List ℕ → List ℕ → Option ℕ
unfolding starts_with
rfind_text t [] = if starts_with t [] then some 0 else none
rfind_text t (b ∷ bs) = elim (rfind_text t bs) [
  | none ↦ if starts_with t (b ∷ bs) then some 0 else none
  | some i ↦ some (suc i)
]

unfoldable pub ends_with : ℕ → List ℕ → Bool
ends_with c [] = false
ends_with c (b ∷ []) = b == c
ends_with c (b ∷ b' ∷ bs) = ends_with c (b' ∷ bs)

unfoldable pub same_bytes : List ℕ → List ℕ → Bool
same_bytes [] [] = true
same_bytes (x ∷ xs) (y ∷ ys) = (x == y) && same_bytes xs ys
same_bytes xs ys = false

-- `split` at the delimiter.
unfoldable pub split_soh : List ℕ → List (List ℕ)
split_soh [] = [] ∷ []
split_soh (b ∷ bs) =
    if b == soh
    then [] ∷ split_soh bs
    else elim (split_soh bs) [ [] ↦ (b ∷ []) ∷ [] | t ∷ ts ↦ (b ∷ t) ∷ ts ]

abbrev pub FixMessage : Type 0
FixMessage = List (ℤ × List ℕ)

-- A dictionary keeps the place of a key that it has.
unfoldable pub put_field : ℤ → List ℕ → FixMessage → FixMessage
put_field tag value [] = (tag, value) ∷ []
put_field tag value (f ∷ fs) = if f.0 ==ℤ tag then (tag, value) ∷ fs else f ∷ put_field tag value fs

-- `get_string` without a default; `none` is the raised error.
unfoldable pub get_string : ℤ → FixMessage → Option (List ℕ)
get_string tag [] = none
get_string tag (f ∷ fs) = if f.0 ==ℤ tag then some f.1 else get_string tag fs

unfoldable pub get_long : ℤ → FixMessage → Option ℤ
unfolding get_string int_of
get_long tag fields = do value ← get_string tag fields; int_of value

-- The field of one pair.
unfoldable pub read_pair : FixMessage → List ℕ → Option FixMessage
unfolding find_byte int_of put_field
read_pair fields pair = elim (find_byte b'=' pair) [
  | none ↦ none
  | some zero ↦ none
  | some (suc i) ↦ do
    tag ← int_of (take (suc i) pair)
    some (put_field tag (drop (suc (suc i)) pair) fields)
]

unfoldable pub read_pairs : FixMessage → List (List ℕ) → Option FixMessage
unfolding read_pair
read_pairs fields [] = some fields
read_pairs fields (pair ∷ pairs) = do more ← read_pair fields pair; read_pairs more pairs

-- The check of BodyLength, where the checksum field has its delimiter at index `checksum_field`.
unfoldable pub check_length : List ℕ → ℕ → FixMessage → Option FixMessage
unfolding find_text find_soh get_long
check_length raw checksum_field fields = do
  at ← find_text (b'9' ∷ b'=' ∷ []) raw
  past ← find_soh (drop at raw)
  declared ← get_long (pos 9) fields
  if declared ==ℤ sub_ℕ (checksum_field + 1) (at + past + 1) then some fields else none

abbrev pub checksum_tag : List ℕ
checksum_tag = soh ∷ b'1' ∷ b'0' ∷ b'=' ∷ []

abbrev pub opening : List ℕ
opening = b'8' ∷ b'=' ∷ (begin_string ++ soh ∷ [])

-- `parse`; `none` is the raised error.
unfoldable pub parse : List ℕ → Option FixMessage
unfolding starts_with rfind_text ends_with padded same_bytes split_soh read_pairs check_length
parse raw =
    if starts_with opening raw
    then elim (rfind_text checksum_tag raw) [
      | none ↦ none
      | some checksum_field ↦
          let front = take (length raw - 1) raw in
          if ends_with soh raw
            && same_bytes (padded 3 (total_of (take (checksum_field + 1) raw) % 256))
                (drop (checksum_field + 4) front)
          then (do fields ← read_pairs [] (split_soh front); check_length raw checksum_field fields)
          else none
    ]
    else none
