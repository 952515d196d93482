-- ===== src/Fix/Values.antt =====
-- src/quantfinlib/fix/fix_message.py: the values of a builder's fields and the other getters of a
-- message. `format(Decimal(repr(x)), "f")` and `float` of a text, where `none` raises, are
-- parameters.
use quant_finance_py.Prelude.{
  ℕ, suc, ◌≡◌, refl, Bool, true, false, not, ◌&&◌, Option, none, some, List, [], ◌∷◌, ◌==◌,
  if◌then◌else◌, get_elem?,
}
use quant_finance_py.Prelude.Int.{ℤ, pos, negsuc}
use quant_finance_py.Prelude.Maybe.{◌>>=◌}
use quant_finance_py.Prelude.Double.{Double, whole}
use quant_finance_py.Fix.Render.{decimal}
use quant_finance_py.Fix.Message.{FixMessageBuilder, field}
use quant_finance_py.Fix.Reader.{FixMessage, get_string, find_byte, same_bytes}

-- `rstrip` of one character.
unfoldable pub rstrip_byte : ℕ → List ℕ → List ℕ
rstrip_byte c [] = []
rstrip_byte c (b ∷ bs) = elim (rstrip_byte c bs) [
  | [] ↦ if b == c then [] else b ∷ []
  | b' ∷ bs' ↦ b ∷ b' ∷ bs'
]

abbrev pub or_zero : List ℕ → List ℕ
or_zero text =
    if same_bytes text []
    then b'0' ∷ []
    else if same_bytes text (b'-' ∷ [])
    then b'-' ∷ b'0' ∷ []
    else text

abbrev pub holds_point : List ℕ → Bool
holds_point text = elim (find_byte b'.' text) [ none ↦ false | some i ↦ true ]

-- `str` of an integer.
abbrev pub integer_text : ℤ → List ℕ
integer_text (pos n) = decimal n
integer_text (negsuc n) = b'-' ∷ decimal (suc n)

pub data Value (F : Type 0) : Type 0 where
  text : List ℕ → Value F
  integer : ℤ → Value F
  floating : F → Value F

module _ (d : Double) (plain : d.Num → List ℕ) where
  open d use {Num, of_ℤ, same, finite}

  -- `_format_double`; `none` is the raised error.
  unfoldable pub format_double : Num → Option (List ℕ)
  unfolding rstrip_byte find_byte same_bytes
  format_double x =
      if finite x
      then some (
          if not (same x (of_ℤ (pos 0))) && holds_point (plain x)
          then or_zero (rstrip_byte b'.' (rstrip_byte b'0' (plain x)))
          else plain x)
      else none

  unfoldable pub rendered : Value Num → Option (List ℕ)
  unfolding format_double decimal
  rendered (text t) = some t
  rendered (integer n) = some (integer_text n)
  rendered (floating x) = format_double x

  unfoldable pub field_value : FixMessageBuilder → ℕ → Value Num → Option FixMessageBuilder
  unfolding rendered field
  field_value b tag v = do r ← rendered v; some (field b tag r)

unfoldable pub has : ℤ → FixMessage → Bool
unfolding get_string
has tag fields = elim (get_string tag fields) [ none ↦ false | some v ↦ true ]

unfoldable pub get_string_or : ℤ → List ℕ → FixMessage → List ℕ
unfolding get_string
get_string_or tag fallback fields = elim (get_string tag fields) [ none ↦ fallback | some v ↦ v ]

abbrev pub msg_type_of : FixMessage → Option (List ℕ)
msg_type_of fields = get_string (pos 35) fields

unfoldable pub get_char : ℤ → FixMessage → Option ℕ
unfolding get_string
get_char tag fields = do v ← get_string tag fields; get_elem? v 0

module _ {F : Type 0} (float_of : List ℕ → Option F) where
  unfoldable pub get_double : ℤ → FixMessage → Option F
  unfolding get_string
  get_double tag fields = do v ← get_string tag fields; float_of v

  unfoldable pub get_double_or : ℤ → F → FixMessage → Option F
  unfolding get_string
  get_double_or tag fallback fields = elim (get_string tag fields) [
    | none ↦ some fallback
    | some v ↦ float_of v
  ]

-- 1.50 and 2.00, as a number of tenths would be written with two places.
trimmed :
    format_double whole (λ x. b'1' ∷ b'.' ∷ b'5' ∷ b'0' ∷ []) (pos 15)
    ≡ some (b'1' ∷ b'.' ∷ b'5' ∷ [])
unfolding format_double
trimmed = refl

whole_number : format_double whole (λ x. b'2' ∷ b'.' ∷ b'0' ∷ b'0' ∷ []) (pos 20) ≡ some (b'2' ∷ [])
unfolding format_double
whole_number = refl
