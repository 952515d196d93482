-- ===== src/Fix/Fields.antt =====
-- src/quantfinlib/fix/fix_message.py: what `parse` reads of fields that were written.
use quant_finance_py.Prelude.{
  ℕ, suc, ◌+◌, ◌-◌, ◌*◌, ◌≡◌, refl, ap, sym, subst, ◌∙◌, true, false, Option, none, some, List, [],
  ◌∷◌, ◌++◌, ◌==◌, length, take, drop, All, arith, take-append,
}
use mathlib.Core.List.{append_assoc}
use quant_finance_py.Prelude.Int.{ℤ, pos}
use quant_finance_py.Fix.Render.{decimal}
use quant_finance_py.Fix.Digits.{IsDigit, spelled}
use quant_finance_py.Fix.Message.{soh, field_bytes}
use quant_finance_py.Fix.Framing.{decimal_cons, decimal-IsDigit, decimal-spelled}
use quant_finance_py.Fix.Reader.{
  is_space, is_digit, lstrip, rstrip, digits_of, signed_digits, int_of, find_byte, split_soh,
  FixMessage, put_field, read_pair, read_pairs,
}

-- A written field, without its delimiter, and a row of them.
abbrev pub text_of : ℕ × List ℕ → List ℕ
text_of f = decimal f.0 ++ b'=' ∷ f.1

abbrev pub wire : List (ℕ × List ℕ) → List ℕ
wire [] = []
wire (f ∷ fs) = field_bytes f.0 f.1 ++ wire fs

abbrev pub IsPlainByte : ℕ → Type 0
IsPlainByte b = (b == soh) ≡ false

-- A text without a delimiter, a text that may be absent, and a field.
abbrev pub IsPlainText : List ℕ → Type 0
IsPlainText = All IsPlainByte

abbrev pub IsPlainOption : Option (List ℕ) → Type 0
IsPlainOption none = Unit
IsPlainOption (some t) = IsPlainText t

abbrev pub IsPlain : ℕ × List ℕ → Type 0
IsPlain f = All IsPlainByte f.1

abbrev pub fields_of : FixMessage → List (ℕ × List ℕ) → FixMessage
fields_of m [] = m
fields_of m (f ∷ fs) = fields_of (put_field (pos f.0) f.1 m) fs

pub All-append {ℓ κ} :
    {A : Type ℓ} (P : A → Type κ) (xs ys : List A) → All P xs → All P ys → All P (xs ++ ys)
All-append P [] ys h k = k
All-append P (x ∷ xs) ys h k = (h.0, All-append P xs ys h.1 k)

pub digits-IsPlainByte : (ds : List ℕ) → All IsDigit ds → All IsPlainByte ds
digits-IsPlainByte [] h = tt
digits-IsPlainByte (d ∷ ds) h = let (low, high) = h.0 in (ground arith, digits-IsPlainByte ds h.1)

text_of-IsPlainByte : (f : ℕ × List ℕ) → IsPlain f → All IsPlainByte (text_of f)
text_of-IsPlainByte f h =
    All-append IsPlainByte (decimal f.0) (b'=' ∷ f.1)
      (digits-IsPlainByte (decimal f.0) (decimal-IsDigit f.0)) (refl, h)

pub field_bytes-text_of : (f : ℕ × List ℕ) → field_bytes f.0 f.1 ≡ text_of f ++ soh ∷ []
unfolding field_bytes
field_bytes-text_of f = sym (append_assoc (decimal f.0) (b'=' ∷ f.1) (soh ∷ []))

pub wire-append : (fs gs : List (ℕ × List ℕ)) → wire (fs ++ gs) ≡ wire fs ++ wire gs
wire-append [] gs = refl
wire-append (f ∷ fs) gs =
    ap (λ xs. field_bytes f.0 f.1 ++ xs) (wire-append fs gs)
    ∙ sym (append_assoc (field_bytes f.0 f.1) (wire fs) (wire gs))

-- `int` of digits.
lstrip_digits : (ds : List ℕ) → All IsDigit ds → lstrip ds ≡ ds
unfolding lstrip
lstrip_digits [] h = refl
lstrip_digits (d ∷ ds) h =
    let (low, high) = h.0 in let solid : is_space d ≡ false = ground arith in rw solid refl

rstrip_digits : (ds : List ℕ) → All IsDigit ds → rstrip ds ≡ ds
unfolding rstrip
rstrip_digits [] h = refl
rstrip_digits (d ∷ []) h =
    let (low, high) = h.0 in let solid : is_space d ≡ false = ground arith in rw solid refl
rstrip_digits (d ∷ e ∷ ds) h = rw (rstrip_digits (e ∷ ds) h.1) refl

digits_of_digits :
    (v : ℕ) (ds : List ℕ) → All IsDigit ds → digits_of true v ds ≡ some (spelled v ds)
unfolding digits_of spelled
digits_of_digits v [] h = refl
digits_of_digits v (d ∷ ds) h =
    let (low, high) = h.0 in
    let digit : is_digit d ≡ true = ground arith in
    rw (digit, digits_of_digits (v * 10 + (d - 48)) ds h.1) refl

int_of_digits :
    (d : ℕ) (ds : List ℕ) → All IsDigit (d ∷ ds) → int_of (d ∷ ds) ≡ some (pos (spelled 0 (d ∷ ds)))
unfolding int_of signed_digits digits_of spelled
int_of_digits d ds h =
    let (low, high) = h.0 in
    let digit : is_digit d ≡ true = ground arith in
    let unsigned : (d == b'-') ≡ false = ground arith in
    let unmarked : (d == b'+') ≡ false = ground arith in
    rw
      (
        lstrip_digits (d ∷ ds) h,
        rstrip_digits (d ∷ ds) h,
        unsigned,
        unmarked,
        digit,
        digits_of_digits (0 + (d - 48)) ds h.1,
      )
      refl

pub int_of-decimal : (n : ℕ) → int_of (decimal n) ≡ some (pos n)
int_of-decimal n =
    let (d, ds, is) = decimal_cons n in
    let digits : All IsDigit (d ∷ ds) = subst (All IsDigit) is (decimal-IsDigit n) in
    ap int_of is
    ∙ int_of_digits d ds digits
    ∙ ap (λ x. some (pos x)) (sym (ap (spelled 0) is) ∙ decimal-spelled n)

-- The pairs between the delimiters.
split_soh-text : (t ts : List ℕ) → All IsPlainByte t → split_soh (t ++ soh ∷ ts) ≡ t ∷ split_soh ts
unfolding split_soh
split_soh-text [] ts h = refl
split_soh-text (b ∷ bs) ts h = rw (h.0, split_soh-text bs ts h.1) refl

split_soh-last : (t : List ℕ) → All IsPlainByte t → split_soh t ≡ t ∷ []
unfolding split_soh
split_soh-last [] h = refl
split_soh-last (b ∷ bs) h = rw (h.0, split_soh-last bs h.1) refl

find_byte-equals :
    (ds ts : List ℕ) → All IsDigit ds → find_byte b'=' (ds ++ b'=' ∷ ts) ≡ some (length ds)
unfolding find_byte
find_byte-equals [] ts h = refl
find_byte-equals (d ∷ ds) ts h =
    let (low, high) = h.0 in
    let other : (d == b'=') ≡ false = ground arith in rw (other, find_byte-equals ds ts h.1) refl

drop_past : (xs : List ℕ) (y : ℕ) (ys : List ℕ) → drop (suc (length xs)) (xs ++ y ∷ ys) ≡ ys
drop_past [] y ys = refl
drop_past (x ∷ xs) y ys = drop_past xs y ys

read_pair_at :
    (m : FixMessage) (pair value : List ℕ) (i : ℕ) (tag : ℤ)
    → find_byte b'=' pair ≡ some (suc i)
    → int_of (take (suc i) pair) ≡ some tag
    → drop (suc (suc i)) pair ≡ value
    → read_pair m pair ≡ some (put_field tag value m)
unfolding read_pair
read_pair_at m pair value i tag h k e = rw (h, k, e, read_pair) refl

read_pair-digits :
    (m : FixMessage) (d : ℕ) (ds value : List ℕ) (n : ℕ)
    → All IsDigit (d ∷ ds)
    → int_of (d ∷ ds) ≡ some (pos n)
    → read_pair m ((d ∷ ds) ++ b'=' ∷ value) ≡ some (put_field (pos n) value m)
read_pair-digits m d ds value n h k =
    read_pair_at m ((d ∷ ds) ++ b'=' ∷ value) value (length ds) (pos n)
      (find_byte-equals (d ∷ ds) value h) (ap int_of (take-append (d ∷ ds) (b'=' ∷ value)) ∙ k)
      (drop_past (d ∷ ds) b'=' value)

read_pair-text_of :
    (m : FixMessage) (f : ℕ × List ℕ) → read_pair m (text_of f) ≡ some (put_field (pos f.0) f.1 m)
read_pair-text_of m f =
    let (d, ds, is) = decimal_cons f.0 in
    ap (λ xs. read_pair m (xs ++ b'=' ∷ f.1)) is
    ∙ read_pair-digits m d ds f.1 f.0 (subst (All IsDigit) is (decimal-IsDigit f.0))
        (sym (ap int_of is) ∙ int_of-decimal f.0)

pub read_pairs-wire :
    (m : FixMessage) (fs : List (ℕ × List ℕ)) (l : ℕ × List ℕ)
    → All IsPlain fs
    → IsPlain l
    → read_pairs m (split_soh (wire fs ++ text_of l)) ≡ some (fields_of m (fs ++ l ∷ []))
unfolding read_pairs
read_pairs-wire m [] l h k =
    rw (split_soh-last (text_of l) (text_of-IsPlainByte l k), read_pair-text_of m l) refl
read_pairs-wire m (f ∷ fs) l h k =
    let front = ap (λ xs. xs ++ wire fs ++ text_of l) (field_bytes-text_of f) in
    let split = split_soh-text (text_of f) (wire fs ++ text_of l) (text_of-IsPlainByte f h.0) in
    let first = read_pair-text_of m f in
    let rest = read_pairs-wire (put_field (pos f.0) f.1 m) fs l h.1 k in
    ap (λ xs. read_pairs m (split_soh xs))
      (append_assoc (field_bytes f.0 f.1) (wire fs) (text_of l)
        ∙ ap (λ xs. xs ++ (wire fs ++ text_of l)) (field_bytes-text_of f)
        ∙ append_assoc (text_of f) (soh ∷ []) (wire fs ++ text_of l))
    ∙ ap (read_pairs m) split
    ∙ rw (first, rest) refl
