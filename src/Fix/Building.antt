-- ===== src/Fix/Building.antt =====
-- src/quantfinlib/fix/fix_message.py: a message from its builder to the parser.
use mathlib.Core.List.{append_assoc, append-nil}
use quant_finance_py.Prelude.{
  ℕ, ◌≡◌, refl, ap, sym, ◌∙◌, Bool, true, false, Option, none, some, List, [], ◌∷◌, ◌++◌, ◌==◌, All,
  if◌then◌else◌,
}
use quant_finance_py.Fix.Render.{decimal}
use quant_finance_py.Fix.Framing.{decimal-IsDigit}
use quant_finance_py.Fix.Message.{
  field_bytes, framed, FixMessageBuilder, builder, field, after_length, encode,
}
use quant_finance_py.Fix.Reader.{parse}
use quant_finance_py.Fix.Fields.{
  wire, IsPlainText, IsPlainOption, IsPlain, fields_of, All-append, digits-IsPlainByte,
}
use quant_finance_py.Fix.Parsing.{header_of, checksum_of, parse-framed}

-- The calls of `field` for some tags and rendered values.
abbrev pub with_fields : FixMessageBuilder → List (ℕ × List ℕ) → FixMessageBuilder
with_fields b [] = b
with_fields b (f ∷ fs) = with_fields (field b f.0 f.1) fs

with_fields_lem :
    (b : FixMessageBuilder) (fs : List (ℕ × List ℕ))
    → ((with_fields b fs).body ≡ b.body ++ wire fs) × ((with_fields b fs).msg_type ≡ b.msg_type)
unfolding field
with_fields_lem b [] = (sym (append-nil b.body), refl)
with_fields_lem b (f ∷ fs) =
    let (is, same) = with_fields_lem (field b f.0 f.1) fs in
    (is ∙ append_assoc b.body (field_bytes f.0 f.1) (wire fs), same)

abbrev pub dup_fields : Bool → List (ℕ × List ℕ)
dup_fields poss_dup = if poss_dup then (43, b'Y' ∷ []) ∷ [] else []

abbrev pub orig_fields : Option (List ℕ) → List (ℕ × List ℕ)
orig_fields none = []
orig_fields (some time) = (122, time) ∷ []

-- What the session puts in front of the fields of a builder.
abbrev pub session_fields :
    List ℕ
    → List ℕ
    → List ℕ
    → ℕ
    → List ℕ
    → Bool
    → Option (List ℕ)
    → List (ℕ × List ℕ)
    → List (ℕ × List ℕ)
session_fields msg_type sender target seq_num sending_time poss_dup orig fs =
    (35, msg_type)
    ∷ (49, sender)
    ∷ (56, target)
    ∷ (34, decimal seq_num)
    ∷ (dup_fields poss_dup ++ (52, sending_time) ∷ (orig_fields orig ++ fs))

after_length-wire :
    (b : FixMessageBuilder) (sender target : List ℕ) (seq_num : ℕ) (sending_time : List ℕ)
    (poss_dup : Bool) (orig : Option (List ℕ)) (fs : List (ℕ × List ℕ))
    → b.body ≡ wire fs
    → after_length b sender target seq_num sending_time poss_dup orig
      ≡ wire (session_fields b.msg_type sender target seq_num sending_time poss_dup orig fs)
unfolding after_length
after_length-wire b sender target seq_num sending_time true none fs is = rw is refl
after_length-wire b sender target seq_num sending_time true (some t) fs is = rw is refl
after_length-wire b sender target seq_num sending_time false none fs is = rw is refl
after_length-wire b sender target seq_num sending_time false (some t) fs is = rw is refl

-- No field is a BodyLength.
abbrev pub HasNoLength : List (ℕ × List ℕ) → Type 0
HasNoLength = All (λ f. (f.0 == 9) ≡ false)

-- Fields that are plain, none of which is a BodyLength.
abbrev Fine : List (ℕ × List ℕ) → Type 0
Fine fs = All IsPlain fs × HasNoLength fs

Fine-append : (fs gs : List (ℕ × List ℕ)) → Fine fs → Fine gs → Fine (fs ++ gs)
Fine-append fs gs h k =
    (All-append IsPlain fs gs h.0 k.0, All-append (λ f. (f.0 == 9) ≡ false) fs gs h.1 k.1)

dup_fields-Fine : (poss_dup : Bool) → Fine (dup_fields poss_dup)
dup_fields-Fine true = (((refl, tt), tt), (refl, tt))
dup_fields-Fine false = (tt, tt)

orig_fields-Fine : (orig : Option (List ℕ)) → IsPlainOption orig → Fine (orig_fields orig)
orig_fields-Fine none h = (tt, tt)
orig_fields-Fine (some t) h = ((h, tt), (refl, tt))

module _ (msg_type sender target : List ℕ) (seq_num : ℕ) (sending_time : List ℕ) (poss_dup : Bool)
    (orig : Option (List ℕ)) (fs : List (ℕ × List ℕ)) where
  -- The fields that are sent.
  abbrev pub sent : List (ℕ × List ℕ)
  sent = session_fields msg_type sender target seq_num sending_time poss_dup orig fs

  session_fields-Fine :
      IsPlainText msg_type
      → IsPlainText sender
      → IsPlainText target
      → IsPlainText sending_time
      → IsPlainOption orig
      → Fine fs
      → Fine sent
  session_fields-Fine typed from to at first fine =
      let (plain, other) =
        Fine-append (dup_fields poss_dup) ((52, sending_time) ∷ (orig_fields orig ++ fs))
          (dup_fields-Fine poss_dup)
          (let (more, rest) =
              Fine-append (orig_fields orig) fs (orig_fields-Fine orig first) fine in
            ((at, more), (refl, rest))) in
      (
        (
          typed,
          (from, (to, (digits-IsPlainByte (decimal seq_num) (decimal-IsDigit seq_num), plain))),
        ),
        (refl, (refl, (refl, (refl, other)))),
      )

  -- A message that was built of fields and encoded is parsed into the fields that the session puts
  -- in front, the optional ones if they were given, and the fields of the builder in their order,
  -- as a dictionary has them. No text has a delimiter, and no field of the builder is a BodyLength.
  pub parse-encode :
      IsPlainText msg_type
      → IsPlainText sender
      → IsPlainText target
      → IsPlainText sending_time
      → IsPlainOption orig
      → All IsPlain fs
      → HasNoLength fs
      → parse (
          encode
            (with_fields (builder msg_type) fs)
            sender
            target
            seq_num
            sending_time
            poss_dup
            orig)
        ≡ some (fields_of [] (header_of sent ++ (10, checksum_of sent) ∷ []))
  unfolding encode
  parse-encode typed from to at first plain other =
      let b = with_fields (builder msg_type) fs in
      let (body, same) = with_fields_lem (builder msg_type) fs in
      let (fine, free) = session_fields-Fine typed from to at first (plain, other) in
      ap (λ t. parse (framed t))
        (after_length-wire b sender target seq_num sending_time poss_dup orig fs body)
      ∙ ap
          (λ t.
            parse (
              framed (wire (session_fields t sender target seq_num sending_time poss_dup orig fs))))
          same
      ∙ parse-framed sent fine free
