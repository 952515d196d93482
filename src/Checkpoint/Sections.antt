-- ===== src/Checkpoint/Sections.antt =====
-- src/quantfinlib/persist/checkpoint.py: what a reader finds in a file that a writer committed.
use quant_finance_py.Prelude.{
  take-append, drop-append, ℕ, zero, suc, ◌+◌, ◌/◌, ◌^◌, ◌<◌, ◌≤◌, ◌≡◌, ◌⊎◌, refl, ap, sym, subst,
  ◌∙◌, Bool, true, false, ◌&&◌, Option, none, some, List, [], ◌∷◌, ◌++◌, ltb, leb, length, arith,
  length-append, All, Bool-cases, inl, inr, Option-cases, ◌==◌,
}
use mathlib.Core.List.{append-nil, append_assoc}
use quant_finance_py.Prelude.Int.{pos}
use quant_finance_py.Prelude.Maybe.{◌>>=◌, require, >>=-some, require-some}
use quant_finance_py.Prelude.Bytes.{be, fits}
use quant_finance_py.Checkpoint.{
  fits_signed, Section, same_name, find_section, put_section, CheckpointWriter, add_section,
  section_bytes, file_bytes, close, read_section, read_sections, reader, magic, format_version,
  restore,
}
use quant_finance_py.Checkpoint.Fields.{length-be, read_field-be, read_signed-be}

put_section-new :
    (name payload : List ℕ) (ss : List Section)
    → find_section name ss ≡ none
    → put_section name payload ss ≡ ss ++ (name, payload) ∷ []
unfolding put_section find_section
put_section-new name payload [] h = refl
put_section-new name payload (s ∷ ss) h = elim (Bool-cases (same_name (s.0) name)) [
  | inl c ↦ (let bad : some (s.1) ≡ none = rw c at h in cc)
  | inr c ↦ rw c (ap (λ xs. s ∷ xs) (put_section-new name payload ss (rw c at h)))
]

-- No section has the name of one before it.
abbrev pub NewNames : List Section → List Section → Type 0
NewNames before [] = Unit
NewNames before (s ∷ ss) = (find_section (s.0) before ≡ none) × NewNames (before ++ s ∷ []) ss

NewNames-append :
    (before ss : List Section) (s : Section)
    → NewNames before ss
    → find_section (s.0) (before ++ ss) ≡ none
    → NewNames before (ss ++ s ∷ [])
NewNames-append before [] s h k =
    (subst (λ xs. find_section (s.0) xs ≡ none) (append-nil before) k, tt)
NewNames-append before (x ∷ xs) s h k = (
  h.0,
  NewNames-append (before ++ x ∷ []) xs s h.1
      (subst (λ ys. find_section (s.0) ys ≡ none) (sym (append_assoc before (x ∷ []) xs)) k),
)

abbrev one_section : List ℕ → List ℕ → List ℕ → List ℕ
one_section name payload rest =
    be 2 (length name) ++ (name ++ (be 4 (length payload) ++ (payload ++ rest)))

length-one_section :
    (name payload rest : List ℕ) → length rest + 1 ≤ length (one_section name payload rest)
length-one_section name payload rest = omega (
  arith,
  length-append (be 2 (length name)) (name ++ (be 4 (length payload) ++ (payload ++ rest))),
  length-be 2 (length name),
  length-append name (be 4 (length payload) ++ (payload ++ rest)),
  length-append (be 4 (length payload)) (payload ++ rest),
  length-append payload rest,
)

section_bytes_cons :
    (s : Section) (ss : List Section) (bytes : List ℕ)
    → section_bytes (s ∷ ss) ≡ some bytes
    → (rest : List ℕ) × (section_bytes ss ≡ some rest)
      × ((fits 2 (length (s.0)) && fits_signed 4 (pos (length (s.1)))) ≡ true)
      × (one_section (s.0) (s.1) rest ≡ bytes)
unfolding section_bytes
section_bytes_cons s ss bytes h =
    let (rest, tail, made) = >>=-some (section_bytes ss) _ bytes h in
    let (fit, is) =
      require-some (fits 2 (length (s.0)) && fits_signed 4 (pos (length (s.1)))) _ bytes made in
    (rest, tail, fit, cc)

-- The number of sections is at most the number of their bytes.
section_bytes-length :
    (ss : List Section) (bytes : List ℕ) → section_bytes ss ≡ some bytes → length ss ≤ length bytes
section_bytes-length [] bytes h = omega arith
section_bytes-length (s ∷ ss) bytes h =
    let (rest, tail, fit, is) = section_bytes_cons s ss bytes h in
    let more = section_bytes-length ss rest tail in
    let size = length-one_section (s.0) (s.1) rest in
    subst (λ xs. length (s ∷ ss) ≤ length xs) is (omega arith)

module _ (valid_utf8 : List ℕ → Bool) where
  -- A written section is read back, and what follows it remains.
  read_section-bytes :
      (name payload rest : List ℕ)
      → (fits 2 (length name) && fits_signed 4 (pos (length payload))) ≡ true
      → valid_utf8 name ≡ true
      → read_section valid_utf8
          (be 2 (length name) ++ (name ++ (be 4 (length payload) ++ (payload ++ rest))))
        ≡ some (name, payload, rest)
  unfolding read_section
  read_section-bytes name payload rest h valid =
      let short : length name < 256 ^ 2 = ground arith in
      let small : length payload < 256 ^ 4 / 2 = ground arith in
      let tail = be 4 (length payload) ++ (payload ++ rest) in
      let inside : (ltb (length payload) (256 ^ 4 / 2)
            && leb (length payload) (length (payload ++ rest)))
          ≡ true =
        (let sum = length-append payload rest in ground arith) in
      rw (
        read_field-be 2 (length name) (name ++ tail) short,
        take-append name tail,
        drop-append name tail,
        valid,
        read_field-be 4 (length payload) (payload ++ rest) (omega arith),
        inside,
        take-append payload rest,
        drop-append payload rest,
      )

  read_more :
      (fuel : ℕ) (r name payload rest : List ℕ) (ss : List Section)
      → 0 < length r
      → read_section valid_utf8 r ≡ some (name, payload, rest)
      → read_sections valid_utf8 (suc fuel) r ss
        ≡ read_sections valid_utf8 fuel rest (put_section name payload ss)
  unfolding read_sections
  read_more fuel [] name payload rest ss h k = ground arith
  read_more fuel (x ∷ xs) name payload rest ss h k = rw k

  read_sections-bytes :
      (fuel : ℕ) (ss before : List Section) (bytes : List ℕ)
      → section_bytes ss ≡ some bytes
      → length ss ≤ fuel
      → NewNames before ss
      → All (λ (s : Section). valid_utf8 (s.0) ≡ true) ss
      → read_sections valid_utf8 fuel bytes before ≡ some (before ++ ss)
  read_sections-bytes fuel [] before bytes h k new valid =
      let nothing : [] ≡ bytes = unfold section_bytes in cc in
      subst (λ bs. read_sections valid_utf8 fuel bs before ≡ some (before ++ [])) nothing
        (unfold read_sections in ap (λ xs. some xs) (sym (append-nil before)))
  read_sections-bytes zero (s ∷ ss) before bytes h k new valid = ground arith
  read_sections-bytes (suc fuel) (s ∷ ss) before bytes h k new valid =
      let (rest, tail, fit, is) = section_bytes_cons s ss bytes h in
      let filled : 0 < length (one_section (s.0) (s.1) rest) =
        (let size = length-one_section (s.0) (s.1) rest in omega arith) in
      subst (λ bs. read_sections valid_utf8 (suc fuel) bs before ≡ some (before ++ s ∷ ss)) is
        (read_more fuel (one_section (s.0) (s.1) rest) (s.0) (s.1) rest before filled
            (read_section-bytes (s.0) (s.1) rest fit valid.0)
          ∙ ap (read_sections valid_utf8 fuel rest) (put_section-new (s.0) (s.1) before new.0)
          ∙ read_sections-bytes fuel ss (before ++ s ∷ []) rest tail (omega arith) new.1 valid.1
          ∙ ap (λ xs. some xs) (append_assoc before (s ∷ []) ss))

  -- A file of sections with names of their own is read back, section by section.
  reader-file_bytes :
      (ss : List Section) (bytes : List ℕ)
      → file_bytes ss ≡ some bytes
      → NewNames [] ss
      → All (λ (s : Section). valid_utf8 (s.0) ≡ true) ss
      → reader valid_utf8 bytes ≡ some ss
  unfolding file_bytes reader
  reader-file_bytes ss bytes h new valid =
      let (rest, tail, made) = >>=-some (section_bytes ss) _ bytes h in
      let is : be 4 magic ++ (be 4 format_version ++ rest) ≡ bytes = cc in
      let size : length (be 4 magic ++ (be 4 format_version ++ rest)) ≡ 8 + length rest = omega (
        arith,
        length-append (be 4 magic) (be 4 format_version ++ rest),
        length-append (be 4 format_version) rest,
        length-be 4 magic,
        length-be 4 format_version,
      ) in
      let enough : leb 8 (length (be 4 magic ++ (be 4 format_version ++ rest))) ≡ true =
        ground arith in
      let count = section_bytes-length ss rest tail in
      subst (λ bs. reader valid_utf8 bs ≡ some ss) is
        (rw
          (
            enough,
            read_signed-be 4 (pos magic) (be 4 format_version ++ rest) refl,
            read_signed-be 4 (pos format_version) rest refl,
          )
          (read_sections-bytes (length (be 4 magic ++ (be 4 format_version ++ rest))) ss [] rest
            tail (omega arith) new valid))

-- A writer has names of its own: each call keeps it so.
abbrev pub IsNamed : CheckpointWriter → Type 0
IsNamed w = NewNames [] w.sections

-- The ways a call of `section` goes: it fails, or it adds a section with a new name.
add_section_cases :
    (w : CheckpointWriter) (name : List ℕ) (body : List ℕ → Option (List ℕ))
    → (add_section w name body ≡ (record w { failed = true }, false))
      ⊎ ((payload : List ℕ) × (find_section name w.sections ≡ none)
          × (add_section w name body
              ≡ (record w { sections = w.sections ++ (name, payload) ∷ [] }, true)))
unfolding add_section
add_section_cases w name body = elim (Option-cases (find_section name w.sections)) [
  | inr (payload, e) ↦ inl (rw (e, add_section))
  | inl e ↦ elim (Option-cases (body [])) [
    | inl k ↦ inl (rw (e, k, add_section))
    | inr (payload, k) ↦ inr (payload, e, rw (e, k, add_section))
  ]
]

pub add_section-IsNamed :
    (w : CheckpointWriter) (name : List ℕ) (body : List ℕ → Option (List ℕ))
    → IsNamed w
    → IsNamed (add_section w name body).0
add_section-IsNamed w name body h = elim (add_section_cases w name body) [
  | inl is ↦ subst (λ (r : CheckpointWriter × Bool). IsNamed (r.0)) (sym is) h
  | inr (payload, new, is) ↦
      subst (λ (r : CheckpointWriter × Bool). IsNamed (r.0)) (sym is)
        (NewNames-append [] w.sections (name, payload) h new)
]

-- What a writer commits, a reader finds: the same sections in the same order.
pub reader-close :
    (valid_utf8 : List ℕ → Bool) (w : CheckpointWriter) (old : Option (List ℕ)) (bytes : List ℕ)
    → IsNamed w
    → All (λ (s : Section). valid_utf8 (s.0) ≡ true) w.sections
    → w.failed ≡ false
    → file_bytes w.sections ≡ some bytes
    → (close w old ≡ some bytes) × (reader valid_utf8 bytes ≡ some w.sections)
unfolding close
reader-close valid_utf8 w old bytes h valid fine made =
    (rw (fine, made), reader-file_bytes valid_utf8 w.sections bytes made h valid)

-- A writer that failed once keeps failing, and leaves the file as it was.
close_failed :
    (w : CheckpointWriter) (name : List ℕ) (body : List ℕ → Option (List ℕ)) (old : Option (List ℕ))
    → (w.failed ≡ true) ⊎ ((add_section w name body).1 ≡ false)
    → close (add_section w name body).0 old ≡ old
unfolding close
close_failed w name body old h = elim (add_section_cases w name body) [
  | inl is ↦ ap (λ (r : CheckpointWriter × Bool). close (r.0) old) is
  | inr (payload, new, is) ↦ elim h [
    | inl failed ↦ ap (λ (r : CheckpointWriter × Bool). close (r.0) old) is ∙ rw failed
    | inr bad ↦
        (let no_way : true ≡ false = ap (λ (r : CheckpointWriter × Bool). r.1) (sym is) ∙ bad in cc)
  ]
]

length-zero {ℓ} : {A : Type ℓ} (xs : List A) → (length xs == 0) ≡ true → xs ≡ []
length-zero [] h = refl
length-zero (x ∷ xs) h = ground arith

-- A section that is restored was consumed whole: a model that leaves bytes unread is an error.
pub restore_whole {ℓ} :
    {M : Type ℓ} (ss : List Section) (name payload : List ℕ) (body : List ℕ → Option (M × List ℕ))
    (m : M)
    → find_section name ss ≡ some payload
    → restore ss name body ≡ some (some m)
    → body payload ≡ some (m, [])
unfolding restore
restore_whole {M = M} ss name payload body m h k =
    let run : (body payload >>= λ (r : M × List ℕ). require (length (r.1) == 0) (some (some (r.0))))
        ≡ some (some m) =
      rw (h, restore) at k in
    let (r, ran, rest) = >>=-some (body payload) _ (some m) run in
    let (empty, is) = require-some (length (r.1) == 0) _ (some m) rest in
    let nothing : r.1 ≡ [] = length-zero (r.1) empty in
    let same : r.0 ≡ m = cc in
    ran ∙ ap (λ (x : M). some (x, r.1)) same ∙ ap (λ (ys : List ℕ). some (m, ys)) nothing
