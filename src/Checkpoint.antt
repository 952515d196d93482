-- ===== src/Checkpoint.antt =====
-- src/quantfinlib/persist/checkpoint.py: binary files of named sections. A name is its UTF-8 bytes,
-- of which `valid_utf8`, a parameter, is the decoder's test. A model's writer turns the bytes
-- written so far into more, its reader turns the bytes that remain into a state and fewer; `none`
-- is a raised exception. A double is its 64 bits. A file is its content.
pub mod Fields
pub mod Sections
mod Tests
use quant_finance_py.Prelude.{
  ℕ, zero, suc, ◌+◌, ◌-◌, ◌*◌, ◌/◌, ◌^◌, Bool, true, false, not, ◌&&◌, ◌||◌, Option, none, some,
  List, [], ◌∷◌, ◌++◌, ◌==◌, ltb, leb, length, take, drop, if◌then◌else◌,
}
use quant_finance_py.Prelude.Int.{ℤ, pos, negsuc, ◌==ℤ◌, leb_ℤ}
use quant_finance_py.Prelude.Maybe.{◌>>=◌, require}
use quant_finance_py.Prelude.Bytes.{be, read, fits}

-- What `struct.pack` accepts in `w` signed bytes, and the field that it makes.
abbrev pub fits_signed : ℕ → ℤ → Bool
fits_signed w (pos n) = ltb n (256 ^ w / 2)
fits_signed w (negsuc n) = ltb n (256 ^ w / 2)

abbrev pub to_unsigned : ℕ → ℤ → ℕ
to_unsigned w (pos n) = n
to_unsigned w (negsuc n) = 256 ^ w - 1 - n

abbrev pub of_unsigned : ℕ → ℕ → ℤ
of_unsigned w raw = if ltb raw (256 ^ w / 2) then pos raw else negsuc (256 ^ w - 1 - raw)

-- `BinWriter`: the bytes after a write.
unfoldable pub write_signed : ℕ → List ℕ → ℤ → Option (List ℕ)
unfolding be
write_signed w buf v = require (fits_signed w v) (some (buf ++ be w (to_unsigned w v)))

abbrev pub write_byte : List ℕ → ℤ → Option (List ℕ)
write_byte = write_signed 1

abbrev pub write_int : List ℕ → ℤ → Option (List ℕ)
write_int = write_signed 4

abbrev pub write_long : List ℕ → ℤ → Option (List ℕ)
write_long = write_signed 8

unfoldable pub write_double : List ℕ → ℕ → Option (List ℕ)
unfolding be
write_double buf bits = require (fits 8 bits) (some (buf ++ be 8 bits))

-- `BinReader`: a field at the cursor, and the bytes that remain.
unfoldable pub read_field : ℕ → List ℕ → Option (ℕ × List ℕ)
unfolding read
read_field w r = do v ← read w 0 r; some (v, drop w r)

unfoldable pub read_signed : ℕ → List ℕ → Option (ℤ × List ℕ)
unfolding read_field
read_signed w r = do p ← read_field w r; some (of_unsigned w (p.0), p.1)

abbrev pub read_byte : List ℕ → Option (ℤ × List ℕ)
read_byte = read_signed 1

abbrev pub read_int : List ℕ → Option (ℤ × List ℕ)
read_int = read_signed 4

abbrev pub read_long : List ℕ → Option (ℤ × List ℕ)
read_long = read_signed 8

abbrev pub read_double : List ℕ → Option (ℕ × List ℕ)
read_double = read_field 8

-- `require_version`: the leading byte of a state.
unfoldable pub require_version : List ℕ → ℤ → Option (List ℕ)
unfolding read_signed
require_version r expected = do p ← read_byte r; require (p.0 ==ℤ expected) (some (p.1))

-- The array helpers: the loops over the entries, and the arrays with their lengths.
unfoldable pub write_each {ℓ} :
    {A : Type ℓ} → (List ℕ → A → Option (List ℕ)) → List ℕ → List A → Option (List ℕ)
write_each write buf [] = some buf
write_each write buf (x ∷ xs) = do buf' ← write buf x; write_each write buf' xs

unfoldable pub read_each {ℓ} :
    {A : Type ℓ} → (List ℕ → Option (A × List ℕ)) → ℕ → List ℕ → Option (List A × List ℕ)
read_each next zero r = some ([], r)
read_each next (suc n) r = do p ← next r; q ← read_each next n (p.1); some (p.0 ∷ q.0, q.1)

unfoldable pub write_array {ℓ} :
    {A : Type ℓ} → (List ℕ → A → Option (List ℕ)) → List ℕ → List A → Option (List ℕ)
unfolding write_signed write_each
write_array write buf xs = do buf' ← write_int buf (pos (length xs)); write_each write buf' xs

-- Into an array of `n` entries: the new entries.
unfoldable pub read_array {ℓ} :
    {A : Type ℓ} → (List ℕ → Option (A × List ℕ)) → ℕ → List ℕ → Option (List A × List ℕ)
unfolding read_signed read_each
read_array next n r = do p ← read_int r; require (p.0 ==ℤ pos n) (read_each next n (p.1))

abbrev pub write_doubles : List ℕ → List ℕ → Option (List ℕ)
write_doubles = write_array write_double

abbrev pub write_longs : List ℕ → List ℤ → Option (List ℕ)
write_longs = write_array write_long

abbrev pub read_doubles_into : ℕ → List ℕ → Option (List ℕ × List ℕ)
read_doubles_into = read_array read_double

abbrev pub read_longs_into : ℕ → List ℕ → Option (List ℤ × List ℕ)
read_longs_into = read_array read_long

abbrev pub Section : Type 0
Section = List ℕ × List ℕ

abbrev pub same_name : List ℕ → List ℕ → Bool
same_name [] [] = true
same_name [] (y ∷ ys) = false
same_name (x ∷ xs) [] = false
same_name (x ∷ xs) (y ∷ ys) = (x == y) && same_name xs ys

unfoldable pub find_section : List ℕ → List Section → Option (List ℕ)
find_section name [] = none
find_section name (s ∷ ss) = if same_name (s.0) name then some (s.1) else find_section name ss

unfoldable pub put_section : List ℕ → List ℕ → List Section → List Section
put_section name payload [] = (name, payload) ∷ []
put_section name payload (s ∷ ss) =
    if same_name (s.0) name then (s.0, payload) ∷ ss else s ∷ put_section name payload ss

pub record CheckpointWriter : Type 0 where
  pub sections : List Section
  pub failed : Bool

abbrev pub writer : CheckpointWriter
writer = record { sections = []; failed = false }

-- `section` of the writer: the writer after the call, and whether it returned.
unfoldable pub add_section :
    CheckpointWriter → List ℕ → (List ℕ → Option (List ℕ)) → CheckpointWriter × Bool
unfolding find_section
add_section w name body = elim (find_section name w.sections) [
  | some payload ↦ (record w { failed = true }, false)
  | none ↦ elim (body []) [
    | none ↦ (record w { failed = true }, false)
    | some payload ↦ (record w { sections = w.sections ++ (name, payload) ∷ [] }, true)
  ]
]

abbrev pub magic : ℕ
magic = 0x51464c43

abbrev pub format_version : ℕ
format_version = 1

-- The bytes of the sections in the temporary file.
unfoldable pub section_bytes : List Section → Option (List ℕ)
unfolding be
section_bytes [] = some []
section_bytes (s ∷ ss) = do
  rest ← section_bytes ss
  require (fits 2 (length (s.0)) && fits_signed 4 (pos (length (s.1))))
      (some (be 2 (length (s.0)) ++ (s.0 ++ (be 4 (length (s.1)) ++ (s.1 ++ rest)))))

unfoldable pub file_bytes : List Section → Option (List ℕ)
unfolding be section_bytes
file_bytes ss = do rest ← section_bytes ss; some (be 4 magic ++ (be 4 format_version ++ rest))

-- `close`: the target's content after the call, from that before it.
unfoldable pub close : CheckpointWriter → Option (List ℕ) → Option (List ℕ)
unfolding file_bytes
close w old =
    if w.failed then old else elim (file_bytes w.sections) [ none ↦ old | some new ↦ some new ]

-- A later format is refused.
abbrev pub not_newer : ℤ → Bool
not_newer v = leb_ℤ v (pos format_version)

module _ (valid_utf8 : List ℕ → Bool) where
  -- One round of the reader's loop: a name, its payload and what remains.
  unfoldable pub read_section : List ℕ → Option (List ℕ × List ℕ × List ℕ)
  unfolding read_field
  read_section r = do
    n ← read_field 2 r
    p ← require (valid_utf8 (take (n.0) (n.1))) (read_field 4 (drop (n.0) (n.1)))
    require (ltb (p.0) (256 ^ 4 / 2) && leb (p.0) (length (p.1)))
        (some (take (n.0) (n.1), take (p.0) (p.1), drop (p.0) (p.1)))

  -- The loop over what remains, at most `fuel` sections.
  unfoldable pub read_sections : ℕ → List ℕ → List Section → Option (List Section)
  unfolding read_section put_section
  read_sections fuel [] ss = some ss
  read_sections zero (x ∷ xs) ss = none
  read_sections (suc fuel) (x ∷ xs) ss = do
    s ← read_section (x ∷ xs)
    read_sections fuel (s.2) (put_section (s.0) (s.1) ss)

  -- The constructor of the reader, on the file's content.
  unfoldable pub reader : List ℕ → Option (List Section)
  unfolding read_signed read_sections
  reader content = do
    m ← require (leb 8 (length content)) (read_int content)
    v ← require (m.0 ==ℤ pos magic) (read_int (m.1))
    require (not_newer (v.0)) (read_sections (length content) (v.1) [])

-- `section` of the reader: `some none` is the answer False.
unfoldable pub restore {ℓ} :
    {M : Type ℓ} → List Section → List ℕ → (List ℕ → Option (M × List ℕ)) → Option (Option M)
unfolding find_section
restore ss name body = elim (find_section name ss) [
  | none ↦ some none
  | some payload ↦ (do r ← body payload; require (length (r.1) == 0) (some (some (r.0))))
]
