-- ===== src/Checkpoint/Tests.antt =====
-- src/quantfinlib/persist/checkpoint.py: a writer with two sections, and one that failed.
use quant_finance_py.Prelude.{ℕ, ◌≡◌, refl, true, false, none, some, List, [], ◌∷◌}
use quant_finance_py.Checkpoint.{
  CheckpointWriter, add_section, close, reader, file_bytes, find_section,
}
use quant_finance_py.Checkpoint.Sections.{IsNamed, reader-close}

abbrev two_sections : CheckpointWriter
two_sections = record {
  sections = ((118 ∷ []), 7 ∷ 8 ∷ []) ∷ ((119 ∷ []), []) ∷ [];
  failed = false;
}

abbrev two_sections_file : List ℕ
two_sections_file =
    0x51 ∷ 0x46 ∷ 0x4c ∷ 0x43 ∷ 0 ∷ 0 ∷ 0 ∷ 1 ∷ 0 ∷ 1 ∷ 118 ∷ 0 ∷ 0 ∷ 0 ∷ 2 ∷ 7 ∷ 8 ∷ 0 ∷ 1 ∷ 119
    ∷ 0 ∷ 0 ∷ 0 ∷ 0 ∷ []

two_sections-IsNamed : IsNamed two_sections
unfolding find_section
two_sections-IsNamed = (refl, (refl, tt))

two_sections_bytes : file_bytes two_sections.sections ≡ some two_sections_file
unfolding file_bytes
two_sections_bytes = refl

reader-close_example :
    (close two_sections none ≡ some two_sections_file)
    × (reader (λ name. true) two_sections_file ≡ some two_sections.sections)
reader-close_example =
    reader-close (λ name. true) two_sections none two_sections_file two_sections-IsNamed
      (refl, (refl, tt)) refl two_sections_bytes

duplicate_fails : (add_section two_sections (118 ∷ []) (λ buf. some buf)).1 ≡ false
unfolding add_section
duplicate_fails = refl
