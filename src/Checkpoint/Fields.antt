-- ===== src/Checkpoint/Fields.antt =====
-- src/quantfinlib/persist/checkpoint.py: what a reader reads of a written field or array.
use quant_finance_py.Prelude.{
  take-append, drop-append, ℕ, zero, suc, ◌+◌, ◌-◌, ◌/◌, ◌%◌, ◌^◌, ◌<◌, ◌≡◌, refl, ap, sym, subst,
  ◌∙◌, true, false, Option, some, List, [], ◌∷◌, ◌++◌, ltb, leb, length, take, drop, arith,
  length-append, ltb→lt,
}
use mathlib.Core.List.{append-nil, append_assoc}
use quant_finance_py.Prelude.Int.{ℤ, pos, negsuc, ◌==ℤ◌}
use quant_finance_py.Prelude.Maybe.{>>=-some, require-some}
use quant_finance_py.Prelude.Bytes.{be, read, fits, be_value-be}
use quant_finance_py.Checkpoint.{
  fits_signed, to_unsigned, of_unsigned, write_signed, write_double, read_field, read_signed,
  read_double, write_each, read_each, write_array, read_array,
}

pub length-be : (w v : ℕ) → length (be w v) ≡ w
unfolding be
length-be zero v = refl
length-be (suc w) v =
    omega (arith, length-append (be w (v / 256)) (v % 256 ∷ []), length-be w (v / 256))

-- A written unsigned field is read back, and the bytes behind it remain.
pub read_field-be : (w v : ℕ) (r : List ℕ) → v < 256 ^ w → read_field w (be w v ++ r) ≡ some (v, r)
unfolding read_field read
read_field-be w v r h =
    let fit : leb (0 + w) (length (be w v ++ r)) ≡ true =
      (let sum = length-append (be w v) r in let width = length-be w v in ground arith) in
    let front : take w (be w v ++ r) ≡ be w v =
      subst (λ n. take n (be w v ++ r) ≡ be w v) (length-be w v) (take-append (be w v) r) in
    let back : drop w (be w v ++ r) ≡ r =
      subst (λ n. drop n (be w v ++ r) ≡ r) (length-be w v) (drop-append (be w v) r) in
    rw (fit, front, back, be_value-be w v h)

to_unsigned-lt : (w : ℕ) (v : ℤ) → fits_signed w v ≡ true → to_unsigned w v < 256 ^ w
to_unsigned-lt w (pos n) h = let lt = ltb→lt n (256 ^ w / 2) h in omega arith
to_unsigned-lt w (negsuc n) h = let lt = ltb→lt n (256 ^ w / 2) h in omega arith

of_unsigned-to_unsigned :
    (w : ℕ) (v : ℤ) → fits_signed w v ≡ true → of_unsigned w (to_unsigned w v) ≡ v
of_unsigned-to_unsigned w (pos n) h = rw h
of_unsigned-to_unsigned w (negsuc n) h =
    let lt = ltb→lt n (256 ^ w / 2) h in
    let high : ltb (256 ^ w - 1 - n) (256 ^ w / 2) ≡ false = ground arith in
    let back : 256 ^ w - 1 - (256 ^ w - 1 - n) ≡ n = omega arith in rw (high, back)

pub read_signed-be :
    (w : ℕ) (v : ℤ) (r : List ℕ)
    → fits_signed w v ≡ true
    → read_signed w (be w (to_unsigned w v) ++ r) ≡ some (v, r)
unfolding read_signed
read_signed-be w v r h =
    rw (read_field-be w (to_unsigned w v) r (to_unsigned-lt w v h), of_unsigned-to_unsigned w v h)

-- Whatever the writer appends for a value, the reader reads as that value.
abbrev pub Matches {ℓ} :
    {A : Type ℓ} → (List ℕ → A → Option (List ℕ)) → (List ℕ → Option (A × List ℕ)) → Type ℓ
Matches {A = A} write next =
    (x : A) (buf buf' : List ℕ)
    → write buf x ≡ some buf'
    → (bytes : List ℕ) × (buf' ≡ buf ++ bytes) × ((r : List ℕ) → next (bytes ++ r) ≡ some (x, r))

pub Matches-signed : (w : ℕ) → Matches (write_signed w) (read_signed w)
unfolding write_signed
Matches-signed w x buf buf' h =
    let (fit, same) = require-some (fits_signed w x) _ buf' h in
    (be w (to_unsigned w x), cc, λ r. read_signed-be w x r fit)

pub Matches-double : Matches write_double read_double
unfolding write_double
Matches-double x buf buf' h =
    let (fit, same) = require-some (fits 8 x) _ buf' h in
    (be 8 x, cc, λ r. read_field-be 8 x r (ltb→lt x (256 ^ 8) fit))

module _ {ℓ} {A : Type ℓ} (write : List ℕ → A → Option (List ℕ))
    (next : List ℕ → Option (A × List ℕ)) (m : Matches write next) where
  each :
      (xs : List A) (buf buf' : List ℕ)
      → write_each write buf xs ≡ some buf'
      → (bytes : List ℕ) × (buf' ≡ buf ++ bytes)
        × ((r : List ℕ) → read_each next (length xs) (bytes ++ r) ≡ some (xs, r))
  unfolding write_each read_each
  each [] buf buf' h =
      ([], (let same : buf ≡ buf' = cc in sym same ∙ sym (append-nil buf)), λ r. refl)
  each (x ∷ xs) buf buf' h =
      let (mid, first, rest) = >>=-some (write buf x) (λ b. write_each write b xs) buf' h in
      let (bs, is, reads) = m x buf mid first in
      let (cs, is', reads') = each xs mid buf' rest in
      (
        bs ++ cs,
        is' ∙ ap (λ y. y ++ cs) is ∙ append_assoc buf bs cs,
        λ r. rw (append_assoc bs cs r, reads (cs ++ r), reads' r),
      )

  -- An array that was written behind other bytes is read back entry by entry.
  pub array :
      (xs : List A) (buf buf' : List ℕ)
      → write_array write buf xs ≡ some buf'
      → (bytes : List ℕ) × (buf' ≡ buf ++ bytes)
        × ((r : List ℕ) → read_array next (length xs) (bytes ++ r) ≡ some (xs, r))
  unfolding write_array read_array
  array xs buf buf' h =
      let (mid, first, rest) =
        >>=-some (write_signed 4 buf (pos (length xs))) (λ b. write_each write b xs) buf' h in
      let (bs, is, reads) = Matches-signed 4 (pos (length xs)) buf mid first in
      let (cs, is', reads') = each xs mid buf' rest in
      let same : (pos (length xs) ==ℤ pos (length xs)) ≡ true = ground arith in
      (
        bs ++ cs,
        is' ∙ ap (λ y. y ++ cs) is ∙ append_assoc buf bs cs,
        λ r. rw (append_assoc bs cs r, reads (cs ++ r), same, reads' r),
      )
