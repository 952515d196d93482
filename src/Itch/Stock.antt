-- ===== src/Itch/Stock.antt =====
-- src/quantfinlib/marketdata/itch_codec.py: `pack_stock` and `unpack_stock`. A symbol is the list
-- of its characters' codes; a shift by a byte with the byte put in is a product and a sum.
use native.Mathlib.Nat.{
  pow-suc, div-div-eq-div-mul, div-eq_of_lt, mul-le-mul_right, mul_comm, mul_assoc,
}
use quant_finance_py.Prelude.{
  ℕ, zero, suc, ◌+◌, ◌*◌, ◌/◌, ◌%◌, ◌^◌, ◌<◌, ◌≤◌, ◌≡◌, refl, ap, sym, subst, ◌∙◌, some, List, [],
  ◌∷◌, ◌++◌, ◌==◌, All, map, take, length, if◌then◌else◌, arith, Bool-cases, inl, inr,
}
use quant_finance_py.Prelude.Int.{ℤ}
use quant_finance_py.Prelude.Maybe.{◌>>=◌}
use quant_finance_py.Prelude.Bytes.{be_value}
use quant_finance_py.Itch.Encode.{add_bytes}
use quant_finance_py.Itch.View.{stock}
use quant_finance_py.Itch.RoundTrip.{add-header, add-stock}

-- The loop over the places that are left.
unfoldable pub pack_from : ℕ → List ℕ → ℕ → ℕ
pack_from zero s v = v
pack_from (suc k) [] v = pack_from k [] (v * 256 + 32)
pack_from (suc k) (c ∷ s) v = pack_from k s (v * 256 + c % 256)

unfoldable pub pack_stock : List ℕ → ℕ
unfolding pack_from
pack_stock s = pack_from 8 s 0

unfoldable pub chars_of : ℕ → ℕ → List ℕ
chars_of zero packed = []
chars_of (suc i) packed = packed / 256 ^ i % 256 ∷ chars_of i packed

-- `rstrip(" ")`.
unfoldable pub strip_spaces : List ℕ → List ℕ
strip_spaces [] = []
strip_spaces (c ∷ s) = elim (strip_spaces s) [
  | [] ↦ if c == 32 then [] else c ∷ []
  | c' ∷ s' ↦ c ∷ c' ∷ s'
]

unfoldable pub unpack_stock : ℕ → List ℕ
unfolding chars_of strip_spaces
unpack_stock packed = strip_spaces (chars_of 8 packed)

-- The bytes that a symbol is packed into.
abbrev filled : ℕ → List ℕ → List ℕ
filled zero s = []
filled (suc k) [] = 32 ∷ filled k []
filled (suc k) (c ∷ s) = c % 256 ∷ filled k s

pack_from-filled : (k : ℕ) (s : List ℕ) (v : ℕ) → pack_from k s v ≡ be_value v (filled k s)
unfolding pack_from be_value
pack_from-filled zero s v = refl
pack_from-filled (suc k) [] v = pack_from-filled k [] _
pack_from-filled (suc k) (c ∷ s) v = pack_from-filled k s _

length-filled : (k : ℕ) (s : List ℕ) → length (filled k s) ≡ k
length-filled zero s = refl
length-filled (suc k) [] = ap suc (length-filled k [])
length-filled (suc k) (c ∷ s) = ap suc (length-filled k s)

filled-AreBytes : (k : ℕ) (s : List ℕ) → All (λ x. x < 256) (filled k s)
filled-AreBytes zero s = tt
filled-AreBytes (suc k) [] = (omega arith, filled-AreBytes k [])
filled-AreBytes (suc k) (c ∷ s) = (omega arith, filled-AreBytes k s)

strip_blank : (k : ℕ) → strip_spaces (filled k []) ≡ []
unfolding strip_spaces
strip_blank zero = refl
strip_blank (suc k) = rw (strip_blank k)

strip_spaces-filled :
    (k : ℕ) (s : List ℕ) → strip_spaces (filled k s) ≡ strip_spaces (map (λ c. c % 256) (take k s))
unfolding strip_spaces
strip_spaces-filled zero s = refl
strip_spaces-filled (suc k) [] = strip_blank (suc k)
strip_spaces-filled (suc k) (c ∷ s) = rw (strip_spaces-filled k s)

be_value-div : (xs : List ℕ) (v : ℕ) → All (λ x. x < 256) xs → be_value v xs / 256 ^ length xs ≡ v
unfolding be_value
be_value-div [] v h = omega arith
be_value-div (x ∷ xs) v (hx, hs) = omega (
  arith,
  ap (λ n. be_value (v * 256 + x) xs / n) (pow-suc 256 (length xs)),
  div-div-eq-div-mul (be_value (v * 256 + x) xs) (256 ^ length xs) 256,
  be_value-div xs (v * 256 + x) hs,
)

chars_of-be_value :
    (xs : List ℕ) (v : ℕ) → All (λ x. x < 256) xs → chars_of (length xs) (be_value v xs) ≡ xs
unfolding chars_of be_value
chars_of-be_value [] v h = refl
chars_of-be_value (x ∷ xs) v (hx, hs) =
    rw (be_value-div xs (v * 256 + x) hs)
      (rw (chars_of-be_value xs (v * 256 + x) hs) (ap (λ y. y ∷ xs) (omega arith)))

-- One more character in front of the characters that are kept.
abbrev trimmed : ℕ → List ℕ → List ℕ
trimmed c [] = if c == 32 then [] else c ∷ []
trimmed c (c' ∷ s) = c ∷ c' ∷ s

pack_from-trimmed :
    (xs : List ℕ) (x v : ℕ) (kept : List ℕ)
    → x < 256
    → pack_from (length xs) kept (v * 256 + x) ≡ be_value (v * 256 + x) xs
    → pack_from (suc (length xs)) (trimmed x kept) v ≡ be_value (v * 256 + x) xs
unfolding pack_from
pack_from-trimmed xs x v (c ∷ s) h ih =
    ap (λ y. pack_from (length xs) (c ∷ s) (v * 256 + y)) (omega arith) ∙ ih
pack_from-trimmed xs x v [] h ih = elim (Bool-cases (x == 32)) [
  | inl c ↦ rw c (ap (λ y. pack_from (length xs) [] (v * 256 + y)) (ground arith) ∙ ih)
  | inr c ↦ rw c (ap (λ y. pack_from (length xs) [] (v * 256 + y)) (omega arith) ∙ ih)
]

pack_from-strip_spaces :
    (xs : List ℕ) (v : ℕ)
    → All (λ x. x < 256) xs
    → pack_from (length xs) (strip_spaces xs) v ≡ be_value v xs
unfolding pack_from strip_spaces be_value
pack_from-strip_spaces [] v h = refl
pack_from-strip_spaces (x ∷ xs) v (hx, hs) =
    pack_from-trimmed xs x v (strip_spaces xs) hx (pack_from-strip_spaces xs (v * 256 + x) hs)

be_value-chars_of : (k p : ℕ) → be_value (p / 256 ^ k) (chars_of k p) ≡ p
unfolding be_value chars_of
be_value-chars_of zero p = omega arith
be_value-chars_of (suc k) p =
    ap (λ v. be_value v (chars_of k p))
      (omega (arith, ap (λ n. p / n) (pow-suc 256 k), div-div-eq-div-mul p (256 ^ k) 256))
    ∙ be_value-chars_of k p

length-chars_of : (k p : ℕ) → length (chars_of k p) ≡ k
unfolding chars_of
length-chars_of zero p = refl
length-chars_of (suc k) p = ap suc (length-chars_of k p)

chars_of-AreBytes : (k p : ℕ) → All (λ x. x < 256) (chars_of k p)
unfolding chars_of
chars_of-AreBytes zero p = tt
chars_of-AreBytes (suc k) p = (omega arith, chars_of-AreBytes k p)

be_value-lt :
    (xs : List ℕ) (v : ℕ) → All (λ x. x < 256) xs → be_value v xs < suc v * 256 ^ length xs
unfolding be_value
be_value-lt [] v h = omega arith
be_value-lt (x ∷ xs) v (hx, hs) =
    let most = be_value-lt xs (v * 256 + x) hs in
    let le : suc (v * 256 + x) ≤ suc v * 256 = omega arith in
    let room = mul-le-mul_right (256 ^ length xs) le in
    let shape : suc v * 256 ^ suc (length xs) ≡ suc v * 256 * 256 ^ length xs =
      ap (λ n. suc v * n) (pow-suc 256 (length xs) ∙ mul_comm (256 ^ length xs) 256)
      ∙ sym (mul_assoc (suc v) 256 (256 ^ length xs)) in
    subst (λ n. be_value (v * 256 + x) xs < n) (sym shape) (omega arith)

pack_from-lt : (k : ℕ) (s : List ℕ) → pack_from k s 0 < 256 ^ k
pack_from-lt k s =
    let fits = be_value-lt (filled k s) 0 (filled-AreBytes k s) in
    let size = ap (λ n. 256 ^ n) (length-filled k s) in
    let is = pack_from-filled k s 0 in omega arith

unpack-pack :
    (k : ℕ) (s : List ℕ)
    → strip_spaces (chars_of k (pack_from k s 0)) ≡ strip_spaces (map (λ c. c % 256) (take k s))
unpack-pack k s =
    ap (λ v. strip_spaces (chars_of k v)) (pack_from-filled k s 0)
    ∙ ap (λ n. strip_spaces (chars_of n (be_value 0 (filled k s)))) (sym (length-filled k s))
    ∙ ap strip_spaces (chars_of-be_value (filled k s) 0 (filled-AreBytes k s))
    ∙ strip_spaces-filled k s

pack-unpack :
    (k packed : ℕ) → packed < 256 ^ k → pack_from k (strip_spaces (chars_of k packed)) 0 ≡ packed
pack-unpack k packed h =
    ap (λ n. pack_from n (strip_spaces (chars_of k packed)) 0) (sym (length-chars_of k packed))
    ∙ pack_from-strip_spaces (chars_of k packed) 0 (chars_of-AreBytes k packed)
    ∙ ap (λ v. be_value v (chars_of k packed)) (sym (div-eq_of_lt h))
    ∙ be_value-chars_of k packed

pub pack_stock-lt : (s : List ℕ) → pack_stock s < 256 ^ 8
unfolding pack_stock
pack_stock-lt s = pack_from-lt 8 s

-- A symbol comes back as the low bytes of its first eight characters, without the spaces at the
-- end, whatever its characters are and however long it is.
pub unpack_stock-pack_stock :
    (s : List ℕ) → unpack_stock (pack_stock s) ≡ strip_spaces (map (λ c. c % 256) (take 8 s))
unfolding unpack_stock pack_stock
unpack_stock-pack_stock s = unpack-pack 8 s

-- A packed field of eight bytes is packed again to itself, whatever its bytes are.
pub pack_stock-unpack_stock :
    (packed : ℕ) → packed < 256 ^ 8 → pack_stock (unpack_stock packed) ≡ packed
unfolding unpack_stock pack_stock
pack_stock-unpack_stock packed h = pack-unpack 8 packed h

-- Unpacking the stock of an encoded add of a packed symbol gives the low bytes of the first eight
-- characters of the symbol, without the spaces at their end, whatever its characters are and
-- however long it is, and whatever the bytes behind the message are.
pub stock-add_bytes :
    (locate ts ref side n : ℕ) (s : List ℕ) (price : ℤ) (rest : List ℕ)
    → (stock (add_bytes locate ts ref side n (pack_stock s) price ++ rest) >>= λ packed.
        some (unpack_stock packed))
      ≡ some (strip_spaces (map (λ c. c % 256) (take 8 s)))
unfolding stock
stock-add_bytes locate ts ref side n s price rest =
    rw ((add-header locate ts ref side n (pack_stock s) price rest).0) (
      rw (add-stock locate ts ref side n (pack_stock s) price rest (pack_stock-lt s))
        (ap some (unpack_stock-pack_stock s)))
