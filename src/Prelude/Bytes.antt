-- ===== src/Prelude/Bytes.antt =====
-- Byte strings as lists of numbers, and big-endian fields of `struct`.
use quant_finance_py.Prelude.{
  ℕ, zero, suc, ◌+◌, ◌*◌, ◌/◌, ◌%◌, ◌^◌, ◌<◌, ◌≡◌, Bool, Option, none, some, List, [], ◌∷◌, ◌++◌,
  arith, ltb, leb, if◌then◌else◌, length, take, drop,
}
use native.Mathlib.Nat.{pow-suc}

-- The `w` bytes of a number, the most significant first.
unfoldable pub be : ℕ → ℕ → List ℕ
be zero v = []
be (suc w) v = be w (v / 256) ++ v % 256 ∷ []

unfoldable pub be_value : ℕ → List ℕ → ℕ
be_value acc [] = acc
be_value acc (x ∷ xs) = be_value (acc * 256 + x) xs

-- `struct.unpack_from` of `w` bytes at index `i`; it raises past the end.
unfoldable pub read : ℕ → ℕ → List ℕ → Option ℕ
unfolding be_value
read w i m = if leb (i + w) (length m) then some (be_value 0 (take w (drop i m))) else none

-- What `struct.pack` accepts in `w` unsigned bytes.
abbrev pub fits : ℕ → ℕ → Bool
fits w v = ltb v (256 ^ w)

be_value-append :
    (acc x : ℕ) (xs : List ℕ) → be_value acc (xs ++ x ∷ []) ≡ be_value acc xs * 256 + x
unfolding be_value
be_value-append acc x [] = omega arith
be_value-append acc x (y ∷ ys) = be_value-append (acc * 256 + y) x ys

-- A number that fits is read back.
pub be_value-be : (w v : ℕ) → v < 256 ^ w → be_value 0 (be w v) ≡ v
unfolding be
be_value-be zero v h = unfold be_value in omega arith
be_value-be (suc w) v h = omega (
  arith,
  be_value-append 0 (v % 256) (be w (v / 256)),
  be_value-be w (v / 256) (omega (arith, pow-suc 256 w)),
)
