-- ===== src/Prelude/Double.antt =====
-- The floating-point numbers of the interpreter, as an interface: their arithmetic and comparisons
-- are the machine's, of which a definition uses the operations and a theorem only what it names.
use quant_finance_py.Prelude.{suc, ◌+◌, ◌*◌, ◌/◌, Bool, true, if◌then◌else◌}
use quant_finance_py.Prelude.Int.{
  ℤ, pos, negsuc, pos_part, neg_part, sub_ℕ, ◌+ℤ◌, ◌-ℤ◌, ltb_ℤ, leb_ℤ, ◌==ℤ◌,
}

pub record Double : Type 1 where
  pub Num : Type 0
  pub of_ℤ : ℤ → Num
  pub nan : Num
  pub negate : Num → Num
  pub plus : Num → Num → Num
  pub minus : Num → Num → Num
  pub times : Num → Num → Num
  pub over : Num → Num → Num
  pub less : Num → Num → Bool
  pub at_most : Num → Num → Bool
  pub same : Num → Num → Bool
  -- `math.isfinite`.
  pub finite : Num → Bool
  -- The sign bit, which `math.copysign(1, x)` reads.
  pub negative : Num → Bool
  -- `math.floor`, `math.ceil`, and `int`, which rounds towards zero.
  pub floor : Num → ℤ
  pub ceil : Num → ℤ
  pub truncate : Num → ℤ

-- `min(x, y)` and `max(x, y)`, which keep `x` unless `y` is less, or more.
abbrev pub lesser : (d : Double) → d.Num → d.Num → d.Num
lesser d x y = if d.less y x then y else x

abbrev pub greater : (d : Double) → d.Num → d.Num → d.Num
greater d x y = if d.less x y then y else x

-- `abs`.
abbrev pub magnitude : (d : Double) → d.Num → d.Num
magnitude d x = if d.negative x then d.negate x else x

abbrev pub times_ℤ : ℤ → ℤ → ℤ
times_ℤ a b =
    sub_ℕ (pos_part a * pos_part b + neg_part a * neg_part b)
      (pos_part a * neg_part b + neg_part a * pos_part b)

abbrev pub over_ℤ : ℤ → ℤ → ℤ
over_ℤ (pos a) b = sub_ℕ (a / pos_part b) (a / neg_part b)
over_ℤ (negsuc a) b = sub_ℕ (suc a / neg_part b) (suc a / pos_part b)

-- Whole numbers have the operations, for examples.
abbrev pub whole : Double
whole = record {
  Num = ℤ;
  of_ℤ = λ x. x;
  nan = pos 0;
  negate = λ x. sub_ℕ (neg_part x) (pos_part x);
  plus = ◌+ℤ◌;
  minus = ◌-ℤ◌;
  times = times_ℤ;
  over = over_ℤ;
  less = ltb_ℤ;
  at_most = leb_ℤ;
  same = ◌==ℤ◌;
  finite = λ x. true;
  negative = λ x. ltb_ℤ x (pos 0);
  floor = λ x. x;
  ceil = λ x. x;
  truncate = λ x. x;
}
