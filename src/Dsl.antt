-- ===== src/Dsl.antt =====
-- src/quantfinlib/dsl/{rule,rules,strategy_builder}.py: trading rules over bar indices. An array is
-- a list of floating-point numbers and a bar an index from 0 on; `none` is a read past the end,
-- which raises. A number of bars is not negative.
pub mod Builder
pub mod Entries
pub mod WarmUp
mod Tests
use quant_finance_py.Prelude.{
  ℕ, zero, suc, ◌+◌, ◌-◌, Bool, true, false, not, ◌&&◌, Option, none, some, List, ◌==◌, ltb,
  if◌then◌else◌, get_elem?,
}
use quant_finance_py.Prelude.Int.{pos}
use quant_finance_py.Prelude.Maybe.{◌>>=◌}
use quant_finance_py.Prelude.Double.{Double}

abbrev pub Rule : Type 0
Rule = ℕ → Option Bool

unfoldable pub and_ : Rule → Rule → Rule
and_ r s i = elim (r i) [ none ↦ none | some b ↦ elim b [ true ↦ s i | false ↦ some false ] ]

unfoldable pub or_ : Rule → Rule → Rule
or_ r s i = elim (r i) [ none ↦ none | some b ↦ elim b [ true ↦ some true | false ↦ s i ] ]

unfoldable pub not_ : Rule → Rule
not_ r i = elim (r i) [ none ↦ none | some b ↦ some (not b) ]

pub data Signal : Type 0 where
  buy_signal sell_signal hold_signal : Signal

pub record DslStrategy (F : Type 0) : Type 0 where
  pub entry : Rule
  pub exit_rule : Rule
  pub stop_loss_pct : F
  pub take_profit_pct : F

abbrev pub never : Rule
never i = some false

unfoldable pub on_bar : {F : Type 0} → DslStrategy F → ℕ → Option Signal
on_bar s i = elim (s.entry i) [
  | none ↦ none
  | some enter ↦ elim enter [
    | true ↦ some buy_signal
    | false ↦ elim (s.exit_rule i) [
      | none ↦ none
      | some leave ↦ some (if leave then sell_signal else hold_signal)
    ]
  ]
]

module _ (d : Double) where
  open d use {Num, less, at_most, same}

  -- `not math.isnan`.
  abbrev pub valid : Num → Bool
  valid x = same x x

  -- A test of two valid values, and one of the values of a bar and the bar before it.
  unfoldable pub both : (Num → Num → Bool) → List Num → List Num → Rule
  both test a b i = do x ← get_elem? a i; y ← get_elem? b i; some (valid x && (valid y && test x y))

  unfoldable pub crossed : (Num → Num → Bool) → (Num → Num → Bool) → List Num → List Num → Rule
  crossed before after a b zero = some false
  crossed before after a b (suc i) = do
    x ← get_elem? a (suc i)
    y ← get_elem? b (suc i)
    x' ← get_elem? a i
    y' ← get_elem? b i
    some (valid x && (valid y && (valid x' && (valid y' && (before x' y' && after x y)))))

  unfoldable pub single : (Num → Bool) → List Num → Rule
  single test a i = do x ← get_elem? a i; some (valid x && test x)

  unfoldable pub crossed_value : (Num → Bool) → (Num → Bool) → List Num → Rule
  crossed_value before after a zero = some false
  crossed_value before after a (suc i) = do
    x ← get_elem? a (suc i)
    x' ← get_elem? a i
    some (valid x && (valid x' && (before x' && after x)))

  abbrev pub at_least : Num → Num → Bool
  at_least x y = at_most y x

  abbrev pub more : Num → Num → Bool
  more x y = less y x

  abbrev pub cross_above : List Num → List Num → Rule
  cross_above = crossed at_most more

  abbrev pub cross_below : List Num → List Num → Rule
  cross_below = crossed at_least less

  abbrev pub cross_above_value : List Num → Num → Rule
  cross_above_value a level = crossed_value (λ x. at_most x level) (λ x. more x level) a

  abbrev pub cross_below_value : List Num → Num → Rule
  cross_below_value a level = crossed_value (λ x. at_least x level) (λ x. less x level) a

  abbrev pub above : List Num → List Num → Rule
  above = both more

  abbrev pub below : List Num → List Num → Rule
  below = both less

  abbrev pub above_value : List Num → Num → Rule
  above_value a level = single (λ x. more x level) a

  abbrev pub below_value : List Num → Num → Rule
  below_value a level = single (λ x. less x level) a

  -- The loop of `rising` and `falling` over `count` bars, the first behind bar `j`.
  unfoldable pub steps : (Num → Num → Bool) → List Num → ℕ → ℕ → Option Bool
  steps fails a j zero = some true
  steps fails a j (suc count) = elim (get_elem? a (suc j)) [
    | none ↦ none
    | some x ↦ elim (get_elem? a j) [
      | none ↦ none
      | some x' ↦ elim (valid x && (valid x' && not (fails x x'))) [
        | true ↦ steps fails a (suc j) count
        | false ↦ some false
      ]
    ]
  ]

  unfoldable pub monotone : (Num → Num → Bool) → List Num → ℕ → Rule
  unfolding steps
  monotone fails a bars i = if ltb i bars then some false else steps fails a (i - bars) bars

  abbrev pub rising : List Num → ℕ → Rule
  rising = monotone at_most

  abbrev pub falling : List Num → ℕ → Rule
  falling = monotone at_least
