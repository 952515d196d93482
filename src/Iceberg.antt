-- ===== src/Iceberg.antt =====
-- src/quantfinlib/execution/iceberg_order.py: an order that shows one tranche at a time.
-- Quantities are natural numbers: the guards refuse a negative one as they refuse 0. The generator
-- is numpy's and its draws are floating-point: `rounded d k` stands for the rounded jittered size
-- `floor(raw + 0.5)` of display size `d` at draw `k`.
pub mod Laws
mod Tests
use quant_finance_py.Prelude.{
  ℕ, ◌+◌, ◌-◌, min, max, Bool, true, false, ◌&&◌, ◌||◌, Option, none, some, List, [], ◌∷◌, ◌==◌,
  ltb, if◌then◌else◌,
}
use quant_finance_py.Prelude.Int.{ℤ, pos_part}
use quant_finance_py.Prelude.Maybe.{◌>>=◌}

pub record IcebergOrder : Type 0 where
  pub display : ℕ
  -- Whether `randomize_pct` is positive.
  pub jittered : Bool
  -- The draws made so far.
  pub draws : ℕ
  pub remaining : ℕ
  pub visible : ℕ

unfoldable pub hidden_qty : IcebergOrder → ℕ
hidden_qty o = o.remaining - o.visible

unfoldable pub is_complete : IcebergOrder → Bool
is_complete o = o.remaining == 0

module _ (rounded : ℕ → ℕ → ℤ) where
  -- The size of the next tranche before the limit of what remains.
  abbrev pub base : IcebergOrder → ℕ
  base o = if o.jittered then max 1 (pos_part (rounded o.display o.draws)) else o.display

  -- `self._visible = self._next_tranche()`.
  unfoldable pub reload : IcebergOrder → IcebergOrder
  reload o = record o {
    visible = min (base o) o.remaining;
    draws = if o.jittered then o.draws + 1 else o.draws;
  }

  -- The constructor.
  unfoldable pub new : ℕ → ℕ → Bool → Option IcebergOrder
  unfolding reload
  new total display jittered =
      if (total == 0) || (display == 0)
      then none
      else some (
          reload (record {
            display = display;
            jittered = jittered;
            draws = 0;
            remaining = total;
            visible = 0;
          }))

  -- `on_fill`, once the quantity is accepted.
  unfoldable pub fill : IcebergOrder → ℕ → IcebergOrder × Bool
  unfolding reload
  fill o qty =
      let o' = record o { visible = o.visible - qty; remaining = o.remaining - qty } in
      if (o'.visible == 0) && ltb 0 o'.remaining then (reload o', true) else (o', false)

  unfoldable pub on_fill : IcebergOrder → ℕ → Option (IcebergOrder × Bool)
  unfolding fill
  on_fill o qty = if (qty == 0) || ltb o.visible qty then none else some (fill o qty)

  -- A sequence of fills, each of which is accepted.
  unfoldable pub fills : IcebergOrder → List ℕ → Option IcebergOrder
  unfolding on_fill
  fills o [] = some o
  fills o (q ∷ qs) = do r ← on_fill o q; fills (r.0) qs
