-- ===== src/Pov.antt =====
-- src/quantfinlib/execution/pov_tracker.py: `PovTracker`, which tells how many shares a share of
-- the market's volume allows now. The share is floating point; a quantity that is reported may be
-- negative and then does nothing.
pub mod Bounds
mod Tests
use quant_finance_py.Prelude.{
  ℕ, ◌+◌, ◌-◌, min, max, Bool, ◌||◌, Option, none, some, ◌==◌, ltb, leb, if◌then◌else◌,
}
use quant_finance_py.Prelude.Int.{ℤ, pos, pos_part, ◌-ℤ◌, ltb_ℤ, leb_ℤ}
use quant_finance_py.Prelude.Double.{Double}

pub record PovTracker (F : Type 0) : Type 0 where
  pub parent_qty : ℕ
  pub participation : F
  pub min_slice : ℕ
  pub max_slice : ℕ
  pub market_volume : ℕ
  pub executed : ℕ

module _ {F : Type 0} where
  unfoldable pub on_market_volume : PovTracker F → ℤ → PovTracker F
  on_market_volume t qty =
      if ltb_ℤ (pos 0) qty then record t { market_volume = t.market_volume + pos_part qty } else t

  unfoldable pub on_executed : PovTracker F → ℤ → PovTracker F
  on_executed t qty =
      if ltb_ℤ (pos 0) qty then record t { executed = t.executed + pos_part qty } else t

  -- The parent may be overfilled.
  unfoldable pub remaining : PovTracker F → ℤ
  remaining t = pos t.parent_qty -ℤ pos t.executed

  unfoldable pub done : PovTracker F → Bool
  done t = leb t.parent_qty t.executed

module _ (d : Double) where
  open d use {Num, of_ℤ, nan, times, over, less, at_most, truncate}

  abbrev pub fresh : ℕ → Num → ℕ → ℕ → PovTracker Num
  fresh parent_qty participation min_slice max_slice = record {
    parent_qty = parent_qty;
    participation = participation;
    min_slice = min_slice;
    max_slice = max_slice;
    market_volume = 0;
    executed = 0;
  }

  unfoldable pub new : ℤ → Num → ℤ → ℤ → Option (PovTracker Num)
  new parent_qty participation min_slice max_slice =
      if leb_ℤ parent_qty (pos 0)
        || (at_most participation (of_ℤ (pos 0)) || less (of_ℤ (pos 1)) participation)
      then none
      else if ltb_ℤ min_slice (pos 0) || ltb_ℤ max_slice (pos (max 1 (pos_part min_slice)))
      then none
      else some
          (fresh (pos_part parent_qty) participation (pos_part min_slice) (pos_part max_slice))

  abbrev pub target : PovTracker Num → ℤ
  target t = truncate (times t.participation (of_ℤ (pos t.market_volume)))

  unfoldable pub due_quantity : PovTracker Num → ℕ
  due_quantity t =
      let behind = target t -ℤ pos t.executed in
      if leb t.parent_qty t.executed
      then 0
      else if ltb_ℤ behind (pos (max 1 t.min_slice))
      then 0
      else min (min (pos_part behind) t.max_slice) (t.parent_qty - t.executed)

  unfoldable pub realized_participation : PovTracker Num → Num
  realized_participation t =
      if t.market_volume == 0
      then nan
      else over (of_ℤ (pos t.executed)) (of_ℤ (pos t.market_volume))
