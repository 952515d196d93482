-- ===== src/Execution.antt =====
-- src/quantfinlib/microstructure/execution.py: the side of an order, and a fill.
use quant_finance_py.Prelude.{ℕ, List}
use quant_finance_py.Prelude.Int.{ℤ, pos, negsuc}
use quant_finance_py.Prelude.Double.{Double}

pub data Side : Type 0 where
  buy sell : Side

abbrev pub sign : Side → ℤ
sign buy = pos 1
sign sell = negsuc 0

abbrev pub opposite : Side → Side
opposite buy = sell
opposite sell = buy

pub record Execution (F : Type 0) : Type 0 where
  pub symbol : List ℕ
  pub side : Side
  pub price : F
  pub quantity : ℤ
  pub timestamp_nanos : ℤ
  pub venue : List ℕ

abbrev pub notional : (d : Double) → Execution d.Num → d.Num
notional d e = d.times e.price (d.of_ℤ e.quantity)
