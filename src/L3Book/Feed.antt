-- ===== src/L3Book/Feed.antt =====
-- src/quantfinlib/marketdata/l3_book_builder.py: the calls that a book receives, as values.
use quant_finance_py.Prelude.{ℕ, List, [], ◌∷◌}
use quant_finance_py.Prelude.Int.{ℤ}
use quant_finance_py.Execution.{Side}
use quant_finance_py.L3Book.{Book}
use quant_finance_py.L3Book.Handlers.{
  on_add, on_execute, on_cancel, on_delete, on_replace, on_trade, track, untrack,
}

-- A feed message after decoding, or a call about one's own order.
pub data Event : Type 0 where
  adds : ℕ → Side → ℕ → ℤ → Event
  executes cancels : ℕ → ℕ → Event
  deletes : ℕ → Event
  replaces : ℕ → ℕ → ℕ → ℤ → Event
  trades : ℤ → Event
  tracks untracks : ℕ → Event

unfoldable pub apply : Book → Event → Book
apply b (adds ref side shares price_tick) = (on_add b ref side shares price_tick).0
apply b (executes ref shares) = on_execute b ref shares
apply b (cancels ref shares) = on_cancel b ref shares
apply b (deletes ref) = on_delete b ref
apply b (replaces orig_ref new_ref shares price_tick) =
    on_replace b orig_ref new_ref shares price_tick
apply b (trades price_tick) = on_trade b price_tick
apply b (tracks ref) = (track b ref).0
apply b (untracks ref) = untrack b ref

unfoldable pub run : Book → List Event → Book
unfolding apply
run b [] = b
run b (e ∷ es) = run (apply b e) es
