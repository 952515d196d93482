-- ===== src/L3Book/Wire.antt =====
-- src/quantfinlib/marketdata/l3_book_builder.py: `on_message`, which decodes a feed message by the
-- codec of itch_codec.py and hands it to its handler. `none` is an exception of the decoder.
use quant_finance_py.Prelude.{
  ℕ, ◌%◌, ◌^◌, ◌<◌, ◌≡◌, true, ◌||◌, Option, none, some, List, ◌++◌, arith, ◌==◌, if◌then◌else◌,
  drop,
}
use quant_finance_py.Prelude.Int.{ℤ}
use quant_finance_py.Prelude.Maybe.{◌>>=◌}
use quant_finance_py.Execution.{Side, buy, sell}
use quant_finance_py.Itch.{
  add, add_mpid, executed, cancel, delete, replace, trade, buy_byte, wire_length,
}
use quant_finance_py.Itch.View.{
  type, stock_locate, order_ref, orig_ref, new_ref, side_byte, shares, delta_shares, price_tick,
}
use quant_finance_py.Itch.Encode.{
  add_bytes, executed_bytes, cancel_bytes, delete_bytes, replace_bytes, trade_bytes,
}
use quant_finance_py.Itch.RoundTrip.{
  InDomain, add_fields, executed_fields, cancel_fields, delete_fields, replace_fields, trade_fields,
}
use quant_finance_py.L3Book.{Book}
use quant_finance_py.L3Book.Handlers.{
  on_add, on_execute, on_cancel, on_delete, on_replace, on_trade,
}

abbrev pub side_of : ℕ → Side
side_of s = if s == buy_byte then buy else sell

-- The chain of tests on the message's type.
unfoldable pub dispatch : Book → List ℕ → ℕ → ℕ → Option (Book × ℕ)
dispatch b m t ln =
    if (t == add) || (t == add_mpid)
    then (do
      s ← side_byte m
      ref ← order_ref m
      n ← shares m
      p ← price_tick m
      some ((on_add b ref (side_of s) n p).0, ln))
    else if t == executed
    then (do ref ← order_ref m; n ← delta_shares m; some (on_execute b ref n, ln))
    else if t == cancel
    then (do ref ← order_ref m; n ← delta_shares m; some (on_cancel b ref n, ln))
    else if t == delete
    then (do ref ← order_ref m; some (on_delete b ref, ln))
    else if t == replace
    then (do
      ref ← orig_ref m
      ref' ← new_ref m
      n ← shares m
      p ← price_tick m
      some (on_replace b ref ref' n p, ln))
    else if t == trade
    then (do p ← price_tick m; some (on_trade b p, ln))
    else some (b, 0)

-- `on_message` at a view, and at a buffer and an offset.
unfoldable pub on_view : Book → List ℕ → Option (Book × ℕ)
unfolding dispatch
on_view b m = do
  t ← type m
  elim (wire_length t) [
    | none ↦ some (b, 0)
    | some ln ↦ (do
      locate ← stock_locate m
      if locate == b.stock_locate then dispatch b m t ln else some (b, 0))
  ]

unfoldable pub on_message : Book → List ℕ → ℕ → Option (Book × ℕ)
unfolding on_view
on_message b buf off = on_view b (drop off buf)

module _ (b : Book) (locate ts : ℕ) (mine : locate % 2 ^ 16 ≡ b.stock_locate) (rest : List ℕ) where
  same_locate : ((locate % 2 ^ 16) == b.stock_locate) ≡ true
  same_locate = ground arith

  pub on_view-add_bytes :
      (ref side n stock : ℕ) (price : ℤ)
      → ref < 256 ^ 8
      → n < 256 ^ 4
      → InDomain price
      → on_view b (add_bytes locate ts ref side n stock price ++ rest)
        ≡ some ((on_add b ref (side_of side) n price).0, 36)
  unfolding on_view
  on_view-add_bytes ref side n stock price h k d =
      let f = add_fields locate ts ref side n stock price rest h k d in
      rw (f.0, f.1, same_locate, f.3, f.2, f.4, f.5)

  pub on_view-executed_bytes :
      (ref n match : ℕ)
      → ref < 256 ^ 8
      → n < 256 ^ 4
      → on_view b (executed_bytes locate ts ref n match ++ rest) ≡ some (on_execute b ref n, 31)
  unfolding on_view
  on_view-executed_bytes ref n match h k =
      let f = executed_fields locate ts ref n match rest h k in rw (f.0, f.1, same_locate, f.2, f.3)

  pub on_view-cancel_bytes :
      (ref n : ℕ)
      → ref < 256 ^ 8
      → n < 256 ^ 4
      → on_view b (cancel_bytes locate ts ref n ++ rest) ≡ some (on_cancel b ref n, 23)
  unfolding on_view
  on_view-cancel_bytes ref n h k =
      let f = cancel_fields locate ts ref n rest h k in rw (f.0, f.1, same_locate, f.2, f.3)

  pub on_view-delete_bytes :
      (ref : ℕ)
      → ref < 256 ^ 8
      → on_view b (delete_bytes locate ts ref ++ rest) ≡ some (on_delete b ref, 19)
  unfolding on_view
  on_view-delete_bytes ref h =
      let f = delete_fields locate ts ref rest h in rw (f.0, f.1, same_locate, f.2)

  pub on_view-replace_bytes :
      (ref ref' n : ℕ) (price : ℤ)
      → ref < 256 ^ 8
      → ref' < 256 ^ 8
      → n < 256 ^ 4
      → InDomain price
      → on_view b (replace_bytes locate ts ref ref' n price ++ rest)
        ≡ some (on_replace b ref ref' n price, 35)
  unfolding on_view
  on_view-replace_bytes ref ref' n price h h' k d =
      let f = replace_fields locate ts ref ref' n price rest h h' k d in
      rw (f.0, f.1, same_locate, f.2, f.3, f.4, f.5)

  pub on_view-trade_bytes :
      (ref side n stock : ℕ) (price : ℤ) (match : ℕ)
      → InDomain price
      → on_view b (trade_bytes locate ts ref side n stock price match ++ rest)
        ≡ some (on_trade b price, 44)
  unfolding on_view
  on_view-trade_bytes ref side n stock price match d =
      let f = trade_fields locate ts ref side n stock price match rest d in
      rw (f.0, f.1, same_locate, f.2)
