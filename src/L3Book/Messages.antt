-- ===== src/L3Book/Messages.antt =====
-- src/quantfinlib/marketdata/l3_book_builder.py, itch_codec.py: a message that an encoder wrote
-- into a buffer, given to `on_message`.
mod Tests
use quant_finance_py.Prelude.{
  ℕ, zero, suc, ◌+◌, ◌-◌, ◌%◌, ◌^◌, ◌<◌, ◌≤◌, ◌≡◌, ◌≢◌, refl, ap, sym, ◌∙◌, Bool, true, false, ◌&&◌,
  Option, none, some, List, [], ◌∷◌, ◌++◌, arith, ◌==◌, if◌then◌else◌, length, take, drop, ltb, leb,
  Bool-cases, inl, inr, Option-cases, if_some,
}
use quant_finance_py.Prelude.Int.{ℤ}
use quant_finance_py.Prelude.Maybe.{◌>>=◌, require}
use quant_finance_py.Prelude.Bytes.{fits}
use quant_finance_py.Itch.{wire_length}
use quant_finance_py.Itch.Encode.{
  add_bytes, executed_bytes, cancel_bytes, delete_bytes, replace_bytes, trade_bytes, write,
  encode_add, encode_executed, encode_cancel, encode_delete, encode_replace, encode_trade,
}
use quant_finance_py.Itch.View.{type, stock_locate}
use quant_finance_py.Itch.RoundTrip.{InDomain}
use quant_finance_py.L3Book.{Book}
use quant_finance_py.L3Book.Handlers.{
  on_add, on_execute, on_cancel, on_delete, on_replace, on_trade,
}
use quant_finance_py.L3Book.Wire.{
  on_view, on_message, side_of, on_view-add_bytes, on_view-executed_bytes, on_view-cancel_bytes,
  on_view-delete_bytes, on_view-replace_bytes, on_view-trade_bytes,
}

drop-take-append : (n : ℕ) (xs ys : List ℕ) → n ≤ length xs → drop n (take n xs ++ ys) ≡ ys
drop-take-append zero xs ys h = refl
drop-take-append (suc n) [] ys h = elim h [ ]
drop-take-append (suc n) (x ∷ xs) ys h = drop-take-append n xs ys (omega arith)

-- What an encoder's result says of its arguments and of the buffer.
abbrev with_count : ℕ → List ℕ → Option (List ℕ × ℕ)
with_count n x = some (x, n)

encoder_result :
    (c : Bool) (o : Option (List ℕ)) (n k : ℕ) (buf' : List ℕ)
    → require c (o >>= with_count n) ≡ some (buf', k)
    → (c ≡ true) × (o ≡ some buf') × (n ≡ k)
encoder_result true (some x) n k buf' h = ground arith
encoder_result true none n k buf' h = ground arith
encoder_result false o n k buf' h = ground arith

drop-write :
    (buf : List ℕ) (off : ℕ) (msg buf' : List ℕ)
    → write buf off msg ≡ some buf'
    → drop off buf' ≡ msg ++ drop (off + length msg) buf
unfolding write
drop-write buf off msg buf' h =
    let r =
      if_some (leb (off + length msg) (length buf))
        (take off buf ++ (msg ++ drop (off + length msg) buf)) buf' h in
    ap (drop off) (sym r.1)
    ∙ drop-take-append off buf (msg ++ drop (off + length msg) buf) (ground (arith, r.0))

module _ (b : Book) (buf buf' : List ℕ) (off k locate ts : ℕ)
    (mine : locate % 2 ^ 16 ≡ b.stock_locate) where
  handled :
      (msg : List ℕ) (n : ℕ) (out : Book)
      → write buf off msg ≡ some buf'
      → n ≡ k
      → on_view b (msg ++ drop (off + length msg) buf) ≡ some (out, n)
      → on_message b buf' off ≡ some (out, k)
  unfolding on_message
  handled msg n out w e h =
      ap (on_view b) (drop-write buf off msg buf' w) ∙ h ∙ ap (λ j. some (out, j)) e

  -- An add that an encoder wrote is handled as an add of those arguments.
  pub on_message-encode_add :
      (ref side n stock : ℕ) (price : ℤ)
      → InDomain price
      → encode_add buf off locate ts ref side n stock price ≡ some (buf', k)
      → on_message b buf' off ≡ some ((on_add b ref (side_of side) n price).0, k)
  unfolding encode_add
  on_message-encode_add ref side n stock price d h =
      let msg = add_bytes locate ts ref side n stock price in
      let r =
        encoder_result (fits 8 ref && (ltb side 256 && (fits 4 n && fits 8 stock)))
          (write buf off msg) 36 k buf' h in
      handled msg 36 ((on_add b ref (side_of side) n price).0) r.1 r.2 (
        on_view-add_bytes b locate ts mine (drop (off + length msg) buf) ref side n stock price
          (ground (arith, r.0)) (ground (arith, r.0)) d)

  -- A written execution is handled as an execution of those arguments.
  pub on_message-encode_executed :
      (ref n match : ℕ)
      → encode_executed buf off locate ts ref n match ≡ some (buf', k)
      → on_message b buf' off ≡ some (on_execute b ref n, k)
  unfolding encode_executed
  on_message-encode_executed ref n match h =
      let msg = executed_bytes locate ts ref n match in
      let r =
        encoder_result (fits 8 ref && (fits 4 n && fits 8 match)) (write buf off msg) 31 k buf' h in
      handled msg 31 (on_execute b ref n) r.1 r.2 (
        on_view-executed_bytes b locate ts mine (drop (off + length msg) buf) ref n match
          (ground (arith, r.0)) (ground (arith, r.0)))

  -- A written cancel is handled as a cancel of those arguments.
  pub on_message-encode_cancel :
      (ref n : ℕ)
      → encode_cancel buf off locate ts ref n ≡ some (buf', k)
      → on_message b buf' off ≡ some (on_cancel b ref n, k)
  unfolding encode_cancel
  on_message-encode_cancel ref n h =
      let msg = cancel_bytes locate ts ref n in
      let r = encoder_result (fits 8 ref && fits 4 n) (write buf off msg) 23 k buf' h in
      handled msg 23 (on_cancel b ref n) r.1 r.2 (
        on_view-cancel_bytes b locate ts mine (drop (off + length msg) buf) ref n
          (ground (arith, r.0)) (ground (arith, r.0)))

  -- A written delete is handled as a delete of its reference.
  pub on_message-encode_delete :
      (ref : ℕ)
      → encode_delete buf off locate ts ref ≡ some (buf', k)
      → on_message b buf' off ≡ some (on_delete b ref, k)
  unfolding encode_delete
  on_message-encode_delete ref h =
      let msg = delete_bytes locate ts ref in
      let r = encoder_result (fits 8 ref) (write buf off msg) 19 k buf' h in
      handled msg 19 (on_delete b ref) r.1 r.2 (
        on_view-delete_bytes b locate ts mine (drop (off + length msg) buf) ref
          (ground (arith, r.0)))

  -- A written replace is handled as a replace of those arguments.
  pub on_message-encode_replace :
      (ref ref' n : ℕ) (price : ℤ)
      → InDomain price
      → encode_replace buf off locate ts ref ref' n price ≡ some (buf', k)
      → on_message b buf' off ≡ some (on_replace b ref ref' n price, k)
  unfolding encode_replace
  on_message-encode_replace ref ref' n price d h =
      let msg = replace_bytes locate ts ref ref' n price in
      let r =
        encoder_result (fits 8 ref && (fits 8 ref' && fits 4 n)) (write buf off msg) 35 k buf' h in
      handled msg 35 (on_replace b ref ref' n price) r.1 r.2 (
        on_view-replace_bytes b locate ts mine (drop (off + length msg) buf) ref ref' n price
          (ground (arith, r.0)) (ground (arith, r.0)) (ground (arith, r.0)) d)

  -- A written trade is handled as a trade at its price.
  pub on_message-encode_trade :
      (ref side n stock : ℕ) (price : ℤ) (match : ℕ)
      → InDomain price
      → encode_trade buf off locate ts ref side n stock price match ≡ some (buf', k)
      → on_message b buf' off ≡ some (on_trade b price, k)
  unfolding encode_trade
  on_message-encode_trade ref side n stock price match d h =
      let msg = trade_bytes locate ts ref side n stock price match in
      let r =
        encoder_result
          (fits 8 ref && (ltb side 256 && (fits 4 n && (fits 8 stock && fits 8 match))))
          (write buf off msg) 44 k buf' h in
      handled msg 44 (on_trade b price) r.1 r.2 (
        on_view-trade_bytes b locate ts mine (drop (off + length msg) buf) ref side n stock price
          match d)

either_way :
    {A : Type 0} (o : Option ℕ) (a : A) (f : ℕ → A)
    → ((n : ℕ) → f n ≡ a)
    → elim o [ none ↦ a | some n ↦ f n ] ≡ a
either_way none a f h = refl
either_way (some n) a f h = h n

-- A message whose locate code is another symbol's changes nothing and consumes nothing.
on_message-elsewhere :
    (b : Book) (buf : List ℕ) (off t locate : ℕ)
    → type (drop off buf) ≡ some t
    → stock_locate (drop off buf) ≡ some locate
    → locate ≢ b.stock_locate
    → on_message b buf off ≡ some (b, 0)
unfolding on_message on_view
on_message-elsewhere b buf off t locate h k other =
    let differs : (locate == b.stock_locate) ≡ false = ground arith in
    rw h (either_way (wire_length t) _ _ (λ ln. rw (k, differs)))
