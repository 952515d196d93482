-- ===== src/L3Book/Tests.antt =====
-- A book of three orders, and its theorems at it.
use quant_finance_py.Prelude.{◌-◌, ◌≡◌, refl, arith, none, some, List, [], ◌∷◌}
use quant_finance_py.Prelude.Int.{pos}
use quant_finance_py.Execution.{buy}
use quant_finance_py.L3Book.{Book, int_min, new}
use quant_finance_py.L3Book.Orders.{Node, find}
use quant_finance_py.L3Book.Handlers.{
  on_add, on_replace, on_execute, on_cancel, track, shares_ahead, snapshot, open_quantity,
}
use quant_finance_py.L3Book.Feed.{Event, apply, run, adds, executes, deletes, replaces, tracks}
use quant_finance_py.L3Book.Ahead.{ahead_of}
use quant_finance_py.L3Book.Credits.{IsTracked}
use quant_finance_py.L3Book.Priority.{at_head, apply-IsTracked}
use quant_finance_py.L3Book.Runs.{all_at_head, shares_ahead-run}
use quant_finance_py.L3Book.Invariant.{IsConsistent}
use quant_finance_py.L3Book.Safety.{new-IsConsistent, apply-IsConsistent, run-IsConsistent}
use quant_finance_py.L3Book.Queries.{open_quantity-on_cancel}

abbrev pub empty_book : Book
empty_book = record {
  stock_locate = 7;
  min_tick = pos 1000;
  ladder = 101;
  max_orders = 10;
  levels = λ s i. [];
  qty = λ s i. 0;
  occupied = λ s. [];
  best = λ s. none;
  orders = [];
  next_seq = 1;
  tracked = [];
  resting_orders = 0;
  last_trade_tick = int_min;
  counters = record {
    add_count = 0;
    execute_count = 0;
    cancel_count = 0;
    delete_count = 0;
    replace_count = 0;
    trade_count = 0;
    unknown_ref_count = 0;
    out_of_band_count = 0;
    duplicate_ref_count = 0;
  };
}

abbrev morning : List Event
morning =
    adds 1 buy 100 (pos 1050)
    ∷ adds 2 buy 60 (pos 1050)
    ∷ adds 3 buy 5 (pos 1049)
    ∷ tracks 2
    ∷ executes 1 30
    ∷ []

abbrev pub book : Book
book = run empty_book morning

depth : snapshot book buy 5 ≡ (pos 1050, 130) ∷ (pos 1049, 5) ∷ []
unfolding run snapshot on_execute track on_add
depth = refl

queue : shares_ahead book 2 ≡ some 70
unfolding run shares_ahead on_execute track on_add
queue = refl

-- Replacing the head of the queue to another price leaves nothing ahead.
queue_moves : shares_ahead (apply book (replaces 1 9 10 (pos 1051))) 2 ≡ some 0
unfolding run shares_ahead on_replace on_execute track on_add
queue_moves = refl

out_of_band : (apply book (adds 4 buy 10 (pos 1101))).counters.out_of_band_count ≡ 1
unfolding run on_execute track on_add
out_of_band = refl

book-IsConsistent : IsConsistent book
book-IsConsistent =
    run-IsConsistent empty_book morning
      (unfold new in new-IsConsistent 7 (pos 1000) (pos 1100) 10 empty_book refl)

apply-IsConsistent_example : IsConsistent (apply book (deletes 1))
apply-IsConsistent_example = apply-IsConsistent book (deletes 1) book-IsConsistent

abbrev second : Node
second = record { ref = 2; side = buy; tick = 50; qty = 60; seq = 2 }

open_quantity-on_cancel_example : open_quantity (on_cancel book 2 25) 2 ≡ open_quantity book 2 - 25
open_quantity-on_cancel_example = open_quantity-on_cancel book 2 25 2 book-IsConsistent

-- The tracked order 2 rests behind order 1.
abbrev untracked_book : Book
untracked_book = run empty_book (adds 1 buy 100 (pos 1050) ∷ adds 2 buy 60 (pos 1050) ∷ [])

untracked-IsConsistent : IsConsistent untracked_book
untracked-IsConsistent =
    run-IsConsistent empty_book _
      (unfold new in new-IsConsistent 7 (pos 1000) (pos 1100) 10 empty_book refl)

no_rows : IsTracked untracked_book
unfolding run on_add
no_rows = record { rows = tt; distinct = tt; ordered = ((omega arith, tt), (tt, tt)) }

abbrev tracked_book : Book
tracked_book = apply untracked_book (tracks 2)

tracked-IsConsistent : IsConsistent tracked_book
tracked-IsConsistent = apply-IsConsistent untracked_book (tracks 2) untracked-IsConsistent

one_row : IsTracked tracked_book
one_row =
    apply-IsTracked untracked_book (tracks 2) untracked-IsConsistent no_rows
      (unfold at_head in refl)

apply-IsTracked_example : IsTracked (apply tracked_book (executes 1 30))
unfolding run on_add track at_head
apply-IsTracked_example =
    apply-IsTracked tracked_book (executes 1 30) tracked-IsConsistent one_row refl

-- An execution behind the tracked order, which the venue's discipline excludes, is counted as if
-- it had been ahead: 100 shares still are.
behind_the_tracked :
    shares_ahead (apply (apply tracked_book (adds 3 buy 40 (pos 1050))) (executes 3 40)) 2 ≡ some 60
unfolding run on_add track on_execute shares_ahead
behind_the_tracked = refl

shares_ahead-run_example :
    (x : Node) × (find 2 book.orders ≡ some x) × (70 ≡ ahead_of 2 x.side x.tick book.orders)
unfolding new run on_add track on_execute shares_ahead all_at_head
shares_ahead-run_example =
    shares_ahead-run 7 (pos 1000) (pos 1100) 10 empty_book morning 2 70 refl refl refl
