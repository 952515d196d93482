-- ===== src/L3Book.antt =====
-- src/quantfinlib/marketdata/l3_book_builder.py: the book of one symbol, rebuilt from a feed.
-- References and share counts are natural numbers, as the feed's unsigned fields are, so that the
-- tests `<= 0` are tests for 0; prices are signed. `_NONE` is `none`. A dict's missing entry is
-- an empty level or the quantity 0.
pub mod Orders
pub mod Handlers
pub mod Feed
pub mod Sums
pub mod Best
pub mod Invariant
pub mod Removal
pub mod Safety
pub mod Queries
pub mod Ahead
pub mod Tracking
pub mod Rows
pub mod Credits
pub mod Priority
pub mod Runs
pub mod Wire
pub mod Messages
pub mod Tests
use quant_finance_py.Prelude.{
  ℕ, ◌+◌, ◌-◌, ◌^◌, Bool, true, false, ◌||◌, Option, none, some, List, [], ◌∷◌, ◌++◌, ◌==◌, ltb,
  leb, if◌then◌else◌, length, min,
}
use quant_finance_py.Prelude.Int.{ℤ, pos, negsuc, pos_part, ltb_ℤ, leb_ℤ, ◌+ℤ◌, ◌-ℤ◌}
use quant_finance_py.Execution.{Side, buy, sell}
use Orders.{
  Node, Tracked, find, without, set_qty, remove, Table, update, update_side, add, discard, improves,
  extreme, is_best, credit_ahead, untrack_row, find_row, walk,
}

abbrev pub max_tracked : ℕ
max_tracked = 64

abbrev pub int_min : ℤ
int_min = negsuc (2 ^ 31 - 1)

abbrev pub int_max : ℤ
int_max = pos (2 ^ 31 - 1)

pub record Counters : Type 0 where
  pub add_count : ℕ
  pub execute_count : ℕ
  pub cancel_count : ℕ
  pub delete_count : ℕ
  pub replace_count : ℕ
  pub trade_count : ℕ
  pub unknown_ref_count : ℕ
  pub out_of_band_count : ℕ
  pub duplicate_ref_count : ℕ

pub record Book : Type 0 where
  pub stock_locate : ℕ
  pub min_tick : ℤ
  pub ladder : ℕ
  pub max_orders : ℕ
  pub levels : Table (List ℕ)
  pub qty : Table ℕ
  pub occupied : Side → List ℕ
  pub best : Side → Option ℕ
  pub orders : List Node
  pub next_seq : ℕ
  pub tracked : List Tracked
  pub resting_orders : ℕ
  pub last_trade_tick : ℤ
  pub counters : Counters
  pub open counters use *

-- `__init__`; `none` is its `ValueError`.
unfoldable pub new : ℕ → ℤ → ℤ → ℕ → Option Book
unfolding ◌+ℤ◌ ◌-ℤ◌
new stock_locate min_price_tick max_price_tick max_orders =
    if ltb_ℤ max_price_tick min_price_tick || (max_orders == 0)
    then none
    else some (record {
      stock_locate = stock_locate;
      min_tick = min_price_tick;
      ladder = pos_part (max_price_tick -ℤ min_price_tick +ℤ pos 1);
      max_orders = max_orders;
      levels = λ s i. [];
      qty = λ s i. 0;
      occupied = λ s. [];
      best = λ s. none;
      orders = [];
      next_seq = 1;
      tracked = [];
      resting_orders = 0;
      last_trade_tick = int_min;
      counters = record {
        add_count = 0;
        execute_count = 0;
        cancel_count = 0;
        delete_count = 0;
        replace_count = 0;
        trade_count = 0;
        unknown_ref_count = 0;
        out_of_band_count = 0;
        duplicate_ref_count = 0;
      };
    })

-- The end of `_insert`: the node joins the back of its level.
unfoldable pub place : Book → Node → Book
unfolding add
place b n = record b {
  orders = b.orders ++ n ∷ [];
  next_seq = b.next_seq + 1;
  levels = update n.side n.tick (b.levels n.side n.tick ++ n.ref ∷ []) b.levels;
  qty = update n.side n.tick (b.qty n.side n.tick + n.qty) b.qty;
  occupied = update_side n.side (add n.tick (b.occupied n.side)) b.occupied;
  best =
      update_side n.side
        (if improves n.side n.tick (b.best n.side) then some n.tick else b.best n.side) b.best;
  resting_orders = b.resting_orders + 1;
}

-- The first test of `_insert`, at the ladder index `idx`.
abbrev pub refused : Book → ℕ → ℕ → ℤ → Bool
refused b ref shares idx =
    ltb_ℤ idx (pos 0)
    || (leb_ℤ (pos b.ladder) idx
        || ((shares == 0) || ((ref == 0) || leb b.max_orders (length b.orders))))

abbrev pub ladder_index : Book → ℤ → ℤ
ladder_index b price_tick = price_tick -ℤ b.min_tick

-- `_insert`.
unfoldable pub insert : Book → ℕ → Side → ℕ → ℤ → Book × Bool
unfolding place find ◌-ℤ◌
insert b ref side shares price_tick =
    if refused b ref shares (ladder_index b price_tick)
    then (
      record b { counters = record (b.counters) { out_of_band_count = b.out_of_band_count + 1 } },
      false,
    )
    else elim (find ref b.orders) [
      | some n ↦ (
        record b {
          counters = record (b.counters) { duplicate_ref_count = b.duplicate_ref_count + 1 };
        },
        false,
      )
      | none ↦ (
        place b (record {
          ref = ref;
          side = side;
          tick = pos_part (ladder_index b price_tick);
          qty = shares;
          seq = b.next_seq;
        }),
        true,
      )
    ]

-- `_remove_node`: unlink, then clear the level if nothing is left on it.
unfoldable pub clear_level : Book → Side → ℕ → Book
unfolding discard extreme
clear_level b s i =
    if b.qty s i == 0
    then record b {
      occupied = update_side s (discard i (b.occupied s)) b.occupied;
      qty = update s i 0 b.qty;
      levels = update s i [] b.levels;
      best =
          if is_best i (b.best s)
          then update_side s (extreme s (discard i (b.occupied s))) b.best
          else b.best;
    }
    else b

unfoldable pub remove_node : Book → Node → Book
unfolding clear_level remove untrack_row without
remove_node b n =
    clear_level
      (record b {
        levels = update n.side n.tick (remove n.ref (b.levels n.side n.tick)) b.levels;
        tracked = untrack_row n.ref b.tracked;
        orders = without n.ref b.orders;
        resting_orders = b.resting_orders - 1;
      })
      n.side n.tick

-- The quantity of the node and of its level falls by `cut`.
unfoldable pub shrink : Book → Node → ℕ → Book
unfolding set_qty
shrink b n cut = record b {
  orders = set_qty n.ref (n.qty - cut) b.orders;
  qty = update n.side n.tick (b.qty n.side n.tick - cut) b.qty;
}
