-- ===== src/Nbbo.antt =====
-- src/quantfinlib/marketdata/nbbo.py: the consolidated best bid and offer of one symbol.
-- The four parallel arrays are one list of venue quotes, and a bitmask of venues is a function
-- from the venue's number to its bit. Venue numbers are natural numbers: one past the end is an
-- `IndexError`, `none` here. The callback is the list of the calls that it received.
pub mod Join
pub mod Scan
pub mod Consolidated
pub mod FastPath
pub mod Feed
mod Tests
use quant_finance_py.Prelude.{
  ℕ, suc, ◌+◌, ◌-◌, ◌^◌, ◌<◌, Bool, true, false, not, ◌&&◌, ◌||◌, Option, none, some, List, [], ◌∷◌,
  ◌++◌, ◌==◌, ltb, leb, if◌then◌else◌, length, get_elem?, set, replicate,
}
use quant_finance_py.Prelude.Int.{ℤ, pos, negsuc, pos_part, ltb_ℤ, ◌==ℤ◌}
use quant_finance_py.Execution.{Side, buy, sell}

abbrev pub no_bid : ℤ
no_bid = negsuc (2 ^ 31 - 1)

abbrev pub no_ask : ℤ
no_ask = pos (2 ^ 31 - 1)

pub record VenueQuote : Type 0 where
  pub bid_tick : ℤ
  pub bid_size : ℕ
  pub ask_tick : ℤ
  pub ask_size : ℕ

-- The price and the size on one side, and the price that means "no quote".
abbrev pub tick : Side → VenueQuote → ℤ
tick buy q = q.bid_tick
tick sell q = q.ask_tick

abbrev pub size : Side → VenueQuote → ℕ
size buy q = q.bid_size
size sell q = q.ask_size

abbrev pub absent : Side → ℤ
absent buy = no_bid
absent sell = no_ask

-- `b > bb` for bids, `a < bo` for offers.
abbrev pub better : Side → ℤ → ℤ → Bool
better buy a b = ltb_ℤ b a
better sell a b = ltb_ℤ a b

-- The best price of one side, the size there, and the venues that quote it.
pub record Inside : Type 0 where
  pub price : ℤ
  pub shares : ℕ
  pub venue_bits : ℕ → Bool

abbrev pub nothing : Side → Inside
nothing s = record { price = absent s; shares = 0; venue_bits = λ u. false }

-- One round of the loop of `_recompute`, on one side.
unfoldable pub join : Side → ℕ → VenueQuote → Inside → Inside
join s v q acc =
    if tick s q ==ℤ absent s
    then acc
    else if better s (tick s q) acc.price
    then record { price = tick s q; shares = size s q; venue_bits = λ u. u == v }
    else if tick s q ==ℤ acc.price
    then record {
      price = acc.price;
      shares = acc.shares + size s q;
      venue_bits = λ u. acc.venue_bits u || (u == v);
    }
    else acc

-- The loop of `_recompute` from venue `v` on, both sides in each round.
unfoldable pub scan : ℕ → List VenueQuote → Inside → Inside → Inside × Inside
scan v [] bid ask = (bid, ask)
scan v (q ∷ qs) bid ask = scan (v + 1) qs (join buy v q bid) (join sell v q ask)

pub record ListenerCall : Type 0 where
  pub bid : ℤ
  pub bid_shares : ℕ
  pub ask : ℤ
  pub ask_shares : ℕ
  pub timestamp : ℕ

pub record Nbbo : Type 0 where
  pub venues : List VenueQuote
  pub bid : Inside
  pub ask : Inside
  pub listening : Bool
  pub calls : List ListenerCall
  pub update_count : ℕ
  pub change_count : ℕ

abbrev pub no_quote : VenueQuote
no_quote = record { bid_tick = no_bid; bid_size = 0; ask_tick = no_ask; ask_size = 0 }

-- `__init__`; `none` is its `ValueError`.
unfoldable pub new : ℕ → Option Nbbo
new venue_count =
    if ltb venue_count 1 || ltb 64 venue_count
    then none
    else some (record {
      venues = replicate venue_count no_quote;
      bid = nothing buy;
      ask = nothing sell;
      listening = false;
      calls = [];
      update_count = 0;
      change_count = 0;
    })

-- `listener`: installs or removes the callback.
abbrev pub listener : Nbbo → Bool → Nbbo
listener n on = record n { listening = on }

-- The test of `_recompute`: a price or a size at the inside moved.
abbrev pub moved : Nbbo → Inside → Inside → Bool
moved n bid ask =
    not (bid.price ==ℤ n.bid.price)
    || (not (bid.shares == n.bid.shares)
        || (not (ask.price ==ℤ n.ask.price) || not (ask.shares == n.ask.shares)))

-- The end of `_recompute`: publish the scan's result, and tell the listener of a change.
unfoldable pub publish : Nbbo → Inside → Inside → ℕ → Nbbo × Bool
publish n bid ask ts =
    if moved n bid ask
    then (
      record n {
        bid = bid;
        ask = ask;
        change_count = n.change_count + 1;
        calls =
            if n.listening
            then n.calls
              ++ record {
                bid = bid.price;
                bid_shares = bid.shares;
                ask = ask.price;
                ask_shares = ask.shares;
                timestamp = ts;
              }
                ∷ []
            else n.calls;
      },
      true,
    )
    else (record n { bid = bid; ask = ask }, false)

-- `_recompute`.
unfoldable pub recompute : Nbbo → ℕ → Nbbo × Bool
unfolding publish
recompute n ts =
    let (bid, ask) = scan 0 n.venues (nothing buy) (nothing sell) in publish n bid ask ts

-- What a venue's slot holds after a quote: a side without size is empty.
abbrev pub slot : ℤ → ℤ → ℤ → ℤ → VenueQuote
slot bid bid_sz ask ask_sz = record {
  bid_tick = if ltb_ℤ (pos 0) bid_sz then bid else no_bid;
  bid_size = if ltb_ℤ (pos 0) bid_sz then pos_part bid_sz else 0;
  ask_tick = if ltb_ℤ (pos 0) ask_sz then ask else no_ask;
  ask_size = if ltb_ℤ (pos 0) ask_sz then pos_part ask_sz else 0;
}

-- The test of the fast path, on one side: the venue is not at the inside and stays off it.
abbrev pub off_inside : Side → Inside → ℕ → VenueQuote → Bool
off_inside s inside venue q =
    not (inside.venue_bits venue) && ((tick s q ==ℤ absent s) || better s inside.price (tick s q))

unfoldable pub store : Nbbo → ℕ → VenueQuote → Nbbo
store n venue q = record n { venues = set n.venues venue q; update_count = n.update_count + 1 }

-- `on_venue_quote`, once the venue is known to exist.
unfoldable pub apply_quote : Nbbo → ℕ → VenueQuote → ℕ → Nbbo × Bool
unfolding store
apply_quote n venue q ts =
    let n' = store n venue q in
    let r = recompute n' ts in
    if off_inside buy n.bid venue q && off_inside sell n.ask venue q then (n', false) else r

unfoldable pub on_venue_quote : Nbbo → ℕ → ℤ → ℤ → ℤ → ℤ → ℕ → Option (Nbbo × Bool)
unfolding apply_quote
on_venue_quote n venue bid bid_sz ask ask_sz ts =
    if ltb venue (length n.venues)
    then some (apply_quote n venue (slot bid bid_sz ask ask_sz) ts)
    else none

unfoldable pub on_venue_down : Nbbo → ℕ → ℕ → Option (Nbbo × Bool)
unfolding on_venue_quote
on_venue_down n venue ts = on_venue_quote n venue no_bid (pos 0) no_ask (pos 0) ts

unfoldable pub crossed : Nbbo → Bool
crossed n =
    not (n.bid.price ==ℤ no_bid) && (not (n.ask.price ==ℤ no_ask) && ltb_ℤ n.ask.price n.bid.price)

unfoldable pub locked : Nbbo → Bool
locked n = not (n.bid.price ==ℤ no_bid) && (n.bid.price ==ℤ n.ask.price)
