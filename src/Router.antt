-- ===== src/Router.antt =====
-- src/quantfinlib/execution/hft_sor.py: `HftSor`, which routes an order to the venues by their
-- prices after fees. The parallel arrays are one list of venues, and `out_qty`, of which `route`
-- overwrites the entries of the venues, is the list of quantities beside them. Fees are floating
-- point. A quantity below 1 routes nothing, as 0 does.
pub mod Sweep
pub mod Laws
mod Tests
use quant_finance_py.Prelude.{
  ℕ, zero, suc, ◌+◌, ◌-◌, ◌^◌, min, Bool, true, false, not, ◌&&◌, Option, none, some, List, [], ◌∷◌,
  ◌==◌, ltb, if◌then◌else◌, length, get_elem?, set, replicate, map,
}
use quant_finance_py.Prelude.Int.{ℤ, pos, negsuc, pos_part, ltb_ℤ, ◌==ℤ◌}
use quant_finance_py.Prelude.Double.{Double}
use quant_finance_py.Execution.{Side, buy, sell}

abbrev pub no_bid : ℤ
no_bid = negsuc (2 ^ 31 - 1)

abbrev pub no_ask : ℤ
no_ask = pos (2 ^ 31 - 1)

pub record Venue (F : Type 0) : Type 0 where
  pub bid_tick : ℤ
  pub bid_size : ℕ
  pub ask_tick : ℤ
  pub ask_size : ℕ
  pub fee_ticks : F

pub record HftSor (F : Type 0) : Type 0 where
  pub venues : List (Venue F)
  pub route_count : ℕ

-- The price and the size that an order of a side meets.
abbrev pub px : {F : Type 0} → Side → Venue F → ℤ
px buy v = v.ask_tick
px sell v = v.bid_tick

abbrev pub sz : {F : Type 0} → Side → Venue F → ℕ
sz buy v = v.ask_size
sz sell v = v.bid_size

-- The test that lets a venue take part.
abbrev pub eligible : {F : Type 0} → Side → ℤ → Venue F → Bool
eligible buy limit v =
    ltb 0 v.ask_size && (not (v.ask_tick ==ℤ no_ask) && not (ltb_ℤ limit v.ask_tick))
eligible sell limit v =
    ltb 0 v.bid_size && (not (v.bid_tick ==ℤ no_bid) && not (ltb_ℤ v.bid_tick limit))

module _ (d : Double) where
  open d use {Num, of_ℤ, plus, minus, less}

  abbrev pub no_quote : Venue Num
  no_quote = record {
    bid_tick = no_bid;
    bid_size = 0;
    ask_tick = no_ask;
    ask_size = 0;
    fee_ticks = of_ℤ (pos 0);
  }

  unfoldable pub new : ℕ → Option (HftSor Num)
  new count =
      if count == 0
      then none
      else some (record { venues = replicate count no_quote; route_count = 0 })

  -- A change of one venue's row; an index past the end raises.
  abbrev pub at_venue : HftSor Num → ℕ → (Venue Num → Venue Num) → Option (HftSor Num)
  at_venue r i f = elim (get_elem? r.venues i) [
    | none ↦ none
    | some v ↦ some (record r { venues = set r.venues i (f v) })
  ]

  unfoldable pub fee : HftSor Num → ℕ → Num → Option (HftSor Num)
  fee r i taker = at_venue r i (λ v. record v { fee_ticks = taker })

  unfoldable pub venue_quote : HftSor Num → ℕ → ℤ → ℤ → ℤ → ℤ → Option (HftSor Num)
  venue_quote r i bid bid_sz ask ask_sz = at_venue r i (λ v. record v {
    bid_tick = if ltb_ℤ (pos 0) bid_sz then bid else no_bid;
    bid_size = pos_part bid_sz;
    ask_tick = if ltb_ℤ (pos 0) ask_sz then ask else no_ask;
    ask_size = pos_part ask_sz;
  })

  unfoldable pub venue_down : HftSor Num → ℕ → Option (HftSor Num)
  unfolding venue_quote
  venue_down r i = venue_quote r i no_bid (pos 0) no_ask (pos 0)

  abbrev pub all_in : Side → Venue Num → Num
  all_in buy v = plus (of_ℤ v.ask_tick) v.fee_ticks
  all_in sell v = minus (of_ℤ v.bid_tick) v.fee_ticks

  abbrev pub cheaper : Side → Num → Num → Bool
  cheaper buy a b = less a b
  cheaper sell a b = less b a

  -- One round of the selection: venue `i` against the best venue so far.
  unfoldable pub consider : Side → ℤ → ℕ → Venue Num × ℕ → Option (ℕ × Num) → Option (ℕ × Num)
  consider s limit i (v, out) best =
      if (out == 0) && eligible s limit v
      then elim best [
        | none ↦ some (i, all_in s v)
        | some (b, price) ↦
            if cheaper s (all_in s v) price then some (i, all_in s v) else some (b, price)
      ]
      else best

  -- The selection over the venues from number `i` on.
  unfoldable pub pick : Side → ℤ → ℕ → List (Venue Num × ℕ) → Option (ℕ × Num) → Option (ℕ × Num)
  unfolding consider
  pick s limit i [] best = best
  pick s limit i (p ∷ ps) best = pick s limit (suc i) ps (consider s limit i p best)

  -- What a chosen venue takes.
  abbrev pub take_at : Side → ℕ → ℕ → List (Venue Num × ℕ) → List (Venue Num × ℕ) × ℕ
  take_at s remaining i ps = elim (get_elem? ps i) [
    | none ↦ (ps, remaining)
    | some (v, out) ↦ let taken = min remaining (sz s v) in (set ps i (v, taken), remaining - taken)
  ]

  -- The `while` loop, at most `fuel` rounds.
  unfoldable pub sweep : ℕ → Side → ℤ → ℕ → List (Venue Num × ℕ) → List (Venue Num × ℕ) × ℕ
  unfolding pick
  sweep zero s limit remaining ps = (ps, remaining)
  sweep (suc fuel) s limit remaining ps = elim (ltb 0 remaining) [
    | false ↦ (ps, remaining)
    | true ↦ elim (pick s limit 0 ps none) [
      | none ↦ (ps, remaining)
      | some (b, price) ↦
          let (ps', remaining') = take_at s remaining b ps in sweep fuel s limit remaining' ps'
    ]
  ]

  -- `route`: the venues with their quantities, and the total that was routed.
  unfoldable pub route : HftSor Num → Side → ℕ → ℤ → HftSor Num × List (Venue Num × ℕ) × ℕ
  unfolding sweep
  route r s quantity limit =
      let (ps, remaining) = sweep (length r.venues) s limit quantity (map (λ v. (v, 0)) r.venues) in
      (record r { route_count = r.route_count + 1 }, ps, quantity - remaining)
