-- ===== src/Scorecard.antt =====
-- src/quantfinlib/execution/venue_scorecard.py: `VenueScorecard`, the execution quality of venues.
-- Averages and mids are floating point; `bits` and `of_bits` are what `struct` makes of a number.
-- Counts are far from the bounds of their fields. An index that does not exist raises, as a failed
-- test does: `none`.
pub mod State
pub mod Pending
pub mod Events
mod Tests
use quant_finance_py.Prelude.{
  ℕ, zero, suc, ◌+◌, ◌*◌, ◌/◌, ◌%◌, Bool, true, false, not, ◌&&◌, ◌||◌, Option, none, some, List,
  [], ◌∷◌, ◌==◌, ltb, if◌then◌else◌, length, set, get_elem?, replicate,
}
use quant_finance_py.Prelude.Int.{ℤ, pos, negsuc, ◌+ℤ◌, ◌-ℤ◌, ◌==ℤ◌, ltb_ℤ, leb_ℤ}
use quant_finance_py.Prelude.Maybe.{◌>>=◌, require}
use quant_finance_py.Prelude.Double.{Double}
use quant_finance_py.Checkpoint.{
  write_byte, write_long, write_double, read_byte, read_long, read_double, write_longs,
  read_longs_into, write_array, read_array,
}

abbrev pub pending_ring : ℕ
pending_ring = 4

-- A pending side is 0 where the slot is empty, 1 for a buy and -1 for a sell.
pub record VenueScorecard (F : Type 0) : Type 0 where
  pub venue_count : ℕ
  pub alpha : F
  pub fill_rate_prior : F
  pub markout_horizon_nanos : ℤ
  pub sent : List ℤ
  pub filled : List ℤ
  pub fill_rate_ewma : List F
  pub latency_nanos_ewma : List F
  pub hidden_fill_ewma : List F
  pub probes : List ℤ
  pub markout_ewma : List F
  pub markout_count : List ℤ
  pub pending_side : List ℤ
  pub pending_mid : List F
  pub pending_ts : List ℤ
  pub pending_cursor : List ℕ
  pub pending_count : ℤ
  pub matured_fill_markouts : ℤ

-- What a fill tells when its markout is to be measured.
pub record Markout (F : Type 0) : Type 0 where
  pub buy : Bool
  pub mid_at_fill : F
  pub timestamp_nanos : ℤ

module _ (d : Double) where
  open d use {Num, of_ℤ, plus, minus, times, less, at_most, finite}

  abbrev pub nought : Num
  nought = of_ℤ (pos 0)

  abbrev pub one : Num
  one = of_ℤ (pos 1)

  abbrev pub empty_card : ℕ → Num → Num → ℤ → VenueScorecard Num
  empty_card venues alpha prior horizon = record {
    venue_count = venues;
    alpha = alpha;
    fill_rate_prior = prior;
    markout_horizon_nanos = horizon;
    sent = replicate venues (pos 0);
    filled = replicate venues (pos 0);
    fill_rate_ewma = replicate venues nought;
    latency_nanos_ewma = replicate venues nought;
    hidden_fill_ewma = replicate venues nought;
    probes = replicate venues (pos 0);
    markout_ewma = replicate venues nought;
    markout_count = replicate venues (pos 0);
    pending_side = replicate (venues * pending_ring) (pos 0);
    pending_mid = replicate (venues * pending_ring) nought;
    pending_ts = replicate (venues * pending_ring) (pos 0);
    pending_cursor = replicate venues 0;
    pending_count = pos 0;
    matured_fill_markouts = pos 0;
  }

  unfoldable pub new_card : ℕ → Num → Num → ℤ → Option (VenueScorecard Num)
  new_card venues alpha prior horizon =
      if ltb venues 1
        || (at_most alpha nought
            || (less one alpha
                || (at_most prior nought || (less one prior || leb_ℤ horizon (pos 0)))))
      then none
      else some (empty_card venues alpha prior horizon)

  -- `xs[i] += alpha * (x - xs[i])`.
  unfoldable pub blend : Num → ℕ → Num → List Num → Option (List Num)
  blend alpha i x xs = do
    old ← get_elem? xs i
    some (set xs i (plus old (times alpha (minus x old))))

  unfoldable pub increment : ℕ → List ℤ → Option (List ℤ)
  unfolding ◌+ℤ◌
  increment i xs = do old ← get_elem? xs i; some (set xs i (old +ℤ pos 1))

  unfoldable pub seed_on_first_event : ℕ → Num → VenueScorecard Num → Option (VenueScorecard Num)
  seed_on_first_event venue response c = do
    n ← get_elem? c.sent venue
    some (
        if n ==ℤ pos 0
        then record c {
          fill_rate_ewma = set c.fill_rate_ewma venue c.fill_rate_prior;
          latency_nanos_ewma = set c.latency_nanos_ewma venue response;
        }
        else c)

  -- A child that came back, filled (`hit` is 1) or not (0).
  unfoldable pub count_child : ℕ → Num → Num → VenueScorecard Num → Option (VenueScorecard Num)
  unfolding seed_on_first_event increment blend
  count_child venue response hit c = do
    c1 ← seed_on_first_event venue response c
    sent ← increment venue c1.sent
    rates ← blend c1.alpha venue hit c1.fill_rate_ewma
    latencies ← blend c1.alpha venue response c1.latency_nanos_ewma
    some (record c1 { sent = sent; fill_rate_ewma = rates; latency_nanos_ewma = latencies })

  -- A pending markout takes the next slot of its venue.
  unfoldable pub arm : ℕ → Markout Num → VenueScorecard Num → Option (VenueScorecard Num)
  unfolding ◌+ℤ◌
  arm venue m c = do
    cursor ← get_elem? c.pending_cursor venue
    let slot = venue * pending_ring + cursor in
        do
          side ← get_elem? c.pending_side slot
          some (record c {
            pending_count = if side ==ℤ pos 0 then c.pending_count +ℤ pos 1 else c.pending_count;
            pending_side = set c.pending_side slot (if m.buy then pos 1 else negsuc 0);
            pending_mid = set c.pending_mid slot m.mid_at_fill;
            pending_ts = set c.pending_ts slot m.timestamp_nanos;
            pending_cursor = set c.pending_cursor venue ((cursor + 1) % pending_ring);
          })

  unfoldable pub on_fill :
      ℕ → Num → Option (Markout Num) → VenueScorecard Num → Option (VenueScorecard Num)
  unfolding count_child increment arm
  on_fill venue response markout c = do
    c1 ← count_child venue response one c
    filled ← increment venue c1.filled
    let c2 = record c1 { filled = filled } in
        elim markout [
          | none ↦ some c2
          | some m ↦ if not (finite m.mid_at_fill) then some c2 else arm venue m c2
        ]

  unfoldable pub on_miss : ℕ → Num → VenueScorecard Num → Option (VenueScorecard Num)
  unfolding count_child
  on_miss venue response c = count_child venue response nought c

  -- A pending markout, of this side, whose horizon has elapsed.
  unfoldable pub mature_due : Num → ℕ → ℤ → VenueScorecard Num → Option (VenueScorecard Num)
  unfolding blend ◌+ℤ◌ ◌-ℤ◌
  mature_due mid slot side c = do
    at ← get_elem? c.pending_mid slot
    n ← get_elem? c.markout_count (slot / pending_ring)
    ewma ←
        (if n ==ℤ pos 0
          then some (set c.markout_ewma (slot / pending_ring) (times (of_ℤ side) (minus mid at)))
          else blend c.alpha (slot / pending_ring) (times (of_ℤ side) (minus mid at))
              c.markout_ewma)
    some (record c {
      markout_ewma = ewma;
      markout_count = set c.markout_count (slot / pending_ring) (n +ℤ pos 1);
      pending_side = set c.pending_side slot (pos 0);
      pending_count = c.pending_count -ℤ pos 1;
      matured_fill_markouts = c.matured_fill_markouts +ℤ pos 1;
    })

  abbrev pub is_due : ℤ → ℤ → ℤ → ℤ → Bool
  is_due horizon now side ts = not (side ==ℤ pos 0) && leb_ℤ horizon (now -ℤ ts)

  -- The loop of `on_mid`, one slot.
  unfoldable pub mature : Num → ℤ → ℕ → VenueScorecard Num → Option (VenueScorecard Num)
  unfolding mature_due ◌-ℤ◌
  mature mid now slot c = do
    side ← get_elem? c.pending_side slot
    ts ← get_elem? c.pending_ts slot
    if is_due c.markout_horizon_nanos now side ts then mature_due mid slot side c else some c

  unfoldable pub mature_from : Num → ℤ → ℕ → ℕ → VenueScorecard Num → Option (VenueScorecard Num)
  unfolding mature
  mature_from mid now slot zero c = some c
  mature_from mid now slot (suc k) c = do
    c1 ← mature mid now slot c
    mature_from mid now (suc slot) k c1

  unfoldable pub on_mid : Num → ℤ → VenueScorecard Num → Option (VenueScorecard Num)
  unfolding mature_from
  on_mid mid now c =
      if (c.pending_count ==ℤ pos 0) || not (finite mid)
      then some c
      else mature_from mid now 0 (c.venue_count * pending_ring) c

  unfoldable pub on_dark_probe : ℕ → ℤ → VenueScorecard Num → Option (VenueScorecard Num)
  unfolding blend increment
  on_dark_probe venue shares c = do
    n ← get_elem? c.probes venue
    hidden ←
        (if n ==ℤ pos 0
          then some (set c.hidden_fill_ewma venue (of_ℤ shares))
          else blend c.alpha venue (of_ℤ shares) c.hidden_fill_ewma)
    probes ← increment venue c.probes
    some (record c { hidden_fill_ewma = hidden; probes = probes })

  unfoldable pub fill_rate : ℕ → VenueScorecard Num → Option Num
  fill_rate venue c = do
    n ← get_elem? c.sent venue
    rate ← get_elem? c.fill_rate_ewma venue
    some (if n ==ℤ pos 0 then c.fill_rate_prior else rate)

  module _ (bits : Num → ℕ) (of_bits : ℕ → Num) where
    abbrev pub write_num : List ℕ → Num → Option (List ℕ)
    write_num buf x = write_double buf (bits x)

    abbrev pub read_num : List ℕ → Option (Num × List ℕ)
    read_num r = do p ← read_double r; some (of_bits p.0, p.1)

    abbrev pub write_nums : List ℕ → List Num → Option (List ℕ)
    write_nums = write_array write_num

    abbrev pub read_nums : ℕ → List ℕ → Option (List Num × List ℕ)
    read_nums = read_array read_num

    unfoldable pub write_state : VenueScorecard Num → List ℕ → Option (List ℕ)
    unfolding write_array write_double
    write_state c b0 = do
      b1 ← write_byte b0 (pos 2)
      b2 ← write_longs b1 c.sent
      b3 ← write_longs b2 c.filled
      b4 ← write_longs b3 c.probes
      b5 ← write_nums b4 c.fill_rate_ewma
      b6 ← write_nums b5 c.latency_nanos_ewma
      b7 ← write_nums b6 c.hidden_fill_ewma
      b8 ← write_nums b7 c.markout_ewma
      b9 ← write_longs b8 c.markout_count
      write_long b9 c.matured_fill_markouts

    -- The markouts of a state, which version 1 does not have.
    unfoldable pub read_markouts : ℤ → ℕ → List ℕ → Option ((List Num × List ℤ × ℤ) × List ℕ)
    unfolding read_array
    read_markouts version n r =
        if leb_ℤ (pos 2) version
        then (do
          ewma ← read_nums n r
          counts ← read_longs_into n ewma.1
          matured ← read_long counts.1
          some ((ewma.0, counts.0, matured.0), matured.1))
        else some ((replicate n nought, replicate n (pos 0), pos 0), r)

    -- `read_state` into a card: the restored card and the bytes that remain.
    unfoldable pub read_state : VenueScorecard Num → List ℕ → Option (VenueScorecard Num × List ℕ)
    unfolding read_array read_markouts
    read_state c r = do
      v ← read_byte r
      let n = c.venue_count in
          require ((v.0 ==ℤ pos 1) || (v.0 ==ℤ pos 2)) (do
            sent ← read_longs_into n v.1
            filled ← read_longs_into n sent.1
            probes ← read_longs_into n filled.1
            rates ← read_nums n probes.1
            latencies ← read_nums n rates.1
            hidden ← read_nums n latencies.1
            m ← read_markouts v.0 n hidden.1
            some (
              record c {
                sent = sent.0;
                filled = filled.0;
                probes = probes.0;
                fill_rate_ewma = rates.0;
                latency_nanos_ewma = latencies.0;
                hidden_fill_ewma = hidden.0;
                markout_ewma = m.0.0;
                markout_count = m.0.1;
                matured_fill_markouts = m.0.2;
                pending_side = replicate (n * pending_ring) (pos 0);
                pending_cursor = replicate n 0;
                pending_count = pos 0;
              },
              m.1,
            ))
