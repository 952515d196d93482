-- ===== src/Scorecard/State.antt =====
-- src/quantfinlib/execution/venue_scorecard.py: the state that is written is the state that is
-- read.
use quant_finance_py.Prelude.{
  ℕ, ◌*◌, ◌≡◌, refl, ap, sym, subst, ◌∙◌, Option, some, List, ◌++◌, length, replicate,
}
use mathlib.Core.List.{append_assoc}
use quant_finance_py.Prelude.Int.{ℤ, pos}
use quant_finance_py.Prelude.Maybe.{◌>>=◌, >>=-some}
use quant_finance_py.Prelude.Double.{Double}
use quant_finance_py.Checkpoint.{
  write_byte, write_long, read_byte, read_long, write_longs, read_longs_into,
}
use quant_finance_py.Checkpoint.Fields.{Matches, Matches-signed, Matches-double, array}
use quant_finance_py.Scorecard.{
  VenueScorecard, pending_ring, write_num, read_num, write_nums, read_nums, write_state,
  read_markouts, read_state,
}

-- The learned arrays have an entry for each venue.
pub record IsSized {F : Type 0} (c : VenueScorecard F) : Type 0 where
  pub size_sent : length c.sent ≡ c.venue_count
  pub size_filled : length c.filled ≡ c.venue_count
  pub size_probes : length c.probes ≡ c.venue_count
  pub size_rates : length c.fill_rate_ewma ≡ c.venue_count
  pub size_latencies : length c.latency_nanos_ewma ≡ c.venue_count
  pub size_hidden : length c.hidden_fill_ewma ≡ c.venue_count
  pub size_markouts : length c.markout_ewma ≡ c.venue_count
  pub size_counts : length c.markout_count ≡ c.venue_count

-- What is learned of one card in another, where no markout is pending.
abbrev pub restored : {F : Type 0} → VenueScorecard F → VenueScorecard F → VenueScorecard F
restored c other = record other {
  sent = c.sent;
  filled = c.filled;
  probes = c.probes;
  fill_rate_ewma = c.fill_rate_ewma;
  latency_nanos_ewma = c.latency_nanos_ewma;
  hidden_fill_ewma = c.hidden_fill_ewma;
  markout_ewma = c.markout_ewma;
  markout_count = c.markout_count;
  matured_fill_markouts = c.matured_fill_markouts;
  pending_side = replicate (other.venue_count * pending_ring) (pos 0);
  pending_cursor = replicate other.venue_count 0;
  pending_count = pos 0;
}

moved : (b b' y r : List ℕ) → b' ≡ b ++ y → b' ++ r ≡ b ++ (y ++ r)
moved b b' y r is = ap (λ xs. xs ++ r) is ∙ append_assoc b y r

module _ (d : Double) (bits : d.Num → ℕ) (of_bits : ℕ → d.Num) where
  open d use {Num}

  read_steps :
      (c other : VenueScorecard Num) (r0 r1 r2 r3 r4 r5 r6 r7 r8 r9 r : List ℕ)
      → read_byte r0 ≡ some (pos 2, r1)
      → read_longs_into other.venue_count r1 ≡ some (c.sent, r2)
      → read_longs_into other.venue_count r2 ≡ some (c.filled, r3)
      → read_longs_into other.venue_count r3 ≡ some (c.probes, r4)
      → read_nums d bits of_bits other.venue_count r4 ≡ some (c.fill_rate_ewma, r5)
      → read_nums d bits of_bits other.venue_count r5 ≡ some (c.latency_nanos_ewma, r6)
      → read_nums d bits of_bits other.venue_count r6 ≡ some (c.hidden_fill_ewma, r7)
      → read_nums d bits of_bits other.venue_count r7 ≡ some (c.markout_ewma, r8)
      → read_longs_into other.venue_count r8 ≡ some (c.markout_count, r9)
      → read_long r9 ≡ some (c.matured_fill_markouts, r)
      → read_state d bits of_bits other r0 ≡ some (restored c other, r)
  unfolding read_state
  read_steps c other r0 r1 r2 r3 r4 r5 r6 r7 r8 r9 r h1 h2 h3 h4 h5 h6 h7 h8 h9 h10 =
      let tail : read_markouts d bits of_bits (pos 2) other.venue_count r7
          ≡ some ((c.markout_ewma, c.markout_count, c.matured_fill_markouts), r) =
        (unfold read_markouts in rw (h8, h9, h10) refl) in
      rw (h1, h2, h3, h4, h5, h6, h7, tail, read_state) refl

  -- A field is read, and the reads behind it succeed.
  abbrev Next {ℓ} :
      {A : Type ℓ} → (List ℕ → Option (A × List ℕ)) → A → (List ℕ → Type ℓ) → List ℕ → Type ℓ
  Next next x P q = (q' : List ℕ) × (next q ≡ some (x, q')) × P q'

  abbrev Rest {ℓ} : List ℕ → List ℕ → List ℕ → (List ℕ → Type ℓ) → Type ℓ
  Rest b b10 r P = (q : List ℕ) × (b10 ++ r ≡ b ++ q) × P q

  -- A field that matches, before others that do.
  stage :
      {A : Type 0} (o : Option (List ℕ)) (after : List ℕ → Option (List ℕ)) (b b10 r : List ℕ)
      (next : List ℕ → Option (A × List ℕ)) (x : A)
      → ((b' : List ℕ)
          → o ≡ some b'
          → (y : List ℕ) × (b' ≡ b ++ y) × ((q : List ℕ) → next (y ++ q) ≡ some (x, q)))
      → (P : List ℕ → Type 0) → ((b' : List ℕ) → after b' ≡ some b10 → Rest b' b10 r P)
      → (o >>= after) ≡ some b10
      → Rest b b10 r (Next next x P)
  stage o after b b10 r next x fits P rest h =
      let (b', w, k) = >>=-some o after b10 h in
      let (y, is, reads) = fits b' w in
      let (q, e, p) = rest b' k in (y ++ q, e ∙ moved b b' y q is, (q, reads q, p))

  module _ (exact : (x : Num) → of_bits (bits x) ≡ x) where
    Matches-num : Matches (write_num d bits of_bits) (read_num d bits of_bits)
    Matches-num x buf buf' h =
        let (y, is, reads) = Matches-double (bits x) buf buf' h in
        (y, is, λ r. rw (reads r, exact x) refl)

    longs :
        (n : ℕ) (xs : List ℤ) (buf buf' : List ℕ)
        → length xs ≡ n
        → write_longs buf xs ≡ some buf'
        → (y : List ℕ) × (buf' ≡ buf ++ y)
          × ((r : List ℕ) → read_longs_into n (y ++ r) ≡ some (xs, r))
    longs n xs buf buf' size h =
        let (y, is, reads) = array write_long read_long (Matches-signed 8) xs buf buf' h in
        (y, is, subst (λ k. (r : List ℕ) → read_longs_into k (y ++ r) ≡ some (xs, r)) size reads)

    nums :
        (n : ℕ) (xs : List Num) (buf buf' : List ℕ)
        → length xs ≡ n
        → write_nums d bits of_bits buf xs ≡ some buf'
        → (y : List ℕ) × (buf' ≡ buf ++ y)
          × ((r : List ℕ) → read_nums d bits of_bits n (y ++ r) ≡ some (xs, r))
    nums n xs buf buf' size h =
        let (y, is, reads) =
          array (write_num d bits of_bits) (read_num d bits of_bits) Matches-num xs buf buf' h in
        (
          y,
          is,
          subst (λ k. (r : List ℕ) → read_nums d bits of_bits k (y ++ r) ≡ some (xs, r)) size reads,
        )

    module _ (c : VenueScorecard Num) (n : ℕ) (sized : IsSized c) (same : n ≡ c.venue_count)
        (b10 r : List ℕ) where
      -- What is written behind each field, and what is read there.
      abbrev behind_counts : List ℕ → Option (List ℕ)
      behind_counts b = write_long b c.matured_fill_markouts

      abbrev ReadsBehindCounts : List ℕ → Type 0
      ReadsBehindCounts q = read_long q ≡ some (c.matured_fill_markouts, r)

      abbrev behind_markouts : List ℕ → Option (List ℕ)
      behind_markouts b = write_longs b c.markout_count >>= behind_counts

      abbrev ReadsBehindMarkouts : List ℕ → Type 0
      ReadsBehindMarkouts = Next (read_longs_into n) c.markout_count ReadsBehindCounts

      abbrev behind_hidden : List ℕ → Option (List ℕ)
      behind_hidden b = write_nums d bits of_bits b c.markout_ewma >>= behind_markouts

      abbrev ReadsBehindHidden : List ℕ → Type 0
      ReadsBehindHidden = Next (read_nums d bits of_bits n) c.markout_ewma ReadsBehindMarkouts

      abbrev behind_latencies : List ℕ → Option (List ℕ)
      behind_latencies b = write_nums d bits of_bits b c.hidden_fill_ewma >>= behind_hidden

      abbrev ReadsBehindLatencies : List ℕ → Type 0
      ReadsBehindLatencies = Next (read_nums d bits of_bits n) c.hidden_fill_ewma ReadsBehindHidden

      abbrev behind_rates : List ℕ → Option (List ℕ)
      behind_rates b = write_nums d bits of_bits b c.latency_nanos_ewma >>= behind_latencies

      abbrev ReadsBehindRates : List ℕ → Type 0
      ReadsBehindRates = Next (read_nums d bits of_bits n) c.latency_nanos_ewma ReadsBehindLatencies

      abbrev behind_probes : List ℕ → Option (List ℕ)
      behind_probes b = write_nums d bits of_bits b c.fill_rate_ewma >>= behind_rates

      abbrev ReadsBehindProbes : List ℕ → Type 0
      ReadsBehindProbes = Next (read_nums d bits of_bits n) c.fill_rate_ewma ReadsBehindRates

      abbrev behind_filled : List ℕ → Option (List ℕ)
      behind_filled b = write_longs b c.probes >>= behind_probes

      abbrev ReadsBehindFilled : List ℕ → Type 0
      ReadsBehindFilled = Next (read_longs_into n) c.probes ReadsBehindProbes

      abbrev behind_sent : List ℕ → Option (List ℕ)
      behind_sent b = write_longs b c.filled >>= behind_filled

      abbrev ReadsBehindSent : List ℕ → Type 0
      ReadsBehindSent = Next (read_longs_into n) c.filled ReadsBehindFilled

      abbrev behind_version : List ℕ → Option (List ℕ)
      behind_version b = write_longs b c.sent >>= behind_sent

      abbrev ReadsBehindVersion : List ℕ → Type 0
      ReadsBehindVersion = Next (read_longs_into n) c.sent ReadsBehindSent

      rest_counts : (b : List ℕ) → behind_counts b ≡ some b10 → Rest b b10 r ReadsBehindCounts
      rest_counts b h =
          let (y, is, reads) = Matches-signed 8 c.matured_fill_markouts b b10 h in
          (y ++ r, moved b b10 y r is, reads r)

      rest_markouts : (b : List ℕ) → behind_markouts b ≡ some b10 → Rest b b10 r ReadsBehindMarkouts
      rest_markouts b h =
          stage (write_longs b c.markout_count) behind_counts b b10 r (read_longs_into n)
            c.markout_count (λ b' e. longs n c.markout_count b b' (sized.size_counts ∙ sym same) e)
            ReadsBehindCounts rest_counts h

      rest_hidden : (b : List ℕ) → behind_hidden b ≡ some b10 → Rest b b10 r ReadsBehindHidden
      rest_hidden b h =
          stage (write_nums d bits of_bits b c.markout_ewma) behind_markouts b b10 r
            (read_nums d bits of_bits n) c.markout_ewma
            (λ b' e. nums n c.markout_ewma b b' (sized.size_markouts ∙ sym same) e)
            ReadsBehindMarkouts rest_markouts h

      rest_latencies :
          (b : List ℕ) → behind_latencies b ≡ some b10 → Rest b b10 r ReadsBehindLatencies
      rest_latencies b h =
          stage (write_nums d bits of_bits b c.hidden_fill_ewma) behind_hidden b b10 r
            (read_nums d bits of_bits n) c.hidden_fill_ewma
            (λ b' e. nums n c.hidden_fill_ewma b b' (sized.size_hidden ∙ sym same) e)
            ReadsBehindHidden rest_hidden h

      rest_rates : (b : List ℕ) → behind_rates b ≡ some b10 → Rest b b10 r ReadsBehindRates
      rest_rates b h =
          stage (write_nums d bits of_bits b c.latency_nanos_ewma) behind_latencies b b10 r
            (read_nums d bits of_bits n) c.latency_nanos_ewma
            (λ b' e. nums n c.latency_nanos_ewma b b' (sized.size_latencies ∙ sym same) e)
            ReadsBehindLatencies rest_latencies h

      rest_probes : (b : List ℕ) → behind_probes b ≡ some b10 → Rest b b10 r ReadsBehindProbes
      rest_probes b h =
          stage (write_nums d bits of_bits b c.fill_rate_ewma) behind_rates b b10 r
            (read_nums d bits of_bits n) c.fill_rate_ewma
            (λ b' e. nums n c.fill_rate_ewma b b' (sized.size_rates ∙ sym same) e) ReadsBehindRates
            rest_rates h

      rest_filled : (b : List ℕ) → behind_filled b ≡ some b10 → Rest b b10 r ReadsBehindFilled
      rest_filled b h =
          stage (write_longs b c.probes) behind_probes b b10 r (read_longs_into n) c.probes
            (λ b' e. longs n c.probes b b' (sized.size_probes ∙ sym same) e) ReadsBehindProbes
            rest_probes h

      rest_sent : (b : List ℕ) → behind_sent b ≡ some b10 → Rest b b10 r ReadsBehindSent
      rest_sent b h =
          stage (write_longs b c.filled) behind_filled b b10 r (read_longs_into n) c.filled
            (λ b' e. longs n c.filled b b' (sized.size_filled ∙ sym same) e) ReadsBehindFilled
            rest_filled h

      rest_version : (b : List ℕ) → behind_version b ≡ some b10 → Rest b b10 r ReadsBehindVersion
      rest_version b h =
          stage (write_longs b c.sent) behind_sent b b10 r (read_longs_into n) c.sent
            (λ b' e. longs n c.sent b b' (sized.size_sent ∙ sym same) e) ReadsBehindSent rest_sent h

    -- A card whose learned arrays have an entry for each venue, and that writes its state behind
    -- some bytes, is read back from there into any card of as many venues: what was learned is
    -- restored, no markout is pending, and the bytes behind the state remain. A number is what its
    -- bits are read as.
    pub read_state-write_state :
        (c other : VenueScorecard Num) (b0 b10 r : List ℕ)
        → IsSized c
        → other.venue_count ≡ c.venue_count
        → write_state d bits of_bits c b0 ≡ some b10
        → (r0 : List ℕ) × (b10 ++ r ≡ b0 ++ r0)
          × (read_state d bits of_bits other r0 ≡ some (restored c other, r))
    unfolding write_state
    read_state-write_state c other b0 b10 r sized same h =
        let n = other.venue_count in
        let (
          r0,
          is,
          (
            r1,
            h1,
            (r2, h2, (r3, h3, (r4, h4, (r5, h5, (r6, h6, (r7, h7, (r8, h8, (r9, h9, h10)))))))),
          ),
        ) =
          stage (write_byte b0 (pos 2)) (behind_version c n sized same b10 r) b0 b10 r read_byte
            (pos 2) (λ b' e. Matches-signed 1 (pos 2) b0 b' e)
            (ReadsBehindVersion c n sized same b10 r) (rest_version c n sized same b10 r) h in
        (r0, is, read_steps c other r0 r1 r2 r3 r4 r5 r6 r7 r8 r9 r h1 h2 h3 h4 h5 h6 h7 h8 h9 h10)
