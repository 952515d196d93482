-- ===== src/Scorecard/Pending.antt =====
-- src/quantfinlib/execution/venue_scorecard.py: the count of pending markouts.
use quant_finance_py.Prelude.{
  ℕ, zero, suc, ◌+◌, ◌*◌, ◌/◌, ◌%◌, ◌≡◌, refl, ap, sym, ◌∙◌, Bool, true, false, not, ◌||◌, Option,
  none, some, List, [], ◌∷◌, if◌then◌else◌, set, get_elem?, arith, Bool-cases, inl, inr,
}
use quant_finance_py.Prelude.Int.{ℤ, pos, negsuc, ◌+ℤ◌, ◌-ℤ◌, ◌==ℤ◌}
use quant_finance_py.Prelude.Maybe.{>>=-some, some-inj}
use quant_finance_py.Prelude.Double.{Double}
use quant_finance_py.Scorecard.{
  VenueScorecard, Markout, pending_ring, one, blend, increment, seed_on_first_event, count_child,
  arm, on_fill, mature_due, is_due, mature, mature_from, on_mid, on_dark_probe,
}

abbrev pub weight : ℤ → ℕ
weight s = if s ==ℤ pos 0 then 0 else 1

-- The number of armed slots.
abbrev pub armed : List ℤ → ℕ
armed [] = 0
armed (s ∷ ss) = weight s + armed ss

armed-set :
    (xs : List ℤ) (i : ℕ) (s v : ℤ)
    → get_elem? xs i ≡ some s
    → armed (set xs i v) + weight s ≡ armed xs + weight v
armed-set [] i s v h = cc
armed-set (x ∷ xs) zero s v h = let same = some-inj x s h in let w = ap weight same in omega arith
armed-set (x ∷ xs) (suc i) s v h = let rest = armed-set xs i s v h in omega arith

count_up :
    (sides : List ℤ) (slot : ℕ) (side v count : ℤ)
    → get_elem? sides slot ≡ some side
    → weight v ≡ 1
    → count ≡ pos (armed sides)
    → (if side ==ℤ pos 0 then count +ℤ pos 1 else count) ≡ pos (armed (set sides slot v))
unfolding ◌+ℤ◌
count_up sides slot side v count at w h =
    let sum = armed-set sides slot side v at in
    elim (Bool-cases (side ==ℤ pos 0)) [
      | inl e ↦
          (let none_there : weight side ≡ 0 = rw (e, weight) refl in
            rw e (ap (λ n. n +ℤ pos 1) h ∙ (ground arith)))
      | inr e ↦
          (let one_there : weight side ≡ 1 = rw (e, weight) refl in rw e (h ∙ ap pos (omega arith)))
    ]

count_down :
    (sides : List ℤ) (slot : ℕ) (side count : ℤ)
    → get_elem? sides slot ≡ some side
    → (side ==ℤ pos 0) ≡ false
    → count ≡ pos (armed sides)
    → count -ℤ pos 1 ≡ pos (armed (set sides slot (pos 0)))
unfolding ◌-ℤ◌
count_down sides slot side count at e h =
    let sum = armed-set sides slot side (pos 0) at in
    let one_there : weight side ≡ 1 = rw (e, weight) refl in ap (λ n. n -ℤ pos 1) h ∙ (ground arith)

-- The count is that of the armed slots.
abbrev pub IsCounted : {F : Type 0} → VenueScorecard F → Type 0
IsCounted c = c.pending_count ≡ pos (armed c.pending_side)

module _ (d : Double) where
  open d use {Num, finite}

  -- What leaves the pending markouts.
  abbrev SamePending : VenueScorecard Num → VenueScorecard Num → Type 0
  SamePending c c' = (c'.pending_count ≡ c.pending_count) × (c'.pending_side ≡ c.pending_side)

  pub SamePending-IsCounted :
      (c c' : VenueScorecard Num) → SamePending c c' → IsCounted c → IsCounted c'
  SamePending-IsCounted c c' (n, sides) h = n ∙ h ∙ ap (λ ss. pos (armed ss)) (sym sides)

  made-SamePending : (z c' : VenueScorecard Num) → some z ≡ some c' → SamePending z c'
  made-SamePending z c' h =
      let same = some-inj z c' h in
      (
        ap (λ (y : VenueScorecard Num). y.pending_count) (sym same),
        ap (λ (y : VenueScorecard Num). y.pending_side) (sym same),
      )

  seed-SamePending :
      (venue : ℕ) (x : Num) (c c' : VenueScorecard Num)
      → seed_on_first_event d venue x c ≡ some c'
      → SamePending c c'
  unfolding seed_on_first_event
  seed-SamePending venue x c c' h =
      let (n, at, made) = >>=-some (get_elem? c.sent venue) _ c' h in
      elim (Bool-cases (n ==ℤ pos 0)) [
        | inl k ↦
            (let is : some (record c {
              fill_rate_ewma = set c.fill_rate_ewma venue c.fill_rate_prior;
              latency_nanos_ewma = set c.latency_nanos_ewma venue x;
            })
                  ≡ some c' =
                rw k at made in
              made-SamePending
                (record c {
                  fill_rate_ewma = set c.fill_rate_ewma venue c.fill_rate_prior;
                  latency_nanos_ewma = set c.latency_nanos_ewma venue x;
                })
                c' is)
        | inr k ↦ (let is : some c ≡ some c' = rw k at made in made-SamePending c c' is)
      ]

  pub count_child-SamePending :
      (venue : ℕ) (x hit : Num) (c c' : VenueScorecard Num)
      → count_child d venue x hit c ≡ some c'
      → SamePending c c'
  unfolding count_child
  count_child-SamePending venue x hit c c' h =
      let (c1, seeded, k1) = >>=-some (seed_on_first_event d venue x c) _ c' h in
      let (sent, at, k2) = >>=-some (increment d venue c1.sent) _ c' k1 in
      let (rates, at', k3) = >>=-some (blend d c1.alpha venue hit c1.fill_rate_ewma) _ c' k2 in
      let (latencies, at'', made) =
        >>=-some (blend d c1.alpha venue x c1.latency_nanos_ewma) _ c' k3 in
      let (n, sides) = seed-SamePending venue x c c1 seeded in
      let (n', sides') =
        made-SamePending
          (record c1 { sent = sent; fill_rate_ewma = rates; latency_nanos_ewma = latencies }) c'
          made in
      (n' ∙ n, sides' ∙ sides)

  -- A card that was made with a count and sides that fit.
  made-IsCounted : (z c' : VenueScorecard Num) → some z ≡ some c' → IsCounted z → IsCounted c'
  made-IsCounted z c' h k = SamePending-IsCounted z c' (made-SamePending z c' h) k

  arm-IsCounted :
      (venue : ℕ) (m : Markout Num) (c c' : VenueScorecard Num)
      → arm d venue m c ≡ some c'
      → IsCounted c
      → IsCounted c'
  unfolding arm
  arm-IsCounted venue m c c' h k =
      let (cursor, at, k1) = >>=-some (get_elem? c.pending_cursor venue) _ c' h in
      let slot = venue * pending_ring + cursor in
      let (side, at', made) = >>=-some (get_elem? c.pending_side slot) _ c' k1 in
      let v : ℤ = if m.buy then pos 1 else negsuc 0 in
      let full : weight v ≡ 1 = elim (Bool-cases m.buy) [ inl e ↦ rw e refl | inr e ↦ rw e refl ] in
      made-IsCounted
        (record c {
          pending_count = if side ==ℤ pos 0 then c.pending_count +ℤ pos 1 else c.pending_count;
          pending_side = set c.pending_side slot v;
          pending_mid = set c.pending_mid slot m.mid_at_fill;
          pending_ts = set c.pending_ts slot m.timestamp_nanos;
          pending_cursor = set c.pending_cursor venue ((cursor + 1) % pending_ring);
        })
        c' made (count_up c.pending_side slot side v c.pending_count at' full k)

  pub on_fill-IsCounted :
      (venue : ℕ) (x : Num) (markout : Option (Markout Num)) (c c' : VenueScorecard Num)
      → on_fill d venue x markout c ≡ some c'
      → IsCounted c
      → IsCounted c'
  unfolding on_fill
  on_fill-IsCounted venue x markout c c' h k =
      let (c1, counted, k1) = >>=-some (count_child d venue x (one d) c) _ c' h in
      let (filled, at, k2) = >>=-some (increment d venue c1.filled) _ c' k1 in
      let before : IsCounted c1 =
        SamePending-IsCounted c c1 (count_child-SamePending venue x (one d) c c1 counted) k in
      ends markout (record c1 { filled = filled }) k2 before
    where
      ends :
          (o : Option (Markout Num)) (c2 : VenueScorecard Num)
          → (elim o [
            | none ↦ some c2
            | some m ↦ if not (finite m.mid_at_fill) then some c2 else arm d venue m c2
          ])
            ≡ some c'
          → IsCounted c2
          → IsCounted c'
      ends none c2 e g = made-IsCounted c2 c' e g
      ends (some m) c2 e g = elim (Bool-cases (not (finite m.mid_at_fill))) [
        | inl b ↦ (let is : some c2 ≡ some c' = rw b at e in made-IsCounted c2 c' is g)
        | inr b ↦
            (let is : arm d venue m c2 ≡ some c' = rw b at e in arm-IsCounted venue m c2 c' is g)
      ]

  mature_due-IsCounted :
      (mid : Num) (slot : ℕ) (side : ℤ) (c c' : VenueScorecard Num)
      → mature_due d mid slot side c ≡ some c'
      → get_elem? c.pending_side slot ≡ some side
      → (side ==ℤ pos 0) ≡ false
      → IsCounted c
      → IsCounted c'
  unfolding mature_due
  mature_due-IsCounted mid slot side c c' h there full k =
      let (at, a, k1) = >>=-some (get_elem? c.pending_mid slot) _ c' h in
      let (n, b, k2) = >>=-some (get_elem? c.markout_count (slot / pending_ring)) _ c' k1 in
      let (ewma, e, made) =
        >>=-some
          (if n ==ℤ pos 0
            then some
                (set c.markout_ewma (slot / pending_ring) (d.times (d.of_ℤ side) (d.minus mid at)))
            else blend d c.alpha (slot / pending_ring) (d.times (d.of_ℤ side) (d.minus mid at))
                c.markout_ewma)
          _ c' k2 in
      made-IsCounted _ c' made (count_down c.pending_side slot side c.pending_count there full k)

  is_due-IsCounted :
      (mid : Num) (now : ℤ) (slot : ℕ) (side ts : ℤ) (c c' : VenueScorecard Num) (b : Bool)
      → is_due d c.markout_horizon_nanos now side ts ≡ b
      → (if b then mature_due d mid slot side c else some c) ≡ some c'
      → get_elem? c.pending_side slot ≡ some side
      → IsCounted c
      → IsCounted c'
  is_due-IsCounted mid now slot side ts c c' true e h there k = elim (Bool-cases (side ==ℤ pos 0)) [
    | inl z ↦ absurd (let bad : false ≡ true = rw z at e in cc)
    | inr z ↦ mature_due-IsCounted mid slot side c c' h there z k
  ]
  is_due-IsCounted mid now slot side ts c c' false e h there k = made-IsCounted c c' h k

  mature-IsCounted :
      (mid : Num) (now : ℤ) (slot : ℕ) (c c' : VenueScorecard Num)
      → mature d mid now slot c ≡ some c'
      → IsCounted c
      → IsCounted c'
  unfolding mature
  mature-IsCounted mid now slot c c' h k =
      let (side, at, k1) = >>=-some (get_elem? c.pending_side slot) _ c' h in
      let (ts, at', k2) = >>=-some (get_elem? c.pending_ts slot) _ c' k1 in
      is_due-IsCounted mid now slot side ts c c' _ refl k2 at k

  mature_from-IsCounted :
      (mid : Num) (now : ℤ) (slot n : ℕ) (c c' : VenueScorecard Num)
      → mature_from d mid now slot n c ≡ some c'
      → IsCounted c
      → IsCounted c'
  unfolding mature_from
  mature_from-IsCounted mid now slot zero c c' h k = made-IsCounted c c' h k
  mature_from-IsCounted mid now slot (suc n) c c' h k =
      let (c1, first, rest) = >>=-some (mature d mid now slot c) _ c' h in
      mature_from-IsCounted mid now (suc slot) n c1 c' rest
        (mature-IsCounted mid now slot c c1 first k)

  pub on_mid-IsCounted :
      (mid : Num) (now : ℤ) (c c' : VenueScorecard Num)
      → on_mid d mid now c ≡ some c'
      → IsCounted c
      → IsCounted c'
  unfolding on_mid
  on_mid-IsCounted mid now c c' h k =
      elim (Bool-cases ((c.pending_count ==ℤ pos 0) || not (finite mid))) [
        | inl e ↦ (let is : some c ≡ some c' = rw (e, on_mid) at h in made-IsCounted c c' is k)
        | inr e ↦
            (let is : mature_from d mid now 0 (c.venue_count * pending_ring) c ≡ some c' =
                rw (e, on_mid) at h in
              mature_from-IsCounted mid now 0 (c.venue_count * pending_ring) c c' is k)
      ]

  pub on_dark_probe-IsCounted :
      (venue : ℕ) (shares : ℤ) (c c' : VenueScorecard Num)
      → on_dark_probe d venue shares c ≡ some c'
      → IsCounted c
      → IsCounted c'
  unfolding on_dark_probe
  on_dark_probe-IsCounted venue shares c c' h k =
      let (n, at, k1) = >>=-some (get_elem? c.probes venue) _ c' h in
      let (hidden, at', k2) =
        >>=-some
          (if n ==ℤ pos 0
            then some (set c.hidden_fill_ewma venue (d.of_ℤ shares))
            else blend d c.alpha venue (d.of_ℤ shares) c.hidden_fill_ewma)
          _ c' k1 in
      let (probes, at'', made) = >>=-some (increment d venue c.probes) _ c' k2 in
      made-IsCounted (record c { hidden_fill_ewma = hidden; probes = probes }) c' made k
