-- ===== src/Scorecard/Events.antt =====
-- src/quantfinlib/execution/venue_scorecard.py: the pending markouts of a card under any events.
use quant_finance_py.Prelude.{
  ℕ, zero, suc, ◌+◌, ◌*◌, ◌≤◌, ◌<◌, ◌≡◌, refl, ap, sym, subst, ◌∙◌, Bool, true, false, Option, none,
  some, List, [], ◌∷◌, if◌then◌else◌, length, get_elem?, replicate, arith, Bool-cases, inl, inr,
}
use quant_finance_py.Prelude.Int.{ℤ, pos, ◌==ℤ◌}
use quant_finance_py.Prelude.Maybe.{◌>>=◌, >>=-some, some-inj}
use quant_finance_py.Prelude.Double.{Double}
use quant_finance_py.Scorecard.{
  VenueScorecard, Markout, pending_ring, nought, new_card, empty_card, on_fill, on_miss, mature,
  mature_from, on_mid, on_dark_probe,
}
use quant_finance_py.Scorecard.Pending.{
  weight, armed, IsCounted, SamePending-IsCounted, count_child-SamePending, on_fill-IsCounted,
  on_mid-IsCounted, on_dark_probe-IsCounted,
}

-- A call that changes the card.
pub data Event (F : Type 0) : Type 0 where
  filled : ℕ → F → Option (Markout F) → Event F
  missed : ℕ → F → Event F
  moved : F → ℤ → Event F
  probed : ℕ → ℤ → Event F

get_some {ℓ} :
    {A : Type ℓ} (xs : List A) (i : ℕ) → i < length xs → (x : A) × (get_elem? xs i ≡ some x)
get_some [] i h = absurd (omega arith)
get_some (x ∷ xs) zero h = (x, refl)
get_some (x ∷ xs) (suc i) h = get_some xs i (omega arith)

weight-armed : (xs : List ℤ) (i : ℕ) (s : ℤ) → get_elem? xs i ≡ some s → weight s ≤ armed xs
weight-armed [] i s h = cc
weight-armed (x ∷ xs) zero s h = let w = ap weight (some-inj x s h) in omega arith
weight-armed (x ∷ xs) (suc i) s h = let rest = weight-armed xs i s h in omega arith

armed-replicate : (n : ℕ) → armed (replicate n (pos 0)) ≡ 0
armed-replicate zero = refl
armed-replicate (suc n) = let rest = armed-replicate n in omega arith

module _ (d : Double) where
  open d use {Num, finite}

  abbrev pub apply : Event Num → VenueScorecard Num → Option (VenueScorecard Num)
  apply (filled venue x markout) c = on_fill d venue x markout c
  apply (missed venue x) c = on_miss d venue x c
  apply (moved mid now) c = on_mid d mid now c
  apply (probed venue shares) c = on_dark_probe d venue shares c

  abbrev pub run : List (Event Num) → VenueScorecard Num → Option (VenueScorecard Num)
  run [] c = some c
  run (e ∷ es) c = do c1 ← apply e c; run es c1

  apply-IsCounted :
      (e : Event Num) (c c' : VenueScorecard Num) → apply e c ≡ some c' → IsCounted c → IsCounted c'
  apply-IsCounted (filled venue x markout) c c' h k = on_fill-IsCounted d venue x markout c c' h k
  apply-IsCounted (missed venue x) c c' h k =
      SamePending-IsCounted d c c'
        (count_child-SamePending d venue x (nought d) c c' (unfold on_miss in h)) k
  apply-IsCounted (moved mid now) c c' h k = on_mid-IsCounted d mid now c c' h k
  apply-IsCounted (probed venue shares) c c' h k = on_dark_probe-IsCounted d venue shares c c' h k

  run_keeps-IsCounted :
      (es : List (Event Num)) (c c' : VenueScorecard Num)
      → run es c ≡ some c'
      → IsCounted c
      → IsCounted c'
  run_keeps-IsCounted [] c c' h k = subst IsCounted (some-inj c c' h) k
  run_keeps-IsCounted (e ∷ es) c c' h k =
      let (c1, first, rest) = >>=-some (apply e c) (run es) c' h in
      run_keeps-IsCounted es c1 c' rest (apply-IsCounted e c c1 first k)

  -- After any events of a new card that raise nothing, the count of pending markouts is the number
  -- of slots that are armed.
  pub run-IsCounted :
      (venues : ℕ) (alpha prior : Num) (horizon : ℤ) (es : List (Event Num))
      (c c' : VenueScorecard Num)
      → new_card d venues alpha prior horizon ≡ some c
      → run es c ≡ some c'
      → IsCounted c'
  unfolding new_card
  run-IsCounted venues alpha prior horizon es c c' h k = run_keeps-IsCounted es c c' k (fresh _ h)
    where
      fresh :
          (b : Bool)
          → (if b then none else some (empty_card d venues alpha prior horizon)) ≡ some c
          → IsCounted c
      fresh true e = absurd (let bad : none ≡ some c = e in cc)
      fresh false e =
          subst IsCounted (some-inj _ c e) (ap pos (sym (armed-replicate (venues * pending_ring))))

  mature_idle :
      (mid : Num) (now : ℤ) (slot : ℕ) (c : VenueScorecard Num)
      → armed c.pending_side ≡ 0
      → slot < length c.pending_side
      → slot < length c.pending_ts
      → mature d mid now slot c ≡ some c
  unfolding mature
  mature_idle mid now slot c idle h k =
      let (side, at) = get_some c.pending_side slot h in
      let (ts, at') = get_some c.pending_ts slot k in
      let low = weight-armed c.pending_side slot side at in
      let empty : (side ==ℤ pos 0) ≡ true = elim (Bool-cases (side ==ℤ pos 0)) [
        | inl e ↦ e
        | inr e ↦ absurd (let full : weight side ≡ 1 = rw (e, weight) refl in omega arith)
      ] in
      rw (at, at', empty, mature) refl

  mature_from_idle :
      (mid : Num) (now : ℤ) (slot n : ℕ) (c : VenueScorecard Num)
      → armed c.pending_side ≡ 0
      → slot + n ≤ length c.pending_side
      → slot + n ≤ length c.pending_ts
      → mature_from d mid now slot n c ≡ some c
  unfolding mature_from
  mature_from_idle mid now slot zero c idle h k = refl
  mature_from_idle mid now slot (suc n) c idle h k =
      rw (mature_idle mid now slot c idle (omega arith) (omega arith))
        (mature_from_idle mid now (suc slot) n c idle (omega arith) (omega arith))

  -- For a card whose count is that of its armed slots and which has all its slots, a finite mid
  -- scans every slot: the early exit at a count of zero changes nothing.
  pub on_mid-mature_from :
      (mid : Num) (now : ℤ) (c : VenueScorecard Num)
      → IsCounted c
      → length c.pending_side ≡ c.venue_count * pending_ring
      → length c.pending_ts ≡ c.venue_count * pending_ring
      → finite mid ≡ true
      → on_mid d mid now c ≡ mature_from d mid now 0 (c.venue_count * pending_ring) c
  unfolding on_mid
  on_mid-mature_from mid now c h sides times ok = elim (Bool-cases (c.pending_count ==ℤ pos 0)) [
    | inr e ↦ rw (e, ok, on_mid) refl
    | inl e ↦
        (let idle : armed c.pending_side ≡ 0 =
            (let none_left : (pos (armed c.pending_side) ==ℤ pos 0) ≡ true =
                ap (λ n. n ==ℤ pos 0) (sym h) ∙ e in
              ground arith) in
          rw (e, on_mid)
            (sym (
              mature_from_idle mid now 0 (c.venue_count * pending_ring) c idle (omega arith)
                (omega arith))))
  ]
