-- ===== src/Nbbo/FastPath.antt =====
-- The fast path of `on_venue_quote` leaves out a scan that would have changed nothing.
use quant_finance_py.Prelude.{
  ℕ, zero, suc, ◌≡◌, refl, ◌∙◌, sym, Bool, true, false, not, ◌&&◌, ◌||◌, List, [], ◌∷◌, arith, set,
  Bool-cases, inl, inr, ◌⊎◌,
}
use quant_finance_py.Prelude.Int.{ℤ, ◌==ℤ◌, eq_of_parts}
use quant_finance_py.Execution.{Side, buy, sell}
use quant_finance_py.Nbbo.{
  Nbbo, VenueQuote, Inside, tick, absent, better, nothing, off_inside, publish, recompute, store,
  apply_quote,
}
use quant_finance_py.Nbbo.Join.{NoBetter, best, best-start, size_at, shows, scan-join_all}
use quant_finance_py.Nbbo.Consolidated.{consolidated, join_all-consolidated}

module _ (q' : VenueQuote) where
  best-set_le :
      (s : Side) (w p : ℤ) (i : ℕ) (qs : List VenueQuote)
      → NoBetter s (best s w qs) p
      → NoBetter s (tick s q') p
      → NoBetter s (best s w (set qs i q')) p
  unfolding best
  best-set_le s w p i [] h k = h
  best-set_le buy w p zero (q ∷ qs) h k = ground arith
  best-set_le sell w p zero (q ∷ qs) h k = ground arith
  best-set_le buy w p (suc i) (q ∷ qs) h k = ground (arith, best-set_le buy w p i qs)
  best-set_le sell w p (suc i) (q ∷ qs) h k = ground (arith, best-set_le sell w p i qs)

  best-set_ge :
      (s : Side) (w p : ℤ) (i : ℕ) (qs : List VenueQuote)
      → NoBetter s (best s w qs) p
      → NoBetter s p (best s w qs)
      → shows s p qs i ≡ false
      → NoBetter s p (best s w (set qs i q'))
  unfolding best shows
  best-set_ge s w p i [] h k e = k
  best-set_ge buy w p zero (q ∷ qs) h k e = ground arith
  best-set_ge sell w p zero (q ∷ qs) h k e = ground arith
  best-set_ge buy w p (suc i) (q ∷ qs) h k e = ground (arith, best-set_ge buy w p i qs)
  best-set_ge sell w p (suc i) (q ∷ qs) h k e = ground (arith, best-set_ge sell w p i qs)

  size_at-set :
      (s : Side) (p : ℤ) (i : ℕ) (qs : List VenueQuote)
      → shows s p qs i ≡ false
      → (tick s q' ==ℤ p) ≡ false
      → size_at s p (set qs i q') ≡ size_at s p qs
  unfolding size_at shows
  size_at-set s p i [] e k = refl
  size_at-set s p zero (q ∷ qs) e k = ground arith
  size_at-set s p (suc i) (q ∷ qs) e k = ground (arith, size_at-set s p i qs e k)

  shows-set :
      (s : Side) (p : ℤ) (i : ℕ) (qs : List VenueQuote) (u : ℕ)
      → shows s p qs i ≡ false
      → (tick s q' ==ℤ p) ≡ false
      → shows s p (set qs i q') u ≡ shows s p qs u
  unfolding shows
  shows-set s p i [] u e k = refl
  shows-set s p zero (q ∷ qs) zero e k = ground arith
  shows-set s p zero (q ∷ qs) (suc u) e k = refl
  shows-set s p (suc i) (q ∷ qs) zero e k = refl
  shows-set s p (suc i) (q ∷ qs) (suc u) e k = shows-set s p i qs u e k

NoBetter-antisym : (s : Side) (a b : ℤ) → NoBetter s a b → NoBetter s b a → a ≡ b
NoBetter-antisym buy a b h k = eq_of_parts a b (omega arith)
NoBetter-antisym sell a b h k = eq_of_parts a b (omega arith)

eq_of_==ℤ : (a b : ℤ) → (a ==ℤ b) ≡ true → a ≡ b
eq_of_==ℤ a b h = eq_of_parts a b (ground arith)

==ℤ_refl : (a : ℤ) → (a ==ℤ a) ≡ true
==ℤ_refl a = ground arith

eq_NoBetter : (s : Side) (a b : ℤ) → a ≡ b → NoBetter s a b × NoBetter s b a
eq_NoBetter buy a b e = rw e (omega arith, omega arith)
eq_NoBetter sell a b e = rw e (omega arith, omega arith)

-- A price that is "no quote" or worse than `p`.
abbrev stays_off : Side → ℤ → ℤ → Bool
stays_off s p t = (t ==ℤ absent s) || better s p t

stays_off-absent : (s : Side) (t : ℤ) → stays_off s (absent s) t ≡ true → NoBetter s t (absent s)
stays_off-absent buy t h = ground arith
stays_off-absent sell t h = ground arith

stays_off_facts :
    (s : Side) (p t : ℤ)
    → NoBetter s (absent s) p
    → (p ==ℤ absent s) ≡ false
    → stays_off s p t ≡ true
    → NoBetter s t p × ((t ==ℤ p) ≡ false)
stays_off_facts buy p t h k e = (ground arith, ground arith)
stays_off_facts sell p t h k e = (ground arith, ground arith)

and_true : (a b : Bool) → (a && b) ≡ true → (a ≡ true) × (b ≡ true)
and_true true b h = (refl, h)
and_true false b h = cc

not-true : (a : Bool) → not a ≡ true → a ≡ false
not-true true h = cc
not-true false h = refl

off_inside_parts :
    (s : Side) (inside : Inside) (i : ℕ) (q : VenueQuote)
    → off_inside s inside i q ≡ true
    → (inside.venue_bits i ≡ false) × (stays_off s inside.price (tick s q) ≡ true)
off_inside_parts s inside i q h =
    let h' = and_true (not (inside.venue_bits i)) (stays_off s inside.price (tick s q)) h in
    (not-true (inside.venue_bits i) h'.0, h'.1)

module _ (s : Side) (qs : List VenueQuote) (i : ℕ) (q' : VenueQuote) where
  abbrev top : ℤ
  top = best s (absent s) qs

  consolidated-set-absent :
      (top ==ℤ absent s) ≡ true
      → NoBetter s (tick s q') (absent s)
      → consolidated s (set qs i q') ≡ consolidated s qs
  unfolding consolidated
  consolidated-set-absent e h =
      let e' : top ≡ absent s = eq_of_==ℤ _ _ e in
      let k : best s (absent s) (set qs i q') ≡ absent s =
        NoBetter-antisym s _ _
          (best-set_le q' s (absent s) (absent s) i qs (eq_NoBetter s _ _ e').0 h)
          (best-start s (absent s) (set qs i q')) in
      let e'' : (best s (absent s) (set qs i q') ==ℤ absent s) ≡ true =
        rw k (==ℤ_refl (absent s)) in
      rw (e, e'')

  consolidated-set-present :
      (top ==ℤ absent s) ≡ false
      → shows s top qs i ≡ false
      → NoBetter s (tick s q') top
      → (tick s q' ==ℤ top) ≡ false
      → consolidated s (set qs i q') ≡ consolidated s qs
  unfolding consolidated
  consolidated-set-present e old h new =
      let r = eq_NoBetter s top top refl in
      let k : best s (absent s) (set qs i q') ≡ top =
        NoBetter-antisym s _ _ (best-set_le q' s (absent s) top i qs r.0 h)
          (best-set_ge q' s (absent s) top i qs r.0 r.1 old) in
      rw (k, e)
        (λ j. record {
          price = top;
          shares = size_at-set q' s top i qs old new j;
          venue_bits = λ u. shows-set q' s top i qs u old new j;
        })

  consolidated_cases :
      off_inside s (consolidated s qs) i q' ≡ true
      → ((top ==ℤ absent s) ≡ true) × (stays_off s (absent s) (tick s q') ≡ true)
        ⊎ ((top ==ℤ absent s) ≡ false)
          × (shows s top qs i ≡ false)
          × (stays_off s top (tick s q') ≡ true)
  unfolding consolidated
  consolidated_cases h = elim (Bool-cases (top ==ℤ absent s)) [
    | inl e ↦ inl (e, (off_inside_parts s (nothing s) i q' (rw e at h)).1)
    | inr e ↦
        let inside : Inside = record {
          price = top;
          shares = size_at s top qs;
          venue_bits = shows s top qs;
        } in
        let parts = off_inside_parts s inside i q' (rw e at h) in inr (e, parts.0, parts.1)
  ]

  -- A quote that stays off the inside leaves the consolidated side as it is.
  pub consolidated-set :
      off_inside s (consolidated s qs) i q' ≡ true
      → consolidated s (set qs i q') ≡ consolidated s qs
  consolidated-set h = elim (consolidated_cases h) [
    | inl (e, k) ↦ consolidated-set-absent e (stays_off-absent s (tick s q') k)
    | inr (e, old, k) ↦
        let f = stays_off_facts s top (tick s q') (best-start s (absent s) qs) e k in
        consolidated-set-present e old f.0 f.1
  ]

-- The published inside is the consolidated quote of the venues' slots.
pub record IsFresh (n : Nbbo) : Type 0 where
  pub bid_fresh : n.bid ≡ consolidated buy n.venues
  pub ask_fresh : n.ask ≡ consolidated sell n.venues

pub recompute_lem :
    (n : Nbbo) (ts : ℕ)
    → recompute n ts ≡ publish n (consolidated buy n.venues) (consolidated sell n.venues) ts
unfolding recompute
recompute_lem n ts = rw (
  scan-join_all 0 n.venues (nothing buy) (nothing sell),
  join_all-consolidated buy n.venues,
  join_all-consolidated sell n.venues,
)

-- Publishing what is published already says that nothing moved.
publish_same : (n : Nbbo) (ts : ℕ) → publish n n.bid n.ask ts ≡ (n, false)
unfolding publish
publish_same n ts = ground arith

-- From a fresh state, the fast path gives exactly what the full scan would have given: the same
-- state, and the same answer whether the inside moved.
pub apply_quote-recompute :
    (n : Nbbo) (venue : ℕ) (q : VenueQuote) (ts : ℕ)
    → IsFresh n
    → apply_quote n venue q ts ≡ recompute (store n venue q) ts
unfolding apply_quote
apply_quote-recompute n venue q ts f =
    elim (Bool-cases (off_inside buy n.bid venue q && off_inside sell n.ask venue q)) [
      | inr e ↦ rw e
      | inl e ↦
          let b = and_true (off_inside buy n.bid venue q) (off_inside sell n.ask venue q) e in
          let bid : consolidated buy (set n.venues venue q) ≡ n.bid =
            consolidated-set buy n.venues venue q (rw f.bid_fresh at b.0) ∙ sym f.bid_fresh in
          let ask : consolidated sell (set n.venues venue q) ≡ n.ask =
            consolidated-set sell n.venues venue q (rw f.ask_fresh at b.1) ∙ sym f.ask_fresh in
          rw (e, recompute_lem (store n venue q) ts, bid, ask)
            (sym (publish_same (store n venue q) ts))
    ]

publish_fields :
    (n : Nbbo) (bid ask : Inside) (ts : ℕ)
    → ((publish n bid ask ts).0.venues ≡ n.venues)
      × ((publish n bid ask ts).0.bid ≡ bid)
      × ((publish n bid ask ts).0.ask ≡ ask)
unfolding publish
publish_fields n bid ask ts = ground arith

pub recompute-IsFresh : (n : Nbbo) (ts : ℕ) → IsFresh (recompute n ts).0
recompute-IsFresh n ts = rw recompute_lem (
    let f = publish_fields n (consolidated buy n.venues) (consolidated sell n.venues) ts in
    record { bid_fresh = rw (f.0, f.1); ask_fresh = rw (f.0, f.2) })
