-- ===== src/Nbbo/Feed.antt =====
-- What `on_venue_quote` and `on_venue_down` promise, whichever path they take.
use quant_finance_py.Prelude.{
  ℕ, zero, suc, ◌<◌, ◌≡◌, refl, ap, ◌∙◌, sym, Bool, false, not, ◌&&◌, ◌||◌, arith, ltb, get_elem?,
  get_elem?-set_self, set, length, some, replicate, if_some, if_none-some,
}
use quant_finance_py.Prelude.Int.{ℤ, pos, ◌==ℤ◌}
use quant_finance_py.Execution.{Side, buy, sell}
use quant_finance_py.Nbbo.{
  Nbbo, VenueQuote, Inside, tick, absent, no_bid, no_ask, nothing, no_quote, publish, recompute,
  store, slot, apply_quote, new, on_venue_quote, on_venue_down,
}
use quant_finance_py.Nbbo.Join.{NoBetter, best}
use quant_finance_py.Nbbo.Consolidated.{
  consolidated, best-elem, shows-elem, price-consolidated, bits-consolidated,
}
use quant_finance_py.Nbbo.FastPath.{IsFresh, recompute-IsFresh, apply_quote-recompute}

-- `on_venue_quote` succeeds only on a venue of the book, and then stores the slot.
on_venue_quote-some :
    (n n' : Nbbo) (venue : ℕ) (bid bid_sz ask ask_sz : ℤ) (ts : ℕ) (changed : Bool)
    → on_venue_quote n venue bid bid_sz ask ask_sz ts ≡ some (n', changed)
    → apply_quote n venue (slot bid bid_sz ask ask_sz) ts ≡ (n', changed)
unfolding on_venue_quote
on_venue_quote-some n n' venue bid bid_sz ask ask_sz ts changed h =
    (if_some (ltb venue (length n.venues)) (apply_quote n venue (slot bid bid_sz ask ask_sz) ts)
      (n', changed) h).1

-- The published inside of one side.
abbrev pub side : Side → Nbbo → Inside
side buy n = n.bid
side sell n = n.ask

side_fresh : (s : Side) (n : Nbbo) → IsFresh n → side s n ≡ consolidated s n.venues
side_fresh buy n f = f.bid_fresh
side_fresh sell n f = f.ask_fresh

best-replicate : (s : Side) (k : ℕ) → best s (absent s) (replicate k no_quote) ≡ absent s
unfolding best
best-replicate s zero = refl
best-replicate buy (suc k) = rw (best-replicate buy k)
best-replicate sell (suc k) = rw (best-replicate sell k)

consolidated-replicate : (s : Side) (k : ℕ) → consolidated s (replicate k no_quote) ≡ nothing s
unfolding consolidated
consolidated-replicate buy k = rw (best-replicate buy k)
consolidated-replicate sell k = rw (best-replicate sell k)

-- A new book, of 1 to 64 venues, is fresh.
pub new-IsFresh : (k : ℕ) (n : Nbbo) → new k ≡ some n → IsFresh n
unfolding new
new-IsFresh k n h =
    let made = if_none-some (ltb k 1 || ltb 64 k) _ n h in
    rw (← made.1) (record {
      bid_fresh = sym (consolidated-replicate buy k);
      ask_fresh = sym (consolidated-replicate sell k);
    })

-- From a fresh book, an accepted quote leaves a fresh book, with or without the scan.
pub on_venue_quote-IsFresh :
    (n n' : Nbbo) (venue : ℕ) (bid bid_sz ask ask_sz : ℤ) (ts : ℕ) (changed : Bool)
    → IsFresh n
    → on_venue_quote n venue bid bid_sz ask ask_sz ts ≡ some (n', changed)
    → IsFresh n'
on_venue_quote-IsFresh n n' venue bid bid_sz ask ask_sz ts changed f h =
    let q = slot bid bid_sz ask ask_sz in
    let e : recompute (store n venue q) ts ≡ (n', changed) =
      sym (apply_quote-recompute n venue q ts f)
      ∙ on_venue_quote-some n n' venue bid bid_sz ask ask_sz ts changed h in
    rw (ap (λ (r : Nbbo × Bool). r.0) e) at (recompute-IsFresh (store n venue q) ts)

-- No venue's price is better than the published inside.
pub inside_best :
    (s : Side) (n : Nbbo) (u : ℕ) (q : VenueQuote)
    → IsFresh n
    → get_elem? n.venues u ≡ some q
    → NoBetter s (tick s q) (side s n).price
inside_best s n u q f h =
    rw (side_fresh s n f, price-consolidated s n.venues) (best-elem s (absent s) n.venues u q h)

-- A venue's bit is set exactly if there is an inside and the venue shows its price.
pub inside_bits :
    (s : Side) (n : Nbbo) (u : ℕ) (q : VenueQuote)
    → IsFresh n
    → get_elem? n.venues u ≡ some q
    → (side s n).venue_bits u
      ≡ (not ((side s n).price ==ℤ absent s) && (tick s q ==ℤ (side s n).price))
inside_bits s n u q f h =
    rw (side_fresh s n f, bits-consolidated s n.venues u, price-consolidated s n.venues)
      (ap (λ b. not (best s (absent s) n.venues ==ℤ absent s) && b)
        (shows-elem s (best s (absent s) n.venues) n.venues u q h))

-- The slot of an accepted quote is the venue's, and no other slot changes.
on_venue_quote-stores :
    (n n' : Nbbo) (venue : ℕ) (bid bid_sz ask ask_sz : ℤ) (ts : ℕ) (changed : Bool)
    → IsFresh n
    → on_venue_quote n venue bid bid_sz ask ask_sz ts ≡ some (n', changed)
    → (venue < length n.venues) × (n'.venues ≡ set n.venues venue (slot bid bid_sz ask ask_sz))
unfolding on_venue_quote apply_quote recompute publish store
on_venue_quote-stores n n' venue bid bid_sz ask ask_sz ts changed f h = (ground arith, ground arith)

not_and_absent : (s : Side) (p : ℤ) → (not (p ==ℤ absent s) && (tick s no_quote ==ℤ p)) ≡ false
not_and_absent buy p = ground arith
not_and_absent sell p = ground arith

-- A venue that is down is at neither inside.
pub on_venue_down-bits :
    (s : Side) (n n' : Nbbo) (venue ts : ℕ) (changed : Bool)
    → IsFresh n
    → on_venue_down n venue ts ≡ some (n', changed)
    → (side s n').venue_bits venue ≡ false
unfolding on_venue_down
on_venue_down-bits s n n' venue ts changed f h =
    let fresh = on_venue_quote-IsFresh n n' venue no_bid (pos 0) no_ask (pos 0) ts changed f h in
    let stored = on_venue_quote-stores n n' venue no_bid (pos 0) no_ask (pos 0) ts changed f h in
    inside_bits s n' venue no_quote fresh
      (rw stored.1 (get_elem?-set_self n.venues venue no_quote stored.0))
    ∙ not_and_absent s (side s n').price
