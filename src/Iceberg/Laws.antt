-- ===== src/Iceberg/Laws.antt =====
-- src/quantfinlib/execution/iceberg_order.py: what the tranches add up to.
use quant_finance_py.Prelude.{
  ℕ, zero, suc, ◌+◌, ◌-◌, min, ◌≤◌, ◌<◌, ◌≡◌, ◌↔◌, refl, subst, Bool, true, false, ◌&&◌, ◌||◌,
  Option, none, some, List, [], ◌∷◌, ◌==◌, ltb, if◌then◌else◌, arith, Bool-cases, inl, inr,
  Option-cases, if_none-some,
}
use quant_finance_py.Prelude.Int.{ℤ}
use quant_finance_py.Prelude.Maybe.{◌>>=◌}
use quant_finance_py.Iceberg.{IcebergOrder, is_complete, base, reload, new, fill, on_fill, fills}

-- The visible tranche is part of what remains, and is empty only of a complete order.
pub record IsWorking (o : IcebergOrder) : Type 0 where
  pub sized : 0 < o.display
  pub within : o.visible ≤ o.remaining
  pub shown : min 1 o.remaining ≤ o.visible

abbrev pub sum : List ℕ → ℕ
sum [] = 0
sum (q ∷ qs) = q + sum qs

module _ (rounded : ℕ → ℕ → ℤ) where
  base-lt : (o : IcebergOrder) → 0 < o.display → 0 < base rounded o
  base-lt o h = ground arith

  reload-IsWorking : (o : IcebergOrder) → 0 < o.display → IsWorking (reload rounded o)
  unfolding reload
  reload-IsWorking o h =
      let p = base-lt o h in record { sized = h; within = ground arith; shown = ground (arith, p) }

  -- A new order is working and has its whole quantity to go.
  pub new-IsWorking :
      (total display : ℕ) (jittered : Bool) (o : IcebergOrder)
      → new rounded total display jittered ≡ some o
      → IsWorking o × (o.remaining ≡ total)
  unfolding new
  new-IsWorking total display jittered o h =
      let (positive, same) = if_none-some ((total == 0) || (display == 0)) _ o h in
      subst (λ x. IsWorking x × (x.remaining ≡ total)) same
        (
          reload-IsWorking
              (record {
                display = display;
                jittered = jittered;
                draws = 0;
                remaining = total;
                visible = 0;
              })
              (ground (arith, positive)),
          unfold reload in refl,
        )

  fill-IsWorking :
      (o : IcebergOrder) (q : ℕ) → IsWorking o → q ≤ o.visible → IsWorking (fill rounded o q).0
  unfolding fill
  fill-IsWorking o q w h = elim (Bool-cases ((o.visible - q == 0) && ltb 0 (o.remaining - q))) [
    | inl c ↦ rw c (
        reload-IsWorking (record o { visible = o.visible - q; remaining = o.remaining - q })
          w.sized)
    | inr c ↦ rw c (record {
      sized = w.sized;
      within = (let i = w.within in omega arith);
      shown = (let i = w.within in let j = w.shown in ground (arith, c));
    })
  ]

  fill-remaining :
      (o : IcebergOrder) (q : ℕ)
      → IsWorking o
      → q ≤ o.visible
      → (fill rounded o q).0.remaining + q ≡ o.remaining
  unfolding fill reload
  fill-remaining o q w h = let i = w.within in ground arith

  -- A fill of at most the visible tranche keeps the order working and leaves the rest of its
  -- quantity; every other is refused.
  pub on_fill-IsWorking :
      (o : IcebergOrder) (q : ℕ) (r : IcebergOrder × Bool)
      → IsWorking o
      → on_fill rounded o q ≡ some r
      → IsWorking (r.0) × (r.0.remaining + q ≡ o.remaining) × (0 < q) × (q ≤ o.visible)
  unfolding on_fill
  on_fill-IsWorking o q r w h =
      let (fits, same) = if_none-some ((q == 0) || ltb o.visible q) _ r h in
      let le : q ≤ o.visible = ground (arith, fits) in
      subst
        (λ (x : IcebergOrder × Bool).
          IsWorking (x.0) × (x.0.remaining + q ≡ o.remaining) × (0 < q) × (q ≤ o.visible))
        same (fill-IsWorking o q w le, fill-remaining o q w le, ground (arith, fits), le)

  -- After any accepted fills the order is working, and what was filled and what remains add up.
  pub fills-remaining :
      (o o' : IcebergOrder) (qs : List ℕ)
      → IsWorking o
      → fills rounded o qs ≡ some o'
      → IsWorking o' × (o'.remaining + sum qs ≡ o.remaining)
  unfolding fills
  fills-remaining o o' [] w h =
      let same : o ≡ o' = ground arith in
      subst (λ x. IsWorking x × (x.remaining + 0 ≡ o.remaining)) same (w, omega arith)
  fills-remaining o o' (q ∷ qs) w h = elim (Option-cases (on_fill rounded o q)) [
    | inl e ↦ (let bad : none ≡ some o' = rw e at h in cc)
    | inr (r, e) ↦
        (let (w', left, positive, le) = on_fill-IsWorking o q r w e in
          let (w'', rest) = fills-remaining (r.0) o' qs w' (rw e at h) in (w'', omega arith))
  ]

  -- The visible tranche filled whole, again and again until nothing remains, `n` times at most.
  unfoldable pub sweep : ℕ → IcebergOrder → Option IcebergOrder
  unfolding is_complete on_fill
  sweep zero o = some o
  sweep (suc n) o =
      if is_complete o then some o else (do r ← on_fill rounded o o.visible; sweep n (r.0))

  on_fill-visible :
      (o : IcebergOrder)
      → IsWorking o
      → 0 < o.remaining
      → on_fill rounded o o.visible ≡ some (fill rounded o o.visible)
  unfolding on_fill
  on_fill-visible o w h =
      let j = w.shown in
      let c : ((o.visible == 0) || ltb o.visible o.visible) ≡ false = ground (arith, j) in rw c

  fill_falls :
      (o : IcebergOrder)
      → IsWorking o
      → 0 < o.remaining
      → (fill rounded o o.visible).0.remaining < o.remaining
  fill_falls o w h =
      let left = fill-remaining o o.visible w (omega arith) in let j = w.shown in omega arith

  -- A working order whose tranches fill is complete after at most as many fills as its quantity.
  pub sweep-is_complete :
      (n : ℕ) (o : IcebergOrder)
      → IsWorking o
      → o.remaining ≤ n
      → (o' : IcebergOrder) × (sweep n o ≡ some o') × (is_complete o' ≡ true)
  unfolding sweep
  sweep-is_complete zero o w h = (o, refl, unfold is_complete in ground arith)
  sweep-is_complete (suc n) o w h = elim (Bool-cases (is_complete o)) [
    | inl c ↦ (o, rw c, c)
    | inr c ↦
        let left : 0 < o.remaining = unfold is_complete in ground (arith, c) in
        let f = fill_falls o w left in
        let (o', swept, complete) =
          sweep-is_complete n (fill rounded o o.visible).0
            (fill-IsWorking o o.visible w (omega arith)) (omega arith) in
        (o', rw (c, on_fill-visible o w left) swept, complete)
  ]

  -- An order of fixed display never shows more than it, and a fill reports a reload exactly if it
  -- takes the whole tranche and more remains.
  pub on_fill-display :
      (o : IcebergOrder) (q : ℕ) (r : IcebergOrder × Bool)
      → o.jittered ≡ false
      → o.visible ≤ o.display
      → on_fill rounded o q ≡ some r
      → (r.0.visible ≤ o.display) × ((r.1 ≡ true) ↔ ((o.visible ≡ q) × (q < o.remaining)))
  unfolding on_fill fill reload
  on_fill-display o q r fixed le h =
      let (fits, same) = if_none-some ((q == 0) || ltb o.visible q) _ r h in
      subst
        (λ (x : IcebergOrder × Bool).
          (x.0.visible ≤ o.display) × ((x.1 ≡ true) ↔ ((o.visible ≡ q) × (q < o.remaining))))
        same (ground (arith, fixed), ground (arith, fits))
