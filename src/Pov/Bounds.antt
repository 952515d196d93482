-- ===== src/Pov/Bounds.antt =====
-- src/quantfinlib/execution/pov_tracker.py: what is due, and runs that send no more than is due.
use quant_finance_py.Prelude.{
  ℕ, ◌+◌, ◌-◌, ◌≤◌, ◌<◌, ◌≡◌, ◌⊎◌, inl, inr, refl, subst, ◌∙◌, min, max, false, ◌||◌, none, some,
  List, [], ◌∷◌, leb, arith, Bool-cases,
}
use quant_finance_py.Prelude.Int.{ℤ, pos, pos_part, neg_part, ◌-ℤ◌, -ℤ_parts, ◌≤ℤ◌, ltb_ℤ, leb_ℤ}
use quant_finance_py.Prelude.Double.{Double}
use quant_finance_py.Pov.{
  PovTracker, fresh, new, on_market_volume, on_executed, due_quantity, target,
}

-- An amount that is behind by enough, cut to the largest slice and to what is left.
cut_amount :
    (behind : ℤ) (low high done whole : ℕ)
    → 1 ≤ high
    → low ≤ high
    → leb whole done ≡ false
    → ltb_ℤ behind (pos (max 1 low)) ≡ false
    → let n = min (min (pos_part behind) high) (whole - done) in
      (0 < n)
      × (n ≤ high)
      × (done + n ≤ whole)
      × (n + neg_part behind ≤ pos_part behind)
      × ((low ≤ n) ⊎ (done + n ≡ whole))
cut_amount behind low high done whole h k l b = (
  ground arith,
  ground arith,
  ground arith,
  ground arith,
  elim (Bool-cases (leb (min (pos_part behind) high) (whole - done))) [
    | inl c ↦ inl (ground arith)
    | inr c ↦ inr (ground arith)
  ],
)

-- A tracker whose slice bounds the constructor takes.
pub record IsConfigured {F : Type 0} (t : PovTracker F) : Type 0 where
  pub most : 1 ≤ t.max_slice
  pub order : t.min_slice ≤ t.max_slice

pub data Call : Type 0 where
  volume : ℤ → Call
  -- A fill of so many shares, at most what is due.
  fill_due : ℕ → Call

module _ (d : Double) where
  open d use {Num, of_ℤ, at_most, less}

  -- An amount to send: within the slice bounds, except that the end of the parent may be smaller,
  -- and past neither the parent nor the target.
  abbrev pub IsDue : PovTracker Num → ℕ → Type 0
  IsDue t n =
      (0 < n)
      × (n ≤ t.max_slice)
      × (t.executed + n ≤ t.parent_qty)
      × (pos (t.executed + n) ≤ℤ target d t)
      × ((t.min_slice ≤ n) ⊎ (t.executed + n ≡ t.parent_qty))

  -- What is due is nothing, or within all the bounds.
  pub due_quantity-IsDue :
      (t : PovTracker Num) → IsConfigured t → (due_quantity d t ≡ 0) ⊎ IsDue t (due_quantity d t)
  unfolding due_quantity
  due_quantity-IsDue t c = elim (Bool-cases (leb t.parent_qty t.executed)) [
    | inl full ↦ inl (rw full)
    | inr open_left ↦
        elim (Bool-cases (ltb_ℤ (target d t -ℤ pos t.executed) (pos (max 1 t.min_slice)))) [
          | inl early ↦ inl (rw (open_left, early))
          | inr behind ↦
              (let (some_due, small, fits, near, large) =
                  cut_amount (target d t -ℤ pos t.executed) t.min_slice t.max_slice t.executed
                    t.parent_qty c.most c.order open_left behind in
                inr (
                  rw (open_left, behind)
                    (
                      some_due,
                      small,
                      fits,
                      omega (arith, -ℤ_parts (target d t) (pos t.executed)),
                      large,
                    )))
        ]
  ]

  -- A call, of which a fill sends what is due or less.
  unfoldable pub step : PovTracker Num → Call → PovTracker Num
  unfolding on_market_volume on_executed due_quantity
  step t (volume qty) = on_market_volume t qty
  step t (fill_due n) = on_executed t (pos (min n (due_quantity d t)))

  unfoldable pub run : PovTracker Num → List Call → PovTracker Num
  unfolding step
  run t [] = t
  run t (c ∷ cs) = run (step t c) cs

  -- The bounds stay, and the parent is not overfilled.
  abbrev pub Keeps : PovTracker Num → PovTracker Num → Type 0
  Keeps t u = (u.parent_qty ≡ t.parent_qty) × IsConfigured u × (u.executed ≤ u.parent_qty)

  due-fits :
      (t : PovTracker Num) (n : ℕ)
      → IsConfigured t
      → t.executed ≤ t.parent_qty
      → t.executed + min n (due_quantity d t) ≤ t.parent_qty
  due-fits t n c h = elim (due_quantity-IsDue t c) [
    | inl no_due ↦ omega arith
    | inr due ↦ (let fits = due.2 in omega arith)
  ]

  step-Keeps :
      (t : PovTracker Num) (c : Call)
      → IsConfigured t
      → t.executed ≤ t.parent_qty
      → Keeps t (step t c)
  unfolding step
  step-Keeps t (volume qty) c h = elim (Bool-cases (ltb_ℤ (pos 0) qty)) [
    | inl k ↦ rw (k, on_market_volume) (refl, record { most = c.most; order = c.order }, h)
    | inr k ↦ rw (k, on_market_volume) (refl, c, h)
  ]
  step-Keeps t (fill_due n) c h =
      elim (Bool-cases (ltb_ℤ (pos 0) (pos (min n (due_quantity d t))))) [
        | inl k ↦
            rw (k, on_executed) (refl, record { most = c.most; order = c.order }, due-fits t n c h)
        | inr k ↦ rw (k, on_executed) (refl, c, h)
      ]

  run-Keeps :
      (t : PovTracker Num) (cs : List Call)
      → IsConfigured t
      → t.executed ≤ t.parent_qty
      → Keeps t (run t cs)
  unfolding run
  run-Keeps t [] c h = (refl, c, h)
  run-Keeps t (x ∷ xs) c h =
      let (same, c', h') = step-Keeps t x c h in
      let (same', c'', h'') = run-Keeps (step t x) xs c' h' in (same' ∙ same, c'', h'')

  -- A new tracker is configured and has executed nothing of the parent's quantity.
  new-IsConfigured :
      (parent : ℤ) (share : Num) (low high : ℤ) (t : PovTracker Num)
      → new d parent share low high ≡ some t
      → IsConfigured t × (t.executed ≡ 0) × (pos t.parent_qty ≡ parent)
  unfolding new
  new-IsConfigured parent share low high t h =
      elim (Bool-cases
        (leb_ℤ parent (pos 0) || (at_most share (of_ℤ (pos 0)) || less (of_ℤ (pos 1)) share))) [
          | inl c ↦ (let bad : none ≡ some t = rw c at h in cc)
          | inr c ↦
              elim (Bool-cases (ltb_ℤ low (pos 0) || ltb_ℤ high (pos (max 1 (pos_part low))))) [
                | inl k ↦ (let bad : none ≡ some t = rw (c, k) at h in cc)
                | inr k ↦
                    (let made : some
                            (fresh d (pos_part parent) share (pos_part low) (pos_part high))
                          ≡ some t =
                        rw (c, k) at h in
                      let is : fresh d (pos_part parent) share (pos_part low) (pos_part high) ≡ t =
                        cc in
                      subst (λ x. IsConfigured x × (x.executed ≡ 0) × (pos x.parent_qty ≡ parent))
                        is
                        (record { most = ground arith; order = ground arith }, refl, ground arith))
              ]
        ]

  -- However a new tracker's market trades, and however often what is due is sent, whole or in part,
  -- what was executed never passes the parent's quantity.
  pub run-new :
      (parent : ℤ) (share : Num) (low high : ℤ) (t : PovTracker Num) (cs : List Call)
      → new d parent share low high ≡ some t
      → pos (run t cs).executed ≤ℤ parent
  run-new parent share low high t cs h =
      let (c, none_yet, whole) = new-IsConfigured parent share low high t h in
      let (same, c', fits) = run-Keeps t cs c (omega arith) in
      subst (λ p. pos (run t cs).executed ≤ℤ p) whole (omega arith)
