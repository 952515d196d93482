-- ===== src/Crb.antt =====
-- src/quantfinlib/crb/{central_risk_book,factor_registry}.py: the central risk book, which nets the
-- flows of the desks by risk factor. Amounts are floating point. `Crb/Products` has the bookings. A
-- booking that raises tells in what state it leaves the book. A positive number is infinite exactly
-- if it is not finite.
pub mod Products
pub mod Slots
pub mod Index
pub mod Ledger
pub mod Posting
pub mod Flows
pub mod Bookings
pub mod Netting
mod Tests
use quant_finance_py.Prelude.{
  ℕ, suc, ◌+◌, ◌-◌, ◌*◌, max, min, map, Bool, not, ◌&&◌, ◌||◌, Option, none, some, List, [], ◌∷◌,
  ◌++◌, ◌==◌, ltb, if◌then◌else◌, length, take, drop, set, get_elem?, replicate,
}
use quant_finance_py.Prelude.Int.{ℤ, pos}
use quant_finance_py.Prelude.Double.{Double, magnitude}
use quant_finance_py.Prelude.Dict.{Text, Dict, same_text, find_key, put_key}

pub record CentralRiskBook (F : Type 0) : Type 0 where
  pub ids : Dict ℕ
  pub names : List Text
  pub net : List F
  pub gross : List F
  pub desk_net : Dict (List F)
  pub pending_fixings : Dict F
  pub flows_booked : ℕ

-- A call that changes the book returns or raises.
pub data Outcome (B : Type 0) : Type 0 where
  returned raised : B → Outcome B

infixl 5 ◌>>=◌
abbrev pub ◌>>=◌ : {B : Type 0} → Outcome B → (B → Outcome B) → Outcome B
returned b >>= k = k b
raised b >>= k = raised b

module _ (d : Double) where
  open d use {Num, of_ℤ, negate, plus, minus, times, over, less, at_most, finite}

  abbrev pub nought : Num
  nought = of_ℤ (pos 0)

  abbrev pub new_book : CentralRiskBook Num
  new_book = record {
    ids = [];
    names = [];
    net = replicate 16 nought;
    gross = replicate 16 nought;
    desk_net = [];
    pending_fixings = [];
    flows_booked = 0;
  }

  -- `FactorRegistry.id`.
  unfoldable pub register : CentralRiskBook Num → Text → ℕ × CentralRiskBook Num
  unfolding find_key put_key
  register b name = elim (find_key name b.ids) [
    | some i ↦ (i, b)
    | none ↦ (
      length b.names,
      record b { ids = put_key name (length b.names) b.ids; names = b.names ++ name ∷ [] },
    )
  ]

  -- `xs[i]`, where a read behind the end gives 0.
  unfoldable pub slot : ℕ → List Num → Num
  slot i xs = elim (get_elem? xs i) [ none ↦ nought | some x ↦ x ]

  unfoldable pub widen : ℕ → List Num → List Num
  widen n xs = xs ++ replicate (n - length xs) nought

  -- `xs[i] += x`.
  unfoldable pub bump : ℕ → Num → List Num → List Num
  unfolding slot
  bump i x xs = set xs i (plus (slot i xs) x)

  unfoldable pub grown : ℕ → CentralRiskBook Num → CentralRiskBook Num
  unfolding widen
  grown i b =
      let n = max (length b.net * 2) (i + 1) in
      if ltb i (length b.net) then b else record b { net = widen n b.net; gross = widen n b.gross }

  -- The desk's own exposures, wide enough for index `i`.
  unfoldable pub desk_row : Text → ℕ → CentralRiskBook Num → List Num
  unfolding find_key widen
  desk_row desk i b =
      let row : List Num = elim (find_key desk b.desk_net) [
        | none ↦ replicate (length b.net) nought
        | some r ↦ r
      ] in
      if ltb i (length row) then row else widen (length b.net) row

  -- What `_add` does to a finite amount.
  unfoldable pub post : Text → Text → Num → CentralRiskBook Num → CentralRiskBook Num
  unfolding register grown bump desk_row put_key
  post desk factor amount b =
      let r = register b factor in
      let g = grown r.0 r.1 in
      record g {
        net = bump r.0 amount g.net;
        gross = bump r.0 (magnitude d amount) g.gross;
        desk_net = put_key desk (bump r.0 amount (desk_row desk r.0 g)) g.desk_net;
      }

  unfoldable pub add : Text → Text → Num → CentralRiskBook Num → Outcome (CentralRiskBook Num)
  unfolding post
  add desk factor amount b =
      if finite amount then returned (post desk factor amount b) else raised b

  abbrev pub counted : CentralRiskBook Num → Outcome (CentralRiskBook Num)
  counted b = returned (record b { flows_booked = b.flows_booked + 1 })

  abbrev pub require_positive : Num → Bool
  require_positive x = less nought x && finite x

  abbrev pub require_pair : Text → Bool
  require_pair pair = length pair == 6

  unfoldable pub pending_fixing : CentralRiskBook Num → Text → Num
  unfolding find_key
  pending_fixing b pair = elim (find_key pair b.pending_fixings) [ none ↦ nought | some x ↦ x ]

  unfoldable pub exposure : CentralRiskBook Num → Text → Num
  unfolding find_key slot
  exposure b factor = elim (find_key factor b.ids) [ none ↦ nought | some i ↦ slot i b.net ]

  unfoldable pub gross_exposure : CentralRiskBook Num → Text → Num
  unfolding find_key slot
  gross_exposure b factor = elim (find_key factor b.ids) [ none ↦ nought | some i ↦ slot i b.gross ]

  unfoldable pub desk_exposure : CentralRiskBook Num → Text → Text → Num
  unfolding find_key slot
  desk_exposure b desk factor = elim (find_key desk b.desk_net) [
    | none ↦ nought
    | some row ↦ elim (find_key factor b.ids) [ none ↦ nought | some i ↦ slot i row ]
  ]

  -- 1e-9
  abbrev pub dust : Num
  dust = over (of_ℤ (pos 1)) (of_ℤ (pos 1000000000))

  unfoldable pub remove_key : Text → Dict Num → Dict Num
  remove_key k [] = []
  remove_key k (e ∷ es) = if same_text e.0 k then es else e ∷ remove_key k es

  unfoldable pub settle_fixing : CentralRiskBook Num → Text → Num → Outcome (CentralRiskBook Num)
  unfolding pending_fixing put_key remove_key
  settle_fixing b pair notional =
      let pending = pending_fixing b pair in
      let remaining = minus pending notional in
      if not (require_pair pair && require_positive notional) || less (plus pending dust) notional
      then raised b
      else if at_most remaining dust
      then returned (record b { pending_fixings = remove_key pair b.pending_fixings })
      else returned (record b { pending_fixings = put_key pair remaining b.pending_fixings })

  unfoldable pub net_exposures : CentralRiskBook Num → List Num
  unfolding widen
  net_exposures b = widen (length b.names) (take (length b.names) b.net)

  -- `id_if_present` of the registry, where `none` is -1, a name and the number of names.
  unfoldable pub id_if_present : CentralRiskBook Num → Text → Option ℕ
  unfolding find_key
  id_if_present b factor = find_key factor b.ids

  abbrev pub factor_name : CentralRiskBook Num → ℕ → Option Text
  factor_name b i = get_elem? b.names i

  abbrev pub size : CentralRiskBook Num → ℕ
  size b = length b.names

  abbrev pub desks : CentralRiskBook Num → List Text
  desks b = map (λ e. e.0) b.desk_net

  -- The interpreter's `sum` is a parameter.
  unfoldable pub netting_efficiency : (List Num → Num) → CentralRiskBook Num → Num
  netting_efficiency sum b =
      let n = min (size b) (length b.net) in
      let sum_net = sum (map (magnitude d) (take n b.net)) in
      let sum_gross = sum (take n b.gross) in
      if at_most sum_gross nought then nought else minus (of_ℤ (pos 1)) (over sum_net sum_gross)
