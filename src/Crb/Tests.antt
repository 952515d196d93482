-- ===== src/Crb/Tests.antt =====
-- Two desks and some flows over whole numbers.
use quant_finance_py.Prelude.{Bool, ◌≡◌, refl, some, List, [], ◌∷◌, ◌==◌, length}
use quant_finance_py.Prelude.Int.{ℤ, pos, negsuc, ◌+ℤ◌}
use quant_finance_py.Prelude.Double.{whole}
use quant_finance_py.Prelude.Dict.{Text}
use quant_finance_py.Crb.{new_book, exposure, gross_exposure, desk_exposure}
use quant_finance_py.Crb.Products.{Greeks, Inputs, call, book_fx_spot, book_ndf, book_fx_option}
use quant_finance_py.Crb.Flows.{Flow, fx_spot, ndf, fx_option, IsAtomic}
use quant_finance_py.Crb.Bookings.{apply-IsAtomic}
use quant_finance_py.Crb.Netting.{
  run, booked_legs, total, gross_total, desk_total, new_book-IsLedger, run-new_book,
}

abbrev is_blank : Text → Bool
is_blank name = length name == 0

abbrev greeks : Greeks ℤ
greeks = record {
  delta = λ t s k r c v y. some (pos 2);
  gamma = λ s k r c v y. some (pos 100);
  vega = λ s k r c v y. some (pos 100);
}

abbrev inputs : Inputs ℤ
inputs = record {
  spot = pos 3;
  strike = pos 3;
  rate = pos 0;
  carry = pos 0;
  vol = pos 1;
  time_years = pos 1;
}

abbrev eurusd : Text
eurusd = b'E' ∷ b'U' ∷ b'R' ∷ b'U' ∷ b'S' ∷ b'D' ∷ []

abbrev eur : Text
eur = b'C' ∷ b'C' ∷ b'Y' ∷ b':' ∷ b'E' ∷ b'U' ∷ b'R' ∷ []

-- The second flow has no desk.
abbrev flows : List (Flow ℤ)
flows =
    fx_spot (b'A' ∷ []) eurusd (pos 10) (pos 2)
    ∷ fx_spot [] eurusd (pos 5) (pos 2)
    ∷ ndf (b'B' ∷ []) eurusd (negsuc 3) (pos 2)
    ∷ fx_option (b'B' ∷ []) eurusd call (pos 3) inputs
    ∷ []

netted : exposure whole (run whole is_blank greeks (new_book whole) flows) eur ≡ pos 12
unfolding exposure book_fx_option book_ndf book_fx_spot ◌+ℤ◌
netted = refl

severally : gross_exposure whole (run whole is_blank greeks (new_book whole) flows) eur ≡ pos 20
unfolding gross_exposure book_fx_option book_ndf book_fx_spot ◌+ℤ◌
severally = refl

run-new_book_example :
    (exposure whole (run whole is_blank greeks (new_book whole) flows) eur
      ≡ total whole eur (booked_legs whole is_blank greeks (new_book whole) flows) (pos 0))
    × (gross_exposure whole (run whole is_blank greeks (new_book whole) flows) eur
        ≡ gross_total whole eur (booked_legs whole is_blank greeks (new_book whole) flows) (pos 0))
    × (desk_exposure whole (run whole is_blank greeks (new_book whole) flows) (b'B' ∷ []) eur
        ≡ desk_total whole
            (b'B' ∷ [])
            eur
            (booked_legs whole is_blank greeks (new_book whole) flows)
            (pos 0))
run-new_book_example = run-new_book whole is_blank greeks (λ x. refl) flows (b'B' ∷ []) eur

apply-IsAtomic_example :
    IsAtomic whole is_blank greeks
      (new_book whole)
      (fx_option (b'B' ∷ []) eurusd call (pos 3) inputs)
apply-IsAtomic_example =
    apply-IsAtomic whole is_blank greeks (λ x. refl) (new_book whole)
      (fx_option (b'B' ∷ []) eurusd call (pos 3) inputs) (new_book-IsLedger whole)
