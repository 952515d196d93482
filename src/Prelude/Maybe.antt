-- ===== src/Prelude/Maybe.antt =====
-- Steps that may raise: `none` is the exception.
use quant_finance_py.Prelude.{◌≡◌, refl, Bool, true, false, Option, none, some}

infixl 5 ◌>>=◌
abbrev pub ◌>>=◌ {ℓ κ} : {A : Type ℓ} {B : Type κ} → Option A → (A → Option B) → Option B
none >>= f = none
some a >>= f = f a

-- `raise` unless the test holds.
abbrev pub require {ℓ} : {A : Type ℓ} → Bool → Option A → Option A
require true m = m
require false m = none

-- What a result says of the steps before it.
pub >>=-some {ℓ κ} :
    {A : Type ℓ} {B : Type κ} (m : Option A) (f : A → Option B) (b : B)
    → (m >>= f) ≡ some b
    → (a : A) × (m ≡ some a) × (f a ≡ some b)
>>=-some none f b h = cc
>>=-some (some a) f b h = (a, refl, h)

pub require-some {ℓ} :
    {A : Type ℓ} (c : Bool) (m : Option A) (a : A)
    → require c m ≡ some a
    → (c ≡ true) × (m ≡ some a)
require-some true m a h = (refl, h)
require-some false m a h = cc

pub some-inj {ℓ} : {A : Type ℓ} (a b : A) → some a ≡ some b → a ≡ b
some-inj a b h = cc
