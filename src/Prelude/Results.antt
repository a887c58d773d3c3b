-- ===== src/Prelude/Results.antt =====
-- Go's pair of a value and an error: a function that can fail returns one of the two.
use mathlib.Core.Path.{◌≡◌, refl}
use mathlib.Core.Logic.{◌⊎◌, inl, inr}
use mathlib.Core.Option.{Option, none, some}

pub data Result {ℓ κ} (E : Type ℓ) (A : Type κ) : Type (ℓ ⊔ κ) where
  ok : A → Result E A
  err : E → Result E A

module _ {ℓ κ} {E : Type ℓ} {A : Type κ} where
  -- if err != nil { return err }
  abbrev pub and_then {μ} : {B : Type μ} → Result E A → (A → Result E B) → Result E B
  and_then (ok a) f = f a
  and_then (err e) f = err e

  pub Result-cases : (r : Result E A) → ((a : A) × (r ≡ ok a)) ⊎ ((e : E) × (r ≡ err e))
  Result-cases (ok a) = inl (a, refl)
  Result-cases (err e) = inr (e, refl)

  -- A chain that succeeds passed its first part.
  pub and_then-ok {μ} :
      {B : Type μ} (r : Result E A) (f : A → Result E B) {b : B}
      → and_then r f ≡ ok b
      → (a : A) × (r ≡ ok a) × (f a ≡ ok b)
  and_then-ok (ok a) f h = (a, refl, h)
  and_then-ok (err e) f h = cc

  abbrev pub from_option : E → Option A → Result E A
  from_option e none = err e
  from_option e (some a) = ok a

  pub from_option-ok : (e : E) (o : Option A) {a : A} → from_option e o ≡ ok a → o ≡ some a
  from_option-ok e none h = cc
  from_option-ok e (some x) h = cc

  abbrev succeed : A → Result E A
  succeed a = ok a

  pub ok-injective : {a b : A} → succeed a ≡ succeed b → a ≡ b
  ok-injective h = cc
