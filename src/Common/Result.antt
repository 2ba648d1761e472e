-- ===== src/Common/Result.antt =====
-- A value or an error, for Go functions that return `(value, error)`.
use mathlib.Core.Path.{◌≡◌, refl}
use mathlib.Core.Bool.{Bool, true, false}
use mathlib.Core.Option.{Option, none, some}
use mathlib.Core.Logic.{◌↔◌}
use mathlib.Core.List.{List, ◌∷◌}
use native.Mathlib.Omega.{arith}
use sesame.Common.Tests.{if◌then◌else◌}

pub data Result {ℓ κ} (E : Type ℓ) (A : Type κ) : Type (ℓ ⊔ κ) where
  ok : A → Result E A
  err : E → Result E A

module _ {ℓ κ μ} {E : Type ℓ} {A : Type κ} {B : Type μ} where
  infixl 5 ◌>>=◌
  abbrev pub ◌>>=◌ : Result E A → (A → Result E B) → Result E B
  ok a >>= f = f a
  err e >>= f = err e

module _ {ℓ κ} {E : Type ℓ} {A : Type κ} where
  -- A value is put in front of the values of the rest, if it has no error.
  abbrev pub consed : A → Result E (List A) → Result E (List A)
  consed a (ok rest) = ok (a ∷ rest)
  consed a (err e) = err e

  pub consed_iff :
      (a : A) (r : Result E (List A)) (all : List A)
      → (consed a r ≡ ok all) ↔ ((rest : List A) × (r ≡ ok rest) × (all ≡ a ∷ rest))
  consed_iff a (ok rest) all =
      (λ h. (rest, refl, ground (arith, h)), λ (ys, h, e). ground (arith, h, e))
  consed_iff a (err e) all =
      (λ h. absurd (ground (arith, h)), λ (ys, h, e). absurd (ground (arith, h)))

  -- The value is that of the rest where no guard returned an error.
  pub guard_iff :
      (b : Bool) (e : E) (r : Result E A) (a : A)
      → ((if b then err e else r) ≡ ok a) ↔ ((b ≡ false) × (r ≡ ok a))
  guard_iff true e r a = ground arith
  guard_iff false e r a = (λ h. (refl, h), λ h. h.1)

module _ {ℓ κ μ} {E : Type ℓ} {A : Type κ} {B : Type μ} where
  -- The value of a bind is that of the second step on the value of the first.
  pub bind-ok :
      (r : Result E A) (f : A → Result E B) (b : B)
      → (r >>= f) ≡ ok b
      → (a : A) × (r ≡ ok a) × (f a ≡ ok b)
  bind-ok (ok a) f b h = (a, refl, h)
  bind-ok (err e) f b h = absurd (ground (arith, h))

module _ {ℓ κ μ} {E : Type ℓ} {F : Type κ} {A : Type μ} where
  -- An error is wrapped.
  abbrev pub map_error : (E → F) → Result E A → Result F A
  map_error f (ok a) = ok a
  map_error f (err e) = err (f e)

  pub map_error-ok : (f : E → F) (r : Result E A) (a : A) → map_error f r ≡ ok a → r ≡ ok a
  map_error-ok f (ok b) a e = ground (arith, e)
  map_error-ok f (err x) a e = absurd (ground (arith, e))

module _ {ℓ κ} {E : Type ℓ} {A : Type κ} where
  -- A value, unless a check has found an error.
  abbrev pub checked_by : Option E → A → Result E A
  checked_by none a = ok a
  checked_by (some e) a = err e

  pub checked_by-ok : (o : Option E) (a b : A) → checked_by o a ≡ ok b → (o ≡ none) × (a ≡ b)
  checked_by-ok none a b e = (refl, ground (arith, e))
  checked_by-ok (some x) a b e = absurd (ground (arith, e))
