-- ===== src/Common/Any.antt =====
-- Tests that hold of some element of a list.
use mathlib.Core.Path.{◌≡◌}
use mathlib.Core.Bool.{Bool, true}
use mathlib.Core.Logic.{◌⊎◌, inl, inr}
use mathlib.Core.Option.{some}
use mathlib.Core.List.{List, [], ◌∷◌}
use native.Mathlib.Omega.{arith}
use sesame.Common.Tests.{Bool-cases}
use sesame.Common.Equality.{Comparable}
use sesame.Common.Lists.{any}
use sesame.Common.Assoc.{Map, lookup}

module _ {ℓ} {A : Type ℓ} where
  -- Where each element that passes the first test passes one of two others, some element of a list
  -- that passes the first leads to some element that passes one of the others.
  pub any-either :
      (f g h : A → Bool) (xs : List A)
      → ((x : A) → f x ≡ true → (g x ≡ true) ⊎ (h x ≡ true))
      → any f xs ≡ true
      → (any g xs ≡ true) ⊎ (any h xs ≡ true)
  any-either f g h [] each e = absurd (ground (arith, e))
  any-either f g h (x ∷ xs) each e = elim (Bool-cases (f x)) [
    | inl here ↦ ground (arith, each x here)
    | inr later ↦ ground (arith, any-either f g h xs each (ground (arith, e, later)))
  ]

  -- A stronger test that holds somewhere makes the weaker one hold somewhere.
  pub any-weaken :
      (f g : A → Bool) (xs : List A)
      → ((x : A) → f x ≡ true → g x ≡ true)
      → any f xs ≡ true
      → any g xs ≡ true
  any-weaken f g xs each e = elim (any-either f g g xs (λ x h. inl (each x h)) e) [
    | inl h ↦ h
    | inr h ↦ h
  ]

module _ {ℓ κ} {K : Type ℓ} {V : Type κ} ⦃e : Comparable K⦄ where
  pub any-lookup :
      (test : V → Bool) (key : K) (value : V) (entries : Map K V)
      → lookup key entries ≡ some value
      → test value ≡ true
      → any (λ entry. test entry.1) entries ≡ true
  unfolding lookup
  any-lookup test key value [] found passes = absurd (ground (arith, found))
  any-lookup test key value ((at, v) ∷ entries) found passes = elim (Bool-cases (e.eqb key at)) [
    | inl same ↦ ground (arith, found, same, passes)
    | inr other ↦
        ground (arith, any-lookup test key value entries (ground (arith, found, other)) passes)
  ]
