-- ===== src/Common/Distinct.antt =====
-- Lists without repetition, as the loops that keep a set of what they have seen find them.
use mathlib.Core.Path.{◌≡◌, refl}
use mathlib.Core.Bool.{false}
use mathlib.Core.Logic.{◌↔◌}
use mathlib.Core.List.{List, [], ◌∷◌}
use native.Mathlib.Omega.{arith}
use sesame.Common.Equality.{Comparable, member}
use sesame.Common.Lists.{All}

module _ {ℓ} {A : Type ℓ} ⦃e : Comparable A⦄ where
  abbrev pub Distinct : List A → Type 0
  Distinct [] = Unit
  Distinct (x ∷ xs) = (member x xs ≡ false) × Distinct xs

  -- No element of a list was seen before, and each is seen from then on.
  abbrev pub Fresh : List A → List A → Type 0
  Fresh seen [] = Unit
  Fresh seen (x ∷ xs) = (member x seen ≡ false) × Fresh (x ∷ seen) xs

  abbrev pub Unseen : List A → List A → Type 0
  Unseen seen xs = All (λ x. member x seen ≡ false) xs

  Unseen-cons :
      (x : A) (seen xs : List A) → Unseen (x ∷ seen) xs ↔ ((member x xs ≡ false) × Unseen seen xs)
  unfolding member
  Unseen-cons x seen [] = (λ _. (refl, tt), λ _. tt)
  Unseen-cons x seen (y ∷ ys) = ground (arith, Unseen-cons x seen ys, e.eqb_iff x y, e.eqb_iff y x)

  pub Fresh-iff : (seen xs : List A) → Fresh seen xs ↔ (Distinct xs × Unseen seen xs)
  Fresh-iff seen [] = (λ _. (tt, tt), λ _. tt)
  Fresh-iff seen (x ∷ xs) = ground (arith, Fresh-iff (x ∷ seen) xs, Unseen-cons x seen xs)

  Unseen-none : (xs : List A) → Unseen [] xs
  unfolding member
  Unseen-none [] = tt
  Unseen-none (x ∷ xs) = (refl, Unseen-none xs)

  pub Fresh-Distinct : (xs : List A) → Fresh [] xs ↔ Distinct xs
  Fresh-Distinct xs = (λ f. ((Fresh-iff [] xs).0 f).0, λ d. (Fresh-iff [] xs).1 (d, Unseen-none xs))
