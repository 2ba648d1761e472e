-- ===== src/Common/Order.antt =====
-- strings.Compare and Go's `<` on strings: the lexicographic order of the bytes.
use Prim.Native.Nat.{ℕ, compare, Ordering}
use mathlib.Core.Path.{◌≡◌, refl}
use mathlib.Core.Bool.{Bool, true, false}
use mathlib.Core.List.{[], ◌∷◌, ◌++◌}
use native.Mathlib.Omega.{arith}
use sesame.Common.Equality.{Bytes}

unfoldable pub strings_compare : Bytes → Bytes → Ordering
strings_compare [] [] = Ordering.eq
strings_compare [] (d ∷ t) = Ordering.lt
strings_compare (c ∷ s) [] = Ordering.gt
strings_compare (c ∷ s) (d ∷ t) = elim (compare c d) [
  | Ordering.eq ↦ strings_compare s t
  | Ordering.lt ↦ Ordering.lt
  | Ordering.gt ↦ Ordering.gt
]

abbrev pub flip : Ordering → Ordering
flip Ordering.lt = Ordering.gt
flip Ordering.eq = Ordering.eq
flip Ordering.gt = Ordering.lt

abbrev pub is_lt : Ordering → Bool
is_lt Ordering.lt = true
is_lt _ = false

-- s < t
abbrev pub string_less : Bytes → Bytes → Bool
string_less s t = is_lt (strings_compare s t)

pub strings_compare_refl : (s : Bytes) → strings_compare s s ≡ Ordering.eq
unfolding strings_compare
strings_compare_refl [] = refl
strings_compare_refl (c ∷ s) = ground (arith, strings_compare_refl s)

pub eq_of_strings_compare : (s t : Bytes) → strings_compare s t ≡ Ordering.eq → s ≡ t
unfolding strings_compare
eq_of_strings_compare [] [] h = refl
eq_of_strings_compare [] (d ∷ t) h = ground arith
eq_of_strings_compare (c ∷ s) [] h = ground arith
eq_of_strings_compare (c ∷ s) (d ∷ t) h = ground (arith, eq_of_strings_compare s t)

pub strings_compare-flip : (s t : Bytes) → strings_compare t s ≡ flip (strings_compare s t)
unfolding strings_compare
strings_compare-flip [] [] = refl
strings_compare-flip [] (d ∷ t) = refl
strings_compare-flip (c ∷ s) [] = refl
strings_compare-flip (c ∷ s) (d ∷ t) = ground (arith, strings_compare-flip s t)

pub strings_compare_trans :
    (s t u : Bytes)
    → strings_compare s t ≡ Ordering.lt
    → strings_compare t u ≡ Ordering.lt
    → strings_compare s u ≡ Ordering.lt
unfolding strings_compare
strings_compare_trans [] [] u h k = ground arith
strings_compare_trans [] (d ∷ t) [] h k = ground arith
strings_compare_trans [] (d ∷ t) (e ∷ u) h k = refl
strings_compare_trans (c ∷ s) [] u h k = ground arith
strings_compare_trans (c ∷ s) (d ∷ t) [] h k = ground arith
strings_compare_trans (c ∷ s) (d ∷ t) (e ∷ u) h k = ground (arith, strings_compare_trans s t u)

-- What extends a text comes after it.
pub strings_compare-append :
    (s : Bytes) (c : ℕ) (t : Bytes) → strings_compare (s ++ (c ∷ t)) s ≡ Ordering.gt
unfolding strings_compare
strings_compare-append [] c t = refl
strings_compare-append (d ∷ s) c t = ground (arith, strings_compare-append s c t)
