-- ===== src/Dag/Proxy/Adjoining.antt =====
-- internal/dag/httpproxy_processor.go: includeMatchConditionsIdentical.
use sesame.Common.{
  ==_iff, nat_eq, string_eq, option_beq_iff, bytes_eq, Bool-cases, any, ◌≡◌, refl, sym, ap, ◌↔◌,
  inl, inr, Bool, true, false, ◌||◌, List, [], ◌∷◌, ◌++◌, arith,
}
use mathlib.Core.Path.{subst}
use sesame.Api.Match.{header_eq, MatchCondition}
use sesame.Api.Proxy.{Include}
use sesame.Dag.Proxy.Reach.{IsIn}
use sesame.Dag.Proxy.Parts.{same_condition, shares_condition, include_match_conditions_identical}

later_true : (x y : Bool) → x ≡ false → (x || y) ≡ true → y ≡ true
later_true x y e h = ground (arith, e, h)

first_true : (x y : Bool) → x ≡ true → (x || y) ≡ true
first_true x y e = ground (arith, e)

second_true : (x y : Bool) → y ≡ true → (x || y) ≡ true
second_true x y e = ground (arith, e)

adjacent :
    (is : List Include)
    → include_match_conditions_identical is ≡ true
    → (before : List Include) × (a : Include) × (b : Include) × (after : List Include) × (is
        ≡ before ++ a ∷ b ∷ after)
      × (shares_condition a b ≡ true)
unfolding include_match_conditions_identical
adjacent [] e = absurd (ground (arith, e))
adjacent (a ∷ []) e = absurd (ground (arith, e))
adjacent (a ∷ b ∷ is) e = elim (Bool-cases (shares_condition a b)) [
  | inl here ↦ ([], a, b, is, refl, here)
  | inr later ↦
      let (before, a', b', after, split, h) = adjacent (b ∷ is) (later_true _ _ later e) in
      (a ∷ before, a', b', after, ap (λ t. a ∷ t) split, h)
]

shared_found :
    (before : List Include) (a b : Include) (after : List Include)
    → shares_condition a b ≡ true
    → include_match_conditions_identical (before ++ a ∷ b ∷ after) ≡ true
unfolding include_match_conditions_identical
shared_found [] a b after h = first_true _ _ h
shared_found (x ∷ []) a b after h = second_true _ _ (shared_found [] a b after h)
shared_found (x ∷ y ∷ before) a b after h = second_true _ _ (shared_found (y ∷ before) a b after h)

any-IsIn :
    {A : Type 0} (q : A → Bool) (xs : List A) → any q xs ≡ true → (x : A) × IsIn x xs × (q x ≡ true)
any-IsIn q [] e = absurd (ground (arith, e))
any-IsIn q (x ∷ xs) e = elim (Bool-cases (q x)) [
  | inl here ↦ (x, ([], xs, refl), here)
  | inr other ↦
      let (y, (before, after, split), found) = any-IsIn q xs (later_true _ _ other e) in
      (y, (x ∷ before, after, ap (λ t. x ∷ t) split), found)
]

any-append_found :
    {A : Type 0} (q : A → Bool) (before : List A) (x : A) (after : List A)
    → q x ≡ true
    → any q (before ++ x ∷ after) ≡ true
any-append_found q [] x after h = first_true _ _ h
any-append_found q (y ∷ before) x after h = second_true _ _ (any-append_found q before x after h)

IsIn-any :
    {A : Type 0} (q : A → Bool) (x : A) (xs : List A) → IsIn x xs → q x ≡ true → any q xs ≡ true
IsIn-any q x xs (before, after, e) h =
    subst (λ t. any q t ≡ true) (sym e) (any-append_found q before x after h)

same_condition_iff :
    (a b : MatchCondition)
    → (same_condition a b ≡ true) ↔ ((a.prefix ≡ b.prefix) × (a.header ≡ b.header))
unfolding same_condition
same_condition_iff a b = ground (arith, ==_iff a.prefix b.prefix, option_beq_iff a.header b.header)

-- A condition of one include has the prefix and the header of a condition of the other.
abbrev pub Shares : Include → Include → Type 0
Shares a b =
    (x : MatchCondition) × (y : MatchCondition) × IsIn x a.conditions
    × IsIn y b.conditions
    × (x.prefix ≡ y.prefix)
    × (x.header ≡ y.header)

shares_condition-Shares : (a b : Include) → shares_condition a b ≡ true → Shares a b
shares_condition-Shares a b e =
    let (y, in_b, some_x) = any-IsIn _ b.conditions e in
    let (x, in_a, same) = any-IsIn _ a.conditions some_x in
    let (prefix, header) = (same_condition_iff y x).0 same in
    (x, y, in_a, in_b, sym prefix, sym header)

Shares-shares_condition : (a b : Include) → Shares a b → shares_condition a b ≡ true
Shares-shares_condition a b (x, y, in_a, in_b, prefix, header) = IsIn-any _ y b.conditions in_b (
    IsIn-any (λ x. same_condition y x) x a.conditions in_a
      ((same_condition_iff y x).1 (sym prefix, sym header)))

-- The includes are refused exactly where some include and the one right after it share a condition:
-- a condition of each, with the same prefix and the same header.
pub include_match_conditions_identical_iff :
    (is : List Include)
    → (include_match_conditions_identical is ≡ true) ↔ (
        (before : List Include) × (a : Include) × (b : Include) × (after : List Include) × (is
          ≡ before ++ a ∷ b ∷ after)
        × Shares a b)
include_match_conditions_identical_iff is = (
  λ e.
      let (before, a, b, after, split, h) = adjacent is e in
      (before, a, b, after, split, shares_condition-Shares a b h),
  λ (before, a, b, after, e, h).
      subst (λ t. include_match_conditions_identical t ≡ true) (sym e)
        (shared_found before a b after (Shares-shares_condition a b h)),
)
