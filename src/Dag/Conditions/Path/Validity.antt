-- ===== src/Dag/Conditions/Path/Validity.antt =====
-- internal/dag/conditions.go: what pathMatchConditionsValid accepts.
use sesame.Common.{
  nat_eq, string_eq, Bytes, bytes_eq, if◌then◌else◌, All, ℕ, suc, ◌+◌, ◌≤◌, ◌≡◌, ◌↔◌, none, List,
  [], ◌∷◌, arith,
}
use sesame.Common.Text.{is_empty}
use sesame.Api.Match.{MatchCondition}
use sesame.Dag.Conditions.Path.{path_valid_from, path_match_conditions_valid}

-- Described without the code's tests: no prefix, or one that begins with a slash.
abbrev pub IsSlashed : Bytes → Type 0
IsSlashed [] = Unit
IsSlashed (c ∷ s) = c ≡ b'/'

abbrev pub prefixes : List MatchCondition → ℕ
prefixes [] = 0
prefixes (cond ∷ conds) = if is_empty cond.prefix then prefixes conds else suc (prefixes conds)

abbrev pub PrefixIsSlashed : MatchCondition → Type 0
PrefixIsSlashed cond = IsSlashed cond.prefix

path_valid_from_iff :
    (n : ℕ) (conds : List MatchCondition)
    → n ≤ 1
    → (path_valid_from n conds ≡ none) ↔ (All PrefixIsSlashed conds × (n + prefixes conds ≤ 1))
unfolding path_valid_from
path_valid_from_iff n [] le = ground arith
path_valid_from_iff n (cond ∷ conds) le =
    ground (arith, path_valid_from_iff n conds, path_valid_from_iff (n + 1) conds)

-- A condition block is accepted exactly when each of its prefixes is empty or begins with a slash,
-- and at most one of them is not empty.
pub path_match_conditions_valid_iff :
    (conds : List MatchCondition)
    → (path_match_conditions_valid conds ≡ none)
      ↔ (All PrefixIsSlashed conds × (prefixes conds ≤ 1))
unfolding path_match_conditions_valid
path_match_conditions_valid_iff conds =
    let (to, from) = path_valid_from_iff 0 conds (omega arith) in
    (λ e. ((to e).0, omega (arith, (to e).1)), λ h. from (h.0, omega (arith, h.1)))
