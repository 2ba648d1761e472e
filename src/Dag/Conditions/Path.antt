-- ===== src/Dag/Conditions/Path.antt =====
-- internal/dag/conditions.go: the path prefixes of a list of conditions.
pub mod Merging
pub mod Validity
use sesame.Common.{
  ◌==◌, nat_eq, string_eq, Bytes, bytes_eq, ltb, if◌then◌else◌, ℕ, ◌+◌, Bool, false, not, ◌&&◌,
  Option, none, some, List, [], ◌∷◌, ◌++◌,
}
use sesame.Api.Match.{MatchCondition}
use sesame.Dag.Match.{PathMatchCondition, prefix, string}
use sesame.Common.Text.{is_empty}

-- the loop `prefix += cond.Prefix`
join_prefixes : Bytes → List MatchCondition → Bytes
join_prefixes acc [] = acc
join_prefixes acc (cond ∷ conds) = join_prefixes (acc ++ cond.prefix) conds

-- `//+` replaced by `/` at the head of a text in which it is replaced already
abbrev slash_cons : ℕ → Bytes → Bytes
slash_cons c [] = c ∷ []
slash_cons c (d ∷ s) = if c == b'/' && d == b'/' then d ∷ s else c ∷ d ∷ s

-- re.ReplaceAllString(prefix, `/`) for re = `//+`
unfoldable pub squeeze : Bytes → Bytes
squeeze [] = []
squeeze (c ∷ s) = slash_cons c (squeeze s)

unfoldable pub merged_prefix : List MatchCondition → Bytes
unfolding join_prefixes squeeze
merged_prefix conds =
    let p = squeeze (join_prefixes [] conds) in if is_empty p then b'/' ∷ [] else p

unfoldable pub merge_path_match_conditions : List MatchCondition → PathMatchCondition
unfolding merged_prefix
merge_path_match_conditions conds = prefix (merged_prefix conds) string

pub data PathError : Type 0 where
  must_start_with_slash : Bytes → PathError
  more_than_one_prefix : PathError

abbrev starts_with_slash : Bytes → Bool
starts_with_slash [] = false
starts_with_slash (c ∷ s) = c == b'/'

-- the loop, with the count of the prefixes seen so far
path_valid_from : ℕ → List MatchCondition → Option PathError
path_valid_from n [] = none
path_valid_from n (cond ∷ conds) =
    let n' = if is_empty cond.prefix then n else n + 1 in
    let rest = path_valid_from n' conds in
    if not (is_empty cond.prefix) && not (starts_with_slash cond.prefix)
    then some (must_start_with_slash cond.prefix)
    else if ltb 1 n'
    then some more_than_one_prefix
    else rest

unfoldable pub path_match_conditions_valid : List MatchCondition → Option PathError
unfolding path_valid_from
path_match_conditions_valid conds = path_valid_from 0 conds
