-- ===== src/Dag/Conditions/Tests.antt =====
-- The conditions at concrete inputs.
use sesame.Common.{
  concat, nat_eq, string_eq, Bytes, bytes_eq, All, ◌≤◌, String, ◌≡◌, refl, ◌↔◌, false, Option, none,
  some, List, [], ◌∷◌, ◌++◌, map,
}
use sesame.Common.Text.{bytes, is_empty}
use sesame.Api.Match.{MatchCondition}
use sesame.Dag.Match.{prefix, string}
use sesame.Dag.Conditions.Path.{
  merged_prefix, merge_path_match_conditions, path_match_conditions_valid, must_start_with_slash,
}
use sesame.Dag.Conditions.Path.Validity.{
  IsSlashed, PrefixIsSlashed, prefixes, path_match_conditions_valid_iff,
}
use sesame.Dag.Conditions.Path.Merging.{
  NoDouble, only_prefix, merged_prefix-IsNormal, merged_prefix-append,
}
use sesame.Dag.Conditions.Header.{
  merge_header_match_conditions, header_match_conditions_valid, exact_and_notexact,
}
use sesame.Dag.Conditions.Header.Consistency.{
  Named, Consistent, condition, tests_of, present, exact, notexact,
  header_match_conditions_valid_iff,
}
use sesame.Dag.Conditions.Header.Merging.{translated, merge_header_match_conditions-tests}

abbrev at : String → MatchCondition
at p = only_prefix (bytes p)

abbrev blocks : List (List MatchCondition)
blocks = (at "/api/" ∷ at "" ∷ []) ∷ (at "//v1" ∷ []) ∷ []

merged : merge_path_match_conditions (concat blocks) ≡ prefix (bytes "/api/v1") string
unfolding merge_path_match_conditions
merged = refl

no_slash : path_match_conditions_valid (at "api" ∷ []) ≡ some (must_start_with_slash (bytes "api"))
unfolding path_match_conditions_valid
no_slash = refl

blocks_valid : All (λ b. path_match_conditions_valid b ≡ none) blocks
unfolding path_match_conditions_valid
blocks_valid = (refl, (refl, tt))

path_match_conditions_valid_iff_example :
    (path_match_conditions_valid (at "/a" ∷ at "/b" ∷ []) ≡ none)
    ↔ (All PrefixIsSlashed (at "/a" ∷ at "/b" ∷ []) × (prefixes (at "/a" ∷ at "/b" ∷ []) ≤ 1))
path_match_conditions_valid_iff_example = path_match_conditions_valid_iff (at "/a" ∷ at "/b" ∷ [])

merged_prefix-IsNormal_example :
    (is_empty (merged_prefix (concat blocks)) ≡ false)
    × IsSlashed (merged_prefix (concat blocks))
    × NoDouble (merged_prefix (concat blocks))
merged_prefix-IsNormal_example = merged_prefix-IsNormal blocks blocks_valid

merged_prefix-append_example :
    merged_prefix ((at "/api/" ∷ []) ++ (at "/v1" ∷ []))
    ≡ merged_prefix (only_prefix (merged_prefix (at "/api/" ∷ [])) ∷ at "/v1" ∷ [])
merged_prefix-append_example = merged_prefix-append (at "/api/" ∷ []) (at "/v1" ∷ []) (refl, tt)

abbrev items : List (Bytes × Option Named)
items =
    (bytes "/a", some (bytes "X-One", exact b'1' []))
    ∷ ([], some (bytes "x-two", present))
    ∷ ([], some (bytes "x-one", notexact b'1' []))
    ∷ []

clashing : header_match_conditions_valid (map condition items) ≡ some exact_and_notexact
unfolding header_match_conditions_valid
clashing = refl

header_match_conditions_valid_iff_example :
    (header_match_conditions_valid (map condition items) ≡ none) ↔ Consistent (tests_of items)
header_match_conditions_valid_iff_example = header_match_conditions_valid_iff items

merge_header_match_conditions-tests_example :
    merge_header_match_conditions (map condition items) ≡ map translated (tests_of items)
merge_header_match_conditions-tests_example = merge_header_match_conditions-tests items
