-- ===== src/Dag/Conditions/Header/Merging.antt =====
-- internal/dag/conditions.go: the header conditions that a route ends up with.
use sesame.Common.{
  nat_eq, string_eq, Bytes, bytes_eq, ◌≡◌, refl, true, false, Option, none, some, List, [], ◌∷◌,
  map,
}
use sesame.Dag.Match.{HeaderMatchCondition, HeaderMatchType}
use sesame.Dag.Conditions.Header.{
  matching, header_conditions, header_match_condition, header_match_conditions,
  merge_header_match_conditions,
}
use sesame.Dag.Conditions.Header.Consistency.{
  Test, present, notpresent, contains, notcontains, exact, notexact, of_test, Named, condition,
  tests_of,
}

-- The condition of the graph that stands for a test: a "not" test inverts the same match.
abbrev pub translated : Named → HeaderMatchCondition
translated (n, present) = matching n [] HeaderMatchType.present false
translated (n, notpresent) = matching n [] HeaderMatchType.present true
translated (n, contains c s) = matching n (c ∷ s) HeaderMatchType.contains false
translated (n, notcontains c s) = matching n (c ∷ s) HeaderMatchType.contains true
translated (n, exact c s) = matching n (c ∷ s) HeaderMatchType.exact false
translated (n, notexact c s) = matching n (c ∷ s) HeaderMatchType.exact true

header_match_condition-of_test :
    (n : Bytes) (t : Test) → header_match_condition (of_test n t) ≡ translated (n, t) ∷ []
unfolding header_match_condition
header_match_condition-of_test n present = refl
header_match_condition-of_test n notpresent = refl
header_match_condition-of_test n (contains c s) = refl
header_match_condition-of_test n (notcontains c s) = refl
header_match_condition-of_test n (exact c s) = refl
header_match_condition-of_test n (notexact c s) = refl

merged_from :
    (items : List (Bytes × Option Named))
    → header_match_conditions (header_conditions (map condition items))
      ≡ map translated (tests_of items)
unfolding header_match_conditions header_conditions
merged_from [] = refl
merged_from ((p, none) ∷ items) = merged_from items
merged_from ((p, some (n, t)) ∷ items) = rw (header_match_condition-of_test n t, merged_from items)

-- For match conditions that make at most one test of a header each, which is not an empty value, the
-- merged header conditions are these tests, one for one and in order, each with its match type, its
-- value and, for a "not" test, the inversion.
pub merge_header_match_conditions-tests :
    (items : List (Bytes × Option Named))
    → merge_header_match_conditions (map condition items) ≡ map translated (tests_of items)
unfolding merge_header_match_conditions
merge_header_match_conditions-tests items = merged_from items
