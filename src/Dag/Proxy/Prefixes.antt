-- ===== src/Dag/Proxy/Prefixes.antt =====
-- internal/dag/httpproxy_processor.go: expandPrefixMatches. The order of the groups is that in which
-- they appear, where the source has the order of a Go map; `none` is the panic of the type assertion
-- on a path that is no prefix.
use sesame.Common.{
  ◌==◌, nat_eq, string_eq, list_beq, Bytes, bytes_eq, if◌then◌else◌, Option, none, some, List, [],
  ◌∷◌, ◌++◌,
}
use sesame.Common.Text.{is_empty, trim_right}
use sesame.Common.Assoc.{Map, lookup, insert}
use sesame.Dag.Match.{PathMatchCondition, string}
use sesame.Dag.Graph.{Route}

-- strings.TrimRight(s, "/")
unfoldable pub trim_slashes : Bytes → Bytes
unfolding trim_right
trim_slashes s = trim_right (λ c. c == b'/') s

abbrev pub root_path : Bytes
root_path = b'/' ∷ []

unfoldable pub group_prefix : Bytes → Bytes
unfolding trim_slashes list_beq
group_prefix p = if p == root_path then p else trim_slashes p

abbrev pub Groups : Type 0
Groups = Map Bytes (List Route)

unfoldable pub with_route : Groups → Route → Bytes → Groups
unfolding lookup insert group_prefix
with_route groups r p =
    let key = group_prefix p in
    elim (lookup key groups) [
      | none ↦ insert key (r ∷ []) groups
      | some rs ↦ insert key (rs ++ r ∷ []) groups
    ]

-- a round of the first loop
unfoldable pub grouped : Groups → Route → PathMatchCondition → Option Groups
unfolding with_route
grouped groups r (PathMatchCondition.prefix p t) = some (with_route groups r p)
grouped groups r (PathMatchCondition.regex p) = none
grouped groups r (PathMatchCondition.exact p) = none

unfoldable pub group_routes : Groups → List Route → Option Groups
group_routes groups [] = some groups
group_routes groups (r ∷ rs) = elim (grouped groups r r.path) [
  | none ↦ none
  | some groups' ↦ group_routes groups' rs
]

-- the two routes of a group of one, for the prefix with and without a final slash
unfoldable pub without_slash : Bytes → Route → Route
unfolding trim_slashes
without_slash prefix r =
    let rewrite = trim_slashes r.prefix_rewrite in
    record r {
      prefix_rewrite = if is_empty rewrite then root_path else rewrite;
      path = PathMatchCondition.prefix prefix string;
    }

unfoldable pub with_slash : Bytes → Route → Route
unfolding trim_slashes
with_slash prefix r = record r {
  prefix_rewrite = trim_slashes r.prefix_rewrite ++ root_path;
  path = PathMatchCondition.prefix (prefix ++ root_path) string;
}

unfoldable pub split_route : Bytes → Route → Bytes → List Route
unfolding list_beq without_slash with_slash
split_route prefix r p =
    if is_empty r.prefix_rewrite
    then r ∷ []
    else if p == root_path
    then r ∷ []
    else without_slash prefix r ∷ with_slash prefix r ∷ []

unfoldable pub split_on : Bytes → Route → PathMatchCondition → Option (List Route)
unfolding split_route
split_on prefix r (PathMatchCondition.prefix p t) = some (split_route prefix r p)
split_on prefix r (PathMatchCondition.regex p) = none
split_on prefix r (PathMatchCondition.exact p) = none

-- the switch of the second loop
unfoldable pub expand_group : Bytes → List Route → Option (List Route)
expand_group prefix (r ∷ []) = split_on prefix r r.path
expand_group prefix rs = some rs

unfoldable pub appended : Option (List Route) → Option (List Route) → Option (List Route)
appended (some rs) (some more) = some (rs ++ more)
appended _ _ = none

unfoldable pub expand_groups : Groups → Option (List Route)
unfolding expand_group appended
expand_groups [] = some []
expand_groups ((prefix, rs) ∷ groups) = appended (expand_group prefix rs) (expand_groups groups)

unfoldable pub expand_prefix_matches : List Route → Option (List Route)
unfolding group_routes expand_groups
expand_prefix_matches rs = elim (group_routes [] rs) [
  | none ↦ none
  | some groups ↦ expand_groups groups
]
