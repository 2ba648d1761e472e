-- ===== src/Sorter.antt =====
-- internal/sorter/sorter.go: the orders by which routes, headers and Envoy resources are sorted.
pub mod Routes
pub mod Headers
pub mod Clusters
pub mod Tests
use sesame.Common.{
  ◌==◌, nat_eq, string_eq, Bytes, bytes_eq, ltb, if◌then◌else◌, length, ℕ, ◌-◌, ◌/◌, Bool, true,
  false, not, ◌&&◌, ◌||◌, List, [], ◌∷◌,
}
use Prim.Native.Nat.{Ordering}
use sesame.Common.Order.{strings_compare, string_less}
use sesame.Dag.Match.{HeaderMatchCondition, HeaderMatchType, PathMatchCondition, PrefixMatchType}

-- the local function `compareValue`
abbrev compare_value : HeaderMatchCondition → HeaderMatchCondition → Bool
compare_value a b = elim (strings_compare a.value b.value) [
  | Ordering.lt ↦ true
  | Ordering.gt ↦ false
  | Ordering.eq ↦ not a.invert
]

-- the switch on the two match types
abbrev type_less :
    HeaderMatchCondition → HeaderMatchCondition → HeaderMatchType → HeaderMatchType → Bool
type_less a b HeaderMatchType.exact HeaderMatchType.exact = compare_value a b
type_less a b HeaderMatchType.exact HeaderMatchType.regex = true
type_less a b HeaderMatchType.exact HeaderMatchType.contains = true
type_less a b HeaderMatchType.exact HeaderMatchType.present = true
type_less a b HeaderMatchType.regex HeaderMatchType.regex = compare_value a b
type_less a b HeaderMatchType.regex HeaderMatchType.contains = true
type_less a b HeaderMatchType.regex HeaderMatchType.present = true
type_less a b HeaderMatchType.contains HeaderMatchType.contains = compare_value a b
type_less a b HeaderMatchType.contains HeaderMatchType.present = true
type_less a b HeaderMatchType.present HeaderMatchType.present = not a.invert
type_less a b _ _ = false

-- headerMatchConditionSorter.Less
unfoldable pub header_less : HeaderMatchCondition → HeaderMatchCondition → Bool
header_less a b = elim (strings_compare a.name b.name) [
  | Ordering.lt ↦ true
  | Ordering.gt ↦ false
  | Ordering.eq ↦ type_less a b a.match_type b.match_type
]

-- the loop of longestRouteByHeaderConditions, over two lists of one length
unfoldable pub some_pair_less : List HeaderMatchCondition → List HeaderMatchCondition → Bool
some_pair_less [] ys = false
some_pair_less (x ∷ xs) [] = false
some_pair_less (x ∷ xs) (y ∷ ys) = header_less x y || some_pair_less xs ys

-- what the sorter reads of a route of the graph
pub record Route : Type 0 where
  pub path : PathMatchCondition
  pub headers : List HeaderMatchCondition

unfoldable pub longest_route_by_header_conditions : Route → Route → Bool
longest_route_by_header_conditions l r =
    (length l.headers == length r.headers && some_pair_less l.headers r.headers)
    || ltb (length r.headers) (length l.headers)

-- the switch on strings.Compare where both paths are of one kind
abbrev descending : Bytes → Bytes → Bool → Bool
descending a b rest = elim (strings_compare a b) [
  | Ordering.gt ↦ true
  | Ordering.lt ↦ false
  | Ordering.eq ↦ rest
]

abbrev prefix_types_less : PrefixMatchType → PrefixMatchType → Bool → Bool
prefix_types_less PrefixMatchType.string PrefixMatchType.string rest = rest
prefix_types_less PrefixMatchType.segment PrefixMatchType.segment rest = rest
prefix_types_less PrefixMatchType.segment PrefixMatchType.string rest = true
prefix_types_less PrefixMatchType.string PrefixMatchType.segment rest = false

path_less : PathMatchCondition → PathMatchCondition → Bool → Bool
path_less (PathMatchCondition.prefix a s) (PathMatchCondition.prefix b t) rest =
    descending a b (prefix_types_less s t rest)
path_less (PathMatchCondition.regex a) (PathMatchCondition.regex b) rest = descending a b rest
path_less (PathMatchCondition.regex a) (PathMatchCondition.prefix b t) rest = true
path_less (PathMatchCondition.exact a) (PathMatchCondition.exact b) rest = descending a b rest
path_less (PathMatchCondition.exact a) (PathMatchCondition.prefix b t) rest = true
path_less (PathMatchCondition.exact a) (PathMatchCondition.regex b) rest = true
path_less _ _ rest = false

-- routeSorter.Less
unfoldable pub route_less : Route → Route → Bool
unfolding path_less
route_less i j = path_less i.path j.path (longest_route_by_header_conditions i j)

-- httpWeightedClusterSorter.Less and tcpWeightedClusterSorter.Less, on the name and the weight
unfoldable pub weighted_cluster_less : Bytes × ℕ → Bytes × ℕ → Bool
weighted_cluster_less (n, w) (m, v) = if n == m then ltb w v else string_less n m

-- filterChainSorter.Less, on the server names
unfoldable pub filter_chain_less : List Bytes → List Bytes → Bool
filter_chain_less [] j = false
filter_chain_less (a ∷ i) [] = true
filter_chain_less (a ∷ i) (b ∷ j) = string_less a b
