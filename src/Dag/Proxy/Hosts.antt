-- ===== src/Dag/Proxy/Hosts.antt =====
-- internal/dag/dag.go: addRoute and conditionsToString, with the texts of the conditions;
-- EnsureVirtualHost of internal/dag/accessors.go.
use sesame.Common.{
  nat_eq, string_eq, list_beq, Bytes, bytes_eq, Bool, true, false, none, some, List, [], ◌∷◌, ◌++◌,
  map,
}
use sesame.Common.Text.{bytes, join}
use sesame.Common.Assoc.{Map, lookup, insert}
use sesame.Dag.Match.{
  HeaderMatchType, HeaderMatchCondition, PathMatchCondition, PrefixMatchType, string, segment,
}
use sesame.Dag.Graph.{Dag, Route, VirtualHost}
use sesame.Dag.Proxy.Checks.{Check}
use sesame.Dag.Proxy.Chains.{new_virtual_host}
use sesame.Dag.Proxy.Tls.{Secured}

abbrev pub match_type_text : HeaderMatchType → Bytes
match_type_text HeaderMatchType.exact = bytes "exact"
match_type_text HeaderMatchType.contains = bytes "contains"
match_type_text HeaderMatchType.present = bytes "present"
match_type_text HeaderMatchType.regex = bytes "regex"

abbrev pub bool_text : Bool → Bytes
bool_text true = bytes "true"
bool_text false = bytes "false"

-- the String methods of the conditions
abbrev pub header_text : HeaderMatchCondition → Bytes
unfolding join
header_text h =
    bytes "header: "
    ++ join (bytes "&") (
        (bytes "name=" ++ h.name)
        ∷ (bytes "value=" ++ h.value)
        ∷ bytes "matchtype="
        ∷ match_type_text h.match_type
        ∷ bytes "invert="
        ∷ bool_text h.invert
        ∷ [])

abbrev pub prefix_type_text : PrefixMatchType → Bytes
prefix_type_text string = bytes "string"
prefix_type_text segment = bytes "segment"

abbrev pub path_text : PathMatchCondition → Bytes
path_text (PathMatchCondition.prefix p t) =
    bytes "prefix: " ++ p ++ bytes " type: " ++ prefix_type_text t
path_text (PathMatchCondition.regex r) = bytes "regex: " ++ r
path_text (PathMatchCondition.exact p) = bytes "exact: " ++ p

unfoldable pub conditions_to_string : Route → Bytes
unfolding join
conditions_to_string r = join (bytes ",") (path_text r.path ∷ map header_text r.headers)

-- addRoutes, on the routes of a virtual host
unfoldable pub add_routes : List Route → Map Bytes Route → Map Bytes Route
unfolding conditions_to_string insert
add_routes [] kept = kept
add_routes (r ∷ rs) kept = add_routes rs (insert (conditions_to_string r) r kept)

unfoldable pub ensure_virtual_host : Bytes → Dag → VirtualHost
unfolding lookup list_beq
ensure_virtual_host host g = elim (lookup host g.virtual_hosts) [
  | none ↦ new_virtual_host host
  | some v ↦ v
]

-- a write through the pointer to the virtual host
unfoldable pub write_insecure : Bytes → (VirtualHost → VirtualHost) → Check Secured (Unit {0})
write_insecure host f s = (
  record s {
    graph = record s.graph {
      virtual_hosts = insert host (f (ensure_virtual_host host s.graph)) s.graph.virtual_hosts;
    };
  },
  some tt,
)
