-- ===== src/Sorter/Tests.antt =====
-- The sorters at concrete inputs.
use sesame.Common.{nat_eq, string_eq, bytes_eq, String, ◌≡◌, refl, true, false, not, [], ◌∷◌, ◌++◌}
use sesame.Common.Text.{bytes}
use sesame.Common.Order.{strings_compare}
use sesame.Dag.Match.{HeaderMatchCondition, HeaderMatchType, prefix, string}
use sesame.Sorter.{header_less, longest_route_by_header_conditions, route_less}
use sesame.Sorter.Headers.{HasPlain, route, less_than_itself, crossed_routes_less_both_ways}
use sesame.Sorter.Routes.{longer_prefix_first}

abbrev has : String → HeaderMatchCondition
has n = record { name = bytes n; value = []; match_type = HeaderMatchType.present; invert = false }

longer_prefix_first_example :
    (route_less
        (route (prefix (bytes "/a" ++ (b'/' ∷ bytes "b")) string) [])
        (route (prefix (bytes "/a") string) (has "x" ∷ []))
      ≡ true)
    × (route_less
          (route (prefix (bytes "/a") string) (has "x" ∷ []))
          (route (prefix (bytes "/a" ++ (b'/' ∷ bytes "b")) string) [])
        ≡ false)
longer_prefix_first_example =
    longer_prefix_first (bytes "/a") b'/' (bytes "b") string string [] (has "x" ∷ [])

less_than_itself_example :
    (header_less (has "x") (has "x") ≡ not (has "x").invert)
    × (HasPlain (has "x" ∷ [])
        → longest_route_by_header_conditions
            (route (prefix [] string) (has "x" ∷ []))
            (route (prefix [] string) (has "x" ∷ []))
          ≡ true)
less_than_itself_example = less_than_itself (has "x") (route (prefix [] string) (has "x" ∷ []))

crossed_routes_less_both_ways_example :
    (route_less
        (route (prefix [] string) (has "a" ∷ has "d" ∷ []))
        (route (prefix [] string) (has "b" ∷ has "c" ∷ []))
      ≡ true)
    × (route_less
          (route (prefix [] string) (has "b" ∷ has "c" ∷ []))
          (route (prefix [] string) (has "a" ∷ has "d" ∷ []))
        ≡ true)
unfolding strings_compare
crossed_routes_less_both_ways_example =
    crossed_routes_less_both_ways (prefix [] string) (has "a") (has "d") (has "b") (has "c") refl
      refl
