-- ===== src/Sorter/Routes.antt =====
-- internal/sorter/sorter.go: which of two routes is matched first.
use sesame.Common.{
  nat_eq, string_eq, Bytes, bytes_eq, length, ℕ, ◌<◌, ◌≡◌, refl, ◌⊎◌, Bool, true, false, List, [],
  ◌∷◌, ◌++◌, arith,
}
use sesame.Common.Order.{
  strings_compare_refl, eq_of_strings_compare, strings_compare-flip, strings_compare_trans,
  strings_compare-append,
}
use sesame.Dag.Match.{
  HeaderMatchCondition, PathMatchCondition, prefix, regex, exact, PrefixMatchType, string, segment,
}
use sesame.Sorter.{route_less, some_pair_less, longest_route_by_header_conditions}
use sesame.Sorter.Clusters.{IsStrictTotal}
use sesame.Sorter.Headers.{route}

-- A route with a longer prefix is matched before a route whose prefix it extends, whatever their
-- kinds of prefix and their headers.
pub longer_prefix_first :
    (p : Bytes) (c : ℕ) (t : Bytes) (k l : PrefixMatchType) (hs gs : List HeaderMatchCondition)
    → (route_less (route (prefix (p ++ (c ∷ t)) k) hs) (route (prefix p l) gs) ≡ true)
      × (route_less (route (prefix p l) gs) (route (prefix (p ++ (c ∷ t)) k) hs) ≡ false)
unfolding route_less
longer_prefix_first p c t k l hs gs =
    let after = strings_compare-append p c t in
    let before = strings_compare-flip (p ++ (c ∷ t)) p in (ground arith, ground arith)

longest-more :
    (p : PathMatchCondition) (hs gs : List HeaderMatchCondition)
    → length gs < length hs
    → (longest_route_by_header_conditions (route p hs) (route p gs) ≡ true)
      × (longest_route_by_header_conditions (route p gs) (route p hs) ≡ false)
unfolding longest_route_by_header_conditions
longest-more p hs gs h = (ground arith, ground arith)

-- Of two routes with one path, the route with more header conditions is matched first.
pub more_headers_first :
    (p : PathMatchCondition) (hs gs : List HeaderMatchCondition)
    → length gs < length hs
    → (route_less (route p hs) (route p gs) ≡ true) × (route_less (route p gs) (route p hs) ≡ false)
unfolding route_less
more_headers_first (prefix q string) hs gs h =
    ground (arith, strings_compare_refl q, longest-more (prefix q string) hs gs h)
more_headers_first (prefix q segment) hs gs h =
    ground (arith, strings_compare_refl q, longest-more (prefix q segment) hs gs h)
more_headers_first (regex q) hs gs h =
    ground (arith, strings_compare_refl q, longest-more (regex q) hs gs h)
more_headers_first (exact q) hs gs h =
    ground (arith, strings_compare_refl q, longest-more (exact q) hs gs h)

abbrev pub plain_less : PathMatchCondition → PathMatchCondition → Bool
plain_less p q = route_less (route p []) (route q [])

no_headers :
    (p q : PathMatchCondition)
    → longest_route_by_header_conditions (route p []) (route q []) ≡ false
unfolding longest_route_by_header_conditions some_pair_less
no_headers p q = refl

plain_irreflexive : (p : PathMatchCondition) → plain_less p p ≡ false
unfolding route_less
plain_irreflexive (prefix q string) =
    ground (arith, strings_compare_refl q, no_headers (prefix q string) (prefix q string))
plain_irreflexive (prefix q segment) =
    ground (arith, strings_compare_refl q, no_headers (prefix q segment) (prefix q segment))
plain_irreflexive (regex q) = ground (arith, strings_compare_refl q, no_headers (regex q) (regex q))
plain_irreflexive (exact q) = ground (arith, strings_compare_refl q, no_headers (exact q) (exact q))

plain_total :
    (p q : PathMatchCondition) → (p ≡ q) ⊎ (plain_less p q ≡ true) ⊎ (plain_less q p ≡ true)
unfolding route_less
plain_total (prefix a k) (prefix b l) =
    ground (arith, strings_compare-flip a b, eq_of_strings_compare a b)
plain_total (prefix a k) (regex b) = ground arith
plain_total (prefix a k) (exact b) = ground arith
plain_total (regex a) (prefix b l) = ground arith
plain_total (regex a) (regex b) =
    ground (arith, strings_compare-flip a b, eq_of_strings_compare a b)
plain_total (regex a) (exact b) = ground arith
plain_total (exact a) (prefix b l) = ground arith
plain_total (exact a) (regex b) = ground arith
plain_total (exact a) (exact b) =
    ground (arith, strings_compare-flip a b, eq_of_strings_compare a b)

plain_transitive :
    (p q r : PathMatchCondition)
    → plain_less p q ≡ true
    → plain_less q r ≡ true
    → plain_less p r ≡ true
unfolding route_less
plain_transitive (prefix a k) (prefix b l) (prefix c m) h i = ground (
  arith,
  strings_compare_trans c b a,
  strings_compare-flip a b,
  strings_compare-flip b c,
  strings_compare-flip a c,
  eq_of_strings_compare a b,
  eq_of_strings_compare b c,
  strings_compare_refl a,
)
plain_transitive (regex a) (regex b) (regex c) h i = ground (
  arith,
  strings_compare_trans c b a,
  strings_compare-flip a b,
  strings_compare-flip b c,
  strings_compare-flip a c,
  eq_of_strings_compare a b,
  eq_of_strings_compare b c,
  strings_compare_refl a,
)
plain_transitive (exact a) (exact b) (exact c) h i = ground (
  arith,
  strings_compare_trans c b a,
  strings_compare-flip a b,
  strings_compare-flip b c,
  strings_compare-flip a c,
  eq_of_strings_compare a b,
  eq_of_strings_compare b c,
  strings_compare_refl a,
)
plain_transitive _ _ _ h i = ground arith

-- Routes without header conditions are sorted by a strict total order on their paths.
pub plain_less-IsStrictTotal : IsStrictTotal plain_less
plain_less-IsStrictTotal = record {
  irreflexive = plain_irreflexive;
  transitive = plain_transitive;
  total = plain_total;
}
