-- ===== src/Sorter/Headers.antt =====
-- internal/sorter/sorter.go: the order of header conditions.
use sesame.Common.{
  ==_iff, nat_eq, string_eq, bytes_eq, length, ◌≡◌, refl, ◌∙◌, ◌⊎◌, inl, inr, Bool, true, false,
  not, List, [], ◌∷◌, arith,
}
use Prim.Native.Nat.{Ordering}
use sesame.Common.Order.{strings_compare, strings_compare_refl}
use sesame.Dag.Match.{PathMatchCondition, HeaderMatchCondition, HeaderMatchType, PrefixMatchType}
use sesame.Sorter.{
  path_less, route_less, header_less, type_less, some_pair_less, Route,
  longest_route_by_header_conditions,
}

type_less_refl : (h : HeaderMatchCondition) (t : HeaderMatchType) → type_less h h t t ≡ not h.invert
type_less_refl h HeaderMatchType.exact = ground (arith, strings_compare_refl h.value)
type_less_refl h HeaderMatchType.regex = ground (arith, strings_compare_refl h.value)
type_less_refl h HeaderMatchType.contains = ground (arith, strings_compare_refl h.value)
type_less_refl h HeaderMatchType.present = refl

header_less_refl : (h : HeaderMatchCondition) → header_less h h ≡ not h.invert
unfolding header_less
header_less_refl h = ground (arith, strings_compare_refl h.name, type_less_refl h h.match_type)

-- Some condition of the list is not inverted.
abbrev pub HasPlain : List HeaderMatchCondition → Type 0
HasPlain [] = ⊥
HasPlain (h ∷ hs) = (h.invert ≡ false) ⊎ HasPlain hs

some_pair_less_refl : (hs : List HeaderMatchCondition) → HasPlain hs → some_pair_less hs hs ≡ true
unfolding some_pair_less
some_pair_less_refl [] p = elim p [ ]
some_pair_less_refl (h ∷ hs) (inl e) = ground (arith, header_less_refl h)
some_pair_less_refl (h ∷ hs) (inr p) = ground (arith, some_pair_less_refl hs p)

longest-true :
    (i j : Route)
    → length i.headers ≡ length j.headers
    → some_pair_less i.headers j.headers ≡ true
    → longest_route_by_header_conditions i j ≡ true
unfolding longest_route_by_header_conditions
longest-true i j e h = ground (arith, ==_iff (length i.headers) (length j.headers))

-- A condition sorts before itself unless it is inverted; so do the header conditions of any route
-- with a condition that is not inverted: Less(i, i) holds, which no strict order allows.
pub less_than_itself :
    (h : HeaderMatchCondition) (r : Route)
    → (header_less h h ≡ not h.invert)
      × (HasPlain r.headers → longest_route_by_header_conditions r r ≡ true)
less_than_itself h r =
    (header_less_refl h, λ p. longest-true r r refl (some_pair_less_refl r.headers p))

header_less_of_name :
    (a b : HeaderMatchCondition)
    → strings_compare a.name b.name ≡ Ordering.lt
    → header_less a b ≡ true
unfolding header_less
header_less_of_name a b e = ground arith

abbrev pub route : PathMatchCondition → List HeaderMatchCondition → Route
route p hs = record { path = p; headers = hs }

crossed_pairs :
    (a b c d : HeaderMatchCondition)
    → (header_less a c ≡ true) ⊎ (header_less b d ≡ true)
    → some_pair_less (a ∷ b ∷ []) (c ∷ d ∷ []) ≡ true
unfolding some_pair_less
crossed_pairs a b c d (inl e) = ground arith
crossed_pairs a b c d (inr e) = ground arith

path_less_refl : (p : PathMatchCondition) (rest : Bool) → path_less p p rest ≡ rest
unfolding path_less
path_less_refl (PathMatchCondition.prefix a PrefixMatchType.string) rest =
    ground (arith, strings_compare_refl a)
path_less_refl (PathMatchCondition.prefix a PrefixMatchType.segment) rest =
    ground (arith, strings_compare_refl a)
path_less_refl (PathMatchCondition.regex a) rest = ground (arith, strings_compare_refl a)
path_less_refl (PathMatchCondition.exact a) rest = ground (arith, strings_compare_refl a)

same_path_less :
    (p : PathMatchCondition) (hs gs : List HeaderMatchCondition)
    → longest_route_by_header_conditions (route p hs) (route p gs) ≡ true
    → route_less (route p hs) (route p gs) ≡ true
unfolding route_less
same_path_less p hs gs h = path_less_refl p _ ∙ h

-- Two routes with one path and two header conditions each, whose header names are crossed, the first
-- name of one and the second name of the other being the smaller, each sort before the other.
pub crossed_routes_less_both_ways :
    (p : PathMatchCondition) (a b c d : HeaderMatchCondition)
    → strings_compare a.name c.name ≡ Ordering.lt
    → strings_compare d.name b.name ≡ Ordering.lt
    → (route_less (route p (a ∷ b ∷ [])) (route p (c ∷ d ∷ [])) ≡ true)
      × (route_less (route p (c ∷ d ∷ [])) (route p (a ∷ b ∷ [])) ≡ true)
crossed_routes_less_both_ways p a b c d less more = (
  same_path_less p (a ∷ b ∷ []) (c ∷ d ∷ []) (
      longest-true (route p (a ∷ b ∷ [])) (route p (c ∷ d ∷ [])) refl
        (crossed_pairs a b c d (inl (header_less_of_name a c less)))),
  same_path_less p (c ∷ d ∷ []) (a ∷ b ∷ []) (
      longest-true (route p (c ∷ d ∷ [])) (route p (a ∷ b ∷ [])) refl
        (crossed_pairs c d a b (inr (header_less_of_name d b more)))),
)
