-- ===== src/Dag/Proxy/Expansion.antt =====
-- internal/dag/httpproxy_processor.go: what expandPrefixMatches keeps of the routes, and how the
-- routes that it makes rewrite a path.
use sesame.Common.{
  Comparable, ◌==◌, nat_eq, string_eq, Bytes, bytes_eq, Bool-cases, Option-cases, All, All-append,
  ◌≡◌, refl, inl, inr, Option, none, some, List, [], ◌∷◌, ◌++◌, arith,
}
use mathlib.Core.Path.{subst}
use sesame.Common.Text.{is_empty}
use sesame.Common.Assoc.{Map, lookup, insert}
use sesame.Dag.Match.{PathMatchCondition}
use sesame.Dag.Graph.{Cluster, Route}
use sesame.Dag.Proxy.Serving.{InOption}
use sesame.Dag.Proxy.Prefixes.{
  Groups, group_prefix, root_path, with_route, grouped, group_routes, split_route, split_on,
  expand_group, appended, expand_groups, expand_prefix_matches,
}

module _ {K V : Type 0} ⦃e : Comparable K⦄ (P : V → Type 0) where
  -- Every value of a map has the property.
  abbrev pub AllValues : Map K V → Type 0
  AllValues m = All (λ entry. P entry.1) m

  pub insert-AllValues :
      (key : K) (value : V) (m : Map K V) → P value → AllValues m → AllValues (insert key value m)
  unfolding insert
  insert-AllValues key value [] h a = (h, tt)
  insert-AllValues key value ((at, was) ∷ m) h a = elim (Bool-cases (e.eqb key at)) [
    | inl same ↦ rw same (h, a.1)
    | inr other ↦ rw other (a.0, insert-AllValues key value m h a.1)
  ]

  pub lookup-AllValues :
      (key : K) (value : V) (m : Map K V) → AllValues m → lookup key m ≡ some value → P value
  unfolding lookup
  lookup-AllValues key value [] a h = absurd (ground (arith, h))
  lookup-AllValues key value ((at, was) ∷ m) a h = elim (Bool-cases (e.eqb key at)) [
    | inl same ↦ let here : was ≡ value = ground (arith, h, same) in subst P here a.0
    | inr other ↦ lookup-AllValues key value m a.1 (ground (arith, h, other))
  ]

abbrev pub IsPrefix : PathMatchCondition → Type 0
IsPrefix (PathMatchCondition.prefix p t) = Unit
IsPrefix (PathMatchCondition.regex r) = ⊥
IsPrefix (PathMatchCondition.exact p) = ⊥

module _ (K : Cluster → Type 0) where
  -- A route on a prefix whose clusters, the mirror included, have the property.
  abbrev pub IsPrefixRoute : Route → Type 0
  IsPrefixRoute r = IsPrefix r.path × All K r.clusters × InOption K r.mirror_policy

  abbrev Grouped : Groups → Type 0
  Grouped groups = AllValues (λ rs. All IsPrefixRoute rs) groups

  with_route-Grouped :
      (groups : Groups) (r : Route) (p : Bytes)
      → Grouped groups
      → IsPrefixRoute r
      → Grouped (with_route groups r p)
  unfolding with_route
  with_route-Grouped groups r p g h = elim (Option-cases (lookup (group_prefix p) groups)) [
    | inl new ↦ rw (new, with_route) (insert-AllValues _ (group_prefix p) (r ∷ []) groups (h, tt) g)
    | inr (rs, old) ↦
        rw (old, with_route)
          (insert-AllValues _ (group_prefix p) (rs ++ r ∷ []) groups
            (All-append IsPrefixRoute rs (r ∷ [])
              (lookup-AllValues _ (group_prefix p) rs groups g old) (h, tt))
            g)
  ]

  grouped-Grouped :
      (groups : Groups) (r : Route) (m : PathMatchCondition)
      → IsPrefix m
      → Grouped groups
      → IsPrefixRoute r
      → (out : Groups) × (grouped groups r m ≡ some out) × Grouped out
  unfolding grouped
  grouped-Grouped groups r (PathMatchCondition.prefix p t) m g h =
      (with_route groups r p, refl, with_route-Grouped groups r p g h)
  grouped-Grouped groups r (PathMatchCondition.regex p) m g h = absurd m
  grouped-Grouped groups r (PathMatchCondition.exact p) m g h = absurd m

  group_routes-Grouped :
      (groups : Groups) (rs : List Route)
      → Grouped groups
      → All IsPrefixRoute rs
      → (out : Groups) × (group_routes groups rs ≡ some out) × Grouped out
  unfolding group_routes
  group_routes-Grouped groups [] g h = (groups, refl, g)
  group_routes-Grouped groups (r ∷ rs) g h =
      let (groups', e, g') = grouped-Grouped groups r r.path h.0.0 g h.0 in
      let (out, f, a) = group_routes-Grouped groups' rs g' h.1 in
      (out, rw (group_routes, e, f) refl, a)

  split_route-All :
      (prefix : Bytes) (r : Route) (p : Bytes)
      → IsPrefixRoute r
      → All IsPrefixRoute (split_route prefix r p)
  unfolding split_route
  split_route-All prefix r p h = elim (Bool-cases (is_empty r.prefix_rewrite)) [
    | inl none_set ↦ rw none_set (h, tt)
    | inr set ↦ elim (Bool-cases (p == root_path)) [
      | inl root ↦ rw (set, root) (h, tt)
      | inr other ↦ rw (set, other) ((tt, h.1, h.2), ((tt, h.1, h.2), tt))
    ]
  ]

  split_on-All :
      (prefix : Bytes) (r : Route) (m : PathMatchCondition)
      → IsPrefix m
      → IsPrefixRoute r
      → (out : List Route) × (split_on prefix r m ≡ some out) × All IsPrefixRoute out
  unfolding split_on
  split_on-All prefix r (PathMatchCondition.prefix p t) m h =
      (split_route prefix r p, refl, split_route-All prefix r p h)
  split_on-All prefix r (PathMatchCondition.regex p) m h = absurd m
  split_on-All prefix r (PathMatchCondition.exact p) m h = absurd m

  expand_group-All :
      (prefix : Bytes) (rs : List Route)
      → All IsPrefixRoute rs
      → (out : List Route) × (expand_group prefix rs ≡ some out) × All IsPrefixRoute out
  unfolding expand_group
  expand_group-All prefix [] h = ([], refl, tt)
  expand_group-All prefix (r ∷ []) h = split_on-All prefix r r.path h.0.0 h.0
  expand_group-All prefix (r ∷ q ∷ rs) h = (r ∷ q ∷ rs, refl, h)

  expand_groups-All :
      (groups : Groups)
      → Grouped groups
      → (out : List Route) × (expand_groups groups ≡ some out) × All IsPrefixRoute out
  unfolding expand_groups appended
  expand_groups-All [] g = ([], refl, tt)
  expand_groups-All ((prefix, rs) ∷ groups) g =
      let (here, e, h) = expand_group-All prefix rs g.0 in
      let (rest, f, hs) = expand_groups-All groups g.1 in
      (here ++ rest, (rw (e, f)), All-append IsPrefixRoute here rest h hs)

  -- On routes whose paths are all prefixes the expansion does not panic, and all its routes are on
  -- prefixes and have clusters with the property that those of the given routes have.
  pub expand_prefix_matches-All :
      (rs : List Route)
      → All IsPrefixRoute rs
      → (out : List Route) × (expand_prefix_matches rs ≡ some out) × All IsPrefixRoute out
  unfolding expand_prefix_matches
  expand_prefix_matches-All rs h =
      let (groups, e, g) = group_routes-Grouped [] rs tt h in
      let (out, f, a) = expand_groups-All groups g in (out, rw (e, f, expand_prefix_matches), a)

module _ (P Q : Cluster → Type 0) (f : (cluster : Cluster) → P cluster → Q cluster) where
  weaker-All : (clusters : List Cluster) → All P clusters → All Q clusters
  weaker-All [] h = tt
  weaker-All (x ∷ xs) h = (f x h.0, weaker-All xs h.1)

  weaker-InOption : (o : Option Cluster) → InOption P o → InOption Q o
  weaker-InOption none h = tt
  weaker-InOption (some x) h = f x h

  pub weaker-IsPrefixRoute : (r : Route) → IsPrefixRoute P r → IsPrefixRoute Q r
  weaker-IsPrefixRoute r h = (h.0, weaker-All r.clusters h.1, weaker-InOption r.mirror_policy h.2)
