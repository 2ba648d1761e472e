-- ===== src/Dag/Proxy/Grouping.antt =====
-- internal/dag/httpproxy_processor.go: the groups of expandPrefixMatches, and what becomes of them.
use sesame.Common.{
  append_nil, ◌==◌, ==_iff, nat_eq, string_eq, Bytes, bytes_eq, if◌then◌else◌, Bool-cases,
  Option-cases, All, ◌≡◌, refl, sym, ap, ◌∙◌, inl, inr, Bool, false, Option, none, some, List, [],
  ◌∷◌, ◌++◌, arith,
}
use mathlib.Core.Path.{subst}
use mathlib.Core.List as L
use sesame.Common.Assoc.{lookup, insert, lookup-insert}
use sesame.Dag.Match.{PathMatchCondition}
use sesame.Dag.Graph.{Route, Cluster}
use sesame.Dag.Proxy.Serving.{InOption}
use sesame.Dag.Proxy.Prefixes.{
  Groups, group_prefix, with_route, grouped, group_routes, expand_group, appended, expand_groups,
  expand_prefix_matches,
}
use sesame.Dag.Proxy.Expansion.{IsPrefix, IsPrefixRoute, expand_prefix_matches-All}

-- the path has this prefix, as the groups are named
abbrev pub in_group : Bytes → PathMatchCondition → Bool
in_group k (PathMatchCondition.prefix p t) = group_prefix p == k
in_group k (PathMatchCondition.regex p) = false
in_group k (PathMatchCondition.exact p) = false

-- the routes of a group, in their order
abbrev pub routes_of : Bytes → List Route → List Route
routes_of k [] = []
routes_of k (r ∷ rs) = let rest = routes_of k rs in if in_group k r.path then r ∷ rest else rest

abbrev held : Option (List Route) → List Route
held none = []
held (some rs) = rs

with_route-open :
    (groups : Groups) (r : Route) (p : Bytes)
    → with_route groups r p
      ≡ insert (group_prefix p) (held (lookup (group_prefix p) groups) ++ r ∷ []) groups
unfolding with_route
with_route-open groups r p = elim (Option-cases (lookup (group_prefix p) groups)) [
  | inl new ↦ rw (new, with_route) refl
  | inr (rs, old) ↦ rw (old, with_route) refl
]

added-held :
    (groups : Groups) (r : Route) (key k : Bytes)
    → held (lookup k (insert key (held (lookup key groups) ++ r ∷ []) groups))
      ≡ held (lookup k groups) ++ (if key == k then r ∷ [] else [])
added-held groups r key k = elim (Bool-cases (key == k)) [
  | inl same ↦
      rw
        (
          lookup-insert key k (held (lookup key groups) ++ r ∷ []) groups,
          same,
          (==_iff key k).0 same,
        )
        refl
  | inr other ↦
      rw (lookup-insert key k (held (lookup key groups) ++ r ∷ []) groups, other)
        (sym (append_nil (held (lookup k groups))))
]

-- The groups hold, under each name, the routes that they held before and these.
abbrev Holds : Groups → List Route → Groups → Type 0
Holds before rs after =
    (k : Bytes) → held (lookup k after) ≡ held (lookup k before) ++ routes_of k rs

grouped-Holds :
    (groups : Groups) (r : Route) (m : PathMatchCondition)
    → r.path ≡ m
    → IsPrefix m
    → (out : Groups) × (grouped groups r m ≡ some out) × Holds groups (r ∷ []) out
unfolding grouped
grouped-Holds groups r (PathMatchCondition.prefix p t) e h = (
  with_route groups r p,
  refl,
  λ k.
      ap (λ gs. held (lookup k gs)) (with_route-open groups r p)
      ∙ added-held groups r (group_prefix p) k
      ∙ ap (λ b. held (lookup k groups) ++ (if b then r ∷ [] else [])) (ap (in_group k) (sym e)),
)
grouped-Holds groups r (PathMatchCondition.regex p) e h = absurd h
grouped-Holds groups r (PathMatchCondition.exact p) e h = absurd h

routes_of-cons :
    (k : Bytes) (r : Route) (rs : List Route)
    → routes_of k (r ∷ rs) ≡ routes_of k (r ∷ []) ++ routes_of k rs
routes_of-cons k r rs = elim (Bool-cases (in_group k r.path)) [
  | inl here ↦ rw here refl
  | inr other ↦ rw other refl
]

group_routes-Holds :
    (groups : Groups) (rs : List Route)
    → All (λ r. IsPrefix r.path) rs
    → (out : Groups) × (group_routes groups rs ≡ some out) × Holds groups rs out
unfolding group_routes
group_routes-Holds groups [] h = (groups, refl, λ k. sym (append_nil (held (lookup k groups))))
group_routes-Holds groups (r ∷ rs) (h, hs) =
    let (groups', e, one) = grouped-Holds groups r r.path refl h in
    let (out, f, others) = group_routes-Holds groups' rs hs in
    (
      out,
      rw (group_routes, e, f) refl,
      λ k.
          others k
          ∙ ap (λ t. t ++ routes_of k rs) (one k)
          ∙ L.append_assoc (held (lookup k groups)) (routes_of k (r ∷ [])) (routes_of k rs)
          ∙ ap (λ t. held (lookup k groups) ++ t) (sym (routes_of-cons k r rs)),
    )

appended-some :
    (a b : Option (List Route)) (out : List Route)
    → appended a b ≡ some out
    → (here : List Route) × (rest : List Route) × (a ≡ some here)
      × (b ≡ some rest)
      × (out ≡ here ++ rest)
unfolding appended
appended-some (some here) (some rest) out e = (here, rest, refl, refl, ground (arith, e))
appended-some (some here) none out e = absurd (ground (arith, e))
appended-some none b out e = absurd (ground (arith, e))

expand_groups-lookup :
    (groups : Groups) (k : Bytes) (rs out : List Route)
    → expand_groups groups ≡ some out
    → lookup k groups ≡ some rs
    → (before : List Route) × (made : List Route) × (after : List Route) × (expand_group k rs
        ≡ some made)
      × (out ≡ before ++ (made ++ after))
unfolding expand_groups lookup
expand_groups-lookup [] k rs out e found = absurd (ground (arith, found))
expand_groups-lookup ((at, qs) ∷ groups) k rs out e found =
    let (here, rest, a, b, whole) =
      appended-some (expand_group at qs) (expand_groups groups) out e in
    elim (Bool-cases (k == at)) [
      | inl same ↦
          let is : qs ≡ rs = ground (arith, found, same) in
          (
            [],
            here,
            rest,
            subst (λ qs. expand_group k qs ≡ some here) is
                (subst (λ n. expand_group n qs ≡ some here) (sym ((==_iff k at).0 same)) a),
            whole,
          )
      | inr other ↦
          let (before, made, after, m, split) =
            expand_groups-lookup groups k rs rest b (ground (arith, found, other)) in
          (
            here ++ before,
            made,
            after,
            m,
            whole ∙ ap (λ t. here ++ t) split ∙ sym (L.append_assoc here before (made ++ after)),
          )
    ]

held-some :
    (o : Option (List Route)) (r : Route) (rs : List Route) → held o ≡ r ∷ rs → o ≡ some (r ∷ rs)
held-some none r rs e = absurd (ground (arith, e))
held-some (some qs) r rs e = ap (λ t. some t) e

abbrev IsAny : Cluster → Type 0
IsAny cluster = Unit

All-IsAny : (clusters : List Cluster) → All IsAny clusters
All-IsAny [] = tt
All-IsAny (x ∷ xs) = (tt, All-IsAny xs)

InOption-IsAny : (o : Option Cluster) → InOption IsAny o
InOption-IsAny none = tt
InOption-IsAny (some x) = tt

plain_routes : (rs : List Route) → All (λ r. IsPrefix r.path) rs → All (IsPrefixRoute IsAny) rs
plain_routes [] h = tt
plain_routes (r ∷ rs) (h, hs) =
    ((h, All-IsAny r.clusters, InOption-IsAny r.mirror_policy), plain_routes rs hs)

expand_prefix_matches-open :
    (rs : List Route) (groups : Groups)
    → group_routes [] rs ≡ some groups
    → expand_prefix_matches rs ≡ expand_groups groups
unfolding expand_prefix_matches
expand_prefix_matches-open rs groups e = rw (expand_prefix_matches, e) refl

-- What the group of a name becomes stands in the result, in one piece.
pub expand_prefix_matches-group :
    (rs : List Route) (k : Bytes) (r : Route) (more : List Route)
    → All (λ r. IsPrefix r.path) rs
    → routes_of k rs ≡ r ∷ more
    → (before : List Route) × (made : List Route) × (after : List Route) × (expand_prefix_matches rs
        ≡ some (before ++ (made ++ after)))
      × (expand_group k (r ∷ more) ≡ some made)
unfolding lookup
expand_prefix_matches-group rs k r more prefixes alone =
    let (groups, e, holds) = group_routes-Holds [] rs prefixes in
    let (out, expanded, _) = expand_prefix_matches-All IsAny rs (plain_routes rs prefixes) in
    let (before, made, after, made_of, split) =
      expand_groups-lookup groups k (r ∷ more) out
        (sym (expand_prefix_matches-open rs groups e) ∙ expanded)
        (held-some (lookup k groups) r more (holds k ∙ alone)) in
    (before, made, after, expanded ∙ ap (λ t. some t) split, made_of)
