-- ===== src/Dag/Proxy/Rewriting.antt =====
-- internal/dag/httpproxy_processor.go: the table above expandPrefixMatches.
use sesame.Common.{
  append_nil, append_assoc, drop, ◌==◌, ==_refl, nat_eq, string_eq, Bytes, bytes_eq, if◌then◌else◌,
  length, All, ◌≡◌, refl, sym, ap, ◌∙◌, true, false, Option, none, some, List, [], ◌∷◌, ◌++◌, arith,
}
use mathlib.Core.Path.{subst}
use sesame.Common.Text.{is_empty, has_prefix}
use sesame.Dag.Proxy.Expansion.{IsPrefix}
use sesame.Dag.Proxy.Grouping.{routes_of, expand_prefix_matches-group}
use sesame.Dag.Match.{PathMatchCondition, PrefixMatchType, string}
use sesame.Dag.Graph.{Route}
use sesame.Dag.Proxy.Prefixes.{
  trim_slashes, root_path, without_slash, with_slash, split_route, split_on, expand_group,
  expand_prefix_matches,
}

has_prefix-append : (p rest : Bytes) → has_prefix (p ++ rest) p ≡ true
unfolding has_prefix
has_prefix-append [] rest = refl
has_prefix-append (c ∷ p) rest = ground (arith, has_prefix-append p rest, ==_refl c)

drop-append : (p rest : Bytes) → drop (length p) (p ++ rest) ≡ rest
drop-append [] rest = refl
drop-append (c ∷ p) rest = drop-append p rest

-- What the proxy makes of a path: the prefix that matches is replaced; `none` where it does not.
abbrev pub rewritten_on : PathMatchCondition → Bytes → Bytes → Option Bytes
unfolding has_prefix
rewritten_on (PathMatchCondition.prefix p t) rewrite path =
    if has_prefix path p then some (rewrite ++ drop (length p) path) else none
rewritten_on (PathMatchCondition.regex r) rewrite path = none
rewritten_on (PathMatchCondition.exact p) rewrite path = none

abbrev pub rewritten : Route → Bytes → Option Bytes
rewritten r path = rewritten_on r.path r.prefix_rewrite path

prefix_rewritten :
    (p rewrite rest : Bytes) (t : PrefixMatchType)
    → rewritten_on (PathMatchCondition.prefix p t) rewrite (p ++ rest) ≡ some (rewrite ++ rest)
unfolding rewritten_on
prefix_rewritten p rewrite rest t = rw (has_prefix-append p rest, drop-append p rest) refl

path_rewritten :
    (p rewrite : Bytes) (t : PrefixMatchType)
    → rewritten_on (PathMatchCondition.prefix p t) rewrite p ≡ some rewrite
path_rewritten p rewrite t =
    subst (λ q. rewritten_on (PathMatchCondition.prefix p t) rewrite q ≡ some rewrite)
      (append_nil p) (prefix_rewritten p rewrite [] t ∙ ap (λ s. some s) (append_nil rewrite))

slash_rewritten :
    (p rewrite rest : Bytes) (t : PrefixMatchType)
    → rewritten_on
        (PathMatchCondition.prefix (p ++ root_path) t)
        (rewrite ++ root_path)
        (p ++ b'/' ∷ rest)
      ≡ some (rewrite ++ b'/' ∷ rest)
slash_rewritten p rewrite rest t =
    subst
      (λ q.
        rewritten_on (PathMatchCondition.prefix (p ++ root_path) t) (rewrite ++ root_path) q
        ≡ some (rewrite ++ b'/' ∷ rest))
      (append_assoc p b'/' rest)
      (prefix_rewritten (p ++ root_path) (rewrite ++ root_path) rest t
        ∙ ap (λ s. some s) (append_assoc rewrite b'/' rest))

some-injective : {xs ys : List Route} → ◌≡◌ {A = Option (List Route)} (some xs) (some ys) → xs ≡ ys
some-injective e = ground (arith, e)

split_alone :
    (r : Route) (m : PathMatchCondition) (prefix p : Bytes) (t : PrefixMatchType)
    → m ≡ PathMatchCondition.prefix p t
    → is_empty r.prefix_rewrite ≡ false
    → (p == root_path) ≡ false
    → split_on prefix r m ≡ some (without_slash prefix r ∷ with_slash prefix r ∷ [])
unfolding split_on split_route
split_alone r m prefix p t e set other = rw (e, set, other) refl

-- The routes are all on prefixes; one of them has a prefix p other than `/` and a rewrite that is not
-- empty, and no other route has the prefix p, up to final slashes (of a prefix other than `/`). It is
-- expanded into two that stand one after the other in the result. The first takes p without its final
-- slashes to the rewrite without its final slashes, or to `/` where nothing of it is left. The second
-- takes a path that goes on after p without its final slashes and one slash to the rewrite without
-- its final slashes, one slash and the rest of the path.
pub expand_prefix_matches-rewritten :
    (rs : List Route) (r : Route) (p : Bytes) (t : PrefixMatchType)
    → All (λ r. IsPrefix r.path) rs
    → r.path ≡ PathMatchCondition.prefix p t
    → routes_of (trim_slashes p) rs ≡ r ∷ []
    → is_empty r.prefix_rewrite ≡ false
    → (p == root_path) ≡ false
    → (before : List Route) × (first : Route) × (second : Route) × (after : List Route)
      × (expand_prefix_matches rs ≡ some (before ++ first ∷ second ∷ after))
      × (rewritten first (trim_slashes p)
          ≡ some (
              if is_empty (trim_slashes r.prefix_rewrite)
              then root_path
              else trim_slashes r.prefix_rewrite))
      × ((rest : Bytes)
          → rewritten second (trim_slashes p ++ b'/' ∷ rest)
            ≡ some (trim_slashes r.prefix_rewrite ++ b'/' ∷ rest))
unfolding without_slash with_slash expand_group
expand_prefix_matches-rewritten rs r p t prefixes e alone set other =
    let (before, made, after, expanded, group) =
      expand_prefix_matches-group rs (trim_slashes p) r [] prefixes alone in
    let whole : made ≡ without_slash (trim_slashes p) r ∷ with_slash (trim_slashes p) r ∷ [] =
      some-injective (sym group ∙ split_alone r r.path (trim_slashes p) p t e set other) in
    (
      before,
      without_slash (trim_slashes p) r,
      with_slash (trim_slashes p) r,
      after,
      expanded ∙ ap (λ made. some (before ++ (made ++ after))) whole,
      path_rewritten (trim_slashes p) _ string,
      λ rest. slash_rewritten (trim_slashes p) (trim_slashes r.prefix_rewrite) rest string,
    )
