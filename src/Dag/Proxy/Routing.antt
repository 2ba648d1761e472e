-- ===== src/Dag/Proxy/Routing.antt =====
-- internal/dag/httpproxy_processor.go: what the routes of a proxy are, from the loop of
-- computeRoutes over them.
use sesame.Common.{
  nat_eq, string_eq, Bytes, bytes_eq, All, All-append, Bool, true, Option, none, some, List, [],
  ◌∷◌, ◌++◌,
}
use sesame.Common.Assoc.{Map}
use sesame.Api.Match.{MatchCondition}
use sesame.Api.Proxy as Api
use sesame.Dag.Match.{PathMatchCondition}
use sesame.Dag.Graph.{Cluster, Route}
use sesame.Dag.Conditions.Path.{merge_path_match_conditions}
use sesame.Dag.Policy.Balancing.{HashWarning}
use sesame.Dag.Policy.Cookies.{ReplacePrefix, ReplacementError}
use sesame.Dag.Cache.Objects.{Cache}
use sesame.Dag.Proxy.Checks.{Processor, Environment}
use sesame.Dag.Proxy.Routes.{
  warnings_loop, valid_replacements, prefix_rewrite_of, route_step, routes_loop, no_backends,
}
use sesame.Dag.Proxy.Serving.{Own, backends_loop-Steady}
use sesame.Dag.Proxy.Expansion.{IsPrefix, IsPrefixRoute, weaker-IsPrefixRoute}
use sesame.Dag.Proxy.Triples.{
  Any, Steady, bind-Triple, pass-Triple, weaker-Triple, warn-Steady, fail_if-Steady, fail_on-Steady,
  or_fail-Steady,
}

module _ (env : Environment) where
  warnings_loop-Steady : (ws : List HashWarning) → Steady Any (warnings_loop env ws)
  unfolding warnings_loop
  warnings_loop-Steady [] = pass-Triple _ _ _ tt
  warnings_loop-Steady (w ∷ ws) =
      bind-Triple _ _ _ _ _ (warn-Steady _ _ _) (λ _ _. warnings_loop-Steady ws)

  valid_replacements-Steady : (e : Option ReplacementError) → Steady Any (valid_replacements env e)
  unfolding valid_replacements
  valid_replacements-Steady none = pass-Triple _ _ _ tt
  valid_replacements-Steady (some e) = weaker-Triple _ _ _ _ (λ _ _. tt) (fail_if-Steady true _ _ _)

  prefix_rewrite_of-Steady :
      (path : PathMatchCondition) (rs : List ReplacePrefix)
      → Steady Any (prefix_rewrite_of env path rs)
  unfolding prefix_rewrite_of
  prefix_rewrite_of-Steady path [] = pass-Triple _ _ _ tt
  prefix_rewrite_of-Steady path (r ∷ rs) =
      bind-Triple _ _ _ _ _ (fail_if-Steady _ _ _ _)
        (λ _ _. bind-Triple _ _ _ _ _ (valid_replacements-Steady _) (λ _ _. pass-Triple _ _ _ tt))

  module _ (p : Processor) (c : Cache) (vhost : Api.VirtualHost) (namespace : Bytes) where
    abbrev pub OwnRoute : Route → Type 0
    OwnRoute = IsPrefixRoute (Own env p c namespace)

    merge_path_match_conditions-IsPrefix :
        (conditions : List MatchCondition) → IsPrefix (merge_path_match_conditions conditions)
    unfolding merge_path_match_conditions
    merge_path_match_conditions-IsPrefix conditions = tt

    route_step-Steady :
        (conditions : List MatchCondition) (enforce : Bool) (dynamic : Map Bytes Bytes)
        (route : Api.Route)
        → Steady
            (λ made. OwnRoute made.0)
            (route_step env p c vhost namespace conditions enforce dynamic route)
    unfolding route_step
    route_step-Steady conditions enforce dynamic route =
        bind-Triple _ _ _ _ _ (fail_on-Steady _ _ _ _) (λ _ _.
          bind-Triple _ _ _ _ _ (fail_on-Steady _ _ _ _) (λ _ _.
            bind-Triple _ _ _ _ _ (or_fail-Steady _ _ _ _) (λ request _.
              bind-Triple _ _ _ _ _ (or_fail-Steady _ _ _ _) (λ _ _.
                bind-Triple _ _ _ _ _ (or_fail-Steady _ _ _ _) (λ _ _.
                  bind-Triple _ _ _ _ _ (fail_if-Steady _ _ _ _) (λ _ _.
                    bind-Triple _ _ _ _ _ (or_fail-Steady _ _ _ _) (λ _ _.
                      bind-Triple _ _ _ _ _ (or_fail-Steady _ _ _ _) (λ _ _.
                        bind-Triple _ _ _ _ _ (warnings_loop-Steady _) (λ _ _.
                          bind-Triple _ _ _ _ _
                            (prefix_rewrite_of-Steady
                              (merge_path_match_conditions (conditions ++ route.conditions)) _)
                            (λ _ _.
                              bind-Triple _ _ _ _ _
                                (backends_loop-Steady env p c namespace route request _
                                  (no_backends env dynamic) route.services (tt, tt))
                                (λ backends own. pass-Triple _ _ _ (
                                  merge_path_match_conditions-IsPrefix
                                      (conditions ++ route.conditions),
                                  own.0,
                                  own.1,
                                ))))))))))))

    pub routes_loop-Steady :
        (conditions : List MatchCondition) (enforce : Bool) (routes : List Route)
        (dynamic : Map Bytes Bytes) (rs : List Api.Route) (K : Cluster → Type 0)
        → ((cluster : Cluster) → Own env p c namespace cluster → K cluster)
        → All (IsPrefixRoute K) routes
        → Steady
            (All (IsPrefixRoute K))
            (routes_loop env p c vhost namespace conditions enforce routes dynamic rs)
    unfolding routes_loop
    routes_loop-Steady conditions enforce routes dynamic [] K f h = pass-Triple _ _ _ h
    routes_loop-Steady conditions enforce routes dynamic (r ∷ rs) K f h =
        bind-Triple _ _ _ _ _ (route_step-Steady conditions enforce dynamic r) (λ made own.
          routes_loop-Steady conditions enforce (routes ++ made.0 ∷ []) made.1 rs K f (
            All-append (IsPrefixRoute K) routes (made.0 ∷ []) h
              (weaker-IsPrefixRoute (Own env p c namespace) K f made.0 own, tt)))
