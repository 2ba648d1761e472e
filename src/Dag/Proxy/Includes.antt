-- ===== src/Dag/Proxy/Includes.antt =====
-- internal/dag/httpproxy_processor.go: computeRoutes, which follows the includes of a proxy. The
-- recursion is on fuel; the result is an error where it runs out or where the source panics.
use sesame.Common.{
  ◌==◌, nat_eq, string_eq, Bytes, bytes_eq, any, ℕ, zero, suc, Bool, true, false, ◌&&◌, Option,
  none, some, List, [], ◌∷◌, ◌++◌, map,
}
use sesame.Common.Text.{bytes, join}
use sesame.Common.Assoc.{Map, lookup, delete}
use sesame.Common.Result.{◌>>=◌, Result, ok, err}
use sesame.Api.Match.{MatchCondition}
use sesame.Api.Status.{DetailedCondition, add_error, valid_condition_type}
use sesame.Api.Proxy as Api
use sesame.Api.Proxy.{HttpProxy, Include}
use sesame.Status.Proxy.{
  namespaced_name_of, NamespacedName, name_eq, ProxyUpdate, ProxyUpdates, condition_for,
  put_condition, commit,
}
use sesame.Dag.Match.{PathMatchCondition, HeaderMatchCondition}
use sesame.Dag.Graph.{Dag, Route}
use sesame.Dag.Conditions.Path.{merge_path_match_conditions, path_match_conditions_valid}
use sesame.Dag.Conditions.Header.{merge_header_match_conditions, header_match_conditions_valid}
use sesame.Dag.Cache.Objects.{Cache}
use sesame.Timeout.{default_setting}
use sesame.Dag.Proxy.Checks.{Processor, Environment, Argument}
use sesame.Dag.Proxy.Parts.{include_match_conditions_identical, or_default, bad_gateway}
use sesame.Dag.Proxy.Prefixes.{expand_prefix_matches}
use sesame.Dag.Proxy.Routes.{routes_loop}

pub data Halt : Type 0 where
  out_of_fuel nil_dereference type_assertion : Halt

-- the state of a run: the cached updates, the names of the orphans, and the graph
pub record Work : Type 0 where
  pub statuses : ProxyUpdates
  pub orphaned : Map NamespacedName Bool
  pub graph : Dag

-- the routes so far, with the Valid condition of the proxy at hand
abbrev pub Progress : Type 0
Progress = List Route × DetailedCondition × Work

abbrev pub name_of : HttpProxy → NamespacedName
name_of proxy = namespaced_name_of proxy.namespace proxy.name

-- ProxyAccessor
abbrev pub proxy_accessor : ℕ → HttpProxy → ProxyUpdate
proxy_accessor now proxy = record {
  fullname = name_of proxy;
  generation = proxy.generation;
  transition_time = now;
  vhost = [];
  conditions = [];
}

abbrev pub slash_name : HttpProxy → Bytes
slash_name proxy = proxy.namespace ++ bytes "/" ++ proxy.name

-- strings.Join(path, " -> "), on the proxies visited and the one that closes the cycle
abbrev pub cycle_path : List HttpProxy → HttpProxy → Bytes
unfolding join
cycle_path visited proxy = join (bytes " -> ") (map slash_name (visited ++ proxy ∷ []))

abbrev pub was_visited : HttpProxy → List HttpProxy → Bool
was_visited proxy visited =
    any (λ v. v.name == proxy.name && v.namespace == proxy.namespace) visited

-- the zero value of a route, with a path, headers and a direct response
abbrev pub response_route : PathMatchCondition → List HeaderMatchCondition → ℕ → Route
response_route path headers code = record {
  path = path;
  headers = headers;
  clusters = [];
  https_upgrade = false;
  auth_disabled = false;
  auth_context = [];
  websocket = false;
  timeout_policy = record { response_timeout = default_setting; idle_timeout = default_setting };
  retry_policy = none;
  prefix_rewrite = [];
  mirror_policy = none;
  request_headers_policy = none;
  response_headers_policy = none;
  cookie_rewrite_policies = [];
  rate_limit_policy = none;
  request_hash_policies = [];
  direct_response = some code;
  redirect = none;
}

-- the route for an include that is not found
unfoldable pub missing_routes : List MatchCondition → List Route
unfolding merge_path_match_conditions merge_header_match_conditions
missing_routes [] = []
missing_routes (m ∷ ms) =
    response_route (merge_path_match_conditions (m ∷ ms)) (merge_header_match_conditions (m ∷ ms))
      bad_gateway
    ∷ []

-- the recursive call, for an included proxy
abbrev pub Follow : Type 0
Follow = HttpProxy → List MatchCondition → DetailedCondition → Work → Result Halt Progress

module _ (env : Environment) (p : Processor) (c : Cache) (vhost : Api.VirtualHost)
    (enforce : Bool) where
  -- incCommit(), and the deletion from the orphans
  unfoldable pub settled :
      ProxyUpdate → List Route → DetailedCondition → Progress → Result Halt Progress
  unfolding delete
  settled pu routes dc (more, cond, w) =
      elim (commit (put_condition cond valid_condition_type pu) w.statuses) [
        | none ↦ err nil_dereference
        | some statuses ↦ ok (
          routes ++ more,
          dc,
          record w { statuses = statuses; orphaned = delete pu.fullname w.orphaned },
        )
      ]

  unfoldable pub follow_include :
      Follow → List MatchCondition → HttpProxy → Progress → Result Halt Progress
  unfolding settled
  follow_include follow conditions included (routes, dc, w) =
      let (cond, pu) = condition_for valid_condition_type (proxy_accessor env.now included) in
      follow included conditions cond w >>= λ progress. settled pu routes dc progress

  -- the include of a proxy that the cache may hold
  unfoldable pub found_include :
      Follow
      → List MatchCondition
      → NamespacedName
      → Include
      → Option HttpProxy
      → Progress
      → Result Halt Progress
  unfolding follow_include missing_routes
  found_include follow conditions (namespace, name) i none (routes, dc, w) = ok (
    routes ++ missing_routes i.conditions,
    add_error "IncludeError" "IncludeNotFound"
        (env.sprintf "include %s/%s not found" (Argument.text namespace ∷ Argument.text name ∷ []))
        dc,
    w,
  )
  found_include follow conditions at i (some included) (routes, dc, w) =
      elim included.virtual_host [
        | some _ ↦ ok (
          routes,
          add_error "IncludeError" "RootIncludesRoot"
              (bytes "root httpproxy cannot include another root httpproxy") dc,
          w,
        )
        | none ↦ follow_include follow (conditions ++ i.conditions) included (routes, dc, w)
      ]

  -- a round of the loop over the includes
  unfoldable pub include_step :
      Follow → HttpProxy → List MatchCondition → Include → Progress → Result Halt Progress
  unfolding path_match_conditions_valid header_match_conditions_valid found_include lookup
  include_step follow proxy conditions i (routes, dc, w) =
      elim (path_match_conditions_valid i.conditions) [
        | some e ↦ ok (
          routes,
          add_error "IncludeError" "PathMatchConditionsNotValid"
              (env.sprintf "include: %s" (Argument.path_error e ∷ [])) dc,
          w,
        )
        | none ↦ elim (header_match_conditions_valid i.conditions) [
          | some e ↦ ok (
            routes,
            add_error "RouteError" "HeaderMatchConditionsNotValid"
                (env.sprintf "%s" (Argument.header_error e ∷ [])) dc,
            w,
          )
          | none ↦
              let at : NamespacedName = (or_default i.namespace proxy.namespace, i.name) in
              found_include follow conditions at i (lookup at c.http_proxies) (routes, dc, w)
        ]
      ]

  unfoldable pub includes_loop :
      Follow → HttpProxy → List MatchCondition → List Include → Progress → Result Halt Progress
  unfolding include_step
  includes_loop follow proxy conditions [] progress = ok progress
  includes_loop follow proxy conditions (i ∷ is) progress =
      include_step follow proxy conditions i progress >>= λ progress'.
      includes_loop follow proxy conditions is progress'

  unfoldable pub expanded : Option (List Route) → DetailedCondition → Work → Result Halt Progress
  expanded none dc w = err type_assertion
  expanded (some routes) dc w = ok (routes, dc, w)

  unfoldable pub own_result : Work → DetailedCondition × Option (List Route) → Result Halt Progress
  unfolding expand_prefix_matches expanded
  own_result w (dc, none) = ok ([], dc, w)
  own_result w (dc, some routes) = expanded (expand_prefix_matches routes) dc w

  -- the routes of the proxy itself, after those of its includes
  unfoldable pub own_routes : HttpProxy → List MatchCondition → Progress → Result Halt Progress
  unfolding routes_loop own_result
  own_routes proxy conditions (routes, dc, w) = own_result w (
      routes_loop env p c vhost proxy.namespace conditions enforce routes
        ((bytes "Sesame_NAMESPACE", proxy.namespace) ∷ []) proxy.routes dc)

  -- the body, after the test for a cycle
  unfoldable pub unvisited_routes :
      Follow → HttpProxy → List MatchCondition → DetailedCondition → Work → Result Halt Progress
  unfolding include_match_conditions_identical includes_loop own_routes
  unvisited_routes follow proxy conditions dc w =
      elim (include_match_conditions_identical proxy.includes) [
        | true ↦ ok (
          [],
          add_error "IncludeError" "DuplicateMatchConditions"
              (bytes "duplicate conditions defined on an include") dc,
          w,
        )
        | false ↦ includes_loop follow proxy conditions proxy.includes ([], dc, w) >>= λ progress.
            own_routes proxy conditions progress
      ]

  -- the root proxy is passed by its virtual host
  unfoldable pub compute_routes :
      ℕ
      → List HttpProxy
      → HttpProxy
      → List MatchCondition
      → DetailedCondition
      → Work
      → Result Halt Progress
  unfolding unvisited_routes
  compute_routes zero visited proxy conditions dc w = err out_of_fuel
  compute_routes (suc fuel) visited proxy conditions dc w = elim (was_visited proxy visited) [
    | true ↦ ok (
      [],
      add_error "IncludeError" "IncludeCreatesCycle"
          (env.sprintf "include creates an include cycle: %s"
            (Argument.text (cycle_path visited proxy) ∷ []))
          dc,
      w,
    )
    | false ↦ unvisited_routes (compute_routes fuel (visited ++ proxy ∷ [])) proxy conditions dc w
  ]
