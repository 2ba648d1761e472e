-- ===== src/Dag/Proxy/Routes.antt =====
-- internal/dag/httpproxy_processor.go: the loop of computeRoutes over the routes of a proxy.
use sesame.Common.{
  nat_beq, ◌==◌, nat_eq, string_eq, list_beq, Bytes, bytes_eq, if◌then◌else◌, length, String, Bool,
  true, false, not, ◌&&◌, Option, none, some, List, [], ◌∷◌, ◌++◌,
}
use sesame.Common.Text.{bytes, has_prefix, is_empty}
use sesame.Common.Assoc.{Map}
use sesame.Api.Match.{MatchCondition}
use sesame.Api.Status.{DetailedCondition}
use sesame.Api.Proxy as Api
use sesame.Api.Proxy.{
  HttpProxy, authorization_configured, disable_authorization, virtual_host_context,
  authorization_context, get_prefix_replacements,
}
use sesame.Dag.Match.{PathMatchCondition, HeaderMatchCondition}
use sesame.Dag.Graph.{Route}
use sesame.Dag.Conditions.Path.{merge_path_match_conditions, path_match_conditions_valid}
use sesame.Dag.Conditions.Header.{merge_header_match_conditions, header_match_conditions_valid}
use sesame.Dag.Policy.Headers.{headers_policy_route}
use sesame.Dag.Policy.Cookies.{
  ReplacePrefix, ReplacementError, duplicate_replacement, ambiguous_replacement,
  cookie_rewrite_policies, prefix_replacements_are_valid,
}
use sesame.Dag.Policy.Timeouts.{timeout_policy, retry_policy}
use sesame.Dag.Policy.Limits.{rate_limit_policy}
use sesame.Dag.Policy.Balancing.{HashWarning, load_balancer_request_hash_policies}
use sesame.Dag.Cache.Objects.{Cache}
use sesame.Dag.Proxy.Checks.{
  Processor, Environment, Argument, Check, ◌>>=◌, ◌>>◌, pass, warn, fail_if, fail_on, or_fail,
}
use sesame.Dag.Proxy.Parts.{
  route_enforce_tls, redirect_route_policy, service_unavailable, wildcard_domain_header_match,
}
use sesame.Dag.Proxy.Backends.{Backends, is_set, backends_loop}

-- the first replacement for a prefix that is not empty and is the route's
exact_replacement : Bytes → List ReplacePrefix → Bytes
unfolding list_beq
exact_replacement prefix [] = []
exact_replacement prefix (r ∷ rs) =
    let rest = exact_replacement prefix rs in
    if not (is_empty r.prefix) && prefix == r.prefix then r.replacement else rest

-- the first replacement for the empty prefix
default_replacement : List ReplacePrefix → Bytes
default_replacement [] = []
default_replacement (r ∷ rs) =
    let rest = default_replacement rs in if is_empty r.prefix then r.replacement else rest

unfoldable pub replacement_of : Bytes → List ReplacePrefix → Bytes
unfolding exact_replacement default_replacement
replacement_of prefix rs =
    let exact = exact_replacement prefix rs in
    if is_empty exact then default_replacement rs else exact

-- the reason that prefixReplacementsAreValid returns beside its error
abbrev reason_of : ReplacementError → String
reason_of (duplicate_replacement prefix) = "DuplicateReplacement"
reason_of ambiguous_replacement = "AmbiguousReplacement"

-- the values of `r.AuthDisabled` and `r.AuthContext`
abbrev pub auth_disabled_of : Api.VirtualHost → Api.Route → Bool
auth_disabled_of vhost route = elim (authorization_configured vhost) [
  | none ↦ false
  | some _ ↦ elim route.auth_policy [
    | none ↦ disable_authorization vhost
    | some policy ↦ policy.disabled
  ]
]

abbrev pub auth_context_of : Api.VirtualHost → Api.Route → Map Bytes Bytes
unfolding authorization_context
auth_context_of vhost route = elim (authorization_configured vhost) [
  | none ↦ []
  | some _ ↦ authorization_context route (virtual_host_context vhost)
]

abbrev pub wildcard_headers : (Bytes → Bytes) → Bytes → List HeaderMatchCondition
unfolding has_prefix wildcard_domain_header_match
wildcard_headers quote_meta fqdn =
    if has_prefix fqdn (bytes "*.") then wildcard_domain_header_match quote_meta fqdn ∷ [] else []

unfoldable pub warnings_loop : Environment → List HashWarning → Check DetailedCondition (Unit {0})
warnings_loop env [] = pass tt
warnings_loop env (w ∷ ws) = do
  warn "SpecError" "IgnoredField" (env.sprintf "%s" (Argument.hash_warning w ∷ []))
  warnings_loop env ws

abbrev prefix_of : PathMatchCondition → Bytes
prefix_of (PathMatchCondition.prefix p t) = p
prefix_of (PathMatchCondition.regex r) = []
prefix_of (PathMatchCondition.exact r) = []

abbrev has_path_prefix : PathMatchCondition → Bool
has_path_prefix (PathMatchCondition.prefix p t) = true
has_path_prefix (PathMatchCondition.regex r) = false
has_path_prefix (PathMatchCondition.exact r) = false

module _ (env : Environment) where
  unfoldable pub valid_replacements : Option ReplacementError → Check DetailedCondition (Unit {0})
  valid_replacements none = pass tt
  valid_replacements (some e) =
      fail_if true "PrefixReplaceError" (reason_of e)
        (env.sprintf "%s" (Argument.replacement_error e ∷ []))

  -- the rewrite of the route, by its path and its replacements
  unfoldable pub prefix_rewrite_of :
      PathMatchCondition → List ReplacePrefix → Check DetailedCondition Bytes
  unfolding replacement_of prefix_replacements_are_valid valid_replacements
  prefix_rewrite_of path [] = pass []
  prefix_rewrite_of path (r ∷ rs) = do
    fail_if (not (has_path_prefix path)) "PrefixReplaceError" "MustHavePrefix"
        (bytes "cannot specify prefix replacements without a prefix condition")
    valid_replacements (prefix_replacements_are_valid (r ∷ rs))
    pass (replacement_of (prefix_of path) (r ∷ rs))

  abbrev pub no_backends : Map Bytes Bytes → Backends
  no_backends dynamic = record { clusters = []; mirror = none; dynamic = dynamic }

  -- a round of the loop: the route and the dynamic headers that it leaves
  unfoldable pub route_step :
      Processor
      → Cache
      → Api.VirtualHost
      → Bytes
      → List MatchCondition
      → Bool
      → Map Bytes Bytes
      → Api.Route
      → Check DetailedCondition (Route × Map Bytes Bytes)
  unfolding path_match_conditions_valid header_match_conditions_valid headers_policy_route
      cookie_rewrite_policies timeout_policy rate_limit_policy load_balancer_request_hash_policies
      warnings_loop merge_path_match_conditions merge_header_match_conditions retry_policy
      redirect_route_policy prefix_rewrite_of backends_loop
  route_step p c vhost namespace conditions enforce dynamic route = do
    fail_on (path_match_conditions_valid route.conditions) "RouteError"
        "PathMatchConditionsNotValid" (λ e. env.sprintf "route: %s" (Argument.path_error e ∷ []))
    let all_conditions = conditions ++ route.conditions
    fail_on (header_match_conditions_valid all_conditions) "RouteError"
        "HeaderMatchConditionsNotValid" (λ e. env.sprintf "%s" (Argument.header_error e ∷ []))
    request ←
        or_fail (headers_policy_route env.kubernetes dynamic route.request_headers_policy true)
          "RouteError" "RequestHeadersPolicyInvalid"
          (λ e. env.sprintf "%s on request headers" (Argument.headers_error e ∷ []))
    response ←
        or_fail (headers_policy_route env.kubernetes dynamic route.response_headers_policy false)
          "RouteError" "ResponseHeaderPolicyInvalid"
          (λ e. env.sprintf "%s on response headers" (Argument.headers_error e ∷ []))
    cookies ←
        or_fail (cookie_rewrite_policies route.cookie_rewrite_policies) "RouteError"
          "CookieRewritePoliciesInvalid"
          (λ e. env.sprintf "%s on route cookie rewrite rules" (Argument.cookie_error e ∷ []))
    fail_if (nat_beq (length route.services) 0 && not (is_set route.request_redirect_policy))
        "RouteError" "NoServicesPresent" (bytes "route.services must have at least one entry")
    timeouts ←
        or_fail (timeout_policy env.parse_duration route.timeout_policy) "RouteError"
          "TimeoutPolicyNotValid"
          (λ e.
            env.sprintf "route.timeoutPolicy failed to parse: %s"
              (Argument.policy_timeout_error e ∷ []))
    limits ←
        or_fail (rate_limit_policy env.kubernetes route.rate_limit_policy) "RouteError"
          "RateLimitPolicyNotValid"
          (λ e. env.sprintf "route.rateLimitPolicy is invalid: %s" (Argument.limit_error e ∷ []))
    let hashing =
        load_balancer_request_hash_policies env.kubernetes.is_http_header_name
          route.load_balancer_policy
    warnings_loop env hashing.2
    let path = merge_path_match_conditions all_conditions
    rewrite ← prefix_rewrite_of path (get_prefix_replacements route)
    backends ←
        backends_loop env p c namespace route request hashing.1 (no_backends dynamic) route.services
    let unserved =
        nat_beq (length backends.clusters) 0 && not (is_set route.request_redirect_policy)
    pass (
      record {
        path = path;
        headers =
            merge_header_match_conditions all_conditions
            ++ wildcard_headers env.quote_meta vhost.fqdn;
        clusters = backends.clusters;
        https_upgrade =
            route_enforce_tls enforce (route.permit_insecure && not p.disable_permit_insecure);
        auth_disabled = auth_disabled_of vhost route;
        auth_context = auth_context_of vhost route;
        websocket = route.enable_websockets;
        timeout_policy = timeouts;
        retry_policy = retry_policy env.parse_duration route.retry_policy;
        prefix_rewrite = rewrite;
        mirror_policy = backends.mirror;
        request_headers_policy = request;
        response_headers_policy = response;
        cookie_rewrite_policies = cookies;
        rate_limit_policy = limits;
        request_hash_policies = hashing.0;
        direct_response = if unserved then some service_unavailable else none;
        redirect = redirect_route_policy route.request_redirect_policy;
      },
      backends.dynamic,
    )

  unfoldable pub routes_loop :
      Processor
      → Cache
      → Api.VirtualHost
      → Bytes
      → List MatchCondition
      → Bool
      → List Route
      → Map Bytes Bytes
      → List Api.Route
      → Check DetailedCondition (List Route)
  unfolding route_step
  routes_loop p c vhost namespace conditions enforce routes dynamic [] = pass routes
  routes_loop p c vhost namespace conditions enforce routes dynamic (r ∷ rs) = do
    (made, dynamic') ← route_step p c vhost namespace conditions enforce dynamic r
    routes_loop p c vhost namespace conditions enforce (routes ++ made ∷ []) dynamic' rs
