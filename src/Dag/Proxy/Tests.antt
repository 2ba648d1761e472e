-- ===== src/Dag/Proxy/Tests.antt =====
-- Runs of the processor: a root in one namespace that includes a proxy in another, and the other way
-- round, so that the includes form a cycle.
use sesame.Common.{
  nat_eq, string_eq, list_beq, member, Bytes, bytes_eq, ltb, if◌then◌else◌, length, ◌≡◌, refl, ◌↔◌,
  inl, Bool, true, false, Option, none, some, List, [], ◌∷◌, ◌++◌, arith,
}
use sesame.Common.Text.{bytes, is_empty}
use sesame.Common.Assoc.{lookup}
use sesame.Common.Integer.{pos}
use sesame.Common.Result.{ok}
use sesame.Api.Match.{MatchCondition}
use sesame.Api.Proxy as Api
use sesame.Api.Proxy.{HttpProxy, Include, TcpProxyInclude}
use sesame.Api.Status.{DetailedCondition}
use sesame.Status.Proxy.{ProxyUpdates, name_eq, new_condition}
use sesame.Status.Proxy.Commits.{WellFormed}
use sesame.Dag.Match.{PathMatchCondition, string}
use sesame.Dag.Graph.{Dag, Route, Service}
use sesame.Dag.Cache.Objects as Kubernetes
use sesame.Dag.Cache.Objects.{Cache}
use sesame.Dag.Services.{ensure_service, graph_service}
use sesame.Dag.Services.Safety.{IsAllowed, ensure_service-IsAllowed}
use sesame.Dag.Cache.Lookups.{IsFirstPort}
use sesame.Dag.Proxy.Checks.{Processor, Environment}
use sesame.Dag.Proxy.Parts.{include_match_conditions_identical, bad_gateway}
use sesame.Dag.Proxy.Grouping.{routes_of}
use sesame.Dag.Proxy.Prefixes.{group_prefix, expand_prefix_matches, trim_slashes, root_path}
use sesame.Dag.Proxy.Backends.{from_int}
use sesame.Dag.Proxy.Includes.{Work, Progress, response_route, compute_routes}
use sesame.Dag.Proxy.Chains.{process_tcp_proxy}
use sesame.Dag.Proxy.Runs.{run, valid_http_proxies}
use sesame.Dag.Proxy.Owning.{roots_of, values}
use sesame.Dag.Proxy.Keeping.{alone, valid_http_proxies-alone}
use sesame.Dag.Proxy.Reach.{IsKeyed}
use sesame.Dag.Proxy.Soundness.{IsSound}
use sesame.Dag.Proxy.Termination.{compute_routes-IsSound}
use sesame.Dag.Proxy.Following.{IsSettled, process_tcp_proxy-IsSettled}
use sesame.Dag.Proxy.Completing.{run-WellFormed}
use sesame.Dag.Proxy.Rewriting.{rewritten, expand_prefix_matches-rewritten}
use sesame.Dag.Proxy.Adjoining.{Shares, include_match_conditions_identical_iff}

abbrev env : Environment
env = record {
  kubernetes = record {
    is_http_header_name = λ name. ltb 0 (length name);
    sorted = λ names. names;
  };
  parse_duration = λ s. none;
  quote_meta = λ s. s;
  sprintf = λ format arguments. bytes format;
  now = 0;
}

abbrev processor : Processor
processor = record {
  disable_permit_insecure = false;
  fallback_certificate = none;
  enable_external_name_service = false;
  dns_lookup_family = bytes "auto";
  client_certificate = none;
  request_headers_policy = none;
  response_headers_policy = none;
}

abbrev service_reference : Api.Service
service_reference = record {
  name = bytes "s";
  port = pos 80;
  protocol = none;
  weight = pos 0;
  upstream_validation = none;
  mirror = false;
  request_headers_policy = none;
  response_headers_policy = none;
  cookie_rewrite_policies = [];
}

abbrev route : Api.Route
route = record {
  conditions = [];
  services = service_reference ∷ [];
  enable_websockets = false;
  permit_insecure = false;
  auth_policy = none;
  timeout_policy = none;
  retry_policy = none;
  health_check_policy = none;
  load_balancer_policy = none;
  path_rewrite_policy = none;
  request_headers_policy = none;
  response_headers_policy = none;
  cookie_rewrite_policies = [];
  rate_limit_policy = none;
  request_redirect_policy = none;
}

abbrev under : Bytes → MatchCondition
under path = record { prefix = path; header = none }

abbrev include_of : Bytes → Bytes → Bytes → Include
include_of namespace name path = record {
  name = name;
  namespace = namespace;
  conditions = under path ∷ [];
}

abbrev host : Api.VirtualHost
host = record {
  fqdn = bytes "a.com";
  tls = none;
  authorization = none;
  cors_policy = none;
  rate_limit_policy = none;
}

abbrev tcp_to : Bytes → Bytes → Api.TcpProxy
tcp_to namespace name = record {
  load_balancer_policy = none;
  services = [];
  include = some record { name = name; namespace = namespace };
  includes_deprecated = none;
  health_check_policy = none;
}

abbrev proxy : Bytes → Bytes → Option Api.VirtualHost → List Include → HttpProxy
proxy namespace name virtual_host includes = record {
  namespace = namespace;
  name = name;
  generation = 1;
  annotations = [];
  ingress_class_name = [];
  virtual_host = virtual_host;
  routes = route ∷ [];
  tcp_proxy = some (tcp_to (bytes "b") (bytes "child"));
  includes = includes;
}

abbrev root : HttpProxy
root =
    proxy (bytes "a") (bytes "root") (some host)
      (include_of (bytes "b") (bytes "child") (bytes "/x") ∷ [])

-- The child includes itself.
abbrev child : HttpProxy
child = proxy (bytes "b") (bytes "child") none (include_of [] (bytes "child") (bytes "/y") ∷ [])

abbrev service : Kubernetes.Service
service = record {
  namespace = bytes "b";
  name = bytes "s";
  annotations = [];
  ports = record { name = []; port = pos 80; protocol = bytes "TCP" } ∷ [];
  service_type = bytes "ClusterIP";
  external_name = [];
}

abbrev cache : Cache
cache = record {
  root_namespaces = [];
  ingress_class_name = [];
  configured_secret_refs = [];
  ingresses = [];
  ingress_class = none;
  http_proxies = ((bytes "a", bytes "root"), root) ∷ ((bytes "b", bytes "child"), child) ∷ [];
  secrets = [];
  delegations = [];
  services = ((bytes "b", bytes "s"), service) ∷ [];
  namespaces = [];
  gateway_class = none;
  gateway = none;
  http_routes = [];
  tls_routes = [];
  reference_policies = [];
  extensions = [];
}

keyed : IsKeyed cache
keyed = (refl, (refl, tt))

abbrev graph : Dag
graph = record { virtual_hosts = []; secure_virtual_hosts = []; extension_clusters = [] }

abbrev work : Work
work = record { statuses = []; orphaned = []; graph = graph }

abbrev condition : DetailedCondition
condition = new_condition "Valid" 1

no_statuses : WellFormed []
unfolding lookup
no_statuses = record { decided = λ n pu e. absurd (ground (arith, e)) }

compute_routes-IsSound_example :
    (progress : Progress) × (compute_routes env processor cache host false 3 [] root [] condition
        work
      ≡ ok progress)
    × IsSound env processor cache host false root keyed progress
unfolding member list_beq
compute_routes-IsSound_example =
    compute_routes-IsSound env processor cache host false keyed 3 root condition work (omega arith)
      refl (refl, inl refl) no_statuses

process_tcp_proxy-IsSettled_example :
    (out : Bool × DetailedCondition × Work) × (process_tcp_proxy env processor cache 3 []
        (bytes "a.com")
        root
        condition
        work
      ≡ ok out)
    × IsSettled env processor cache keyed out
unfolding member list_beq
process_tcp_proxy-IsSettled_example =
    process_tcp_proxy-IsSettled env processor cache keyed 3 (bytes "a.com") root condition work
      (omega arith) refl (refl, inl refl) no_statuses

run-WellFormed_example :
    (w : Work) × (run env processor cache graph [] ≡ ok w) × WellFormed w.statuses
run-WellFormed_example = run-WellFormed env processor cache keyed graph [] no_statuses

abbrev served : Service
served = graph_service service record { name = []; port = pos 80; protocol = bytes "TCP" }

ensure_service-IsAllowed_example :
    (svc : Kubernetes.Service) × (p : Kubernetes.ServicePort) × (lookup
        (bytes "b", bytes "s")
        cache.services
      ≡ some svc)
    × IsFirstPort (from_int (pos 80)) svc.ports p
    × (graph_service svc p ≡ served)
    × IsAllowed false served.external_name
unfolding ensure_service lookup list_beq
ensure_service-IsAllowed_example =
    ensure_service-IsAllowed cache (bytes "b", bytes "s") (from_int (pos 80)) false served refl

abbrev foo : Route
foo = record (response_route (PathMatchCondition.prefix (bytes "/foo/") string) [] bad_gateway) {
  prefix_rewrite = bytes "/bar/";
}

-- a route on another prefix
abbrev elsewhere : Route
elsewhere = response_route (PathMatchCondition.prefix (bytes "/") string) [] bad_gateway

foo_alone : routes_of (trim_slashes (bytes "/foo/")) (elsewhere ∷ foo ∷ []) ≡ foo ∷ []
unfolding group_prefix trim_slashes list_beq
foo_alone = refl

expand_prefix_matches-rewritten_example :
    (before : List Route) × (first : Route) × (second : Route) × (after : List Route)
    × (expand_prefix_matches (elsewhere ∷ foo ∷ []) ≡ some (before ++ first ∷ second ∷ after))
    × (rewritten first (trim_slashes (bytes "/foo/"))
        ≡ some (
            if is_empty (trim_slashes (bytes "/bar/"))
            then root_path
            else trim_slashes (bytes "/bar/")))
    × ((rest : Bytes)
        → rewritten second (trim_slashes (bytes "/foo/") ++ b'/' ∷ rest)
          ≡ some (trim_slashes (bytes "/bar/") ++ b'/' ∷ rest))
unfolding list_beq
expand_prefix_matches-rewritten_example =
    expand_prefix_matches-rewritten (elsewhere ∷ foo ∷ []) foo (bytes "/foo/") string (tt, (tt, tt))
      refl foo_alone refl refl

abbrev twins : List Include
twins = include_of [] (bytes "p") (bytes "/x") ∷ include_of [] (bytes "q") (bytes "/x") ∷ []

include_match_conditions_identical_iff_example :
    (include_match_conditions_identical twins ≡ true) ↔ (
      (before : List Include) × (a : Include) × (b : Include) × (after : List Include) × (twins
        ≡ before ++ a ∷ b ∷ after)
      × Shares a b)
include_match_conditions_identical_iff_example = include_match_conditions_identical_iff twins

-- Two roots have one virtual host, and a third proxy is no root.
abbrev contested : Cache
contested = record cache {
  http_proxies =
      ((bytes "a", bytes "root"), root)
      ∷ ((bytes "b", bytes "child"), child)
      ∷ ((bytes "c", bytes "other"), proxy (bytes "c") (bytes "other") (some host) [])
      ∷ [];
}

valid_http_proxies-alone_example :
    (valid : List HttpProxy) × (statuses : ProxyUpdates) × (valid_http_proxies env contested []
      ≡ ok (valid, statuses))
    × ((f : Bytes) → roots_of f valid ≡ alone (roots_of f (values contested.http_proxies)))
valid_http_proxies-alone_example = valid_http_proxies-alone env contested [] no_statuses
