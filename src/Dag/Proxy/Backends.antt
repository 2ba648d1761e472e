-- ===== src/Dag/Proxy/Backends.antt =====
-- internal/dag/httpproxy_processor.go: the loop of computeRoutes over the services of a route.
use sesame.Common.{
  ◌==◌, nat_eq, string_eq, list_beq, Bytes, bytes_eq, leb, if◌then◌else◌, Bool, true, false, not,
  ◌&&◌, ◌||◌, Option, none, some, List, [], ◌∷◌, ◌++◌,
}
use sesame.Common.Text.{bytes}
use sesame.Common.Integer.{ℤ, pos, negsuc, to_uint32}
use sesame.Common.Assoc.{Map, insert}
use sesame.Common.Result.{Result}
use sesame.Status.Proxy.{NamespacedName}
use sesame.Api.Status.{DetailedCondition}
use sesame.Api.Proxy as Api
use sesame.Dag.Graph.{PeerValidationContext, Cluster, Service}
use sesame.Dag.Policy.Headers.{Headers, headers_policy_service}
use sesame.Dag.Policy.Cookies.{cookie_rewrite_policies}
use sesame.Dag.Policy.Health.{http_health_check_policy}
use sesame.Dag.Secret.Verdicts.{Secret, valid_secret}
use sesame.Dag.Cache.Objects.{Cache}
use sesame.Dag.Cache.Lookups.{IntOrString, lookup_upstream_validation}
use sesame.Dag.Cache.Operations.{lookup_secret, delegation_permitted}
use sesame.Dag.Services.{int_text, EnsureError, ensure_service}
use sesame.Dag.Proxy.Checks.{
  Processor, Environment, Argument, Check, ◌>>=◌, ◌>>◌, pass, complain, fail_if, or_fail,
}
use sesame.Dag.Proxy.Parts.{get_protocol, determine_sni, namespaced_name_from}

-- intstr.FromInt, on a number of 32 bits
abbrev pub from_int : ℤ → IntOrString
from_int n = record { int_value = n; text = int_text n }

-- service.Port < 1 || service.Port > 65535
abbrev pub port_in_range : ℤ → Bool
port_in_range (pos n) = leb 1 n && leb n 65535
port_in_range (negsuc n) = false

-- what the loop has made so far: the clusters, the mirror, and the dynamic headers
pub record Backends : Type 0 where
  pub clusters : List Cluster
  pub mirror : Option Cluster
  pub dynamic : Map Bytes Bytes

abbrev pub is_set {ℓ} : {A : Type ℓ} → Option A → Bool
is_set none = false
is_set (some a) = true

abbrev pub speaks_tls : Bytes → Bool
unfolding list_beq
speaks_tls protocol = protocol == bytes "tls" || protocol == bytes "h2"

abbrev pub service_name_header : Bytes
service_name_header = bytes "Sesame_SERVICE_NAME"

abbrev pub service_port_header : Bytes
service_port_header = bytes "Sesame_SERVICE_PORT"

-- the header or the dynamic headers for a service
abbrev pub service_headers : Api.Service → Map Bytes Bytes → Map Bytes Bytes
unfolding insert
service_headers s dynamic =
    insert service_port_header (int_text s.port) (insert service_name_header s.name dynamic)

-- `if service.Mirror`, when there is no other mirror
unfoldable pub with_cluster : Cluster → Bool → Backends → Backends
with_cluster c true b = record b { mirror = some c }
with_cluster c false b = record b { clusters = b.clusters ++ c ∷ [] }

module _ (env : Environment) (p : Processor) (c : Cache) where
  -- the validation of the peer of a service that talks TLS
  unfoldable pub peer_validation :
      Bytes
      → Bytes
      → Api.Service
      → Option Api.UpstreamValidation
      → Check DetailedCondition (Option PeerValidationContext)
  unfolding delegation_permitted lookup_upstream_validation namespaced_name_from
  peer_validation namespace protocol s none = pass none
  peer_validation namespace protocol s (some uv) =
      if not (speaks_tls protocol)
      then pass none
      else (let name = namespaced_name_from uv.ca_certificate namespace in
          do
            fail_if (not (delegation_permitted c name namespace)) "TLSError"
                "CACertificateNotDelegated"
                (env.sprintf
                  "service.UpstreamValidation.CACertificate Secret %q is not configured for certificate delegation"
                  (Argument.full_name name ∷ []))
            or_fail (lookup_upstream_validation c (some uv.subject_name) name) "ServiceError"
                "TLSUpstreamValidation"
                (λ e.
                  env.sprintf "Service [%s:%d] TLS upstream validation policy error: %s" (
                    Argument.text s.name
                    ∷ Argument.number s.port
                    ∷ Argument.upstream_error e
                    ∷ [])))

  -- the secret of the processor's client certificate
  unfoldable pub client_certificate_of :
      Option NamespacedName → Check DetailedCondition (Option Secret)
  unfolding lookup_secret
  client_certificate_of none = pass none
  client_certificate_of (some name) = do
    s ← or_fail (lookup_secret c name valid_secret) "TLSError" "SecretNotValid" (λ e.
        env.sprintf "tls.envoy-client-certificate Secret %q is invalid: %s"
          (Argument.full_name name ∷ Argument.secret_error e ∷ []))
    pass (some s)

  -- a round of the loop, for a service that is found
  unfoldable pub add_cluster :
      Bytes
      → Api.Route
      → Option Headers
      → Bytes
      → Backends
      → Api.Service
      → Service
      → Check DetailedCondition Backends
  unfolding peer_validation client_certificate_of get_protocol headers_policy_service
      cookie_rewrite_policies http_health_check_policy determine_sni to_uint32
  add_cluster namespace route route_headers lb_policy b s upstream = do
    protocol ←
        or_fail (get_protocol s upstream) "ServiceError" "UnsupportedProtocol"
          (λ e. env.sprintf "unsupported protocol: %v" (Argument.text e ∷ []))
    uv ← peer_validation namespace protocol s s.upstream_validation
    let dynamic = service_headers s b.dynamic
    request ←
        or_fail
          (headers_policy_service env.kubernetes dynamic p.request_headers_policy
            s.request_headers_policy)
          "ServiceError" "RequestHeadersPolicyInvalid"
          (λ e. env.sprintf "%s on request headers" (Argument.headers_error e ∷ []))
    response ←
        or_fail
          (headers_policy_service env.kubernetes dynamic p.response_headers_policy
            s.response_headers_policy)
          "ServiceError" "ResponseHeadersPolicyInvalid"
          (λ e. env.sprintf "%s on response headers" (Argument.headers_error e ∷ []))
    cookies ←
        or_fail (cookie_rewrite_policies s.cookie_rewrite_policies) "RouteError"
          "CookieRewritePoliciesInvalid"
          (λ e. env.sprintf "%s on service cookie rewrite rules" (Argument.cookie_error e ∷ []))
    certificate ← client_certificate_of p.client_certificate
    let cluster : Cluster = record {
      upstream = upstream;
      weight = to_uint32 s.weight;
      protocol = protocol;
      upstream_validation = uv;
      load_balancer_policy = lb_policy;
      http_health_check = http_health_check_policy route.health_check_policy;
      tcp_health_check = none;
      request_headers_policy = request;
      response_headers_policy = response;
      cookie_rewrite_policies = cookies;
      sni = determine_sni route_headers request upstream;
      dns_lookup_family = p.dns_lookup_family;
      client_certificate = certificate;
    }
    fail_if (s.mirror && is_set b.mirror) "ServiceError" "OnlyOneMirror"
        (bytes "only one service per route may be nominated as mirror")
    pass (with_cluster cluster s.mirror (record b { dynamic = dynamic }))

  unfoldable pub found_or_skipped :
      Bytes
      → Api.Route
      → Option Headers
      → Bytes
      → Backends
      → Api.Service
      → Result EnsureError Service
      → Check DetailedCondition Backends
  unfolding add_cluster
  found_or_skipped namespace route route_headers lb_policy b s (Result.ok upstream) =
      add_cluster namespace route route_headers lb_policy b s upstream
  found_or_skipped namespace route route_headers lb_policy b s (Result.err e) = do
    complain "ServiceError" "ServiceUnresolvedReference"
        (env.sprintf "Spec.Routes unresolved service reference: %s" (Argument.ensure_error e ∷ []))
    pass b

  unfoldable pub backend_step :
      Bytes
      → Api.Route
      → Option Headers
      → Bytes
      → Backends
      → Api.Service
      → Check DetailedCondition Backends
  unfolding ensure_service found_or_skipped
  backend_step namespace route route_headers lb_policy b s = do
    fail_if (not (port_in_range s.port)) "ServiceError" "ServicePortInvalid"
        (env.sprintf "service %q: port must be in the range 1-65535" (Argument.text s.name ∷ []))
    found_or_skipped namespace route route_headers lb_policy b s
        (ensure_service c (namespace, s.name) (from_int s.port) p.enable_external_name_service)

  unfoldable pub backends_loop :
      Bytes
      → Api.Route
      → Option Headers
      → Bytes
      → Backends
      → List Api.Service
      → Check DetailedCondition Backends
  unfolding backend_step
  backends_loop namespace route route_headers lb_policy b [] = pass b
  backends_loop namespace route route_headers lb_policy b (s ∷ ss) = do
    b' ← backend_step namespace route route_headers lb_policy b s
    backends_loop namespace route route_headers lb_policy b' ss
