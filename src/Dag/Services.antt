-- ===== src/Dag/Services.antt =====
-- internal/dag/accessors.go: EnsureService, with the annotations of a service that it reads
-- (internal/annotation/annotations.go).
pub mod Safety
use sesame.Common.{
  concat, drop, take_while, nat_beq, nat_beq_iff, Comparable, ◌==◌, ==_iff, ==_refl, nat_eq,
  string_eq, list_beq, list_beq_iff, option_beq, option_beq_iff, member, Bytes, bytes_eq, ltb, leb,
  if◌then◌else◌, Bool-cases, Option-cases, length, take, any, all, length-append, length-take-le,
  take_all, All, All-append, All-left, All-right, ℕ, zero, suc, ◌+◌, ◌-◌, ◌*◌, ◌/◌, ◌%◌, ◌^◌, ◌≤◌,
  ◌<◌, String, ◌≡◌, refl, sym, ap, ◌∙◌, ◌≢◌, ◌↔◌, ◌⊎◌, inl, inr, Bool, true, false, not, ◌&&◌, ◌||◌,
  Option, none, some, List, [], ◌∷◌, ◌++◌, map, arith,
}
use sesame.Common.Text.{bytes, is_empty, trim_space}
use sesame.Common.Decimal.{itoa, parse_uint, split}
use sesame.Common.Integer.{ℤ, pos, negsuc}
use sesame.Common.Assoc.{Map, lookup, insert}
use sesame.Common.Result.{map_error, checked_by, ◌>>=◌, Result, ok, err}
use sesame.Status.Proxy.{NamespacedName}
use sesame.Dag.Cache.Objects as Kubernetes
use sesame.Dag.Cache.Objects.{ServicePort, Cache}
use sesame.Dag.Cache.Lookups.{IntOrString, ServiceError, lookup_service}
use sesame.Dag.Graph.{Service}

-- m[key] of a map of texts, with the zero value of a missing key
abbrev pub text_at : Map Bytes Bytes → Bytes → Bytes
unfolding lookup
text_at m key = elim (lookup key m) [ none ↦ [] | some v ↦ v ]

-- SesameAnnotation
abbrev sesame_annotation : Map Bytes Bytes → Bytes → Bytes
unfolding text_at
sesame_annotation m key = text_at m (bytes "projectsesame.io/" ++ key)

unfoldable pub parse_uint32 : Bytes → ℕ
unfolding parse_uint
parse_uint32 s = elim (parse_uint 32 s) [ none ↦ 0 | some n ↦ n ]

-- the inner loop of ParseUpstreamProtocols
ports_loop : Bytes → Map Bytes Bytes → List Bytes → Map Bytes Bytes
unfolding insert trim_space
ports_loop protocol up [] = up
ports_loop protocol up (v ∷ vs) =
    let port = trim_space v in
    ports_loop protocol (if is_empty port then up else insert port protocol up) vs

protocols_loop : Map Bytes Bytes → Map Bytes Bytes → List Bytes → Map Bytes Bytes
unfolding ports_loop text_at split
protocols_loop m up [] = up
protocols_loop m up (p ∷ ps) =
    protocols_loop m
      (ports_loop p up (split b',' (text_at m (bytes "projectsesame.io/upstream-protocol." ++ p))))
      ps

unfoldable pub parse_upstream_protocols : Map Bytes Bytes → Map Bytes Bytes
unfolding protocols_loop
parse_upstream_protocols m = protocols_loop m [] (bytes "h2" ∷ bytes "h2c" ∷ bytes "tls" ∷ [])

-- strconv.Itoa
abbrev pub int_text : ℤ → Bytes
unfolding itoa
int_text (pos n) = itoa n
int_text (negsuc n) = b'-' ∷ itoa (suc n)

unfoldable pub upstream_protocol : Kubernetes.Service → ServicePort → Bytes
unfolding parse_upstream_protocols text_at int_text
upstream_protocol svc port =
    let up = parse_upstream_protocols svc.annotations in
    let protocol = text_at up port.name in
    if is_empty protocol then text_at up (int_text port.port) else protocol

abbrev pub external_name_type : Bytes
external_name_type = bytes "ExternalName"

unfoldable pub external_name : Kubernetes.Service → Bytes
unfolding list_beq
external_name svc = if not (svc.service_type == external_name_type) then [] else svc.external_name

abbrev pub localhost_names : List Bytes
localhost_names =
    bytes "localhost" ∷ bytes "localhost.localdomain" ∷ bytes "local.projectsesame.io" ∷ []

pub data EnsureError : Type 0 where
  not_found : ServiceError → EnsureError
  external_name_disabled external_name_localhost : EnsureError

unfoldable pub validate_external_name : Kubernetes.Service → Bool → Option EnsureError
unfolding external_name member list_beq
validate_external_name svc enabled =
    let en = external_name svc in
    if is_empty en
    then none
    else if not enabled
    then some external_name_disabled
    else if member en localhost_names
    then some external_name_localhost
    else none

-- the service that EnsureService returns
abbrev pub graph_service : Kubernetes.Service → ServicePort → Service
unfolding upstream_protocol parse_uint32 sesame_annotation external_name
graph_service svc port = record {
  weighted = record {
    weight = 1;
    service_name = svc.name;
    service_namespace = svc.namespace;
    service_port = port;
  };
  protocol = upstream_protocol svc port;
  max_connections = parse_uint32 (sesame_annotation svc.annotations (bytes "max-connections"));
  max_pending_requests =
      parse_uint32 (sesame_annotation svc.annotations (bytes "max-pending-requests"));
  max_requests = parse_uint32 (sesame_annotation svc.annotations (bytes "max-requests"));
  max_retries = parse_uint32 (sesame_annotation svc.annotations (bytes "max-retries"));
  external_name = external_name svc;
}

unfoldable pub ensure_service :
    Cache → NamespacedName → IntOrString → Bool → Result EnsureError Service
unfolding lookup_service validate_external_name graph_service
ensure_service c meta port enabled = map_error not_found (lookup_service c meta port) >>= λ found.
    checked_by (validate_external_name found.0 enabled) (graph_service found.0 found.1)
