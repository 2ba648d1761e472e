-- ===== src/Dag/Proxy/Parts.antt =====
-- internal/dag/httpproxy_processor.go: the functions that make the parts of a route, with
-- NamespacedNameFrom (internal/k8s/objectmeta.go), MinTLSVersion (internal/annotation/annotations.go)
-- and wildcardDomainHeaderMatch (internal/dag/dag.go).
use sesame.Common.{
  drop, take_while, ◌==◌, nat_eq, string_eq, list_beq, option_beq, member, Bytes, bytes_eq,
  if◌then◌else◌, length, any, ℕ, Bool, true, false, not, ◌&&◌, ◌||◌, Option, none, some, List, [],
  ◌∷◌, ◌++◌,
}
use sesame.Common.Text.{bytes, is_empty, trim_space}
use sesame.Common.Integer.{ℤ, pos, negsuc, to_uint32}
use sesame.Common.Result.{Result, ok, err}
use sesame.Timeout.{Duration, Setting, TimeoutError, parse_max_age, duration}
use sesame.Status.Proxy.{NamespacedName}
use sesame.Api.Match.{header_eq, MatchCondition}
use sesame.Api.Proxy as Api
use sesame.Api.Proxy.{HttpRequestRedirectPolicy, Include}
use sesame.Dag.Match.{HeaderMatchCondition, HeaderMatchType}
use sesame.Dag.Graph.{Cors, Redirect, Service}
use sesame.Dag.Policy.Headers.{Headers}

-- isBlank
unfoldable pub is_blank : Bytes → Bool
unfolding trim_space
is_blank s = is_empty (trim_space s)

-- the test on two conditions of includeMatchConditionsIdentical
unfoldable pub same_condition : MatchCondition → MatchCondition → Bool
unfolding list_beq option_beq
same_condition a b = a.prefix == b.prefix && option_beq a.header b.header

-- the two inner loops: the conditions of an include against those of the one before it
abbrev pub shares_condition : Include → Include → Bool
shares_condition before i = any (λ a. any (λ b. same_condition a b) before.conditions) i.conditions

unfoldable pub include_match_conditions_identical : List Include → Bool
unfolding same_condition
include_match_conditions_identical [] = false
include_match_conditions_identical (before ∷ []) = false
include_match_conditions_identical (before ∷ i ∷ is) =
    shares_condition before i || include_match_conditions_identical (i ∷ is)

-- The error has the protocol.
unfoldable pub get_protocol : Api.Service → Service → Result Bytes Bytes
unfolding member list_beq
get_protocol service s = elim service.protocol [
  | none ↦ ok s.protocol
  | some p ↦ if member p (bytes "h2c" ∷ bytes "h2" ∷ bytes "tls" ∷ []) then ok p else err p
]

abbrev host_of : Option Headers → Bytes
host_of none = []
host_of (some h) = h.host_rewrite

-- determineSNI
unfoldable pub determine_sni : Option Headers → Option Headers → Service → Bytes
determine_sni route cluster service =
    if not (is_empty (host_of cluster))
    then host_of cluster
    else if not (is_empty (host_of route))
    then host_of route
    else service.external_name

abbrev is_negative : ℤ → Bool
is_negative (pos n) = false
is_negative (negsuc n) = true

pub data CorsError : Type 0 where
  max_age_not_parsed : TimeoutError → CorsError
  invalid_max_age : Bytes → CorsError

module _ (parse_duration : Bytes → Option Duration) where
  cors_of_age : Api.CorsPolicy → Setting → Result CorsError (Option Cors)
  cors_of_age p age =
      if is_negative (duration age)
      then err (invalid_max_age p.max_age)
      else ok (
          some record {
            allow_credentials = p.allow_credentials;
            allow_origin = p.allow_origin;
            allow_methods = p.allow_methods;
            allow_headers = p.allow_headers;
            expose_headers = p.expose_headers;
            max_age = age;
          })

  -- toCORSPolicy
  unfoldable pub to_cors_policy : Option Api.CorsPolicy → Result CorsError (Option Cors)
  unfolding parse_max_age cors_of_age
  to_cors_policy none = ok none
  to_cors_policy (some p) = elim (parse_max_age parse_duration p.max_age) [
    | err e ↦ err (max_age_not_parsed e)
    | ok age ↦ cors_of_age p age
  ]

-- routeEnforceTLS
abbrev pub route_enforce_tls : Bool → Bool → Bool
route_enforce_tls enforce permit_insecure = enforce && not permit_insecure

abbrev or_nothing : Option Bytes → Bytes
or_nothing none = []
or_nothing (some s) = s

abbrev or_zero : Option ℤ → ℤ
or_zero none = pos 0
or_zero (some n) = n

unfoldable pub redirect_route_policy : Option HttpRequestRedirectPolicy → Option Redirect
unfolding to_uint32
redirect_route_policy none = none
redirect_route_policy (some r) = some record {
  hostname = or_nothing r.hostname;
  scheme = or_nothing r.scheme;
  port_number = to_uint32 (or_zero r.port);
  status_code = or_zero r.status_code;
}

-- the code of directResponse: StatusBadGateway and StatusServiceUnavailable
abbrev pub bad_gateway : ℕ
bad_gateway = 502

abbrev pub service_unavailable : ℕ
service_unavailable = 503

-- rootAllowed, by the namespaces of the cache
unfoldable pub root_allowed : List Bytes → Bytes → Bool
unfolding member
root_allowed [] namespace = true
root_allowed (n ∷ ns) namespace = member namespace (n ∷ ns)

abbrev pub or_default : Bytes → Bytes → Bytes
or_default s other = if is_empty s then other else s

-- strings.SplitN(name, "/", 2), as the namespace and the name
split_name : Bytes → NamespacedName
split_name s =
    let before = take_while (λ c. not (c == b'/')) s in
    let rest = drop (length before) s in elim rest [ [] ↦ ([], s) | _ ∷ after ↦ (before, after) ]

-- NamespacedNameFrom with DefaultNamespace(namespace)
unfoldable pub namespaced_name_from : Bytes → Bytes → NamespacedName
unfolding split_name
namespaced_name_from s namespace =
    let (n, name) = split_name s in (or_default (or_default n namespace) (bytes "default"), name)

unfoldable pub min_tls_version : Bytes → Bytes → Bytes
unfolding list_beq
min_tls_version version default =
    if version == bytes "1.2" || version == bytes "1.3" then version else default

abbrev single_dns_label_wildcard_regex : Bytes
single_dns_label_wildcard_regex = bytes "^[a-z0-9]([-a-z0-9]*[a-z0-9])?"

unfoldable pub wildcard_domain_header_match : (Bytes → Bytes) → Bytes → HeaderMatchCondition
wildcard_domain_header_match quote_meta fqdn = record {
  name = bytes ":authority";
  value = single_dns_label_wildcard_regex ++ quote_meta (drop 1 fqdn);
  match_type = HeaderMatchType.regex;
  invert = false;
}
