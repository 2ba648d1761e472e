-- ===== src/Api/Proxy.antt =====
-- apis/projectsesame/v1/httpproxy.go: the HTTPProxy object, with the methods on its parts of
-- helpers.go. The types of the policies stand beside the functions that read them, in Dag/Policy.
use sesame.Common.{
  nat_eq, string_eq, Bytes, bytes_eq, ℕ, Bool, false, Option, none, some, List, [], ◌∷◌,
}
use sesame.Common.Integer.{ℤ}
use sesame.Common.Assoc.{Map, insert}
use sesame.Api.Match.{MatchCondition}
use sesame.Dag.Policy.Timeouts.{TimeoutPolicy, RetryPolicy}
use sesame.Dag.Policy.Cookies.{CookieRewritePolicy, ReplacePrefix}
use sesame.Dag.Policy.Balancing.{LoadBalancerPolicy}
use sesame.Dag.Policy.Headers.{HeadersPolicy}
use sesame.Dag.Policy.Limits.{LocalRateLimitPolicy, DescriptorEntry}

pub record Include : Type 0 where
  pub name : Bytes
  pub namespace : Bytes
  pub conditions : List MatchCondition

pub record ExtensionServiceReference : Type 0 where
  pub api_version : Bytes
  pub namespace : Bytes
  pub name : Bytes

pub record AuthorizationServerBufferSettings : Type 0 where
  pub max_request_bytes : ℕ
  pub allow_partial_message : Bool
  pub pack_as_bytes : Bool

pub record AuthorizationPolicy : Type 0 where
  pub disabled : Bool
  pub context : Map Bytes Bytes

pub record AuthorizationServer : Type 0 where
  pub extension_service_ref : ExtensionServiceReference
  pub auth_policy : Option AuthorizationPolicy
  pub response_timeout : Bytes
  pub fail_open : Bool
  pub with_request_body : Option AuthorizationServerBufferSettings

pub record DownstreamValidation : Type 0 where
  pub ca_certificate : Bytes
  pub skip_client_cert_validation : Bool

pub record Tls : Type 0 where
  pub secret_name : Bytes
  pub minimum_protocol_version : Bytes
  pub passthrough : Bool
  pub client_validation : Option DownstreamValidation
  pub enable_fallback_certificate : Bool

pub record CorsPolicy : Type 0 where
  pub allow_credentials : Bool
  pub allow_origin : List Bytes
  pub allow_methods : List Bytes
  pub allow_headers : List Bytes
  pub expose_headers : List Bytes
  pub max_age : Bytes

-- RateLimitPolicy, by its two parts
abbrev pub RateLimitPolicy : Type 0
RateLimitPolicy = Option LocalRateLimitPolicy × Option (List (List DescriptorEntry))

pub record VirtualHost : Type 0 where
  pub fqdn : Bytes
  pub tls : Option Tls
  pub authorization : Option AuthorizationServer
  pub cors_policy : Option CorsPolicy
  pub rate_limit_policy : Option RateLimitPolicy

pub record HttpHealthCheckPolicy : Type 0 where
  pub path : Bytes
  pub host : Bytes
  pub interval_seconds : ℤ
  pub timeout_seconds : ℤ
  pub unhealthy_threshold_count : ℤ
  pub healthy_threshold_count : ℤ

-- the two counts are below 2 ^ 32
pub record TcpHealthCheckPolicy : Type 0 where
  pub interval_seconds : ℤ
  pub timeout_seconds : ℤ
  pub unhealthy_threshold_count : ℕ
  pub healthy_threshold_count : ℕ

pub record HttpRequestRedirectPolicy : Type 0 where
  pub scheme : Option Bytes
  pub hostname : Option Bytes
  pub port : Option ℤ
  pub status_code : Option ℤ

pub record UpstreamValidation : Type 0 where
  pub ca_certificate : Bytes
  pub subject_name : Bytes

pub record Service : Type 0 where
  pub name : Bytes
  pub port : ℤ
  pub protocol : Option Bytes
  pub weight : ℤ
  pub upstream_validation : Option UpstreamValidation
  pub mirror : Bool
  pub request_headers_policy : Option HeadersPolicy
  pub response_headers_policy : Option HeadersPolicy
  pub cookie_rewrite_policies : List CookieRewritePolicy

-- `path_rewrite_policy` is the list of replacements of the policy.
pub record Route : Type 0 where
  pub conditions : List MatchCondition
  pub services : List Service
  pub enable_websockets : Bool
  pub permit_insecure : Bool
  pub auth_policy : Option AuthorizationPolicy
  pub timeout_policy : Option TimeoutPolicy
  pub retry_policy : Option RetryPolicy
  pub health_check_policy : Option HttpHealthCheckPolicy
  pub load_balancer_policy : Option LoadBalancerPolicy
  pub path_rewrite_policy : Option (List ReplacePrefix)
  pub request_headers_policy : Option HeadersPolicy
  pub response_headers_policy : Option HeadersPolicy
  pub cookie_rewrite_policies : List CookieRewritePolicy
  pub rate_limit_policy : Option RateLimitPolicy
  pub request_redirect_policy : Option HttpRequestRedirectPolicy

pub record TcpProxyInclude : Type 0 where
  pub name : Bytes
  pub namespace : Bytes

pub record TcpProxy : Type 0 where
  pub load_balancer_policy : Option LoadBalancerPolicy
  pub services : List Service
  pub include : Option TcpProxyInclude
  pub includes_deprecated : Option TcpProxyInclude
  pub health_check_policy : Option TcpHealthCheckPolicy

-- an HTTPProxy: what is read of its metadata, and its spec
pub record HttpProxy : Type 0 where
  pub namespace : Bytes
  pub name : Bytes
  pub generation : ℕ
  pub annotations : Map Bytes Bytes
  pub ingress_class_name : Bytes
  pub virtual_host : Option VirtualHost
  pub routes : List Route
  pub tcp_proxy : Option TcpProxy
  pub includes : List Include

-- VirtualHost.AuthorizationConfigured, by the server that is configured
abbrev pub authorization_configured : VirtualHost → Option AuthorizationServer
authorization_configured v = elim v.tls [ none ↦ none | some t ↦ v.authorization ]

-- VirtualHost.DisableAuthorization
abbrev pub disable_authorization : VirtualHost → Bool
disable_authorization v = elim (authorization_configured v) [
  | none ↦ false
  | some server ↦ elim server.auth_policy [ none ↦ false | some policy ↦ policy.disabled ]
]

-- VirtualHost.AuthorizationContext; nil is the empty map
abbrev pub virtual_host_context : VirtualHost → Map Bytes Bytes
virtual_host_context v = elim (authorization_configured v) [
  | none ↦ []
  | some server ↦ elim server.auth_policy [ none ↦ [] | some policy ↦ policy.context ]
]

insert_all : Map Bytes Bytes → Map Bytes Bytes → Map Bytes Bytes
unfolding insert
insert_all values [] = values
insert_all values ((k, v) ∷ entries) = insert_all (insert k v values) entries

-- Route.AuthorizationContext
unfoldable pub authorization_context : Route → Map Bytes Bytes → Map Bytes Bytes
unfolding insert_all
authorization_context r parent =
    let values = insert_all [] parent in
    elim r.auth_policy [ none ↦ values | some policy ↦ insert_all values policy.context ]

-- Route.GetPrefixReplacements
abbrev pub get_prefix_replacements : Route → List ReplacePrefix
get_prefix_replacements r = elim r.path_rewrite_policy [ none ↦ [] | some rs ↦ rs ]
