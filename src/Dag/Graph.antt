-- ===== src/Dag/Graph.antt =====
-- internal/dag/dag.go: the vertices of the graph.
use sesame.Common.{nat_eq, string_eq, Bytes, bytes_eq, ℕ, Bool, Option, List}
use sesame.Common.Integer.{ℤ}
use sesame.Common.Assoc.{Map}
use sesame.Timeout.{Setting}
use sesame.Api.Proxy.{AuthorizationServerBufferSettings}
use sesame.Dag.Match.{PathMatchCondition, HeaderMatchCondition}
use sesame.Dag.Policy.Timeouts.{Timeouts, Retries}
use sesame.Dag.Policy.Cookies.{CookieRewrite}
use sesame.Dag.Policy.Balancing.{HashPolicy}
use sesame.Dag.Policy.Headers.{Headers}
use sesame.Dag.Policy.Limits.{LocalLimit, LimitEntry}
use sesame.Dag.Policy.Health.{HttpHealthCheckPolicy, TcpHealthCheckPolicy}
use sesame.Dag.Secret.Verdicts.{Secret}
use sesame.Dag.Cache.Objects.{ServicePort}

pub record PeerValidationContext : Type 0 where
  pub ca_certificate : Option Secret
  pub subject_name : Bytes
  pub skip_client_cert_validation : Bool

pub record WeightedService : Type 0 where
  pub weight : ℕ
  pub service_name : Bytes
  pub service_namespace : Bytes
  pub service_port : ServicePort

pub record Service : Type 0 where
  pub weighted : WeightedService
  pub protocol : Bytes
  pub max_connections : ℕ
  pub max_pending_requests : ℕ
  pub max_requests : ℕ
  pub max_retries : ℕ
  pub external_name : Bytes

pub record Cluster : Type 0 where
  pub upstream : Service
  pub weight : ℕ
  pub protocol : Bytes
  pub upstream_validation : Option PeerValidationContext
  pub load_balancer_policy : Bytes
  pub http_health_check : Option HttpHealthCheckPolicy
  pub tcp_health_check : Option TcpHealthCheckPolicy
  pub request_headers_policy : Option Headers
  pub response_headers_policy : Option Headers
  pub cookie_rewrite_policies : List CookieRewrite
  pub sni : Bytes
  pub dns_lookup_family : Bytes
  pub client_certificate : Option Secret

-- RateLimitPolicy, by its two parts
abbrev pub RateLimits : Type 0
RateLimits = Option LocalLimit × Option (List (List LimitEntry))

pub record Redirect : Type 0 where
  pub hostname : Bytes
  pub scheme : Bytes
  pub port_number : ℕ
  pub status_code : ℤ

-- `mirror_policy` is its cluster and `direct_response` its status code.
pub record Route : Type 0 where
  pub path : PathMatchCondition
  pub headers : List HeaderMatchCondition
  pub clusters : List Cluster
  pub https_upgrade : Bool
  pub auth_disabled : Bool
  pub auth_context : Map Bytes Bytes
  pub websocket : Bool
  pub timeout_policy : Timeouts
  pub retry_policy : Option Retries
  pub prefix_rewrite : Bytes
  pub mirror_policy : Option Cluster
  pub request_headers_policy : Option Headers
  pub response_headers_policy : Option Headers
  pub cookie_rewrite_policies : List CookieRewrite
  pub rate_limit_policy : Option RateLimits
  pub request_hash_policies : List HashPolicy
  pub direct_response : Option ℕ
  pub redirect : Option Redirect

pub record Cors : Type 0 where
  pub allow_credentials : Bool
  pub allow_origin : List Bytes
  pub allow_methods : List Bytes
  pub allow_headers : List Bytes
  pub expose_headers : List Bytes
  pub max_age : Setting

-- `routes` is keyed by the text of the route's conditions.
pub record VirtualHost : Type 0 where
  pub name : Bytes
  pub cors_policy : Option Cors
  pub rate_limit_policy : Option RateLimits
  pub routes : Map Bytes Route

pub record ExtensionCluster : Type 0 where
  pub name : Bytes
  pub response_timeout : Setting

pub record SecureVirtualHost : Type 0 where
  pub host : VirtualHost
  pub min_tls_version : Bytes
  pub secret : Option Secret
  pub fallback_certificate : Option Secret
  pub tcp_proxy : Option (List Cluster)
  pub downstream_validation : Option PeerValidationContext
  pub authorization_service : Option ExtensionCluster
  pub authorization_response_timeout : Setting
  pub authorization_fail_open : Bool
  pub authorization_server_with_request_body : Option AuthorizationServerBufferSettings

-- the part of the graph that the processor of HTTPProxies reads and writes
pub record Dag : Type 0 where
  pub virtual_hosts : Map Bytes VirtualHost
  pub secure_virtual_hosts : Map Bytes SecureVirtualHost
  pub extension_clusters : List ExtensionCluster
