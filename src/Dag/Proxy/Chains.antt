-- ===== src/Dag/Proxy/Chains.antt =====
-- internal/dag/httpproxy_processor.go: processHTTPProxyTCPProxy, which follows the chain of the
-- includes of a TCP proxy, on fuel; EnsureSecureVirtualHost of internal/dag/accessors.go.
use sesame.Common.{
  nat_beq, ◌==◌, nat_eq, string_eq, list_beq, Bytes, bytes_eq, if◌then◌else◌, length, ℕ, zero, suc,
  Bool, true, false, not, ◌&&◌, ◌||◌, Option, none, some, List, [], ◌∷◌, ◌++◌,
}
use sesame.Common.Text.{bytes}
use sesame.Common.Integer.{to_uint32}
use sesame.Common.Assoc.{lookup, insert, delete}
use sesame.Common.Result.{Result, ok, err}
use sesame.Timeout.{default_setting}
use sesame.Api.Status.{DetailedCondition, add_error, valid_condition_type}
use sesame.Api.Proxy as Api
use sesame.Api.Proxy.{HttpProxy, TcpProxy, TcpProxyInclude}
use sesame.Status.Proxy.{name_eq, ProxyUpdate, condition_for, put_condition, commit}
use sesame.Dag.Graph.{Dag, Cluster, VirtualHost, SecureVirtualHost}
use sesame.Dag.Policy.Balancing.{load_balancer_policy, cookie, request_hash}
use sesame.Dag.Policy.Health.{tcp_health_check_policy}
use sesame.Dag.Cache.Objects.{Cache}
use sesame.Dag.Services.{ensure_service}
use sesame.Dag.Proxy.Checks.{
  Processor, Environment, Argument, Check, ◌>>=◌, ◌>>◌, pass, warn, fail, fail_if, or_fail,
}
use sesame.Dag.Proxy.Parts.{get_protocol, or_default}
use sesame.Dag.Proxy.Backends.{from_int, is_set}
use sesame.Dag.Proxy.Includes.{
  Halt, out_of_fuel, nil_dereference, Work, name_of, proxy_accessor, cycle_path, was_visited,
}

abbrev pub new_virtual_host : Bytes → VirtualHost
new_virtual_host host = record {
  name = host;
  cors_policy = none;
  rate_limit_policy = none;
  routes = [];
}

abbrev pub new_secure_virtual_host : Bytes → SecureVirtualHost
new_secure_virtual_host host = record {
  host = new_virtual_host host;
  min_tls_version = [];
  secret = none;
  fallback_certificate = none;
  tcp_proxy = none;
  downstream_validation = none;
  authorization_service = none;
  authorization_response_timeout = default_setting;
  authorization_fail_open = false;
  authorization_server_with_request_body = none;
}

-- EnsureSecureVirtualHost, and a write through the pointer that it returns
unfoldable pub ensure_secure_virtual_host : Bytes → Dag → SecureVirtualHost
unfolding lookup list_beq
ensure_secure_virtual_host host g = elim (lookup host g.secure_virtual_hosts) [
  | none ↦ new_secure_virtual_host host
  | some svh ↦ svh
]

unfoldable pub put_secure_virtual_host : Bytes → SecureVirtualHost → Dag → Dag
unfolding insert list_beq
put_secure_virtual_host host svh g = record g {
  secure_virtual_hosts = insert host svh g.secure_virtual_hosts;
}

-- the policy of the load balancer, without the two that a TCP proxy cannot have
unfoldable pub tcp_lb_policy : Environment → Bytes → Check DetailedCondition Bytes
unfolding list_beq
tcp_lb_policy env policy =
    if policy == cookie || policy == request_hash
    then (do
      warn "TCPProxyError" "IgnoredField" (
          env.sprintf "ignoring field %q; %s load balancer policy is not supported for TCPProxies"
            (Argument.text (bytes "Spec.TCPProxy.LoadBalancerPolicy") ∷ Argument.text policy ∷ []))
      pass [])
    else pass policy

-- the reference to the next proxy of the chain
abbrev pub tcp_include : TcpProxy → Option TcpProxyInclude
tcp_include t = elim t.include [ some i ↦ some i | none ↦ t.includes_deprecated ]

-- what a proxy of the chain leads to
pub data Link : Type 0 where
  served : List Cluster → Link
  linked : HttpProxy → Link

-- whether the chain was followed to its end, with the condition of the first proxy
abbrev pub ChainResult : Type 0
ChainResult = Result Halt (Bool × DetailedCondition × Work)

module _ (env : Environment) (p : Processor) (c : Cache) where
  unfoldable pub tcp_cluster :
      HttpProxy → TcpProxy → Bytes → Api.Service → Check DetailedCondition Cluster
  unfolding ensure_service get_protocol tcp_health_check_policy to_uint32
  tcp_cluster proxy t lb_policy s = do
    upstream ←
        or_fail
          (ensure_service c (proxy.namespace, s.name) (from_int s.port)
            p.enable_external_name_service)
          "TCPProxyError" "ServiceUnresolvedReference"
          (λ e.
            env.sprintf "Spec.TCPProxy unresolved service reference: %s"
              (Argument.ensure_error e ∷ []))
    protocol ←
        or_fail (get_protocol s upstream) "ServiceError" "UnsupportedProtocol"
          (λ e. env.sprintf "unsupported protocol: %v" (Argument.text e ∷ []))
    pass record {
      upstream = upstream;
      weight = to_uint32 s.weight;
      protocol = protocol;
      upstream_validation = none;
      load_balancer_policy = lb_policy;
      http_health_check = none;
      tcp_health_check = tcp_health_check_policy t.health_check_policy;
      request_headers_policy = none;
      response_headers_policy = none;
      cookie_rewrite_policies = [];
      sni = upstream.external_name;
      dns_lookup_family = [];
      client_certificate = none;
    }

  unfoldable pub tcp_clusters_loop :
      HttpProxy
      → TcpProxy
      → Bytes
      → List Cluster
      → List Api.Service
      → Check DetailedCondition (List Cluster)
  unfolding tcp_cluster
  tcp_clusters_loop proxy t lb_policy made [] = pass made
  tcp_clusters_loop proxy t lb_policy made (s ∷ ss) = do
    cluster ← tcp_cluster proxy t lb_policy s
    tcp_clusters_loop proxy t lb_policy (made ++ cluster ∷ []) ss

  -- the proxy that an include leads to
  unfoldable pub include_target :
      HttpProxy → Option TcpProxyInclude → Check DetailedCondition HttpProxy
  unfolding lookup
  include_target proxy none =
      fail "TCPProxyError" "NothingDefined" (bytes "either services or inclusion must be specified")
  include_target proxy (some i) =
      let namespace = or_default i.namespace proxy.namespace in
      elim (lookup (namespace, i.name) c.http_proxies) [
        | none ↦ fail "TCPProxyIncludeError" "IncludeNotFound" (
            env.sprintf "include %s/%s not found"
              (Argument.text namespace ∷ Argument.text i.name ∷ []))
        | some dest ↦ do
          fail_if (is_set dest.virtual_host) "TCPProxyIncludeError" "RootIncludesRoot"
              (bytes "root httpproxy cannot include another root httpproxy")
          pass dest
      ]

  -- the part of the body before the deletion from the orphans
  unfoldable pub tcp_link : HttpProxy → TcpProxy → Check DetailedCondition Link
  unfolding tcp_lb_policy tcp_clusters_loop include_target load_balancer_policy
  tcp_link proxy t = do
    let some_services = not (nat_beq (length t.services) 0)
    fail_if (some_services && is_set (tcp_include t)) "TCPProxyError" "NoServicesAndInclude"
        (bytes "cannot specify services and include in the same httpproxy")
    lb_policy ← tcp_lb_policy env (load_balancer_policy t.load_balancer_policy)
    elim some_services [
      | true ↦ do
        clusters ← tcp_clusters_loop proxy t lb_policy [] t.services
        pass (served clusters)
      | false ↦ do dest ← include_target proxy (tcp_include t); pass (linked dest)
    ]

  -- commit(), when the chain behind a proxy is done
  unfoldable pub chain_settled : ProxyUpdate → DetailedCondition → ChainResult → ChainResult
  chain_settled pu dc (err h) = err h
  chain_settled pu dc (ok (fine, cond, w)) =
      elim (commit (put_condition cond valid_condition_type pu) w.statuses) [
        | none ↦ err nil_dereference
        | some statuses ↦ ok (fine, dc, record w { statuses = statuses })
      ]

  abbrev pub adopted : HttpProxy → Work → Work
  adopted dest w = record w { orphaned = delete (name_of dest) w.orphaned }

  unfoldable pub chain_step :
      (HttpProxy → DetailedCondition → Work → ChainResult)
      → List HttpProxy
      → Bytes
      → Work
      → DetailedCondition × Option Link
      → ChainResult
  unfolding chain_settled
  chain_step follow visited host w (dc, none) = ok (false, dc, w)
  chain_step follow visited host w (dc, some (served clusters)) =
      let svh = record (ensure_secure_virtual_host host w.graph) { tcp_proxy = some clusters } in
      ok (true, dc, record w { graph = put_secure_virtual_host host svh w.graph })
  chain_step follow visited host w (dc, some (linked dest)) = elim (was_visited dest visited) [
    | true ↦ ok (
      false,
      add_error "TCPProxyIncludeError" "IncludeCreatesCycle"
          (env.sprintf "include creates a cycle: %s" (Argument.text (cycle_path visited dest) ∷ []))
          dc,
      adopted dest w,
    )
    | false ↦
        let (cond, pu) = condition_for valid_condition_type (proxy_accessor env.now dest) in
        chain_settled pu dc (follow dest cond (adopted dest w))
  ]

  unfoldable pub process_tcp_proxy :
      ℕ → List HttpProxy → Bytes → HttpProxy → DetailedCondition → Work → ChainResult
  unfolding chain_step tcp_link
  process_tcp_proxy zero visited host proxy dc w = err out_of_fuel
  process_tcp_proxy (suc fuel) visited host proxy dc w = elim proxy.tcp_proxy [
    | none ↦ ok (true, dc, w)
    | some t ↦
        let visited' = visited ++ proxy ∷ [] in
        chain_step (process_tcp_proxy fuel visited' host) visited' host w (tcp_link proxy t dc)
  ]
