-- ===== src/Dag/Proxy/Roots.antt =====
-- internal/dag/httpproxy_processor.go: computeHTTPProxy.
use sesame.Common.{
  nat_beq, nat_eq, string_eq, Bytes, bytes_eq, length, ℕ, suc, String, Bool, true, false, not, ◌&&◌,
  Option, none, some, List, [], ◌∷◌,
}
use sesame.Common.Text.{bytes}
use sesame.Common.Assoc.{insert}
use sesame.Common.Result.{Result, ok, err}
use sesame.Status.Proxy.{name_eq, ProxyUpdate, condition_for, put_condition, commit}
use sesame.Api.Status.{DetailedCondition, add_error, valid_condition_type}
use sesame.Api.Proxy as Api
use sesame.Api.Proxy.{HttpProxy}
use sesame.Dag.Graph.{Route, Cors, RateLimits}
use sesame.Dag.Policy.Limits.{rate_limit_policy}
use sesame.Dag.Cache.Objects.{Cache}
use sesame.Dag.Proxy.Checks.{Processor, Environment, Argument, Check, ◌>>=◌, ◌>>◌, pass}
use sesame.Dag.Proxy.Parts.{is_blank, root_allowed, to_cors_policy}
use sesame.Dag.Proxy.Backends.{is_set}
use sesame.Dag.Proxy.Includes.{
  Halt, nil_dereference, Work, Progress, name_of, proxy_accessor, compute_routes,
}
use sesame.Dag.Proxy.Chains.{ChainResult, process_tcp_proxy}
use sesame.Dag.Proxy.Hosts.{add_routes, write_insecure}
use sesame.Dag.Proxy.Tls.{Secured, or_stop, write, configure_tls}

-- the condition, the name of the virtual host of the update, and the state, at a return
abbrev pub RootResult : Type 0
RootResult = Result Halt (DetailedCondition × Bytes × Work)

abbrev pub refused : String → String → Bytes → Bytes → DetailedCondition → Work → RootResult
refused error_type reason message host dc w = ok (add_error error_type reason message dc, host, w)

abbrev pub fuel_of : Cache → ℕ
fuel_of c = suc (length c.http_proxies)

module _ (env : Environment) (p : Processor) (c : Cache) where
  unfoldable pub limits_of : Api.VirtualHost → Check Secured (Option RateLimits)
  unfolding rate_limit_policy
  limits_of vhost =
      or_stop (rate_limit_policy env.kubernetes vhost.rate_limit_policy) "RouteError"
        "RateLimitPolicyNotValid"
        (λ e.
          env.sprintf "Spec.VirtualHost.RateLimitPolicy is invalid: %s"
            (Argument.limit_error e ∷ []))

  unfoldable pub publish_secure :
      Api.VirtualHost → Option Cors → List Route → Bool → Check Secured (Unit {0})
  unfolding limits_of add_routes
  publish_secure vhost cors routes false = pass tt
  publish_secure vhost cors routes true = do
    write vhost.fqdn (λ v. record v { host = record v.host { cors_policy = cors } })
    limits ← limits_of vhost
    write vhost.fqdn (λ v. record v {
      host = record v.host { rate_limit_policy = limits; routes = add_routes routes v.host.routes };
    })

  -- the end of the body: the routes are added to the virtual hosts of the proxy
  unfoldable pub publish : Api.VirtualHost → Bool → List Route → Check Secured (Unit {0})
  unfolding to_cors_policy limits_of add_routes publish_secure
  publish vhost secure_too routes = do
    write_insecure vhost.fqdn (λ v. v)
    cors ←
        or_stop (to_cors_policy env.parse_duration vhost.cors_policy) "CORSError"
          "PolicyDidNotParse"
          (λ e. env.sprintf "Spec.VirtualHost.CORSPolicy: %s" (Argument.cors_error e ∷ []))
    write_insecure vhost.fqdn (λ v. record v { cors_policy = cors })
    limits ← limits_of vhost
    write_insecure vhost.fqdn
        (λ v. record v { rate_limit_policy = limits; routes = add_routes routes v.routes })
    publish_secure vhost cors routes secure_too

  abbrev pub returned : {A : Type 0} → Bytes → Work → Secured × Option A → RootResult
  returned host w (s, _) = ok (s.condition, host, record w { graph = s.graph })

  unfoldable pub published : HttpProxy → Api.VirtualHost → Bool → Result Halt Progress → RootResult
  unfolding publish
  published proxy vhost tls_enabled (err h) = err h
  published proxy vhost tls_enabled (ok (routes, dc, w)) = returned vhost.fqdn w (
      publish vhost (tls_enabled && not (is_set proxy.tcp_proxy)) routes
        record { condition = dc; graph = w.graph })

  unfoldable pub root_routes :
      HttpProxy → Api.VirtualHost → Bool → DetailedCondition → Work → RootResult
  unfolding compute_routes published
  root_routes proxy vhost tls_enabled dc w =
      published proxy vhost tls_enabled
        (compute_routes env p c vhost tls_enabled (fuel_of c) [] proxy [] dc w)

  unfoldable pub after_chain : HttpProxy → Api.VirtualHost → ChainResult → RootResult
  unfolding root_routes
  after_chain proxy vhost (err h) = err h
  after_chain proxy vhost (ok (false, dc, w)) = ok (dc, vhost.fqdn, w)
  after_chain proxy vhost (ok (true, dc, w)) = root_routes proxy vhost true dc w

  unfoldable pub with_tcp_proxy :
      HttpProxy → Api.VirtualHost → Bool → DetailedCondition → Work → RootResult
  unfolding after_chain root_routes process_tcp_proxy
  with_tcp_proxy proxy vhost tls_enabled dc w = elim proxy.tcp_proxy [
    | none ↦ root_routes proxy vhost tls_enabled dc w
    | some t ↦ elim tls_enabled [
      | false ↦
          refused "TCPProxyError" "TLSMustBeConfigured"
            (bytes
              "Spec.TCPProxy requires that either Spec.TLS.Passthrough or Spec.TLS.SecretName be set")
            vhost.fqdn dc w
      | true ↦
          after_chain proxy vhost (process_tcp_proxy env p c (fuel_of c) [] vhost.fqdn proxy dc w)
    ]
  ]

  unfoldable pub after_tls : HttpProxy → Api.VirtualHost → Work → Secured × Option Bool → RootResult
  unfolding with_tcp_proxy
  after_tls proxy vhost w (s, none) = ok (s.condition, vhost.fqdn, record w { graph = s.graph })
  after_tls proxy vhost w (s, some tls_enabled) =
      with_tcp_proxy proxy vhost tls_enabled s.condition (record w { graph = s.graph })

  abbrev pub nothing_defined : HttpProxy → Bool
  nothing_defined proxy =
      nat_beq (length proxy.routes) 0
      && nat_beq (length proxy.includes) 0
      && not (is_set proxy.tcp_proxy)

  -- the body for a proxy that has a virtual host
  unfoldable pub root_body : HttpProxy → Api.VirtualHost → DetailedCondition → Work → RootResult
  unfolding is_blank root_allowed after_tls configure_tls
  root_body proxy vhost dc w = elim (is_blank vhost.fqdn) [
    | true ↦
        refused "VirtualHostError" "FQDNNotSpecified"
          (bytes "Spec.VirtualHost.Fqdn must be specified") [] dc w
    | false ↦ elim (root_allowed c.root_namespaces proxy.namespace) [
      | false ↦
          refused "RootNamespaceError" "RootProxyNotAllowedInNamespace"
            (bytes "root HTTPProxy cannot be defined in this namespace") vhost.fqdn dc w
      | true ↦ elim (nothing_defined proxy) [
        | true ↦
            refused "SpecError" "NothingDefined"
              (bytes "HTTPProxy.Spec must have at least one Route, Include, or a TCPProxy")
              vhost.fqdn dc w
        | false ↦ after_tls proxy vhost w (
            configure_tls env p c vhost.fqdn proxy.namespace vhost.tls vhost
              record { condition = dc; graph = w.graph })
      ]
    ]
  ]

  -- the deferred commit
  unfoldable pub root_committed : ProxyUpdate → RootResult → Result Halt Work
  root_committed pu (err h) = err h
  root_committed pu (ok (dc, host, w)) =
      elim (commit (record (put_condition dc valid_condition_type pu) { vhost = host })
        w.statuses) [
          | none ↦ err nil_dereference
          | some statuses ↦ ok record w { statuses = statuses }
        ]

  unfoldable pub compute_http_proxy : HttpProxy → Work → Result Halt Work
  unfolding root_committed root_body insert
  compute_http_proxy proxy w =
      let (dc, pu) = condition_for valid_condition_type (proxy_accessor env.now proxy) in
      root_committed pu (elim proxy.virtual_host [
        | none ↦ ok (dc, [], record w { orphaned = insert (name_of proxy) true w.orphaned })
        | some vhost ↦ root_body proxy vhost dc w
      ])
