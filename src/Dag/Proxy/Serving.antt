-- ===== src/Dag/Proxy/Serving.antt =====
-- internal/dag/httpproxy_processor.go: where the clusters of a route come from.
use sesame.Common.{
  nat_eq, string_eq, Bytes, bytes_eq, Bool-cases, All, All-append, ◌≡◌, refl, inl, inr, Bool, true,
  false, Option, none, some, List, [], ◌∷◌,
}
use sesame.Common.Result.{Result, ok, err}
use sesame.Common.Assoc.{lookup}
use sesame.Status.Proxy.{NamespacedName, name_eq}
use sesame.Api.Proxy as Api
use sesame.Dag.Graph.{Cluster, Service}
use sesame.Dag.Policy.Headers.{Headers}
use sesame.Dag.Cache.Objects as Kubernetes
use sesame.Dag.Cache.Objects.{Cache, ServicePort}
use sesame.Dag.Services.{EnsureError, graph_service, ensure_service}
use sesame.Dag.Services.Safety.{IsAllowed, ensure_service-IsAllowed}
use sesame.Dag.Proxy.Checks.{Processor, Environment}
use sesame.Dag.Proxy.Backends.{
  Backends, from_int, add_cluster, backend_step, backends_loop, with_cluster, speaks_tls,
  peer_validation, client_certificate_of, found_or_skipped,
}
use sesame.Dag.Proxy.Triples.{
  weaker-Triple, Any, Steady, bind-Triple, pass-Triple, complain-Steady, fail_if-Steady,
  or_fail-Steady,
}

abbrev pub InOption : {A : Type 0} → (A → Type 0) → Option A → Type 0
InOption P none = Unit
InOption P (some a) = P a

-- The upstream is made from a service of the cache in this namespace, and it has an external name
-- only where these are enabled, and none of the local host.
abbrev pub IsServedFrom : Cache → Bool → Bytes → Service → Type 0
IsServedFrom c enabled namespace upstream =
    (name : Bytes) × (svc : Kubernetes.Service) × (port : ServicePort) × (lookup (namespace, name)
        c.services
      ≡ some svc)
    × (graph_service svc port ≡ upstream)
    × IsAllowed enabled upstream.external_name

module _ (env : Environment) (p : Processor) (c : Cache) where
  abbrev pub Own : Bytes → Cluster → Type 0
  Own namespace cluster = IsServedFrom c p.enable_external_name_service namespace cluster.upstream

  abbrev pub OwnBackends : Bytes → Backends → Type 0
  OwnBackends namespace b = All (Own namespace) b.clusters × InOption (Own namespace) b.mirror

  with_cluster-OwnBackends :
      (namespace : Bytes) (cluster : Cluster) (mirrored : Bool) (b : Backends)
      → Own namespace cluster
      → OwnBackends namespace b
      → OwnBackends namespace (with_cluster cluster mirrored b)
  unfolding with_cluster
  with_cluster-OwnBackends namespace cluster true b own h = (h.0, own)
  with_cluster-OwnBackends namespace cluster false b own h =
      (All-append (Own namespace) b.clusters (cluster ∷ []) h.0 (own, tt), h.1)

  peer_validation-Steady :
      (namespace protocol : Bytes) (s : Api.Service) (uv : Option Api.UpstreamValidation)
      → Steady Any (peer_validation env p c namespace protocol s uv)
  unfolding peer_validation
  peer_validation-Steady namespace protocol s none = pass-Triple _ _ _ tt
  peer_validation-Steady namespace protocol s (some uv) = elim (Bool-cases (speaks_tls protocol)) [
    | inl tls ↦ rw tls (
        bind-Triple _ _ _ _ _ (fail_if-Steady _ _ _ _)
          (λ _ _. weaker-Triple _ _ _ _ (λ _ _. tt) (or_fail-Steady _ _ _ _)))
    | inr plain ↦ rw plain (pass-Triple _ _ _ tt)
  ]

  client_certificate_of-Steady :
      (name : Option NamespacedName) → Steady Any (client_certificate_of env p c name)
  unfolding client_certificate_of
  client_certificate_of-Steady none = pass-Triple _ _ _ tt
  client_certificate_of-Steady (some name) =
      bind-Triple _ _ _ _ _ (or_fail-Steady _ _ _ _) (λ _ _. pass-Triple _ _ _ tt)

  own_upstream :
      (namespace : Bytes) (s : Api.Service) (upstream : Service)
      → ensure_service c (namespace, s.name) (from_int s.port) p.enable_external_name_service
        ≡ ok upstream
      → IsServedFrom c p.enable_external_name_service namespace upstream
  own_upstream namespace s upstream e =
      let (svc, port, held, _, same, allowed) =
        ensure_service-IsAllowed c (namespace, s.name) (from_int s.port)
          p.enable_external_name_service upstream e in
      (s.name, svc, port, held, same, allowed)

  add_cluster-Steady :
      (namespace : Bytes) (route : Api.Route) (headers : Option Headers) (lb : Bytes) (b : Backends)
      (s : Api.Service) (upstream : Service)
      → OwnBackends namespace b
      → ensure_service c (namespace, s.name) (from_int s.port) p.enable_external_name_service
        ≡ ok upstream
      → Steady (OwnBackends namespace) (add_cluster env p c namespace route headers lb b s upstream)
  unfolding add_cluster
  add_cluster-Steady namespace route headers lb b s upstream h e =
      bind-Triple _ _ _ _ _ (or_fail-Steady _ _ _ _) (λ protocol _.
        bind-Triple _ _ _ _ _ (peer_validation-Steady namespace protocol s s.upstream_validation)
          (λ _ _. bind-Triple _ _ _ _ _ (or_fail-Steady _ _ _ _) (λ _ _.
            bind-Triple _ _ _ _ _ (or_fail-Steady _ _ _ _) (λ _ _.
              bind-Triple _ _ _ _ _ (or_fail-Steady _ _ _ _) (λ _ _.
                bind-Triple _ _ _ _ _ (client_certificate_of-Steady p.client_certificate) (λ _ _.
                  bind-Triple _ _ _ _ _ (fail_if-Steady _ _ _ _) (λ _ _. pass-Triple _ _ _ (
                    with_cluster-OwnBackends namespace _ s.mirror _
                      (own_upstream namespace s upstream e) h))))))))

  found_or_skipped-Steady :
      (namespace : Bytes) (route : Api.Route) (headers : Option Headers) (lb : Bytes) (b : Backends)
      (s : Api.Service) (r : Result EnsureError Service)
      → OwnBackends namespace b
      → ensure_service c (namespace, s.name) (from_int s.port) p.enable_external_name_service ≡ r
      → Steady (OwnBackends namespace) (found_or_skipped env p c namespace route headers lb b s r)
  unfolding found_or_skipped
  found_or_skipped-Steady namespace route headers lb b s (ok upstream) h e =
      add_cluster-Steady namespace route headers lb b s upstream h e
  found_or_skipped-Steady namespace route headers lb b s (err x) h e =
      bind-Triple _ _ _ _ _ (complain-Steady _ _ _) (λ _ _. pass-Triple _ _ _ h)

  backend_step-Steady :
      (namespace : Bytes) (route : Api.Route) (headers : Option Headers) (lb : Bytes) (b : Backends)
      (s : Api.Service)
      → OwnBackends namespace b
      → Steady (OwnBackends namespace) (backend_step env p c namespace route headers lb b s)
  unfolding backend_step
  backend_step-Steady namespace route headers lb b s h =
      bind-Triple _ _ _ _ _ (fail_if-Steady _ _ _ _)
        (λ _ _. found_or_skipped-Steady namespace route headers lb b s _ h refl)

  pub backends_loop-Steady :
      (namespace : Bytes) (route : Api.Route) (headers : Option Headers) (lb : Bytes) (b : Backends)
      (ss : List Api.Service)
      → OwnBackends namespace b
      → Steady (OwnBackends namespace) (backends_loop env p c namespace route headers lb b ss)
  unfolding backends_loop
  backends_loop-Steady namespace route headers lb b [] h = pass-Triple _ _ _ h
  backends_loop-Steady namespace route headers lb b (s ∷ ss) h =
      bind-Triple _ _ _ _ _ (backend_step-Steady namespace route headers lb b s h)
        (λ b' h'. backends_loop-Steady namespace route headers lb b' ss h')
