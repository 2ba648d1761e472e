-- ===== src/Dag/Proxy/Running.antt =====
-- internal/dag/httpproxy_processor.go: computeHTTPProxy, from its condition to the commit.
use sesame.Common.{
  nat_eq, string_eq, Bytes, bytes_eq, Bool-cases, Option-cases, inl, inr, Bool, true, false, Option,
  none, some, arith,
}
use sesame.Common.Result.{Result, ok, err}
use sesame.Api.Proxy as Api
use sesame.Api.Proxy.{HttpProxy}
use sesame.Api.Status.{DetailedCondition, valid_condition_type}
use sesame.Status.Proxy.{name_eq, ProxyUpdate, put_condition}
use sesame.Status.Proxy.Commits.{WellFormed, commit_step}
use sesame.Dag.Cache.Objects.{Cache}
use sesame.Dag.Proxy.Checks.{Processor, Environment}
use sesame.Dag.Proxy.Parts.{is_blank, root_allowed}
use sesame.Dag.Proxy.Includes.{Halt, Work, Progress}
use sesame.Dag.Proxy.Tls.{Secured}
use sesame.Dag.Proxy.Roots.{
  RootResult, fuel_of, published, root_routes, after_chain, with_tcp_proxy, after_tls,
  nothing_defined, root_body, root_committed, compute_http_proxy,
}
use sesame.Dag.Proxy.Triples.{IsDecidedCondition, add_error-IsDecidedCondition}
use sesame.Dag.Proxy.Reach.{IsKeyed, IsCached}
use sesame.Dag.Proxy.Soundness.{put_condition-IsDecided, condition_for-IsDecided}
use sesame.Dag.Proxy.Termination.{compute_routes-IsSound}
use sesame.Dag.Proxy.Following.{process_tcp_proxy-IsSettled}
use sesame.Dag.Proxy.Securing.{Settles-run, configure_tls-Settles, publish-Settles}

-- the condition that is committed at the end, and the statuses until then
abbrev pub IsFinal : DetailedCondition × Bytes × Work → Type 0
IsFinal (dc, host, w) = IsDecidedCondition dc × WellFormed w.statuses

abbrev RootEnds : RootResult → Type 0
RootEnds (ok r) = IsFinal r
RootEnds (err h) = ⊥

abbrev pub WorkEnds : Result Halt Work → Type 0
WorkEnds (ok w) = WellFormed w.statuses
WorkEnds (err h) = ⊥

module _ (env : Environment) (p : Processor) (c : Cache) (is_keyed : IsKeyed c) where
  published-RootEnds :
      (proxy : HttpProxy) (vhost : Api.VirtualHost) (tls : Bool) (progress : Progress)
      → IsDecidedCondition progress.1
      → WellFormed progress.2.statuses
      → RootEnds (published env p c proxy vhost tls (ok progress))
  unfolding published
  published-RootEnds proxy vhost tls (routes, dc, w) hd hw =
      (Settles-run _ _ (publish-Settles env p c vhost _ routes) hd, hw)

  root_routes-RootEnds :
      (proxy : HttpProxy) (vhost : Api.VirtualHost) (tls : Bool) (dc : DetailedCondition) (w : Work)
      → IsCached c proxy
      → IsDecidedCondition dc
      → WellFormed w.statuses
      → RootEnds (root_routes env p c proxy vhost tls dc w)
  unfolding root_routes
  root_routes-RootEnds proxy vhost tls dc w cached hd hw =
      let ((routes, dc', w'), e, (_, hd', hw')) =
        compute_routes-IsSound env p c vhost tls is_keyed (fuel_of c) proxy dc w (omega arith)
          cached hd hw in
      rw (e, RootEnds) (published-RootEnds proxy vhost tls (routes, dc', w') hd' hw')

  after_chain-RootEnds :
      (proxy : HttpProxy) (vhost : Api.VirtualHost) (fine : Bool) (dc : DetailedCondition)
      (w : Work)
      → IsCached c proxy
      → IsDecidedCondition dc
      → WellFormed w.statuses
      → RootEnds (after_chain env p c proxy vhost (ok (fine, dc, w)))
  unfolding after_chain
  after_chain-RootEnds proxy vhost false dc w cached hd hw = (hd, hw)
  after_chain-RootEnds proxy vhost true dc w cached hd hw =
      root_routes-RootEnds proxy vhost true dc w cached hd hw

  with_tcp_proxy-RootEnds :
      (proxy : HttpProxy) (vhost : Api.VirtualHost) (tls : Bool) (dc : DetailedCondition) (w : Work)
      → IsCached c proxy
      → IsDecidedCondition dc
      → WellFormed w.statuses
      → RootEnds (with_tcp_proxy env p c proxy vhost tls dc w)
  unfolding with_tcp_proxy
  with_tcp_proxy-RootEnds proxy vhost tls dc w cached hd hw = elim (Option-cases proxy.tcp_proxy) [
    | inl nothing ↦ rw (nothing, RootEnds) (root_routes-RootEnds proxy vhost tls dc w cached hd hw)
    | inr (t, set) ↦ elim (Bool-cases tls) [
      | inr plain ↦ rw (set, plain, RootEnds) (add_error-IsDecidedCondition _ _ _ dc hd, hw)
      | inl secure ↦
          let ((fine, dc', w'), e, (hd', hw')) =
            process_tcp_proxy-IsSettled env p c is_keyed (fuel_of c) vhost.fqdn proxy dc w
              (omega arith) cached hd hw in
          rw (set, secure, e, RootEnds)
            (after_chain-RootEnds proxy vhost fine dc' w' cached hd' hw')
    ]
  ]

  after_tls-RootEnds :
      (proxy : HttpProxy) (vhost : Api.VirtualHost) (w : Work) (r : Secured × Option Bool)
      → IsCached c proxy
      → IsDecidedCondition r.0.condition
      → WellFormed w.statuses
      → RootEnds (after_tls env p c proxy vhost w r)
  unfolding after_tls
  after_tls-RootEnds proxy vhost w (s, none) cached hd hw = (hd, hw)
  after_tls-RootEnds proxy vhost w (s, some tls) cached hd hw =
      with_tcp_proxy-RootEnds proxy vhost tls s.condition _ cached hd hw

  root_body-RootEnds :
      (proxy : HttpProxy) (vhost : Api.VirtualHost) (dc : DetailedCondition) (w : Work)
      → IsCached c proxy
      → IsDecidedCondition dc
      → WellFormed w.statuses
      → RootEnds (root_body env p c proxy vhost dc w)
  unfolding root_body
  root_body-RootEnds proxy vhost dc w cached hd hw = elim (Bool-cases (is_blank vhost.fqdn)) [
    | inl blank ↦ rw (blank, RootEnds) (add_error-IsDecidedCondition _ _ _ dc hd, hw)
    | inr named ↦ elim (Bool-cases (root_allowed c.root_namespaces proxy.namespace)) [
      | inr denied ↦ rw (named, denied, RootEnds) (add_error-IsDecidedCondition _ _ _ dc hd, hw)
      | inl allowed ↦ elim (Bool-cases (nothing_defined env p c proxy)) [
        | inl empty ↦
            rw (named, allowed, empty, RootEnds) (add_error-IsDecidedCondition _ _ _ dc hd, hw)
        | inr defined ↦
            rw (named, allowed, defined, RootEnds)
              (after_tls-RootEnds proxy vhost w _ cached
                (Settles-run _ _
                  (configure_tls-Settles env p c vhost.fqdn proxy.namespace vhost.tls vhost) hd)
                hw)
      ]
    ]
  ]

  root_committed-WorkEnds :
      (pu : ProxyUpdate) (r : RootResult) → RootEnds r → WorkEnds (root_committed env p c pu r)
  unfolding root_committed
  root_committed-WorkEnds pu (err x) h = h
  root_committed-WorkEnds pu (ok (dc, host, w)) (hd, hw) =
      let (statuses, done, fine, _) =
        commit_step (record (put_condition dc valid_condition_type pu) { vhost = host }) w.statuses
          (put_condition-IsDecided dc pu hd) hw in
      rw (done, WorkEnds) fine

  -- On a cache that keeps its proxies under their own namespaces and names, from cached statuses that
  -- are all decided,
  -- computing any cached proxy returns, without a panic, and leaves the statuses decided.
  pub compute_http_proxy-WorkEnds :
      (proxy : HttpProxy) (w : Work)
      → IsCached c proxy
      → WellFormed w.statuses
      → WorkEnds (compute_http_proxy env p c proxy w)
  unfolding compute_http_proxy
  compute_http_proxy-WorkEnds proxy w cached hw = elim (Option-cases proxy.virtual_host) [
    | inl none_set ↦
        root_committed-WorkEnds _ _
          (rw (none_set, RootEnds) (condition_for-IsDecided env.now proxy, hw))
    | inr (vhost, set) ↦ root_committed-WorkEnds _ _ (
        rw (set, RootEnds)
          (root_body-RootEnds proxy vhost _ w cached (condition_for-IsDecided env.now proxy) hw))
  ]
