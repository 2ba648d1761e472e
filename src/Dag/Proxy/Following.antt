-- ===== src/Dag/Proxy/Following.antt =====
-- internal/dag/httpproxy_processor.go: processHTTPProxyTCPProxy, on the chains of includes of the cache.
use sesame.Common.{
  nat_beq, ◌==◌, nat_eq, string_eq, Bytes, bytes_eq, Bool-cases, Option-cases, length, ℕ, zero, suc,
  ◌<◌, ◌≡◌, refl, inl, inr, Bool, false, not, ◌||◌, Option, none, some, List, [], ◌∷◌, ◌++◌, arith,
}
use sesame.Common.Assoc.{lookup, keys}
use sesame.Common.Result.{ok, err}
use sesame.Api.Proxy as Api
use sesame.Api.Proxy.{HttpProxy, TcpProxy, TcpProxyInclude}
use sesame.Api.Status.{DetailedCondition, valid_condition_type}
use sesame.Status.Proxy.{name_eq, ProxyUpdate, put_condition}
use sesame.Status.Proxy.Commits.{WellFormed, commit_step}
use sesame.Dag.Graph.{Cluster}
use sesame.Dag.Policy.Balancing.{load_balancer_policy, cookie, request_hash}
use sesame.Dag.Cache.Objects.{Cache}
use sesame.Dag.Proxy.Checks.{Processor, Environment}
use sesame.Dag.Proxy.Parts.{or_default}
use sesame.Dag.Proxy.Includes.{Work, was_visited}
use sesame.Dag.Proxy.Chains.{
  Link, served, linked, ChainResult, tcp_include, tcp_lb_policy, tcp_cluster, tcp_clusters_loop,
  include_target, tcp_link, chain_settled, chain_step, process_tcp_proxy,
}
use sesame.Dag.Proxy.Triples.{
  Any, Triple, Outcome, Steady, IsDecidedCondition, add_error-IsDecidedCondition, bind-Triple,
  pass-Triple, warn-Steady, fail-Steady, fail_if-Steady, or_fail-Steady,
}
use sesame.Dag.Proxy.Reach.{
  IsKeyed, IsCached, found-IsCached, unvisited, unvisited-append-lt, unvisited-le-length,
}
use sesame.Dag.Proxy.Soundness.{put_condition-IsDecided, condition_for-IsDecided}

tcp_lb_policy-Steady : (env : Environment) (policy : Bytes) → Steady Any (tcp_lb_policy env policy)
unfolding tcp_lb_policy
tcp_lb_policy-Steady env policy = elim (Bool-cases (policy == cookie || policy == request_hash)) [
  | inl ignored ↦
      rw ignored (bind-Triple _ _ _ _ _ (warn-Steady _ _ _) (λ _ _. pass-Triple _ _ _ tt))
  | inr kept ↦ rw kept (pass-Triple _ _ _ tt)
]

module _ (env : Environment) (p : Processor) (c : Cache) (is_keyed : IsKeyed c) where
  tcp_cluster-Steady :
      (proxy : HttpProxy) (t : TcpProxy) (lb : Bytes) (s : Api.Service)
      → Steady Any (tcp_cluster env p c proxy t lb s)
  unfolding tcp_cluster
  tcp_cluster-Steady proxy t lb s =
      bind-Triple _ _ _ _ _ (or_fail-Steady _ _ _ _)
        (λ _ _. bind-Triple _ _ _ _ _ (or_fail-Steady _ _ _ _) (λ _ _. pass-Triple _ _ _ tt))

  tcp_clusters_loop-Steady :
      (proxy : HttpProxy) (t : TcpProxy) (lb : Bytes) (made : List Cluster) (ss : List Api.Service)
      → Steady Any (tcp_clusters_loop env p c proxy t lb made ss)
  unfolding tcp_clusters_loop
  tcp_clusters_loop-Steady proxy t lb made [] = pass-Triple _ _ _ tt
  tcp_clusters_loop-Steady proxy t lb made (s ∷ ss) =
      bind-Triple _ _ _ _ _ (tcp_cluster-Steady proxy t lb s)
        (λ cluster _. tcp_clusters_loop-Steady proxy t lb (made ++ cluster ∷ []) ss)

  include_target-Steady :
      (proxy : HttpProxy) (i : Option TcpProxyInclude)
      → Steady (IsCached c) (include_target env p c proxy i)
  unfolding include_target
  include_target-Steady proxy none = fail-Steady _ _ _ _
  include_target-Steady proxy (some i) =
      elim (Option-cases (lookup (or_default i.namespace proxy.namespace, i.name) c.http_proxies)) [
        | inl missing ↦ rw (missing, include_target) (fail-Steady _ _ _ _)
        | inr (dest, found) ↦
            rw (found, include_target)
              (bind-Triple _ _ _ _ _ (fail_if-Steady _ _ _ _)
                (λ _ _. pass-Triple _ _ _ (found-IsCached c is_keyed _ dest found)))
      ]

  abbrev LeadsOn : Link → Type 0
  LeadsOn (served clusters) = Unit
  LeadsOn (linked dest) = IsCached c dest

  tcp_link-Steady : (proxy : HttpProxy) (t : TcpProxy) → Steady LeadsOn (tcp_link env p c proxy t)
  unfolding tcp_link
  tcp_link-Steady proxy t = bind-Triple _ _ _ _ _ (fail_if-Steady _ _ _ _) (λ _ _.
      bind-Triple _ _ _ _ _ (tcp_lb_policy-Steady env (load_balancer_policy t.load_balancer_policy))
        (λ lb _. elim (Bool-cases (not (nat_beq (length t.services) 0))) [
          | inl some_services ↦ rw some_services (
              bind-Triple _ _ _ _ _ (tcp_clusters_loop-Steady proxy t lb [] t.services)
                (λ _ _. pass-Triple _ _ _ tt))
          | inr none_set ↦ rw none_set (
              bind-Triple _ _ _ _ _ (include_target-Steady proxy (tcp_include t))
                (λ dest cached. pass-Triple _ _ _ cached))
        ]))

  tcp_link-run :
      (proxy : HttpProxy) (t : TcpProxy) (dc : DetailedCondition)
      → IsDecidedCondition dc
      → Outcome IsDecidedCondition LeadsOn (tcp_link env p c proxy t dc)
  unfolding Triple
  tcp_link-run proxy t dc hd = tcp_link-Steady proxy t dc hd

  -- the condition and the statuses that a chain leaves
  abbrev pub IsSettled : Bool × DetailedCondition × Work → Type 0
  IsSettled (fine, dc, w) = IsDecidedCondition dc × WellFormed w.statuses

  abbrev Ends : ChainResult → Type 0
  Ends (ok r) = IsSettled r
  Ends (err h) = ⊥

  chain_settled-Ends :
      (pu : ProxyUpdate) (dc : DetailedCondition) (r : ChainResult)
      → IsDecidedCondition dc
      → Ends r
      → Ends (chain_settled env p c pu dc r)
  unfolding chain_settled
  chain_settled-Ends pu dc (err x) hd h = h
  chain_settled-Ends pu dc (ok (fine, cond, w)) hd (hc, hw) =
      let (statuses, done, good, _) =
        commit_step (put_condition cond valid_condition_type pu) w.statuses
          (put_condition-IsDecided cond pu hc) hw in
      rw (done, Ends) (hd, good)

  chain_step-Ends :
      (follow : HttpProxy → DetailedCondition → Work → ChainResult) (visited : List HttpProxy)
      (host : Bytes) (w : Work) (r : DetailedCondition × Option Link)
      → ((dest : HttpProxy) (dc : DetailedCondition) (w' : Work)
          → was_visited dest visited ≡ false
          → IsCached c dest
          → IsDecidedCondition dc
          → WellFormed w'.statuses
          → Ends (follow dest dc w'))
      → Outcome IsDecidedCondition LeadsOn r
      → WellFormed w.statuses
      → Ends (chain_step env p c follow visited host w r)
  unfolding chain_step
  chain_step-Ends follow visited host w (dc, none) hf h hw = (h, hw)
  chain_step-Ends follow visited host w (dc, some (served clusters)) hf h hw = (h.0, hw)
  chain_step-Ends follow visited host w (dc, some (linked dest)) hf h hw =
      elim (Bool-cases (was_visited dest visited)) [
        | inl again ↦ rw (again, Ends) (add_error-IsDecidedCondition _ _ _ dc h.0, hw)
        | inr new ↦
            rw (new, Ends)
              (chain_settled-Ends _ dc _ h.0
                (hf dest _ _ new h.1 (condition_for-IsDecided env.now dest) hw))
      ]

  process_tcp_proxy-Ends :
      (fuel : ℕ) (visited : List HttpProxy) (host : Bytes) (proxy : HttpProxy)
      (dc : DetailedCondition) (w : Work)
      → unvisited visited (keys c.http_proxies) < fuel
      → was_visited proxy visited ≡ false
      → IsCached c proxy
      → IsDecidedCondition dc
      → WellFormed w.statuses
      → Ends (process_tcp_proxy env p c fuel visited host proxy dc w)
  unfolding process_tcp_proxy
  process_tcp_proxy-Ends zero visited host proxy dc w enough new cached hd hw = absurd (omega arith)
  process_tcp_proxy-Ends (suc fuel) visited host proxy dc w enough new cached hd hw =
      elim (Option-cases proxy.tcp_proxy) [
        | inl nothing ↦ rw (nothing, Ends) (hd, hw)
        | inr (t, set) ↦
            rw (set, Ends)
              (chain_step-Ends _ (visited ++ proxy ∷ []) host w _
                (λ dest dc' w' new' cached' hd' hw'.
                  process_tcp_proxy-Ends fuel (visited ++ proxy ∷ []) host dest dc' w'
                    (let less =
                        unvisited-append-lt visited proxy (keys c.http_proxies) cached new in
                      omega (arith, less, enough))
                    new' cached' hd' hw')
                (tcp_link-run proxy t dc hd) hw)
      ]

  ended :
      (r : ChainResult)
      → Ends r
      → (out : Bool × DetailedCondition × Work) × (r ≡ ok out) × IsSettled out
  ended (ok out) h = (out, refl, h)
  ended (err x) h = absurd h

  -- On a cache that keeps its proxies under their own namespaces and names, from cached statuses that
  -- are all decided,
  -- following the includes of the TCP proxy of a cached root returns, without a panic, as soon as
  -- the fuel is more than the number of cached proxies, whatever chain or cycle the includes form,
  -- and leaves the condition and the statuses decided.
  pub process_tcp_proxy-IsSettled :
      (fuel : ℕ) (host : Bytes) (root : HttpProxy) (dc : DetailedCondition) (w : Work)
      → length c.http_proxies < fuel
      → IsCached c root
      → IsDecidedCondition dc
      → WellFormed w.statuses
      → (out : Bool × DetailedCondition × Work) × (process_tcp_proxy env p c fuel [] host root dc w
          ≡ ok out)
        × IsSettled out
  process_tcp_proxy-IsSettled fuel host root dc w enough cached hd hw = ended _ (
      process_tcp_proxy-Ends fuel [] host root dc w
        (let few = unvisited-le-length [] c.http_proxies in omega (arith, few, enough)) refl cached
        hd hw)
