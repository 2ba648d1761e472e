-- ===== src/Dag/Proxy/Termination.antt =====
-- internal/dag/httpproxy_processor.go: computeRoutes, on the includes of the cache.
use sesame.Common.{
  nat_eq, string_eq, bytes_eq, Bool-cases, length, ℕ, zero, suc, ◌<◌, ◌≡◌, refl, inl, inr, Bool,
  List, [], ◌∷◌, ◌++◌, arith,
}
use sesame.Common.Assoc.{keys}
use sesame.Common.Result.{Result, ok, err}
use sesame.Api.Match.{MatchCondition}
use sesame.Api.Proxy as Api
use sesame.Api.Proxy.{HttpProxy}
use sesame.Api.Status.{DetailedCondition}
use sesame.Status.Proxy.{name_eq}
use sesame.Status.Proxy.Commits.{WellFormed}
use sesame.Dag.Cache.Objects.{Cache}
use sesame.Dag.Proxy.Checks.{Processor, Environment}
use sesame.Dag.Proxy.Includes.{Halt, Work, Progress, was_visited, compute_routes}
use sesame.Dag.Proxy.Triples.{IsDecidedCondition, add_error-IsDecidedCondition}
use sesame.Dag.Proxy.Reach.{
  IsKeyed, IsCached, Reached, at_root, unvisited, unvisited-append-lt, unvisited-le-length,
}
use sesame.Dag.Proxy.Soundness.{IsSound, Returns, unvisited_routes-Returns}

module _ (env : Environment) (p : Processor) (c : Cache) (vhost : Api.VirtualHost)
    (enforce : Bool) where
  compute_routes-Returns :
      (root : HttpProxy) (is_keyed : IsKeyed c) (fuel : ℕ) (visited : List HttpProxy)
      (proxy : HttpProxy) (conditions : List MatchCondition) (dc : DetailedCondition) (w : Work)
      → unvisited visited (keys c.http_proxies) < fuel
      → Reached c root proxy
      → IsCached c proxy
      → IsDecidedCondition dc
      → WellFormed w.statuses
      → Returns env p c vhost enforce root is_keyed
          (compute_routes env p c vhost enforce fuel visited proxy conditions dc w)
  unfolding compute_routes
  compute_routes-Returns root is_keyed zero visited proxy conditions dc w enough reached cached hd
        hw =
      absurd (omega arith)
  compute_routes-Returns root is_keyed (suc fuel) visited proxy conditions dc w enough reached
        cached hd hw =
      elim (Bool-cases (was_visited proxy visited)) [
        | inl again ↦ rw (again, Returns) (tt, add_error-IsDecidedCondition _ _ _ dc hd, hw)
        | inr new ↦
            rw (new, Returns)
              (unvisited_routes-Returns env p c vhost enforce root is_keyed _ proxy conditions dc w
                (λ proxy' conditions' dc' w' reached' cached' hd' hw'.
                  compute_routes-Returns root is_keyed fuel (visited ++ proxy ∷ []) proxy'
                    conditions' dc' w'
                    (let less =
                        unvisited-append-lt visited proxy (keys c.http_proxies) cached new in
                      omega (arith, less, enough))
                    reached' cached' hd' hw')
                reached hd hw)
      ]

  returned :
      (root : HttpProxy) (is_keyed : IsKeyed c) (r : Result Halt Progress)
      → Returns env p c vhost enforce root is_keyed r
      → (progress : Progress) × (r ≡ ok progress)
        × IsSound env p c vhost enforce root is_keyed progress
  returned root is_keyed (ok progress) h = (progress, refl, h)
  returned root is_keyed (err x) h = absurd h

  -- On a cache that keeps its proxies under their own namespaces and names, from cached statuses that
  -- are all decided,
  -- computing the routes of a cached root proxy returns, without a panic, as soon as the fuel is
  -- more than the number of cached proxies, whatever includes the proxies have. The routes are on
  -- path prefixes, each of their clusters and mirrors is a service in the namespace of a proxy that
  -- the root reaches by includes, and both the condition and the statuses are left decided.
  pub compute_routes-IsSound :
      (is_keyed : IsKeyed c) (fuel : ℕ) (root : HttpProxy) (dc : DetailedCondition) (w : Work)
      → length c.http_proxies < fuel
      → IsCached c root
      → IsDecidedCondition dc
      → WellFormed w.statuses
      → (progress : Progress) × (compute_routes env p c vhost enforce fuel [] root [] dc w
          ≡ ok progress)
        × IsSound env p c vhost enforce root is_keyed progress
  compute_routes-IsSound is_keyed fuel root dc w enough cached hd hw = returned root is_keyed _ (
      compute_routes-Returns root is_keyed fuel [] root [] dc w
        (let few = unvisited-le-length [] c.http_proxies in omega (arith, few, enough)) at_root
        cached hd hw)
