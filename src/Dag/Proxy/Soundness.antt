-- ===== src/Dag/Proxy/Soundness.antt =====
-- internal/dag/httpproxy_processor.go: what computeRoutes returns, on the includes of a proxy.
use sesame.Common.{
  nat_eq, string_eq, bytes_eq, Bool-cases, Option-cases, All, All-append, ℕ, ◌≡◌, refl, inl, inr,
  Bool, Option, none, some, List, [], ◌∷◌, ◌++◌,
}
use sesame.Common.Assoc.{lookup, lookup-insert}
use sesame.Common.Result.{◌>>=◌, Result, ok, err}
use sesame.Api.Match.{MatchCondition}
use sesame.Api.Proxy as Api
use sesame.Api.Proxy.{HttpProxy, Include}
use sesame.Api.Status.{DetailedCondition, valid_condition_type}
use sesame.Status.Proxy.{name_eq, ProxyUpdate, condition_for, put_condition}
use sesame.Status.Proxy.Commits.{IsDecided, WellFormed, commit_step}
use sesame.Dag.Graph.{Cluster, Route}
use sesame.Dag.Conditions.Path.{path_match_conditions_valid}
use sesame.Dag.Conditions.Header.{header_match_conditions_valid}
use sesame.Dag.Cache.Objects.{Cache}
use sesame.Dag.Proxy.Checks.{Processor, Environment}
use sesame.Dag.Proxy.Parts.{or_default, include_match_conditions_identical}
use sesame.Dag.Proxy.Prefixes.{expand_prefix_matches}
use sesame.Dag.Proxy.Includes.{
  Halt, Work, Progress, Follow, proxy_accessor, missing_routes, settled, follow_include,
  found_include, include_step, includes_loop, own_result, expanded, own_routes, unvisited_routes,
}
use sesame.Dag.Proxy.Serving.{IsServedFrom}
use sesame.Dag.Proxy.Expansion.{IsPrefixRoute, expand_prefix_matches-All}
use sesame.Dag.Proxy.Routing.{routes_loop-Steady}
use sesame.Dag.Proxy.Triples.{Triple, Outcome, IsDecidedCondition, add_error-IsDecidedCondition}
use sesame.Dag.Proxy.Reach.{found-IsCached, IsKeyed, IsCached, IsIn, All-IsIn, Reached, by_include}

-- A write of a decided Valid condition makes the update decided.
pub put_condition-IsDecided :
    (dc : DetailedCondition) (pu : ProxyUpdate)
    → IsDecidedCondition dc
    → IsDecided (put_condition dc valid_condition_type pu)
unfolding put_condition
put_condition-IsDecided dc pu (e, inl h) =
    inl (dc, lookup-insert valid_condition_type valid_condition_type dc pu.conditions, h)
put_condition-IsDecided dc pu (e, inr h) =
    inr (dc, lookup-insert valid_condition_type valid_condition_type dc pu.conditions, h)

-- The condition that is made for a proxy is decided.
pub condition_for-IsDecided :
    (now : ℕ) (proxy : HttpProxy)
    → IsDecidedCondition (condition_for valid_condition_type (proxy_accessor now proxy)).0
unfolding condition_for
condition_for-IsDecided now proxy = (refl, inl refl)

module _ (env : Environment) (p : Processor) (c : Cache) (vhost : Api.VirtualHost) (enforce : Bool)
    (root : HttpProxy) (is_keyed : IsKeyed c) where
  -- The upstream is a service in the namespace of a proxy that the root reaches by includes.
  abbrev pub IsServed : Cluster → Type 0
  IsServed cluster =
      (proxy : HttpProxy) × Reached c root proxy
      × IsServedFrom c p.enable_external_name_service proxy.namespace cluster.upstream

  abbrev pub IsSound : Progress → Type 0
  IsSound (routes, dc, w) =
      All (IsPrefixRoute IsServed) routes × IsDecidedCondition dc × WellFormed w.statuses

  abbrev pub Returns : Result Halt Progress → Type 0
  Returns (ok progress) = IsSound progress
  Returns (err h) = ⊥

  abbrev pub Follows : Follow → Type 0
  Follows follow =
      (proxy : HttpProxy) (conditions : List MatchCondition) (dc : DetailedCondition) (w : Work)
      → Reached c root proxy
      → IsCached c proxy
      → IsDecidedCondition dc
      → WellFormed w.statuses
      → Returns (follow proxy conditions dc w)

  settled-Returns :
      (pu : ProxyUpdate) (routes : List Route) (dc : DetailedCondition) (progress : Progress)
      → All (IsPrefixRoute IsServed) routes
      → IsDecidedCondition dc
      → IsSound progress
      → Returns (settled env p c vhost enforce pu routes dc progress)
  unfolding settled
  settled-Returns pu routes dc (more, cond, w) hr hd (hm, hc, hw) =
      let (statuses, done, fine, _) =
        commit_step (put_condition cond valid_condition_type pu) w.statuses
          (put_condition-IsDecided cond pu hc) hw in
      rw (done, Returns) (All-append (IsPrefixRoute IsServed) routes more hr hm, hd, fine)

  bind-Returns :
      (r : Result Halt Progress) (f : Progress → Result Halt Progress)
      → Returns r
      → ((progress : Progress) → IsSound progress → Returns (f progress))
      → Returns (r >>= f)
  bind-Returns (ok progress) f h k = k progress h
  bind-Returns (err x) f h k = h

  follow_include-Returns :
      (follow : Follow) (conditions : List MatchCondition) (included : HttpProxy)
      (progress : Progress)
      → Follows follow
      → Reached c root included
      → IsCached c included
      → IsSound progress
      → Returns (follow_include env p c vhost enforce follow conditions included progress)
  unfolding follow_include
  follow_include-Returns follow conditions included (routes, dc, w) hf reached cached (hr, hd, hw) =
      bind-Returns _ _
        (hf included conditions _ w reached cached (condition_for-IsDecided env.now included) hw)
        (λ progress h. settled-Returns _ routes dc progress hr hd h)

  -- What an include leads to is reached.
  abbrev Leads : HttpProxy → Include → Type 0
  Leads proxy i =
      (included : HttpProxy)
      → lookup (or_default i.namespace proxy.namespace, i.name) c.http_proxies ≡ some included
      → included.virtual_host ≡ none
      → Reached c root included

  missing_routes-All : (ms : List MatchCondition) → All (IsPrefixRoute IsServed) (missing_routes ms)
  unfolding missing_routes
  missing_routes-All [] = tt
  missing_routes-All (m ∷ ms) = ((tt, tt, tt), tt)

  found_include-Returns :
      (follow : Follow) (proxy : HttpProxy) (conditions : List MatchCondition) (i : Include)
      (found : Option HttpProxy) (progress : Progress)
      → Follows follow
      → Leads proxy i
      → lookup (or_default i.namespace proxy.namespace, i.name) c.http_proxies ≡ found
      → IsSound progress
      → Returns (
          found_include env p c vhost enforce follow conditions
            (or_default i.namespace proxy.namespace, i.name)
            i
            found
            progress)
  unfolding found_include
  found_include-Returns follow proxy conditions i none (routes, dc, w) hf lead e (hr, hd, hw) = (
    All-append (IsPrefixRoute IsServed) routes (missing_routes i.conditions) hr
        (missing_routes-All i.conditions),
    add_error-IsDecidedCondition _ _ _ dc hd,
    hw,
  )
  found_include-Returns follow proxy conditions i (some q) (routes, dc, w) hf lead e (hr, hd, hw) =
      elim (Option-cases q.virtual_host) [
        | inl none_set ↦
            rw (none_set, Returns)
              (follow_include-Returns follow (conditions ++ i.conditions) q (routes, dc, w) hf
                (lead q e none_set) (found-IsCached c is_keyed _ q e) (hr, hd, hw))
        | inr (host, set) ↦ rw (set, Returns) (hr, add_error-IsDecidedCondition _ _ _ dc hd, hw)
      ]

  include_step-Returns :
      (follow : Follow) (proxy : HttpProxy) (conditions : List MatchCondition) (i : Include)
      (progress : Progress)
      → Follows follow
      → Leads proxy i
      → IsSound progress
      → Returns (include_step env p c vhost enforce follow proxy conditions i progress)
  unfolding include_step
  include_step-Returns follow proxy conditions i (routes, dc, w) hf lead (hr, hd, hw) =
      elim (Option-cases (path_match_conditions_valid i.conditions)) [
        | inr (x, bad) ↦ rw (bad, Returns) (hr, add_error-IsDecidedCondition _ _ _ dc hd, hw)
        | inl fine ↦ elim (Option-cases (header_match_conditions_valid i.conditions)) [
          | inr (x, bad) ↦
              rw (fine, bad, Returns) (hr, add_error-IsDecidedCondition _ _ _ dc hd, hw)
          | inl good ↦
              rw (fine, good, Returns)
                (found_include-Returns follow proxy conditions i _ (routes, dc, w) hf lead refl
                  (hr, hd, hw))
        ]
      ]

  includes_loop-Returns :
      (follow : Follow) (proxy : HttpProxy) (conditions : List MatchCondition) (is : List Include)
      (progress : Progress)
      → Follows follow
      → All (Leads proxy) is
      → IsSound progress
      → Returns (includes_loop env p c vhost enforce follow proxy conditions is progress)
  unfolding includes_loop
  includes_loop-Returns follow proxy conditions [] progress hf leads h = h
  includes_loop-Returns follow proxy conditions (i ∷ is) progress hf leads h =
      bind-Returns _ _ (include_step-Returns follow proxy conditions i progress hf leads.0 h)
        (λ progress' h'. includes_loop-Returns follow proxy conditions is progress' hf leads.1 h')

  expanded-Returns :
      (routes : List Route) (dc : DetailedCondition) (w : Work)
      → All (IsPrefixRoute IsServed) routes
      → IsDecidedCondition dc
      → WellFormed w.statuses
      → Returns (expanded env p c vhost enforce (expand_prefix_matches routes) dc w)
  unfolding expanded
  expanded-Returns routes dc w hr hd hw =
      let (out, e, h) = expand_prefix_matches-All IsServed routes hr in rw (e, Returns) (h, hd, hw)

  own_result-Returns :
      (w : Work) (r : DetailedCondition × Option (List Route))
      → Outcome IsDecidedCondition (All (IsPrefixRoute IsServed)) r
      → WellFormed w.statuses
      → Returns (own_result env p c vhost enforce w r)
  unfolding own_result
  own_result-Returns w (dc, none) h hw = (tt, h, hw)
  own_result-Returns w (dc, some routes) h hw = expanded-Returns routes dc w h.1 h.0 hw

  own_routes-Returns :
      (proxy : HttpProxy) (conditions : List MatchCondition) (progress : Progress)
      → Reached c root proxy
      → IsSound progress
      → Returns (own_routes env p c vhost enforce proxy conditions progress)
  unfolding own_routes Triple
  own_routes-Returns proxy conditions (routes, dc, w) reached (hr, hd, hw) =
      own_result-Returns w _
        (routes_loop-Steady env p c vhost proxy.namespace conditions enforce routes _ proxy.routes
          IsServed (λ cluster own. (proxy, reached, own)) hr dc hd)
        hw

  Leads-All :
      (proxy : HttpProxy)
      → Reached c root proxy
      → (is : List Include) → All (λ i. IsIn i proxy.includes) is
      → All (Leads proxy) is
  Leads-All proxy reached [] h = tt
  Leads-All proxy reached (i ∷ is) h =
      (λ included e v. by_include proxy included i reached h.0 e v, Leads-All proxy reached is h.1)

  pub unvisited_routes-Returns :
      (follow : Follow) (proxy : HttpProxy) (conditions : List MatchCondition)
      (dc : DetailedCondition) (w : Work)
      → Follows follow
      → Reached c root proxy
      → IsDecidedCondition dc
      → WellFormed w.statuses
      → Returns (unvisited_routes env p c vhost enforce follow proxy conditions dc w)
  unfolding unvisited_routes
  unvisited_routes-Returns follow proxy conditions dc w hf reached hd hw =
      elim (Bool-cases (include_match_conditions_identical proxy.includes)) [
        | inl same ↦ rw (same, Returns) (tt, add_error-IsDecidedCondition _ _ _ dc hd, hw)
        | inr other ↦
            rw (other, Returns)
              (bind-Returns _ _
                (includes_loop-Returns follow proxy conditions proxy.includes ([], dc, w) hf
                  (Leads-All proxy reached proxy.includes (All-IsIn [] proxy.includes))
                  (tt, hd, hw))
                (λ progress h. own_routes-Returns proxy conditions progress reached h))
      ]
