-- ===== src/Dag/Proxy/Completing.antt =====
-- internal/dag/httpproxy_processor.go: Run, from the statuses that are cached to those that it leaves.
use sesame.Common.{
  ◌==◌, ==_refl, nat_eq, string_eq, member, Bytes, bytes_eq, Option-cases, All, All-append, String,
  ◌≡◌, refl, inl, inr, Bool, true, ◌||◌, Option, none, some, List, [], ◌∷◌, ◌++◌, arith,
}
use mathlib.Core.Path.{subst}
use sesame.Common.Assoc.{Map, lookup, keys}
use sesame.Common.Result.{◌>>=◌, Result, ok, err}
use sesame.Api.Proxy.{HttpProxy, VirtualHost}
use sesame.Api.Status.{add_error, valid_condition_type}
use sesame.Status.Proxy.{NamespacedName, name_eq, ProxyUpdates, condition_for, put_condition}
use sesame.Status.Proxy.Commits.{WellFormed, commit_step}
use sesame.Dag.Graph.{Dag}
use sesame.Dag.Cache.Objects.{Cache}
use sesame.Dag.Proxy.Checks.{Processor, Environment}
use sesame.Dag.Proxy.Includes.{Halt, Work, proxy_accessor}
use sesame.Dag.Proxy.Runs.{
  Owners, with_owner, owners_loop, reported, duplicates_loop, unique_loop, collect, orphan_reported,
  valid_http_proxies, compute_loop, orphans_loop, finished, started, run,
}
use sesame.Dag.Proxy.Expansion.{AllValues, insert-AllValues, lookup-AllValues}
use sesame.Dag.Proxy.Triples.{add_error-IsDecidedCondition}
use sesame.Dag.Proxy.Reach.{place_of, IsKeyed, IsCached}
use sesame.Dag.Proxy.Soundness.{put_condition-IsDecided, condition_for-IsDecided}
use sesame.Dag.Proxy.Running.{WorkEnds, compute_http_proxy-WorkEnds}

entries_cached :
    (ks : List NamespacedName) (m : Map NamespacedName HttpProxy)
    → All (λ entry. place_of entry.1 ≡ entry.0) m
    → ((n : NamespacedName) → member n (keys m) ≡ true → member n ks ≡ true)
    → All (λ entry. member (place_of entry.1) ks ≡ true) m
unfolding member
entries_cached ks [] h f = tt
entries_cached ks ((n, proxy) ∷ m) h f = (
  f (place_of proxy) (
      subst (λ x. (x == place_of proxy || member (place_of proxy) (keys m)) ≡ true) h.0
        (rw (==_refl (place_of proxy)) refl)),
  entries_cached ks m h.1 (λ x e. f x (ground (arith, e))),
)

module _ (P : HttpProxy → Type 0) where
  abbrev OwnersHave : Owners → Type 0
  OwnersHave owners = AllValues (λ proxies. All P proxies) owners

  with_owner-OwnersHave :
      (fqdn : Bytes) (proxy : HttpProxy) (owners : Owners)
      → P proxy
      → OwnersHave owners
      → OwnersHave (with_owner fqdn proxy owners)
  unfolding with_owner
  with_owner-OwnersHave fqdn proxy owners h g = elim (Option-cases (lookup fqdn owners)) [
    | inl new ↦ rw (new, with_owner) (insert-AllValues _ fqdn (proxy ∷ []) owners (h, tt) g)
    | inr (others, old) ↦
        rw (old, with_owner)
          (insert-AllValues _ fqdn (others ++ proxy ∷ []) owners
            (All-append P others (proxy ∷ []) (lookup-AllValues _ fqdn others owners g old) (h, tt))
            g)
  ]

  abbrev Collected : List HttpProxy × Owners → Type 0
  Collected (valid, owners) = All P valid × OwnersHave owners

  collect-Collected :
      (proxy : HttpProxy) (host : Option VirtualHost) (so_far : List HttpProxy × Owners)
      → P proxy
      → Collected so_far
      → Collected (collect proxy host so_far)
  unfolding collect
  collect-Collected proxy none (valid, owners) h (hv, ho) =
      (All-append P valid (proxy ∷ []) hv (h, tt), ho)
  collect-Collected proxy (some vhost) (valid, owners) h (hv, ho) =
      (hv, with_owner-OwnersHave _ proxy owners h ho)

  owners_loop-Collected :
      (so_far : List HttpProxy × Owners) (m : Map NamespacedName HttpProxy)
      → Collected so_far
      → All (λ entry. P entry.1) m
      → Collected (owners_loop so_far m)
  unfolding owners_loop
  owners_loop-Collected so_far [] h hm = h
  owners_loop-Collected so_far ((n, proxy) ∷ m) h hm =
      owners_loop-Collected (collect proxy proxy.virtual_host so_far) m
        (collect-Collected proxy proxy.virtual_host so_far hm.0 h) hm.1

-- The step returns, with a value that has the property.
abbrev pub Ok : {A : Type 0} → (A → Type 0) → Result Halt A → Type 0
Ok P (ok a) = P a
Ok P (err h) = ⊥

pub bind-Ok :
    {A B : Type 0} (P : A → Type 0) (Q : B → Type 0) (r : Result Halt A) (f : A → Result Halt B)
    → Ok P r
    → ((a : A) → P a → Ok Q (f a))
    → Ok Q (r >>= f)
bind-Ok P Q (ok a) f h k = k a h
bind-Ok P Q (err x) f h k = absurd h

module _ (env : Environment) where
  reported-Ok :
      (t r : String) (m host : Bytes) (proxy : HttpProxy) (statuses : ProxyUpdates)
      → WellFormed statuses
      → Ok WellFormed (reported env t r m host proxy statuses)
  unfolding reported
  reported-Ok t r m host proxy statuses hw =
      let (dc, pu) = condition_for valid_condition_type (proxy_accessor env.now proxy) in
      let pu' = put_condition (add_error t r m dc) valid_condition_type pu in
      let (after, done, fine, _) =
        commit_step (record pu' { vhost = host }) statuses
          (put_condition-IsDecided (add_error t r m dc) pu
            (add_error-IsDecidedCondition t r m dc (condition_for-IsDecided env.now proxy)))
          hw in
      rw (done, Ok) fine

  pub duplicates_loop-Ok :
      (m fqdn : Bytes) (proxies : List HttpProxy) (statuses : ProxyUpdates)
      → WellFormed statuses
      → Ok WellFormed (duplicates_loop env m fqdn proxies statuses)
  unfolding duplicates_loop
  duplicates_loop-Ok m fqdn [] statuses hw = hw
  duplicates_loop-Ok m fqdn (proxy ∷ proxies) statuses hw =
      bind-Ok WellFormed WellFormed _ _ (reported-Ok _ _ m fqdn proxy statuses hw)
        (λ statuses' hw'. duplicates_loop-Ok m fqdn proxies statuses' hw')

  module _ (P : HttpProxy → Type 0) where
    abbrev Found : List HttpProxy × ProxyUpdates → Type 0
    Found (valid, statuses) = All P valid × WellFormed statuses

    unique_loop-Ok :
        (valid : List HttpProxy) (owners : Owners) (statuses : ProxyUpdates)
        → All P valid
        → OwnersHave P owners
        → WellFormed statuses
        → Ok Found (unique_loop env valid owners statuses)
    unfolding unique_loop
    unique_loop-Ok valid [] statuses hv ho hw = (hv, hw)
    unique_loop-Ok valid ((fqdn, []) ∷ owners) statuses hv ho hw =
        unique_loop-Ok valid owners statuses hv ho.1 hw
    unique_loop-Ok valid ((fqdn, proxy ∷ []) ∷ owners) statuses hv ho hw =
        unique_loop-Ok (valid ++ proxy ∷ []) owners statuses
          (All-append P valid (proxy ∷ []) hv (ho.0.0, tt)) ho.1 hw
    unique_loop-Ok valid ((fqdn, proxy ∷ other ∷ proxies) ∷ owners) statuses hv ho hw =
        bind-Ok WellFormed Found _ _
          (duplicates_loop-Ok _ fqdn (proxy ∷ other ∷ proxies) statuses hw)
          (λ statuses' hw'. unique_loop-Ok valid owners statuses' hv ho.1 hw')

  module _ (p : Processor) (c : Cache) (is_keyed : IsKeyed c) where
    abbrev Decided : Work → Type 0
    Decided w = WellFormed w.statuses

    computed-Ok : (r : Result Halt Work) → WorkEnds r → Ok Decided r
    computed-Ok (ok w) h = h
    computed-Ok (err x) h = h

    compute_loop-Ok :
        (proxies : List HttpProxy) (w : Work)
        → All (IsCached c) proxies
        → Decided w
        → Ok Decided (compute_loop env p c proxies w)
    unfolding compute_loop
    compute_loop-Ok [] w hp hw = hw
    compute_loop-Ok (proxy ∷ proxies) w hp hw =
        bind-Ok Decided Decided _ _
          (computed-Ok _ (compute_http_proxy-WorkEnds env p c is_keyed proxy w hp.0 hw))
          (λ w' hw'. compute_loop-Ok proxies w' hp.1 hw')

    orphan_reported-Ok :
        (o : Option HttpProxy) (statuses : ProxyUpdates)
        → WellFormed statuses
        → Ok WellFormed (orphan_reported env p c o statuses)
    unfolding orphan_reported
    orphan_reported-Ok none statuses hw = hw
    orphan_reported-Ok (some proxy) statuses hw = reported-Ok _ _ _ [] proxy statuses hw

    orphans_loop-Ok :
        (orphans : Map NamespacedName Bool) (statuses : ProxyUpdates)
        → WellFormed statuses
        → Ok WellFormed (orphans_loop env p c orphans statuses)
    unfolding orphans_loop
    orphans_loop-Ok [] statuses hw = hw
    orphans_loop-Ok ((name, b) ∷ orphans) statuses hw =
        bind-Ok WellFormed WellFormed _ _ (orphan_reported-Ok _ statuses hw)
          (λ statuses' hw'. orphans_loop-Ok orphans statuses' hw')

    finished-Ok : (w : Work) → Decided w → Ok Decided (finished env p c w)
    unfolding finished
    finished-Ok w hw =
        bind-Ok WellFormed Decided _ _ (orphans_loop-Ok w.orphaned w.statuses hw) (λ _ hw'. hw')

    run-Ok :
        (g : Dag) (statuses : ProxyUpdates)
        → WellFormed statuses
        → Ok Decided (run env p c g statuses)
    unfolding run valid_http_proxies started
    run-Ok g statuses hw =
        let (hv, ho) =
          owners_loop-Collected (IsCached c) ([], []) c.http_proxies (tt, tt)
            (entries_cached (keys c.http_proxies) c.http_proxies is_keyed (λ n e. e)) in
        bind-Ok Decided Decided _ _
          (bind-Ok (Found (IsCached c)) Decided _ _
            (unique_loop-Ok (IsCached c) _ _ statuses hv ho hw)
            (λ (valid, statuses') (hp, hw'). compute_loop-Ok valid _ hp hw'))
          (λ w hw'. finished-Ok w hw')

    run-returned : (r : Result Halt Work) → Ok Decided r → (w : Work) × (r ≡ ok w) × Decided w
    run-returned (ok w) h = (w, refl, h)
    run-returned (err x) h = absurd h

    -- On a cache that keeps its proxies under their own namespaces and names, whatever else the proxies
    -- hold, a run from cached statuses that are all decided returns: it neither panics nor follows includes without
    -- end. All the statuses that it leaves are decided.
    pub run-WellFormed :
        (g : Dag) (statuses : ProxyUpdates)
        → WellFormed statuses
        → (w : Work) × (run env p c g statuses ≡ ok w) × WellFormed w.statuses
    run-WellFormed g statuses hw = run-returned _ (run-Ok g statuses hw)
