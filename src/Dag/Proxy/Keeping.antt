-- ===== src/Dag/Proxy/Keeping.antt =====
-- internal/dag/httpproxy_processor.go: which roots validHTTPProxies keeps.
use sesame.Common.{
  append_nil, ◌==◌, ==_iff, nat_eq, string_eq, Bytes, bytes_eq, Bool-cases, ◌≡◌, refl, sym, ap, ◌∙◌,
  inl, inr, Option, none, some, List, [], ◌∷◌, ◌++◌, arith,
}
use mathlib.Core.Path.{subst}
use mathlib.Core.List as L
use sesame.Common.Text.{to_lower}
use sesame.Common.Assoc.{Map, lookup}
use sesame.Common.Result.{Result, ok, err}
use sesame.Status.Proxy.{NamespacedName, ProxyUpdates}
use sesame.Status.Proxy.Commits.{WellFormed}
use sesame.Api.Proxy.{VirtualHost, HttpProxy}
use sesame.Dag.Cache.Objects.{Cache}
use sesame.Dag.Proxy.Checks.{Environment}
use sesame.Dag.Proxy.Includes.{Halt}
use sesame.Dag.Proxy.Runs.{collect, Owners, owners_loop, unique_loop, valid_http_proxies}
use sesame.Dag.Proxy.Completing.{Ok, bind-Ok, duplicates_loop-Ok}
use sesame.Dag.Proxy.Owning.{
  with_owner-IsGrouped, with_owner-owned, roots_of, roots_of-append, values, owned, IsOwned,
  IsGrouped,
}

-- the only element of a list that has one
abbrev pub alone : List HttpProxy → List HttpProxy
alone (proxy ∷ []) = proxy ∷ []
alone _ = []

-- The proxies that are kept, and those that are grouped, are all there are of a name.
abbrev Collects : List HttpProxy → List HttpProxy × Owners → Type 0
Collects proxies (valid, owners) =
    IsGrouped owners
    × ((f : Bytes) → roots_of f valid ≡ [])
    × ((f : Bytes) → owned (lookup f owners) ≡ roots_of f proxies)

unrooted :
    (proxy : HttpProxy) (f : Bytes) → proxy.virtual_host ≡ none → roots_of f (proxy ∷ []) ≡ []
unrooted proxy f e = rw e refl

collect-Collects :
    (proxies : List HttpProxy) (proxy : HttpProxy) (host : Option VirtualHost)
    (so_far : List HttpProxy × Owners)
    → proxy.virtual_host ≡ host
    → Collects proxies so_far
    → Collects (proxies ++ proxy ∷ []) (collect proxy host so_far)
unfolding collect
collect-Collects proxies proxy none (valid, owners) e (g, v, o) = (
  g,
  λ f. roots_of-append f valid (proxy ∷ []) ∙ rw (v f, unrooted proxy f e) refl,
  λ f.
      o f
      ∙ sym (
          roots_of-append f proxies (proxy ∷ [])
          ∙ ap (λ t. roots_of f proxies ++ t) (unrooted proxy f e)
          ∙ append_nil (roots_of f proxies)),
)
collect-Collects proxies proxy (some vhost) (valid, owners) e (g, v, o) =
    let named : IsOwned (to_lower vhost.fqdn) (proxy ∷ []) = λ f. rw e refl in
    (
      with_owner-IsGrouped _ proxy named owners g,
      v,
      λ f.
          with_owner-owned _ proxy named owners f
          ∙ ap (λ t. t ++ roots_of f (proxy ∷ [])) (o f)
          ∙ sym (roots_of-append f proxies (proxy ∷ [])),
    )

owners_loop-Collects :
    (proxies : List HttpProxy) (so_far : List HttpProxy × Owners) (m : Map NamespacedName HttpProxy)
    → Collects proxies so_far
    → Collects (proxies ++ values m) (owners_loop so_far m)
unfolding owners_loop
owners_loop-Collects proxies so_far [] h =
    subst (λ ps. Collects ps so_far) (sym (append_nil proxies)) h
owners_loop-Collects proxies so_far ((_, proxy) ∷ m) h =
    subst (λ ps. Collects ps (owners_loop (collect proxy proxy.virtual_host so_far) m))
      (L.append_assoc proxies (proxy ∷ []) (values m))
      (owners_loop-Collects (proxies ++ proxy ∷ []) _ m
        (collect-Collects proxies proxy _ so_far refl h))

weakened :
    {A : Type 0} (P Q : A → Type 0) (r : Result Halt A) → Ok P r → ((a : A) → P a → Q a) → Ok Q r
weakened P Q (ok a) h k = k a h
weakened P Q (err x) h k = absurd h

module _ (env : Environment) where
  -- what the second loop adds
  abbrev Keeps : List HttpProxy → Owners → List HttpProxy × ProxyUpdates → Type 0
  Keeps valid owners (kept, statuses) =
      (f : Bytes) → roots_of f kept ≡ roots_of f valid ++ alone (owned (lookup f owners))

  -- the only proxy of an entry has its name
  alone-IsOwned :
      (fqdn : Bytes) (proxies : List HttpProxy)
      → IsOwned fqdn proxies
      → IsOwned fqdn (alone proxies)
  alone-IsOwned fqdn [] o f = o f
  alone-IsOwned fqdn (proxy ∷ []) o f = o f
  alone-IsOwned fqdn (proxy ∷ other ∷ proxies) o f = ground arith

  alone_entry :
      (fqdn : Bytes) (proxies : List HttpProxy) (owners : Owners)
      → IsGrouped ((fqdn, proxies) ∷ owners)
      → (f : Bytes)
      → roots_of f (alone proxies) ++ alone (owned (lookup f owners))
        ≡ alone (owned (lookup f ((fqdn, proxies) ∷ owners)))
  unfolding lookup
  alone_entry fqdn proxies owners (new, o, g) f = elim (Bool-cases (f == fqdn)) [
    | inl same ↦
        let at : f ≡ fqdn = (==_iff f fqdn).0 same in
        let gone : lookup f owners ≡ none = subst (λ k. lookup k owners ≡ none) (sym at) new in
        rw (alone-IsOwned fqdn proxies o f, same, gone) (append_nil (alone proxies))
    | inr other ↦ rw (alone-IsOwned fqdn proxies o f, other) refl
  ]

  unique_loop-Keeps :
      (valid : List HttpProxy) (owners : Owners) (statuses : ProxyUpdates)
      → IsGrouped owners
      → WellFormed statuses
      → Ok (Keeps valid owners) (unique_loop env valid owners statuses)
  unfolding unique_loop lookup
  unique_loop-Keeps valid [] statuses g hw = λ f. sym (append_nil (roots_of f valid))
  unique_loop-Keeps valid ((fqdn, []) ∷ owners) statuses g hw =
      weakened (Keeps valid owners) (Keeps valid ((fqdn, []) ∷ owners)) _
        (unique_loop-Keeps valid owners statuses g.2 hw)
        (λ out k f. k f ∙ ap (λ t. roots_of f valid ++ t) (alone_entry fqdn [] owners g f))
  unique_loop-Keeps valid ((fqdn, proxy ∷ []) ∷ owners) statuses g hw =
      weakened (Keeps (valid ++ proxy ∷ []) owners) (Keeps valid ((fqdn, proxy ∷ []) ∷ owners)) _
        (unique_loop-Keeps (valid ++ proxy ∷ []) owners statuses g.2 hw)
        (λ out k f.
          k f
          ∙ ap (λ t. t ++ alone (owned (lookup f owners))) (roots_of-append f valid (proxy ∷ []))
          ∙ L.append_assoc (roots_of f valid) (roots_of f (proxy ∷ []))
              (alone (owned (lookup f owners)))
          ∙ ap (λ t. roots_of f valid ++ t) (alone_entry fqdn (proxy ∷ []) owners g f))
  unique_loop-Keeps valid ((fqdn, proxy ∷ other ∷ proxies) ∷ owners) statuses g hw =
      bind-Ok WellFormed (Keeps valid ((fqdn, proxy ∷ other ∷ proxies) ∷ owners)) _ _
        (duplicates_loop-Ok env _ fqdn (proxy ∷ other ∷ proxies) statuses hw)
        (λ statuses' hw'.
          weakened (Keeps valid owners) (Keeps valid ((fqdn, proxy ∷ other ∷ proxies) ∷ owners)) _
            (unique_loop-Keeps valid owners statuses' g.2 hw')
            (λ out k f.
              k f
              ∙ ap (λ t. roots_of f valid ++ t)
                  (alone_entry fqdn (proxy ∷ other ∷ proxies) owners g f)))

  abbrev pub KeptAlone : Cache → List HttpProxy × ProxyUpdates → Type 0
  KeptAlone c (valid, statuses) =
      (f : Bytes) → roots_of f valid ≡ alone (roots_of f (values c.http_proxies))

  valid_http_proxies-Ok :
      (c : Cache) (statuses : ProxyUpdates)
      → WellFormed statuses
      → Ok (KeptAlone c) (valid_http_proxies env c statuses)
  unfolding valid_http_proxies lookup
  valid_http_proxies-Ok c statuses hw =
      let (g, v, o) =
        owners_loop-Collects [] ([], []) c.http_proxies (tt, (λ f. refl), (λ f. refl)) in
      weakened
        (Keeps (owners_loop ([], []) c.http_proxies).0 (owners_loop ([], []) c.http_proxies).1)
        (KeptAlone c) _ (unique_loop-Keeps _ _ statuses g hw) (λ out k f. k f ∙ rw (v f, o f) refl)

  returned :
      (c : Cache) (r : Result Halt (List HttpProxy × ProxyUpdates))
      → Ok (KeptAlone c) r
      → (valid : List HttpProxy) × (statuses' : ProxyUpdates) × (r ≡ ok (valid, statuses'))
        × ((f : Bytes) → roots_of f valid ≡ alone (roots_of f (values c.http_proxies)))
  returned c (ok (valid, statuses')) h = (valid, statuses', refl, h)
  returned c (err x) h = absurd h

  -- From cached statuses that are all decided, validHTTPProxies returns, and of the cached roots whose
  -- virtual hosts have one lower-case name it keeps the root that is alone with the name, and none
  -- where several share it.
  pub valid_http_proxies-alone :
      (c : Cache) (statuses : ProxyUpdates)
      → WellFormed statuses
      → (valid : List HttpProxy) × (statuses' : ProxyUpdates) × (valid_http_proxies env c statuses
          ≡ ok (valid, statuses'))
        × ((f : Bytes) → roots_of f valid ≡ alone (roots_of f (values c.http_proxies)))
  valid_http_proxies-alone c statuses hw = returned c _ (valid_http_proxies-Ok c statuses hw)
