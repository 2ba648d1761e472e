-- ===== src/Dag/Proxy/Runs.antt =====
-- internal/dag/httpproxy_processor.go: validHTTPProxies and Run.
use sesame.Common.{
  nat_eq, string_eq, list_beq, Bytes, bytes_eq, String, Bool, Option, none, some, List, [], ◌∷◌,
  ◌++◌, map,
}
use sesame.Common.Text.{bytes, join, to_lower}
use sesame.Common.Assoc.{Map, lookup, insert}
use sesame.Common.Result.{◌>>=◌, Result, ok, err}
use sesame.Status.Proxy.{
  NamespacedName, name_eq, ProxyUpdates, condition_for, put_condition, commit,
}
use sesame.Api.Status.{add_error, valid_condition_type}
use sesame.Api.Proxy.{HttpProxy, VirtualHost}
use sesame.Dag.Graph.{Dag}
use sesame.Dag.Cache.Objects.{Cache}
use sesame.Dag.Proxy.Checks.{Processor, Environment, Argument}
use sesame.Dag.Proxy.Includes.{Halt, nil_dereference, Work, proxy_accessor, slash_name}
use sesame.Dag.Proxy.Roots.{compute_http_proxy}

-- fqdnHTTPProxies
abbrev pub Owners : Type 0
Owners = Map Bytes (List HttpProxy)

unfoldable pub with_owner : Bytes → HttpProxy → Owners → Owners
unfolding lookup insert list_beq
with_owner fqdn proxy owners = elim (lookup fqdn owners) [
  | none ↦ insert fqdn (proxy ∷ []) owners
  | some others ↦ insert fqdn (others ++ proxy ∷ []) owners
]

-- a round of the first loop: a proxy that is no root, or one more of its name
unfoldable pub collect :
    HttpProxy → Option VirtualHost → List HttpProxy × Owners → List HttpProxy × Owners
unfolding to_lower with_owner
collect proxy none (valid, owners) = (valid ++ proxy ∷ [], owners)
collect proxy (some vhost) (valid, owners) = (valid, with_owner (to_lower vhost.fqdn) proxy owners)

unfoldable pub owners_loop :
    List HttpProxy × Owners → Map NamespacedName HttpProxy → List HttpProxy × Owners
unfolding collect
owners_loop so_far [] = so_far
owners_loop so_far ((_, proxy) ∷ proxies) =
    owners_loop (collect proxy proxy.virtual_host so_far) proxies

module _ (env : Environment) where
  -- an error that is committed on its own, with the name of a virtual host
  unfoldable pub reported :
      String → String → Bytes → Bytes → HttpProxy → ProxyUpdates → Result Halt ProxyUpdates
  reported error_type reason message host proxy statuses =
      let (dc, pu) = condition_for valid_condition_type (proxy_accessor env.now proxy) in
      let pu' = put_condition (add_error error_type reason message dc) valid_condition_type pu in
      elim (commit (record pu' { vhost = host }) statuses) [
        | none ↦ err nil_dereference
        | some statuses' ↦ ok statuses'
      ]

  unfoldable pub duplicate_message : Bytes → List HttpProxy → Bytes
  unfolding join
  duplicate_message fqdn proxies = env.sprintf "fqdn %q is used in multiple HTTPProxies: %s" (
      Argument.text fqdn
      ∷ Argument.text (join (bytes ", ") (env.kubernetes.sorted (map slash_name proxies)))
      ∷ [])

  unfoldable pub duplicates_loop :
      Bytes → Bytes → List HttpProxy → ProxyUpdates → Result Halt ProxyUpdates
  unfolding reported
  duplicates_loop message fqdn [] statuses = ok statuses
  duplicates_loop message fqdn (proxy ∷ proxies) statuses =
      reported "VirtualHostError" "DuplicateVhost" message fqdn proxy statuses >>= λ statuses'.
      duplicates_loop message fqdn proxies statuses'

  -- the second loop
  unfoldable pub unique_loop :
      List HttpProxy → Owners → ProxyUpdates → Result Halt (List HttpProxy × ProxyUpdates)
  unfolding duplicates_loop duplicate_message
  unique_loop valid [] statuses = ok (valid, statuses)
  unique_loop valid ((fqdn, proxy ∷ []) ∷ owners) statuses =
      unique_loop (valid ++ proxy ∷ []) owners statuses
  unique_loop valid ((fqdn, proxies) ∷ owners) statuses =
      duplicates_loop (duplicate_message fqdn proxies) fqdn proxies statuses >>= λ statuses'.
      unique_loop valid owners statuses'

  unfoldable pub valid_http_proxies :
      Cache → ProxyUpdates → Result Halt (List HttpProxy × ProxyUpdates)
  unfolding owners_loop unique_loop
  valid_http_proxies c statuses =
      let (valid, owners) = owners_loop ([], []) c.http_proxies in unique_loop valid owners statuses

  module _ (p : Processor) (c : Cache) where
    unfoldable pub compute_loop : List HttpProxy → Work → Result Halt Work
    unfolding compute_http_proxy
    compute_loop [] w = ok w
    compute_loop (proxy ∷ proxies) w =
        compute_http_proxy env p c proxy w >>= λ w'. compute_loop proxies w'

    unfoldable pub orphan_reported : Option HttpProxy → ProxyUpdates → Result Halt ProxyUpdates
    unfolding reported
    orphan_reported none statuses = ok statuses
    orphan_reported (some proxy) statuses =
        reported "Orphaned" "Orphaned"
          (bytes "this HTTPProxy is not part of a delegation chain from a root HTTPProxy") [] proxy
          statuses

    -- the loop over the orphans that are left
    unfoldable pub orphans_loop : Map NamespacedName Bool → ProxyUpdates → Result Halt ProxyUpdates
    unfolding lookup orphan_reported
    orphans_loop [] statuses = ok statuses
    orphans_loop ((name, _) ∷ orphans) statuses =
        orphan_reported (lookup name c.http_proxies) statuses >>= λ statuses'.
        orphans_loop orphans statuses'

    unfoldable pub finished : Work → Result Halt Work
    unfolding orphans_loop
    finished w =
        orphans_loop w.orphaned w.statuses >>= λ statuses. ok (record w { statuses = statuses })

    unfoldable pub started : Dag → List HttpProxy × ProxyUpdates → Result Halt Work
    unfolding compute_loop
    started g (valid, statuses) =
        compute_loop valid record { statuses = statuses; orphaned = []; graph = g }

    unfoldable pub run : Dag → ProxyUpdates → Result Halt Work
    unfolding valid_http_proxies started finished
    run g statuses =
        valid_http_proxies c statuses >>= (λ found. started g found) >>= λ w. finished w
