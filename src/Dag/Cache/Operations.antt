-- ===== src/Dag/Cache/Operations.antt =====
-- internal/dag/cache.go: Insert, Remove and the lookups, with the class of an object (MatchesIngress
-- and MatchesHTTPProxy of internal/ingressclass, IngressClass of internal/annotation).
use sesame.Common.{
  ◌==◌, nat_eq, string_eq, list_beq, Bytes, bytes_eq, if◌then◌else◌, any, Bool, true, false, ◌&&◌,
  ◌||◌, Option, none, some, List, [], ◌∷◌,
}
use sesame.Common.Text.{bytes, is_empty}
use sesame.Common.Assoc.{Map, lookup, insert, delete}
use sesame.Common.Result.{Result, ok, err}
use sesame.Status.Proxy.{NamespacedName, name_eq, namespaced_name_of}
use sesame.Dag.Secret.{Crypto}
use sesame.Dag.Secret.Verdicts.{
  Verdict, Secret, is_valid_secret, accepted, ignored, rejected, LookupError,
}
use sesame.Dag.Cache.Triggers.{service_triggers_rebuild, secret_triggers_rebuild}
use sesame.Api.Proxy.{HttpProxy}
use sesame.Dag.Cache.Objects.{Ingress, Cache, Object}

-- annotation.IngressClass
abbrev pub class_annotation : Map Bytes Bytes → Bytes
unfolding lookup
class_annotation notes = elim (lookup (bytes "projectsesame.io/ingress.class") notes) [
  | some class ↦ class
  | none ↦ elim (lookup (bytes "kubernetes.io/ingress.class") notes) [
    | some class ↦ class
    | none ↦ []
  ]
]

abbrev pub default_class_name : Bytes
default_class_name = bytes "sesame"

-- ingressclass.matches
class_matches : Bytes → Bytes → Bool
unfolding list_beq
class_matches class configured =
    if is_empty configured
    then is_empty class || class == default_class_name
    else class == configured

-- what MatchesIngress and MatchesHTTPProxy have in common
abbrev pub object_class : Map Bytes Bytes → Bytes → Bytes
object_class notes spec = if is_empty (class_annotation notes) then spec else class_annotation notes

unfoldable pub matches_ingress : Ingress → Bytes → Bool
unfolding class_matches
matches_ingress i configured =
    class_matches
      (object_class i.annotations (elim i.ingress_class_name [ none ↦ [] | some c ↦ c ])) configured

unfoldable pub matches_http_proxy : HttpProxy → Bytes → Bool
unfolding class_matches
matches_http_proxy p configured =
    class_matches (object_class p.annotations p.ingress_class_name) configured

matches_ingress_class : Cache → Bytes → Bool
unfolding list_beq
matches_ingress_class c name =
    if is_empty c.ingress_class_name
    then name == default_class_name
    else name == c.ingress_class_name

-- An object is kept if its class is that of the cache.
abbrev pub kept_if : Bool → Cache → Cache → Cache × Bool
kept_if true new old = (new, true)
kept_if false new old = (old, false)

-- whether a key is there to be removed
abbrev is_there {ℓ} : {V : Type ℓ} → NamespacedName → Map NamespacedName V → Bool
unfolding lookup
is_there m entries = elim (lookup m entries) [ none ↦ false | some v ↦ true ]

-- the case of a secret, by the verdict on it
unfoldable pub insert_secret : Verdict → Cache → Secret → Cache × Bool
unfolding insert namespaced_name_of secret_triggers_rebuild
insert_secret accepted c s =
    let new = record c { secrets = insert (namespaced_name_of s.namespace s.name) s c.secrets } in
    (new, secret_triggers_rebuild new s)
insert_secret ignored c s = (c, false)
insert_secret (rejected e) c s = (c, false)

abbrev pub answered : Cache × Bool → Cache × Option Bool
answered r = (r.0, some r.1)

module _ (crypto : Crypto) where
  -- Insert; the second component is its result, and `none` a panic after the object is stored
  unfoldable pub insert_object : Cache → Object → Cache × Option Bool
  unfolding insert namespaced_name_of matches_ingress matches_http_proxy matches_ingress_class
      is_valid_secret insert_secret service_triggers_rebuild
  insert_object c (Object.secret s) = answered (insert_secret (is_valid_secret crypto s) c s)
  insert_object c (Object.service s) =
      let new = record c {
        services = insert (namespaced_name_of s.namespace s.name) s c.services;
      } in
      (new, service_triggers_rebuild new s)
  insert_object c (Object.namespace n) =
      (record c { namespaces = insert n n c.namespaces }, some true)
  insert_object c (Object.ingress i) = answered (
      kept_if (matches_ingress i c.ingress_class_name)
        (record c { ingresses = insert (namespaced_name_of i.namespace i.name) i c.ingresses }) c)
  insert_object c (Object.ingress_class n) =
      answered (kept_if (matches_ingress_class c n) (record c { ingress_class = some n }) c)
  insert_object c (Object.http_proxy p) = answered (
      kept_if (matches_http_proxy p c.ingress_class_name)
        (record c {
          http_proxies = insert (namespaced_name_of p.namespace p.name) p c.http_proxies;
        })
        c)
  insert_object c (Object.delegation d) = (
    record c { delegations = insert (namespaced_name_of d.namespace d.name) d c.delegations },
    some true,
  )
  insert_object c (Object.gateway_class g) = (record c { gateway_class = some g }, some true)
  insert_object c (Object.gateway g) = (record c { gateway = some g }, some true)
  insert_object c (Object.http_route r) = (
    record c { http_routes = insert (namespaced_name_of r.namespace r.name) r c.http_routes },
    some true,
  )
  insert_object c (Object.tls_route r) = (
    record c { tls_routes = insert (namespaced_name_of r.namespace r.name) r c.tls_routes },
    some true,
  )
  insert_object c (Object.reference_policy r) = (
    record c {
      reference_policies = insert (namespaced_name_of r.namespace r.name) r c.reference_policies;
    },
    some true,
  )
  insert_object c (Object.extension_service x) = (
    record c { extensions = insert (namespaced_name_of x.namespace x.name) x c.extensions },
    some true,
  )
  insert_object c Object.configuration = (c, some false)
  insert_object c Object.unknown = (c, some false)
  insert_object c (Object.tombstone o) = (c, some false)

-- Remove and remove
unfoldable pub remove_object : Cache → Object → Cache × Bool
unfolding lookup delete namespaced_name_of matches_ingress_class
remove_object c (Object.secret s) =
    let m = namespaced_name_of s.namespace s.name in
    (record c { secrets = delete m c.secrets }, is_there m c.secrets)
remove_object c (Object.service s) =
    let m = namespaced_name_of s.namespace s.name in
    (record c { services = delete m c.services }, is_there m c.services)
remove_object c (Object.namespace n) = (
  record c { namespaces = delete n c.namespaces },
  elim (lookup n c.namespaces) [ none ↦ false | some v ↦ true ],
)
remove_object c (Object.ingress i) =
    let m = namespaced_name_of i.namespace i.name in
    (record c { ingresses = delete m c.ingresses }, is_there m c.ingresses)
remove_object c (Object.ingress_class n) =
    kept_if (matches_ingress_class c n) (record c { ingress_class = none }) c
remove_object c (Object.http_proxy p) =
    let m = namespaced_name_of p.namespace p.name in
    (record c { http_proxies = delete m c.http_proxies }, is_there m c.http_proxies)
remove_object c (Object.delegation d) =
    let m = namespaced_name_of d.namespace d.name in
    (record c { delegations = delete m c.delegations }, is_there m c.delegations)
remove_object c (Object.gateway_class g) = (record c { gateway_class = none }, true)
remove_object c (Object.gateway g) = (record c { gateway = none }, true)
remove_object c (Object.http_route r) =
    let m = namespaced_name_of r.namespace r.name in
    (record c { http_routes = delete m c.http_routes }, is_there m c.http_routes)
remove_object c (Object.tls_route r) =
    let m = namespaced_name_of r.namespace r.name in
    (record c { tls_routes = delete m c.tls_routes }, is_there m c.tls_routes)
remove_object c (Object.reference_policy r) =
    let m = namespaced_name_of r.namespace r.name in
    (
      record c { reference_policies = delete m c.reference_policies },
      is_there m c.reference_policies,
    )
remove_object c (Object.extension_service x) =
    let m = namespaced_name_of x.namespace x.name in
    (record c { extensions = delete m c.extensions }, is_there m c.extensions)
remove_object c Object.configuration = (c, false)
remove_object c Object.unknown = (c, false)
remove_object c (Object.tombstone o) = remove_object c o

pub data SecretLookupError : Type 0 where
  secret_not_found : SecretLookupError
  not_valid : LookupError → SecretLookupError

-- the checks of LookupSecret, on the secret that the map holds
unfoldable pub checked :
    Option Secret → (Secret → Option LookupError) → Result SecretLookupError Secret
checked none validate = err secret_not_found
checked (some s) validate = elim (validate s) [ none ↦ ok s | some e ↦ err (not_valid e) ]

unfoldable pub lookup_secret :
    Cache → NamespacedName → (Secret → Option LookupError) → Result SecretLookupError Secret
unfolding lookup checked
lookup_secret c name validate = checked (lookup name c.secrets) validate

-- the local function `contains` of DelegationPermitted
abbrev pub is_wildcard : List Bytes → Bool
is_wildcard (h ∷ []) = h == bytes "*"
is_wildcard _ = false

abbrev pub reaches : List Bytes → Bytes → Bool
reaches targets n = is_wildcard targets || any (λ h. h == n) targets

unfoldable pub delegation_permitted : Cache → NamespacedName → Bytes → Bool
unfolding list_beq
delegation_permitted c (namespace, name) target =
    namespace == target
    || any
        (λ e.
          e.1.namespace == namespace
          && any (λ cd. reaches cd.target_namespaces target && name == cd.secret_name)
              e.1.delegations)
        c.delegations
