-- ===== src/Dag/Cache/Triggers.antt =====
-- internal/dag/cache.go: whether a change of a service or a secret triggers a rebuild of the graph.
use sesame.Common.{
  ◌==◌, nat_eq, string_eq, list_beq, option_beq, Bytes, bytes_eq, if◌then◌else◌, any, Bool, true,
  false, ◌&&◌, ◌||◌, Option, none, some, List, [], ◌∷◌, ◌++◌, map,
}
use sesame.Common.Text.{bytes}
use sesame.Common.Assoc.{Map, lookup}
use sesame.Status.Proxy.{NamespacedName}
use sesame.Dag.Secret.Verdicts.{Secret, ca_certificate_key}
use sesame.Api.Proxy as Api
use sesame.Api.Proxy.{HttpProxy}
use sesame.Dag.Cache.Objects.{Service, Ingress, Reference, Gateway, Cache}

-- isRefToService and isRefToSecret, by the kind
abbrev is_ref_to : Bytes → Reference → Bytes → Bytes → Bytes → Bool
unfolding option_beq list_beq
is_ref_to kind r namespace name referring =
    option_beq r.group (some [])
    && (option_beq r.kind (some kind)
        && ((elim r.namespace [ some n ↦ n == namespace | none ↦ referring == namespace ])
            && r.name == name))

abbrev service_name : Api.Service → Bytes
service_name s = s.name

abbrev names : Bytes → List Bytes → Bool
names n ns = any (λ m. m == n) ns

-- A test that dereferences a nil pointer is `none`. A test that does not return true goes on.
abbrev or_next : Option Bool → Option Bool → Option Bool
or_next none next = none
or_next (some true) next = some true
or_next (some false) next = next

-- backend.Service.Name == service.Name
abbrev backend_is : Bytes → Option Bytes → Option Bool
unfolding list_beq
backend_is name none = none
backend_is name (some n) = some (n == name)

default_uses : Bytes → Option (Option Bytes) → Option Bool
unfolding backend_is
default_uses name none = some false
default_uses name (some backend) = backend_is name backend

paths_use : Bytes → List (Option Bytes) → Option Bool
unfolding backend_is
paths_use name [] = some false
paths_use name (backend ∷ backends) = or_next (backend_is name backend) (paths_use name backends)

rules_use : Bytes → List (Option (List (Option Bytes))) → Option Bool
unfolding paths_use
rules_use name [] = some false
rules_use name (none ∷ rules) = rules_use name rules
rules_use name (some paths ∷ rules) = or_next (paths_use name paths) (rules_use name rules)

-- a round of the loop over the Ingresses
ingress_uses_service : Service → Ingress → Option Bool
unfolding default_uses rules_use list_beq
ingress_uses_service s i =
    if i.namespace == s.namespace
    then or_next (default_uses s.name i.default_backend) (rules_use s.name i.rules)
    else some false

ingresses_use : Service → Map NamespacedName Ingress → Option Bool
unfolding ingress_uses_service
ingresses_use s [] = some false
ingresses_use s ((_, i) ∷ ingresses) =
    or_next (ingress_uses_service s i) (ingresses_use s ingresses)

abbrev proxy_uses_service : Service → HttpProxy → Bool
proxy_uses_service s p =
    p.namespace == s.namespace
    && (any (λ r. names s.name (map service_name r.services)) p.routes || (elim p.tcp_proxy [
      | none ↦ false
      | some tcp ↦ names s.name (map service_name tcp.services)
    ]))

-- `none` is the panic of a backend without a service
unfoldable pub service_triggers_rebuild : Cache → Service → Option Bool
unfolding list_beq option_beq is_ref_to ingresses_use
service_triggers_rebuild c s = or_next (ingresses_use s c.ingresses) (
    some (
      any (λ e. proxy_uses_service s e.1) c.http_proxies
      || any
          (λ e.
            any
              (λ refs.
                any (λ r. is_ref_to (bytes "Service") r s.namespace s.name e.1.namespace) refs)
              e.1.rules)
          c.http_routes))

abbrev pub slashed : Bytes → Bytes → Bytes
slashed a b = a ++ b'/' ∷ b

-- delegations[key], for the map from target namespace and secret name
unfoldable pub is_delegated : Cache → Bytes → Bool
unfolding list_beq
is_delegated c key =
    any
      (λ e.
        any (λ cd. any (λ n. slashed n cd.secret_name == key) cd.target_namespaces) e.1.delegations)
      c.delegations

abbrev pub ingress_uses_secret : Cache → Secret → Ingress → Bool
ingress_uses_secret c s i =
    (i.namespace == s.namespace && names s.name i.tls)
    || ((is_delegated c (slashed i.namespace s.name) && names (slashed s.namespace s.name) i.tls)
        || (is_delegated c (slashed (bytes "*") s.name)
            && names (slashed s.namespace s.name) i.tls))

-- the secret of the virtual host: `some none` where it has no TLS
abbrev pub secret_reference : HttpProxy → Option (Option Bytes)
secret_reference p = elim p.virtual_host [
  | none ↦ none
  | some vh ↦ some (elim vh.tls [ none ↦ none | some tls ↦ some tls.secret_name ])
]

-- a proxy of the namespace refers to the secret
abbrev pub reference_uses : Cache → Secret → Bytes → Option (Option Bytes) → Bool
reference_uses c s namespace none = false
reference_uses c s namespace (some none) = false
reference_uses c s namespace (some (some reference)) =
    (namespace == s.namespace && reference == s.name)
    || ((is_delegated c (slashed namespace s.name) && reference == slashed s.namespace s.name)
        || (is_delegated c (slashed (bytes "*") s.name) && reference == slashed s.namespace s.name))

abbrev pub proxy_uses_secret : Cache → Secret → HttpProxy → Bool
proxy_uses_secret c s p = reference_uses c s p.namespace (secret_reference p)

abbrev gateway_uses_secret : Secret → Gateway → Bool
unfolding is_ref_to
gateway_uses_secret s g =
    any
      (λ tls. elim tls [
        | none ↦ false
        | some refs ↦ any (λ r. is_ref_to (bytes "Secret") r s.namespace s.name g.namespace) refs
      ])
      g.listeners

unfoldable pub secret_triggers_rebuild : Cache → Secret → Bool
unfolding is_delegated lookup list_beq option_beq is_ref_to gateway_uses_secret
secret_triggers_rebuild c s = elim (lookup ca_certificate_key s.entries) [
  | some d ↦ true
  | none ↦
      any (λ e. ingress_uses_secret c s e.1) c.ingresses
      || (any (λ e. proxy_uses_secret c s e.1) c.http_proxies
          || (any (λ r. r.0 == s.namespace && r.1 == s.name) c.configured_secret_refs
              || (elim c.gateway [ none ↦ false | some g ↦ gateway_uses_secret s g ])))
]
