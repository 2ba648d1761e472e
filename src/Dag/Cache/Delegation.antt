-- ===== src/Dag/Cache/Delegation.antt =====
-- internal/dag/cache.go: certificate delegation, and the rebuilds that it triggers.
use sesame.Common.{
  ◌==◌, ==_iff, ==_refl, nat_eq, string_eq, Bytes, bytes_eq, Bool-cases, length, any, length-append,
  ◌≡◌, ap, ◌≢◌, ◌⊎◌, inl, inr, Bool, true, false, ◌&&◌, none, some, List, [], ◌∷◌, arith,
}
use mathlib.Core.Path.{subst}
use sesame.Common.Any.{any-either, any-weaken, any-lookup}
use sesame.Common.Text.{bytes}
use sesame.Dag.Secret.{Crypto}
use sesame.Common.Assoc.{Map, lookup, insert}
use sesame.Status.Proxy.{NamespacedName, name_eq, namespaced_name_of}
use sesame.Dag.Secret.Verdicts.{Secret, ca_certificate_key, is_valid_secret, accepted}
use sesame.Dag.Cache.Triggers.{
  secret_triggers_rebuild, is_delegated, slashed, proxy_uses_secret, secret_reference,
  reference_uses,
}
use sesame.Dag.Cache.Operations.{
  insert_object, insert_secret, delegation_permitted, reaches, is_wildcard,
}
use sesame.Api.Proxy.{HttpProxy}
use sesame.Dag.Cache.Objects.{CertificateDelegation, TlsCertificateDelegation, Cache, Object}

same_key : (a b name : Bytes) → a ≡ b → (slashed a name == slashed b name) ≡ true
same_key a b name e = rw e (==_refl (slashed b name))

wildcard-any :
    (targets : List Bytes) (name : Bytes)
    → is_wildcard targets ≡ true
    → any (λ n. slashed n name == slashed (bytes "*") name) targets ≡ true
wildcard-any [] name e = absurd (ground (arith, e))
wildcard-any (h ∷ []) name e =
    ground (arith, same_key h (bytes "*") name ((==_iff h (bytes "*")).0 e))
wildcard-any (h ∷ i ∷ t) name e = absurd (ground (arith, e))

-- the names of a delegation that reaches a namespace
reaches-names :
    (targets : List Bytes) (target name : Bytes)
    → reaches targets target ≡ true
    → (any (λ n. slashed n name == slashed (bytes "*") name) targets ≡ true)
      ⊎ (any (λ n. slashed n name == slashed target name) targets ≡ true)
reaches-names targets target name e = elim (Bool-cases (is_wildcard targets)) [
  | inl w ↦ inl (wildcard-any targets name w)
  | inr w ↦ inr (
      any-weaken (λ h. h == target) _ targets
        (λ h same. same_key h target name ((==_iff h target).0 same)) (ground (arith, e, w)))
]

-- the two tests of DelegationPermitted
abbrev grants : Bytes → Bytes → CertificateDelegation → Bool
grants name target cd = reaches cd.target_namespaces target && name == cd.secret_name

abbrev permits : Bytes → Bytes → Bytes → TlsCertificateDelegation → Bool
permits namespace name target d =
    d.namespace == namespace && any (λ cd. grants name target cd) d.delegations

grants-names :
    (name target : Bytes) (cd : CertificateDelegation)
    → grants name target cd ≡ true
    → (any (λ n. slashed n cd.secret_name == slashed (bytes "*") name) cd.target_namespaces ≡ true)
      ⊎ (any (λ n. slashed n cd.secret_name == slashed target name) cd.target_namespaces ≡ true)
grants-names name target cd e =
    subst
      (λ secret.
        (any (λ n. slashed n secret == slashed (bytes "*") name) cd.target_namespaces ≡ true)
        ⊎ (any (λ n. slashed n secret == slashed target name) cd.target_namespaces ≡ true))
      ((==_iff name cd.secret_name).0 (ground (arith, e)))
      (reaches-names cd.target_namespaces target name (ground (arith, e)))

-- A delegation that reaches a namespace is a key of the map that secretTriggersRebuild builds: one
-- for the wildcard, or one for the namespace.
delegated-keys :
    (c : Cache) (namespace name target : Bytes)
    → namespace ≢ target
    → delegation_permitted c (namespace, name) target ≡ true
    → (is_delegated c (slashed (bytes "*") name) ≡ true)
      ⊎ (is_delegated c (slashed target name) ≡ true)
unfolding delegation_permitted is_delegated
delegated-keys c namespace name target other permitted =
    any-either (λ entry. permits namespace name target entry.1) _ _ c.delegations
      (λ entry here.
        any-either (λ cd. grants name target cd) _ _ entry.1.delegations (grants-names name target)
          (ground (arith, here)))
      (ground (arith, permitted, other, ==_iff namespace target))

uses :
    (c : Cache) (s : Secret) (p : HttpProxy)
    → secret_reference p ≡ some (some (slashed s.namespace s.name))
    → (is_delegated c (slashed (bytes "*") s.name) ≡ true)
      ⊎ (is_delegated c (slashed p.namespace s.name) ≡ true)
    → proxy_uses_secret c s p ≡ true
uses c s p e d = rw (e, reference_uses) (ground (arith, d, ==_refl (slashed s.namespace s.name)))

delegated_secret-rebuilds :
    (c : Cache) (s : Secret) (key : NamespacedName) (p : HttpProxy)
    → lookup key c.http_proxies ≡ some p
    → secret_reference p ≡ some (some (slashed s.namespace s.name))
    → s.namespace ≢ p.namespace
    → delegation_permitted c (s.namespace, s.name) p.namespace ≡ true
    → secret_triggers_rebuild c s ≡ true
unfolding secret_triggers_rebuild
delegated_secret-rebuilds c s key p found refers other permitted = ground (
  arith,
  any-lookup (λ p. proxy_uses_secret c s p) key p c.http_proxies found
      (uses c s p refers (delegated-keys c s.namespace s.name p.namespace other permitted)),
)

abbrev pub with_secrets : Cache → Map NamespacedName Secret → Cache
with_secrets c secrets = record c { secrets = secrets }

inserted-rebuilds :
    (crypto : Crypto) (c : Cache) (s : Secret) (rebuilds : Bool)
    → is_valid_secret crypto s ≡ accepted
    → ((secrets : Map NamespacedName Secret)
        → secret_triggers_rebuild (with_secrets c secrets) s ≡ rebuilds)
    → (insert_object crypto c (Object.secret s)).1 ≡ some rebuilds
unfolding insert_object insert_secret
inserted-rebuilds crypto c s rebuilds valid triggers =
    rw valid
      (ap (λ b. some b) (triggers (insert (namespaced_name_of s.namespace s.name) s c.secrets)))

-- The insertion of a secret that isValidSecret accepts answers that the graph is to be rebuilt, where
-- a root proxy of another namespace refers to the secret by its full name and the secret is
-- delegated to that namespace.
pub delegated_secret-triggers :
    (crypto : Crypto) (c : Cache) (s : Secret) (key : NamespacedName) (p : HttpProxy)
    → is_valid_secret crypto s ≡ accepted
    → lookup key c.http_proxies ≡ some p
    → secret_reference p ≡ some (some (slashed s.namespace s.name))
    → s.namespace ≢ p.namespace
    → delegation_permitted c (s.namespace, s.name) p.namespace ≡ true
    → (insert_object crypto c (Object.secret s)).1 ≡ some true
unfolding delegation_permitted
delegated_secret-triggers crypto c s key p valid found refers other permitted =
    inserted-rebuilds crypto c s true valid (λ secrets.
      delegated_secret-rebuilds (with_secrets c secrets) s key p found refers other permitted)

-- a cache that holds one proxy
abbrev pub lone : NamespacedName → HttpProxy → Cache
lone key p = record {
  root_namespaces = [];
  ingress_class_name = [];
  configured_secret_refs = [];
  ingresses = [];
  ingress_class = none;
  http_proxies = (key, p) ∷ [];
  secrets = [];
  delegations = [];
  services = [];
  namespaces = [];
  gateway_class = none;
  gateway = none;
  http_routes = [];
  tls_routes = [];
  reference_policies = [];
  extensions = [];
}

slashed-longer : (a b : Bytes) → slashed a b ≢ b
slashed-longer a b e = omega (arith, ap (λ t. length t) e, length-append a (b'/' ∷ b))

lone_proxy-misses :
    (s : Secret) (key : NamespacedName) (p : HttpProxy) (secrets : Map NamespacedName Secret)
    → secret_reference p ≡ some (some (slashed s.namespace s.name))
    → proxy_uses_secret (with_secrets (lone key p) secrets) s p ≡ false
unfolding is_delegated
lone_proxy-misses s key p secrets refers =
    rw refers (
      ground (arith, ==_iff (slashed s.namespace s.name) s.name, slashed-longer s.namespace s.name))

lone_proxy-keeps :
    (s : Secret) (key : NamespacedName) (p : HttpProxy) (secrets : Map NamespacedName Secret)
    → lookup ca_certificate_key s.entries ≡ none
    → secret_reference p ≡ some (some (slashed s.namespace s.name))
    → secret_triggers_rebuild (with_secrets (lone key p) secrets) s ≡ false
unfolding secret_triggers_rebuild is_delegated
lone_proxy-keeps s key p secrets ca refers =
    rw (ca, secret_triggers_rebuild) (ground (arith, lone_proxy-misses s key p secrets refers))

-- In a cache that holds one root proxy and nothing else, where the proxy refers by its full name to a
-- secret of its own namespace, the namespace may use the secret; but the insertion of the secret,
-- which isValidSecret accepts and which has no CA bundle, answers that the graph need not be rebuilt.
pub full_name_in_own_namespace-misses :
    (crypto : Crypto) (s : Secret) (key : NamespacedName) (p : HttpProxy)
    → is_valid_secret crypto s ≡ accepted
    → lookup ca_certificate_key s.entries ≡ none
    → secret_reference p ≡ some (some (slashed s.namespace s.name))
    → p.namespace ≡ s.namespace
    → (delegation_permitted (lone key p) (s.namespace, s.name) p.namespace ≡ true)
      × ((insert_object crypto (lone key p) (Object.secret s)).1 ≡ some false)
unfolding delegation_permitted
full_name_in_own_namespace-misses crypto s key p valid ca refers own = (
  ground (arith, ==_iff s.namespace p.namespace, own),
  inserted-rebuilds crypto (lone key p) s false valid
      (λ secrets. lone_proxy-keeps s key p secrets ca refers),
)
