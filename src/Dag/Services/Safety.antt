-- ===== src/Dag/Services/Safety.antt =====
-- internal/dag/accessors.go: what a service that EnsureService returns is.
use sesame.Common.{
  nat_eq, string_eq, member, Bytes, bytes_eq, if◌then◌else◌, ◌≡◌, refl, ◌⊎◌, inl, inr, Bool, true,
  false, not, none, some, [], ◌∷◌, arith,
}
use mathlib.Core.Path.{subst}
use sesame.Common.Text.{is_empty}
use sesame.Common.Assoc.{lookup}
use sesame.Common.Result.{bind-ok, map_error, map_error-ok, checked_by-ok, ok}
use sesame.Status.Proxy.{NamespacedName, name_eq}
use sesame.Dag.Cache.Objects as Kubernetes
use sesame.Dag.Cache.Objects.{ServicePort, Cache}
use sesame.Dag.Cache.Lookups.{IntOrString, lookup_service, IsFirstPort, lookup_service-IsFirstPort}
use sesame.Dag.Graph.{Service}
use sesame.Dag.Services.{
  EnsureError, external_name, localhost_names, validate_external_name, graph_service,
  ensure_service,
}

-- An external name is allowed only where they are enabled, and it is no name of the local host.
abbrev pub IsAllowed : Bool → Bytes → Type 0
IsAllowed enabled name = (name ≡ []) ⊎ ((enabled ≡ true) × (member name localhost_names ≡ false))

is_empty-eq : (s : Bytes) → is_empty s ≡ true → s ≡ []
is_empty-eq [] e = refl
is_empty-eq (c ∷ s) e = absurd (ground (arith, e))

three_tests :
    (a b c : Bool) (x y : EnsureError)
    → (if a then none else if not b then some x else if c then some y else none) ≡ none
    → (a ≡ true) ⊎ ((b ≡ true) × (c ≡ false))
three_tests a b c x y e = ground (arith, e)

validate-IsAllowed :
    (svc : Kubernetes.Service) (enabled : Bool)
    → validate_external_name svc enabled ≡ none
    → IsAllowed enabled (external_name svc)
unfolding validate_external_name
validate-IsAllowed svc enabled e =
    elim (three_tests (is_empty (external_name svc)) enabled _ _ _ e) [
      | inl empty ↦ inl (is_empty-eq (external_name svc) empty)
      | inr other ↦ inr other
    ]

-- A service of the graph is made from the service of the cache with the name that is asked for, and
-- from the first of its ports that the reference names; an external name is passed on only where
-- external names are enabled and it does not stand for the local host.
pub ensure_service-IsAllowed :
    (c : Cache) (name : NamespacedName) (port : IntOrString) (enabled : Bool) (s : Service)
    → ensure_service c name port enabled ≡ ok s
    → (svc : Kubernetes.Service) × (p : ServicePort) × (lookup name c.services ≡ some svc)
      × IsFirstPort port svc.ports p
      × (graph_service svc p ≡ s)
      × IsAllowed enabled s.external_name
unfolding ensure_service
ensure_service-IsAllowed c name port enabled s e =
    let ((svc, p), found, e) =
      bind-ok (map_error EnsureError.not_found (lookup_service c name port)) _ s e in
    let (held, first) =
      lookup_service-IsFirstPort c name port svc p
        (map_error-ok _ (lookup_service c name port) (svc, p) found) in
    let (fine, same) =
      checked_by-ok (validate_external_name svc enabled) (graph_service svc p) s e in
    (
      svc,
      p,
      held,
      first,
      same,
      subst (λ s. IsAllowed enabled s.external_name) same (validate-IsAllowed svc enabled fine),
    )
