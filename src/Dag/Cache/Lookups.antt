-- ===== src/Dag/Cache/Lookups.antt =====
-- internal/dag/cache.go: LookupService and LookupUpstreamValidation.
use sesame.Common.{
  ◌==◌, nat_eq, string_eq, list_beq, Bytes, bytes_eq, if◌then◌else◌, Bool-cases, Option-cases, any,
  ◌≡◌, refl, ap, ◌∙◌, inl, inr, Bool, true, false, ◌||◌, Option, none, some, List, [], ◌∷◌, ◌++◌,
  arith,
}
use mathlib.Core.Path.{subst}
use sesame.Common.Text.{bytes, is_empty}
use sesame.Common.Integer.{ℤ, int_eq}
use sesame.Common.Assoc.{lookup}
use sesame.Common.Result.{Result, ok, err}
use sesame.Status.Proxy.{NamespacedName, name_eq}
use sesame.Dag.Secret.Verdicts.{valid_ca}
use sesame.Dag.Graph.{PeerValidationContext}
use sesame.Dag.Cache.Objects.{Service, ServicePort, Cache}
use sesame.Dag.Cache.Operations.{lookup_secret, SecretLookupError}

-- an intstr.IntOrString, by what IntValue and String answer
pub record IntOrString : Type 0 where
  pub int_value : ℤ
  pub text : Bytes

pub data ServiceError : Type 0 where
  service_not_found port_not_matched : ServiceError
  unsupported_protocol : Bytes → ServiceError

abbrev pub is_port : IntOrString → ServicePort → Bool
is_port port p = p.port == port.int_value || port.text == p.name

abbrev pub is_tcp : ServicePort → Bool
is_tcp p = is_empty p.protocol || p.protocol == bytes "TCP"

port_loop : Service → IntOrString → List ServicePort → Result ServiceError (Service × ServicePort)
unfolding list_beq
port_loop svc port [] = err port_not_matched
port_loop svc port (p ∷ ps) =
    let rest = port_loop svc port ps in
    if is_port port p
    then (if is_tcp p then ok (svc, p) else err (unsupported_protocol p.protocol))
    else rest

unfoldable pub lookup_service :
    Cache → NamespacedName → IntOrString → Result ServiceError (Service × ServicePort)
unfolding lookup port_loop
lookup_service c name port = elim (lookup name c.services) [
  | none ↦ err service_not_found
  | some svc ↦ port_loop svc port svc.ports
]

pub data UpstreamError : Type 0 where
  invalid_ca_secret : SecretLookupError → UpstreamError
  missing_subject_name : UpstreamError

-- an upstream validation is its subject name
unfoldable pub lookup_upstream_validation :
    Cache → Option Bytes → NamespacedName → Result UpstreamError (Option PeerValidationContext)
unfolding lookup_secret valid_ca
lookup_upstream_validation c none name = ok none
lookup_upstream_validation c (some subject) name = elim (lookup_secret c name valid_ca) [
  | err e ↦ err (invalid_ca_secret e)
  | ok s ↦
      if is_empty subject
      then err missing_subject_name
      else ok (
          some record {
            ca_certificate = some s;
            subject_name = subject;
            skip_client_cert_validation = false;
          })
]

-- The port is the first of the list that the reference names, by number or by name, and it is TCP.
abbrev pub IsFirstPort : IntOrString → List ServicePort → ServicePort → Type 0
IsFirstPort port ps p =
    (before : List ServicePort) × (after : List ServicePort) × (ps ≡ before ++ p ∷ after)
    × (any (is_port port) before ≡ false)
    × (is_port port p ≡ true)
    × (is_tcp p ≡ true)

abbrev served : Service → ServicePort → Result ServiceError (Service × ServicePort)
served svc p = ok (svc, p)

found-injective :
    (svc : Service) (p q : ServicePort) (t : Service)
    → served svc p ≡ served t q
    → (svc ≡ t) × (p ≡ q)
found-injective svc p q t e = (ground (arith, e), ground (arith, e))

port_loop-first :
    (svc : Service) (port : IntOrString) (ps : List ServicePort) (t : Service) (p : ServicePort)
    → port_loop svc port ps ≡ ok (t, p)
    → (svc ≡ t) × IsFirstPort port ps p
unfolding port_loop
port_loop-first svc port [] t p e = absurd (ground (arith, e))
port_loop-first svc port (q ∷ qs) t p e = elim (Bool-cases (is_port port q)) [
  | inl here ↦ elim (Bool-cases (is_tcp q)) [
    | inl tcp ↦
        let (same, port_same) = found-injective svc q p t (ground (arith, e, here, tcp)) in
        (same, subst (λ p. IsFirstPort port (q ∷ qs) p) port_same ([], qs, refl, refl, here, tcp))
    | inr other ↦ absurd (ground (arith, e, here, other))
  ]
  | inr later ↦
      let (same, (before, after, split, none_before, named, tcp)) =
        port_loop-first svc port qs t p (ground (arith, e, later)) in
      (
        same,
        (q ∷ before, after, ap (λ t. q ∷ t) split, ground (arith, later, none_before), named, tcp),
      )
]

-- A service that is found is the cache's own of that name, with the first of its ports that the
-- reference names, and that port speaks TCP.
pub lookup_service-IsFirstPort :
    (c : Cache) (name : NamespacedName) (port : IntOrString) (svc : Service) (p : ServicePort)
    → lookup_service c name port ≡ ok (svc, p)
    → (lookup name c.services ≡ some svc) × IsFirstPort port svc.ports p
unfolding lookup_service
lookup_service-IsFirstPort c name port svc p e = elim (Option-cases (lookup name c.services)) [
  | inl missing ↦ absurd (ground (arith, e, missing))
  | inr (held, found) ↦
      let (same, first) = port_loop-first held port held.ports svc p (ground (arith, e, found)) in
      (found ∙ ap (λ s. some s) same, subst (λ s. IsFirstPort port s.ports p) same first)
]
