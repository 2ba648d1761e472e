-- ===== src/Dag/Secret/Verdicts.antt =====
-- internal/dag/secret.go: isValidSecret, and the two checks that a lookup of a secret makes
-- (validSecret in internal/dag/accessors.go, validCA in internal/dag/cache.go).
use sesame.Common.{
  ◌==◌, ==_iff, nat_eq, string_eq, list_beq, Bytes, bytes_eq, if◌then◌else◌, Bool-cases,
  Option-cases, ◌≡◌, refl, ◌↔◌, ◌⊎◌, inl, inr, true, false, not, ◌||◌, Option, none, some, [], ◌∷◌,
  arith,
}
use sesame.Common.Text.{bytes, is_empty}
use sesame.Common.Assoc.{Map, lookup}
use sesame.Dag.Secret.{
  Crypto, SecretError, missing_certificate, missing_key, zero_length_ca, validate_serving_bundle,
  validate_private_key, validate_ca_bundle,
}

pub record Secret : Type 0 where
  pub namespace : Bytes
  pub name : Bytes
  pub secret_type : Bytes
  pub entries : Map Bytes Bytes

abbrev pub tls_cert_key : Bytes
tls_cert_key = bytes "tls.crt"

abbrev pub tls_private_key_key : Bytes
tls_private_key_key = bytes "tls.key"

abbrev pub ca_certificate_key : Bytes
ca_certificate_key = bytes "ca.crt"

abbrev pub tls_type : Bytes
tls_type = bytes "kubernetes.io/tls"

abbrev pub opaque_type : Bytes
opaque_type = bytes "Opaque"

-- secret.Data[key], with the zero value of a missing key
abbrev pub entry : Secret → Bytes → Bytes
entry s key = elim (lookup key s.entries) [ none ↦ [] | some d ↦ d ]

-- (true, nil), (false, nil) and (false, err)
pub data Verdict : Type 0 where
  accepted ignored : Verdict
  rejected : SecretError → Verdict

abbrev reject_or : Option SecretError → Verdict → Verdict
reject_or (some e) v = rejected e
reject_or none v = v

generic_iff :
    (t : Bytes) → ((t == opaque_type || is_empty t) ≡ true) ↔ ((t ≡ opaque_type) ⊎ (t ≡ []))
unfolding list_beq
generic_iff [] = (λ _. inr refl, λ _. refl)
generic_iff (c ∷ t) = ground (arith, ==_iff (c ∷ t) opaque_type)

not_both : (t : Bytes) → (t == tls_type) ≡ true → ¬ ((t ≡ opaque_type) ⊎ (t ≡ []))
unfolding list_beq
not_both t tls (inl e) = cc (rw e at tls)
not_both t tls (inr e) = cc (rw e at tls)

module _ (crypto : Crypto) where
  -- the part after the switch
  ca_verdict : Secret → Verdict
  ca_verdict s =
      if is_empty (entry s ca_certificate_key)
      then accepted
      else reject_or (validate_ca_bundle crypto (entry s ca_certificate_key)) accepted

  tls_verdict : Secret → Verdict
  tls_verdict s = elim (lookup tls_cert_key s.entries) [
    | none ↦ rejected missing_certificate
    | some cert ↦
        reject_or (validate_serving_bundle crypto cert)
          (elim (lookup tls_private_key_key s.entries) [
            | none ↦ rejected missing_key
            | some key ↦ reject_or (validate_private_key crypto key) (ca_verdict s)
          ])
  ]

  opaque_verdict : Secret → Verdict
  opaque_verdict s = elim (lookup tls_cert_key s.entries) [
    | some cert ↦ ignored
    | none ↦ elim (lookup tls_private_key_key s.entries) [
      | some key ↦ ignored
      | none ↦
          if is_empty (entry s ca_certificate_key) then rejected zero_length_ca else ca_verdict s
    ]
  ]

  unfoldable pub is_valid_secret : Secret → Verdict
  unfolding tls_verdict opaque_verdict ca_verdict
  is_valid_secret s =
      if s.secret_type == tls_type
      then tls_verdict s
      else if s.secret_type == opaque_type || is_empty s.secret_type
      then opaque_verdict s
      else ignored

  -- What an accepted secret is, in words of its type and its entries.
  abbrev pub CaIsFine : Secret → Type 0
  CaIsFine s =
      (is_empty (entry s ca_certificate_key) ≡ true)
      ⊎ (validate_ca_bundle crypto (entry s ca_certificate_key) ≡ none)

  abbrev pub IsServingPair : Secret → Type 0
  IsServingPair s =
      (cert : Bytes) × (key : Bytes) × (lookup tls_cert_key s.entries ≡ some cert)
      × (validate_serving_bundle crypto cert ≡ none)
      × (lookup tls_private_key_key s.entries ≡ some key)
      × (validate_private_key crypto key ≡ none)
      × CaIsFine s

  abbrev pub IsCaBundle : Secret → Type 0
  IsCaBundle s =
      (lookup tls_cert_key s.entries ≡ none)
      × (lookup tls_private_key_key s.entries ≡ none)
      × (is_empty (entry s ca_certificate_key) ≡ false)
      × (validate_ca_bundle crypto (entry s ca_certificate_key) ≡ none)

  ca_verdict_iff : (s : Secret) → (ca_verdict s ≡ accepted) ↔ CaIsFine s
  unfolding ca_verdict
  ca_verdict_iff s = ground arith

  tls_verdict_iff : (s : Secret) → (tls_verdict s ≡ accepted) ↔ IsServingPair s
  unfolding tls_verdict
  tls_verdict_iff s = (
    λ e. elim (Option-cases (lookup tls_cert_key s.entries)) [
      | inl missing ↦ absurd (ground arith)
      | inr (cert, c) ↦ elim (Option-cases (lookup tls_private_key_key s.entries)) [
        | inl missing ↦ absurd (ground arith)
        | inr (key, k) ↦
            (cert, key, c, ground arith, k, ground arith, (ca_verdict_iff s).0 (ground arith))
      ]
    ],
    λ (cert, key, c, cv, k, kv, ca). ground (arith, ca_verdict_iff s),
  )

  opaque_verdict_iff : (s : Secret) → (opaque_verdict s ≡ accepted) ↔ IsCaBundle s
  unfolding opaque_verdict
  opaque_verdict_iff s = ground (arith, ca_verdict_iff s)

  -- A secret is accepted exactly when it is a TLS secret with a certificate and a private key that
  -- validate, and a CA bundle that is empty, missing or valid, or it is an opaque or untyped
  -- secret with no certificate and no key, and a CA bundle that is not empty and validates.
  pub is_valid_secret_iff :
      (s : Secret)
      → (is_valid_secret s ≡ accepted) ↔ (
          ((s.secret_type ≡ tls_type) × IsServingPair s)
          ⊎ (((s.secret_type ≡ opaque_type) ⊎ (s.secret_type ≡ [])) × IsCaBundle s))
  unfolding is_valid_secret
  is_valid_secret_iff s = elim (Bool-cases (s.secret_type == tls_type)) [
    | inl tls ↦ rw tls (
      λ e. inl ((==_iff s.secret_type tls_type).0 tls, (tls_verdict_iff s).0 e),
      λ h. elim h [
        | inl (_, pair) ↦ (tls_verdict_iff s).1 pair
        | inr (other, _) ↦ absurd (not_both (s.secret_type) tls other)
      ],
    )
    | inr not_tls ↦ rw not_tls (
      λ e. elim (Bool-cases (s.secret_type == opaque_type || is_empty s.secret_type)) [
        | inl generic ↦
            inr ((generic_iff s.secret_type).0 generic, (opaque_verdict_iff s).0 (ground arith))
        | inr other ↦ absurd (ground arith)
      ],
      λ h. elim h [
        | inl (tls, _) ↦ cc (not_tls, (==_iff s.secret_type tls_type).1 tls)
        | inr (generic, bundle) ↦
            rw ((generic_iff s.secret_type).1 generic) ((opaque_verdict_iff s).1 bundle)
      ],
    )
  ]

-- validSecret, validCA
pub data LookupError : Type 0 where
  not_tls empty_cert empty_key empty_ca secret_not_found : LookupError

unfoldable pub valid_secret : Secret → Option LookupError
valid_secret s =
    if not (s.secret_type == tls_type)
    then some not_tls
    else if is_empty (entry s tls_cert_key)
    then some empty_cert
    else if is_empty (entry s tls_private_key_key)
    then some empty_key
    else none

unfoldable pub valid_ca : Secret → Option LookupError
valid_ca s = if is_empty (entry s ca_certificate_key) then some empty_ca else none
