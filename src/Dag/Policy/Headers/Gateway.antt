-- ===== src/Dag/Policy/Headers/Gateway.antt =====
-- internal/dag/policy.go: headersPolicyGatewayAPI. The errors are collected, and what is valid is kept
-- beside them.
use sesame.Common.{
  ◌==◌, ==_iff, ==_refl, nat_eq, string_eq, list_beq, member, Bytes, bytes_eq, if◌then◌else◌,
  Bool-cases, Option-cases, ◌≡◌, refl, sym, ap, ◌∙◌, inl, inr, Bool, true, false, not, ◌&&◌, Option,
  none, some, List, [], ◌∷◌, ◌++◌, arith,
}
use mathlib.Core.Path.{subst}
use sesame.Common.Assoc.{Map, lookup, insert, lookup-insert}
use sesame.Common.Header.{canonical_header_key}
use sesame.Dag.Policy.Headers.{
  Kubernetes, HeaderValue, Headers, HeadersError, canonical, host, escape_header_value,
}

-- HTTPRequestHeaderFilter of the Gateway API
pub record HeaderFilter : Type 0 where
  pub set : List HeaderValue
  pub add : List HeaderValue
  pub remove : List Bytes

-- the map, the host and the errors so far
abbrev pub Collected : Type 0
Collected = Map Bytes Bytes × Bytes × List HeadersError

module _ (k8s : Kubernetes) where
  -- a round of the loops over the headers to set and to add, with the canonical name of the header
  unfoldable pub header_under : Bytes → Bytes → Collected → Collected
  unfolding lookup insert list_beq
  header_under key value (headers, rewrite, errors) = elim (lookup key headers) [
    | some v ↦ (headers, rewrite, errors ++ HeadersError.duplicate_addition key ∷ [])
    | none ↦ elim (key == host) [
      | true ↦ (headers, value, errors)
      | false ↦ elim (k8s.is_http_header_name key) [
        | false ↦ (headers, rewrite, errors ++ HeadersError.invalid_set key ∷ [])
        | true ↦ (insert key (escape_header_value value []) headers, rewrite, errors)
      ]
    ]
  ]

  unfoldable pub header_loop : List HeaderValue → Collected → Collected
  unfolding header_under
  header_loop [] so_far = so_far
  header_loop (e ∷ es) so_far = header_loop es (header_under (canonical e) e.value so_far)

  -- a round of the loop over the headers to remove
  unfoldable pub removal_round :
      Bytes → List Bytes × List HeadersError → List Bytes × List HeadersError
  unfolding member canonical_header_key
  removal_round e (removed, errors) =
      let key = canonical_header_key e in
      if member key removed
      then (removed, errors ++ HeadersError.duplicate_removal key ∷ [])
      else if not (k8s.is_http_header_name key)
      then (removed, errors ++ HeadersError.invalid_remove key ∷ [])
      else (removed ++ key ∷ [], errors)

  unfoldable pub removal_loop :
      List Bytes → List Bytes × List HeadersError → List Bytes × List HeadersError
  unfolding removal_round
  removal_loop [] so_far = so_far
  removal_loop (e ∷ es) so_far = removal_loop es (removal_round e so_far)

  -- the policy and the errors, which are no error if there are none
  unfoldable pub headers_policy_gateway_api : HeaderFilter → Headers × List HeadersError
  unfolding header_loop removal_loop
  headers_policy_gateway_api hf =
      let (set, rewrite, errors) = header_loop hf.set ([], [], []) in
      let (add, rewrite', errors') = header_loop hf.add ([], rewrite, errors) in
      let (removed, errors'') = removal_loop hf.remove ([], errors') in
      (
        record { host_rewrite = rewrite'; add = add; set = set; remove = k8s.sorted removed },
        errors'',
      )

  -- a name that can be set
  abbrev pub is_settable : Bytes → Bool
  is_settable key = not (key == host) && k8s.is_http_header_name key

  -- the value of the first header of a name, escaped
  abbrev pub first_value : Bytes → List HeaderValue → Option Bytes
  first_value key [] = none
  first_value key (e ∷ es) =
      let later = first_value key es in
      if key == canonical e then some (escape_header_value e.value []) else later

  abbrev or_else : Option Bytes → Option Bytes → Option Bytes
  or_else none b = b
  or_else (some a) b = some a

  abbrev settable : Bytes → Option Bytes → Option Bytes
  settable key o = if is_settable key then o else none

  or_else-none : (a : Option Bytes) → or_else a none ≡ a
  or_else-none none = refl
  or_else-none (some a) = refl

  header_under-other :
      (key at value : Bytes) (so_far : Collected)
      → (key == at) ≡ false
      → lookup key (header_under at value so_far).0 ≡ lookup key so_far.0
  unfolding header_under
  header_under-other key at value (headers, rewrite, errors) other =
      elim (Option-cases (lookup at headers)) [
        | inr (v, old) ↦ rw (old, header_under) refl
        | inl new ↦ elim (Bool-cases (at == host)) [
          | inl special ↦ rw (header_under, new, special) refl
          | inr usual ↦ elim (Bool-cases (k8s.is_http_header_name at)) [
            | inr bad ↦ rw (header_under, new, usual, bad) refl
            | inl valid ↦
                rw
                  (
                    header_under,
                    new,
                    usual,
                    valid,
                    lookup-insert at key (escape_header_value value []) headers,
                  )
                  (ground (arith, ==_iff at key, ==_iff key at, other))
          ]
        ]
      ]

  header_under-same :
      (key value : Bytes) (so_far : Collected)
      → lookup key (header_under key value so_far).0
        ≡ or_else (lookup key so_far.0) (settable key (some (escape_header_value value [])))
  unfolding header_under
  header_under-same key value (headers, rewrite, errors) =
      elim (Option-cases (lookup key headers)) [
        | inr (v, old) ↦ rw (header_under, old, old) refl
        | inl new ↦ elim (Bool-cases (key == host)) [
          | inl special ↦ rw (header_under, new, special, new) refl
          | inr usual ↦ elim (Bool-cases (k8s.is_http_header_name key)) [
            | inr bad ↦ rw (header_under, new, usual, bad, new) refl
            | inl valid ↦
                rw
                  (
                    header_under,
                    new,
                    usual,
                    valid,
                    lookup-insert key key (escape_header_value value []) headers,
                    ==_refl key,
                  )
                  refl
          ]
        ]
      ]

  settable-none : (key : Bytes) → settable key none ≡ none
  settable-none key = elim (Bool-cases (is_settable key)) [ inl h ↦ rw h refl | inr h ↦ rw h refl ]

  -- a value that can be set hides the later ones
  or_else-settable :
      (key value : Bytes) (a later : Option Bytes)
      → or_else (or_else a (settable key (some value))) (settable key later)
        ≡ or_else a (settable key (some value))
  or_else-settable key value (some v) later = refl
  or_else-settable key value none later = elim (Bool-cases (is_settable key)) [
    | inl h ↦ rw h refl
    | inr h ↦ rw h refl
  ]

  header_loop-lookup :
      (key : Bytes) (es : List HeaderValue) (so_far : Collected)
      → lookup key (header_loop es so_far).0
        ≡ or_else (lookup key so_far.0) (settable key (first_value key es))
  unfolding header_loop
  header_loop-lookup key [] so_far =
      sym (
        ap (or_else (lookup key so_far.0)) (settable-none key) ∙ or_else-none (lookup key so_far.0))
  header_loop-lookup key (e ∷ es) so_far =
      let rest = settable key (first_value key es) in
      header_loop-lookup key es (header_under (canonical e) e.value so_far)
      ∙ elim (Bool-cases (key == canonical e)) [
        | inl same ↦ rw same (
            ap (λ t. or_else t rest)
              (subst
                (λ k.
                  lookup key (header_under k e.value so_far).0
                  ≡ or_else (lookup key so_far.0)
                      (settable key (some (escape_header_value e.value []))))
                ((==_iff key (canonical e)).0 same) (header_under-same key e.value so_far))
            ∙ or_else-settable key (escape_header_value e.value []) (lookup key so_far.0)
                (first_value key es))
        | inr other ↦
            rw other
              (ap (λ t. or_else t rest) (header_under-other key (canonical e) e.value so_far other))
      ]

  -- Whatever the errors are, the policy sets, and adds, for a name that is valid and not Host the
  -- escaped value of the first header of the filter whose canonical name it is, and nothing for any
  -- other name.
  pub headers_policy_gateway_api-lookup :
      (hf : HeaderFilter) (key : Bytes)
      → (lookup key (headers_policy_gateway_api hf).0.set
          ≡ (if is_settable key then first_value key hf.set else none))
        × (lookup key (headers_policy_gateway_api hf).0.add
            ≡ (if is_settable key then first_value key hf.add else none))
  unfolding headers_policy_gateway_api lookup
  headers_policy_gateway_api-lookup hf key =
      (header_loop-lookup key hf.set _, header_loop-lookup key hf.add _)
