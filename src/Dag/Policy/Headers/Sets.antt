-- ===== src/Dag/Policy/Headers/Sets.antt =====
-- internal/dag/policy.go: the headers that headersPolicyRoute and headersPolicyService set.
use sesame.Common.{
  ◌==◌, ==_iff, nat_eq, string_eq, Bytes, bytes_eq, Bool-cases, ◌≡◌, refl, sym, ◌∙◌, ◌≢◌, ◌⊎◌, inl,
  inr, Bool, true, false, Option, none, some, List, [], ◌∷◌, arith,
}
use mathlib.Core.Path.{subst}
use sesame.Common.Assoc.{Map, lookup, insert, lookup-insert}
use sesame.Common.Header.{canonical_header_key}
use sesame.Common.Result.{bind-ok, Result, ok, err}
use sesame.Dag.Policy.Headers.{
  Kubernetes, HeaderValue, HeadersPolicy, Headers, HeadersError, canonical, host, set_loop,
  remove_loop, headers_policy_route, headers_policy_service, default_set_loop, default_remove_loop,
  escape_header_value, or_empty,
}

abbrev Sets : Type 0
Sets = Map Bytes Bytes

abbrev fine : Option Headers → Result HeadersError (Option Headers)
fine h = ok h

-- Every header that is set has a valid name other than Host.
abbrev pub IsClean : Kubernetes → Sets → Type 0
IsClean k8s m =
    (key value : Bytes)
    → lookup key m ≡ some value
    → (key ≢ host) × (k8s.is_http_header_name key ≡ true)

-- What is set in one map is set, to the same value, in the other.
abbrev pub Keeps : Sets → Sets → Type 0
Keeps m n = (key value : Bytes) → lookup key m ≡ some value → lookup key n ≡ some value

lookup-insert_other :
    (key asked value : Bytes) (m : Sets)
    → (key == asked) ≡ false
    → lookup asked (insert key value m) ≡ lookup asked m
lookup-insert_other key asked value m e = lookup-insert key asked value m ∙ rw e refl

insert-Keeps : (key value : Bytes) (m : Sets) → lookup key m ≡ none → Keeps m (insert key value m)
insert-Keeps key value m new asked v h = elim (Bool-cases (key == asked)) [
  | inl e ↦ absurd (ground (arith, h, subst (λ k. lookup k m ≡ none) ((==_iff key asked).0 e) new))
  | inr e ↦ lookup-insert_other key asked value m e ∙ h
]

module _ (k8s : Kubernetes) where
  empty-IsClean : IsClean k8s []
  unfolding lookup
  empty-IsClean key value e = absurd (ground (arith, e))

  insert-IsClean :
      (key value : Bytes) (m : Sets)
      → key ≢ host
      → k8s.is_http_header_name key ≡ true
      → IsClean k8s m
      → IsClean k8s (insert key value m)
  insert-IsClean key value m other valid clean asked v h = elim (Bool-cases (key == asked)) [
    | inl e ↦
        subst (λ k. (k ≢ host) × (k8s.is_http_header_name k ≡ true)) ((==_iff key asked).0 e)
          (other, valid)
    | inr e ↦ clean asked v (sym (lookup-insert_other key asked value m e) ∙ h)
  ]

module _ (k8s : Kubernetes) (dynamic : Sets) where
  -- one round of the loop over the default headers
  default_round :
      (o : Option Bytes) (is_host valid : Bool) (b c : HeadersError)
      (r s : Result HeadersError Sets) (out : Sets)
      → (elim is_host [
        | true ↦ err b
        | false ↦ elim valid [ false ↦ err c | true ↦ elim o [ some w ↦ r | none ↦ s ] ]
      ])
        ≡ ok out
      → (is_host ≡ false)
        × (valid ≡ true)
        × (((w : Bytes) × (o ≡ some w) × (r ≡ ok out)) ⊎ ((o ≡ none) × (s ≡ ok out)))
  default_round (some w) false true b c r s out h = (refl, refl, inl (w, refl, h))
  default_round none false true b c r s out h = (refl, refl, inr (refl, h))
  default_round o true valid b c r s out h = absurd (ground (arith, h))
  default_round o false false b c r s out h = absurd (ground (arith, h))

  -- one round of the loop over the headers to set
  set_round :
      (o : Option Bytes) (is_host allow valid : Bool) (a b c : HeadersError)
      (r s : Result HeadersError (Sets × Bytes)) (out : Sets × Bytes)
      → (elim o [
        | some v ↦ err a
        | none ↦ elim is_host [
          | true ↦ elim allow [ false ↦ err b | true ↦ r ]
          | false ↦ elim valid [ false ↦ err c | true ↦ s ]
        ]
      ])
        ≡ ok out
      → (o ≡ none)
        × (((is_host ≡ true) × (r ≡ ok out)) ⊎ ((is_host ≡ false) × (valid ≡ true) × (s ≡ ok out)))
  set_round o is_host allow valid a b c r s out h = ground (arith, h)

  set_loop-facts :
      (allow : Bool) (set : Sets) (rewrite : Bytes) (es : List HeaderValue) (out : Sets × Bytes)
      → set_loop k8s dynamic allow set rewrite es ≡ ok out
      → IsClean k8s set
      → IsClean k8s out.0 × Keeps set out.0
  unfolding set_loop
  set_loop-facts allow set rewrite [] out h clean =
      subst (λ m. IsClean k8s m × Keeps set m) (ground (arith, h)) (clean, λ key value e. e)
  set_loop-facts allow set rewrite (e ∷ es) out h clean =
      let key = canonical e in
      let value = escape_header_value e.value dynamic in
      let (new, branch) =
        set_round (lookup key set) (key == host) allow (k8s.is_http_header_name key) _ _ _ _ _ out
          h in
      elim branch [
        | inl (same, h) ↦ set_loop-facts allow set e.value es out h clean
        | inr (other, valid, h) ↦
            let (c, keeps) = set_loop-facts allow (insert key value set) rewrite es out h (
              insert-IsClean k8s key value set (λ z. ground (arith, other, (==_iff key host).1 z))
                valid clean) in
            (c, λ k v e. keeps k v (insert-Keeps key value set new k v e))
      ]

  default_set_loop-facts :
      (set : Sets) (entries : Sets) (out : Sets)
      → default_set_loop k8s dynamic set entries ≡ ok out
      → IsClean k8s set
      → IsClean k8s out × Keeps set out
  unfolding default_set_loop
  default_set_loop-facts set [] out h clean =
      subst (λ m. IsClean k8s m × Keeps set m) (ground (arith, h)) (clean, λ key value e. e)
  default_set_loop-facts set ((k, v) ∷ entries) out h clean =
      let key = canonical_header_key k in
      let value = escape_header_value v dynamic in
      let (other, valid, branch) =
        default_round (lookup key set) (key == host) (k8s.is_http_header_name key) _ _ _ _ out h in
      elim branch [
        | inl (w, taken, h) ↦ default_set_loop-facts set entries out h clean
        | inr (new, h) ↦
            let (c, keeps) = default_set_loop-facts (insert key value set) entries out h (
              insert-IsClean k8s key value set (λ z. ground (arith, other, (==_iff key host).1 z))
                valid clean) in
            (c, λ k v e. keeps k v (insert-Keeps key value set new k v e))
      ]

  -- What headersPolicyRoute accepts sets only valid headers, and not Host.
  headers_policy_route-IsClean :
      (policy : Option HeadersPolicy) (allow : Bool) (out : Headers)
      → headers_policy_route k8s dynamic policy allow ≡ ok (some out)
      → IsClean k8s out.set
  unfolding headers_policy_route
  headers_policy_route-IsClean none allow out h = absurd (ground (arith, h))
  headers_policy_route-IsClean (some p) allow out h =
      let (made, e, h) = bind-ok _ _ (some out) h in
      let (removed, _, h) = bind-ok (remove_loop k8s dynamic [] p.remove) _ (some out) h in
      subst (λ m. IsClean k8s m) (ground (arith, h))
        (set_loop-facts allow [] [] p.set made e (empty-IsClean k8s)).0

  user-IsClean :
      (policy : Option HeadersPolicy) (user : Option Headers)
      → headers_policy_route k8s dynamic policy false ≡ ok user
      → IsClean k8s (or_empty k8s dynamic user).set
  user-IsClean policy none e = empty-IsClean k8s
  user-IsClean policy (some user) e = headers_policy_route-IsClean policy false user e

  set_of : (out made : Headers) → (ok (some made)) ≡ fine (some out) → made.set ≡ out.set
  set_of out made h = ground (arith, h)

  -- What headersPolicyService makes of a default policy sets only valid headers other than Host,
  -- and every header that the user's own policy sets keeps the user's value.
  pub headers_policy_service-user_wins :
      (default : Headers) (policy : Option HeadersPolicy) (out : Headers)
      → headers_policy_service k8s dynamic (some default) policy ≡ ok (some out)
      → (user : Option Headers) × (headers_policy_route k8s dynamic policy false ≡ ok user)
        × IsClean k8s out.set
        × Keeps (or_empty k8s dynamic user).set out.set
  unfolding headers_policy_service
  headers_policy_service-user_wins default policy out h =
      let (user, e, h) = bind-ok _ _ (some out) h in
      let (set, made, h) = bind-ok _ _ (some out) h in
      let (remove, _, h) =
        bind-ok
          (default_remove_loop k8s dynamic (or_empty k8s dynamic user).remove
            (or_empty k8s dynamic user).remove default.remove)
          _ (some out) h in
      let facts =
        default_set_loop-facts (or_empty k8s dynamic user).set default.set set made
          (user-IsClean policy user e) in
      let (clean, keeps) =
        subst (λ m. IsClean k8s m × Keeps (or_empty k8s dynamic user).set m) (set_of out _ h)
          facts in
      (user, e, clean, keeps)
