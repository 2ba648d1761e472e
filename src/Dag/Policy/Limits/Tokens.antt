-- ===== src/Dag/Policy/Limits/Tokens.antt =====
-- internal/dag/policy.go: what an accepted rate limit guarantees.
use sesame.Common.{
  AllTwo, ◌==◌, ==_iff, nat_eq, string_eq, Bytes, bytes_eq, Bool-cases, Option-cases, ℕ, ◌+◌, ◌^◌,
  ◌≤◌, ◌<◌, ◌≡◌, refl, sym, ap, ◌∙◌, ◌↔◌, ◌⊎◌, inl, inr, Bool, true, false, Option, none, some,
  List, [], ◌∷◌, ◌++◌, arith,
}
use mathlib.Core.Path.{subst}
use sesame.Api.Match as Api
use sesame.Dag.Conditions.Header.{header_match_conditions}
use sesame.Common.Assoc.{Map}
use sesame.Common.Result.{bind-ok, Result, ok, ◌>>=◌}
use sesame.Dag.Policy.Headers.{Kubernetes}
use sesame.Timeout.{Duration}
use sesame.Dag.Policy.Limits.{
  LocalRateLimitPolicy, LocalLimit, limited, LimitError, unit_interval, add_uint32,
  local_rate_limit_policy, DescriptorEntry, LimitEntry, fields_set, from_value_match, populated,
  entries_loop, descriptors_loop, global_rate_limit_policy, response_headers_loop,
}

-- The entry has one field, and the entry of the graph has the content of that field.
abbrev pub Stands : DescriptorEntry → LimitEntry → Type 0
Stands e r =
    ((key : Bytes) × (value : Bytes) × (e.generic_key ≡ some (key, value))
      × (e.request_header ≡ none)
      × (e.request_header_value_match ≡ none)
      × (e.remote_address ≡ false)
      × (r ≡ LimitEntry.generic_key key value))
    ⊎ ((name : Bytes) × (key : Bytes) × (e.request_header ≡ some (name, key))
        × (e.generic_key ≡ none)
        × (e.request_header_value_match ≡ none)
        × (e.remote_address ≡ false)
        × (r ≡ LimitEntry.header_match name key))
    ⊎ ((hs : List Api.HeaderMatchCondition) × (expect : Bool) × (value : Bytes)
        × (e.request_header_value_match ≡ some (hs, expect, value))
        × (e.generic_key ≡ none)
        × (e.request_header ≡ none)
        × (e.remote_address ≡ false)
        × (r ≡ LimitEntry.header_value_match (header_match_conditions hs) expect value))
    ⊎ ((e.remote_address ≡ true)
        × (e.generic_key ≡ none)
        × (e.request_header ≡ none)
        × (e.request_header_value_match ≡ none)
        × (r ≡ LimitEntry.remote_address))

one_field :
    (e : DescriptorEntry)
    → fields_set e ≡ 1
    → (r : LimitEntry) × (populated e ≡ r ∷ []) × Stands e r
unfolding from_value_match
one_field e one = elim (Option-cases e.generic_key) [
  | inl g ↦ elim (Option-cases e.request_header) [
    | inl h ↦ elim (Option-cases e.request_header_value_match) [
      | inl m ↦ elim (Bool-cases e.remote_address) [
        | inl a ↦
            (LimitEntry.remote_address, rw (g, h, m, a) refl, inr (inr (inr (a, g, h, m, refl))))
        | inr a ↦ absurd (ground (arith, one, g, h, m, a))
      ]
      | inr ((hs, expect, value), m) ↦ elim (Bool-cases e.remote_address) [
        | inl a ↦ absurd (ground (arith, one, g, h, m, a))
        | inr a ↦ (_, rw (g, h, m, a) refl, inr (inr (inl (hs, expect, value, m, g, h, a, refl))))
      ]
    ]
    | inr ((name, key), h) ↦ elim (Option-cases e.request_header_value_match) [
      | inl m ↦ elim (Bool-cases e.remote_address) [
        | inl a ↦ absurd (ground (arith, one, g, h, m, a))
        | inr a ↦ (_, rw (g, h, m, a) refl, inr (inl (name, key, h, g, m, a, refl)))
      ]
      | inr (hm, m) ↦ absurd (ground (arith, one, g, h, m))
    ]
  ]
  | inr ((key, value), g) ↦ elim (Option-cases e.request_header) [
    | inl h ↦ elim (Option-cases e.request_header_value_match) [
      | inl m ↦ elim (Bool-cases e.remote_address) [
        | inl a ↦ absurd (ground (arith, one, g, h, m, a))
        | inr a ↦ (_, rw (g, h, m, a) refl, inl (key, value, g, h, m, a, refl))
      ]
      | inr (hm, m) ↦ absurd (ground (arith, one, g, h, m))
    ]
    | inr (header, h) ↦ absurd (ground (arith, one, g, h))
  ]
]

Stands-one :
    (e : DescriptorEntry) (r : LimitEntry)
    → Stands e r
    → (fields_set e ≡ 1) × (populated e ≡ r ∷ [])
unfolding from_value_match
Stands-one e r (inl (key, value, g, h, m, a, same)) = rw (g, h, m, a, same) (refl, refl)
Stands-one e r (inr (inl (name, key, h, g, m, a, same))) = rw (g, h, m, a, same) (refl, refl)
Stands-one e r (inr (inr (inl (hs, expect, value, m, g, h, a, same)))) =
    rw (g, h, m, a, same) (refl, refl)
Stands-one e r (inr (inr (inr (a, g, h, m, same)))) = rw (g, h, m, a, same) (refl, refl)

entries_loop-open :
    (e : DescriptorEntry) (es : List DescriptorEntry)
    → (fields_set e == 1) ≡ true
    → entries_loop (e ∷ es) ≡ (entries_loop es >>= λ rest. ok (populated e ++ rest))
unfolding entries_loop
entries_loop-open e es one = rw (one, entries_loop) refl

entries_loop-Stands :
    (es : List DescriptorEntry) (rs : List LimitEntry)
    → entries_loop es ≡ ok rs
    → AllTwo Stands es rs
unfolding entries_loop
entries_loop-Stands [] [] h = tt
entries_loop-Stands [] (r ∷ rs) h = absurd (ground (arith, h))
entries_loop-Stands (e ∷ es) rs h = elim (Bool-cases (fields_set e == 1)) [
  | inl one ↦
      let (r, field, stands) = one_field e ((==_iff (fields_set e) 1).0 one) in
      let (rest, made, same) =
        bind-ok (entries_loop es) (λ rest. ok (populated e ++ rest)) rs
          (sym (entries_loop-open e es one) ∙ h) in
      let whole : r ∷ rest ≡ rs = sym (ap (λ t. t ++ rest) field) ∙ ground (arith, same) in
      subst (λ rs. AllTwo Stands (e ∷ es) rs) whole (stands, entries_loop-Stands es rest made)
  | inr other ↦ absurd (ground (arith, h, other))
]

Stands-entries_loop :
    (es : List DescriptorEntry) (rs : List LimitEntry)
    → AllTwo Stands es rs
    → entries_loop es ≡ ok rs
unfolding entries_loop
Stands-entries_loop [] [] h = refl
Stands-entries_loop [] (r ∷ rs) h = absurd h
Stands-entries_loop (e ∷ es) [] h = absurd h
Stands-entries_loop (e ∷ es) (r ∷ rs) (here, there) =
    let (one, made) = Stands-one e r here in
    entries_loop-open e es ((==_iff (fields_set e) 1).1 one)
    ∙ rw (Stands-entries_loop es rs there, made) refl

descriptors_loop-Stands :
    (ds : List (List DescriptorEntry)) (rs : List (List LimitEntry))
    → descriptors_loop ds ≡ ok rs
    → AllTwo (AllTwo Stands) ds rs
unfolding descriptors_loop
descriptors_loop-Stands [] [] h = tt
descriptors_loop-Stands [] (r ∷ rs) h = absurd (ground (arith, h))
descriptors_loop-Stands (d ∷ ds) rs h =
    let (first, made, h) = bind-ok (entries_loop d) _ rs h in
    let (rest, others, same) = bind-ok (descriptors_loop ds) _ rs h in
    let whole : first ∷ rest ≡ rs = ground (arith, same) in
    subst (λ rs. AllTwo (AllTwo Stands) (d ∷ ds) rs) whole
      (entries_loop-Stands d first made, descriptors_loop-Stands ds rest others)

Stands-descriptors_loop :
    (ds : List (List DescriptorEntry)) (rs : List (List LimitEntry))
    → AllTwo (AllTwo Stands) ds rs
    → descriptors_loop ds ≡ ok rs
unfolding descriptors_loop
Stands-descriptors_loop [] [] h = refl
Stands-descriptors_loop [] (r ∷ rs) h = absurd h
Stands-descriptors_loop (d ∷ ds) [] h = absurd h
Stands-descriptors_loop (d ∷ ds) (r ∷ rs) (here, there) =
    rw (Stands-entries_loop d r here, Stands-descriptors_loop ds rs there) refl

-- A global rate limit is accepted, with a result, exactly where descriptor by descriptor and entry by
-- entry, in order, each entry of the source has one field set, and the entry of the result is of the
-- kind of that field and has its content.
pub global_rate_limit_policy_iff :
    (ds : List (List DescriptorEntry)) (rs : List (List LimitEntry))
    → (global_rate_limit_policy (some ds) ≡ ok (some rs)) ↔ AllTwo (AllTwo Stands) ds rs
unfolding global_rate_limit_policy
global_rate_limit_policy_iff ds rs = (
  λ h.
      let (made, e, same) = bind-ok (descriptors_loop ds) _ (some rs) h in
      descriptors_loop-Stands ds rs (e ∙ ap (λ t. ok t) (ground (arith, same))),
  λ h. rw (Stands-descriptors_loop ds rs h) refl,
)

fits_iff : (a b : ℕ) → a < 2 ^ 32 → b < 2 ^ 32 → (a ≤ add_uint32 a b) ↔ (a + b < 2 ^ 32)
unfolding add_uint32
fits_iff a b ha hb = (λ h. omega arith, λ h. omega arith)

abbrev limit_result : LocalLimit → Result LimitError (Option LocalLimit)
limit_result l = ok (some l)

limit-injective : (l m : LocalLimit) → limit_result l ≡ limit_result m → l ≡ m
limit-injective l m e = ground arith

module _ (k8s : Kubernetes) where
  limited-open :
      (p : LocalRateLimitPolicy) (interval : Duration)
      → (p.requests == 0) ≡ false
      → unit_interval p.unit ≡ some interval
      → local_rate_limit_policy k8s (some p) ≡ (
          response_headers_loop k8s [] p.response_headers_to_add >>= λ headers.
          limit_result (limited p interval headers))
  unfolding local_rate_limit_policy
  limited-open p interval z e = rw (z, e) refl

  limited-cases :
      (p : LocalRateLimitPolicy) (l : LocalLimit)
      → local_rate_limit_policy k8s (some p) ≡ ok (some l)
      → (0 < p.requests)
        × ((interval : Duration) × (headers : Map Bytes Bytes) × (unit_interval p.unit
              ≡ some interval)
            × (limited p interval headers ≡ l))
  unfolding local_rate_limit_policy
  limited-cases p l h = elim (Bool-cases (p.requests == 0)) [
    | inl z ↦ absurd (ground (arith, h, z))
    | inr z ↦ elim (Option-cases (unit_interval p.unit)) [
      | inl none_is ↦ absurd (ground (arith, h, z, none_is))
      | inr (interval, e) ↦
          let (headers, _, same) =
            bind-ok (response_headers_loop k8s [] p.response_headers_to_add) _ (some l)
              (sym (limited-open p interval z e) ∙ h) in
          (
            ground (arith, z, ==_iff p.requests 0),
            (interval, headers, e, limit-injective (limited p interval headers) l same),
          )
    ]
  ]

  -- An accepted local rate limit fills in the requests of its interval, which is that of its unit,
  -- and more than zero of them. It can hold that many tokens exactly where requests and burst
  -- together are below 2 ^ 32: beyond that the maximum wraps around to less than one fill.
  pub local_rate_limit_policy-tokens :
      (p : LocalRateLimitPolicy) (l : LocalLimit)
      → local_rate_limit_policy k8s (some p) ≡ ok (some l)
      → p.requests < 2 ^ 32
      → p.burst < 2 ^ 32
      → (0 < l.tokens_per_fill)
        × (l.tokens_per_fill ≡ p.requests)
        × (unit_interval p.unit ≡ some l.fill_interval)
        × ((l.tokens_per_fill ≤ l.max_tokens) ↔ (p.requests + p.burst < 2 ^ 32))
  unfolding limited
  local_rate_limit_policy-tokens p l h hr hb =
      let (positive, (interval, headers, e, same)) = limited-cases p l h in
      subst
        (λ l.
          (0 < l.tokens_per_fill)
          × (l.tokens_per_fill ≡ p.requests)
          × (unit_interval p.unit ≡ some l.fill_interval)
          × ((l.tokens_per_fill ≤ l.max_tokens) ↔ (p.requests + p.burst < 2 ^ 32)))
        same (positive, refl, e, fits_iff p.requests p.burst hr hb)
