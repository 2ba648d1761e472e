-- ===== src/Dag/Policy/Limits.antt =====
-- internal/dag/policy.go: rateLimitPolicy, localRateLimitPolicy and globalRateLimitPolicy.
pub mod Tokens
use sesame.Common.{
  ◌==◌, nat_eq, string_eq, list_beq, Bytes, bytes_eq, if◌then◌else◌, length, ℕ, ◌+◌, ◌-◌, ◌/◌, ◌%◌,
  ◌^◌, Bool, true, false, Option, none, some, List, [], ◌∷◌, ◌++◌,
}
use sesame.Common.Text.{bytes}
use sesame.Common.Assoc.{Map, lookup, insert}
use sesame.Common.Integer.{ℤ, pos}
use sesame.Common.Header.{canonical_header_key}
use sesame.Common.Result.{Result, ok, err, ◌>>=◌, consed}
use sesame.Timeout.{Duration}
use sesame.Api.Match as Api
use sesame.Dag.Match.{HeaderMatchCondition}
use sesame.Dag.Conditions.Header.{header_match_conditions}
use sesame.Dag.Policy.Headers.{Kubernetes, HeaderValue, canonical, escape_header_value}

-- LocalRateLimitPolicy of apis/projectsesame/v1/httpproxy.go; the numbers are below 2 ^ 32
pub record LocalRateLimitPolicy : Type 0 where
  pub requests : ℕ
  pub unit : Bytes
  pub burst : ℕ
  pub response_status_code : ℕ
  pub response_headers_to_add : List HeaderValue

-- LocalRateLimitPolicy of internal/dag/dag.go
pub record LocalLimit : Type 0 where
  pub max_tokens : ℕ
  pub tokens_per_fill : ℕ
  pub fill_interval : Duration
  pub response_status_code : ℕ
  pub response_headers_to_add : Map Bytes Bytes

pub data LimitError : Type 0 where
  invalid_requests : ℕ → LimitError
  invalid_unit duplicate_header invalid_header : Bytes → LimitError
  not_exactly_one_field : LimitError

-- the switch on the unit, in nanoseconds
unfoldable pub unit_interval : Bytes → Option Duration
unfolding list_beq
unit_interval u =
    if u == bytes "second"
    then some (pos 1000000000)
    else if u == bytes "minute"
    then some (pos 60000000000)
    else if u == bytes "hour"
    then some (pos 3600000000000)
    else none

-- uint32 addition
unfoldable pub add_uint32 : ℕ → ℕ → ℕ
add_uint32 a b = (a + b) % 2 ^ 32

-- RateLimitDescriptorEntry of the API; a remote address has no content
pub record DescriptorEntry : Type 0 where
  pub generic_key : Option (Bytes × Bytes)
  pub request_header : Option (Bytes × Bytes)
  pub request_header_value_match : Option (List Api.HeaderMatchCondition × Bool × Bytes)
  pub remote_address : Bool

-- RateLimitDescriptorEntry of the graph, which has one field
pub data LimitEntry : Type 0 where
  generic_key header_match : Bytes → Bytes → LimitEntry
  header_value_match : List HeaderMatchCondition → Bool → Bytes → LimitEntry
  remote_address : LimitEntry

abbrev pub from_generic_key : Option (Bytes × Bytes) → List LimitEntry
from_generic_key none = []
from_generic_key (some (key, value)) = LimitEntry.generic_key key value ∷ []

abbrev pub from_request_header : Option (Bytes × Bytes) → List LimitEntry
from_request_header none = []
from_request_header (some (name, key)) = LimitEntry.header_match name key ∷ []

abbrev pub from_value_match :
    Option (List Api.HeaderMatchCondition × Bool × Bytes) → List LimitEntry
unfolding header_match_conditions
from_value_match none = []
from_value_match (some (hs, expect, value)) =
    LimitEntry.header_value_match (header_match_conditions hs) expect value ∷ []

abbrev if_set {ℓ} : {A : Type ℓ} → Option A → ℕ
if_set none = 0
if_set (some a) = 1

-- `set` at the end of a round
abbrev pub fields_set : DescriptorEntry → ℕ
fields_set e =
    if_set e.generic_key
    + if_set e.request_header
    + if_set e.request_header_value_match
    + (if e.remote_address then 1 else 0)

-- what a round appends to the entries
abbrev pub populated : DescriptorEntry → List LimitEntry
populated e =
    from_generic_key e.generic_key
    ++ (from_request_header e.request_header
        ++ (from_value_match e.request_header_value_match
            ++ (if e.remote_address then LimitEntry.remote_address ∷ [] else [])))

entries_loop : List DescriptorEntry → Result LimitError (List LimitEntry)
entries_loop [] = ok []
entries_loop (e ∷ es) = elim (fields_set e == 1) [
  | false ↦ err not_exactly_one_field
  | true ↦ entries_loop es >>= λ rest. ok (populated e ++ rest)
]

descriptors_loop : List (List DescriptorEntry) → Result LimitError (List (List LimitEntry))
unfolding entries_loop
descriptors_loop [] = ok []
descriptors_loop (d ∷ ds) =
    entries_loop d >>= λ entries. descriptors_loop ds >>= λ rest. ok (entries ∷ rest)

unfoldable pub global_rate_limit_policy :
    Option (List (List DescriptorEntry)) → Result LimitError (Option (List (List LimitEntry)))
unfolding descriptors_loop
global_rate_limit_policy none = ok none
global_rate_limit_policy (some ds) = descriptors_loop ds >>= λ rs. ok (some rs)

-- the policy that localRateLimitPolicy builds
abbrev pub limited : LocalRateLimitPolicy → Duration → Map Bytes Bytes → LocalLimit
unfolding add_uint32
limited p interval headers = record {
  max_tokens = add_uint32 p.requests p.burst;
  tokens_per_fill = p.requests;
  fill_interval = interval;
  response_status_code = p.response_status_code;
  response_headers_to_add = headers;
}

module _ (k8s : Kubernetes) where
  -- the loop over the response headers to add
  response_headers_loop : Map Bytes Bytes → List HeaderValue → Result LimitError (Map Bytes Bytes)
  unfolding lookup insert escape_header_value
  response_headers_loop added [] = ok added
  response_headers_loop added (h ∷ hs) = elim (lookup (canonical h) added) [
    | some v ↦ err (duplicate_header (canonical h))
    | none ↦ elim (k8s.is_http_header_name (canonical h)) [
      | false ↦ err (invalid_header (canonical h))
      | true ↦
          response_headers_loop (insert (canonical h) (escape_header_value h.value []) added) hs
    ]
  ]

  unfoldable pub local_rate_limit_policy :
      Option LocalRateLimitPolicy → Result LimitError (Option LocalLimit)
  unfolding unit_interval add_uint32 response_headers_loop
  local_rate_limit_policy none = ok none
  local_rate_limit_policy (some p) =
      if p.requests == 0 then err (invalid_requests p.requests) else elim (unit_interval p.unit) [
        | none ↦ err (invalid_unit p.unit)
        | some interval ↦ response_headers_loop [] p.response_headers_to_add >>= λ headers.
            ok (some (limited p interval headers))
      ]

  -- a rate limit policy is its local and its global part
  unfoldable pub rate_limit_policy :
      Option (Option LocalRateLimitPolicy × Option (List (List DescriptorEntry)))
      → Result LimitError (Option (Option LocalLimit × Option (List (List LimitEntry))))
  unfolding local_rate_limit_policy global_rate_limit_policy
  rate_limit_policy none = ok none
  rate_limit_policy (some (none, none)) = ok none
  rate_limit_policy (some (l, g)) = local_rate_limit_policy l >>= λ limit.
      global_rate_limit_policy g >>= λ descriptors. ok (some (limit, descriptors))
