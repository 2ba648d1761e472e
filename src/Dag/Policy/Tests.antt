-- ===== src/Dag/Policy/Tests.antt =====
-- Runs of the policy functions of internal/dag/policy.go.
use sesame.Common.{
  AllTwo, nat_eq, string_eq, list_beq, Bytes, bytes_eq, ltb, if◌then◌else◌, length, All, ◌+◌, ◌^◌,
  ◌≤◌, ◌<◌, ◌≡◌, refl, ◌↔◌, true, false, Option, none, some, List, [], ◌∷◌, map, arith,
}
use sesame.Common.Text.{bytes}
use sesame.Common.Integer.{pos}
use sesame.Common.Header.{canonical_header_key}
use sesame.Common.Distinct.{Distinct}
use sesame.Common.Result.{ok}
use sesame.Timeout.{Duration}
use sesame.Dag.Policy.Cookies.{
  Converts, CookieRewritePolicy, cookie_rewrite_policies, cookie_rewrite_policies_iff, cookie_name,
  cookie_rewrite, Rewrites, ReplacePrefix, replaced, prefix_replacements_are_valid,
  prefix_replacements_are_valid_iff,
}
use sesame.Dag.Policy.Balancing.{
  RequestHashPolicy, load_balancer_request_hash_policies, request_hash,
}
use sesame.Dag.Policy.Balancing.Hashing.{IsHashing, request_hash_policies-IsHashing}
use sesame.Common.Assoc.{lookup}
use sesame.Dag.Policy.Headers.Gateway.{
  HeaderFilter, headers_policy_gateway_api, is_settable, first_value,
  headers_policy_gateway_api-lookup,
}
use sesame.Dag.Policy.Headers.{
  Kubernetes, HeadersPolicy, Headers, escape_header_value, headers_policy_route,
  headers_policy_service, or_empty,
}
use sesame.Dag.Policy.Headers.Sets.{IsClean, Keeps, headers_policy_service-user_wins}
use sesame.Dag.Policy.Limits.{
  LimitEntry, LocalRateLimitPolicy, limited, local_rate_limit_policy, DescriptorEntry,
  global_rate_limit_policy, unit_interval,
}
use sesame.Dag.Policy.Limits.Tokens.{
  Stands, global_rate_limit_policy_iff, local_rate_limit_policy-tokens,
}

abbrev no_durations : Bytes → Option Duration
no_durations s = none

abbrev k8s : Kubernetes
k8s = record { is_http_header_name = λ name. ltb 0 (length name); sorted = λ names. names }

abbrev secure_cookie : Bytes → CookieRewritePolicy
secure_cookie name = record {
  name = name;
  path_rewrite = none;
  domain_rewrite = none;
  secure = some true;
  same_site = none;
}

abbrev cookies : List CookieRewritePolicy
cookies = secure_cookie (bytes "a") ∷ secure_cookie (bytes "b") ∷ []

cookie_rewrite_policies_iff_example :
    (cookie_rewrite_policies cookies ≡ ok (map cookie_rewrite cookies)) ↔ (
      Distinct (map cookie_name cookies)
      × All Rewrites cookies
      × AllTwo Converts cookies (map cookie_rewrite cookies))
cookie_rewrite_policies_iff_example =
    cookie_rewrite_policies_iff cookies (map cookie_rewrite cookies)

abbrev replacements : List ReplacePrefix
replacements =
    record { prefix = []; replacement = bytes "/" }
    ∷ record { prefix = bytes "/a"; replacement = bytes "/b" }
    ∷ []

prefix_replacements_are_valid_iff_example :
    (prefix_replacements_are_valid replacements ≡ none) ↔ Distinct (map replaced replacements)
prefix_replacements_are_valid_iff_example = prefix_replacements_are_valid_iff replacements

abbrev hashes : List RequestHashPolicy
hashes =
    record { terminal = true; header_hash_options = some (bytes "x-id"); hash_source_ip = false }
    ∷ record { terminal = false; header_hash_options = some (bytes "X-Id"); hash_source_ip = false }
    ∷ []

request_hash_policies-IsHashing_example : IsHashing k8s.is_http_header_name hashes (
    load_balancer_request_hash_policies k8s.is_http_header_name
      (some record { strategy = request_hash; request_hash_policies = hashes }))
request_hash_policies-IsHashing_example =
    request_hash_policies-IsHashing k8s.is_http_header_name hashes

-- A literal percent sign is doubled, a request header and an Envoy variable are not.
escape_example :
    escape_header_value (bytes "5% %REQ(x-id)% %HOSTNAME%") [] ≡ bytes "5%% %REQ(x-id)% %HOSTNAME%"
unfolding escape_header_value
escape_example = refl

canonical_example : canonical_header_key (bytes "x-request-ID") ≡ bytes "X-Request-Id"
unfolding canonical_header_key
canonical_example = refl

abbrev defaults : Headers
defaults = record {
  host_rewrite = [];
  add = [];
  set = (bytes "x-a", bytes "1") ∷ (bytes "X-B", bytes "2") ∷ [];
  remove = bytes "x-c" ∷ [];
}

abbrev user_policy : HeadersPolicy
user_policy = record { set = record { name = bytes "x-a"; value = bytes "7" } ∷ []; remove = [] }

abbrev served : Headers
served = record {
  host_rewrite = [];
  add = [];
  set = (bytes "X-A", bytes "7") ∷ (bytes "X-B", bytes "2") ∷ [];
  remove = bytes "X-C" ∷ [];
}

service_example :
    headers_policy_service k8s [] (some defaults) (some user_policy) ≡ ok (some served)
unfolding headers_policy_service list_beq
service_example = refl

headers_policy_service-user_wins_example :
    (user : Option Headers) × (headers_policy_route k8s [] (some user_policy) false ≡ ok user)
    × IsClean k8s served.set
    × Keeps (or_empty k8s [] user).set served.set
headers_policy_service-user_wins_example =
    headers_policy_service-user_wins k8s [] defaults (some user_policy) served service_example

abbrev local_policy : LocalRateLimitPolicy
local_policy = record {
  requests = 10;
  unit = bytes "minute";
  burst = 5;
  response_status_code = 429;
  response_headers_to_add = [];
}

local_example :
    local_rate_limit_policy k8s (some local_policy)
    ≡ ok (some (limited local_policy (pos 60000000000) []))
unfolding local_rate_limit_policy list_beq
local_example = refl

local_rate_limit_policy-tokens_example :
    (0 < (limited local_policy (pos 60000000000) []).tokens_per_fill)
    × ((limited local_policy (pos 60000000000) []).tokens_per_fill ≡ 10)
    × (unit_interval (bytes "minute")
        ≡ some (limited local_policy (pos 60000000000) []).fill_interval)
    × (((limited local_policy (pos 60000000000) []).tokens_per_fill
          ≤ (limited local_policy (pos 60000000000) []).max_tokens)
        ↔ (10 + 5 < 2 ^ 32))
local_rate_limit_policy-tokens_example =
    local_rate_limit_policy-tokens k8s local_policy (limited local_policy (pos 60000000000) [])
      local_example (omega arith) (omega arith)

abbrev keyed : DescriptorEntry
keyed = record {
  generic_key = some (bytes "k", bytes "v");
  request_header = none;
  request_header_value_match = none;
  remote_address = false;
}

global_rate_limit_policy_iff_example :
    (global_rate_limit_policy (some ((keyed ∷ []) ∷ []))
      ≡ ok (some ((LimitEntry.generic_key (bytes "k") (bytes "v") ∷ []) ∷ [])))
    ↔ AllTwo
        (AllTwo Stands)
        ((keyed ∷ []) ∷ [])
        ((LimitEntry.generic_key (bytes "k") (bytes "v") ∷ []) ∷ [])
global_rate_limit_policy_iff_example =
    global_rate_limit_policy_iff ((keyed ∷ []) ∷ [])
      ((LimitEntry.generic_key (bytes "k") (bytes "v") ∷ []) ∷ [])

-- The name is given twice, in two spellings.
abbrev header_filter : HeaderFilter
header_filter = record {
  set =
      record { name = bytes "x-a"; value = bytes "1" }
      ∷ record { name = bytes "X-A"; value = bytes "2" }
      ∷ [];
  add = [];
  remove = [];
}

headers_policy_gateway_api-lookup_example :
    (lookup (bytes "X-A") (headers_policy_gateway_api k8s header_filter).0.set ≡ (
      if is_settable k8s (bytes "X-A")
      then first_value k8s (bytes "X-A") header_filter.set
      else none))
    × (lookup (bytes "X-A") (headers_policy_gateway_api k8s header_filter).0.add ≡ (
        if is_settable k8s (bytes "X-A")
        then first_value k8s (bytes "X-A") header_filter.add
        else none))
headers_policy_gateway_api-lookup_example =
    headers_policy_gateway_api-lookup k8s header_filter (bytes "X-A")
