-- ===== src/Dag/Policy/Balancing.antt =====
-- internal/dag/policy.go: loadBalancerPolicy and loadBalancerRequestHashPolicies. A warning that
-- the source adds to the Valid condition is an entry of the list of warnings, in order; its text is
-- not modelled. validation.IsHTTPHeaderName of Kubernetes is the parameter `is_http_header_name`,
-- true where it has no message.
pub mod Selecting
pub mod Hashing
use sesame.Common.{
  ◌==◌, nat_eq, string_eq, list_beq, member, Bytes, bytes_eq, if◌then◌else◌, ℕ, Bool, true, false,
  not, ◌||◌, Option, none, some, List, [], ◌∷◌, ◌++◌,
}
use sesame.Common.Text.{bytes}
use sesame.Common.Header.{canonical_header_key}

-- RequestHashPolicy and LoadBalancerPolicy of apis/projectsesame/v1/httpproxy.go
pub record RequestHashPolicy : Type 0 where
  pub terminal : Bool
  pub header_hash_options : Option Bytes
  pub hash_source_ip : Bool

pub record LoadBalancerPolicy : Type 0 where
  pub strategy : Bytes
  pub request_hash_policies : List RequestHashPolicy

-- RequestHashPolicy of internal/dag/dag.go
pub record CookieHashOptions : Type 0 where
  pub cookie_name : Bytes
  pub ttl : ℕ
  pub path : Bytes

pub record HashPolicy : Type 0 where
  pub terminal : Bool
  pub header_name : Option Bytes
  pub cookie_hash_options : Option CookieHashOptions
  pub hash_source_ip : Bool

abbrev pub weighted_least_request : Bytes
weighted_least_request = bytes "WeightedLeastRequest"

abbrev pub random : Bytes
random = bytes "Random"

abbrev pub round_robin : Bytes
round_robin = bytes "RoundRobin"

abbrev pub cookie : Bytes
cookie = bytes "Cookie"

abbrev pub request_hash : Bytes
request_hash = bytes "RequestHash"

unfoldable pub load_balancer_policy : Option LoadBalancerPolicy → Bytes
unfolding list_beq
load_balancer_policy none = []
load_balancer_policy (some lbp) =
    if lbp.strategy == weighted_least_request
      || (lbp.strategy == random || (lbp.strategy == cookie || lbp.strategy == request_hash))
    then lbp.strategy
    else []

pub data HashWarning : Type 0 where
  not_exactly_one source_ip_again no_policy_left : HashWarning
  invalid_header duplicated_header : Bytes → HashWarning

-- what a round of the loop does with a policy
pub data HashRound : Type 0 where
  ignore : HashWarning → HashRound
  by_source_ip : HashRound
  by_header : Bytes → HashRound

abbrev pub hashed : Bool → Option Bytes → Bool → HashPolicy
hashed terminal header source_ip = record {
  terminal = terminal;
  header_name = header;
  cookie_hash_options = none;
  hash_source_ip = source_ip;
}

abbrev session_affinity : HashPolicy
session_affinity = record {
  terminal = false;
  header_name = none;
  cookie_hash_options =
      some record { cookie_name = bytes "X-Sesame-Session-Affinity"; ttl = 0; path = bytes "/" };
  hash_source_ip = false;
}

module _ (is_http_header_name : Bytes → Bool) where
  -- `source_ip_set` is hashSourceIPSet and `seen` the keys of headerHashPolicies.
  hash_round : Bool → List Bytes → Bool → Option Bytes → HashRound
  unfolding member canonical_header_key
  hash_round source_ip_set seen false none = ignore not_exactly_one
  hash_round source_ip_set seen true (some name) = ignore not_exactly_one
  hash_round source_ip_set seen true none =
      if source_ip_set then ignore source_ip_again else by_source_ip
  hash_round source_ip_set seen false (some name) =
      let key = canonical_header_key name in
      if not (is_http_header_name key)
      then ignore (invalid_header key)
      else if member key seen
      then ignore (duplicated_header key)
      else by_header key

  pub hash_loop : Bool → List Bytes → List RequestHashPolicy → List HashPolicy × List HashWarning
  hash_loop source_ip_set seen [] = ([], [])
  hash_loop source_ip_set seen (p ∷ ps) =
      elim (hash_round source_ip_set seen p.hash_source_ip p.header_hash_options) [
        | ignore w ↦ let (rs, ws) = hash_loop source_ip_set seen ps in (rs, w ∷ ws)
        | by_source_ip ↦
            let (rs, ws) = hash_loop true seen ps in (hashed p.terminal none true ∷ rs, ws)
        | by_header key ↦
            let (rs, ws) = hash_loop source_ip_set (key ∷ seen) ps in
            (hashed p.terminal (some key) false ∷ rs, ws)
      ]

  -- the case of the strategy RequestHash, after the loop
  fall_back : List HashPolicy → List HashWarning → List HashPolicy × Bytes × List HashWarning
  fall_back [] ws = ([], round_robin, ws ++ no_policy_left ∷ [])
  fall_back (r ∷ rs) ws = (r ∷ rs, request_hash, ws)

  unfoldable pub load_balancer_request_hash_policies :
      Option LoadBalancerPolicy → List HashPolicy × Bytes × List HashWarning
  unfolding hash_round hash_loop fall_back load_balancer_policy list_beq
  load_balancer_request_hash_policies none = ([], [], [])
  load_balancer_request_hash_policies (some lbp) =
      let strategy = load_balancer_policy (some lbp) in
      if strategy == cookie
      then (session_affinity ∷ [], cookie, [])
      else if strategy == request_hash
      then (let (rs, ws) = hash_loop false [] lbp.request_hash_policies in fall_back rs ws)
      else ([], strategy, [])
