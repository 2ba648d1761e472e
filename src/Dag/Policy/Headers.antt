-- ===== src/Dag/Policy/Headers.antt =====
-- internal/dag/policy.go: headersPolicyRoute, headersPolicyService and escapeHeaderValue.
-- validation.IsHTTPHeaderName and the sorted list of a string set are Kubernetes's: they are the
-- fields of `Kubernetes`. A Go map is its entries in the order in which a loop meets them.
pub mod Sets
pub mod Gateway
use sesame.Common.{
  drop, take_while, ◌==◌, nat_eq, string_eq, list_beq, member, Bytes, bytes_eq, leb, if◌then◌else◌,
  length, ℕ, zero, suc, ◌+◌, ◌-◌, ◌/◌, ◌%◌, Bool, true, false, not, ◌&&◌, ◌||◌, Option, none, some,
  List, [], ◌∷◌, ◌++◌, map,
}
use sesame.Common.Text.{bytes, has_prefix, contains, is_empty, replace_all}
use sesame.Common.Assoc.{Map, lookup, insert}
use sesame.Common.Header.{canonical_header_key}
use sesame.Common.Result.{Result, ok, err, ◌>>=◌}

-- `is_http_header_name` is true where the source gets no message; `sorted` is List of a set with
-- these elements.
pub record Kubernetes : Type 0 where
  pub is_http_header_name : Bytes → Bool
  pub sorted : List Bytes → List Bytes

-- HeaderValue and HeadersPolicy of apis/projectsesame/v1/httpproxy.go
pub record HeaderValue : Type 0 where
  pub name : Bytes
  pub value : Bytes

pub record HeadersPolicy : Type 0 where
  pub set : List HeaderValue
  pub remove : List Bytes

-- HeadersPolicy of internal/dag/dag.go; a nil map or slice is empty
pub record Headers : Type 0 where
  pub host_rewrite : Bytes
  pub add : Map Bytes Bytes
  pub set : Map Bytes Bytes
  pub remove : List Bytes

pub data HeadersError : Type 0 where
  duplicate_addition rewriting_not_supported invalid_set : Bytes → HeadersError
  duplicate_removal invalid_remove : Bytes → HeadersError

abbrev percents : Bytes
percents = bytes "%%"

-- the list of Envoy's variables
abbrev envoy_variables : List Bytes
envoy_variables = map bytes (
    "DOWNSTREAM_REMOTE_ADDRESS" ∷ "DOWNSTREAM_REMOTE_ADDRESS_WITHOUT_PORT"
    ∷ "DOWNSTREAM_LOCAL_ADDRESS" ∷ "DOWNSTREAM_LOCAL_ADDRESS_WITHOUT_PORT" ∷ "DOWNSTREAM_LOCAL_PORT"
    ∷ "DOWNSTREAM_LOCAL_URI_SAN" ∷ "DOWNSTREAM_PEER_URI_SAN" ∷ "DOWNSTREAM_LOCAL_SUBJECT"
    ∷ "DOWNSTREAM_PEER_SUBJECT" ∷ "DOWNSTREAM_PEER_ISSUER" ∷ "DOWNSTREAM_TLS_SESSION_ID"
    ∷ "DOWNSTREAM_TLS_CIPHER" ∷ "DOWNSTREAM_TLS_VERSION" ∷ "DOWNSTREAM_PEER_FINGERPRINT_256"
    ∷ "DOWNSTREAM_PEER_FINGERPRINT_1" ∷ "DOWNSTREAM_PEER_SERIAL" ∷ "DOWNSTREAM_PEER_CERT"
    ∷ "DOWNSTREAM_PEER_CERT_V_START" ∷ "DOWNSTREAM_PEER_CERT_V_END" ∷ "HOSTNAME" ∷ "PROTOCOL"
    ∷ "UPSTREAM_REMOTE_ADDRESS" ∷ "RESPONSE_FLAGS" ∷ "RESPONSE_CODE_DETAILS" ∷ [])

-- strings.ReplaceAll(escapedValue, "%%" + name + "%%", value)
abbrev unescape : Bytes → Bytes → Bytes → Bytes
unfolding replace_all
unescape name value s = replace_all b'%' (b'%' ∷ name ++ percents) value s

dynamic_loop : Map Bytes Bytes → Bytes → Bytes
dynamic_loop [] s = s
dynamic_loop ((name, value) ∷ entries) s = dynamic_loop entries (unescape name value s)

envoy_loop : List Bytes → Bytes → Bytes
envoy_loop [] s = s
envoy_loop (name ∷ names) s = envoy_loop names (unescape name (b'%' ∷ name ++ b'%' ∷ []) s)

-- a byte of the class `[\w-]`
abbrev is_word_byte : ℕ → Bool
is_word_byte c =
    (leb b'a' c && leb c b'z')
    || ((leb b'A' c && leb c b'Z') || ((leb b'0' c && leb c b'9') || (c == b'_' || c == b'-')))

-- The name in a match of the expression `%(%REQ\([\w-]+\)%)%` at the start of the text.
req_name : Bytes → Option Bytes
unfolding has_prefix
req_name s =
    let name = take_while is_word_byte (drop 6 s) in
    if has_prefix s (bytes "%%REQ(")
      && (not (is_empty name) && has_prefix (drop (6 + length name) s) (bytes ")%%"))
    then some name
    else none

-- ReplaceAllString of that expression by `$1`; the bytes of a match are counted down
req_loop : ℕ → Bytes → Bytes
unfolding req_name
req_loop skip [] = []
req_loop (suc skip) (c ∷ s) = req_loop skip s
req_loop zero (c ∷ s) = elim (req_name (c ∷ s)) [
  | none ↦ c ∷ req_loop zero s
  | some name ↦ bytes "%REQ(" ++ (name ++ (bytes ")%" ++ req_loop (8 + length name) s))
]

unfoldable pub escape_header_value : Bytes → Map Bytes Bytes → Bytes
unfolding contains replace_all dynamic_loop envoy_loop req_loop
escape_header_value value dynamic =
    if not (contains value (bytes "%"))
    then value
    else req_loop 0
        (envoy_loop envoy_variables (dynamic_loop dynamic (replace_all b'%' [] percents value)))

abbrev pub host : Bytes
host = bytes "Host"

abbrev pub canonical : HeaderValue → Bytes
unfolding canonical_header_key
canonical e = canonical_header_key e.name

module _ (k8s : Kubernetes) (dynamic : Map Bytes Bytes) where
  -- the loop over the headers to set, with the map and the host so far
  set_loop :
      Bool
      → Map Bytes Bytes
      → Bytes
      → List HeaderValue
      → Result HeadersError (Map Bytes Bytes × Bytes)
  unfolding lookup insert escape_header_value list_beq
  set_loop allow set rewrite [] = ok (set, rewrite)
  set_loop allow set rewrite (e ∷ es) =
      let key = canonical e in
      elim (lookup key set) [
        | some v ↦ err (duplicate_addition key)
        | none ↦ elim (key == host) [
          | true ↦ elim allow [
            | false ↦ err (rewriting_not_supported key)
            | true ↦ set_loop allow set e.value es
          ]
          | false ↦ elim (k8s.is_http_header_name key) [
            | false ↦ err (invalid_set key)
            | true ↦
                set_loop allow (insert key (escape_header_value e.value dynamic) set) rewrite es
          ]
        ]
      ]

  -- the loop over the headers to remove, with the set so far
  remove_loop : List Bytes → List Bytes → Result HeadersError (List Bytes)
  unfolding member canonical_header_key
  remove_loop seen [] = ok seen
  remove_loop seen (e ∷ es) =
      let key = canonical_header_key e in
      let rest = remove_loop (seen ++ key ∷ []) es in
      if member key seen
      then err (duplicate_removal key)
      else if not (k8s.is_http_header_name key)
      then err (invalid_remove key)
      else rest

  unfoldable pub headers_policy_route :
      Option HeadersPolicy → Bool → Result HeadersError (Option Headers)
  unfolding set_loop remove_loop
  headers_policy_route none allow = ok none
  headers_policy_route (some policy) allow = set_loop allow [] [] policy.set >>= λ (set, rewrite).
      remove_loop [] policy.remove >>= λ remove.
      ok (some record { host_rewrite = rewrite; add = []; set = set; remove = k8s.sorted remove })

  -- the loop over the set of the default policy
  default_set_loop : Map Bytes Bytes → Map Bytes Bytes → Result HeadersError (Map Bytes Bytes)
  unfolding lookup insert escape_header_value canonical_header_key list_beq
  default_set_loop set [] = ok set
  default_set_loop set ((k, v) ∷ entries) =
      let key = canonical_header_key k in
      elim (key == host) [
        | true ↦ err (rewriting_not_supported key)
        | false ↦ elim (k8s.is_http_header_name key) [
          | false ↦ err (invalid_set key)
          | true ↦ elim (lookup key set) [
            | some w ↦ default_set_loop set entries
            | none ↦ default_set_loop (insert key (escape_header_value v dynamic) set) entries
          ]
        ]
      ]

  -- The loop over the removals of the default policy: `remove` is the set of the user's.
  default_remove_loop : List Bytes → List Bytes → List Bytes → Result HeadersError (List Bytes)
  unfolding member canonical_header_key
  default_remove_loop remove out [] = ok out
  default_remove_loop remove out (e ∷ es) =
      let key = canonical_header_key e in
      elim (k8s.is_http_header_name key) [
        | false ↦ err (invalid_set key)
        | true ↦ default_remove_loop remove (if member key remove then out else out ++ key ∷ []) es
      ]

  abbrev pub no_headers : Headers
  no_headers = record { host_rewrite = []; add = []; set = []; remove = [] }

  abbrev pub or_empty : Option Headers → Headers
  or_empty none = no_headers
  or_empty (some h) = h

  -- `some default` is a default policy of the graph's type
  unfoldable pub headers_policy_service :
      Option Headers → Option HeadersPolicy → Result HeadersError (Option Headers)
  unfolding headers_policy_route default_set_loop default_remove_loop
  headers_policy_service none policy = headers_policy_route policy false
  headers_policy_service (some default) policy = headers_policy_route policy false >>= λ user.
      default_set_loop (or_empty user).set default.set >>= λ set.
      default_remove_loop (or_empty user).remove (or_empty user).remove default.remove >>= λ remove.
      ok (
        some record {
          host_rewrite = (or_empty user).host_rewrite;
          add = (or_empty user).add;
          set = set;
          remove = remove;
        })
