-- ===== src/Dag/Proxy/Checks.antt =====
-- internal/dag/httpproxy_processor.go: the fields of HTTPProxyProcessor, what it uses of other
-- code, and the early returns that leave an error in a condition.
use sesame.Common.{
  nat_eq, string_eq, Bytes, bytes_eq, ℕ, String, Bool, true, false, Option, none, some, List,
}
use sesame.Common.Result.{Result, ok, err}
use sesame.Common.Integer.{ℤ}
use sesame.Timeout.{Duration, TimeoutError}
use sesame.Status.Proxy.{NamespacedName}
use sesame.Api.Status.{DetailedCondition, add_error, add_warning}
use sesame.Dag.Conditions.Path.{PathError}
use sesame.Dag.Conditions.Header.{HeaderError}
use sesame.Dag.Policy.Headers.{Kubernetes, Headers, HeadersError}
use sesame.Dag.Policy.Cookies.{CookieError, ReplacementError}
use sesame.Dag.Policy.Timeouts.{PolicyTimeoutError}
use sesame.Dag.Policy.Limits.{LimitError}
use sesame.Dag.Policy.Balancing.{HashWarning}
use sesame.Dag.Services.{EnsureError}
use sesame.Dag.Proxy.Parts.{CorsError}
use sesame.Dag.Cache.Lookups.{UpstreamError}
use sesame.Dag.Cache.Operations.{SecretLookupError}

-- HTTPProxyProcessor, but for the graph, the cache and the orphans of a run
pub record Processor : Type 0 where
  pub disable_permit_insecure : Bool
  pub fallback_certificate : Option NamespacedName
  pub enable_external_name_service : Bool
  pub dns_lookup_family : Bytes
  pub client_certificate : Option NamespacedName
  pub request_headers_policy : Option Headers
  pub response_headers_policy : Option Headers

-- a value that a message is made of
pub data Argument : Type 0 where
  text : Bytes → Argument
  number : ℤ → Argument
  full_name : NamespacedName → Argument
  path_error : PathError → Argument
  header_error : HeaderError → Argument
  headers_error : HeadersError → Argument
  cookie_error : CookieError → Argument
  timeout_error : TimeoutError → Argument
  policy_timeout_error : PolicyTimeoutError → Argument
  limit_error : LimitError → Argument
  replacement_error : ReplacementError → Argument
  hash_warning : HashWarning → Argument
  ensure_error : EnsureError → Argument
  upstream_error : UpstreamError → Argument
  secret_error : SecretLookupError → Argument
  cors_error : CorsError → Argument

-- Code of other packages: the header rules of Kubernetes, time.ParseDuration, regexp.QuoteMeta,
-- fmt.Sprintf with the String and Error methods of its arguments, and a reading of the clock.
pub record Environment : Type 0 where
  pub kubernetes : Kubernetes
  pub parse_duration : Bytes → Option Duration
  pub quote_meta : Bytes → Bytes
  pub sprintf : String → List Argument → Bytes
  pub now : ℕ

-- A body with early returns, on a state that it changes: `none` where it has returned.
abbrev pub Check : Type 0 → Type 0 → Type 0
Check S A = S → S × Option A

module _ {S : Type 0} where
  abbrev pub bound : {A B : Type 0} → (A → Check S B) → S × Option A → S × Option B
  bound f (s, none) = (s, none)
  bound f (s, some a) = f a s

  infixl 5 ◌>>=◌ ◌>>◌
  unfoldable pub ◌>>=◌ : {A B : Type 0} → Check S A → (A → Check S B) → Check S B
  ◌>>=◌ m f s = bound f (m s)

  abbrev pub ◌>>◌ : {B : Type 0} → Check S (Unit {0}) → Check S B → Check S B
  m >> k = m >>= λ _. k

  abbrev pub pass : {A : Type 0} → A → Check S A
  pass a s = (s, some a)

-- AddError, AddWarning, and an error followed by a return
abbrev pub complain : String → String → Bytes → Check DetailedCondition (Unit {0})
complain error_type reason message dc = (add_error error_type reason message dc, some tt)

abbrev pub warn : String → String → Bytes → Check DetailedCondition (Unit {0})
warn warn_type reason message dc = (add_warning warn_type reason message dc, some tt)

abbrev pub fail : {A : Type 0} → String → String → Bytes → Check DetailedCondition A
fail error_type reason message dc = (add_error error_type reason message dc, none)

abbrev pub fail_if : Bool → String → String → Bytes → Check DetailedCondition (Unit {0})
fail_if true error_type reason message = fail error_type reason message
fail_if false error_type reason message = pass tt

-- `if err != nil`, with the message that is made of the error
abbrev pub fail_on :
    {E : Type 0} → Option E → String → String → (E → Bytes) → Check DetailedCondition (Unit {0})
fail_on none error_type reason message = pass tt
fail_on (some e) error_type reason message = fail error_type reason (message e)

abbrev pub or_fail :
    {E A : Type 0} → Result E A → String → String → (E → Bytes) → Check DetailedCondition A
or_fail (ok a) error_type reason message = pass a
or_fail (err e) error_type reason message = fail error_type reason (message e)
