-- ===== src/Dag/Policy/Timeouts.antt =====
-- internal/dag/policy.go: retryOn, retryPolicy and timeoutPolicy.
use sesame.Common.{
  ◌==◌, nat_eq, string_eq, Bytes, bytes_eq, if◌then◌else◌, ℕ, suc, ◌-◌, ◌^◌, ◌<◌, ◌≡◌, ◌↔◌, ◌||◌,
  Option, none, some, List, [], ◌∷◌, arith,
}
use sesame.Common.Text.{bytes, join}
use sesame.Common.Integer.{ℤ, pos, negsuc, to_uint32, int_eq}
use sesame.Common.Result.{Result, ok, err, ◌>>=◌}
use sesame.Timeout.{Duration, Setting, default_setting, duration_setting, TimeoutError, parse}

-- RetryPolicy of apis/projectsesame/v1/httpproxy.go
pub record RetryPolicy : Type 0 where
  pub num_retries : ℤ
  pub per_try_timeout : Bytes
  pub retry_on : List Bytes
  pub retriable_status_codes : List ℕ

-- RetryPolicy of internal/dag/dag.go
pub record Retries : Type 0 where
  pub retry_on : Bytes
  pub retriable_status_codes : List ℕ
  pub num_retries : ℕ
  pub per_try_timeout : Setting

abbrev pub retry_on_text : List Bytes → Bytes
unfolding join
retry_on_text [] = bytes "5xx"
retry_on_text (v ∷ vs) = join (bytes ",") (v ∷ vs)

-- the switch on NumRetries and the conversion to uint32
unfoldable pub retry_count : ℤ → ℕ
unfolding to_uint32
retry_count n =
    if n == negsuc 0
    then to_uint32 (pos 0)
    else if n == pos 1 || n == pos 0
    then to_uint32 (pos 1)
    else to_uint32 n

-- TimeoutPolicy of the API and of the graph
pub record TimeoutPolicy : Type 0 where
  pub response : Bytes
  pub idle : Bytes

pub record Timeouts : Type 0 where
  pub response_timeout : Setting
  pub idle_timeout : Setting

pub data PolicyTimeoutError : Type 0 where
  response_error idle_error : TimeoutError → PolicyTimeoutError

abbrev wrapped :
    (TimeoutError → PolicyTimeoutError)
    → Result TimeoutError Setting
    → Result PolicyTimeoutError Setting
wrapped f (ok s) = ok s
wrapped f (err e) = err (f e)

both :
    (r i : Result TimeoutError Setting) (t : Timeouts)
    → ((wrapped response_error r >>= λ r.
          wrapped idle_error i >>= λ i. ok record { response_timeout = r; idle_timeout = i })
        ≡ ok t)
      ↔ ((r ≡ ok t.response_timeout) × (i ≡ ok t.idle_timeout))
both (ok r) (ok i) t = ground arith
both (ok r) (err e) t = ground arith
both (err e) i t = ground arith

module _ (parse_duration : Bytes → Option Duration) where
  abbrev pub per_try : Bytes → Setting
  unfolding duration_setting
  per_try s = elim (parse_duration s) [ none ↦ default_setting | some d ↦ duration_setting d ]

  unfoldable pub retry_policy : Option RetryPolicy → Option Retries
  unfolding retry_count duration_setting
  retry_policy none = none
  retry_policy (some rp) = some record {
    retry_on = retry_on_text rp.retry_on;
    retriable_status_codes = rp.retriable_status_codes;
    num_retries = retry_count rp.num_retries;
    per_try_timeout = per_try rp.per_try_timeout;
  }

  unfoldable pub timeout_policy : Option TimeoutPolicy → Result PolicyTimeoutError Timeouts
  unfolding parse
  timeout_policy none =
      ok record { response_timeout = default_setting; idle_timeout = default_setting }
  timeout_policy (some tp) = wrapped response_error (parse parse_duration tp.response) >>= λ r.
      wrapped idle_error (parse parse_duration tp.idle) >>= λ i.
      ok record { response_timeout = r; idle_timeout = i }

-- A count of at least -1 and below 2 ^ 32 is the number of retries, where -1 stands for none and 0
-- for one; a count below -1 wraps around to a number of retries that large.
pub retry_count-values :
    (n : ℕ)
    → n < 2 ^ 32
    → (retry_count (pos n) ≡ (if n == 0 then 1 else n))
      × (retry_count (negsuc n) ≡ (if n == 0 then 0 else 2 ^ 32 - suc n))
unfolding retry_count to_uint32
retry_count-values n h = (ground arith, ground arith)

module _ (parse_duration : Bytes → Option Duration) where
  -- A timeout policy is accepted exactly where both of its texts are, and its two settings are then
  -- those of the two texts.
  pub timeout_policy_iff :
      (tp : TimeoutPolicy) (t : Timeouts)
      → (timeout_policy parse_duration (some tp) ≡ ok t) ↔ (
          (parse parse_duration tp.response ≡ ok t.response_timeout)
          × (parse parse_duration tp.idle ≡ ok t.idle_timeout))
  unfolding timeout_policy
  timeout_policy_iff tp t = both (parse parse_duration tp.response) (parse parse_duration tp.idle) t
