-- ===== src/Dag/Policy/Health.antt =====
-- internal/dag/policy.go: httpHealthCheckPolicy and tcpHealthCheckPolicy.
use sesame.Common.{nat_eq, string_eq, Bytes, bytes_eq, ℕ, Option, none, some}
use sesame.Common.Integer.{ℤ, to_uint32}
use sesame.Common.Words.{times_int64}
use sesame.Api.Proxy as Api
use sesame.Timeout.{Duration}

pub record HttpHealthCheckPolicy : Type 0 where
  pub path : Bytes
  pub host : Bytes
  pub interval : Duration
  pub timeout : Duration
  pub unhealthy_threshold : ℕ
  pub healthy_threshold : ℕ

pub record TcpHealthCheckPolicy : Type 0 where
  pub interval : Duration
  pub timeout : Duration
  pub unhealthy_threshold : ℕ
  pub healthy_threshold : ℕ

-- time.Duration(seconds) * time.Second
abbrev pub seconds : ℤ → Duration
unfolding times_int64
seconds n = times_int64 n 1000000000

unfoldable pub http_health_check_policy :
    Option Api.HttpHealthCheckPolicy → Option HttpHealthCheckPolicy
unfolding seconds to_uint32
http_health_check_policy none = none
http_health_check_policy (some hc) = some record {
  path = hc.path;
  host = hc.host;
  interval = seconds hc.interval_seconds;
  timeout = seconds hc.timeout_seconds;
  unhealthy_threshold = to_uint32 hc.unhealthy_threshold_count;
  healthy_threshold = to_uint32 hc.healthy_threshold_count;
}

unfoldable pub tcp_health_check_policy :
    Option Api.TcpHealthCheckPolicy → Option TcpHealthCheckPolicy
unfolding seconds
tcp_health_check_policy none = none
tcp_health_check_policy (some hc) = some record {
  interval = seconds hc.interval_seconds;
  timeout = seconds hc.timeout_seconds;
  unhealthy_threshold = hc.unhealthy_threshold_count;
  healthy_threshold = hc.healthy_threshold_count;
}
