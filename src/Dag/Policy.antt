-- ===== src/Dag/Policy.antt =====
-- internal/dag/policy.go: the policies of an HTTPProxy, from its API types to the graph's. An
-- error of the source is an error type per function; a nil pointer or slice is `none` or `[]`.
pub mod Timeouts
pub mod Cookies
pub mod Balancing
pub mod Headers
pub mod Limits
pub mod Health
pub mod Tests
