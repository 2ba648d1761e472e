-- ===== src/Dag/Cache.antt =====
-- internal/dag/cache.go: the cache of Kubernetes objects. Logging is left out.
pub mod Objects
pub mod Triggers
pub mod Operations
pub mod Lookups
pub mod Secrets
pub mod Delegation
pub mod Tests
