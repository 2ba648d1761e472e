-- ===== src/Status.antt =====
-- internal/status: the status updates that a run of the processors collects.
pub mod Proxy
pub mod Tests
