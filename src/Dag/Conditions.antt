-- ===== src/Dag/Conditions.antt =====
-- internal/dag/conditions.go: merging and validating the match conditions of includes and routes.
-- An error is `some e`; `nil` is `none`.
pub mod Path
pub mod Header
pub mod Tests
