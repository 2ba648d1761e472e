-- ===== src/Dag.antt =====
-- internal/dag: from Kubernetes objects to the graph of virtual hosts, routes and clusters.
pub mod Match
pub mod Conditions
pub mod Secret
pub mod Policy
pub mod Cache
pub mod Graph
pub mod Services
pub mod Proxy
