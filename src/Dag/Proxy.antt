-- ===== src/Dag/Proxy.antt =====
-- internal/dag/httpproxy_processor.go: the processor that turns HTTPProxies into the graph.
pub mod Checks
pub mod Parts
pub mod Prefixes
pub mod Backends
pub mod Routes
pub mod Includes
pub mod Chains
pub mod Tls
pub mod Hosts
pub mod Roots
pub mod Runs
pub mod Triples
pub mod Serving
pub mod Expansion
pub mod Routing
pub mod Reach
pub mod Soundness
pub mod Termination
pub mod Following
pub mod Securing
pub mod Running
pub mod Completing
pub mod Grouping
pub mod Rewriting
pub mod Adjoining
pub mod Owning
pub mod Keeping
pub mod Tests
