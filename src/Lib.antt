-- ===== src/Lib.antt =====
-- Sesame: an ingress controller that turns Kubernetes objects (Ingress, HTTPProxy, Gateway API,
-- Secrets, Services) into the configuration of Envoy proxies.
--
-- An event about an object reaches the cache of internal/dag, which keeps the object if it is relevant
-- and valid; the processors of internal/dag turn the cache into a graph of virtual hosts, routes and
-- clusters and collect the conditions of each HTTPProxy in the cache of internal/status, which writes
-- them back to the objects; the graph becomes Envoy resources, sorted by internal/sorter, and the
-- streams that wait in internal/sesame/cond.go are told about them.
--
-- Files and the code they model:
--   Api                     apis/projectsesame/v1: Match (match conditions), Proxy (the HTTPProxy
--                           object), Status (detailed conditions), with their methods in helpers.go
--   Timeout                 internal/timeout/timeout.go
--   Dag/Match               the match conditions of internal/dag/dag.go
--   Dag/Conditions          internal/dag/conditions.go: merging and validating match conditions
--   Dag/Secret              internal/dag/secret.go, validSecret of accessors.go, validCA of cache.go
--   Dag/Policy              internal/dag/policy.go: Timeouts (retries too), Cookies (prefix
--                           replacements too), Balancing, Headers (Gateway for the filters of the
--                           Gateway API), Limits and Health
--   Dag/Cache               internal/dag/cache.go: Objects, Operations (Insert, Remove, LookupSecret and
--                           DelegationPermitted; the classes of internal/ingressclass), Triggers,
--                           Lookups
--   Dag/Graph               the vertices of the graph, of internal/dag/dag.go
--   Dag/Services            EnsureService of internal/dag/accessors.go, with the annotations it reads
--   Dag/Proxy               internal/dag/httpproxy_processor.go: Checks (the processor, its parameters
--                           and early returns), Parts (the small functions), Prefixes
--                           (expandPrefixMatches), Backends and Routes (the loops of computeRoutes over
--                           services and routes), Includes (computeRoutes), Chains
--                           (processHTTPProxyTCPProxy), Tls, Hosts and Roots (computeHTTPProxy), Runs
--                           (validHTTPProxies and Run). Triples has the rules for bodies with early
--                           returns; the proofs are in Serving, Expansion, Grouping, Rewriting, Adjoining,
--                           Routing, Reach, Soundness, Termination, Following, Securing, Running, Completing, Owning and
--                           Keeping
--   Status/Proxy            internal/status: proxystatus.go and ProxyAccessor of cache.go
--   Notify                  internal/sesame/cond.go
--   Sorter                  internal/sorter/sorter.go
--   Common                  what they share: lists, Go strings as bytes, maps as association lists,
--                           equality and order as instances, results, integers, HTTP header names
--
-- A Go function is a function of the same name in snake case, on the state it reads, with the state
-- it writes as a result; a loop that carries variables is a function of its own, named for the
-- function it is in. A nil pointer is `none`, a nil slice or map is empty, an error is a constructor
-- of the function's own error type, without its text. A Go string is its bytes; constants that serve
-- as types of conditions are native strings. An unsigned number is a ℕ, with its wrap-around written
-- out, but for the counter of internal/sesame/cond.go. strings.ToLower is that of ASCII text. A map
-- that the source ranges over is met in the order of its list.
--
-- Fuel: only the three loops over PEM blocks of Dag/Secret run on fuel, as many rounds as the input has
-- bytes and one more; a round consumes a byte, and running out is an error value of its own, which
-- Dag/Secret/Bundles excludes. computeRoutes and processHTTPProxyTCPProxy of Dag/Proxy, which follow
-- includes, run on one round more than the cache has proxies: a round that goes on has visited one
-- proxy more. Running out is an error value of its own, as are the two panics that the code could have,
-- and Dag/Proxy/Termination, Following and Completing exclude them. The other loops are recursions on
-- their list.
--
-- Parameters, for code outside the repository: PEM decoding and the x509 parsers (`Crypto`),
-- time.ParseDuration (`parse_duration`), validation.IsHTTPHeaderName and the sorted list of a string
-- set of Kubernetes (`is_http_header_name`, `Kubernetes`), regexp.QuoteMeta, fmt.Sprintf with the
-- Error and String methods of its arguments, and one reading of the clock (`Environment`); a port
-- reference of Kubernetes is what its two methods answer (`IntOrString`).
--
-- Not modelled: the API clients and the command line (input and output), the Envoy resources
-- themselves (generated types), metrics, logging and the text of errors, and, so far, the processors of
-- Ingresses and of the Gateway API, the listener and route caches, the event handler and the parsing
-- of the configuration file.
pub mod Common
pub mod Timeout
pub mod Api
pub mod Dag
pub mod Status
pub mod Notify
pub mod Sorter
