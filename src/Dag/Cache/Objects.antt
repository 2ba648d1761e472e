-- ===== src/Dag/Cache/Objects.antt =====
-- internal/dag/cache.go: the objects that the cache keeps, with the fields that it reads. A backend
-- of an Ingress is the name of its service; one that is a resource has none.
use sesame.Common.{nat_eq, string_eq, Bytes, bytes_eq, Option, List}
use sesame.Common.Integer.{ℤ}
use sesame.Common.Assoc.{Map}
use sesame.Api.Proxy.{HttpProxy}
use sesame.Status.Proxy.{NamespacedName}
use sesame.Dag.Secret.Verdicts.{Secret}

-- what the cache reads of a kind that it only keeps
pub record Meta : Type 0 where
  pub namespace : Bytes
  pub name : Bytes

-- ServicePort and Service of Kubernetes; `service_type` and `external_name` are of its spec
pub record ServicePort : Type 0 where
  pub name : Bytes
  pub port : ℤ
  pub protocol : Bytes

pub record Service : Type 0 where
  pub namespace : Bytes
  pub name : Bytes
  pub annotations : Map Bytes Bytes
  pub ports : List ServicePort
  pub service_type : Bytes
  pub external_name : Bytes

pub record Ingress : Type 0 where
  pub namespace : Bytes
  pub name : Bytes
  pub annotations : Map Bytes Bytes
  pub ingress_class_name : Option Bytes
  pub default_backend : Option (Option Bytes)
  pub rules : List (Option (List (Option Bytes)))
  pub tls : List Bytes

-- CertificateDelegation and TLSCertificateDelegation
pub record CertificateDelegation : Type 0 where
  pub secret_name : Bytes
  pub target_namespaces : List Bytes

pub record TlsCertificateDelegation : Type 0 where
  pub namespace : Bytes
  pub name : Bytes
  pub delegations : List CertificateDelegation

-- BackendObjectReference and SecretObjectReference of the Gateway API
pub record Reference : Type 0 where
  pub group : Option Bytes
  pub kind : Option Bytes
  pub namespace : Option Bytes
  pub name : Bytes

pub record HttpRoute : Type 0 where
  pub namespace : Bytes
  pub name : Bytes
  pub rules : List (List Reference)

pub record Gateway : Type 0 where
  pub namespace : Bytes
  pub name : Bytes
  pub listeners : List (Option (List Reference))

pub record Cache : Type 0 where
  pub root_namespaces : List Bytes
  pub ingress_class_name : Bytes
  pub configured_secret_refs : List NamespacedName
  pub ingresses : Map NamespacedName Ingress
  pub ingress_class : Option Bytes
  pub http_proxies : Map NamespacedName HttpProxy
  pub secrets : Map NamespacedName Secret
  pub delegations : Map NamespacedName TlsCertificateDelegation
  pub services : Map NamespacedName Service
  pub namespaces : Map Bytes Bytes
  pub gateway_class : Option Meta
  pub gateway : Option Gateway
  pub http_routes : Map NamespacedName HttpRoute
  pub tls_routes : Map NamespacedName Meta
  pub reference_policies : Map NamespacedName Meta
  pub extensions : Map NamespacedName Meta

-- The types that the switches tell apart. A namespace and an ingress class are their names; a tombstone is a DeletedFinalStateUnknown.
pub data Object : Type 0 where
  secret : Secret → Object
  service : Service → Object
  namespace ingress_class : Bytes → Object
  ingress : Ingress → Object
  http_proxy : HttpProxy → Object
  delegation : TlsCertificateDelegation → Object
  gateway_class : Meta → Object
  gateway : Gateway → Object
  http_route : HttpRoute → Object
  tls_route reference_policy extension_service : Meta → Object
  configuration unknown : Object
  tombstone : Object → Object
