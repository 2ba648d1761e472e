-- ===== src/Dag/Cache/Tests.antt =====
-- Runs of the cache, with parsers that accept every text.
use sesame.Dag.Cache.Secrets.{
  name_of, Event, inserted, watch, lookup_secret-watched, HoldsValidSecrets,
}
use sesame.Common.Result.{ok}
use sesame.Status.Proxy.{NamespacedName, name_eq}
use sesame.Common.{
  nat_eq, string_eq, list_beq, Bytes, bytes_eq, ◌≡◌, refl, true, false, none, some, List, [], ◌∷◌,
  arith,
}
use sesame.Common.Text.{bytes}
use sesame.Common.Assoc.{lookup}
use sesame.Dag.Secret.Tests.{crypto, ca_secret, ca_text, ec_text}
use sesame.Dag.Secret.{
  Crypto, validate_ca_bundle, validate_serving_bundle, validate_private_key, contains_pem_header,
}
use sesame.Dag.Secret.Verdicts.{
  Secret, is_valid_secret, accepted, valid_ca, tls_type, tls_cert_key, tls_private_key_key,
}
use sesame.Common.Integer.{pos}
use sesame.Dag.Cache.Lookups.{IntOrString, lookup_service, IsFirstPort, lookup_service-IsFirstPort}
use sesame.Api.Proxy.{HttpProxy}
use sesame.Dag.Cache.Triggers.{service_triggers_rebuild}
use sesame.Dag.Cache.Objects.{Service, ServicePort, TlsCertificateDelegation, Cache, Object}
use sesame.Dag.Cache.Operations.{lookup_secret, delegation_permitted, insert_object, insert_secret}
use sesame.Dag.Cache.Delegation.{delegated_secret-triggers, full_name_in_own_namespace-misses, lone}

abbrev proxy : Bytes → HttpProxy
proxy namespace = record {
  namespace = namespace;
  name = bytes "p";
  generation = 1;
  annotations = [];
  ingress_class_name = [];
  virtual_host = some record {
    fqdn = bytes "host";
    tls = some record {
      secret_name = bytes "a/s";
      minimum_protocol_version = [];
      passthrough = false;
      client_validation = none;
      enable_fallback_certificate = false;
    };
    authorization = none;
    cors_policy = none;
    rate_limit_policy = none;
  };
  routes = [];
  tcp_proxy = none;
  includes = [];
}

abbrev tls_secret : Secret
tls_secret = record {
  namespace = bytes "a";
  name = bytes "s";
  secret_type = tls_type;
  entries = (tls_cert_key, ca_text) ∷ (tls_private_key_key, ec_text) ∷ [];
}

-- the parsers of keys and bundles accept the texts, and so does that of certificates
abbrev parsers : Crypto
parsers = record (crypto true) {
  parse_certificate =
      λ d. some record { common_name = bytes "host"; dns_names = []; ip_addresses = [] };
}

tls_secret_accepted : is_valid_secret parsers tls_secret ≡ accepted
unfolding is_valid_secret validate_serving_bundle validate_private_key contains_pem_header list_beq
    lookup
tls_secret_accepted = refl

abbrev to_b : TlsCertificateDelegation
to_b = record {
  namespace = bytes "a";
  name = bytes "d";
  delegations = record { secret_name = bytes "s"; target_namespaces = bytes "b" ∷ [] } ∷ [];
}

abbrev delegating : Cache
delegating = record (lone (bytes "b", bytes "p") (proxy (bytes "b"))) {
  delegations = ((bytes "a", bytes "d"), to_b) ∷ [];
}

found_proxy : lookup (bytes "b", bytes "p") delegating.http_proxies ≡ some (proxy (bytes "b"))
unfolding lookup list_beq
found_proxy = refl

permitted : delegation_permitted delegating (bytes "a", bytes "s") (bytes "b") ≡ true
unfolding delegation_permitted list_beq
permitted = refl

delegated_secret-triggers_example :
    (insert_object parsers delegating (Object.secret tls_secret)).1 ≡ some true
delegated_secret-triggers_example =
    delegated_secret-triggers parsers delegating tls_secret (bytes "b", bytes "p")
      (proxy (bytes "b")) tls_secret_accepted found_proxy refl (λ e. ground (arith, e)) permitted

full_name_in_own_namespace-misses_example :
    (delegation_permitted
        (lone (bytes "a", bytes "p") (proxy (bytes "a")))
        (bytes "a", bytes "s")
        (bytes "a")
      ≡ true)
    × ((insert_object parsers
          (lone (bytes "a", bytes "p") (proxy (bytes "a")))
          (Object.secret tls_secret)).1
        ≡ some false)
unfolding lookup list_beq
full_name_in_own_namespace-misses_example =
    full_name_in_own_namespace-misses parsers tls_secret (bytes "a", bytes "p") (proxy (bytes "a"))
      tls_secret_accepted refl refl refl

abbrev empty : Cache
empty = record (lone (bytes "b", bytes "p") (proxy (bytes "b"))) { http_proxies = [] }

nothing_held : HoldsValidSecrets (crypto true) empty
unfolding lookup
nothing_held name s e = absurd (ground (arith, e))

abbrev events : List Event
events = inserted (Object.http_proxy (proxy (bytes "b"))) ∷ inserted (Object.secret ca_secret) ∷ []

abbrev ca_name : NamespacedName
ca_name = (bytes "default", bytes "ca")

ca_found : lookup_secret (watch (crypto true) empty events) ca_name valid_ca ≡ ok ca_secret
unfolding lookup_secret insert_object insert_secret is_valid_secret validate_ca_bundle
    contains_pem_header list_beq lookup valid_ca
ca_found = refl

lookup_secret-watched_example :
    (is_valid_secret (crypto true) ca_secret ≡ accepted)
    × (name_of ca_secret ≡ ca_name)
    × (valid_ca ca_secret ≡ none)
lookup_secret-watched_example =
    lookup_secret-watched (crypto true) empty events ca_name valid_ca ca_secret nothing_held
      ca_found

abbrev tcp_port : ServicePort
tcp_port = record { name = bytes "http"; port = pos 80; protocol = bytes "TCP" }

abbrev udp_port : ServicePort
udp_port = record { name = bytes "dns"; port = pos 53; protocol = bytes "UDP" }

abbrev web : Service
web = record {
  namespace = bytes "a";
  name = bytes "web";
  annotations = [];
  ports = udp_port ∷ tcp_port ∷ [];
  service_type = bytes "ClusterIP";
  external_name = [];
}

abbrev with_web : Cache
with_web = record empty { services = ((bytes "a", bytes "web"), web) ∷ [] }

abbrev http : IntOrString
http = record { int_value = pos 0; text = bytes "http" }

web_found : lookup_service with_web (bytes "a", bytes "web") http ≡ ok (web, tcp_port)
unfolding lookup_service list_beq lookup
web_found = refl

lookup_service-IsFirstPort_example :
    (lookup (bytes "a", bytes "web") with_web.services ≡ some web)
    × IsFirstPort http web.ports tcp_port
lookup_service-IsFirstPort_example =
    lookup_service-IsFirstPort with_web (bytes "a", bytes "web") http web tcp_port web_found

-- An Ingress whose default backend is a resource: the insertion of a service of its namespace panics.
abbrev with_resource : Cache
with_resource = record empty {
  ingresses =
      (
        (bytes "a", bytes "i"),
        record {
          namespace = bytes "a";
          name = bytes "i";
          annotations = [];
          ingress_class_name = none;
          default_backend = some none;
          rules = [];
          tls = [];
        },
      )
      ∷ [];
}

resource_backend_panics : (insert_object parsers with_resource (Object.service web)).1 ≡ none
unfolding insert_object service_triggers_rebuild list_beq
resource_backend_panics = refl
