-- ===== src/Dag/Proxy/Tls.antt =====
-- internal/dag/httpproxy_processor.go: the part of computeHTTPProxy that fills the secure virtual
-- host of a proxy with TLS; GetExtensionCluster of internal/dag/accessors.go and
-- ExtensionClusterName of internal/dag/extension_processor.go.
use sesame.Common.{
  nat_beq, ◌==◌, nat_eq, string_eq, list_beq, Bytes, bytes_eq, if◌then◌else◌, ℕ, String, Bool, true,
  false, not, ◌&&◌, Option, none, some, List, [], ◌∷◌,
}
use sesame.Common.Text.{bytes, is_empty, join}
use sesame.Common.Result.{Result, ok, err}
use sesame.Timeout.{parse, use_default}
use sesame.Status.Proxy.{NamespacedName}
use sesame.Api.Status.{DetailedCondition, add_error}
use sesame.Api.Proxy as Api
use sesame.Api.Proxy.{
  AuthorizationServer, AuthorizationServerBufferSettings, DownstreamValidation, Tls,
  authorization_configured,
}
use sesame.Dag.Graph.{Dag, ExtensionCluster, PeerValidationContext, SecureVirtualHost}
use sesame.Dag.Secret.Verdicts.{Secret, valid_secret, valid_ca}
use sesame.Dag.Cache.Objects.{Cache}
use sesame.Dag.Cache.Operations.{lookup_secret, delegation_permitted}
use sesame.Dag.Proxy.Checks.{Processor, Environment, Argument, Check, ◌>>=◌, ◌>>◌, pass}
use sesame.Dag.Proxy.Parts.{is_blank, or_default, namespaced_name_from, min_tls_version}
use sesame.Dag.Proxy.Backends.{is_set}
use sesame.Dag.Proxy.Chains.{ensure_secure_virtual_host, put_secure_virtual_host}

-- the condition of the proxy and the graph, which keeps what is written before an early return
pub record Secured : Type 0 where
  pub condition : DetailedCondition
  pub graph : Dag

abbrev pub note : String → String → Bytes → Check Secured (Unit {0})
note error_type reason message s =
    (record s { condition = add_error error_type reason message s.condition }, some tt)

abbrev pub stop : {A : Type 0} → String → String → Bytes → Check Secured A
stop error_type reason message s =
    (record s { condition = add_error error_type reason message s.condition }, none)

abbrev pub stop_if : Bool → String → String → Bytes → Check Secured (Unit {0})
stop_if true error_type reason message = stop error_type reason message
stop_if false error_type reason message = pass tt

abbrev pub or_stop : {E A : Type 0} → Result E A → String → String → (E → Bytes) → Check Secured A
or_stop (ok a) error_type reason message = pass a
or_stop (err e) error_type reason message = stop error_type reason (message e)

-- a write through the pointer to the secure virtual host
unfoldable pub write : Bytes → (SecureVirtualHost → SecureVirtualHost) → Check Secured (Unit {0})
write host f s = (
  record s {
    graph = put_secure_virtual_host host (f (ensure_secure_virtual_host host s.graph)) s.graph;
  },
  some tt,
)

abbrev pub read_graph : Check Secured Dag
read_graph s = (s, some s.graph)

extension_in : Bytes → List ExtensionCluster → Option ExtensionCluster
unfolding list_beq
extension_in name [] = none
extension_in name (e ∷ es) =
    let rest = extension_in name es in if e.name == name then some e else rest

unfoldable pub get_extension_cluster : Bytes → Dag → Option ExtensionCluster
unfolding extension_in
get_extension_cluster name g = extension_in name g.extension_clusters

abbrev pub extension_cluster_name : NamespacedName → Bytes
unfolding join
extension_cluster_name (namespace, name) =
    join (bytes "/") (bytes "extension" ∷ namespace ∷ name ∷ [])

-- v1alpha1.GroupVersion.String()
abbrev pub extension_version : Bytes
extension_version = bytes "projectsesame.io/v1alpha1"

abbrev pub default_max_request_bytes : ℕ
default_max_request_bytes = 1024

abbrev pub body_settings : AuthorizationServerBufferSettings → AuthorizationServerBufferSettings
body_settings b = record b {
  max_request_bytes =
      if nat_beq b.max_request_bytes 0 then default_max_request_bytes else b.max_request_bytes;
}

module _ (env : Environment) (p : Processor) (c : Cache) (host namespace : Bytes) where
  -- the certificate of the virtual host
  unfoldable pub host_secret : Tls → Check Secured Secret
  unfolding lookup_secret delegation_permitted namespaced_name_from
  host_secret tls =
      let name = namespaced_name_from tls.secret_name namespace in
      do
        s ← or_stop (lookup_secret c name valid_secret) "TLSError" "SecretNotValid" (λ e.
            env.sprintf "Spec.VirtualHost.TLS Secret %q is invalid: %s"
              (Argument.text tls.secret_name ∷ Argument.secret_error e ∷ []))
        stop_if (not (delegation_permitted c name namespace)) "TLSError" "DelegationNotPermitted" (
            env.sprintf "Spec.VirtualHost.TLS Secret %q certificate delegation not permitted"
              (Argument.text tls.secret_name ∷ []))
        pass s

  -- the processor's fallback certificate
  unfoldable pub fallback_secret : Option NamespacedName → Check Secured Secret
  unfolding lookup_secret delegation_permitted
  fallback_secret none = stop "TLSError" "FallbackNotPresent" (
      bytes
        "Spec.Virtualhost.TLS enabled fallback but the fallback Certificate Secret is not configured in Sesame configuration file")
  fallback_secret (some name) = do
    s ← or_stop (lookup_secret c name valid_secret) "TLSError" "FallbackNotValid" (λ e.
        env.sprintf "Spec.Virtualhost.TLS Secret %q fallback certificate is invalid: %s"
          (Argument.full_name name ∷ Argument.secret_error e ∷ []))
    stop_if (not (delegation_permitted c name namespace)) "TLSError" "FallbackNotDelegated" (
        env.sprintf
          "Spec.VirtualHost.TLS fallback Secret %q is not configured for certificate delegation"
          (Argument.full_name name ∷ []))
    pass s

  unfoldable pub fall_back : Bool → Check Secured (Unit {0})
  unfolding fallback_secret
  fall_back false = pass tt
  fall_back true = do
    s ← fallback_secret p.fallback_certificate
    write host (λ v. record v { fallback_certificate = some s })

  unfoldable pub unnamed_ca : Bool → Check Secured (Option Secret)
  unnamed_ca true = pass none
  unnamed_ca false = do
    note "TLSError" "ClientValidationInvalid" (
        env.sprintf "Spec.VirtualHost.TLS client validation is invalid: CA Secret must be specified"
          [])
    pass none

  -- the secret of the client validation; without its name, an error that does not return
  unfoldable pub validation_ca : DownstreamValidation → Check Secured (Option Secret)
  unfolding lookup_secret namespaced_name_from unnamed_ca
  validation_ca cv = elim (is_empty cv.ca_certificate) [
    | false ↦
        let name = namespaced_name_from cv.ca_certificate namespace in
        do
          s ← or_stop (lookup_secret c name valid_ca) "TLSError" "ClientValidationInvalid" (λ e.
              env.sprintf
                "Spec.VirtualHost.TLS client validation is invalid: invalid CA Secret %q: %s"
                (Argument.full_name name ∷ Argument.secret_error e ∷ []))
          pass (some s)
    | true ↦ unnamed_ca cv.skip_client_cert_validation
  ]

  unfoldable pub validate_clients : Option DownstreamValidation → Check Secured (Unit {0})
  unfolding validation_ca
  validate_clients none = pass tt
  validate_clients (some cv) = do
    ca ← validation_ca cv
    let context : PeerValidationContext = record {
      ca_certificate = ca;
      subject_name = [];
      skip_client_cert_validation = cv.skip_client_cert_validation;
    }
    write host (λ v. record v { downstream_validation = some context })

  unfoldable pub found_extension : Bytes → Option ExtensionCluster → Check Secured ExtensionCluster
  found_extension message (some e) = pass e
  found_extension message none = stop "AuthError" "ExtensionServiceNotFound" message

  -- the extension service that a reference names
  unfoldable pub extension_for : AuthorizationServer → Dag → Check Secured ExtensionCluster
  unfolding get_extension_cluster list_beq found_extension
  extension_for auth g =
      let ref = auth.extension_service_ref in
      let name : NamespacedName = (or_default ref.namespace namespace, ref.name) in
      do
        stop_if (not (or_default ref.api_version extension_version == extension_version))
            "AuthError" "AuthBadResourceVersion"
            (env.sprintf
              "Spec.Virtualhost.Authorization.extensionRef specifies an unsupported resource version %q"
              (Argument.text ref.api_version ∷ []))
        found_extension
            (env.sprintf "Spec.Virtualhost.Authorization.ServiceRef extension service %q not found"
              (Argument.full_name name ∷ []))
            (get_extension_cluster (extension_cluster_name name) g)

  unfoldable pub authorize : Option AuthorizationServer → Check Secured (Unit {0})
  unfolding extension_for parse
  authorize none = pass tt
  authorize (some auth) = do
    g ← read_graph
    e ← extension_for auth g
    write host
        (λ v. record v { authorization_service = some e; authorization_fail_open = auth.fail_open })
    timeout ←
        or_stop (parse env.parse_duration auth.response_timeout) "AuthError"
          "AuthResponseTimeoutInvalid"
          (λ x.
            env.sprintf "Spec.Virtualhost.Authorization.ResponseTimeout is invalid: %s"
              (Argument.timeout_error x ∷ []))
    write host (λ v. record v {
      authorization_response_timeout = if use_default timeout then e.response_timeout else timeout;
      authorization_server_with_request_body = elim auth.with_request_body [
        | none ↦ v.authorization_server_with_request_body
        | some b ↦ some (body_settings b)
      ];
    })

  -- `if !tls.Passthrough`
  unfoldable pub secure_host : Tls → Api.VirtualHost → Check Secured (Unit {0})
  unfolding host_secret fall_back validate_clients authorize min_tls_version
  secure_host tls vhost = do
    s ← host_secret tls
    write host (λ v. record v {
      secret = some s;
      min_tls_version = min_tls_version tls.minimum_protocol_version (bytes "1.2");
    })
    stop_if (tls.enable_fallback_certificate && is_set tls.client_validation) "TLSError"
        "TLSIncompatibleFeatures"
        (bytes "Spec.Virtualhost.TLS fallback & client validation are incompatible")
    stop_if (tls.enable_fallback_certificate && is_set (authorization_configured vhost)) "TLSError"
        "TLSIncompatibleFeatures"
        (bytes "Spec.Virtualhost.TLS fallback & client authorization are incompatible")
    fall_back tls.enable_fallback_certificate
    validate_clients tls.client_validation
    authorize (authorization_configured vhost)

  unfoldable pub note_if : Bool → String → String → Bytes → Check Secured (Unit {0})
  note_if true error_type reason message = note error_type reason message
  note_if false error_type reason message = pass tt

  unfoldable pub secure_unless_passed : Bool → Tls → Api.VirtualHost → Check Secured (Unit {0})
  unfolding secure_host
  secure_unless_passed true tls vhost = pass tt
  secure_unless_passed false tls vhost = secure_host tls vhost

  -- the value is tlsEnabled
  unfoldable pub configure_tls : Option Tls → Api.VirtualHost → Check Secured Bool
  unfolding is_blank note_if secure_unless_passed
  configure_tls none vhost = pass false
  configure_tls (some tls) vhost = do
    note_if (tls.passthrough && tls.enable_fallback_certificate) "TLSError"
        "TLSIncompatibleFeatures"
        (bytes
          "Spec.VirtualHost.TLS: both Passthrough and enableFallbackCertificate were specified")
    stop_if (not (is_blank tls.secret_name) && tls.passthrough) "TLSError" "TLSConfigNotValid"
        (bytes "Spec.VirtualHost.TLS: both Passthrough and SecretName were specified")
    stop_if (is_blank tls.secret_name && not tls.passthrough) "TLSError" "TLSConfigNotValid"
        (bytes "Spec.VirtualHost.TLS: neither Passthrough nor SecretName were specified")
    stop_if (tls.passthrough && is_set tls.client_validation) "TLSError" "TLSIncompatibleFeatures"
        (bytes "Spec.VirtualHost.TLS passthrough cannot be combined with tls.clientValidation")
    secure_unless_passed tls.passthrough tls vhost
    pass true
