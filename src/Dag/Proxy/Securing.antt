-- ===== src/Dag/Proxy/Securing.antt =====
-- internal/dag/httpproxy_processor.go: the condition in the part of computeHTTPProxy for TLS, and at
-- the end of its body.
use sesame.Common.{
  nat_eq, string_eq, Bytes, bytes_eq, Bool-cases, String, inl, inr, Bool, true, false, Option, none,
  some, List,
}
use sesame.Common.Text.{is_empty}
use sesame.Common.Result.{Result, ok, err}
use sesame.Status.Proxy.{NamespacedName}
use sesame.Api.Proxy as Api
use sesame.Api.Proxy.{AuthorizationServer, DownstreamValidation, Tls, authorization_configured}
use sesame.Dag.Graph.{Cors, Dag, ExtensionCluster, Route, SecureVirtualHost, VirtualHost}
use sesame.Dag.Cache.Objects.{Cache}
use sesame.Dag.Proxy.Checks.{Processor, Environment, Check, pass}
use sesame.Dag.Proxy.Tls.{
  Secured, note, stop, stop_if, or_stop, write, read_graph, host_secret, fallback_secret, fall_back,
  validation_ca, validate_clients, unnamed_ca, extension_for, found_extension, authorize,
  secure_host, note_if, secure_unless_passed, configure_tls,
}
use sesame.Dag.Proxy.Hosts.{write_insecure}
use sesame.Dag.Proxy.Roots.{limits_of, publish_secure, publish}
use sesame.Dag.Proxy.Triples.{
  Any, Outcome, Triple, IsDecidedCondition, add_error-IsDecidedCondition, bind-Triple, pass-Triple,
}

-- Every way through the body leaves the condition decided.
abbrev pub Settles : {A : Type 0} → Check Secured A → Type 0
Settles m = Triple (λ (s : Secured). IsDecidedCondition s.condition) Any m

state_of-Outcome :
    {A : Type 0} (r : Secured × Option A)
    → Outcome (λ s. IsDecidedCondition s.condition) Any r
    → IsDecidedCondition r.0.condition
state_of-Outcome (s, none) h = h
state_of-Outcome (s, some a) h = h.0

-- The condition after such a body.
pub Settles-run :
    {A : Type 0} (m : Check Secured A) (s : Secured)
    → Settles m
    → IsDecidedCondition s.condition
    → IsDecidedCondition (m s).0.condition
unfolding Triple
Settles-run m s t h = state_of-Outcome (m s) (t s h)

pass-Settles : {A : Type 0} (a : A) → Settles (pass a)
pass-Settles a = pass-Triple _ _ _ tt

note-Settles : (t r : String) (m : Bytes) → Settles (note t r m)
unfolding Triple
note-Settles t r m s h = (add_error-IsDecidedCondition t r m s.condition h, tt)

stop-Settles : (A : Type 0) (t r : String) (m : Bytes) → Settles (stop {A = A} t r m)
unfolding Triple
stop-Settles A t r m s h = add_error-IsDecidedCondition t r m s.condition h

stop_if-Settles : (b : Bool) (t r : String) (m : Bytes) → Settles (stop_if b t r m)
unfolding Triple
stop_if-Settles true t r m s h = add_error-IsDecidedCondition t r m s.condition h
stop_if-Settles false t r m s h = (h, tt)

or_stop-Settles :
    {E A : Type 0} (o : Result E A) (t r : String) (m : E → Bytes) → Settles (or_stop o t r m)
unfolding Triple
or_stop-Settles (ok a) t r m s h = (h, tt)
or_stop-Settles (err e) t r m s h = add_error-IsDecidedCondition t r (m e) s.condition h

write-Settles : (host : Bytes) (f : SecureVirtualHost → SecureVirtualHost) → Settles (write host f)
unfolding Triple write
write-Settles host f s h = (h, tt)

write_insecure-Settles :
    (host : Bytes) (f : VirtualHost → VirtualHost) → Settles (write_insecure host f)
unfolding Triple write_insecure
write_insecure-Settles host f s h = (h, tt)

read_graph-Settles : Settles read_graph
unfolding Triple
read_graph-Settles s h = (h, tt)

module _ (env : Environment) (p : Processor) (c : Cache) (host namespace : Bytes) where
  host_secret-Settles : (tls : Tls) → Settles (host_secret env p c host namespace tls)
  unfolding host_secret
  host_secret-Settles tls =
      bind-Triple _ _ _ _ _ (or_stop-Settles _ _ _ _)
        (λ _ _. bind-Triple _ _ _ _ _ (stop_if-Settles _ _ _ _) (λ _ _. pass-Settles _))

  fallback_secret-Settles :
      (name : Option NamespacedName) → Settles (fallback_secret env p c host namespace name)
  unfolding fallback_secret
  fallback_secret-Settles none = stop-Settles _ _ _ _
  fallback_secret-Settles (some name) =
      bind-Triple _ _ _ _ _ (or_stop-Settles _ _ _ _)
        (λ _ _. bind-Triple _ _ _ _ _ (stop_if-Settles _ _ _ _) (λ _ _. pass-Settles _))

  fall_back-Settles : (b : Bool) → Settles (fall_back env p c host namespace b)
  unfolding fall_back
  fall_back-Settles false = pass-Settles _
  fall_back-Settles true =
      bind-Triple _ _ _ _ _ (fallback_secret-Settles _) (λ _ _. write-Settles _ _)

  unnamed_ca-Settles : (skip : Bool) → Settles (unnamed_ca env p c host namespace skip)
  unfolding unnamed_ca
  unnamed_ca-Settles true = pass-Settles _
  unnamed_ca-Settles false = bind-Triple _ _ _ _ _ (note-Settles _ _ _) (λ _ _. pass-Settles _)

  validation_ca-Settles :
      (cv : DownstreamValidation) → Settles (validation_ca env p c host namespace cv)
  unfolding validation_ca
  validation_ca-Settles cv = elim (Bool-cases (is_empty cv.ca_certificate)) [
    | inr named ↦
        rw (named, validation_ca)
          (bind-Triple _ _ _ _ _ (or_stop-Settles _ _ _ _) (λ _ _. pass-Settles _))
    | inl unnamed ↦ rw (unnamed, validation_ca) (unnamed_ca-Settles cv.skip_client_cert_validation)
  ]

  validate_clients-Settles :
      (cv : Option DownstreamValidation) → Settles (validate_clients env p c host namespace cv)
  unfolding validate_clients
  validate_clients-Settles none = pass-Settles _
  validate_clients-Settles (some cv) =
      bind-Triple _ _ _ _ _ (validation_ca-Settles cv) (λ _ _. write-Settles _ _)

  found_extension-Settles :
      (message : Bytes) (o : Option ExtensionCluster)
      → Settles (found_extension env p c host namespace message o)
  unfolding found_extension
  found_extension-Settles message (some e) = pass-Settles e
  found_extension-Settles message none = stop-Settles _ _ _ _

  extension_for-Settles :
      (auth : AuthorizationServer) (g : Dag) → Settles (extension_for env p c host namespace auth g)
  unfolding extension_for
  extension_for-Settles auth g =
      bind-Triple _ _ _ _ _ (stop_if-Settles _ _ _ _) (λ _ _. found_extension-Settles _ _)

  authorize-Settles :
      (auth : Option AuthorizationServer) → Settles (authorize env p c host namespace auth)
  unfolding authorize
  authorize-Settles none = pass-Settles _
  authorize-Settles (some auth) = bind-Triple _ _ _ _ _ read_graph-Settles (λ g _.
      bind-Triple _ _ _ _ _ (extension_for-Settles auth g) (λ _ _.
        bind-Triple _ _ _ _ _ (write-Settles _ _)
          (λ _ _. bind-Triple _ _ _ _ _ (or_stop-Settles _ _ _ _) (λ _ _. write-Settles _ _))))

  secure_host-Settles :
      (tls : Tls) (vhost : Api.VirtualHost) → Settles (secure_host env p c host namespace tls vhost)
  unfolding secure_host
  secure_host-Settles tls vhost = bind-Triple _ _ _ _ _ (host_secret-Settles tls) (λ _ _.
      bind-Triple _ _ _ _ _ (write-Settles _ _) (λ _ _.
        bind-Triple _ _ _ _ _ (stop_if-Settles _ _ _ _) (λ _ _.
          bind-Triple _ _ _ _ _ (stop_if-Settles _ _ _ _) (λ _ _.
            bind-Triple _ _ _ _ _ (fall_back-Settles tls.enable_fallback_certificate) (λ _ _.
              bind-Triple _ _ _ _ _ (validate_clients-Settles tls.client_validation)
                (λ _ _. authorize-Settles (authorization_configured vhost)))))))

  note_if-Settles :
      (b : Bool) (t r : String) (m : Bytes) → Settles (note_if env p c host namespace b t r m)
  unfolding note_if
  note_if-Settles true t r m = note-Settles t r m
  note_if-Settles false t r m = pass-Settles _

  secure_unless_passed-Settles :
      (b : Bool) (tls : Tls) (vhost : Api.VirtualHost)
      → Settles (secure_unless_passed env p c host namespace b tls vhost)
  unfolding secure_unless_passed
  secure_unless_passed-Settles true tls vhost = pass-Settles _
  secure_unless_passed-Settles false tls vhost = secure_host-Settles tls vhost

  pub configure_tls-Settles :
      (tls : Option Tls) (vhost : Api.VirtualHost)
      → Settles (configure_tls env p c host namespace tls vhost)
  unfolding configure_tls
  configure_tls-Settles none vhost = pass-Settles _
  configure_tls-Settles (some tls) vhost = bind-Triple _ _ _ _ _ (note_if-Settles _ _ _ _) (λ _ _.
      bind-Triple _ _ _ _ _ (stop_if-Settles _ _ _ _) (λ _ _.
        bind-Triple _ _ _ _ _ (stop_if-Settles _ _ _ _) (λ _ _.
          bind-Triple _ _ _ _ _ (stop_if-Settles _ _ _ _) (λ _ _.
            bind-Triple _ _ _ _ _ (secure_unless_passed-Settles tls.passthrough tls vhost)
              (λ _ _. pass-Settles _)))))

module _ (env : Environment) (p : Processor) (c : Cache) where
  limits_of-Settles : (vhost : Api.VirtualHost) → Settles (limits_of env p c vhost)
  unfolding limits_of
  limits_of-Settles vhost = or_stop-Settles _ _ _ _

  publish_secure-Settles :
      (vhost : Api.VirtualHost) (cors : Option Cors) (routes : List Route) (b : Bool)
      → Settles (publish_secure env p c vhost cors routes b)
  unfolding publish_secure
  publish_secure-Settles vhost cors routes false = pass-Settles _
  publish_secure-Settles vhost cors routes true =
      bind-Triple _ _ _ _ _ (write-Settles _ _)
        (λ _ _. bind-Triple _ _ _ _ _ (limits_of-Settles vhost) (λ _ _. write-Settles _ _))

  pub publish-Settles :
      (vhost : Api.VirtualHost) (b : Bool) (routes : List Route)
      → Settles (publish env p c vhost b routes)
  unfolding publish
  publish-Settles vhost b routes = bind-Triple _ _ _ _ _ (write_insecure-Settles _ _) (λ _ _.
      bind-Triple _ _ _ _ _ (or_stop-Settles _ _ _ _) (λ cors _.
        bind-Triple _ _ _ _ _ (write_insecure-Settles _ _) (λ _ _.
          bind-Triple _ _ _ _ _ (limits_of-Settles vhost) (λ _ _.
            bind-Triple _ _ _ _ _ (write_insecure-Settles _ _)
              (λ _ _. publish_secure-Settles vhost cors routes b)))))
