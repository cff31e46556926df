-- ===== src/Logging.antt =====
-- controllers/logging_controller.go and pkg/logging: the reconciliation of a Logging.
pub mod Success
pub mod Healthy
mod Tests
use ceilometer_operator.Prelude.{
  [], ℕ, String, append, true, Option, none, some, List, ◌∷◌, StringMap, if◌then◌else◌,
}
use ceilometer_operator.Go.{
  ◌>>◌, ◌>>=◌, Result, ok, err, exit, exit_if, pure, call, check, check_error,
}
use ceilometer_operator.Conditions.{
  CondType, Condition, Format, lib, input_ready, service_config_ready, service_account_ready,
  role_ready, role_binding_ready, init_reason,
}
use ceilometer_operator.Object.{Ret, ret, done}
use ceilometer_operator.Spec.Logging.{LoggingSpec, LoggingStatus}
use ceilometer_operator.Cluster.{
  Cluster, Stmt, Handler, ask, the_object, set_status, set_meta, marks_true,
}
use ceilometer_operator.Cluster.Reconcile
use ceilometer_operator.Cluster.Reconcile.{Frame, prepare}
use ceilometer_operator.Services.{Services, Template, template_type_config}
use ceilometer_operator.Services.Inputs
use ceilometer_operator.Services.Inputs.{Hashed, reconcile_rbac, config_error}
use ceilometer_operator.Ceilometer.Pods.{compute_service_name as ceilometer_compute}

abbrev service_name : String
service_name = "logging"

abbrev compute_service_name : String
compute_service_name = "logging-compute"

-- corev1.Service, as the function `Service` of pkg/logging fills it in
pub record LoadBalancer : Type 0 where
  pub protocol : String
  pub port : ℕ
  pub target_port : ℕ
  pub selector : StringMap
  pub annotations : StringMap
  pub type : String

pub record Calls (k : Cluster) : Type 1 where
  pub services : Services k
  pub frame : Frame k LoggingSpec (LoggingStatus k.HashMap)
  -- the client's Get of a secret: its data, where a key may be missing
  pub get_secret_data :
      String → String → k.World → Result k.Error (String → Option String) × k.World
  -- controllerutil.CreateOrUpdate of a service in a namespace
  pub service_create_or_update :
      String → String → (LoadBalancer → LoadBalancer) → k.World → Option k.Error × k.World

module _ (k : Cluster) where
  abbrev LStatus : Type 0
  LStatus = LoggingStatus k.HashMap

  abbrev Do : Type 0 → Type 0
  Do A = Stmt k LoggingSpec LStatus (Ret k.Error) A

  abbrev Fn : Type 0
  Fn = Handler k LoggingSpec LStatus

-- the mutating function of `Service` of pkg/logging; it sets no owner and no labels
unfoldable pub fill_service : LoggingSpec → LoadBalancer → LoadBalancer
fill_service spec s = record {
  protocol = "TCP";
  port = spec.port;
  target_port = spec.target_port;
  selector =
      ("app.kubernetes.io/instance", "collector")
      ∷ ("component", "collector")
      ∷ ("provider", "openshift")
      ∷ [];
  annotations =
      ("endpoint", "internal")
      ∷ ("metallb.universe.tf/address-pool", spec.network)
      ∷ ("metallb.universe.tf/allow-shared-ip", spec.network)
      ∷ ("metallb.universe.tf/loadBalancerIPs", spec.ip_addr)
      ∷ [];
  type = "LoadBalancer";
}

module _ (k : Cluster) (c : Calls k) where
  open c.services use {get_labels, ensure_secrets, number_text, input_hash_name}

  -- `retrieveOpenshiftCA`: an error is the same as a key that is missing.
  unfoldable pub retrieve_openshift_ca :
      {R : Type 0} → Stmt k LoggingSpec (LStatus k) R (Option String)
  retrieve_openshift_ca = do
    found ← ask k (c.get_secret_data "signing-key" "openshift-service-ca")
    pure (certificate found)
    where
      certificate : Result k.Error (String → Option String) → Option String
      certificate (err e) = none
      certificate (ok data_of) = data_of "tls.crt"

  -- the certificate among the custom data, if there is one
  unfoldable pub ca_data : Option String → StringMap
  ca_data none = []
  ca_data (some certificate) = ("ca-openshift.crt", certificate) ∷ []

  -- `generateComputeServiceConfig`
  unfoldable pub generate_compute_service_config :
      StringMap
      → Stmt k LoggingSpec (LStatus k) (Option k.Error × StringMap) (Option k.Error × StringMap)
  unfolding retrieve_openshift_ca ca_data
  generate_compute_service_config vars = do
    o ← the_object k
    certificate ← retrieve_openshift_ca
    let template : Template = record {
      name = append compute_service_name "-config-data";
      namespace = o.meta.namespace;
      type = template_type_config;
      instance_type = "logging";
      additional_template = [];
      custom_data = ca_data certificate;
      config_options =
          ("RsyslogAddress", o.spec.ip_addr)
          ∷ ("RsyslogPort", number_text o.spec.port)
          ∷ ("RsyslogRetries", number_text o.spec.rsyslog_retries)
          ∷ ("RsyslogQueueType", o.spec.rsyslog_queue_type)
          ∷ ("RsyslogQueueSize", number_text o.spec.rsyslog_queue_size)
          ∷ [];
      labels = get_labels o.meta ceilometer_compute;
    }
    ensured ← ask k (ensure_secrets o.meta (template ∷ []) vars)
    exit ensured

  -- `createHashOfInputHashes`
  unfoldable pub create_hash_of_input_hashes :
      StringMap → Stmt k LoggingSpec (LStatus k) (Hashed k) (Hashed k)
  create_hash_of_input_hashes =
      Inputs.create_hash_of_input_hashes k c.services (λ t. t.hash)
        λ hash t. record t { hash = hash }

  -- The service that the nodes log to.
  unfoldable pub reconcile_service : Do k Unit
  unfolding fill_service
  reconcile_service = do
    o ← the_object k
    error ← ask k (
        c.service_create_or_update (append "openstack-" service_name) o.spec.clo_namespace
          (fill_service o.spec))
    check_error error (λ e. exit (ret done (some e)))

  -- `reconcileNormal`
  unfoldable pub reconcile_normal : Fn k
  unfolding generate_compute_service_config create_hash_of_input_hashes reconcile_service
  reconcile_normal = do
    reconcile_rbac k c.services
    marks_true k input_ready (lib "InputReadyMessage")
    generated ← call (generate_compute_service_config [])
    check_error generated.0 (config_error k)
    hashed ← call (create_hash_of_input_hashes generated.1)
    answer ← check hashed (λ e. do config_error k e; exit (ret done (some e)))
    let (hash, changed) = answer
    exit_if changed (ret done none)
    set_status k (λ t. record t { hash = k.hash_put t.hash input_hash_name hash })
    marks_true k service_config_ready (lib "ServiceConfigReadyMessage")
    reconcile_service
    exit (ret done none)

  -- `reconcileDelete`
  unfoldable pub reconcile_delete : Fn k
  reconcile_delete = do
    set_meta k (λ m. record m { finalizers = (k.remove_finalizer m.finalizers k.finalizer).1 })
    exit (ret done none)

  abbrev unknown : CondType → Format → Condition
  unknown t f = k.conditions.unknown_condition t init_reason f

  -- The conditions of a new Logging.
  unfoldable pub init_conditions : List Condition
  init_conditions =
      unknown input_ready (lib "InputReadyInitMessage")
      ∷ unknown service_config_ready (lib "ServiceConfigReadyInitMessage")
      ∷ unknown service_account_ready (lib "ServiceAccountReadyInitMessage")
      ∷ unknown role_ready (lib "RoleReadyInitMessage")
      ∷ unknown role_binding_ready (lib "RoleBindingReadyInitMessage")
      ∷ []

  -- The body of `Reconcile` between the helper and the deferred function.
  unfoldable pub body : Fn k
  unfolding init_conditions reconcile_delete
  body = do
    prepare k init_conditions
    set_status k (λ t. if k.hash_is_nil t.hash then record t { hash = k.empty_hash } else t)
    o ← the_object k
    if o.meta.deleting then reconcile_delete else reconcile_normal

  -- `Reconcile`, whose error is a named result
  unfoldable pub reconcile : k.World → Option (Ret k.Error) × k.World
  unfolding body
  reconcile = Reconcile.reconcile k true c.frame body
