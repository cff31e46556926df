-- ===== src/Ceilometer/Normal.antt =====
-- The reconciliation of a Ceilometer: `reconcileNormal`, `reconcileInit`, `reconcileDelete` and
-- `Reconcile`.
pub mod Delete
pub mod Kept
pub mod Success
pub mod Healthy
pub mod Written
mod Tests
use ceilometer_operator.Prelude.{
  [], ℕ, String, append, true, Option, none, some, List, ◌∷◌, StringMap, not, if◌then◌else◌,
}
use ceilometer_operator.Go.{◌>>◌, ◌>>=◌, exit, exit_if, pure, call, check, check_error}
use ceilometer_operator.Conditions.{
  CondType, Condition, Format, lib, input_ready, service_config_ready, deployment_ready,
  service_account_ready, role_ready, role_binding_ready, keystone_service_ready, init_reason,
}
use ceilometer_operator.Object.{Meta, Ret, ret, done, after, seconds}
use ceilometer_operator.Cluster.{
  Cluster, ask, the_object, set_status, set_meta, marks_true, stop_unless_done,
}
use ceilometer_operator.Cluster.Reconcile
use ceilometer_operator.Cluster.Reconcile.{prepare}
use ceilometer_operator.Services.{KeystoneServiceSpec}
use ceilometer_operator.Services.Inputs.{
  reconcile_rbac, get_secret, stop_on_error, config_error, reconcile_transport_url as transport_url,
}
use ceilometer_operator.Services.Children.{
  reconcile_keystone_service, reconcile_stateful_set as reconcile_pods,
}
use ceilometer_operator.Services.Release.{Held, release}
use ceilometer_operator.Ceilometer.Pods.{
  service_name, service_type, ceilometer_prometheus_port, stateful_set,
}
use ceilometer_operator.Ceilometer.Calls.{Calls, ServiceObject, Do, Fn}
use ceilometer_operator.Ceilometer.Config.{
  generate_service_config, generate_compute_service_config, create_hash_of_input_hashes,
}

module _ (k : Cluster) (c : Calls k) where
  open c.services use {
    app_selector, get_keystone_service, keystone_service_meta, with_meta, update_keystone_service,
  }

  -- The transport URL, `transportURLCreateOrUpdate` included.
  pub reconcile_transport_url : Do k Unit
  reconcile_transport_url =
      transport_url k c.services (append service_name "-transport") (λ t. t.rabbit_mq_cluster_name)
        λ secret t. record t { transport_url_secret = secret }

  -- The two secrets, the two configurations and the hash of all of it. A hash that changed ends
  -- the reconciliation, which the change of the status starts again.
  reconcile_inputs : Do k String
  reconcile_inputs = do
    o ← the_object k
    first ← call (get_secret k c.services o.spec.secret [])
    vars1 ← stop_on_error k first
    p ← the_object k
    second ← call (get_secret k c.services p.status.transport_url_secret vars1)
    vars2 ← stop_on_error k second
    marks_true k input_ready (lib "InputReadyMessage")
    generated ← call (generate_service_config k c vars2)
    check_error generated.0 (config_error k)
    computed ← call (generate_compute_service_config k c generated.1)
    check_error computed.0 (config_error k)
    hashed ← call (create_hash_of_input_hashes k c computed.1)
    answer ← check hashed (λ e. do config_error k e; exit (ret done (some e)))
    let (hash, changed) = answer
    exit_if changed (ret done none)
    set_status k (λ t. record t { hash = k.hash_put t.hash c.services.input_hash_name hash })
    marks_true k service_config_ready (lib "ServiceConfigReadyMessage")
    pure hash

  -- `reconcileInit`
  pub reconcile_init : StringMap → Fn k
  reconcile_init labels = do
    o ← the_object k
    read ← ask k (c.services.get_secret o.spec.secret o.meta.namespace)
    check_error read.error (λ e.
        if k.is_not_found e
        then exit (
            ret (after (seconds 10))
              (some (k.errorf (append "OpenStack secret " (append o.spec.secret " not found")))))
        else exit (ret done (some e)))
    let spec : KeystoneServiceSpec = record {
      service_type = service_type;
      service_name = service_name;
      service_description = "Ceilometer Service";
      enabled = true;
      service_user = o.spec.service_user;
      secret = o.spec.secret;
      password_selector = o.spec.password_selectors.service;
    }
    reconcile_keystone_service k c.services spec labels
    set_status k (λ t. if k.hash_is_nil t.hash then record t { hash = k.empty_hash } else t)
    exit (ret done none)

  -- The stateful set and what the status shows of it.
  pub reconcile_stateful_set : String → StringMap → Do k Unit
  reconcile_stateful_set hash labels =
      reconcile_pods k c.services (λ m spec. stateful_set k c.services m spec hash labels)
        (λ n t. record t { ready_count = n })
        λ spec t. record t { networks = spec.network_attachment_definitions }

  -- the mutating function of `Service` of pkg/ceilometer
  fill_service : Meta → ℕ → StringMap → ServiceObject → Option k.Error × ServiceObject
  fill_service owner port labels s = c.service_set_controller_reference owner (record s {
    labels = labels;
    selector = labels;
    protocol = "TCP";
    port = port;
    target_port = port;
  })

  -- `reconcileNormal`
  pub reconcile_normal : Fn k
  reconcile_normal = do
    reconcile_rbac k c.services
    reconcile_transport_url
    hash ← reconcile_inputs
    let labels : StringMap = (app_selector, service_name) ∷ []
    started ← call (reconcile_init labels)
    stop_unless_done k started
    reconcile_stateful_set hash labels
    o ← the_object k
    service ← ask k (
        c.service_create_or_update service_name o.meta.namespace
          (fill_service o.meta ceilometer_prometheus_port labels))
    check_error service.0 (λ e. exit (ret done (some e)))
    exit (ret done none)

  -- The Keystone service, as an object whose finalizer is taken.
  abbrev pub held_service : Held k c.services.KeystoneService
  held_service = record {
    meta = keystone_service_meta;
    with_meta = with_meta;
    update = update_keystone_service;
  }

  -- `reconcileDelete`: the finalizer of the Keystone service goes first.
  pub reconcile_delete : Fn k
  reconcile_delete = do
    o ← the_object k
    found ← ask k (get_keystone_service service_name o.meta.namespace)
    release k held_service found
    set_meta k (λ m. record m { finalizers = (k.remove_finalizer m.finalizers k.finalizer).1 })
    exit (ret done none)

  abbrev unknown : CondType → Format → Condition
  unknown t f = k.conditions.unknown_condition t init_reason f

  -- The conditions of a new Ceilometer.
  pub init_conditions : List Condition
  init_conditions =
      unknown input_ready (lib "InputReadyInitMessage")
      ∷ unknown service_config_ready (lib "ServiceConfigReadyInitMessage")
      ∷ unknown deployment_ready (lib "DeploymentReadyInitMessage")
      ∷ unknown service_account_ready (lib "ServiceAccountReadyInitMessage")
      ∷ unknown role_ready (lib "RoleReadyInitMessage")
      ∷ unknown role_binding_ready (lib "RoleBindingReadyInitMessage")
      ∷ unknown keystone_service_ready (Format.text "")
      ∷ []

  -- The body of `Reconcile` between the helper and the deferred function.
  pub body : Fn k
  body = do
    prepare k init_conditions
    set_status k (λ t. if k.hash_is_nil t.hash then record t { hash = k.empty_hash } else t)
    o ← the_object k
    if o.meta.deleting then reconcile_delete else reconcile_normal

  -- `Reconcile`, whose error is a named result
  unfoldable pub reconcile : k.World → Option (Ret k.Error) × k.World
  reconcile = Reconcile.reconcile k true c.frame body
