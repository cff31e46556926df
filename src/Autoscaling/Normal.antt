-- ===== src/Autoscaling/Normal.antt =====
-- controllers/autoscaling_controller.go: `reconcileNormal`, `reconcileInit`, `reconcileDelete` and
-- `Reconcile`.
pub mod Success
pub mod Input
pub mod Passes
pub mod Delete
mod Tests
use ceilometer_operator.Prelude.{
  [], String, append, Bool, false, Option, none, some, List, ◌∷◌, StringMap, is_some, if◌then◌else◌,
}
use ceilometer_operator.Go.{◌>>◌, ◌>>=◌, exit, exit_if, pure, call, check, check_error}
use ceilometer_operator.Conditions.{
  CondType, Condition, Format, lib, text, service_config_ready, deployment_ready,
  service_account_ready, role_ready, role_binding_ready, keystone_service_ready,
  keystone_endpoint_ready, memcached_ready, heat_ready, db_ready, db_sync_ready,
  rabbit_mq_transport_url_ready, init_reason, error_reason, requested_reason, severity_info,
  severity_warning,
}
use ceilometer_operator.Object.{Ret, ret, done, after, seconds, pending}
use ceilometer_operator.Cluster.{
  Cluster, ask, the_object, set_status, set_meta, marks_true, marks_false, stop_unless_done,
}
use ceilometer_operator.Cluster.Reconcile
use ceilometer_operator.Cluster.Reconcile.{prepare}
use ceilometer_operator.Services.Inputs.{
  reconcile_rbac, stop_on_error, config_error, reconcile_transport_url as transport_url,
}
use ceilometer_operator.Autoscaling.Pods.{service_name}
use ceilometer_operator.Autoscaling.Calls.{Calls, EndpointType, Memcached, Do, Fn}
use ceilometer_operator.Autoscaling.Config.{
  get_secret, with_prometheus, generate_service_config, create_hash_of_input_hashes,
}
use ceilometer_operator.Autoscaling.Aodh.{reconcile_delete_aodh, reconcile_init_aodh}
use ceilometer_operator.Autoscaling.Aodh.Expose.{reconcile_normal_aodh}

module _ (k : Cluster) (c : Calls k) where
  -- a wait of ten seconds, with an error that says what is missing
  abbrev missing : {A : Type 0} → String → String → String → Do k c A
  missing kind name what =
      exit (ret (after (seconds 10)) (some (k.errorf (append kind (append name what)))))

  -- what a memcached or a heat that cannot be read is shown as
  unfoldable pub not_read :
      {A : Type 0} → CondType → Format → Format → String → String → k.Error → Do k c A
  not_read t waiting error kind name e =
      if k.is_not_found e
      then (do
        marks_false k t requested_reason severity_info waiting []
        missing kind name " not found")
      else (do
        marks_false k t error_reason severity_warning error (k.error_text e ∷ [])
        exit (ret done (some e)))

  -- the same, of one that is not ready
  unfoldable pub require_ready : CondType → Format → String → String → Bool → Do k c Unit
  require_ready t waiting kind name is_ready = if is_ready then pure tt else (do
    marks_false k t requested_reason severity_info waiting []
    missing kind name " is not ready")

  -- `transportURLCreateOrUpdate`, with the secret of the transport URL
  unfoldable pub reconcile_transport_url : Do k c Unit
  reconcile_transport_url =
      transport_url k c.services (append service_name "-transport")
        (λ spec. spec.aodh.rabbit_mq_cluster_name)
        λ secret t. record t { transport_url_secret = secret }

  -- `getAutoscalingMemcached`, and what is made of it
  unfoldable pub reconcile_memcached : Do k c Memcached
  unfolding not_read require_ready
  reconcile_memcached = do
    o ← the_object k
    found ← ask k (c.get_memcached o.spec.aodh.memcached_instance o.meta.namespace)
    memcached ← check found (
        not_read memcached_ready (lib "MemcachedReadyWaitingMessage")
          (lib "MemcachedReadyErrorMessage") "memcached " o.spec.aodh.memcached_instance)
    require_ready memcached_ready (lib "MemcachedReadyWaitingMessage") "memcached " memcached.name
        memcached.is_ready
    marks_true k memcached_ready (lib "MemcachedReadyMessage")
    pure memcached

  -- `getAutoscalingHeat`, and what is made of it
  unfoldable pub reconcile_heat : Do k c Unit
  unfolding not_read require_ready
  reconcile_heat = do
    o ← the_object k
    found ← ask k (c.get_heat o.spec.heat_instance o.meta.namespace)
    heat ← check found (
        not_read heat_ready (text "Heat has not been found") (text "Heat error occured %s") "heat "
          o.spec.heat_instance)
    require_ready heat_ready (text "Heat isn't ready yet") "heat " heat.name heat.is_ready
    marks_true k heat_ready (lib "ReadyMessage")

  -- The configuration and the hash of all inputs. A hash that changed ends the reconciliation, which
  -- the change of the status starts again.
  unfoldable pub reconcile_config : StringMap → Memcached → Do k c String
  reconcile_config vars memcached = do
    o ← the_object k
    set_status k (with_prometheus k c o.meta o.spec)
    generated ← call (generate_service_config k c vars memcached)
    check_error generated.0 (config_error k)
    hashed ← call (create_hash_of_input_hashes k c generated.1)
    answer ← check hashed (λ e. do config_error k e; exit (ret done (some e)))
    let (hash, changed) = answer
    exit_if changed (ret done none)
    set_status k (λ t. record t { hash = k.hash_put t.hash c.services.input_hash_name hash })
    pure hash

  -- The two secrets with memcached and Heat between them, then the configuration.
  unfoldable pub reconcile_inputs : Do k c String
  unfolding reconcile_memcached reconcile_heat reconcile_config
  reconcile_inputs = do
    o ← the_object k
    first ← call (get_secret k c o.spec.aodh.secret [])
    vars1 ← stop_on_error k first
    memcached ← reconcile_memcached
    reconcile_heat
    p ← the_object k
    second ← call (get_secret k c p.status.transport_url_secret vars1)
    vars2 ← stop_on_error k second
    reconcile_config vars2 memcached

  -- `reconcileInit`
  unfoldable pub reconcile_init : StringMap → Fn k c
  reconcile_init labels = do
    answer ← call (reconcile_init_aodh k c labels)
    stop_unless_done k answer
    exit (ret done none)

  -- `if result != (ctrl.Result{}) { return result, nil }; if err != nil { return result, err }`
  unfoldable pub stop_if_pending : Ret k.Error → Do k c Unit
  stop_if_pending r = do exit_if (pending r.result) (ret r.result none); exit_if (is_some r.error) r

  -- The rest of `reconcileNormal`, with the hash of the inputs.
  unfoldable pub reconcile_service : List EndpointType → String → Fn k c
  unfolding reconcile_init stop_if_pending
  reconcile_service order hash = do
    started ← call (reconcile_init ((c.services.app_selector, service_name) ∷ []))
    stop_if_pending started
    ended ← call (reconcile_normal_aodh k c order hash)
    stop_if_pending ended
    exit (ret done none)

  -- `reconcileNormal`; `order` is the order of the loop over the endpoints.
  unfoldable pub reconcile_normal : List EndpointType → Fn k c
  unfolding reconcile_transport_url reconcile_inputs reconcile_service
  reconcile_normal order = do
    reconcile_rbac k c.services
    marks_true k service_config_ready (lib "ServiceConfigReadyMessage")
    reconcile_transport_url
    hash ← reconcile_inputs
    reconcile_service order hash

  -- `reconcileDelete`: the finalizers of the children go first.
  unfoldable pub reconcile_delete : Fn k c
  reconcile_delete = do
    answer ← call (reconcile_delete_aodh k c)
    stop_unless_done k answer
    set_meta k (λ m. record m { finalizers = (k.remove_finalizer m.finalizers k.finalizer).1 })
    exit (ret done none)

  abbrev unknown : CondType → Format → Condition
  unknown t f = k.conditions.unknown_condition t init_reason f

  -- The conditions of a new Autoscaling; `InputReady` is not among them.
  unfoldable pub init_conditions : List Condition
  init_conditions =
      unknown service_account_ready (lib "ServiceAccountReadyInitMessage")
      ∷ unknown role_ready (lib "RoleReadyInitMessage")
      ∷ unknown role_binding_ready (lib "RoleBindingReadyInitMessage")
      ∷ unknown heat_ready (text "Heat not started")
      ∷ unknown memcached_ready (lib "MemcachedReadyInitMessage")
      ∷ unknown service_config_ready (lib "ServiceConfigReadyInitMessage")
      ∷ unknown db_ready (lib "DBReadyInitMessage")
      ∷ unknown db_sync_ready (lib "DBSyncReadyInitMessage")
      ∷ unknown rabbit_mq_transport_url_ready (lib "RabbitMqTransportURLReadyInitMessage")
      ∷ unknown deployment_ready (lib "DeploymentReadyInitMessage")
      ∷ unknown keystone_service_ready (text "")
      ∷ unknown keystone_endpoint_ready (text "")
      ∷ []

  -- The body of `Reconcile` between the helper and the deferred function.
  unfoldable pub body : List EndpointType → Fn k c
  unfolding init_conditions
  body order = do
    prepare k init_conditions
    set_status k (λ t. if k.hash_is_nil t.hash then record t { hash = k.empty_hash } else t)
    o ← the_object k
    if o.meta.deleting then reconcile_delete else reconcile_normal order

  -- `Reconcile`, whose results have no name: the error of the patch is dropped
  unfoldable pub reconcile : List EndpointType → k.World → Option (Ret k.Error) × k.World
  unfolding body
  reconcile order = Reconcile.reconcile k false c.frame (body order)
