-- ===== src/Services/Inputs.antt =====
-- The steps that the reconciliations of Ceilometer, Autoscaling and Logging share: roles, the
-- transport URL, secrets and the hash of all inputs. Each controller has its own copy of the code.
pub mod Success
pub mod Secrets
mod Tests
use ceilometer_operator.Prelude.{
  [], String, append, Bool, Option, none, some, List, ◌∷◌, StringMap, put, str_eq, is_some,
  if◌then◌else◌,
}
use ceilometer_operator.Go.{◌>>◌, ◌>>=◌, Result, ok, err, exit, pure, check, check_error, deref}
use ceilometer_operator.Conditions.{
  Condition, lib, input_ready, service_config_ready, rabbit_mq_transport_url_ready, error_reason,
  requested_reason, severity_info, severity_warning,
}
use ceilometer_operator.Object.{Ret, ret, done, after, seconds}
use ceilometer_operator.Workload.{rbac_resource_name}
use ceilometer_operator.Cluster.{
  Cluster, Stmt, ask, the_object, set_status, change, marks_true, marks_false, stop_unless_done,
}
use ceilometer_operator.Services.{Services, PolicyRule}

abbrev pub rbac_rules : List PolicyRule
rbac_rules =
    record {
      api_groups = "security.openshift.io" ∷ [];
      resource_names = "anyuid" ∷ [];
      resources = "securitycontextconstraints" ∷ [];
      verbs = "use" ∷ [];
    }
    ∷ record {
      api_groups = "" ∷ [];
      resource_names = [];
      resources = "pods" ∷ [];
      verbs = "create" ∷ "get" ∷ "list" ∷ "watch" ∷ "update" ∷ "patch" ∷ "delete" ∷ [];
    }
    ∷ []

module _ (k : Cluster) where
  -- `RbacConditionsSet`, for each condition that is reported; its receiver is a copy of the object.
  unfoldable pub rbac_conditions_set :
      List Condition → k.conditions.Conditions → k.conditions.Conditions
  rbac_conditions_set [] cs = cs
  rbac_conditions_set (x ∷ xs) cs = rbac_conditions_set xs (k.conditions.set_on_copy (some x) cs)

  -- what `createHashOfInputHashes` returns: the hash and whether it changed, or an error
  abbrev pub Hashed : Type 0
  Hashed = Result k.Error (String × Bool)

  module _ {Spec Status : Type 0} where
    -- `if err != nil`, after a call of `getSecret`
    unfoldable pub stop_on_error :
        {A : Type 0} → Ret k.Error × A → Stmt k Spec Status (Ret k.Error) A
    stop_on_error (r, a) = if is_some r.error then exit r else pure a

    -- `if err != nil`, after a configuration was generated or hashed
    unfoldable pub config_error : k.Error → Stmt k Spec Status (Ret k.Error) Unit
    config_error e = do
      marks_false k service_config_ready error_reason severity_warning
          (lib "ServiceConfigReadyErrorMessage") (k.error_text e ∷ [])
      exit (ret done (some e))

module _ (k : Cluster) (v : Services k) {Spec Status : Type 0} where
  -- The roles of the service, the first step of `reconcileNormal`.
  unfoldable pub reconcile_rbac : Stmt k Spec Status (Ret k.Error) Unit
  reconcile_rbac = do
    o ← the_object k
    result ← ask k (v.reconcile_rbac o.meta.namespace (rbac_resource_name o.meta) rbac_rules)
    change k (rbac_conditions_set k result.1)
    stop_unless_done k result.0

  -- `getSecret`: the hash of the secret is added to the variables.
  unfoldable pub get_secret :
      String → StringMap → Stmt k Spec Status (Ret k.Error × StringMap) (Ret k.Error × StringMap)
  get_secret secret_name vars = do
    o ← the_object k
    read ← ask k (v.get_secret secret_name o.meta.namespace)
    check_error read.error (λ e.
        if k.is_not_found e
        then (do
          marks_false k input_ready requested_reason severity_info (lib "InputReadyWaitingMessage")
              []
          exit (
            ret (after (seconds 10))
                (some (k.errorf (append "secret " (append secret_name " not found")))),
            vars,
          ))
        else (do
          marks_false k input_ready error_reason severity_warning (lib "InputReadyErrorMessage")
              (k.error_text e ∷ [])
          exit (ret done (some e), vars)))
    secret ← deref read.secret
    exit (ret done none, put (append "secret-" secret.name) read.hash vars)

  -- `createHashOfInputHashes`: a hash that changed is stored in the status.
  unfoldable pub create_hash_of_input_hashes :
      (Status → k.HashMap)
      → (k.HashMap → Status → Status)
      → StringMap
      → Stmt k Spec Status (Hashed k) (Hashed k)
  create_hash_of_input_hashes hash_of with_hash vars = do
    hash ← check (v.object_hash vars) (λ e. exit (err e))
    o ← the_object k
    let (map, changed) = k.set_hash (hash_of o.status) v.input_hash_name hash
    (if changed then set_status k (with_hash map) else pure tt)
    exit (ok (hash, changed))

  -- `transportURLCreateOrUpdate`, of the URL of this name, with the name of the RabbitMQ cluster
  unfoldable pub transport_url_create_or_update :
      {R : Type 0}
      → String
      → (Spec → String)
      → Stmt k Spec Status R (Option k.Error × v.TransportUrl)
  transport_url_create_or_update name rabbit = do
    o ← the_object k
    ask k (
        v.transport_url_create_or_update name o.meta.namespace λ url.
          v.transport_url_set_controller_reference o.meta
            (v.set_rabbitmq_cluster_name (rabbit o.spec) url))

  -- The transport URL: its error, its secret that is not there yet, or its secret.
  unfoldable pub reconcile_transport_url :
      String → (Spec → String) → (String → Status → Status) → Stmt k Spec Status (Ret k.Error) Unit
  unfolding transport_url_create_or_update
  reconcile_transport_url name rabbit with_secret = do
    created ← transport_url_create_or_update name rabbit
    check_error created.0 (λ e. do
      marks_false k rabbit_mq_transport_url_ready error_reason severity_warning
          (lib "RabbitMqTransportURLReadyErrorMessage") (k.error_text e ∷ [])
      exit (ret done (some e)))
    let secret = v.secret_name created.1
    set_status k (with_secret secret)
    (if str_eq secret ""
        then (do
          marks_false k rabbit_mq_transport_url_ready requested_reason severity_info
              (lib "RabbitMqTransportURLReadyRunningMessage") []
          exit (ret (after (seconds 10)) none))
        else pure tt)
    marks_true k rabbit_mq_transport_url_ready (lib "RabbitMqTransportURLReadyMessage")
