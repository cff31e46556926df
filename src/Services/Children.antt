-- ===== src/Services/Children.antt =====
-- Two children that Ceilometer and Autoscaling have alike: the service in Keystone and the stateful
-- set, with what the status shows of them.
pub mod Kept
use ceilometer_operator.Prelude.{[], ℕ, none, some, ◌∷◌, StringMap, ltb, is_some, if◌then◌else◌}
use ceilometer_operator.Go.{◌>>◌, ◌>>=◌, Result, exit, exit_if, pure, check, check_error}
use ceilometer_operator.Conditions.{
  lib, deployment_ready, error_reason, requested_reason, severity_info, severity_warning,
}
use ceilometer_operator.Object.{Meta, Ret, ret, done, pending}
use ceilometer_operator.Workload.{StatefulSet}
use ceilometer_operator.Cluster.{
  Cluster, Stmt, ask, the_object, set_status, marks_true, marks_false, sets,
}
use ceilometer_operator.Services.{Services, KeystoneServiceSpec}

module _ (k : Cluster) (v : Services k) {Spec Status : Type 0} where
  -- The Keystone service, and the mirror of its conditions.
  unfoldable pub reconcile_keystone_service :
      KeystoneServiceSpec → StringMap → Stmt k Spec Status (Ret k.Error) Unit
  reconcile_keystone_service spec labels = do
    o ← the_object k
    patched ← ask k (v.keystone_service_create_or_patch spec o.meta.namespace labels)
    exit_if (is_some patched.0.error) patched.0
    sets k patched.1
    exit_if (pending patched.0.result) (ret patched.0.result none)

  -- The stateful set: its definition, the call, its ready replicas and its networks in the status.
  unfoldable pub reconcile_stateful_set :
      (Meta → Spec → Result k.Error StatefulSet)
      → (ℕ → Status → Status)
      → (Spec → Status → Status)
      → Stmt k Spec Status (Ret k.Error) Unit
  reconcile_stateful_set define with_count with_networks = do
    o ← the_object k
    definition ← check (define o.meta o.spec) (λ e. exit (ret done (some e)))
    patched ← ask k (v.stateful_set_create_or_patch definition)
    check_error patched.0.error (λ e. do
      marks_false k deployment_ready error_reason severity_warning
          (lib "DeploymentReadyErrorMessage") (k.error_text e ∷ [])
      exit patched.0)
    (if pending patched.0.result
        then (do
          marks_false k deployment_ready requested_reason severity_info
              (lib "DeploymentReadyRunningMessage") []
          exit (ret patched.0.result none))
        else pure tt)
    check_error (v.stateful_set_set_controller_reference o.meta definition)
        (λ e. exit (ret done (some e)))
    set_status k (with_count patched.1)
    (if ltb 0 patched.1
        then marks_true k deployment_ready (lib "DeploymentReadyMessage")
        else pure tt)
    set_status k (with_networks o.spec)
