-- ===== src/Workload.antt =====
-- The parts of the Kubernetes API types that the operator fills in (pkg/ceilometer and
-- pkg/autoscaling): containers, volumes and stateful sets.
use ceilometer_operator.Prelude.{ℕ, String, append, Bool, Option, List, StringMap}
use ceilometer_operator.Object.{Meta}

-- corev1.VolumeMount
pub record VolumeMount : Type 0 where
  pub name : String
  pub mount_path : String
  pub sub_path : String
  pub read_only : Bool

-- corev1.Volume of a secret; `items` are keys with their paths.
pub record SecretVolume : Type 0 where
  pub name : String
  pub secret_name : String
  pub default_mode : ℕ
  pub items : StringMap

-- corev1.Probe with an HTTP request
pub record Probe : Type 0 where
  pub timeout_seconds : ℕ
  pub period_seconds : ℕ
  pub initial_delay_seconds : ℕ
  pub path : String
  pub port : ℕ

-- corev1.Container; `env` is the map that `env.MergeEnvs` turns into a list.
pub record Container : Type 0 where
  pub image_pull_policy : String
  pub command : List String
  pub args : List String
  pub image : String
  pub name : String
  pub env : StringMap
  pub run_as_user : ℕ
  pub volume_mounts : List VolumeMount
  pub readiness_probe : Option Probe
  pub liveness_probe : Option Probe

-- appsv1.StatefulSet; the name, namespace and labels of its pods are its own.
pub record StatefulSet : Type 0 where
  pub name : String
  pub namespace : String
  pub labels : StringMap
  pub replicas : ℕ
  pub service_account_name : String
  pub containers : List Container
  pub volumes : List SecretVolume
  pub annotations : StringMap

-- `RbacResourceName`
pub rbac_resource_name : Meta → String
rbac_resource_name m = append "telemetry-" m.name
