-- ===== src/Autoscaling/Pods.antt =====
-- pkg/autoscaling: the stateful set of Aodh, its volumes, the database job, and a monitoring stack.
use ceilometer_operator.Prelude.{[], ℕ, String, append, Bool, true, none, List, ◌∷◌, StringMap, put}
use ceilometer_operator.Go.{Result, ok, err}
use ceilometer_operator.Object.{Meta}
use ceilometer_operator.Spec.Autoscaling.{AutoscalingSpec}
use ceilometer_operator.Workload.{
  VolumeMount, SecretVolume, Container, StatefulSet, rbac_resource_name,
}
use ceilometer_operator.Cluster.{Cluster}
use ceilometer_operator.Services.{Services}

abbrev pub service_name : String
service_name = "aodh"

abbrev pub service_type : String
service_type = "alarming"

abbrev prometheus_retention : String
prometheus_retention = "5h"

abbrev pub database_name : String
database_name = "aodh"

abbrev pub aodh_api_port : ℕ
aodh_api_port = 8042

abbrev prometheus_replicas : ℕ
prometheus_replicas = 1

-- `getVolumes`, whose argument is not used
get_volumes : String → List SecretVolume
get_volumes name =
    record { name = "scripts"; secret_name = "aodh-scripts"; default_mode = 0o740; items = [] }
    ∷ record {
      name = "config-data";
      secret_name = "aodh-config-data";
      default_mode = 0o640;
      items = [];
    }
    ∷ []

-- `getVolumeMounts`
get_volume_mounts : String → List VolumeMount
get_volume_mounts service =
    record {
      name = "scripts";
      mount_path = "/var/lib/openstack/bin";
      sub_path = "";
      read_only = true;
    }
    ∷ record {
      name = "config-data";
      mount_path = "/var/lib/openstack/config";
      sub_path = "";
      read_only = true;
    }
    ∷ record {
      name = "config-data";
      mount_path = "/var/lib/kolla/config_files/config.json";
      sub_path = append service "-config.json";
      read_only = true;
    }
    ∷ []

-- a container of Aodh; the two probes that the function makes are attached to none of them
aodh_container : StringMap → String → String → String → Container
aodh_container env image name mounts = record {
  image_pull_policy = "Always";
  command = "/bin/bash" ∷ [];
  args = "-c" ∷ "/usr/local/bin/kolla_set_configs && /usr/local/bin/kolla_start" ∷ [];
  image = image;
  name = name;
  env = env;
  run_as_user = 0;
  volume_mounts = get_volume_mounts mounts;
  readiness_probe = none;
  liveness_probe = none;
}

-- batchv1.Job, of one container; `secret_env` is a variable with a secret and a key of it.
pub record Job : Type 0 where
  pub name : String
  pub namespace : String
  pub labels : StringMap
  pub restart_policy : String
  pub service_account_name : String
  pub container : Container
  pub secret_env : String × String × String
  pub volumes : List SecretVolume

-- obov1.MonitoringStack, as the function `Prometheus` makes it
pub record PrometheusStack : Type 0 where
  pub name : String
  pub namespace : String
  pub labels : StringMap
  pub alertmanager_disabled : Bool
  pub replicas : ℕ
  pub retention : String
  pub log_level : String
  pub match_labels : StringMap

-- `Prometheus`
prometheus : Meta → StringMap → PrometheusStack
prometheus m labels = record {
  name = append m.name "-prometheus";
  namespace = m.namespace;
  labels = labels;
  alertmanager_disabled = true;
  replicas = prometheus_replicas;
  retention = prometheus_retention;
  log_level = "debug";
  match_labels = labels;
}

module _ {Override : Type 0} where
  -- `DbSyncJob`
  unfoldable pub db_sync_job : Meta → AutoscalingSpec Override → StringMap → Job
  unfolding aodh_container get_volumes get_volume_mounts
  db_sync_job m spec labels = record {
    name = append service_name "-db-sync";
    namespace = m.namespace;
    labels = labels;
    restart_policy = "OnFailure";
    service_account_name = rbac_resource_name m;
    container =
        record (aodh_container
          (put "KOLLA_BOOTSTRAP" "TRUE" (put "KOLLA_CONFIG_STRATEGY" "COPY_ALWAYS" []))
          spec.aodh.api_image (append service_name "-db-sync") "aodh-dbsync") {
            image_pull_policy = "";
          };
    secret_env = ("AodhPassword", spec.aodh.secret, spec.aodh.password_selectors.service);
    volumes = get_volumes service_name;
  }

module _ (k : Cluster) (v : Services k) {Override : Type 0} where
  -- `AodhStatefulSet`; an annotation for the networks is the one thing that can fail.
  unfoldable pub aodh_stateful_set :
      Meta → AutoscalingSpec Override → String → StringMap → Result k.Error StatefulSet
  unfolding aodh_container get_volumes get_volume_mounts
  aodh_stateful_set m spec config_hash labels =
      let env = put "CONFIG_HASH" config_hash (put "KOLLA_CONFIG_STRATEGY" "COPY_ALWAYS" []) in
      elim (v.get_nad_annotation m.namespace spec.aodh.network_attachment_definitions) [
        | err e ↦ err (
            k.errorf_wrapping "failed create network annotation from %s: %w"
              spec.aodh.network_attachment_definitions e)
        | ok annotation ↦ ok (record {
          name = service_name;
          namespace = m.namespace;
          labels = labels;
          replicas = 1;
          service_account_name = rbac_resource_name m;
          containers =
              aodh_container env spec.aodh.api_image "aodh-api" "aodh-api"
              ∷ aodh_container env spec.aodh.evaluator_image "aodh-evaluator" "aodh-evaluator"
              ∷ aodh_container env spec.aodh.notifier_image "aodh-notifier" "aodh-notifier"
              ∷ aodh_container env spec.aodh.listener_image "aodh-listener" "aodh-listener"
              ∷ [];
          volumes = get_volumes service_name;
          annotations = v.merge_string_maps [] annotation;
        })
      ]
