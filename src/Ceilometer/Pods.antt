-- ===== src/Ceilometer/Pods.antt =====
-- pkg/ceilometer: the stateful set of the Ceilometer agents, its volumes and its service.
use ceilometer_operator.Prelude.{
  [], ℕ, String, append, true, false, none, some, List, ◌∷◌, StringMap, put,
}
use ceilometer_operator.Go.{Result, ok, err}
use ceilometer_operator.Object.{Meta}
use ceilometer_operator.Spec.Ceilometer.{CeilometerSpec}
use ceilometer_operator.Workload.{
  VolumeMount, SecretVolume, Probe, Container, StatefulSet, rbac_resource_name,
}
use ceilometer_operator.Cluster.{Cluster}
use ceilometer_operator.Services.{Services}

abbrev pub service_name : String
service_name = "ceilometer"

abbrev pub compute_service_name : String
compute_service_name = "ceilometer-compute"

abbrev pub service_type : String
service_type = "Ceilometer"

abbrev pub ceilometer_prometheus_port : ℕ
ceilometer_prometheus_port = 3000

-- `getVolumes`
get_volumes : String → List SecretVolume
get_volumes name =
    record {
      name = "scripts";
      secret_name = "ceilometer-scripts";
      default_mode = 0o740;
      items = [];
    }
    ∷ record {
      name = "config-data";
      secret_name = "ceilometer-config-data";
      default_mode = 0o640;
      items = [];
    }
    ∷ record {
      name = "sg-core-conf-yaml";
      secret_name = "ceilometer-config-data";
      default_mode = 0o640;
      items = ("sg-core.conf.yaml", "sg-core.conf.yaml") ∷ [];
    }
    ∷ []

-- `getVolumeMounts`
get_volume_mounts : String → List VolumeMount
get_volume_mounts service =
    record {
      name = "scripts";
      mount_path = "/var/lib/openstack/bin";
      sub_path = "";
      read_only = true;
    }
    ∷ record {
      name = "config-data";
      mount_path = "/var/lib/openstack/config";
      sub_path = "";
      read_only = true;
    }
    ∷ record {
      name = "config-data";
      mount_path = "/var/lib/kolla/config_files/config.json";
      sub_path = append service "-config.json";
      read_only = true;
    }
    ∷ []

-- `getSgCoreVolumeMounts`
get_sg_core_volume_mounts : List VolumeMount
get_sg_core_volume_mounts =
    record {
      name = "sg-core-conf-yaml";
      mount_path = "/etc/sg-core.conf.yaml";
      sub_path = "sg-core.conf.yaml";
      read_only = false;
    }
    ∷ []

abbrev probe : ℕ → Probe
probe n = record {
  timeout_seconds = 5;
  period_seconds = n;
  initial_delay_seconds = n;
  path = "/v3";
  port = ceilometer_prometheus_port;
}

-- the environment of the two agents; the hash makes a changed configuration restart them
agent_env : String → StringMap
agent_env config_hash = put "CONFIG_HASH" config_hash (put "KOLLA_CONFIG_STRATEGY" "COPY_ALWAYS" [])

-- the container of an agent
agent : String → String → String → String → Container
agent config_hash image name service = record {
  image_pull_policy = "Always";
  command = "/bin/bash" ∷ [];
  args = "-c" ∷ "/usr/local/bin/kolla_set_configs && /usr/local/bin/kolla_start" ∷ [];
  image = image;
  name = name;
  env = agent_env config_hash;
  run_as_user = 0;
  volume_mounts = get_volume_mounts service;
  readiness_probe = none;
  liveness_probe = none;
}

sg_core : String → Container
sg_core image = record {
  image_pull_policy = "Always";
  command = [];
  args = [];
  image = image;
  name = "sg-core";
  env = [];
  run_as_user = 0;
  volume_mounts = get_sg_core_volume_mounts;
  readiness_probe = some (probe 5);
  liveness_probe = some (probe 3);
}

module _ (k : Cluster) (v : Services k) where
  -- `StatefulSet`; an annotation for the networks is the one thing that can fail.
  unfoldable pub stateful_set :
      Meta → CeilometerSpec → String → StringMap → Result k.Error StatefulSet
  unfolding agent sg_core get_volumes agent_env get_volume_mounts get_sg_core_volume_mounts
  stateful_set m spec config_hash labels =
      elim (v.get_nad_annotation m.namespace spec.network_attachment_definitions) [
        | err e ↦ err (
            k.errorf_wrapping "failed create network annotation from %s: %w"
              spec.network_attachment_definitions e)
        | ok annotation ↦ ok (record {
          name = service_name;
          namespace = m.namespace;
          labels = labels;
          replicas = 1;
          service_account_name = rbac_resource_name m;
          containers =
              agent config_hash spec.central_image "ceilometer-central-agent" "ceilometer-central"
              ∷ agent config_hash spec.notification_image "ceilometer-notification-agent"
                  "ceilometer-notification"
              ∷ sg_core spec.sg_core_image
              ∷ [];
          volumes = get_volumes service_name;
          annotations = v.merge_string_maps [] annotation;
        })
      ]
