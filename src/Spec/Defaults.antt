-- ===== src/Spec/Defaults.antt =====
-- The defaulting webhooks: api/v1beta1/{ceilometer,autoscaling,metricstorage,telemetry}_webhook.go.
-- The package variables that `Setup…Defaults` sets are an argument of each `Default`.
pub mod Images
pub mod Stack
use mathlib.Core.Option
use ceilometer_operator.Prelude.{
  String, true, Option, some, if◌then◌else◌, str_eq, ◌&&◌, not, is_some,
}
use ceilometer_operator.Spec.Ceilometer.{CeilometerSpec}
use ceilometer_operator.Spec.Autoscaling.{Aodh, AutoscalingSpec}
use ceilometer_operator.Spec.MetricStorage.{
  PersistentStorage, Storage, MonitoringStack, MetricStorageSpec,
}
use ceilometer_operator.Spec.Telemetry.{TelemetrySpec}

pub record CeilometerDefaults : Type 0 where
  pub central : String
  pub compute : String
  pub notification : String
  pub node_exporter : String
  pub sg_core : String
  pub ipmi : String

pub record AutoscalingDefaults : Type 0 where
  pub aodh_api : String
  pub aodh_evaluator : String
  pub aodh_notifier : String
  pub aodh_listener : String

-- The field for an init image is set and never read.
pub record TelemetryDefaults : Type 0 where
  pub central : String
  pub compute : String
  pub notification : String
  pub sg_core : String
  pub node_exporter : String
  pub ipmi : String
  pub aodh_api : String
  pub aodh_evaluator : String
  pub aodh_notifier : String
  pub aodh_listener : String
  pub aodh_init : String

-- The fall-back images of ceilometer_types.go and autoscaling_types.go.
abbrev pub ceilometer_central_image : String
ceilometer_central_image =
    "quay.io/podified-antelope-centos9/openstack-ceilometer-central:current-podified"

abbrev pub ceilometer_notification_image : String
ceilometer_notification_image =
    "quay.io/podified-antelope-centos9/openstack-ceilometer-notification:current-podified"

abbrev pub ceilometer_sg_core_image : String
ceilometer_sg_core_image = "quay.io/infrawatch/sg-core:v5.2.0-nextgen"

abbrev pub ceilometer_compute_image : String
ceilometer_compute_image =
    "quay.io/podified-antelope-centos9/openstack-ceilometer-compute:current-podified"

abbrev pub ceilometer_ipmi_image : String
ceilometer_ipmi_image =
    "quay.io/podified-antelope-centos9/openstack-ceilometer-ipmi:current-podified"

abbrev pub node_exporter_image : String
node_exporter_image = "quay.io/prometheus/node-exporter:v1.5.0"

abbrev aodh_api_image : String
aodh_api_image = "quay.io/podified-antelope-centos9/openstack-aodh-api:current-podified"

abbrev aodh_evaluator_image : String
aodh_evaluator_image = "quay.io/podified-antelope-centos9/openstack-aodh-evaluator:current-podified"

abbrev aodh_notifier_image : String
aodh_notifier_image = "quay.io/podified-antelope-centos9/openstack-aodh-notifier:current-podified"

abbrev aodh_listener_image : String
aodh_listener_image = "quay.io/podified-antelope-centos9/openstack-aodh-listener:current-podified"

-- `if field == "" { field = value }`
abbrev pub or_default : String → String → String
or_default field value = if str_eq field "" then value else field

-- `CeilometerSpec.Default`
pub default_ceilometer : CeilometerDefaults → CeilometerSpec → CeilometerSpec
default_ceilometer d s = record s {
  central_image = or_default s.central_image d.central;
  notification_image = or_default s.notification_image d.notification;
  sg_core_image = or_default s.sg_core_image d.sg_core;
  compute_image = or_default s.compute_image d.compute;
  ipmi_image = or_default s.ipmi_image d.ipmi;
  node_exporter_image = or_default s.node_exporter_image d.node_exporter;
}

module _ {Override : Type 0} where
  default_aodh : AutoscalingDefaults → Aodh Override → Aodh Override
  default_aodh d a = record a {
    api_image = or_default a.api_image d.aodh_api;
    evaluator_image = or_default a.evaluator_image d.aodh_evaluator;
    notifier_image = or_default a.notifier_image d.aodh_notifier;
    listener_image = or_default a.listener_image d.aodh_listener;
  }

  -- `AutoscalingSpec.Default`
  pub default_autoscaling :
      AutoscalingDefaults → AutoscalingSpec Override → AutoscalingSpec Override
  unfolding default_aodh
  default_autoscaling d s = record s { aodh = default_aodh d s.aodh }

module _ {Override Selector Custom : Type 0} where
  -- `TelemetrySpec.Default`: the images of the two sections; the metric storage is left alone.
  pub default_telemetry :
      TelemetryDefaults
      → TelemetrySpec Override Selector Custom
      → TelemetrySpec Override Selector Custom
  default_telemetry d s = record s {
    ceilometer = record s.ceilometer {
      template = record s.ceilometer.template {
        central_image = or_default s.ceilometer.template.central_image d.central;
        compute_image = or_default s.ceilometer.template.compute_image d.compute;
        ipmi_image = or_default s.ceilometer.template.ipmi_image d.ipmi;
        notification_image = or_default s.ceilometer.template.notification_image d.notification;
        sg_core_image = or_default s.ceilometer.template.sg_core_image d.sg_core;
        node_exporter_image = or_default s.ceilometer.template.node_exporter_image d.node_exporter;
      };
    };
    autoscaling = record s.autoscaling {
      template = record s.autoscaling.template {
        aodh = record s.autoscaling.template.aodh {
          api_image = or_default s.autoscaling.template.aodh.api_image d.aodh_api;
          evaluator_image = or_default s.autoscaling.template.aodh.evaluator_image d.aodh_evaluator;
          notifier_image = or_default s.autoscaling.template.aodh.notifier_image d.aodh_notifier;
          listener_image = or_default s.autoscaling.template.aodh.listener_image d.aodh_listener;
        };
      };
    };
  }

module _ {Selector : Type 0} where
  -- `PersistentStorage.Default`
  default_persistent : PersistentStorage Selector → PersistentStorage Selector
  default_persistent p = record p { pvc_storage_request = or_default p.pvc_storage_request "20G" }

  -- `Storage.Default`: the storage options are filled in if the strategy, then, is "persistent".
  default_storage : Storage Selector → Storage Selector
  unfolding default_persistent
  default_storage s =
      let strategy = or_default s.strategy "persistent" in
      record s {
        strategy = strategy;
        retention = or_default s.retention "24h";
        persistent =
            if str_eq strategy "persistent" then default_persistent s.persistent else s.persistent;
      }

  -- `MonitoringStack.Default`
  pub default_stack : MonitoringStack Selector → MonitoringStack Selector
  unfolding default_storage
  default_stack m = record m {
    scrape_interval = or_default m.scrape_interval "30s";
    storage = default_storage m.storage;
  }

module _ {Selector : Type 0} (no_selector : Selector) where
  -- `MonitoringStack{}` with alerting on
  abbrev pub fresh_stack : MonitoringStack Selector
  fresh_stack = record {
    alerting_enabled = true;
    scrape_interval = "";
    storage = record {
      strategy = "";
      retention = "";
      persistent = record {
        pvc_storage_request = "";
        pvc_storage_selector = no_selector;
        pvc_storage_class = "";
      };
    };
  }

module _ {Selector Custom : Type 0} (no_selector : Selector) where
  -- the stack of the operator's own, after the first test of `MetricStorageSpec.Default`
  abbrev pub chosen_stack :
      Option (MonitoringStack Selector) → Option Custom → Option (MonitoringStack Selector)
  chosen_stack stack custom =
      if not (is_some stack) && not (is_some custom) then some (fresh_stack no_selector) else stack

  -- `MetricStorageSpec.Default`; `no_selector` is `metav1.LabelSelector{}`.
  pub default_metric_storage : MetricStorageSpec Selector Custom → MetricStorageSpec Selector Custom
  unfolding default_stack
  default_metric_storage s = record s {
    monitoring_stack =
        Option.map default_stack (chosen_stack s.monitoring_stack s.custom_monitoring_stack);
  }

-- The environment: `util.GetEnvVar(name, fallback)`.
module _ (get_env_var : String → String → String) where
  -- `SetupDefaultsCeilometer`: the field for the node exporter is not given.
  pub setup_defaults_ceilometer : CeilometerDefaults
  setup_defaults_ceilometer = record {
    central =
        get_env_var "RELATED_IMAGE_CEILOMETER_CENTRAL_IMAGE_URL_DEFAULT" ceilometer_central_image;
    compute =
        get_env_var "RELATED_IMAGE_CEILOMETER_COMPUTE_IMAGE_URL_DEFAULT" ceilometer_compute_image;
    notification =
        get_env_var "RELATED_IMAGE_CEILOMETER_NOTIFICATION_IMAGE_URL_DEFAULT"
          ceilometer_notification_image;
    node_exporter = "";
    sg_core =
        get_env_var "RELATED_IMAGE_CEILOMETER_SGCORE_IMAGE_URL_DEFAULT" ceilometer_sg_core_image;
    ipmi = get_env_var "RELATED_IMAGE_CEILOMETER_IPMI_IMAGE_URL_DEFAULT" ceilometer_ipmi_image;
  }

  -- `SetupDefaultsAutoscaling`
  pub setup_defaults_autoscaling : AutoscalingDefaults
  setup_defaults_autoscaling = record {
    aodh_api = get_env_var "RELATED_IMAGE_AODH_API_IMAGE_URL_DEFAULT" aodh_api_image;
    aodh_evaluator =
        get_env_var "RELATED_IMAGE_AODH_EVALUATOR_IMAGE_URL_DEFAULT" aodh_evaluator_image;
    aodh_notifier = get_env_var "RELATED_IMAGE_AODH_NOTIFIER_IMAGE_URL_DEFAULT" aodh_notifier_image;
    aodh_listener = get_env_var "RELATED_IMAGE_AODH_LISTENER_IMAGE_URL_DEFAULT" aodh_listener_image;
  }

  -- `SetupDefaultsTelemetry`
  pub setup_defaults_telemetry : TelemetryDefaults
  setup_defaults_telemetry = record {
    central =
        get_env_var "RELATED_IMAGE_CEILOMETER_CENTRAL_IMAGE_URL_DEFAULT" ceilometer_central_image;
    compute =
        get_env_var "RELATED_IMAGE_CEILOMETER_COMPUTE_IMAGE_URL_DEFAULT" ceilometer_compute_image;
    notification =
        get_env_var "RELATED_IMAGE_CEILOMETER_NOTIFICATION_IMAGE_URL_DEFAULT"
          ceilometer_notification_image;
    sg_core =
        get_env_var "RELATED_IMAGE_CEILOMETER_SGCORE_IMAGE_URL_DEFAULT" ceilometer_sg_core_image;
    node_exporter =
        get_env_var "RELATED_IMAGE_TELEMETRY_NODE_EXPORTER_IMAGE_URL_DEFAULT" node_exporter_image;
    ipmi = get_env_var "RELATED_IMAGE_CEILOMETER_IPMI_IMAGE_URL_DEFAULT" ceilometer_ipmi_image;
    aodh_api = get_env_var "RELATED_IMAGE_AODH_API_IMAGE_URL_DEFAULT" aodh_api_image;
    aodh_evaluator =
        get_env_var "RELATED_IMAGE_AODH_EVALUATOR_IMAGE_URL_DEFAULT" aodh_evaluator_image;
    aodh_notifier = get_env_var "RELATED_IMAGE_AODH_NOTIFIER_IMAGE_URL_DEFAULT" aodh_notifier_image;
    aodh_listener = get_env_var "RELATED_IMAGE_AODH_LISTENER_IMAGE_URL_DEFAULT" aodh_listener_image;
    aodh_init = get_env_var "RELATED_IMAGE_AODH_API_IMAGE_URL_DEFAULT" aodh_api_image;
  }
