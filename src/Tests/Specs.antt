-- ===== src/Tests/Specs.antt =====
-- Specs of the four kinds, with some images left blank, and the defaults applied to them.
use ceilometer_operator.Prelude.{[], String, ◌≡◌, refl, Bool, true, false, none, some}
use ceilometer_operator.Spec.{PasswordsSelector}
use ceilometer_operator.Spec.Ceilometer.{CeilometerSpec}
use ceilometer_operator.Spec.Autoscaling.{AutoscalingSpec}
use ceilometer_operator.Spec.MetricStorage.{MetricStorageSpec}
use ceilometer_operator.Spec.Telemetry.{TelemetrySpec}
use ceilometer_operator.Spec.Defaults.{
  default_ceilometer, default_autoscaling, default_telemetry, default_metric_storage,
  setup_defaults_telemetry, setup_defaults_ceilometer, setup_defaults_autoscaling,
  ceilometer_central_image, ceilometer_notification_image, ceilometer_sg_core_image,
  ceilometer_compute_image, ceilometer_ipmi_image, node_exporter_image,
}
use ceilometer_operator.Spec.Defaults.Images.{
  Filled, default_telemetry-sections, default_ceilometer-setup,
}
use ceilometer_operator.Spec.Defaults.Stack.{
  IsDeployable, default_metric_storage-IsDeployable, default_metric_storage_keep,
}

abbrev passwords : PasswordsSelector
passwords = record {
  service = "CeilometerPassword";
  aodh_service = "AodhPassword";
  database = "AodhDatabasePassword";
}

abbrev pub ceilometer_spec : CeilometerSpec
ceilometer_spec = record {
  rabbit_mq_cluster_name = "rabbitmq";
  password_selectors = passwords;
  service_user = "ceilometer";
  secret = "osp-secret";
  custom_service_config = "";
  default_config_overwrite = [];
  network_attachment_definitions = [];
  central_image = "central";
  notification_image = "notification";
  sg_core_image = "";
  compute_image = "compute";
  ipmi_image = "ipmi";
  node_exporter_image = "";
}

abbrev pub autoscaling_spec : AutoscalingSpec Unit
autoscaling_spec = record {
  prometheus_host = "";
  prometheus_port = 0;
  aodh = record {
    rabbit_mq_cluster_name = "rabbitmq";
    database_instance = "openstack";
    database_user = "aodh";
    password_selectors = passwords;
    service_user = "aodh";
    secret = "osp-secret";
    custom_service_config = "";
    default_config_overwrite = [];
    network_attachment_definitions = [];
    override_service = none;
    preserve_jobs = false;
    memcached_instance = "memcached";
    api_image = "api";
    evaluator_image = "evaluator";
    notifier_image = "notifier";
    listener_image = "listener";
  };
  heat_instance = "heat";
}

abbrev pub metric_storage_spec : MetricStorageSpec Bool String
metric_storage_spec = record { monitoring_stack = none; custom_monitoring_stack = some "stack" }

-- an environment without the variables
abbrev get_env_var : String → String → String
get_env_var name fallback = fallback

abbrev telemetry_spec : TelemetrySpec Unit Bool String
telemetry_spec = record {
  autoscaling = record { enabled = true; template = autoscaling_spec };
  ceilometer = record { enabled = true; template = ceilometer_spec };
  metric_storage = record { enabled = true; template = metric_storage_spec };
}

default_telemetry-sections_example :
    default_telemetry (setup_defaults_telemetry get_env_var) telemetry_spec ≡ record {
      autoscaling = record {
        enabled = true;
        template = default_autoscaling (setup_defaults_autoscaling get_env_var) autoscaling_spec;
      };
      ceilometer = record {
        enabled = true;
        template =
            record (default_ceilometer (setup_defaults_ceilometer get_env_var) ceilometer_spec) {
              node_exporter_image = node_exporter_image;
            };
      };
      metric_storage = record { enabled = true; template = metric_storage_spec };
    }
default_telemetry-sections_example = default_telemetry-sections get_env_var telemetry_spec

default_ceilometer-setup_example :
    let t = default_ceilometer (setup_defaults_ceilometer get_env_var) ceilometer_spec in
    Filled "central" ceilometer_central_image t.central_image
    × Filled "notification" ceilometer_notification_image t.notification_image
    × Filled "" ceilometer_sg_core_image t.sg_core_image
    × Filled "compute" ceilometer_compute_image t.compute_image
    × Filled "ipmi" ceilometer_ipmi_image t.ipmi_image
    × (t.node_exporter_image ≡ "")
default_ceilometer-setup_example = default_ceilometer-setup get_env_var ceilometer_spec

abbrev empty_storage : MetricStorageSpec Bool String
empty_storage = record { monitoring_stack = none; custom_monitoring_stack = none }

default_metric_storage-IsDeployable_example :
    IsDeployable (default_metric_storage true empty_storage)
default_metric_storage-IsDeployable_example = default_metric_storage-IsDeployable true empty_storage

default_metric_storage_keep_example :
    default_metric_storage true metric_storage_spec ≡ metric_storage_spec
default_metric_storage_keep_example =
    default_metric_storage_keep true metric_storage_spec (refl, tt)
