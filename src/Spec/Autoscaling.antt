-- ===== src/Spec/Autoscaling.antt =====
-- api/v1beta1/autoscaling_types.go
use ceilometer_operator.Prelude.{ℕ, String, Bool, Option, List}
use ceilometer_operator.Spec.{PasswordsSelector}

-- `override_service` is `Override.Service`, a pointer.
pub record Aodh (RoutedOverrideSpec : Type 0) : Type 0 where
  pub rabbit_mq_cluster_name : String
  pub database_instance : String
  pub database_user : String
  pub password_selectors : PasswordsSelector
  pub service_user : String
  pub secret : String
  pub custom_service_config : String
  pub default_config_overwrite : List (String × String)
  pub network_attachment_definitions : List String
  pub override_service : Option RoutedOverrideSpec
  pub preserve_jobs : Bool
  pub memcached_instance : String
  pub api_image : String
  pub evaluator_image : String
  pub notifier_image : String
  pub listener_image : String

pub record AutoscalingSpec (RoutedOverrideSpec : Type 0) : Type 0 where
  pub prometheus_host : String
  pub prometheus_port : ℕ
  pub aodh : Aodh RoutedOverrideSpec
  pub heat_instance : String

-- `AutoscalingStatus` without the conditions; the map of hashes may be nil.
pub record AutoscalingStatus (HashMap : Type 0) : Type 0 where
  pub ready_count : ℕ
  pub hash : HashMap
  pub networks : List String
  pub transport_url_secret : String
  pub database_hostname : String
  pub prometheus_host : String
  pub prometheus_port : ℕ
  pub api_endpoints : List (String × String)
