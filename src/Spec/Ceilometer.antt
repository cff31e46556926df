-- ===== src/Spec/Ceilometer.antt =====
-- api/v1beta1/ceilometer_types.go
use ceilometer_operator.Prelude.{ℕ, String, List}
use ceilometer_operator.Spec.{PasswordsSelector}

pub record CeilometerSpec : Type 0 where
  pub rabbit_mq_cluster_name : String
  pub password_selectors : PasswordsSelector
  pub service_user : String
  pub secret : String
  pub custom_service_config : String
  pub default_config_overwrite : List (String × String)
  pub network_attachment_definitions : List String
  pub central_image : String
  pub notification_image : String
  pub sg_core_image : String
  pub compute_image : String
  pub ipmi_image : String
  pub node_exporter_image : String

-- `CeilometerStatus` without the conditions; the map of hashes may be nil.
pub record CeilometerStatus (HashMap : Type 0) : Type 0 where
  pub ready_count : ℕ
  pub hash : HashMap
  pub transport_url_secret : String
  pub networks : List String
