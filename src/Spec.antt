-- ===== src/Spec.antt =====
-- The specs of the operator's objects and their defaulting webhooks (api/v1beta1). The type of a
-- field that another project declares is a parameter.
pub mod Ceilometer
pub mod Autoscaling
pub mod MetricStorage
pub mod Telemetry
pub mod Logging
pub mod Defaults
use ceilometer_operator.Prelude.{String}

-- telemetry_types.go: the keys of a secret that hold the passwords.
pub record PasswordsSelector : Type 0 where
  pub service : String
  pub aodh_service : String
  pub database : String
