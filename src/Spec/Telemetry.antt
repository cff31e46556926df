-- ===== src/Spec/Telemetry.antt =====
-- api/v1beta1/telemetry_types.go
use ceilometer_operator.Prelude.{Bool}
use ceilometer_operator.Spec.Ceilometer.{CeilometerSpec}
use ceilometer_operator.Spec.Autoscaling.{AutoscalingSpec}
use ceilometer_operator.Spec.MetricStorage.{MetricStorageSpec}

-- A section of the spec: whether the component is deployed, and its own spec.
pub record Section (Spec : Type 0) : Type 0 where
  pub enabled : Bool
  pub template : Spec

pub record TelemetrySpec (RoutedOverrideSpec LabelSelector MonitoringStackSpec : Type 0)
    : Type 0 where
  pub autoscaling : Section (AutoscalingSpec RoutedOverrideSpec)
  pub ceilometer : Section CeilometerSpec
  pub metric_storage : Section (MetricStorageSpec LabelSelector MonitoringStackSpec)

-- `TelemetryStatus` without the conditions; the map of hashes may be nil.
pub record TelemetryStatus (HashMap : Type 0) : Type 0 where
  pub hash : HashMap
