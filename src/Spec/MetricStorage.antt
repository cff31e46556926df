-- ===== src/Spec/MetricStorage.antt =====
-- api/v1beta1/metricstorage_types.go
use ceilometer_operator.Prelude.{String, Bool, Option}

pub record PersistentStorage (LabelSelector : Type 0) : Type 0 where
  pub pvc_storage_request : String
  pub pvc_storage_selector : LabelSelector
  pub pvc_storage_class : String

pub record Storage (LabelSelector : Type 0) : Type 0 where
  pub strategy : String
  pub retention : String
  pub persistent : PersistentStorage LabelSelector

pub record MonitoringStack (LabelSelector : Type 0) : Type 0 where
  pub alerting_enabled : Bool
  pub scrape_interval : String
  pub storage : Storage LabelSelector

-- Both fields are pointers.
pub record MetricStorageSpec (LabelSelector MonitoringStackSpec : Type 0) : Type 0 where
  pub monitoring_stack : Option (MonitoringStack LabelSelector)
  pub custom_monitoring_stack : Option MonitoringStackSpec
