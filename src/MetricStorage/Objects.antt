-- ===== src/MetricStorage/Objects.antt =====
-- pkg/metricstorage: the objects that a metric storage is made of.
pub mod Interval
use ceilometer_operator.Prelude.{
  [], ℕ, String, Option, none, some, List, ◌∷◌, StringMap, if◌then◌else◌, str_eq, not,
}
use ceilometer_operator.Go.{Result, ok, err}
use ceilometer_operator.Spec.MetricStorage.{PersistentStorage, MonitoringStack}
use ceilometer_operator.Cluster.{Cluster}
use ceilometer_operator.MetricStorage.Calls.{Pvc, StackSpec, MonitorObject, ScrapeObject, Calls}

abbrev default_pvc_storage_request : String
default_pvc_storage_request = "20G"

abbrev default_scrape_interval : String
default_scrape_interval = "30s"

abbrev pub default_node_exporter_port : ℕ
default_node_exporter_port = 9100

module _ (k : Cluster) (c : Calls k) where
  -- the claim for a persistent volume of a quantity
  claim :
      PersistentStorage c.LabelSelector
      → Result k.Error c.Quantity
      → Result k.Error (Option (Pvc c.LabelSelector c.Quantity))
  claim p (err e) = err e
  claim p (ok quantity) = ok (
      some (record {
        selector =
            if not (c.selector_is_empty p.pvc_storage_selector)
            then some p.pvc_storage_selector
            else none;
        storage_class_name =
            if not (str_eq p.pvc_storage_class "") then some p.pvc_storage_class else none;
        storage = quantity;
      }))

  -- `getPVCSpec`: no claim if the storage is not persistent
  get_pvc_spec :
      MonitoringStack c.LabelSelector → Result k.Error (Option (Pvc c.LabelSelector c.Quantity))
  unfolding claim
  get_pvc_spec m =
      let p = m.storage.persistent in
      if str_eq m.storage.strategy "persistent"
      then claim p (
          if str_eq p.pvc_storage_request ""
          then c.parse_quantity default_pvc_storage_request
          else c.parse_quantity p.pvc_storage_request)
      else ok none

  stack_with :
      MonitoringStack c.LabelSelector
      → StringMap
      → Result k.Error (Option (Pvc c.LabelSelector c.Quantity))
      → Result k.Error (StackSpec c.LabelSelector c.Quantity)
  stack_with m labels (err e) = err e
  stack_with m labels (ok pvc) = ok (record {
    alertmanager_disabled = not m.alerting_enabled;
    replicas = 1;
    persistent_volume_claim = pvc;
    retention = m.storage.retention;
    match_labels = labels;
  })

  -- `MonitoringStack`
  pub monitoring_stack :
      Option (MonitoringStack c.LabelSelector)
      → StringMap
      → Result k.Error (StackSpec c.LabelSelector c.Quantity)
  unfolding stack_with get_pvc_spec
  monitoring_stack none labels = err (k.errorf "monitoringStack is set to nil")
  monitoring_stack (some m) labels = stack_with m labels (get_pvc_spec m)

module _ {Selector : Type 0} where
  -- the interval, as `ServiceMonitor` chooses it
  pub monitor_interval : Option (MonitoringStack Selector) → String
  monitor_interval none = default_scrape_interval
  monitor_interval (some m) =
      if not (str_eq m.scrape_interval "") then m.scrape_interval else default_scrape_interval

  -- `ServiceMonitor`
  pub service_monitor : Option (MonitoringStack Selector) → StringMap → StringMap → MonitorObject
  unfolding monitor_interval
  service_monitor m labels selector = record {
    labels = labels;
    interval = monitor_interval m;
    dropped_labels = "pod" ∷ "namespace" ∷ "instance" ∷ "job" ∷ "publisher" ∷ [];
    selector = selector;
  }

  -- the interval, as `ScrapeConfig` chooses it
  pub scrape_interval : Option (MonitoringStack Selector) → String
  scrape_interval none = default_scrape_interval
  scrape_interval (some m) =
      if not (str_eq m.scrape_interval "") then m.scrape_interval else default_scrape_interval

  -- `ScrapeConfig`
  pub scrape_config : Option (MonitoringStack Selector) → StringMap → List String → ScrapeObject
  unfolding scrape_interval
  scrape_config m labels targets = record {
    labels = labels;
    scrape_interval = scrape_interval m;
    targets = targets;
  }
