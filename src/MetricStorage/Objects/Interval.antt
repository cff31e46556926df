-- ===== src/MetricStorage/Objects/Interval.antt =====
-- The interval at which metrics are scraped.
use ceilometer_operator.Prelude.{
  String, ◌≡◌, refl, false, Option, none, some, List, StringMap, if◌then◌else◌, str_eq, Bool-cases,
  inl, inr,
}
use ceilometer_operator.Spec.MetricStorage.{MonitoringStack}
use ceilometer_operator.MetricStorage.Objects.{
  monitor_interval, scrape_interval, service_monitor, scrape_config,
}

module _ {Selector : Type 0} where
  -- The monitor and the scrape configuration, which choose it each for itself, scrape at the same
  -- interval, which is never blank: that of the stack if there is a stack that gives one, and 30s
  -- otherwise.
  pub service_monitor-scrape_config :
      (m : Option (MonitoringStack Selector)) (labels labels' selector : StringMap)
      → (targets : List String)
      → let interval = (service_monitor m labels selector).interval in
        (interval ≡ (scrape_config m labels' targets).scrape_interval)
        × (str_eq interval "" ≡ false)
        × (interval ≡ elim m [
          | none ↦ "30s"
          | some stack ↦ if str_eq stack.scrape_interval "" then "30s" else stack.scrape_interval
        ])
  unfolding service_monitor scrape_config monitor_interval scrape_interval
  service_monitor-scrape_config none labels labels' selector targets = (refl, refl, refl)
  service_monitor-scrape_config (some stack) labels labels' selector targets =
      elim (Bool-cases (str_eq stack.scrape_interval "")) [
        | inl h ↦ rw h (refl, refl, refl)
        | inr h ↦ rw h (refl, h, refl)
      ]
