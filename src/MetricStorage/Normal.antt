-- ===== src/MetricStorage/Normal.antt =====
-- The reconciliation of a MetricStorage: `reconcileNormal`, `reconcileDelete` and `Reconcile`.
pub mod Success
mod Tests
use ceilometer_operator.Prelude.{
  [], String, false, Option, none, some, List, ◌∷◌, StringMap, str_eq, is_some, not, ◌&&◌,
  if◌then◌else◌,
}
use ceilometer_operator.Go.{◌>>◌, ◌>>=◌, Result, ok, err, exit, pure, check_error}
use ceilometer_operator.Conditions.{
  CondType, Condition, Format, lib, text, reason, init_reason, monitoring_stack_ready,
  service_monitor_ready, scrape_config_ready, node_set_ready, severity_error,
}
use ceilometer_operator.Object.{Meta, Ret, ret, done, after, seconds}
use ceilometer_operator.Cluster.{Cluster, ask, the_object, set_meta, marks_true, marks_false}
use ceilometer_operator.Cluster.Reconcile
use ceilometer_operator.Cluster.Reconcile.{prepare}
use ceilometer_operator.MetricStorage.Calls.{
  StackSpec, StackCondition, StackObject, MonitorObject, ScrapeObject, Calls, MSpec, Do, Fn,
}
use ceilometer_operator.MetricStorage.Objects.{monitoring_stack, service_monitor, scrape_config}
use ceilometer_operator.MetricStorage.Watches.{ensure_watches}
use ceilometer_operator.MetricStorage.Targets.{get_node_exporter_targets, is_empty}

-- the first condition of the stack that is not true
first_not_true : List StackCondition → Option StackCondition
first_not_true [] = none
first_not_true (x ∷ xs) = if str_eq x.status "True" then first_not_true xs else some x

module _ (k : Cluster) (c : Calls k) where
  open c use {MonitoringStackSpec}

  -- A kind that cannot be watched: the condition says so, and the pass is repeated in ten seconds.
  watch : String → CondType → String → String → Do k c Unit
  watch name type cannot message = do
    error ← ask k (ensure_watches k c name)
    check_error error (λ e. do
      marks_false k type (reason cannot) severity_error (text message) (k.error_text e ∷ [])
      exit (ret (after (seconds 10)) none))

  -- an error, with nothing set
  fail : Option k.Error → Do k c Unit
  fail error = check_error error (λ e. exit (ret done (some e)))

  stack_fields :
      Meta
      → StringMap
      → StackObject MonitoringStackSpec
      → Result k.Error (StackSpec c.LabelSelector c.Quantity)
      → Option k.Error × StackObject MonitoringStackSpec
  stack_fields owner labels object (err e) = (some e, object)
  stack_fields owner labels object (ok fields) =
      c.stack_reference owner (record object { spec = c.stack_of fields; labels = labels })

  -- The mutating function of the stack: the custom one if it is given and not empty.
  fill_stack :
      Meta
      → MSpec k c
      → StringMap
      → StackObject MonitoringStackSpec
      → Option k.Error × StackObject MonitoringStackSpec
  fill_stack owner spec labels object = elim spec.custom_monitoring_stack [
    | none ↦ stack_fields owner labels object (monitoring_stack k c spec.monitoring_stack labels)
    | some custom ↦
        if c.stack_is_empty custom
        then stack_fields owner labels object (monitoring_stack k c spec.monitoring_stack labels)
        else c.stack_reference owner (record object { spec = custom; labels = labels })
  ]

  -- What is shown of the stack, from the first of its conditions that is not true.
  show_first : List StackCondition → Option StackCondition → Do k c Unit
  show_first conditions (some x) =
      marks_false k monitoring_stack_ready (reason x.reason) severity_error (text x.message) []
  show_first conditions none =
      if is_empty conditions
      then pure tt
      else marks_true k monitoring_stack_ready (lib "ReadyMessage")

  -- What the conditions of the stack make of its condition in the status.
  show_stack : List StackCondition → Do k c Unit
  unfolding show_first
  show_stack conditions = show_first conditions (first_not_true conditions)

  fill_monitor : Meta → MSpec k c → StringMap → MonitorObject → Option k.Error × MonitorObject
  fill_monitor owner spec labels object =
      c.monitor_reference owner
        (service_monitor spec.monitoring_stack labels ((c.app_selector, "ceilometer") ∷ []))

  filled_scrape :
      Meta
      → MSpec k c
      → StringMap
      → ScrapeObject
      → Result k.Error (List String) × k.World
      → (Option k.Error × ScrapeObject) × k.World
  filled_scrape owner spec labels object (err e, w) = ((some e, object), w)
  filled_scrape owner spec labels object (ok targets, w) =
      (c.scrape_reference owner (scrape_config spec.monitoring_stack labels targets), w)

  fill_scrape :
      Meta
      → MSpec k c
      → StringMap
      → ScrapeObject
      → k.World
      → (Option k.Error × ScrapeObject) × k.World
  fill_scrape owner spec labels object w =
      filled_scrape owner spec labels object (get_node_exporter_targets k c owner.namespace w)

  -- The monitoring stack, the first of the three objects.
  reconcile_stack : StringMap → Do k c Unit
  reconcile_stack labels = do
    watch "monitoringstacks.monitoring.rhobs" monitoring_stack_ready
        "Can't own MonitoringStack resource" "Error occured when trying to own: %s"
    o ← the_object k
    patched ←
        ask k
          (c.stack_create_or_patch o.meta.name o.meta.namespace (fill_stack o.meta o.spec labels))
    fail patched.0
    show_stack patched.1.conditions

  -- The monitor of the metrics of Ceilometer.
  reconcile_monitor : StringMap → Do k c Unit
  reconcile_monitor labels = do
    watch "servicemonitors.monitoring.rhobs" service_monitor_ready
        "Can't own ServiceMonitor resource" "Error occured when trying to own %s"
    o ← the_object k
    patched ←
        ask k (
          c.monitor_create_or_patch o.meta.name o.meta.namespace
            (fill_monitor o.meta o.spec labels))
    fail patched.0
    marks_true k service_monitor_ready (lib "ReadyMessage")

  -- The scrape configuration of the node exporters.
  reconcile_scrape : StringMap → Do k c Unit
  reconcile_scrape labels = do
    watch "openstackdataplanenodesets.dataplane.openstack.org" node_set_ready
        "Can't watch NodeSet resource" "Error occured when trying to watch %s"
    marks_true k node_set_ready (lib "ReadyMessage")
    watch "scrapeconfigs.monitoring.rhobs" scrape_config_ready "Can't own ScrapeConfig resource"
        "Error occured when trying to own %s"
    o ← the_object k
    patched ←
        ask k
          (c.scrape_create_or_patch o.meta.name o.meta.namespace (fill_scrape o.meta o.spec labels))
    fail patched.0
    marks_true k scrape_config_ready (lib "ReadyMessage")

  -- `reconcileNormal`
  pub reconcile_normal : Fn k c
  reconcile_normal = do
    o ← the_object k
    let labels : StringMap = (c.app_selector, "metricStorage") ∷ []
    (if not (is_some o.spec.custom_monitoring_stack) && not (is_some o.spec.monitoring_stack)
        then (do
          marks_false k monitoring_stack_ready (reason "MonitoringStack isn't configured properly")
              severity_error (text "MonitoringStack isn't configured properly: %s")
              ("Either \"customMonitoringStack\" or \"monitoringStack\" must be set, but both are nil."
                ∷ [])
          exit (ret done none))
        else pure tt)
    reconcile_stack labels
    reconcile_monitor labels
    reconcile_scrape labels
    exit (ret done none)

  -- `reconcileDelete`
  pub reconcile_delete : Fn k c
  reconcile_delete = do
    set_meta k (λ m. record m { finalizers = (k.remove_finalizer m.finalizers k.finalizer).1 })
    exit (ret done none)

  abbrev unknown : CondType → Format → Condition
  unknown t f = k.conditions.unknown_condition t init_reason f

  -- The conditions of a new MetricStorage.
  pub init_conditions : List Condition
  init_conditions =
      unknown monitoring_stack_ready (text "MonitoringStack not started")
      ∷ unknown service_monitor_ready (text "ServiceMonitor not started")
      ∷ unknown scrape_config_ready (text "ScrapeConfig not started")
      ∷ unknown node_set_ready (text "NodeSet not watched")
      ∷ []

  -- The body of `Reconcile` between the helper and the deferred function.
  pub body : Fn k c
  body = do
    prepare k init_conditions
    o ← the_object k
    if o.meta.deleting then reconcile_delete else reconcile_normal

  -- `Reconcile`, whose error is not a named result
  pub reconcile : k.World → Option (Ret k.Error) × k.World
  reconcile = Reconcile.reconcile k false c.frame body
