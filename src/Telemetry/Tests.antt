-- ===== src/Telemetry/Tests.antt =====
-- A Telemetry whose Ceilometer is ready, whose Autoscaling is not wanted and whose MetricStorage is
-- not ready.
pub mod Deployed
use ceilometer_operator.Prelude.{
  [], ◌↔◌, false, some, none, String, ◌≡◌, refl, Bool, true, List, ◌∷◌, StringMap,
}
use ceilometer_operator.Go.{return, err}
use ceilometer_operator.Telemetry.Normal.Ready.{child_ready, reconcile_normal-Ready}
use ceilometer_operator.Conditions.{
  CondType, type_eq, condition_true, status_at, autoscaling_ready, ceilometer_ready,
  metric_storage_ready, ready, lib, mark_true,
}
use ceilometer_operator.Conditions.Simple.{get_cond, api, laws}
use ceilometer_operator.Object.{update_ready, Object, State, done, ret}
use ceilometer_operator.Spec.Telemetry.{TelemetrySpec, TelemetryStatus}
use ceilometer_operator.Cluster.{Cluster, Obj}
use ceilometer_operator.Telemetry.{
  Child, Calls, reconcile_normal, reconcile_autoscaling, reconcile_ceilometer,
  reconcile_metric_storage, reconcile_section, mutate, section_done, copy_metric_storage,
  ensure_deleted,
}
use ceilometer_operator.Telemetry.Normal.{AllReflect, reconcile_normal-AllReflect}
use ceilometer_operator.Tests.Specs.{ceilometer_spec, autoscaling_spec, metric_storage_spec}
use ceilometer_operator.Tests.World.{cluster, meta_of, no_conditions, empty_conditions}

-- the objects of a kind are made anew, from one object
abbrev child_of : {Spec Status : Type 0} → Obj cluster Spec Status → Child cluster Spec Status
child_of o = record {
  get = λ name namespace w. (err "not found", w);
  delete = λ x w. (none, "deleted" ∷ w);
  create_or_patch = λ name namespace f w. (f o, name ∷ w);
  set_controller_reference = λ owner x. (none, x);
}

abbrev calls : Calls cluster
calls = record {
  RoutedOverrideSpec = Unit;
  LabelSelector = Bool;
  MonitoringStackSpec = String;
  MetricStorageStatus = Unit;
  frame = record {
    get = λ w. (err "not found", w);
    new_helper = λ o. none;
    patch_instance = λ before after w. (none, w);
  };
  ceilometer = child_of (record {
    meta = meta_of "ceilometer" [];
    spec = ceilometer_spec;
    status = record { ready_count = 1; hash = []; transport_url_secret = ""; networks = [] };
    conditions = mark_true api ready (lib "ReadyMessage") empty_conditions;
  });
  autoscaling = child_of (record {
    meta = meta_of "autoscaling" [];
    spec = autoscaling_spec;
    status = record {
      ready_count = 0;
      hash = [];
      networks = [];
      transport_url_secret = "";
      database_hostname = "";
      prometheus_host = "";
      prometheus_port = 0;
      api_endpoints = [];
    };
    conditions = no_conditions;
  });
  metric_storage = child_of (record {
    meta = meta_of "metric-storage" [];
    spec = metric_storage_spec;
    status = tt;
    conditions = empty_conditions;
  });
}

abbrev telemetry :
    State (List String) (Obj cluster (TelemetrySpec Unit Bool String) (TelemetryStatus StringMap))
telemetry = record {
  world = [];
  instance = record {
    meta = meta_of "telemetry" [];
    spec = record {
      autoscaling = record { enabled = false; template = autoscaling_spec };
      ceilometer = record { enabled = true; template = ceilometer_spec };
      metric_storage = record { enabled = true; template = metric_storage_spec };
    };
    status = record { hash = [] };
    conditions = empty_conditions;
  };
}

reconcile_normal_returns : (reconcile_normal cluster calls telemetry).0 ≡ return (ret done none)
unfolding reconcile_normal reconcile_autoscaling reconcile_ceilometer reconcile_metric_storage
    reconcile_section mutate section_done copy_metric_storage ensure_deleted
    ceilometer_operator.Go.◌>>=◌ ceilometer_operator.Cluster.the_object
    ceilometer_operator.Cluster.ask ceilometer_operator.Go.check ceilometer_operator.Go.exit_if
    ceilometer_operator.Cluster.change ceilometer_operator.Cluster.stop_unless_done
    ceilometer_operator.Object.pending ceilometer_operator.Conditions.Simple.is_true_cond
    ceilometer_operator.Conditions.Simple.get_cond mark_true
    ceilometer_operator.Conditions.Simple.set_cond ceilometer_operator.Conditions.type_eq
    ceilometer_operator.Cluster.marks_true ceilometer_operator.Cluster.marks_false
reconcile_normal_returns = refl

reconcile_normal-AllReflect_example :
    AllReflect cluster calls telemetry.instance.spec telemetry.instance.meta
      (reconcile_normal cluster calls telemetry).1.instance.conditions
reconcile_normal-AllReflect_example =
    reconcile_normal-AllReflect cluster calls laws telemetry reconcile_normal_returns

nothing_else :
    (t : CondType)
    → type_eq autoscaling_ready t ≡ false
    → type_eq ceilometer_ready t ≡ false
    → type_eq metric_storage_ready t ≡ false
    → type_eq t ready ≡ false
    → api.get telemetry.instance.conditions t ≡ none
unfolding get_cond
nothing_else t a e m n = refl

reconcile_normal-Ready_example :
    let cs = (reconcile_normal cluster calls telemetry).1.instance.conditions in
    let (a, e, m) =
      reconcile_normal-AllReflect cluster calls laws telemetry reconcile_normal_returns in
    (status_at api (update_ready api cs) ready ≡ some condition_true) ↔ (
      (child_ready cluster calls.autoscaling autoscaling_ready "autoscaling" false
          (λ _. autoscaling_spec)
          telemetry.instance.meta
          cs
          a
        ≡ true)
      × (child_ready cluster calls.ceilometer ceilometer_ready "ceilometer" true
            (λ _. ceilometer_spec)
            telemetry.instance.meta
            cs
            e
          ≡ true)
      × (child_ready cluster calls.metric_storage metric_storage_ready "metric-storage" true
            (copy_metric_storage metric_storage_spec)
            telemetry.instance.meta
            cs
            m
          ≡ true))
reconcile_normal-Ready_example =
    reconcile_normal-Ready cluster calls laws telemetry reconcile_normal_returns nothing_else
