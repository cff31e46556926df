-- ===== src/Telemetry/Tests/Deployed.antt =====
-- A cluster that stores at most one object of each kind, so that no name is needed to find it.
use ceilometer_operator.Prelude.{
  [], ◌≡◌, refl, String, Bool, true, false, Option, none, some, StringMap, inl, inr, Bool-cases,
}
use ceilometer_operator.Go.{return, Result, ok, err}
use ceilometer_operator.Conditions.{ready}
use ceilometer_operator.Conditions.Simple.{Conds}
use ceilometer_operator.Object.{Object, State, done, ret}
use ceilometer_operator.Spec.Ceilometer.{CeilometerSpec, CeilometerStatus}
use ceilometer_operator.Spec.Autoscaling.{AutoscalingSpec, AutoscalingStatus}
use ceilometer_operator.Spec.MetricStorage.{MetricStorageSpec}
use ceilometer_operator.Spec.Telemetry.{TelemetrySpec, TelemetryStatus}
use ceilometer_operator.Cluster.{Cluster, Obj}
use ceilometer_operator.Telemetry.{
  Child, Calls, reconcile_normal, reconcile_autoscaling, reconcile_ceilometer,
  reconcile_metric_storage, reconcile_section, mutate, section_done, copy_metric_storage,
  ensure_deleted,
}
use ceilometer_operator.Telemetry.Sections.Deployed.{Stores, Apart}
use ceilometer_operator.Telemetry.Normal.Deployed.{
  Storage, AllDeployed, reconcile_normal-AllDeployed,
}
use ceilometer_operator.Tests.Specs.{ceilometer_spec, autoscaling_spec, metric_storage_spec}
use ceilometer_operator.Tests.World.{cluster_of, meta_of, empty_conditions}

pub record Slots : Type 0 where
  pub autoscaling : Option (Object (AutoscalingSpec Unit) (AutoscalingStatus StringMap) Conds)
  pub ceilometer : Option (Object CeilometerSpec (CeilometerStatus StringMap) Conds)
  pub metric_storage : Option (Object (MetricStorageSpec Bool String) Unit Conds)

abbrev pub slots : Cluster
slots = cluster_of Slots

abbrev pub found_in : {A : Type 0} → Option A → Result String A
found_in none = err "not found"
found_in (some o) = ok o

abbrev pub or_new : {A : Type 0} → A → Option A → A
or_new fresh none = fresh
or_new fresh (some o) = o

-- the calls on one slot, given how it is read and written, and what a new object is
abbrev child_in :
    {Spec Status : Type 0}
    → (Slots → Option (Obj slots Spec Status))
    → (Option (Obj slots Spec Status) → Slots → Slots)
    → Obj slots Spec Status
    → Child slots Spec Status
child_in read write fresh = record {
  get = λ name namespace w. (found_in (read w), w);
  delete = λ o w. (none, write none w);
  create_or_patch =
      λ name namespace f w. let (e, o) = f (or_new fresh (read w)) in ((e, o), write (some o) w);
  set_controller_reference = λ owner o. (none, o);
}

abbrev autoscaling_object : Obj slots (AutoscalingSpec Unit) (AutoscalingStatus StringMap)
autoscaling_object = record {
  meta = meta_of "autoscaling" [];
  spec = autoscaling_spec;
  status = record {
    ready_count = 0;
    hash = [];
    networks = [];
    transport_url_secret = "";
    database_hostname = "";
    prometheus_host = "";
    prometheus_port = 0;
    api_endpoints = [];
  };
  conditions = empty_conditions;
}

abbrev pub ceilometer_object : Obj slots CeilometerSpec (CeilometerStatus StringMap)
ceilometer_object = record {
  meta = meta_of "ceilometer" [];
  spec = record ceilometer_spec { secret = "" };
  status = record { ready_count = 0; hash = []; transport_url_secret = ""; networks = [] };
  conditions = empty_conditions;
}

abbrev metric_storage_object : Obj slots (MetricStorageSpec Bool String) Unit
metric_storage_object = record {
  meta = meta_of "metric-storage" [];
  spec = record { monitoring_stack = none; custom_monitoring_stack = some "custom" };
  status = tt;
  conditions = empty_conditions;
}

abbrev pub put_autoscaling :
    Option (Object (AutoscalingSpec Unit) (AutoscalingStatus StringMap) Conds) → Slots → Slots
put_autoscaling x w = record w { autoscaling = x }

abbrev pub put_ceilometer :
    Option (Object CeilometerSpec (CeilometerStatus StringMap) Conds) → Slots → Slots
put_ceilometer x w = record w { ceilometer = x }

abbrev put_metric_storage :
    Option (Object (MetricStorageSpec Bool String) Unit Conds) → Slots → Slots
put_metric_storage x w = record w { metric_storage = x }

abbrev pub calls : Calls slots
calls = record {
  RoutedOverrideSpec = Unit;
  LabelSelector = Bool;
  MonitoringStackSpec = String;
  MetricStorageStatus = Unit;
  frame = record {
    get = λ w. (err "not found", w);
    new_helper = λ o. none;
    patch_instance = λ before after w. (none, w);
  };
  autoscaling = child_in (λ w. w.autoscaling) put_autoscaling autoscaling_object;
  ceilometer = child_in (λ w. w.ceilometer) put_ceilometer ceilometer_object;
  metric_storage = child_in (λ w. w.metric_storage) put_metric_storage metric_storage_object;
}

found_in-found : {A : Type 0} (x : Option A) (o : A) → found_in x ≡ ok o → x ≡ some o
found_in-found none o h = cc
found_in-found (some x) o h = cc

found_in-missing : {A : Type 0} (x : Option A) (e : String) → found_in x ≡ err e → x ≡ none
found_in-missing none e h = refl
found_in-missing (some x) e h = cc

-- Reading and writing one slot does what is documented.
child_in-Stores :
    {Spec Status : Type 0} (read : Slots → Option (Obj slots Spec Status))
    (write : Option (Obj slots Spec Status) → Slots → Slots) (fresh : Obj slots Spec Status)
    → ((x : Option (Obj slots Spec Status)) (w : Slots) → read (write x w) ≡ x)
    → Stores slots (child_in read write fresh) (λ name namespace w. read w) (λ spec. spec)
child_in-Stores read write fresh l = record {
  get_reads = λ name namespace w. refl;
  get_found = λ name namespace w o h. found_in-found (read w) o h;
  get_missing = λ name namespace w e h n. found_in-missing (read w) e h;
  delete_going = λ name namespace w o p h. rw (l none w) tt;
  patch_stored = λ name namespace f w h. l _ w;
  patch_spec = λ name namespace f w h. (or_new fresh (read w), refl);
  owner_spec = λ owner o. refl;
}

-- Writing a slot leaves another slot as it is.
pub child_in-Apart :
    {Spec Status Spec' Status' : Type 0} (read : Slots → Option (Obj slots Spec Status))
    (write : Option (Obj slots Spec Status) → Slots → Slots) (fresh : Obj slots Spec Status)
    (other : Slots → Option (Obj slots Spec' Status'))
    → ((x : Option (Obj slots Spec Status)) (w : Slots) → other (write x w) ≡ other w)
    → Apart slots (child_in read write fresh) (λ name namespace w. other w)
child_in-Apart read write fresh other l = record {
  get_apart = λ name namespace w n ns. refl;
  delete_apart = λ o w n ns. l none w;
  patch_apart = λ name namespace f w n ns. l _ w;
}

abbrev storage : Storage slots calls
storage = record {
  autoscaling = λ name namespace w. w.autoscaling;
  ceilometer = λ name namespace w. w.ceilometer;
  metric_storage = λ name namespace w. w.metric_storage;
  admit_autoscaling = λ spec. spec;
  admit_ceilometer = λ spec. spec;
  admit_metric_storage = λ spec. spec;
  autoscaling_stores = child_in-Stores _ put_autoscaling _ λ x w. refl;
  ceilometer_stores = child_in-Stores _ put_ceilometer _ λ x w. refl;
  metric_storage_stores = child_in-Stores _ put_metric_storage _ λ x w. refl;
  ceilometer_autoscaling = child_in-Apart _ put_ceilometer _ _ λ x w. refl;
  metric_storage_autoscaling = child_in-Apart _ put_metric_storage _ _ λ x w. refl;
  metric_storage_ceilometer = child_in-Apart _ put_metric_storage _ _ λ x w. refl;
}

-- Autoscaling is stored and not wanted, Ceilometer is wanted and not stored, and MetricStorage is
-- stored with another spec.
abbrev pub telemetry :
    State Slots (Obj slots (TelemetrySpec Unit Bool String) (TelemetryStatus StringMap))
telemetry = record {
  world = record {
    autoscaling = some autoscaling_object;
    ceilometer = none;
    metric_storage = some metric_storage_object;
  };
  instance = record {
    meta = meta_of "telemetry" [];
    spec = record {
      autoscaling = record { enabled = false; template = autoscaling_spec };
      ceilometer = record { enabled = true; template = ceilometer_spec };
      metric_storage = record { enabled = true; template = metric_storage_spec };
    };
    status = record { hash = [] };
    conditions = empty_conditions;
  };
}

reconcile_normal_returns : (reconcile_normal slots calls telemetry).0 ≡ return (ret done none)
unfolding reconcile_normal reconcile_autoscaling reconcile_ceilometer reconcile_metric_storage
    reconcile_section mutate section_done copy_metric_storage ensure_deleted
    ceilometer_operator.Go.◌>>=◌ ceilometer_operator.Cluster.the_object
    ceilometer_operator.Cluster.ask ceilometer_operator.Go.check ceilometer_operator.Go.exit_if
    ceilometer_operator.Cluster.change ceilometer_operator.Cluster.stop_unless_done
    ceilometer_operator.Object.pending ceilometer_operator.Conditions.Simple.is_true_cond
    ceilometer_operator.Conditions.Simple.get_cond ceilometer_operator.Conditions.mark_true
    ceilometer_operator.Conditions.Simple.set_cond ceilometer_operator.Conditions.type_eq
    ceilometer_operator.Cluster.marks_true ceilometer_operator.Cluster.marks_false
reconcile_normal_returns = refl

reconcile_normal-AllDeployed_example :
    AllDeployed slots calls storage telemetry.instance.spec telemetry.instance.meta
      (reconcile_normal slots calls telemetry).1.world
reconcile_normal-AllDeployed_example =
    reconcile_normal-AllDeployed slots calls storage telemetry reconcile_normal_returns

-- whatever Ceilometer is stored
abbrev pub with_ceilometer :
    Obj slots CeilometerSpec (CeilometerStatus StringMap)
    → State Slots (Obj slots (TelemetrySpec Unit Bool String) (TelemetryStatus StringMap))
with_ceilometer o = record telemetry { world = put_ceilometer (some o) telemetry.world }

pub with_ceilometer_returns :
    (o : Obj slots CeilometerSpec (CeilometerStatus StringMap))
    → (reconcile_normal slots calls (with_ceilometer o)).0 ≡ return (ret done none)
unfolding reconcile_normal reconcile_autoscaling reconcile_ceilometer reconcile_metric_storage
    reconcile_section mutate section_done copy_metric_storage ensure_deleted
    ceilometer_operator.Go.◌>>=◌ ceilometer_operator.Cluster.the_object
    ceilometer_operator.Cluster.ask ceilometer_operator.Go.check ceilometer_operator.Go.exit_if
    ceilometer_operator.Cluster.change ceilometer_operator.Cluster.stop_unless_done
    ceilometer_operator.Object.pending ceilometer_operator.Cluster.marks_true
    ceilometer_operator.Cluster.marks_false
with_ceilometer_returns o = elim (Bool-cases (slots.conditions.is_true o.conditions ready)) [
  | inl p ↦ elim (Bool-cases (slots.conditions.is_true metric_storage_object.conditions ready)) [
    | inl q ↦ rw (p, q) refl
    | inr q ↦ rw (p, q) refl
  ]
  | inr p ↦ elim (Bool-cases (slots.conditions.is_true metric_storage_object.conditions ready)) [
    | inl q ↦ rw (p, q) refl
    | inr q ↦ rw (p, q) refl
  ]
]
