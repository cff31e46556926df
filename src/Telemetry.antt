-- ===== src/Telemetry.antt =====
-- controllers/telemetry_controller.go: the controller that turns the sections of a Telemetry into
-- objects of the three other kinds, and mirrors whether they are ready.
pub mod Sections
pub mod Normal
pub mod Tests
use ceilometer_operator.Prelude.{
  [], String, Bool, true, Option, none, some, List, ◌∷◌, if◌then◌else◌, not, is_some,
}
use ceilometer_operator.Go.{◌>>◌, ◌>>=◌, Result, call, exit, pure, exit_if, check}
use ceilometer_operator.Conditions.{
  CondType, Condition, Format, text, ready, ceilometer_ready, autoscaling_ready,
  metric_storage_ready, init_reason, error_reason, requested_reason, severity_warning,
  severity_info,
}
use ceilometer_operator.Object.{Meta, done, Ret, ret}
use ceilometer_operator.Spec.Ceilometer.{CeilometerSpec, CeilometerStatus}
use ceilometer_operator.Spec.Autoscaling.{AutoscalingSpec, AutoscalingStatus}
use ceilometer_operator.Spec.MetricStorage.{MetricStorageSpec}
use ceilometer_operator.Spec.Telemetry.{TelemetrySpec, TelemetryStatus}
use ceilometer_operator.Cluster.{
  Cluster, Obj, Stmt, Handler, ask, the_object, set_meta, set_status, change, marks_true,
  marks_false, stop_unless_done,
}
use ceilometer_operator.Cluster.Reconcile
use ceilometer_operator.Cluster.Reconcile.{Frame, prepare}

-- The calls on the objects of one kind; the strings are a name and a namespace.
pub record Child (k : Cluster) (Spec Status : Type 0) : Type 0 where
  pub get : String → String → k.World → Result k.Error (Obj k Spec Status) × k.World
  pub delete : Obj k Spec Status → k.World → Option k.Error × k.World
  -- controllerutil.CreateOrPatch with its mutating function, and the object that it leaves
  pub create_or_patch :
      String
      → String
      → (Obj k Spec Status → Option k.Error × Obj k Spec Status)
      → k.World
      → (Option k.Error × Obj k Spec Status) × k.World
  -- controllerutil.SetControllerReference, with the owner first
  pub set_controller_reference : Meta → Obj k Spec Status → Option k.Error × Obj k Spec Status

module _ (k : Cluster) {Spec Status Spec' Status' : Type 0} where
  -- `ensureDeleted`: the child is deleted unless it is gone or being deleted.
  pub ensure_deleted : Child k Spec' Status' → String → String → Handler k Spec Status
  ensure_deleted child name namespace = do
    found ← ask k (child.get name namespace)
    obj ← check found (λ e. exit (if k.is_not_found e then ret done none else ret done (some e)))
    if obj.meta.deleting
        then exit (ret done none)
        else do error ← ask k (child.delete obj); exit (ret done error)

-- What the three functions for the sections differ in.
pub record Texts : Type 0 where
  pub type : CondType
  pub ready_text : Format
  pub error_text : Format
  pub running_text : Format

module _ (k : Cluster) {Spec' Status' : Type 0} where
  -- The mutating function: the template is copied into the child, which the Telemetry then owns.
  pub mutate :
      Child k Spec' Status'
      → (Spec' → Spec')
      → Meta
      → Obj k Spec' Status'
      → Option k.Error × Obj k Spec' Status'
  mutate child copy owner obj =
      child.set_controller_reference owner (record obj { spec = copy obj.spec })

module _ (k : Cluster) {Spec Status Spec' Status' : Type 0} where
  -- `reconcileCeilometer`, `reconcileAutoscaling` and `reconcileMetricStorage`, which differ in their
  -- texts, the child's name, and how the template is copied.
  pub reconcile_section :
      Texts → Child k Spec' Status' → String → Bool → (Spec' → Spec') → Handler k Spec Status
  reconcile_section texts child name enabled copy = do
    o ← the_object k
    if not enabled
        then (do
          deleted ← call (ensure_deleted k child name o.meta.namespace)
          exit_if (is_some deleted.error) deleted
          change k (k.conditions.remove texts.type)
          exit (ret done none))
        else do
          patched ← ask k (child.create_or_patch name o.meta.namespace (mutate k child copy o.meta))
          let (error, obj) = patched
          elim error [
            | some e ↦ (do
              marks_false k texts.type error_reason severity_warning texts.error_text
                  (k.error_text e ∷ [])
              exit (ret done (some e)))
            | none ↦ pure tt
          ]
          if k.conditions.is_true obj.conditions ready
              then marks_true k texts.type texts.ready_text
              else marks_false k texts.type requested_reason severity_info texts.running_text []
          exit (ret done none)

abbrev pub ceilometer_texts : Texts
ceilometer_texts = record {
  type = ceilometer_ready;
  ready_text = text "Ceilometer completed";
  error_text = text "Ceilometer error occured %s";
  running_text = text "Ceilometer in progress";
}

abbrev pub autoscaling_texts : Texts
autoscaling_texts = record {
  type = autoscaling_ready;
  ready_text = text "Autoscaling completed";
  error_text = text "Autoscaling error occured %s";
  running_text = text "Autoscaling in progress";
}

abbrev pub metric_storage_texts : Texts
metric_storage_texts = record {
  type = metric_storage_ready;
  ready_text = text "MetricStorage completed";
  error_text = text "MetricStorage error occured %s";
  running_text = text "MetricStorage in progress";
}

-- Fields that are nil in the template are not copied, so the child keeps what it had.
abbrev or_kept : {A : Type 0} → Option A → Option A → Option A
or_kept none old = old
or_kept (some new) old = some new

pub copy_metric_storage :
    {Selector Custom : Type 0}
    → MetricStorageSpec Selector Custom
    → MetricStorageSpec Selector Custom
    → MetricStorageSpec Selector Custom
copy_metric_storage template old = record {
  monitoring_stack = or_kept template.monitoring_stack old.monitoring_stack;
  custom_monitoring_stack = or_kept template.custom_monitoring_stack old.custom_monitoring_stack;
}

-- The calls of the controller, with the types of the specs.
pub record Calls (k : Cluster) : Type 1 where
  pub RoutedOverrideSpec : Type 0
  pub LabelSelector : Type 0
  pub MonitoringStackSpec : Type 0
  pub MetricStorageStatus : Type 0
  pub frame :
      Frame k
        (TelemetrySpec RoutedOverrideSpec LabelSelector MonitoringStackSpec)
        (TelemetryStatus k.HashMap)
  pub ceilometer : Child k CeilometerSpec (CeilometerStatus k.HashMap)
  pub autoscaling : Child k (AutoscalingSpec RoutedOverrideSpec) (AutoscalingStatus k.HashMap)
  pub metric_storage :
      Child k (MetricStorageSpec LabelSelector MonitoringStackSpec) MetricStorageStatus

module _ (k : Cluster) (c : Calls k) where
  open c use {RoutedOverrideSpec, LabelSelector, MonitoringStackSpec}

  abbrev pub TSpec : Type 0
  TSpec = TelemetrySpec RoutedOverrideSpec LabelSelector MonitoringStackSpec

  abbrev pub TStatus : Type 0
  TStatus = TelemetryStatus k.HashMap

  abbrev pub Fn : Type 0
  Fn = Handler k TSpec TStatus

  pub reconcile_ceilometer : Fn
  reconcile_ceilometer s =
      let section = s.instance.spec.ceilometer in
      reconcile_section k ceilometer_texts c.ceilometer "ceilometer" section.enabled
        (λ _. section.template) s

  pub reconcile_autoscaling : Fn
  reconcile_autoscaling s =
      let section = s.instance.spec.autoscaling in
      reconcile_section k autoscaling_texts c.autoscaling "autoscaling" section.enabled
        (λ _. section.template) s

  pub reconcile_metric_storage : Fn
  reconcile_metric_storage s =
      let section = s.instance.spec.metric_storage in
      reconcile_section k metric_storage_texts c.metric_storage "metric-storage" section.enabled
        (copy_metric_storage section.template) s

  -- `if err != nil { return ctrl.Result{}, err } else if result != (ctrl.Result{}) { … }`
  section_done : Ret k.Error → Stmt k TSpec TStatus (Ret k.Error) Unit
  section_done r = elim r.error [ some e ↦ exit (ret done (some e)) | none ↦ stop_unless_done k r ]

  -- `reconcileNormal`: a section is reached only if those before it returned no error.
  pub reconcile_normal : Fn
  reconcile_normal = do
    a ← call reconcile_autoscaling
    section_done a
    b ← call reconcile_ceilometer
    section_done b
    m ← call reconcile_metric_storage
    section_done m
    exit (ret done none)

  -- `reconcileDelete`
  pub reconcile_delete : Fn
  reconcile_delete = do
    set_meta k (λ m. record m { finalizers = (k.remove_finalizer m.finalizers k.finalizer).1 })
    exit (ret done none)

  -- `reconcileInit` writes two log lines.
  pub reconcile_init : Fn
  reconcile_init = exit (ret done none)

  abbrev pub unknown : CondType → Format → Condition
  unknown t f = k.conditions.unknown_condition t init_reason f

  -- The conditions of a new Telemetry.
  abbrev pub init_conditions : List Condition
  init_conditions =
      unknown ceilometer_ready (text "Ceilometer not started")
      ∷ unknown autoscaling_ready (text "Autoscaling not started")
      ∷ unknown metric_storage_ready (text "MetricStorage not started")
      ∷ []

  -- The body of `Reconcile` between the helper and the deferred function.
  pub body : Fn
  body = do
    prepare k init_conditions
    set_status k (λ t. if k.hash_is_nil t.hash then record t { hash = k.empty_hash } else t)
    started ← call reconcile_init
    stop_unless_done k started
    o ← the_object k
    if o.meta.deleting then reconcile_delete else reconcile_normal

  -- `Reconcile`, whose error is a named result
  pub reconcile : k.World → Option (Ret k.Error) × k.World
  reconcile = Reconcile.reconcile k true c.frame body
