-- ===== src/Autoscaling/Normal/Input/Kept.antt =====
-- The statements of the reconciliation of an Autoscaling leave an `InputReady` that is not true so.
use ceilometer_operator.Prelude.{
  String, refl, true, false, Option, none, some, ℕ, Bool, List, StringMap,
}
use ceilometer_operator.Go.{Result, ok, err}
use ceilometer_operator.Go.Laws.{Keeps, Keeps-bind, keeps_rules}
use ceilometer_operator.Conditions.{ConditionsLaws, type_eq, keystone_service_ready}
use ceilometer_operator.Object.{Meta, CtrlResult, Ret}
use ceilometer_operator.Cluster.{Cluster, stop_by, stop_unless_done}
use ceilometer_operator.Cluster.Marks.{
  On, Keeps-ask, Keeps-the_object, Keeps-set_status, Keeps-set_spec, Keeps-set_meta, Keeps-change,
  Keeps-ask_bind,
}
use ceilometer_operator.Services.{KeystoneServiceSpec}
use ceilometer_operator.Workload.{StatefulSet}
use ceilometer_operator.Services.Inputs
use ceilometer_operator.Services.Children
use ceilometer_operator.Services.Children.Kept.{MirrorsKeystone}
use ceilometer_operator.Services.Release.{Held, release, take_finalizer}
use ceilometer_operator.Autoscaling.Calls.{Calls, ASpec, AStatus}
use ceilometer_operator.Autoscaling.Aodh
use ceilometer_operator.Autoscaling.Normal
use ceilometer_operator.Autoscaling.Normal.Input.{
  Blocked, AllRbac, CopyKeepsInput, Keeps-mark, Keeps-unmark, Keeps-mirror, Blocked-rbac,
}

pub ruleset blocked_rules = (
  keeps_rules, Keeps-ask, Keeps-the_object, Keeps-set_status, Keeps-set_spec, Keeps-set_meta,
  Keeps-mark, Keeps-unmark,
)

module _ (k : Cluster) (c : Calls k) (l : ConditionsLaws k.conditions) where
  -- The conditions that `ReconcileRbac` sets are those of the roles, and they leave `InputReady` alone.
  pub record SetsRbac : Type 0 where
    pub roles :
        (namespace name : String) (w : k.World)
        → AllRbac k (c.services.reconcile_rbac namespace name Inputs.rbac_rules w).0.1
    pub copy_keeps : CopyKeepsInput k

  abbrev pub P : k.conditions.Conditions → Type 0
  P = Blocked k

  module _ {Spec Status : Type 0} where
    pub Keeps-stop_unless_done :
        (r : Ret k.Error) → Keeps (On k {Spec = Spec} {Status = Status} P) (stop_unless_done k r)
    unfolding stop_unless_done
    Keeps-stop_unless_done r = by_error r.result r.error
      where
        by_error :
            (result : CtrlResult) (o : Option k.Error)
            → Keeps (On k {Spec = Spec} {Status = Status} P) (stop_by k result o)
        by_error result (some e) = search keeps_rules
        by_error result none = search keeps_rules

    pub Keeps-reconcile_rbac :
        SetsRbac
        → Keeps (On k P) (Inputs.reconcile_rbac k c.services {Spec = Spec} {Status = Status})
    unfolding ceilometer_operator.Services.Inputs.reconcile_rbac
    Keeps-reconcile_rbac h = Keeps-bind _ _ (Keeps-the_object k _) λ o. Keeps-ask_bind k _ _ _ λ w.
        Keeps-bind _ _
          (Keeps-change k _ _ λ cs b. Blocked-rbac k l h.copy_keeps _ cs (h.roles _ _ w) b)
          λ _. Keeps-stop_unless_done _

    pub Keeps-reconcile_transport_url :
        (name : String) (rabbit : Spec → String) (with_secret : String → Status → Status)
        → Keeps (On k P) (Inputs.reconcile_transport_url k c.services name rabbit with_secret)
    unfolding ceilometer_operator.Services.Inputs.reconcile_transport_url
        ceilometer_operator.Services.Inputs.transport_url_create_or_update type_eq
    Keeps-reconcile_transport_url name rabbit with_secret = search blocked_rules depth 24

    pub Keeps-get_secret :
        (name : String) (vars : StringMap)
        → Keeps (On k P) (Inputs.get_secret k c.services {Spec = Spec} {Status = Status} name vars)
    unfolding ceilometer_operator.Services.Inputs.get_secret
    Keeps-get_secret name vars = search blocked_rules depth 24

    pub Keeps-config_error :
        (e : k.Error) → Keeps (On k P) (Inputs.config_error k {Spec = Spec} {Status = Status} e)
    unfolding ceilometer_operator.Services.Inputs.config_error
    Keeps-config_error e = search blocked_rules

    pub Keeps-stop_on_error :
        {A : Type 0} (r : Ret k.Error × A)
        → Keeps (On k P) (Inputs.stop_on_error k {Spec = Spec} {Status = Status} r)
    unfolding ceilometer_operator.Services.Inputs.stop_on_error
    Keeps-stop_on_error (r, a) = search blocked_rules

    pub Keeps-reconcile_stateful_set :
        (define : Meta → Spec → Result k.Error StatefulSet) (with_count : ℕ → Status → Status)
        → (with_networks : Spec → Status → Status)
        → Keeps
            (On k P)
            (Children.reconcile_stateful_set k c.services define with_count with_networks)
    unfolding ceilometer_operator.Services.Children.reconcile_stateful_set type_eq
    Keeps-reconcile_stateful_set define with_count with_networks = search blocked_rules depth 24

    pub Keeps-reconcile_keystone_service :
        MirrorsKeystone k c.services keystone_service_ready
        → (spec : KeystoneServiceSpec) (labels : StringMap)
        → Keeps (On k P) (
            Children.reconcile_keystone_service k c.services {Spec = Spec} {Status = Status} spec
              labels)
    unfolding ceilometer_operator.Services.Children.reconcile_keystone_service type_eq
    Keeps-reconcile_keystone_service m spec labels = Keeps-bind _ _ (Keeps-the_object k _) λ o.
        Keeps-ask_bind k _ _ _ λ w. Keeps-bind _ _ (search keeps_rules) λ _.
          Keeps-bind _ _
            (Keeps-mirror k l keystone_service_ready _ (m spec o.meta.namespace labels w) refl)
            λ _. search keeps_rules

  module _ {X : Type 0} (h : Held k X) where
    pub Keeps-release :
        (found : Result k.Error X)
        → Keeps (On k P) (release k {Spec = ASpec k c} {Status = AStatus k c} h found)
    unfolding release take_finalizer
    Keeps-release (err e) = search blocked_rules
    Keeps-release (ok x) = taken (k.remove_finalizer (h.meta x).finalizers k.finalizer)
      where
        taken :
            (r : Bool × List String)
            → Keeps (On k P) (take_finalizer k {Spec = ASpec k c} {Status = AStatus k c} h x r)
        taken (false, finalizers) = search keeps_rules
        taken (true, finalizers) = search blocked_rules

  pub Keeps-reconcile_delete : Keeps (On k P) (Normal.reconcile_delete k c)
  unfolding ceilometer_operator.Autoscaling.Normal.reconcile_delete
      ceilometer_operator.Autoscaling.Aodh.reconcile_delete_aodh
  Keeps-reconcile_delete =
      search (blocked_rules, Keeps-release, Keeps-released, Keeps-stop_unless_done) depth 24
    where
      Keeps-released :
          (found : Result k.Error c.Database) → Keeps (On k P) (Aodh.release_database k c found)
      Keeps-released (err e) = search blocked_rules
      Keeps-released (ok db) = search blocked_rules
