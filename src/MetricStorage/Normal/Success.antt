-- ===== src/MetricStorage/Normal/Success.antt =====
-- What is true of the conditions of a MetricStorage when `reconcileNormal` returns without error.
use ceilometer_operator.Prelude.{
  [], String, ◌≡◌, ◌∙◌, sym, subst, ◌∷◌, Bool-cases, inl, inr, refl, true, Option, none, some, List,
  StringMap, is_some, ◌||◌,
}
use ceilometer_operator.Go.{return, exit, pure, ◌>>=◌, ◌>>◌}
use ceilometer_operator.Go.Ensures.{
  Ends, Ensures, Ensures-bind, Ensures-exit, Ensures-pure, Ensures-check_error, Ensures-if,
}
use ceilometer_operator.Conditions.{
  CondType, ConditionsLaws, monitoring_stack_ready, service_monitor_ready, scrape_config_ready,
  node_set_ready, lib,
}
use ceilometer_operator.Object.{Ret, ret, done}
use ceilometer_operator.Cluster.{Cluster, the_object, marks_true}
use ceilometer_operator.Cluster.Marks.{
  St, On, True, Ensures-ask, Ensures-the_object, Ensures-marks_true, Ensures-marks_false,
}
use ceilometer_operator.Cluster.Success.{IfDone, failed, later}
use ceilometer_operator.MetricStorage.Calls.{StackCondition, Calls, MSpec, Fn}
use ceilometer_operator.MetricStorage.Targets.{is_empty}
use ceilometer_operator.MetricStorage.Watches.{ensure_watches}
use ceilometer_operator.MetricStorage.Normal.{
  show_first, watch, fail, show_stack, reconcile_stack, reconcile_monitor, reconcile_scrape,
  reconcile_normal,
}

module _ (k : Cluster) (c : Calls k) (l : ConditionsLaws k.conditions) where
  open k.conditions use {Conditions}

  abbrev S : Type 0
  S = St k (MSpec k c) Unit

  -- the conditions of the three objects other than the stack
  abbrev pub Shown : Conditions → Type 0
  Shown cs =
      True k service_monitor_ready cs × True k node_set_ready cs × True k scrape_config_ready cs

  abbrev T : Ret k.Error → S → Type 0
  T = IfDone k Shown

  -- a watch that is not possible asks for another pass
  Ensures-watch :
      (P : Conditions → Type 0) (name : String) (type : CondType) (cannot message : String)
      → Ensures (On k P) (watch k c name type cannot message) (λ _. On k P) T
  unfolding watch
  Ensures-watch P name type cannot message =
      Ensures-bind _ _ _ _ (Ensures-ask k P (ensure_watches k c name)) λ error.
        Ensures-check_error error _ λ e _.
          Ensures-bind (λ _ _. Unit) _ _ _
            (Ensures-marks_false k P l type _ _ _ _ (λ _. Unit) (λ cs cs' p h. tt))
            λ _. Ensures-exit _ λ s h. later k Shown s

  Ensures-fail :
      (P : Conditions → Type 0) (error : Option k.Error)
      → Ensures (On k P) (fail k c error) (λ _. On k P) T
  unfolding fail
  Ensures-fail P error =
      Ensures-check_error error _ λ e _. Ensures-exit _ λ s h. failed k Shown _ refl s

  Ensures-show_stack :
      (cs : List StackCondition) (o : Option StackCondition)
      → Ensures (On k λ _. Unit) (show_first k c cs o) (λ _. On k λ _. Unit) T
  unfolding show_first
  Ensures-show_stack cs (some x) = Ensures-marks_false k _ l _ _ _ _ _ _ λ cs cs' p h. tt
  Ensures-show_stack cs none =
      Ensures-if (is_empty cs) (pure tt) (marks_true k monitoring_stack_ready (lib "ReadyMessage"))
        (λ _. Ensures-pure _ λ s h. h) λ _. Ensures-marks_true k _ l _ _ _ λ cs cs' p q r. tt

  Ensures-reconcile_stack :
      (labels : StringMap)
      → Ensures (On k λ _. Unit) (reconcile_stack k c labels) (λ _. On k λ _. Unit) T
  unfolding reconcile_stack show_stack
  Ensures-reconcile_stack labels = Ensures-bind _ _ _ _ (Ensures-watch _ _ _ _ _) λ _.
      Ensures-bind _ _ _ _ (Ensures-the_object k _) λ o.
        Ensures-bind _ _ _ _ (Ensures-ask k _ _)
          λ patched. Ensures-bind _ _ _ _ (Ensures-fail _ _) λ _. Ensures-show_stack _ _

  Ensures-reconcile_monitor :
      (labels : StringMap)
      → Ensures
          (On k λ _. Unit)
          (reconcile_monitor k c labels)
          (λ _. On k (True k service_monitor_ready))
          T
  unfolding reconcile_monitor
  Ensures-reconcile_monitor labels = Ensures-bind _ _ _ _ (Ensures-watch _ _ _ _ _) λ _.
      Ensures-bind _ _ _ _ (Ensures-the_object k _) λ o.
        Ensures-bind _ _ _ _ (Ensures-ask k _ _) λ patched.
          Ensures-bind _ _ _ _ (Ensures-fail _ _)
            λ _. Ensures-marks_true k _ l _ _ _ λ cs cs' p q r. q

  Ensures-reconcile_scrape :
      (labels : StringMap)
      → Ensures
          (On k (True k service_monitor_ready))
          (reconcile_scrape k c labels)
          (λ _. On k Shown)
          T
  unfolding reconcile_scrape
  Ensures-reconcile_scrape labels = Ensures-bind _ _ _ _ (Ensures-watch _ _ _ _ _) λ _.
      Ensures-bind (λ _. On k λ cs. True k service_monitor_ready cs × True k node_set_ready cs) _ _
        _ (Ensures-marks_true k _ l _ _ _ λ cs cs' p q r. (r service_monitor_ready p, q))
        λ _. Ensures-bind _ _ _ _ (Ensures-watch _ _ _ _ _) λ _.
          Ensures-bind _ _ _ _ (Ensures-the_object k _) λ o.
            Ensures-bind _ _ _ _ (Ensures-ask k _ _) λ patched.
              Ensures-bind _ _ _ _ (Ensures-fail _ _) λ _.
                Ensures-marks_true k _ l _ _ _
                  λ cs cs' p q r. (r service_monitor_ready p.0, r node_set_ready p.1, q)

  abbrev objects : StringMap → Fn k c
  objects labels = do
    reconcile_stack k c labels
    reconcile_monitor k c labels
    reconcile_scrape k c labels
    exit (ret done none)

  Ensures-objects :
      (labels : StringMap) → Ensures (On k λ _. Unit) (objects labels) (λ (_ : Ret k.Error) _. ⊥) T
  Ensures-objects labels = Ensures-bind _ _ _ _ (Ensures-reconcile_stack labels) λ _.
      Ensures-bind _ _ _ _ (Ensures-reconcile_monitor labels)
        λ _. Ensures-bind _ _ _ _ (Ensures-reconcile_scrape labels) λ _. Ensures-exit _ λ s h _. h

  objects_run :
      (s : S)
      → is_some s.instance.spec.custom_monitoring_stack || is_some s.instance.spec.monitoring_stack
        ≡ true
      → reconcile_normal k c s ≡ objects ((c.app_selector, "metricStorage") ∷ []) s
  unfolding reconcile_normal ◌>>=◌ the_object
  objects_run s h = elim (Bool-cases (is_some s.instance.spec.custom_monitoring_stack)) [
    | inl a ↦ rw a refl
    | inr a ↦ rw (a, rw a at h) refl
  ]

  -- Where the reconciliation of a metric storage that has a stack of either kind in its spec returns
  -- no error and asks for no other pass, the service monitor and the scrape configuration are there
  -- and the node sets are watched, as their conditions say.
  pub reconcile_normal-Shown :
      (s s' : S)
      → is_some s.instance.spec.custom_monitoring_stack || is_some s.instance.spec.monitoring_stack
        ≡ true
      → reconcile_normal k c s ≡ (return (ret done none), s')
      → Shown s'.instance.conditions
  reconcile_normal-Shown s s' h e =
      subst (λ p. Ends (λ (_ : Ret k.Error) (_ : S). ⊥) T p.0 p.1) (sym (objects_run s h) ∙ e)
        ((Ensures-objects ((c.app_selector, "metricStorage") ∷ [])).at s tt) refl
