-- ===== src/Telemetry/Normal/Follows.antt =====
-- A Telemetry after a pass of the Ceilometer controller, in one cluster.
use ceilometer_operator.Prelude.{
  String, ◌≡◌, ◌∙◌, ◌↔◌, refl, sym, ap, true, false, Bool-cases, inl, inr, Option, none, some,
}
use ceilometer_operator.Go.{return, ok}
use ceilometer_operator.Conditions.{
  Condition, ConditionsLaws, type_eq, status_of, ready, condition_true, condition_false,
  ceilometer_ready, status_at,
}
use ceilometer_operator.Object.{Meta, Ret, ret, done}
use ceilometer_operator.Object.Ready.{SubConditionsTrue}
use ceilometer_operator.Spec.Ceilometer.{CeilometerSpec, CeilometerStatus}
use ceilometer_operator.Cluster.{Cluster, Obj}
use ceilometer_operator.Cluster.Marks as Marks
use ceilometer_operator.Cluster.Reconcile.{closed}
use ceilometer_operator.Cluster.Reconcile.Writes.{reconcile_writes}
use ceilometer_operator.Ceilometer.Calls as CeilometerCalls
use ceilometer_operator.Ceilometer.Normal as Ceilometer
use ceilometer_operator.Telemetry.{
  Calls, reconcile_normal, mutate, ceilometer_texts, autoscaling_texts, metric_storage_texts,
}
use ceilometer_operator.Telemetry.Sections.Deployed.{Stored, Apart, section_run-apart}
use ceilometer_operator.Telemetry.Sections.Reflects.{
  status_of_ready, get-section_run, status-section_run,
}
use ceilometer_operator.Telemetry.Normal.{
  St, run_a, run_c, no_error, runs_keep, normal_run_ok, reconcile_normal_lem,
}

-- The Ceilometer objects of a cluster, and what the calls of two controllers do to their conditions.
pub record Shared (k : Cluster) (t : Calls k) (c : CeilometerCalls.Calls k) : Type 0 where
  pub stored : Stored k CeilometerSpec (CeilometerStatus k.HashMap)
  -- a patch by the Ceilometer controller of an object that is stored as it was read, and is not being
  -- deleted, leaves it stored with the conditions that it is given
  pub patch_stored :
      (before after : Obj k CeilometerSpec (CeilometerStatus k.HashMap)) (w : k.World)
      → stored before.meta.name before.meta.namespace w ≡ some before
      → before.meta.deleting ≡ false
      → after.meta.name ≡ before.meta.name
      → after.meta.namespace ≡ before.meta.namespace
      → (c.frame.patch_instance before after w).0 ≡ none
      → (x : Obj k CeilometerSpec (CeilometerStatus k.HashMap)) × (stored before.meta.name
            before.meta.namespace
            (c.frame.patch_instance before after w).1
          ≡ some x)
        × (x.conditions ≡ after.conditions)
  -- a patch by the Telemetry controller keeps the conditions that its function keeps
  pub patch_keeps :
      (name namespace : String)
      → (f : Obj k CeilometerSpec (CeilometerStatus k.HashMap)
          → Option k.Error × Obj k CeilometerSpec (CeilometerStatus k.HashMap))
      → (w : k.World) (o : Obj k CeilometerSpec (CeilometerStatus k.HashMap))
      → ((x : Obj k CeilometerSpec (CeilometerStatus k.HashMap))
          → (f x).1.conditions ≡ x.conditions)
      → stored name namespace w ≡ some o
      → (t.ceilometer.create_or_patch name namespace f w).0.0 ≡ none
      → (t.ceilometer.create_or_patch name namespace f w).0.1.conditions ≡ o.conditions
  pub owner_keeps :
      (owner : Meta) (o : Obj k CeilometerSpec (CeilometerStatus k.HashMap))
      → (t.ceilometer.set_controller_reference owner o).1.conditions ≡ o.conditions
  -- the calls on an Autoscaling leave the Ceilometer objects as they are
  pub autoscaling_apart : Apart k t.autoscaling stored

module _ (k : Cluster) (l : ConditionsLaws k.conditions) where
  status_of_ready_iff :
      (cs : k.conditions.Conditions)
      → (some (status_of_ready (k.conditions.is_true cs ready)) ≡ some condition_true)
        ↔ (status_at k.conditions cs ready ≡ some condition_true)
  unfolding status_at
  status_of_ready_iff cs = (
    λ e. elim (Bool-cases (k.conditions.is_true cs ready)) [
      | inl q ↦ let (x, g, p) = (l.is_true_iff cs ready).0 q in rw g (ap some p)
      | inr q ↦ absurd (not_false (rw q at e))
    ],
    λ e. rw (present (k.conditions.get cs ready) refl e) refl,
  )
    where
      not_false : some condition_false ≡ some condition_true → ⊥
      not_false q = cc

      present :
          (y : Option Condition)
          → k.conditions.get cs ready ≡ y
          → status_of y ≡ some condition_true
          → k.conditions.is_true cs ready ≡ true
      present none g q = cc
      present (some x) g q = (l.is_true_iff cs ready).1 (x, g, cc)

module _ (k : Cluster) (l : ConditionsLaws k.conditions) (t : Calls k) (c : CeilometerCalls.Calls k)
    (d : Shared k t c) where
  -- The condition of the section shows the object that was stored before the pass.
  status-stored :
      (s : St k t) (o : Obj k CeilometerSpec (CeilometerStatus k.HashMap))
      → s.instance.spec.ceilometer.enabled ≡ true
      → d.stored "ceilometer" s.instance.meta.namespace s.world ≡ some o
      → (reconcile_normal k t s).0 ≡ return (ret done none)
      → status_at k.conditions (reconcile_normal k t s).1.instance.conditions ceilometer_ready
        ≡ some (status_of_ready (k.conditions.is_true o.conditions ready))
  unfolding status_at mutate type_eq
  status-stored s o e p h =
      let ok =
        normal_run_ok k t s
          (no_error k t _ (ap (λ r. r.0) (sym (reconcile_normal_lem k t s)) ∙ h)) in
      let s1 = (run_a k t s).1 in
      let s2 = (run_c k t s1).1 in
      let kept = runs_keep k t s in
      let (patched, shown) =
        status-section_run k t.ceilometer l ceilometer_texts "ceilometer"
          (λ _. s1.instance.spec.ceilometer.template) s1 s1.instance.spec.ceilometer.enabled
          (ap (λ x. x.ceilometer.enabled) kept.0 ∙ e) ok.1 in
      let found =
        section_run-apart k t.autoscaling autoscaling_texts "autoscaling"
          (λ _. s.instance.spec.autoscaling.template) s d.stored d.autoscaling_apart
          s.instance.spec.autoscaling.enabled "ceilometer" s1.instance.meta.namespace
        ∙ ap (λ (m : Meta). d.stored "ceilometer" m.namespace s.world) kept.1
        ∙ p in
      ap (λ (u : St k t). status_at k.conditions u.instance.conditions ceilometer_ready)
        (ap (λ r. r.1) (reconcile_normal_lem k t s) ∙ ok.3)
      ∙ ap status_of
          (get-section_run k t.metric_storage l metric_storage_texts _ _ s2 _ ceilometer_ready refl)
      ∙ shown
      ∙ ap (λ cs. some (status_of_ready (k.conditions.is_true cs ready)))
          (d.patch_keeps "ceilometer" _ _ s1.world o (λ x. d.owner_keeps _ _) found patched)

  -- A pass of the Ceilometer controller over the object named ceilometer, which is not being deleted,
  -- and then a pass of the Telemetry controller, in the same namespace and from the state of the
  -- cluster that the first has left. The body of the first returned and its patch did not fail; the body
  -- kept the name and the namespace, and nobody else has written the object since it was read. If the section is enabled and the second
  -- pass returns no error, the Telemetry shows CeilometerReady true exactly if every condition of the
  -- Ceilometer but `Ready` is true as its body left them. The patches do what is documented.
  pub ceilometer_followed :
      (w w1 : k.World) (o : Obj k CeilometerSpec (CeilometerStatus k.HashMap)) (r : Ret k.Error)
      → (left : Marks.St k CeilometerSpec (CeilometerStatus k.HashMap)) (s : St k t)
      → c.frame.get w ≡ (ok o, w1)
      → c.frame.new_helper o ≡ none
      → Ceilometer.body k c (record { world = w1; instance = o }) ≡ (return r, left)
      → (c.frame.patch_instance o (closed k left.instance) left.world).0 ≡ none
      → d.stored o.meta.name o.meta.namespace left.world ≡ some o
      → o.meta.deleting ≡ false
      → left.instance.meta.name ≡ o.meta.name
      → left.instance.meta.namespace ≡ o.meta.namespace
      → o.meta.name ≡ "ceilometer"
      → o.meta.namespace ≡ s.instance.meta.namespace
      → s.world ≡ (Ceilometer.reconcile k c w).1
      → s.instance.spec.ceilometer.enabled ≡ true
      → (reconcile_normal k t s).0 ≡ return (ret done none)
      → (status_at k.conditions (reconcile_normal k t s).1.instance.conditions ceilometer_ready
          ≡ some condition_true)
        ↔ SubConditionsTrue k.conditions left.instance.conditions
  unfolding ceilometer_operator.Ceilometer.Normal.reconcile
  ceilometer_followed w w1 o r left s g n b p st del nl nsl nm ns ws en h =
      let o' = closed k left.instance in
      let (written, _, _, meta, shown) =
        reconcile_writes k c.frame (Ceilometer.body k c) l true w w1 o r left g n b in
      let w2 = (c.frame.patch_instance o o' left.world).1 in
      let (x, kept, same) =
        d.patch_stored o o' left.world st del (ap (λ (m : Meta). m.name) meta ∙ nl)
          (ap (λ (m : Meta). m.namespace) meta ∙ nsl) p in
      let found =
        ap (d.stored "ceilometer" s.instance.meta.namespace) (ws ∙ ap (λ y. y.1) written)
        ∙ ap (λ y. d.stored y s.instance.meta.namespace w2) (sym nm)
        ∙ ap (λ y. d.stored o.meta.name y w2) (sym ns)
        ∙ kept in
      let shows =
        status-stored s x en found h
        ∙ ap (λ cs. some (status_of_ready (k.conditions.is_true cs ready))) same in
      (
        λ e. shown.0 ((status_of_ready_iff k l o'.conditions).0 (sym shows ∙ e)),
        λ e. shows ∙ (status_of_ready_iff k l o'.conditions).1 (shown.1 e),
      )
