-- ===== src/Telemetry/Normal/Ready.antt =====
-- When a Telemetry is ready: from the children of its sections to its own `Ready` condition.
use ceilometer_operator.Prelude.{
  String, ◌≡◌, ◌↔◌, ◌∙◌, refl, sym, subst, ap, Bool, true, false, Option, none, some, arith, inl,
  inr, Bool-cases,
}
use ceilometer_operator.Go.{return}
use ceilometer_operator.Conditions.{
  CondType, Condition, ready, condition_true, type_eq, ceilometer_ready, autoscaling_ready,
  metric_storage_ready, ConditionsLaws, status_at, status_of,
}
use ceilometer_operator.Conditions.Laws.{type_eq-eq}
use ceilometer_operator.Object.{Meta, done, ret, update_ready}
use ceilometer_operator.Object.Ready.{SubConditionsTrue, update_ready_iff}
use ceilometer_operator.Cluster.{Cluster}
use ceilometer_operator.Telemetry.{
  Child, Calls, ceilometer_texts, autoscaling_texts, metric_storage_texts, copy_metric_storage,
  reconcile_normal,
}
use ceilometer_operator.Telemetry.Sections.Reflects.{Reflects, get-section_run, status_of_ready}
use ceilometer_operator.Telemetry.Normal.{
  St, run_a, run_c, normal_run_ok, no_error, reconcile_normal_lem, reconcile_normal-AllReflect,
}

module _ (k : Cluster) where
  open k.conditions use {Conditions}

  -- a condition that is absent or true
  abbrev Good : CondType → Conditions → Type 0
  Good t cs = (x : Condition) → k.conditions.get cs t ≡ some x → x.status ≡ condition_true

  module _ {Spec' Status' : Type 0} (child : Child k Spec' Status') where
    -- whether the child of a section is ready; a section that is disabled has none
    abbrev pub child_ready :
        (t : CondType) (name : String) (enabled : Bool) (copy : Spec' → Spec') (owner : Meta)
        → (cs : Conditions) → Reflects k child t name enabled copy owner cs
        → Bool
    child_ready t name true copy owner cs shown = k.conditions.is_true shown.obj.conditions ready
    child_ready t name false copy owner cs absent = true

    good_of :
        (b : Bool) (o : Option Condition)
        → status_of o ≡ some (status_of_ready b)
        → (b ≡ true) ↔ ((x : Condition) → o ≡ some x → x.status ≡ condition_true)
    good_of b none h = cc
    good_of true (some y) h = (λ _ x e. ground arith, λ _. refl)
    good_of false (some y) h = (λ e. cc, λ g. cc (g y refl, h))

    child_ready_iff :
        (t : CondType) (name : String) (enabled : Bool) (copy : Spec' → Spec') (owner : Meta)
        → (cs : Conditions) (r : Reflects k child t name enabled copy owner cs)
        → (child_ready t name enabled copy owner cs r ≡ true) ↔ Good t cs
    unfolding status_at
    child_ready_iff t name true copy owner cs r = good_of _ (k.conditions.get cs t) r.status
    child_ready_iff t name false copy owner cs r = (λ _ x e. cc (r, e), λ _. refl)

  sub_conditions_iff :
      (cs : Conditions)
      → ((t : CondType)
          → type_eq autoscaling_ready t ≡ false
          → type_eq ceilometer_ready t ≡ false
          → type_eq metric_storage_ready t ≡ false
          → type_eq t ready ≡ false
          → k.conditions.get cs t ≡ none)
      → SubConditionsTrue k.conditions cs
        ↔ (Good autoscaling_ready cs × Good ceilometer_ready cs × Good metric_storage_ready cs)
  unfolding type_eq
  sub_conditions_iff cs absent = (
    λ h. (
      λ x. h autoscaling_ready x refl,
      λ x. h ceilometer_ready x refl,
      λ x. h metric_storage_ready x refl,
    ),
    λ (a, c, m) t x n g. elim (Bool-cases (type_eq autoscaling_ready t)) [
      | inl e ↦ subst (λ u. Good u cs) (type_eq-eq autoscaling_ready t e) a x g
      | inr e ↦ elim (Bool-cases (type_eq ceilometer_ready t)) [
        | inl f ↦ subst (λ u. Good u cs) (type_eq-eq ceilometer_ready t f) c x g
        | inr f ↦ elim (Bool-cases (type_eq metric_storage_ready t)) [
          | inl d ↦ subst (λ u. Good u cs) (type_eq-eq metric_storage_ready t d) m x g
          | inr d ↦ cc (absent t e f d n, g)
        ]
      ]
    ],
  )

  module _ (c : Calls k) (l : ConditionsLaws k.conditions) (s : St k c) where
    -- The three sections change no condition but their own.
    get-normal :
        (reconcile_normal k c s).0 ≡ return (ret done none)
        → (t : CondType) → type_eq autoscaling_ready t ≡ false
        → type_eq ceilometer_ready t ≡ false
        → type_eq metric_storage_ready t ≡ false
        → k.conditions.get (reconcile_normal k c s).1.instance.conditions t
          ≡ k.conditions.get s.instance.conditions t
    get-normal h t a e m =
        let s1 = (run_a k c s).1 in
        let s2 = (run_c k c s1).1 in
        let ok =
          normal_run_ok k c s
            (no_error k c _ (ap (λ p. p.0) (sym (reconcile_normal_lem k c s)) ∙ h)) in
        ap (λ (x : St k c). k.conditions.get x.instance.conditions t)
          (ap (λ p. p.1) (reconcile_normal_lem k c s) ∙ ok.3)
        ∙ get-section_run k c.metric_storage l metric_storage_texts _ _ s2 _ t m
        ∙ get-section_run k c.ceilometer l ceilometer_texts _ _ s1 _ t e
        ∙ get-section_run k c.autoscaling l autoscaling_texts _ _ s _ t a

    -- A Telemetry whose other conditions are absent, of which `reconcileNormal` returns no error, is
    -- `Ready` when it is written exactly if the children of all its enabled sections are ready.
    pub reconcile_normal-Ready :
        (h : (reconcile_normal k c s).0 ≡ return (ret done none))
        → ((t : CondType)
            → type_eq autoscaling_ready t ≡ false
            → type_eq ceilometer_ready t ≡ false
            → type_eq metric_storage_ready t ≡ false
            → type_eq t ready ≡ false
            → k.conditions.get s.instance.conditions t ≡ none)
        → let cs = (reconcile_normal k c s).1.instance.conditions in
          let (a, e, m) = reconcile_normal-AllReflect k c l s h in
          (status_at k.conditions (update_ready k.conditions cs) ready ≡ some condition_true) ↔ (
            (child_ready c.autoscaling autoscaling_ready "autoscaling"
                s.instance.spec.autoscaling.enabled
                (λ _. s.instance.spec.autoscaling.template)
                s.instance.meta
                cs
                a
              ≡ true)
            × (child_ready c.ceilometer ceilometer_ready "ceilometer"
                  s.instance.spec.ceilometer.enabled
                  (λ _. s.instance.spec.ceilometer.template)
                  s.instance.meta
                  cs
                  e
                ≡ true)
            × (child_ready c.metric_storage metric_storage_ready "metric-storage"
                  s.instance.spec.metric_storage.enabled
                  (copy_metric_storage s.instance.spec.metric_storage.template)
                  s.instance.meta
                  cs
                  m
                ≡ true))
    reconcile_normal-Ready h absent =
        let cs = (reconcile_normal k c s).1.instance.conditions in
        let (a, e, m) = reconcile_normal-AllReflect k c l s h in
        let ready_iff = update_ready_iff k.conditions l cs in
        let sub = sub_conditions_iff cs (λ t x y z n. get-normal h t x y z ∙ absent t x y z n) in
        let ra = child_ready_iff c.autoscaling _ _ _ _ _ cs a in
        let re = child_ready_iff c.ceilometer _ _ _ _ _ cs e in
        let rm = child_ready_iff c.metric_storage _ _ _ _ _ cs m in
        (
          λ r. let (x, y, z) = sub.0 (ready_iff.0 r) in (ra.1 x, re.1 y, rm.1 z),
          λ (x, y, z). ready_iff.1 (sub.1 (ra.0 x, re.0 y, rm.0 z)),
        )
