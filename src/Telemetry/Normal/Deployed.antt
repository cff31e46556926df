-- ===== src/Telemetry/Normal/Deployed.antt =====
-- What the three sections leave in the cluster.
use mathlib.Core.Path.{subst₂}
use ceilometer_operator.Prelude.{◌≡◌, ◌∙◌, refl, sym, subst, ap, none}
use ceilometer_operator.Go.{return}
use ceilometer_operator.Object.{Meta, done, ret}
use ceilometer_operator.Spec.Ceilometer.{CeilometerSpec, CeilometerStatus}
use ceilometer_operator.Spec.Autoscaling.{AutoscalingSpec, AutoscalingStatus}
use ceilometer_operator.Spec.MetricStorage.{MetricStorageSpec}
use ceilometer_operator.Cluster.{Cluster}
use ceilometer_operator.Telemetry.{
  Calls, TSpec, copy_metric_storage, reconcile_normal, ceilometer_texts, autoscaling_texts,
  metric_storage_texts,
}
use ceilometer_operator.Telemetry.Sections.Deployed.{
  Stored, Stores, Apart, Deployed, section_run-Deployed, section_run-apart,
}
use ceilometer_operator.Telemetry.Normal.{
  St, run_a, run_c, run_m, no_error, runs_keep, normal_run_ok, reconcile_normal_lem,
}

-- The stored objects of the three kinds, with what the calls do to them while nobody else writes.
pub record Storage (k : Cluster) (c : Calls k) : Type 0 where
  pub autoscaling : Stored k (AutoscalingSpec c.RoutedOverrideSpec) (AutoscalingStatus k.HashMap)
  pub ceilometer : Stored k CeilometerSpec (CeilometerStatus k.HashMap)
  pub metric_storage :
      Stored k (MetricStorageSpec c.LabelSelector c.MonitoringStackSpec) c.MetricStorageStatus
  -- the defaulting webhooks of the three kinds
  pub admit_autoscaling :
      AutoscalingSpec c.RoutedOverrideSpec → AutoscalingSpec c.RoutedOverrideSpec
  pub admit_ceilometer : CeilometerSpec → CeilometerSpec
  pub admit_metric_storage :
      MetricStorageSpec c.LabelSelector c.MonitoringStackSpec
      → MetricStorageSpec c.LabelSelector c.MonitoringStackSpec
  pub autoscaling_stores : Stores k c.autoscaling autoscaling admit_autoscaling
  pub ceilometer_stores : Stores k c.ceilometer ceilometer admit_ceilometer
  pub metric_storage_stores : Stores k c.metric_storage metric_storage admit_metric_storage
  pub ceilometer_autoscaling : Apart k c.ceilometer autoscaling
  pub metric_storage_autoscaling : Apart k c.metric_storage autoscaling
  pub metric_storage_ceilometer : Apart k c.metric_storage ceilometer

module _ (k : Cluster) (c : Calls k) (d : Storage k c) where
  -- The three children of a Telemetry, as the cluster stores them, are what its spec asks for.
  abbrev pub AllDeployed : TSpec k c → Meta → k.World → Type 0
  AllDeployed spec owner w =
      Deployed k d.admit_autoscaling spec.autoscaling.enabled (λ _. spec.autoscaling.template)
        (d.autoscaling "autoscaling" owner.namespace w)
      × Deployed k d.admit_ceilometer spec.ceilometer.enabled (λ _. spec.ceilometer.template)
          (d.ceilometer "ceilometer" owner.namespace w)
      × Deployed k d.admit_metric_storage spec.metric_storage.enabled
          (copy_metric_storage spec.metric_storage.template)
          (d.metric_storage "metric-storage" owner.namespace w)

  module _ (s : St k c) where
    runs_AllDeployed :
        (s1 s2 : St k c)
        → s1.instance.spec ≡ s.instance.spec
        → s1.instance.meta ≡ s.instance.meta
        → s2.instance.spec ≡ s.instance.spec
        → s2.instance.meta ≡ s.instance.meta
        → (run_a k c s).1 ≡ s1
        → (run_c k c s1).1 ≡ s2
        → (run_a k c s).0 ≡ none
        → (run_c k c s1).0 ≡ none
        → (run_m k c s2).0 ≡ none
        → AllDeployed s.instance.spec s.instance.meta (run_m k c s2).1.world
    runs_AllDeployed s1 s2 p1 m1 p2 m2 r1 r2 a b e = (
      subst
          (Deployed k d.admit_autoscaling s.instance.spec.autoscaling.enabled
            (λ _. s.instance.spec.autoscaling.template))
          (sym (
            section_run-apart k c.metric_storage metric_storage_texts _ _ s2 d.autoscaling
              d.metric_storage_autoscaling _ "autoscaling" s.instance.meta.namespace
            ∙ ap (λ (t : St k c). d.autoscaling "autoscaling" s.instance.meta.namespace t.world)
                (sym r2)
            ∙ section_run-apart k c.ceilometer ceilometer_texts _ _ s1 d.autoscaling
                d.ceilometer_autoscaling _ "autoscaling" s.instance.meta.namespace
            ∙ ap (λ (t : St k c). d.autoscaling "autoscaling" s.instance.meta.namespace t.world)
                (sym r1)))
          (section_run-Deployed k c.autoscaling autoscaling_texts _ _ s d.autoscaling
            d.admit_autoscaling d.autoscaling_stores _ a),
      subst
          (Deployed k d.admit_ceilometer s.instance.spec.ceilometer.enabled
            (λ _. s.instance.spec.ceilometer.template))
          (sym (
            section_run-apart k c.metric_storage metric_storage_texts _ _ s2 d.ceilometer
              d.metric_storage_ceilometer _ "ceilometer" s.instance.meta.namespace
            ∙ ap (λ (t : St k c). d.ceilometer "ceilometer" s.instance.meta.namespace t.world)
                (sym r2)))
          (subst₂
            (λ (sp : TSpec k c) (m : Meta).
              Deployed k d.admit_ceilometer sp.ceilometer.enabled (λ _. sp.ceilometer.template)
                (d.ceilometer "ceilometer" m.namespace (run_c k c s1).1.world))
            p1 m1
            (section_run-Deployed k c.ceilometer ceilometer_texts _ _ s1 d.ceilometer
              d.admit_ceilometer d.ceilometer_stores _ b)),
      subst₂
          (λ (sp : TSpec k c) (m : Meta).
            Deployed k d.admit_metric_storage sp.metric_storage.enabled
              (copy_metric_storage sp.metric_storage.template)
              (d.metric_storage "metric-storage" m.namespace (run_m k c s2).1.world))
          p2 m2
          (section_run-Deployed k c.metric_storage metric_storage_texts _ _ s2 d.metric_storage
            d.admit_metric_storage d.metric_storage_stores _ e),
    )

    -- If `reconcileNormal` returns no error, then the cluster stores, of each section that is
    -- enabled, an object whose spec is the defaulted copy of the section's template into a spec, and
    -- of each section that is disabled, no object or one that is being deleted; in particular no
    -- section undoes what one before it did. This holds for calls that do to the stored objects what
    -- the Kubernetes API documents, while nobody else writes.
    pub reconcile_normal-AllDeployed :
        (reconcile_normal k c s).0 ≡ return (ret done none)
        → AllDeployed s.instance.spec s.instance.meta (reconcile_normal k c s).1.world
    reconcile_normal-AllDeployed h =
        let ok =
          normal_run_ok k c s
            (no_error k c _ (ap (λ p. p.0) (sym (reconcile_normal_lem k c s)) ∙ h)) in
        let kept = runs_keep k c s in
        subst (λ (t : St k c). AllDeployed s.instance.spec s.instance.meta t.world)
          (sym ok.3 ∙ sym (ap (λ p. p.1) (reconcile_normal_lem k c s)))
          (runs_AllDeployed (run_a k c s).1 (run_c k c (run_a k c s).1).1 kept.0 kept.1 kept.2
            kept.3 refl refl ok.0 ok.1 ok.2)
