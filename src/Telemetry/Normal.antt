-- ===== src/Telemetry/Normal.antt =====
-- The three sections one after the other: `reconcileNormal`.
pub mod Ready
pub mod Deployed
pub mod Follows
use mathlib.Core.Path.{subst₂}
use ceilometer_operator.Prelude.{◌≡◌, ◌∙◌, refl, sym, subst, ap, Option, none, some, arith}
use ceilometer_operator.Go.{Flow, return, ◌>>=◌, ◌>>◌, call}
use ceilometer_operator.Conditions.{
  type_eq, ceilometer_ready, autoscaling_ready, metric_storage_ready, ConditionsLaws,
}
use ceilometer_operator.Object.{Meta, State, done, pending, Ret, ret}
use ceilometer_operator.Cluster.{Cluster, Obj, stop_unless_done}
use ceilometer_operator.Telemetry.{
  Calls, TSpec, TStatus, Fn, ceilometer_texts, autoscaling_texts, metric_storage_texts,
  copy_metric_storage, reconcile_ceilometer, reconcile_autoscaling, reconcile_metric_storage,
  section_done, reconcile_normal,
}
use ceilometer_operator.Telemetry.Sections.{
  section_run, reconcile_section_lem, section_run-spec, section_run-meta,
}
use ceilometer_operator.Telemetry.Sections.Reflects.{
  Reflects, Reflects-get, get-section_run, section_run-Reflects,
}

module _ (k : Cluster) (c : Calls k) where
  abbrev pub St : Type 0
  St = State k.World (Obj k (TSpec k c) (TStatus k c))

  abbrev pub run_a : St → Option k.Error × St
  run_a s =
      section_run k c.autoscaling autoscaling_texts "autoscaling"
        (λ _. s.instance.spec.autoscaling.template) s s.instance.spec.autoscaling.enabled

  abbrev pub run_c : St → Option k.Error × St
  run_c s =
      section_run k c.ceilometer ceilometer_texts "ceilometer"
        (λ _. s.instance.spec.ceilometer.template) s s.instance.spec.ceilometer.enabled

  abbrev pub run_m : St → Option k.Error × St
  run_m s =
      section_run k c.metric_storage metric_storage_texts "metric-storage"
        (copy_metric_storage s.instance.spec.metric_storage.template) s
        s.instance.spec.metric_storage.enabled

  -- what follows a section that ends with an error or none
  after_section : Option k.Error → St → (St → Option k.Error × St) → Option k.Error × St
  after_section (some e) s rest = (some e, s)
  after_section none s rest = rest s

  -- the error and the state that the sections end with
  pub normal_run : St → Option k.Error × St
  normal_run s = after_section (run_a s).0 (run_a s).1 λ s1.
      after_section (run_c s1).0 (run_c s1).1
        λ s2. after_section (run_m s2).0 (run_m s2).1 λ s3. (none, s3)

  abbrev answer : Option k.Error × St → Flow (Ret k.Error) (Ret k.Error) × St
  answer (e, s) = (return (ret done e), s)

  section_step :
      (f : Fn k c) (rest : Fn k c) (run : St → Option k.Error × St) (e : Option k.Error) (s s' : St)
      → f s ≡ (return (ret done e), s')
      → ((t : St) → rest t ≡ answer (run t))
      → (call f >>= λ a. section_done k c a >> rest) s ≡ answer (after_section e s' run)
  unfolding ◌>>=◌ section_done stop_unless_done after_section pending
  section_step f rest run none s s' p q = rw p (q s')
  section_step f rest run (some e) s s' p q = rw p refl

  reconcile_autoscaling_lem : (s : St) → reconcile_autoscaling k c s ≡ answer (run_a s)
  unfolding reconcile_autoscaling
  reconcile_autoscaling_lem s = reconcile_section_lem k c.autoscaling _ _ _ s _

  reconcile_ceilometer_lem : (s : St) → reconcile_ceilometer k c s ≡ answer (run_c s)
  unfolding reconcile_ceilometer
  reconcile_ceilometer_lem s = reconcile_section_lem k c.ceilometer _ _ _ s _

  reconcile_metric_storage_lem : (s : St) → reconcile_metric_storage k c s ≡ answer (run_m s)
  unfolding reconcile_metric_storage
  reconcile_metric_storage_lem s = reconcile_section_lem k c.metric_storage _ _ _ s _

  pub reconcile_normal_lem : (s : St) → reconcile_normal k c s ≡ answer (normal_run s)
  unfolding reconcile_normal normal_run ◌>>=◌ after_section
  reconcile_normal_lem s =
      section_step (reconcile_autoscaling k c) _ _ _ s _ (reconcile_autoscaling_lem s) λ s1.
        section_step (reconcile_ceilometer k c) _ _ _ s1 _ (reconcile_ceilometer_lem s1) λ s2.
          section_step (reconcile_metric_storage k c) _ _ _ s2 _ (reconcile_metric_storage_lem s2)
            λ s3. refl

  pub no_error :
      (e : Option k.Error)
      → ◌≡◌ {A = Flow (Ret k.Error) (Ret k.Error)} (return (ret done e)) (return (ret done none))
      → e ≡ none
  no_error e h = cc

  -- No error at the end means that there was none on the way.
  pub normal_run_ok :
      (s : St)
      → (normal_run s).0 ≡ none
      → ((run_a s).0 ≡ none)
        × ((run_c (run_a s).1).0 ≡ none)
        × ((run_m (run_c (run_a s).1).1).0 ≡ none)
        × ((normal_run s).1 ≡ (run_m (run_c (run_a s).1).1).1)
  unfolding normal_run after_section
  normal_run_ok s h = ground arith

  -- The sections leave the spec and the metadata as they are.
  pub runs_keep :
      (s : St)
      → let s1 = (run_a s).1 in
        let s2 = (run_c s1).1 in
        (s1.instance.spec ≡ s.instance.spec)
        × (s1.instance.meta ≡ s.instance.meta)
        × (s2.instance.spec ≡ s.instance.spec)
        × (s2.instance.meta ≡ s.instance.meta)
  runs_keep s =
      let p = section_run-spec k c.autoscaling _ _ _ s _ in
      let m = section_run-meta k c.autoscaling _ _ _ s _ in
      (
        p,
        m,
        section_run-spec k c.ceilometer _ _ _ (run_a s).1 _ ∙ p,
        section_run-meta k c.ceilometer _ _ _ (run_a s).1 _ ∙ m,
      )

  -- The three statements about the sections, for a spec, an owner and conditions.
  abbrev pub AllReflect : TSpec k c → Meta → k.conditions.Conditions → Type 0
  AllReflect spec owner cs =
      Reflects k c.autoscaling autoscaling_ready "autoscaling" spec.autoscaling.enabled
        (λ _. spec.autoscaling.template) owner cs
      × Reflects k c.ceilometer ceilometer_ready "ceilometer" spec.ceilometer.enabled
          (λ _. spec.ceilometer.template) owner cs
      × Reflects k c.metric_storage metric_storage_ready "metric-storage"
          spec.metric_storage.enabled (copy_metric_storage spec.metric_storage.template) owner cs

  module _ (l : ConditionsLaws k.conditions) (s : St) where
    runs_AllReflect :
        (s1 s2 : St)
        → s1.instance.spec ≡ s.instance.spec
        → s1.instance.meta ≡ s.instance.meta
        → s2.instance.spec ≡ s.instance.spec
        → s2.instance.meta ≡ s.instance.meta
        → (run_a s).1 ≡ s1
        → (run_c s1).1 ≡ s2
        → (run_a s).0 ≡ none
        → (run_c s1).0 ≡ none
        → (run_m s2).0 ≡ none
        → AllReflect s.instance.spec s.instance.meta (run_m s2).1.instance.conditions
    unfolding type_eq
    runs_AllReflect s1 s2 p1 m1 p2 m2 r1 r2 a b d = (
      Reflects-get k c.autoscaling _ _ _ _ _ (run_a s).1.instance.conditions _
          (get-section_run k c.metric_storage l metric_storage_texts _ _ s2 _ autoscaling_ready refl
            ∙ ap (λ (t : St). k.conditions.get t.instance.conditions autoscaling_ready) (sym r2)
            ∙ get-section_run k c.ceilometer l ceilometer_texts _ _ s1 _ autoscaling_ready refl
            ∙ ap (λ (t : St). k.conditions.get t.instance.conditions autoscaling_ready) (sym r1))
          (section_run-Reflects k c.autoscaling l autoscaling_texts _ _ s _ a),
      Reflects-get k c.ceilometer _ _ _ _ _ (run_c s1).1.instance.conditions _
          (get-section_run k c.metric_storage l metric_storage_texts _ _ s2 _ ceilometer_ready refl
            ∙ ap (λ (t : St). k.conditions.get t.instance.conditions ceilometer_ready) (sym r2))
          (subst₂
            (λ (sp : TSpec k c) (m : Meta).
              Reflects k c.ceilometer ceilometer_ready "ceilometer" sp.ceilometer.enabled
                (λ _. sp.ceilometer.template) m (run_c s1).1.instance.conditions)
            p1 m1 (section_run-Reflects k c.ceilometer l ceilometer_texts _ _ s1 _ b)),
      subst₂
          (λ (sp : TSpec k c) (m : Meta).
            Reflects k c.metric_storage metric_storage_ready "metric-storage"
              sp.metric_storage.enabled (copy_metric_storage sp.metric_storage.template) m
              (run_m s2).1.instance.conditions)
          p2 m2 (section_run-Reflects k c.metric_storage l metric_storage_texts _ _ s2 _ d),
    )

    -- If `reconcileNormal` returns no error, the condition of each section reflects its child: it is
    -- absent if the section is disabled, and otherwise true exactly if the child, patched with the
    -- section's template, is ready.
    pub reconcile_normal-AllReflect :
        (reconcile_normal k c s).0 ≡ return (ret done none)
        → AllReflect s.instance.spec s.instance.meta (reconcile_normal k c s).1.instance.conditions
    reconcile_normal-AllReflect h =
        let ok = normal_run_ok s (no_error _ (ap (λ p. p.0) (sym (reconcile_normal_lem s)) ∙ h)) in
        let kept = runs_keep s in
        subst (λ (t : St). AllReflect s.instance.spec s.instance.meta t.instance.conditions)
          (sym ok.3 ∙ sym (ap (λ p. p.1) (reconcile_normal_lem s)))
          (runs_AllReflect (run_a s).1 (run_c (run_a s).1).1 kept.0 kept.1 kept.2 kept.3 refl refl
            ok.0 ok.1 ok.2)
