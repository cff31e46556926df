-- ===== src/Telemetry/Sections.antt =====
-- What a section leaves behind: its condition reflects the child, and nothing else is touched.
pub mod Reflects
pub mod Deployed
use ceilometer_operator.Prelude.{
  [], String, ◌≡◌, refl, Bool, true, false, Option, none, some, ◌∷◌, if◌then◌else◌, arith,
}
use ceilometer_operator.Go.{return, Result, ok, err, ◌>>=◌, check, exit_if}
use ceilometer_operator.Conditions.{
  ready, error_reason, requested_reason, severity_warning, severity_info, mark_true, set_false,
}
use ceilometer_operator.Object.{State, done, ret}
use ceilometer_operator.Cluster.{Cluster, Obj, ask, the_object, change, marks_true, marks_false}
use ceilometer_operator.Telemetry.{Child, Texts, ensure_deleted, mutate, reconcile_section}

module _ (k : Cluster) {Spec' Status' : Type 0} (child : Child k Spec' Status') where
  -- what a found child leads to
  delete_effect : Result k.Error (Obj k Spec' Status') → k.World → Option k.Error × k.World
  delete_effect (err e) w = (if k.is_not_found e then none else some e, w)
  delete_effect (ok o) w = if o.meta.deleting then (none, w) else child.delete o w

  ensure_deleted_lem :
      {Spec Status : Type 0} (name namespace : String) (s : State k.World (Obj k Spec Status))
      → let (found, w) = child.get name namespace s.world in
        let (e, w') = delete_effect found w in
        ensure_deleted k child name namespace s ≡ (return (ret done e), record s { world = w' })
  unfolding ensure_deleted ask ◌>>=◌ check delete_effect
  ensure_deleted_lem name namespace s = ground arith

  module _ (texts : Texts) where
    -- what the conditions become
    shows : Option k.Error × Obj k Spec' Status' → k.conditions.Conditions → k.conditions.Conditions
    shows (some e, o) cs =
        set_false k.conditions texts.type error_reason severity_warning texts.error_text
          (k.error_text e ∷ []) cs
    shows (none, o) cs =
        if k.conditions.is_true o.conditions ready
        then mark_true k.conditions texts.type texts.ready_text cs
        else set_false k.conditions texts.type requested_reason severity_info texts.running_text []
            cs

    gone : Option k.Error → k.conditions.Conditions → k.conditions.Conditions
    gone none cs = k.conditions.remove texts.type cs
    gone (some e) cs = cs

  module _ (texts : Texts) (name : String) (copy : Spec' → Spec') {Spec Status : Type 0}
      (s : State k.World (Obj k Spec Status)) where
    open s.instance.meta use {namespace}

    -- A section that is disabled has its child deleted, and its condition removed unless that fails.
    reconcile_section_disabled :
        let (found, w) = child.get name namespace s.world in
        let (e, w') = delete_effect found w in
        reconcile_section k texts child name false copy s ≡ (
          return (ret done e),
          record {
            world = w';
            instance = record s.instance { conditions = gone texts e s.instance.conditions };
          },
        )
    unfolding reconcile_section ask the_object change ◌>>=◌ exit_if gone
    reconcile_section_disabled = ground (arith, ensure_deleted_lem name namespace s)

    -- A section that is enabled has its child made from the template, and shows the child's state.
    reconcile_section_enabled :
        let ((e, o), w) =
          child.create_or_patch name namespace (mutate k child copy s.instance.meta) s.world in
        reconcile_section k texts child name true copy s ≡ (
          return (ret done e),
          record {
            world = w;
            instance = record s.instance { conditions = shows texts (e, o) s.instance.conditions };
          },
        )
    unfolding reconcile_section ask the_object change marks_true marks_false ◌>>=◌ shows
    reconcile_section_enabled = ground arith

    -- The error and the state that a section ends with.
    pub section_run : Bool → Option k.Error × State k.World (Obj k Spec Status)
    section_run true =
        let ((e, o), w) =
          child.create_or_patch name namespace (mutate k child copy s.instance.meta) s.world in
        (
          e,
          record {
            world = w;
            instance = record s.instance { conditions = shows texts (e, o) s.instance.conditions };
          },
        )
    section_run false =
        let (found, w) = child.get name namespace s.world in
        let (e, w') = delete_effect found w in
        (
          e,
          record {
            world = w';
            instance = record s.instance { conditions = gone texts e s.instance.conditions };
          },
        )

    pub reconcile_section_lem :
        (enabled : Bool)
        → reconcile_section k texts child name enabled copy s
          ≡ (return (ret done (section_run enabled).0), (section_run enabled).1)
    unfolding section_run
    reconcile_section_lem true = reconcile_section_enabled
    reconcile_section_lem false = reconcile_section_disabled

    pub section_run-spec :
        (enabled : Bool) → (section_run enabled).1.instance.spec ≡ s.instance.spec
    unfolding section_run
    section_run-spec true = refl
    section_run-spec false = refl

    pub section_run-meta :
        (enabled : Bool) → (section_run enabled).1.instance.meta ≡ s.instance.meta
    unfolding section_run
    section_run-meta true = refl
    section_run-meta false = refl
