-- ===== src/Cluster/Reconcile/NewObject.antt =====
-- The first pass over a new object.
use ceilometer_operator.Prelude.{
  ◌≡◌, ◌∙◌, Bool-cases, inl, inr, ap, sym, refl, true, false, none, some, List, arith,
  if◌then◌else◌,
}
use ceilometer_operator.Go.{Flow, return, exit_if, ◌>>=◌}
use ceilometer_operator.Conditions.{
  CondType, Condition, ready, condition_true, type_eq, ConditionsLaws, status_at,
}
use ceilometer_operator.Conditions.Laws.{type_eq-eq}
use ceilometer_operator.Object.{State, done, Ret, ret}
use ceilometer_operator.Object.Ready.{update_ready_iff, get-update_ready, is_nil-update_ready}
use ceilometer_operator.Cluster.{Cluster, Obj, the_object, change, set_meta}
use ceilometer_operator.Cluster.Reconcile.{closed, prepare}
use ceilometer_operator.Cluster.Reconcile.Settles.{prepared-meta}

module _ (k : Cluster) {Spec Status : Type 0} (s : State k.World (Obj k Spec Status))
    (new : List Condition) where
  abbrev prepared : Flow (Ret k.Error) Unit × State k.World (Obj k Spec Status)
  prepared = prepare k new s

  first_pass :
      s.instance.meta.deleting ≡ false
      → (k.add_finalizer s.instance.meta.finalizers k.finalizer).0 ≡ true
      → (prepared.0 ≡ return (ret done none))
        × (prepared.1.instance.conditions ≡ s.instance.conditions)
  unfolding prepare ◌>>=◌ the_object set_meta change exit_if
  first_pass d a = ground arith

  -- The first pass over a new object, which has no finalizer yet and no conditions: the pass returns,
  -- the object is written with the finalizer added and nothing else of its metadata changed, with
  -- `Ready` true and no other condition, and its conditions are no longer nil, so no later pass will
  -- initialize them.
  pub new_object_ready :
      (l : ConditionsLaws k.conditions)
      → s.instance.meta.deleting ≡ false
      → (k.add_finalizer s.instance.meta.finalizers k.finalizer).0 ≡ true
      → k.conditions.is_nil s.instance.conditions ≡ true
      → (t : CondType)
      → (prepared.0 ≡ return (ret done none))
        × ((closed k prepared.1.instance).meta ≡ record s.instance.meta {
          finalizers = (k.add_finalizer s.instance.meta.finalizers k.finalizer).1;
        })
        × (status_at k.conditions (closed k prepared.1.instance).conditions t
            ≡ (if type_eq t ready then some condition_true else none))
        × (k.conditions.is_nil (closed k prepared.1.instance).conditions ≡ false)
  unfolding closed status_at
  new_object_ready l d a n t =
      let (p, q) = first_pass d a in
      let nothing : (t : CondType) → k.conditions.get prepared.1.instance.conditions t ≡ none =
        λ t. ap (λ cs. k.conditions.get cs t) q ∙ l.get_of_is_nil s.instance.conditions n t in
      (
        p,
        prepared-meta k new s d,
        status_of t
            ((update_ready_iff k.conditions l prepared.1.instance.conditions).1
              (λ u x m g. absurd (none_some x (sym (nothing u) ∙ g))))
            (λ m. get-update_ready k.conditions l prepared.1.instance.conditions t m ∙ nothing t),
        is_nil-update_ready k.conditions l prepared.1.instance.conditions,
      )
    where
      none_some : (x : Condition) → none ≡ some x → ⊥
      none_some x h = cc

      status_of :
          (u : CondType)
          → status_at k.conditions (closed k prepared.1.instance).conditions ready
            ≡ some condition_true
          → (type_eq u ready ≡ false
              → k.conditions.get (closed k prepared.1.instance).conditions u ≡ none)
          → status_at k.conditions (closed k prepared.1.instance).conditions u
            ≡ (if type_eq u ready then some condition_true else none)
      status_of u r g = elim (Bool-cases (type_eq u ready)) [
        | inl e ↦ rw (e, type_eq-eq u ready e) r
        | inr e ↦ rw (e, g e) refl
      ]
