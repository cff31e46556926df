-- ===== src/Cluster/Reconcile/Settles.antt =====
-- How many passes return before the body of a `Reconcile`.
use ceilometer_operator.Prelude.{
  String, ◌≡◌, ◌∙◌, refl, sym, ap, subst, Bool-cases, inl, inr, false, List,
}
use ceilometer_operator.Go.{next, exit_if, ◌>>=◌}
use ceilometer_operator.Conditions.{Condition, ConditionsLaws}
use ceilometer_operator.Object.{Meta, State}
use ceilometer_operator.Object.Ready.{is_nil-update_ready}
use ceilometer_operator.Cluster.{Cluster, Obj, the_object, change, set_meta}
use ceilometer_operator.Cluster.Reconcile.{closed, prepare}

module _ (k : Cluster) {Spec Status : Type 0} where
  -- what an object needs for a pass to go on to the body
  pub record Settled (o : Obj k Spec Status) : Type 0 where
    pub finalizers :
        o.meta.deleting ≡ false
        → k.add_finalizer o.meta.finalizers k.finalizer ≡ (false, o.meta.finalizers)
    pub conditions : k.conditions.is_nil o.conditions ≡ false

module _ (k : Cluster) {Spec Status : Type 0} (new : List Condition) where
  pub prepare-Settled :
      (s : State k.World (Obj k Spec Status))
      → Settled k s.instance
      → prepare k new s ≡ (next tt, s)
  unfolding prepare ◌>>=◌ the_object set_meta change exit_if
  prepare-Settled s h = elim (Bool-cases s.instance.meta.deleting) [
    | inl d ↦ rw (d, h.conditions) refl
    | inr d ↦ rw (d, h.finalizers d, h.conditions) refl
  ]

  module _ (s : State k.World (Obj k Spec Status)) where
    open s.instance use {meta, conditions}

    pub prepared-meta :
        meta.deleting ≡ false
        → (prepare k new s).1.instance.meta
          ≡ record meta { finalizers = (k.add_finalizer meta.finalizers k.finalizer).1 }
    unfolding prepare ◌>>=◌ the_object set_meta change exit_if
    prepared-meta d = elim (Bool-cases (k.add_finalizer meta.finalizers k.finalizer).0) [
      | inl a ↦ rw (d, a) refl
      | inr a ↦ elim (Bool-cases (k.conditions.is_nil conditions)) [
        | inl n ↦ rw (d, a, n) refl
        | inr n ↦ rw (d, a, n) refl
      ]
    ]

    prepared-deleting : (prepare k new s).1.instance.meta.deleting ≡ meta.deleting
    unfolding prepare ◌>>=◌ the_object set_meta change exit_if
    prepared-deleting = elim (Bool-cases meta.deleting) [
      | inl d ↦ elim (Bool-cases (k.conditions.is_nil conditions)) [
        | inl n ↦ rw (d, n) refl
        | inr n ↦ rw (d, n) refl
      ]
      | inr d ↦ ap (λ (m : Meta). m.deleting) (prepared-meta d)
    ]

  module _ (l : ConditionsLaws k.conditions)
      (add_twice : (fs : List String)
        → let added = (k.add_finalizer fs k.finalizer).1 in
          k.add_finalizer added k.finalizer ≡ (false, added)) where
    prepared-finalizers :
        (s : State k.World (Obj k Spec Status))
        → let m = (prepare k new s).1.instance.meta in
          m.deleting ≡ false → k.add_finalizer m.finalizers k.finalizer ≡ (false, m.finalizers)
    prepared-finalizers s d =
        subst (λ (m : Meta). k.add_finalizer m.finalizers k.finalizer ≡ (false, m.finalizers))
          (sym (prepared-meta s (sym (prepared-deleting s) ∙ d)))
          (add_twice s.instance.meta.finalizers)

    -- Whatever the object is, at most one pass returns before the body: a pass over the object as the
    -- pass before wrote it goes on to the body and leaves the object as it is. This holds where the
    -- finalizer that was added to a list is found in it.
    pub prepare_settles :
        (s : State k.World (Obj k Spec Status)) (w : k.World)
        → let written = closed k (prepare k new s).1.instance in
          prepare k new (record { world = w; instance = written })
          ≡ (next tt, record { world = w; instance = written })
    unfolding closed
    prepare_settles s w = prepare-Settled _ (record {
      finalizers = prepared-finalizers s;
      conditions = is_nil-update_ready k.conditions l _;
    })
