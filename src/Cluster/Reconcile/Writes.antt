-- ===== src/Cluster/Reconcile/Writes.antt =====
-- What a `Reconcile` writes back and returns, once its body has run.
use ceilometer_operator.Prelude.{◌≡◌, ◌↔◌, refl, Bool, none, some}
use ceilometer_operator.Go.{return, ok}
use ceilometer_operator.Conditions.{ready, condition_true, ConditionsLaws, status_at}
use ceilometer_operator.Object.{State, Ret}
use ceilometer_operator.Object.Ready.{SubConditionsTrue, update_ready_iff}
use ceilometer_operator.Cluster.{Cluster, Obj, Handler}
use ceilometer_operator.Cluster.Reconcile.{
  Frame, override, closed, deferred, with_helper, with_object, reconcile,
}

module _ (k : Cluster) {Spec Status : Type 0} (f : Frame k Spec Status)
    (body : Handler k Spec Status) where
  -- `Reconcile` of an object that is there: the body runs on it, and the object that the body leaves
  -- is written with its `Ready` condition true exactly if all its other conditions are true. A body
  -- that returns `r` has `r` for an answer, but with the error of a write that failed if the error
  -- is a named result.
  pub reconcile_writes :
      (l : ConditionsLaws k.conditions) (named : Bool) (w w1 : k.World) (o : Obj k Spec Status)
      → (r : Ret k.Error) (s : State k.World (Obj k Spec Status)) → f.get w ≡ (ok o, w1)
      → f.new_helper o ≡ none
      → body (record { world = w1; instance = o }) ≡ (return r, s)
      → let o' = closed k s.instance in
        let (e, w2) = f.patch_instance o o' s.world in
        (reconcile k named f body w ≡ (some (override named r e), w2))
        × (o'.spec ≡ s.instance.spec)
        × (o'.status ≡ s.instance.status)
        × (o'.meta ≡ s.instance.meta)
        × ((status_at k.conditions o'.conditions ready ≡ some condition_true)
            ↔ SubConditionsTrue k.conditions s.instance.conditions)
  unfolding reconcile with_object with_helper deferred closed
  reconcile_writes l named w w1 o r s g h b =
      (rw (g, h, b) refl, refl, refl, refl, update_ready_iff k.conditions l s.instance.conditions)
