-- ===== src/Autoscaling/Normal/Delete.antt =====
-- The deletion of an Autoscaling.
use ceilometer_operator.Prelude.{◌≡◌, ◌⊎◌, inl, inr, refl, none, some}
use ceilometer_operator.Go.{return, ◌>>=◌, call}
use ceilometer_operator.Object.{pending, ret, done}
use ceilometer_operator.Cluster.{Cluster, set_meta, stop_unless_done}
use ceilometer_operator.Autoscaling.Calls.{Calls}
use ceilometer_operator.Autoscaling.Aodh.Delete.{S, AllReleased, reconcile_delete_aodh_lem}
use ceilometer_operator.Autoscaling.Normal.{reconcile_delete}

module _ (k : Cluster) (c : Calls k) where
  -- `reconcileDelete` of an Autoscaling never panics, and it either returns an error and leaves the
  -- object as it was, finalizer included, or takes the finalizer from the object and returns none;
  -- then each of the database, the Keystone service and the Keystone endpoint was gone, or does not
  -- keep its finalizer either.
  pub reconcile_delete-AllReleased :
      (s : S k c)
      → let (r, s') = reconcile_delete k c s in
        ((r ≡ return (ret done none))
          × (s'.instance.meta.finalizers
              ≡ (k.remove_finalizer s.instance.meta.finalizers k.finalizer).1)
          × AllReleased k c s)
        ⊎ ((e : k.Error) × (r ≡ return (ret done (some e))) × (s'.instance ≡ s.instance))
  unfolding reconcile_delete ◌>>=◌ set_meta call stop_unless_done pending
  reconcile_delete-AllReleased s = elim (reconcile_delete_aodh_lem k c s) [
    | inl (p, q, i) ↦ inl (rw p refl, rw (p, i) refl, q)
    | inr (e, p, i) ↦ inr (e, rw p refl, rw p i)
  ]
