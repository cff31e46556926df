-- ===== src/Ceilometer/Normal/Delete.antt =====
-- The deletion of a Ceilometer: its finalizer and that of its Keystone service.
use ceilometer_operator.Prelude.{◌≡◌, ◌⊎◌, inl, inr, refl, none, some}
use ceilometer_operator.Go.{return, ◌>>=◌}
use ceilometer_operator.Object.{State, ret, done}
use ceilometer_operator.Spec.Ceilometer.{CeilometerSpec}
use ceilometer_operator.Cluster.{Cluster, Obj, ask, the_object, set_meta}
use ceilometer_operator.Services.Release.Released.{Released, release_lem}
use ceilometer_operator.Ceilometer.Pods.{service_name}
use ceilometer_operator.Ceilometer.Calls.{Calls, CStatus}
use ceilometer_operator.Ceilometer.Normal.{held_service, reconcile_delete}

module _ (k : Cluster) (c : Calls k) where
  open c.services use {get_keystone_service}

  abbrev pub S : Type 0
  S = State k.World (Obj k CeilometerSpec (CStatus k))

  -- `reconcileDelete` never panics, and it either returns an error and leaves the object as it was,
  -- finalizer included, or takes the finalizer from the object and returns none; then the Keystone
  -- service was gone, or does not keep the finalizer either.
  pub reconcile_delete_lem :
      (s : S)
      → let (found, w) = get_keystone_service service_name s.instance.meta.namespace s.world in
        let (r, s') = reconcile_delete k c s in
        ((r ≡ return (ret done none))
          × (s'.instance.meta.finalizers
              ≡ (k.remove_finalizer s.instance.meta.finalizers k.finalizer).1)
          × Released k (held_service k c) found w)
        ⊎ ((e : k.Error) × (r ≡ return (ret done (some e))) × (s'.instance ≡ s.instance))
  unfolding reconcile_delete ◌>>=◌ ask the_object set_meta
  reconcile_delete_lem s =
      let (found, w) = get_keystone_service service_name s.instance.meta.namespace s.world in
      elim (release_lem k (held_service k c) found (record s { world = w })) [
        | inl (p, q, i) ↦ inl (rw p refl, rw (p, i) refl, q)
        | inr (e, p, i) ↦ inr (e, rw p refl, rw p i)
      ]
