-- ===== src/Autoscaling/Aodh/Delete.antt =====
-- The deletion of an Autoscaling: its finalizer, and those of its database and its Keystone objects.
use ceilometer_operator.Prelude.{
  ◌∙◌, ◌≡◌, ◌⊎◌, inl, inr, refl, true, none, some, Option-cases, Bool-cases,
}
use ceilometer_operator.Go.{Result, ok, err, return, exit, pure, check_error, ◌>>=◌}
use ceilometer_operator.Object.{State, ret, done}
use ceilometer_operator.Cluster.{Cluster, Obj, ask, the_object}
use ceilometer_operator.Services.Release.{release}
use ceilometer_operator.Services.Release.Released.{Passed, Released, release_lem}
use ceilometer_operator.Autoscaling.Pods.{service_name}
use ceilometer_operator.Autoscaling.Calls.{Calls, ASpec, AStatus}
use ceilometer_operator.Autoscaling.Aodh.{held_service, release_database, reconcile_delete_aodh}

module _ (k : Cluster) (c : Calls k) where
  abbrev pub S : Type 0
  S = State k.World (Obj k (ASpec k c) (AStatus k c))

  -- The database does not keep its finalizer: it is gone, or the finalizer was deleted.
  abbrev pub DatabaseReleased : Result k.Error c.Database → k.World → Type 0
  DatabaseReleased (err e) w = k.is_not_found e ≡ true
  DatabaseReleased (ok db) w = (c.delete_finalizer db w).0 ≡ none

  release_database_lem :
      (found : Result k.Error c.Database) (s : S)
      → Passed k (release_database k c found s) s (DatabaseReleased found s.world)
  unfolding release_database exit pure check_error ◌>>=◌ ask
  release_database_lem (err e) s = elim (Bool-cases (k.is_not_found e)) [
    | inl q ↦ inl (rw q refl, q, rw q refl)
    | inr q ↦ inr (e, rw q refl, rw q refl)
  ]
  release_database_lem (ok db) s = elim (Option-cases (c.delete_finalizer db s.world).0) [
    | inl q ↦ inl (rw q refl, q, rw q refl)
    | inr (e, q) ↦ inr (e, rw q refl, rw q refl)
  ]

  -- What the three objects were found to be, each in the state that the one before left behind.
  abbrev pub AllReleased : S → Type 0
  AllReleased s =
      let (db, w1) = c.get_database_by_name service_name s.world in
      let s1 = (release_database k c db (record s { world = w1 })).1 in
      let (service, w2) =
        c.services.get_keystone_service service_name s.instance.meta.namespace s1.world in
      let s2 = (release k (held_service k c) service (record s1 { world = w2 })).1 in
      let (endpoint, w3) =
        c.get_keystone_endpoint service_name s.instance.meta.namespace s2.world in
      DatabaseReleased db w1
      × Released k (held_service k c) service w2
      × Released k c.held_endpoint endpoint w3

  -- `reconcileDeleteAodh` leaves the object as it was; it returns an error, or none of the three
  -- keeps the finalizer.
  pub reconcile_delete_aodh_lem :
      (s : S)
      → let (r, s') = reconcile_delete_aodh k c s in
        ((r ≡ return (ret done none)) × AllReleased s × (s'.instance ≡ s.instance))
        ⊎ ((e : k.Error) × (r ≡ return (ret done (some e))) × (s'.instance ≡ s.instance))
  unfolding reconcile_delete_aodh ◌>>=◌ ask the_object
  reconcile_delete_aodh_lem s =
      let (db, w1) = c.get_database_by_name service_name s.world in
      let s1 = (release_database k c db (record s { world = w1 })).1 in
      let (service, w2) =
        c.services.get_keystone_service service_name s.instance.meta.namespace s1.world in
      let s2 = (release k (held_service k c) service (record s1 { world = w2 })).1 in
      let (endpoint, w3) =
        c.get_keystone_endpoint service_name s.instance.meta.namespace s2.world in
      elim (release_database_lem db (record s { world = w1 })) [
        | inl (p, d, i) ↦
            elim (release_lem k (held_service k c) service (record s1 { world = w2 })) [
              | inl (p2, d2, i2) ↦
                  elim (release_lem k c.held_endpoint endpoint (record s2 { world = w3 })) [
                    | inl (p3, d3, i3) ↦
                        inl (rw (p, p2, p3) refl, (d, d2, d3), rw (p, p2, p3) (i3 ∙ i2 ∙ i))
                    | inr (e, p3, i3) ↦ inr (e, rw (p, p2, p3) refl, rw (p, p2, p3) (i3 ∙ i2 ∙ i))
                  ]
              | inr (e, p2, i2) ↦ inr (e, rw (p, p2) refl, rw (p, p2) (i2 ∙ i))
            ]
        | inr (e, p, i) ↦ inr (e, rw p refl, rw p i)
      ]
