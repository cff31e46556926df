-- ===== src/Autoscaling/Normal/Passes.antt =====
-- Any number of passes over an Autoscaling whose `InputReady` is there and not true.
use ceilometer_operator.Prelude.{◌≡◌, ◌≢◌, some, List}
use ceilometer_operator.Conditions.{
  ConditionsLaws, status_at, condition_true, ready, keystone_service_ready,
}
use ceilometer_operator.Cluster.{Cluster, Obj}
use ceilometer_operator.Cluster.Reconcile.{closed}
use ceilometer_operator.Services.Children.Kept.{MirrorsKeystone}
use ceilometer_operator.Autoscaling.Calls.{Calls, EndpointType, ASpec, AStatus}
use ceilometer_operator.Autoscaling.Aodh.Expose.Exposed.{MirrorsEndpoint}
use ceilometer_operator.Autoscaling.Normal.{body}
use ceilometer_operator.Autoscaling.Normal.Input.{Blocked, Blocked-update_ready, Blocked-not_ready}
use ceilometer_operator.Autoscaling.Normal.Input.Kept.{SetsRbac}
use ceilometer_operator.Autoscaling.Normal.Input.Steps.{Keeps-body}

module _ (k : Cluster) (c : Calls k) where
  abbrev pub O : Type 0
  O = Obj k (ASpec k c) (AStatus k c)

  -- The object that the deferred function writes after a pass over an object, on some cluster and in
  -- some order of the endpoints.
  abbrev pub written : k.World → List EndpointType → O → O
  written w order o = closed k (body k c order (record { world = w; instance = o })).1.instance

  -- A pass: between two of them all but the conditions may be changed by others, and so may the
  -- cluster.
  abbrev pub Pass : O → O → Type 0
  Pass o p =
      (w : k.World) × (order : List EndpointType) × (o' : O) × (o'.conditions ≡ o.conditions)
      × (p ≡ written w order o')

  -- one pass, or more
  pub data Passes : O → O → Type 0 where
    one : {o p : O} → Pass o p → Passes o p
    more : {o p q : O} → Passes o p → Pass p q → Passes o q

  module _ (l : ConditionsLaws k.conditions)
      (m : MirrorsKeystone k c.services keystone_service_ready) (e : MirrorsEndpoint k c l)
      (r : SetsRbac k c l) where
    body-Blocked :
        (w : k.World) (order : List EndpointType) (o : O)
        → Blocked k o.conditions
        → Blocked k (body k c order (record { world = w; instance = o })).1.instance.conditions
    body-Blocked w order o b =
        (Keeps-body k c l m e r order).at (record { world = w; instance = o }) b

    Pass-Blocked : (o p : O) → Pass o p → Blocked k o.conditions → Blocked k p.conditions
    unfolding closed
    Pass-Blocked o p (w, order, o', h, q) b =
        rw q (Blocked-update_ready k l _ (body-Blocked w order o' (rw h b)))

    Pass-not_ready :
        (o p : O)
        → Pass o p
        → Blocked k o.conditions
        → status_at k.conditions p.conditions ready ≢ some condition_true
    unfolding closed
    Pass-not_ready o p (w, order, o', h, q) b =
        rw q (Blocked-not_ready k l _ (body-Blocked w order o' (rw h b)))

    Passes-Blocked : (o p : O) → Passes o p → Blocked k o.conditions → Blocked k p.conditions
    Passes-Blocked o p (one a) b = Pass-Blocked o p a b
    Passes-Blocked o p (more {p = p'} a q) b = Pass-Blocked p' p q (Passes-Blocked o p' a b)

    -- An Autoscaling whose `InputReady` is there and not true, as `getSecret` leaves it when a secret
    -- cannot be read, is not shown as ready after any number of passes of `Reconcile`, one at least,
    -- whatever the cluster and the rest of the object are in each of them. `ReconcileRbac` sets the
    -- conditions of the roles and no others, on a copy of the object, which leaves `InputReady` as it
    -- was, and the conditions that come with the Keystone service and the Keystone endpoint have their
    -- own types.
    pub Passes-not_ready :
        (o p : O)
        → Passes o p
        → Blocked k o.conditions
        → status_at k.conditions p.conditions ready ≢ some condition_true
    Passes-not_ready o p (one a) b = Pass-not_ready o p a b
    Passes-not_ready o p (more {p = p'} a q) b = Pass-not_ready p' p q (Passes-Blocked o p' a b)
