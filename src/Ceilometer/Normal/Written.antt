-- ===== src/Ceilometer/Normal/Written.antt =====
-- A whole pass over a Ceilometer on a cluster where every call succeeds: what `Reconcile` writes.
use ceilometer_operator.Prelude.{◌≡◌, refl, true, false, none}
use ceilometer_operator.Go.{ok, ◌>>=◌}
use ceilometer_operator.Conditions.{ConditionsLaws}
use ceilometer_operator.Spec.Ceilometer.{CeilometerSpec}
use ceilometer_operator.Cluster.{Cluster, Obj, the_object, set_status}
use ceilometer_operator.Cluster.Reconcile.Settles.{Settled, prepare-Settled}
use ceilometer_operator.Cluster.Waiting.{Waiting}
use ceilometer_operator.Services.Healthy.{RolesThere}
use ceilometer_operator.Services.Healthy.Written.{with_hash_map, Written, Outcome-Written}
use ceilometer_operator.Ceilometer.Calls.{Calls, CStatus}
use ceilometer_operator.Ceilometer.Normal.{init_conditions, reconcile_normal, body}
use ceilometer_operator.Ceilometer.Normal.Kept.{S}
use ceilometer_operator.Ceilometer.Normal.Healthy.{all_types, AllHealthy, Total-reconcile_normal}

module _ (k : Cluster) (c : Calls k) (Good : k.World → Type 0) where
  -- the statuses with a map for the hashes
  abbrev pub mapped : CStatus k → CStatus k
  mapped = with_hash_map k (λ t. t.hash) (λ hash t. record t { hash = hash })

  abbrev with_map : S k c → S k c
  with_map s = record s { instance = record s.instance { status = mapped s.instance.status } }

  -- The body of a pass over an object that is settled and not deleted is `reconcileNormal`.
  body-Settled :
      (s : S k c)
      → Settled k s.instance
      → s.instance.meta.deleting ≡ false
      → body k c s ≡ reconcile_normal k c (with_map s)
  unfolding body ◌>>=◌ the_object set_status
  body-Settled s t d = rw (prepare-Settled k (init_conditions k c) s t, d) refl

  module _ (h : AllHealthy k c Good) (l : ConditionsLaws k.conditions) where
    -- A pass of `Reconcile` over a Ceilometer, on a cluster where every call succeeds and stays so: it
    -- returns no error and asks for no other pass, but for the error of the patch, and what it writes is
    -- the object as its body left it with `Ready` true, unless the hash of the inputs differs from that
    -- which the object had and has replaced it. The object can be read, and the helper made; it has its
    -- finalizer and conditions, and is not deleted; the conditions of the roles are there, and no
    -- condition is other than true but `Ready` and those that the pass sets.
    pub reconcile-Written :
        (w w1 : k.World) (o : Obj k CeilometerSpec (CStatus k))
        → c.frame.get w ≡ (ok o, w1)
        → c.frame.new_helper o ≡ none
        → Settled k o
        → o.meta.deleting ≡ false
        → Good w1
        → RolesThere k o.conditions
        → Waiting k all_types o.conditions
        → Written k c.services Good
            (λ t. t.hash)
            (mapped o.status).hash
            c.frame
            true
            (body k c)
            o
            w
            w1
    reconcile-Written w w1 o g n t d good there waits =
        let start : S k c = record { world = w1; instance = o } in
        Outcome-Written k c.services Good _ _ l c.frame true (body k c) w w1 o _ g n
          (body-Settled start t d)
          ((Total-reconcile_normal k c Good h l _).at (with_map start) (good, refl, (there, waits)))
