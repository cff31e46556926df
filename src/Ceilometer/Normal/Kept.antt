-- ===== src/Ceilometer/Normal/Kept.antt =====
-- The initialization of a Ceilometer, which comes after its inputs, and what it leaves alone.
use ceilometer_operator.Prelude.{[], ◌∷◌, refl, List, StringMap}
use ceilometer_operator.Go.Ensures.{
  Ensures, Ensures-bind, Ensures-check_error, Ensures-if, Ensures-exit,
}
use ceilometer_operator.Conditions.{
  CondType, type_eq, ConditionsLaws, input_ready, keystone_service_ready,
  rabbit_mq_transport_url_ready,
}
use ceilometer_operator.Spec.Ceilometer.{CeilometerSpec}
use ceilometer_operator.Cluster.{Cluster}
use ceilometer_operator.Cluster.Marks.{St, On, Ensures-ask, Ensures-the_object, Ensures-set_status}
use ceilometer_operator.Cluster.Success.{AllTrue, IfDone, failed}
use ceilometer_operator.Services.Children.Kept.{
  MirrorsKeystone as Mirrors, Ensures-reconcile_keystone_service,
}
use ceilometer_operator.Ceilometer.Calls.{Calls, CStatus}
use ceilometer_operator.Ceilometer.Normal.{reconcile_init}

abbrev pub both_types : List CondType
both_types = input_ready ∷ rabbit_mq_transport_url_ready ∷ []

module _ (k : Cluster) (c : Calls k) where
  open k.conditions use {Conditions}

  abbrev pub S : Type 0
  S = St k CeilometerSpec (CStatus k)

  abbrev pub MirrorsKeystone : Type 0
  MirrorsKeystone = Mirrors k c.services keystone_service_ready

  abbrev pub Both : Conditions → Type 0
  Both = AllTrue k both_types

  module _ (l : ConditionsLaws k.conditions) (m : MirrorsKeystone) where
    -- The initialization ends with `ctrl.Result{}` and no error only if the two are still true.
    pub Ensures-reconcile_init :
        (labels : StringMap)
        → Ensures (On k Both) (reconcile_init k c labels) (IfDone k Both) (IfDone k Both)
    unfolding reconcile_init type_eq
    Ensures-reconcile_init labels = Ensures-bind _ _ _ _ (Ensures-the_object k _) λ o.
        Ensures-bind _ _ _ _ (Ensures-ask k _ _) λ read.
          Ensures-bind _ _ _ _
            (Ensures-check_error _ _ λ e h.
              Ensures-if (k.is_not_found e) _ _ (λ p. Ensures-exit _ λ s q. failed k Both _ refl s)
                λ p. Ensures-exit _ λ s q. failed k Both _ refl s)
            λ _.
              Ensures-bind _ _ _ _
                (Ensures-reconcile_keystone_service k c.services l both_types keystone_service_ready
                  m refl Both _ labels)
                λ _. Ensures-bind _ _ _ _ (Ensures-set_status k _ _) λ _. Ensures-exit _ λ s p _. p
