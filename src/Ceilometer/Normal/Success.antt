-- ===== src/Ceilometer/Normal/Success.antt =====
-- What is true of the conditions of a Ceilometer when `reconcileNormal` returns without error.
use ceilometer_operator.Prelude.{[], ◌∷◌, StringMap, String, ◌≡◌, refl, none, subst}
use ceilometer_operator.Go.{return}
use ceilometer_operator.Go.Laws.{Keeps}
use ceilometer_operator.Go.Ensures.{
  Ends, Ensures, Ensures-bind, Ensures-exit, Ensures-pure, Ensures-check_error, Ensures-call,
  Ensures-call-Keeps, Ensures-exit_if, Ensures-Keeps,
}
use ceilometer_operator.Conditions.{ConditionsLaws, type_eq, rabbit_mq_transport_url_ready}
use ceilometer_operator.Object.{Ret, ret, done}
use ceilometer_operator.Spec.Ceilometer.{CeilometerSpec}
use ceilometer_operator.Cluster.{Cluster}
use ceilometer_operator.Cluster.Marks.{On, Ensures-ask, Ensures-the_object, Ensures-set_status}
use ceilometer_operator.Cluster.Success.{
  AllTrue, IfDone, failed, Ensures-stop_unless_done_if, Ensures-one_more, AllTrue-marks_true,
}
use ceilometer_operator.Services.Inputs.{get_secret}
use ceilometer_operator.Services.Inputs.Success.{
  Ensures-stop_on_error, Ensures-config_error, Ensures-hashed, Keeps-get_secret,
  Ensures-reconcile_rbac, Ensures-reconcile_transport_url as Ensures-transport_url,
}
use ceilometer_operator.Services.Children.Kept.{
  Ensures-reconcile_stateful_set as Ensures-reconcile_pods,
}
use ceilometer_operator.Ceilometer.Calls.{Calls, CStatus}
use ceilometer_operator.Ceilometer.Config.Keeps.{
  Keeps-generate_service_config, Keeps-generate_compute_service_config,
  Keeps-create_hash_of_input_hashes,
}
use ceilometer_operator.Ceilometer.Normal.{
  reconcile_transport_url, reconcile_inputs, reconcile_stateful_set, reconcile_normal,
}
use ceilometer_operator.Ceilometer.Normal.Kept.{
  S, MirrorsKeystone, both_types, Both, Ensures-reconcile_init,
}

module _ (k : Cluster) (c : Calls k) where
  open k.conditions use {Conditions}

  abbrev Transport : Conditions → Type 0
  Transport = AllTrue k (rabbit_mq_transport_url_ready ∷ [])

  abbrev T : Ret k.Error → S k c → Type 0
  T = IfDone k (Both k c)

  module _ (l : ConditionsLaws k.conditions) (m : MirrorsKeystone k c) where
    inputs_ready :
        (name : String) (vars : StringMap)
        → Keeps
            (On k Transport)
            (get_secret k c.services {Spec = CeilometerSpec} {Status = CStatus k} name vars)
    unfolding type_eq
    inputs_ready name vars =
        Keeps-get_secret k c.services l (rabbit_mq_transport_url_ready ∷ []) refl name vars

    Ensures-reconcile_inputs :
        Ensures (On k Transport) (reconcile_inputs k c) (λ _. On k (Both k c)) T
    unfolding reconcile_inputs
    Ensures-reconcile_inputs = Ensures-bind _ _ _ _ (Ensures-the_object k _) λ o.
        Ensures-bind _ _ _ _ (Ensures-call-Keeps _ (inputs_ready _ _)) λ first.
          Ensures-bind _ _ _ _ (Ensures-stop_on_error k _ _ first) λ vars1.
            Ensures-bind _ _ _ _ (Ensures-the_object k _) λ p.
              Ensures-bind _ _ _ _ (Ensures-call-Keeps _ (inputs_ready _ _)) λ second.
                Ensures-bind _ _ _ _ (Ensures-stop_on_error k _ _ second) λ vars2.
                  Ensures-bind (λ _. On k (Both k c)) _ _ _
                    (Ensures-one_more k l (rabbit_mq_transport_url_ready ∷ []) _ _)
                    λ _.
                      Ensures-bind _ _ _ _
                        (Ensures-call-Keeps _ (Keeps-generate_service_config k c _ _))
                        λ generated.
                          Ensures-bind _ _ _ _
                            (Ensures-check_error _ _ λ e _. Ensures-config_error k _ _ l _ e)
                            λ _.
                              Ensures-bind _ _ _ _
                                (Ensures-call-Keeps _
                                  (Keeps-generate_compute_service_config k c _ _))
                                λ computed.
                                  Ensures-bind _ _ _ _
                                    (Ensures-check_error _ _
                                      λ e _. Ensures-config_error k _ _ l _ e)
                                    λ _.
                                      Ensures-bind _ _ _ _
                                        (Ensures-call-Keeps _
                                          (Keeps-create_hash_of_input_hashes k c _ _))
                                        λ hashed.
                                          Ensures-bind (λ _. On k (Both k c)) _ _ _
                                            (Ensures-hashed k _ _ l hashed)
                                            λ answer.
                                              Ensures-bind _ _ _ _
                                                (Ensures-exit_if _ _ λ s h p _. p)
                                                λ _.
                                                  Ensures-bind _ _ _ _ (Ensures-set_status k _ _)
                                                    λ _.
                                                      Ensures-bind _ _ _ _
                                                        (Ensures-Keeps _ (λ r s h _. h)
                                                          (AllTrue-marks_true k l both_types _ _))
                                                        λ _. Ensures-pure _ λ s h. h

    Ensures-reconcile_transport_url :
        Ensures (On k λ _. Unit) (reconcile_transport_url k c) (λ _. On k Transport) T
    unfolding reconcile_transport_url
    Ensures-reconcile_transport_url = Ensures-transport_url k c.services l _ [] _ _ _

    Ensures-reconcile_stateful_set :
        (hash : String) (labels : StringMap)
        → Ensures
            (On k (Both k c))
            (reconcile_stateful_set k c hash labels)
            (λ _. On k (Both k c))
            T
    unfolding reconcile_stateful_set
    Ensures-reconcile_stateful_set hash labels =
        Ensures-reconcile_pods k c.services l both_types _ _ _ _

    Ensures-reconcile_normal :
        Ensures (On k λ _. Unit) (reconcile_normal k c) (λ _. On k (Both k c)) T
    unfolding reconcile_normal
    Ensures-reconcile_normal = Ensures-bind _ _ _ _ (Ensures-reconcile_rbac k c.services l _) λ _.
        Ensures-bind _ _ _ _ Ensures-reconcile_transport_url λ _.
          Ensures-bind _ _ _ _ Ensures-reconcile_inputs λ hash.
            Ensures-bind _ _ _ _ (Ensures-call _ _ (Ensures-reconcile_init k c l m _)) λ started.
              Ensures-bind _ _ _ _ (Ensures-stop_unless_done_if k (Both k c) _ started) λ _.
                Ensures-bind _ _ _ _ (Ensures-reconcile_stateful_set hash _) λ _.
                  Ensures-bind _ _ _ _ (Ensures-the_object k _) λ o.
                    Ensures-bind _ _ _ _ (Ensures-ask k _ _) λ service.
                      Ensures-bind _ _ _ _
                        (Ensures-check_error _ _
                          λ e h. Ensures-exit _ λ s p. failed k (Both k c) _ refl s)
                        λ _. Ensures-exit _ λ s p _. p

    -- Where the reconciliation of a Ceilometer returns no error and asks for no other pass, the
    -- transport URL and the inputs are shown as ready, if the condition that comes with the Keystone
    -- service is the mirror of its conditions. This covers the pass that ends early because the hash of
    -- the inputs changed.
    pub reconcile_normal-Both :
        (s : S k c)
        → (reconcile_normal k c s).0 ≡ return (ret done none)
        → Both k c (reconcile_normal k c s).1.instance.conditions
    reconcile_normal-Both s h =
        subst (λ r. Ends (λ (_ : Ret k.Error). On k (Both k c)) T r (reconcile_normal k c s).1) h
          (Ensures-reconcile_normal.at s tt) refl
