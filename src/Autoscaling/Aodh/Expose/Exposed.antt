-- ===== src/Autoscaling/Aodh/Expose/Exposed.antt =====
-- What `reconcileNormalAodh` leaves true of the conditions where it ends with no error.
use ceilometer_operator.Prelude.{[], ◌∷◌, String, ◌≡◌, refl, true, some, List, StringMap, is_some}
use ceilometer_operator.Go.{pure}
use ceilometer_operator.Go.Ensures.{
  Ensures, Ensures-bind, Ensures-exit, Ensures-pure, Ensures-check, Ensures-check_error, Ensures-if,
  Ensures-exit_if,
}
use ceilometer_operator.Conditions.{
  CondType, Condition, ConditionsLaws, expose_service_ready, keystone_endpoint_ready,
}
use ceilometer_operator.Object.{Ret, pending}
use ceilometer_operator.Cluster.{Cluster}
use ceilometer_operator.Cluster.Marks.{
  On, Ensures-ask, Ensures-ask_bind, Ensures-the_object, Ensures-set_status, Ensures-set_spec,
  Ensures-marks_false,
}
use ceilometer_operator.Cluster.Success.{
  AllTrue, outside, IfDone, failed, unfinished, Ensures-one_more, Ensures-sets,
}
use ceilometer_operator.Services.Children.Kept.{Ensures-reconcile_stateful_set}
use ceilometer_operator.Autoscaling.Pods.{service_name}
use ceilometer_operator.Autoscaling.Calls.{Calls, EndpointType}
use ceilometer_operator.Autoscaling.Aodh.Expose.{
  service_labels, not_exposed, expose_endpoint, expose, reconcile_endpoint, reconcile_normal_aodh,
}

module _ (k : Cluster) (c : Calls k) (l : ConditionsLaws k.conditions) where
  open k.conditions use {Conditions}

  -- The condition that comes with the Keystone endpoint is the mirror of its conditions as
  -- `KeystoneEndpointReady`.
  abbrev pub MirrorsEndpoint : Type 0
  MirrorsEndpoint =
      (endpoints : StringMap) (namespace : String) (w : k.World) (x : Condition)
      → (c.keystone_endpoint_create_or_patch service_name endpoints namespace (service_labels k c)
          w).0.1
        ≡ some x
      → x.type ≡ keystone_endpoint_ready

  module _ (ts : List CondType) (Q : Conditions → Type 0) where
    Ensures-not_exposed :
        {A : Type 0} (r : Ret k.Error) (e : k.Error)
        → is_some r.error ≡ true
        → Ensures
            (On k (AllTrue k ts))
            (not_exposed k c r e)
            (λ (_ : A). On k (AllTrue k ts))
            (IfDone k Q)
    unfolding not_exposed
    Ensures-not_exposed r e h =
        Ensures-bind (λ _ _. Unit) _ _ _
          (Ensures-marks_false k _ l _ _ _ _ _ (λ _. Unit) λ cs cs' p q. tt)
          λ _. Ensures-exit _ λ s p. failed k Q r h s

    Ensures-expose_endpoint :
        (t : EndpointType)
        → Ensures
            (On k (AllTrue k ts))
            (expose_endpoint k c t)
            (λ _. On k (AllTrue k ts))
            (IfDone k Q)
    unfolding expose_endpoint
    Ensures-expose_endpoint t = Ensures-bind _ _ _ _ (Ensures-set_spec k _ _) λ _.
        Ensures-bind _ _ _ _ (Ensures-the_object k _) λ o.
          Ensures-bind (λ _. On k (AllTrue k ts)) _ _ _
            (Ensures-check _ _ (λ a s h. h) λ e. Ensures-not_exposed _ e refl)
            λ service. Ensures-bind _ _ _ _ (Ensures-ask k _ _) λ patched.
              Ensures-bind _ _ _ _
                (Ensures-check_error _ _ λ e h. Ensures-not_exposed patched.0 e (rw h refl))
                λ _.
                  Ensures-bind (λ _. On k (AllTrue k ts)) _ _ _
                    (Ensures-if (pending patched.0.result) _ (pure tt)
                      (λ h.
                        Ensures-bind (λ _ _. Unit) _ _ _
                          (Ensures-marks_false k _ l _ _ _ _ _ (λ _. Unit) λ cs cs' p q. tt)
                          λ _. Ensures-exit _ λ s p. unfinished k Q _ h s)
                      λ h. Ensures-pure tt λ s p. p)
                    λ _.
                      Ensures-check _ _ (λ a s h. h) λ e. Ensures-exit _ λ s h. failed k Q _ refl s

    Ensures-expose :
        (order : List EndpointType) (endpoints : StringMap)
        → Ensures
            (On k (AllTrue k ts))
            (expose k c order endpoints)
            (λ _. On k (AllTrue k ts))
            (IfDone k Q)
    unfolding expose
    Ensures-expose [] endpoints = Ensures-pure endpoints λ s p. p
    Ensures-expose (t ∷ order) endpoints =
        Ensures-bind _ _ _ _ (Ensures-expose_endpoint t) λ url. Ensures-expose order _

  module _ (m : MirrorsEndpoint) (ts : List CondType)
      (n : outside keystone_endpoint_ready ts ≡ true) where
    Ensures-reconcile_endpoint :
        (Q : Conditions → Type 0) (endpoints : StringMap)
        → Ensures
            (On k (AllTrue k ts))
            (reconcile_endpoint k c endpoints)
            (λ _. On k (AllTrue k ts))
            (IfDone k Q)
    unfolding reconcile_endpoint
    Ensures-reconcile_endpoint Q endpoints = Ensures-bind _ _ _ _ (Ensures-the_object k _) λ o.
        Ensures-ask_bind k _ _ _ λ w.
          Ensures-bind _ _ _ _ (Ensures-exit_if _ _ λ s h p. failed k Q _ h s) λ _.
            Ensures-bind _ _ _ _
              (Ensures-sets k l ts keystone_endpoint_ready _ (m endpoints o.meta.namespace w) n)
              λ _. Ensures-exit_if _ _ λ s h p. unfinished k Q _ h s

  module _ (m : MirrorsEndpoint) (ts : List CondType)
      (n : outside keystone_endpoint_ready (expose_service_ready ∷ ts) ≡ true) where
    -- The conditions that are true after the services of Aodh are exposed.
    pub Ensures-reconcile_normal_aodh :
        (order : List EndpointType) (hash : String)
        → let Q = AllTrue k (expose_service_ready ∷ ts) in
          Ensures
            (On k (AllTrue k ts))
            (reconcile_normal_aodh k c order hash)
            (IfDone k Q)
            (IfDone k Q)
    unfolding reconcile_normal_aodh
    Ensures-reconcile_normal_aodh order hash =
        Ensures-bind _ _ _ _ (Ensures-reconcile_stateful_set k c.services l ts _ _ _ _) λ _.
          Ensures-bind _ _ _ _ (Ensures-expose ts _ order []) λ endpoints.
            Ensures-bind _ _ _ _ (Ensures-one_more k l ts _ _) λ _.
              Ensures-bind _ _ _ _ (Ensures-set_status k _ _) λ _.
                Ensures-bind _ _ _ _
                  (Ensures-reconcile_endpoint m (expose_service_ready ∷ ts) n _ endpoints)
                  λ _. Ensures-exit _ λ s p _. p
