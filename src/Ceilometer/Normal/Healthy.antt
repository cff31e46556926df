-- ===== src/Ceilometer/Normal/Healthy.antt =====
-- The reconciliation of a Ceilometer on a cluster where every call succeeds.
use ceilometer_operator.Prelude.{
  [], ℕ, ◌∷◌, ◌≡◌, inl, refl, Option, none, List, String, StringMap, arith,
}
use ceilometer_operator.Go.{Result, ok, err}
use ceilometer_operator.Go.Total.{
  Total, Total-bind, Total-pure, Total-exit, Total-check_error, Total-call_bind, Total-given,
}
use ceilometer_operator.Conditions.{
  CondType, ConditionsLaws, rabbit_mq_transport_url_ready, input_ready, service_config_ready,
  keystone_service_ready, deployment_ready, service_account_ready, role_ready, role_binding_ready,
}
use ceilometer_operator.Object.{Meta, Ret, ret, done}
use ceilometer_operator.Workload.{StatefulSet}
use ceilometer_operator.Spec.Ceilometer.{CeilometerSpec}
use ceilometer_operator.Cluster.{Cluster}
use ceilometer_operator.Cluster.Waiting.{
  Any, Fine, Total-ask_bind, Total-the_object, Total-set_status, Total-marks_true,
  Total-stop_unless_done,
}
use ceilometer_operator.Services.Healthy.{Healthy, Read}
use ceilometer_operator.Services.Healthy.Steps.{
  Begun, Total-reconcile_rbac, Total-stop_on_error, Total-get_secret,
  Total-reconcile_keystone_service, Total-reconcile_transport_url as Total-transport_url,
  Total-reconcile_stateful_set as Total-pods,
}
use ceilometer_operator.Services.Healthy.Hash.{Outcome, Total-hashed_bind}
use ceilometer_operator.Ceilometer.Calls.{Calls, CStatus, ServiceObject}
use ceilometer_operator.Ceilometer.Pods.{stateful_set}
use ceilometer_operator.Ceilometer.Config.Healthy.{
  Total-generate_service_config, Total-generate_compute_service_config,
  Total-create_hash_of_input_hashes,
}
use ceilometer_operator.Ceilometer.Normal.{
  reconcile_transport_url, reconcile_inputs, reconcile_init, reconcile_stateful_set, fill_service,
  reconcile_normal,
}
use ceilometer_operator.Ceilometer.Normal.Kept.{S}

-- What the pass waits for after the inputs.
abbrev after_inputs : List CondType
after_inputs = service_config_ready ∷ keystone_service_ready ∷ deployment_ready ∷ []

-- The conditions that a pass makes true after those of the roles, in order.
abbrev pub after_roles : List CondType
after_roles = rabbit_mq_transport_url_ready ∷ input_ready ∷ after_inputs

-- All conditions that a pass makes true.
abbrev pub all_types : List CondType
all_types = service_account_ready ∷ role_ready ∷ role_binding_ready ∷ after_roles

module _ (k : Cluster) (c : Calls k) (Good : k.World → Type 0) where
  -- The shared calls succeed, and so does that for the service.
  pub record AllHealthy : Type 0 where
    pub services : Healthy k c.services Good
    pub service_owner :
        (m : Meta) (o : ServiceObject) → (c.service_set_controller_reference m o).0 ≡ none
    pub service :
        (name namespace : String) (f : ServiceObject → Option k.Error × ServiceObject)
        → (w : k.World) → ((o : ServiceObject) → (f o).0 ≡ none)
        → Good w
        → let r = c.service_create_or_update name namespace f w in (r.0.0 ≡ none) × Good r.1

  module _ (h : AllHealthy) (l : ConditionsLaws k.conditions) (old : k.HashMap) where
    -- the hashes of before
    abbrev Same : CStatus k → Type 0
    Same t = t.hash ≡ old

    abbrev Done : Ret k.Error → S k c → Type 0
    Done = Outcome k c.services Good old (λ t. t.hash)

    Total-reconcile_inputs :
        Total
          (Fine k Good Same (input_ready ∷ after_inputs))
          (reconcile_inputs k c)
          (λ _. Fine k Good Any (keystone_service_ready ∷ deployment_ready ∷ []))
          Done
    unfolding reconcile_inputs
    Total-reconcile_inputs = Total-bind _ _ _ _ (Total-the_object k Good Same _) λ o.
        Total-call_bind _ _ _ _ (Total-get_secret k c.services Good h.services l Same _ [] _)
          λ first. Total-given _ λ e1.
            Total-bind _ _ _ _ (Total-stop_on_error k c.services Good h.services l Same _ first e1)
              λ vars1. Total-bind _ _ _ _ (Total-the_object k Good Same _) λ p.
                Total-call_bind _ _ _ _
                  (Total-get_secret k c.services Good h.services l Same _ vars1 _)
                  λ second. Total-given _ λ e2.
                    Total-bind _ _ _ _
                      (Total-stop_on_error k c.services Good h.services l Same _ second e2)
                      λ vars2. Total-bind _ _ _ _ (Total-marks_true k Good Same l _ _ _) λ _.
                        Total-call_bind _ _ _ _
                          (Total-generate_service_config k c Good h.services old _ vars2)
                          λ generated. Total-given _ λ e3.
                            Total-bind _ _ _ _ (Total-check_error _ _ e3) λ _.
                              Total-call_bind _ _ _ _
                                (Total-generate_compute_service_config k c Good h.services old _
                                  generated.1)
                                λ computed. Total-given _ λ e4.
                                  Total-bind _ _ _ _ (Total-check_error _ _ e4) λ _.
                                    Total-call_bind _ _ _ _
                                      (Total-create_hash_of_input_hashes k c Good h.services old
                                        after_inputs computed.1)
                                      λ hashed.
                                        Total-hashed_bind k c.services Good old _ _ hashed _ _
                                          λ hash.
                                            Total-bind _ _ _ _
                                              (Total-set_status k Good Any _ _ λ t p. tt)
                                              λ _.
                                                Total-bind _ _ _ _
                                                  (Total-marks_true k Good Any l _ _ _)
                                                  λ _. Total-pure _ λ s p. p

    Total-reconcile_transport_url :
        Total
          (Fine k Good Same after_roles)
          (reconcile_transport_url k c)
          (λ _. Fine k Good Same (input_ready ∷ after_inputs))
          Done
    unfolding reconcile_transport_url
    Total-reconcile_transport_url =
        Total-transport_url k c.services Good h.services l Same _ _ _ _ λ secret t p. p

    abbrev Started : Ret k.Error → S k c → Type 0
    Started r s = (r ≡ ret done none) × Fine k Good Any (deployment_ready ∷ []) s

    Total-reconcile_init :
        (labels : StringMap)
        → Total
            (Fine k Good Any (keystone_service_ready ∷ deployment_ready ∷ []))
            (reconcile_init k c labels)
            Started
            Started
    unfolding reconcile_init
    Total-reconcile_init labels = Total-bind _ _ _ _ (Total-the_object k Good Any _) λ o.
        Total-ask_bind k Good Any (Read k c.services) _ _ _ _ (h.services.secret _ _) λ read e.
          Total-bind _ _ _ _ (Total-check_error _ _ e.0) λ _.
            Total-bind _ _ _ _
              (Total-reconcile_keystone_service k c.services Good h.services l Any _ labels _)
              λ _.
                Total-bind _ _ _ _ (Total-set_status k Good Any _ _ λ t p. tt)
                  λ _. Total-exit _ λ s p. (refl, p)

    defined :
        (hash : String) (labels : StringMap) (m : Meta) (spec : CeilometerSpec)
        → (d : StatefulSet) × (stateful_set k c.services m spec hash labels ≡ ok d)
    unfolding stateful_set
    defined hash labels m spec = by_result (stateful_set k c.services m spec hash labels) refl
      where
        by_result :
            (r : Result k.Error StatefulSet)
            → stateful_set k c.services m spec hash labels ≡ r
            → (d : StatefulSet) × (r ≡ ok d)
        by_result (ok d) p = (d, refl)
        by_result (err x) p =
            ground
              (arith, (h.services.annotation m.namespace spec.network_attachment_definitions).1)

    Total-reconcile_stateful_set :
        (hash : String) (labels : StringMap)
        → Total
            (Fine k Good Any (deployment_ready ∷ []))
            (reconcile_stateful_set k c hash labels)
            (λ _. Fine k Good Any [])
            Done
    unfolding reconcile_stateful_set
    Total-reconcile_stateful_set hash labels =
        Total-pods k c.services Good h.services l Any _ _ _ [] (defined hash labels)
          (λ count t p. tt) λ spec t p. tt

    fills :
        (m : Meta) (port : ℕ) (labels : StringMap) (o : ServiceObject)
        → (fill_service k c m port labels o).0 ≡ none
    unfolding fill_service
    fills m port labels o = h.service_owner m _

    pub Total-reconcile_normal :
        Total (Begun k Good Same after_roles) (reconcile_normal k c) (λ _ _. ⊥) Done
    unfolding reconcile_normal
    Total-reconcile_normal =
        Total-bind _ _ _ _ (Total-reconcile_rbac k c.services Good h.services l Same after_roles)
          λ _. Total-bind _ _ _ _ Total-reconcile_transport_url λ _.
            Total-bind _ _ _ _ Total-reconcile_inputs λ hash.
              Total-call_bind _ _ _ _ (Total-reconcile_init _) λ started. Total-given _ λ e1.
                Total-bind _ _ _ _ (Total-stop_unless_done k Good Any _ started e1) λ _.
                  Total-bind _ _ _ _ (Total-reconcile_stateful_set hash _) λ _.
                    Total-bind _ _ _ _ (Total-the_object k Good Any _) λ o.
                      Total-ask_bind k Good Any (λ a. a.0 ≡ none) _ _ _ _
                        (λ w. h.service _ _ _ w (fills _ _ _))
                        λ service e2.
                          Total-bind _ _ _ _ (Total-check_error _ _ e2)
                            λ _. Total-exit _ λ s p. (refl, inl p)
