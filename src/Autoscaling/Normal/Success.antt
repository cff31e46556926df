-- ===== src/Autoscaling/Normal/Success.antt =====
-- What is true of the conditions of an Autoscaling when `reconcileNormal` returns without error.
use ceilometer_operator.Prelude.{
  [], ◌∷◌, String, ◌≡◌, refl, subst, Bool, true, none, List, StringMap,
}
use ceilometer_operator.Go.{return, pure}
use ceilometer_operator.Go.Laws.{Keeps, keeps_rules}
use ceilometer_operator.Go.Ensures.{
  Ends, Ensures, Ensures-bind, Ensures-exit, Ensures-pure, Ensures-check, Ensures-check_error,
  Ensures-if, Ensures-call, Ensures-call-Keeps, Ensures-exit_if, Ensures-weaken,
}
use ceilometer_operator.Conditions.{
  CondType, ConditionsLaws, Format, type_eq, service_config_ready, rabbit_mq_transport_url_ready,
  memcached_ready, heat_ready, db_ready, db_sync_ready, expose_service_ready, input_ready,
  keystone_service_ready,
}
use ceilometer_operator.Object.{Ret, ret, done}
use ceilometer_operator.Cluster.{Cluster}
use ceilometer_operator.Cluster.Marks.{
  St, On, Keeps-ask, Keeps-the_object, Ensures-ask, Ensures-the_object, Ensures-set_status,
  Ensures-marks_false,
}
use ceilometer_operator.Cluster.Success.{
  AllTrue, outside, IfDone, failed, Ensures-one_more, Ensures-stop_unless_done_if,
  Ensures-stop_if_pending,
}
use ceilometer_operator.Services.Inputs.Success.{
  Ensures-stop_on_error, Ensures-config_error, Ensures-hashed, Ensures-reconcile_rbac,
  Keeps-get_secret as Keeps-secret, Keeps-create_hash_of_input_hashes as Keeps-hash,
  Ensures-reconcile_transport_url as Ensures-transport_url,
}
use ceilometer_operator.Services.Children.Kept.{MirrorsKeystone}
use ceilometer_operator.Autoscaling.Calls.{Calls, EndpointType, Memcached, ASpec, AStatus}
use ceilometer_operator.Autoscaling.Config.{
  get_secret, generate_service_config, create_hash_of_input_hashes,
}
use ceilometer_operator.Autoscaling.Aodh.Init.{Ensures-reconcile_init_aodh}
use ceilometer_operator.Autoscaling.Aodh.Expose.Exposed.{
  MirrorsEndpoint, Ensures-reconcile_normal_aodh,
}
use ceilometer_operator.Autoscaling.Normal.{
  not_read, require_ready, reconcile_transport_url, reconcile_memcached, reconcile_heat,
  reconcile_config, reconcile_inputs, reconcile_init, stop_if_pending, reconcile_service,
  reconcile_normal,
}

-- the conditions that the inputs make true
abbrev pub inputs_types : List CondType
inputs_types =
    heat_ready ∷ memcached_ready ∷ rabbit_mq_transport_url_ready ∷ service_config_ready ∷ []

-- the conditions that the rest of the reconciliation makes true
abbrev pub service_types : List CondType → List CondType
service_types ts = expose_service_ready ∷ db_sync_ready ∷ db_ready ∷ ts

module _ (k : Cluster) (c : Calls k) where
  open k.conditions use {Conditions}

  abbrev pub S : Type 0
  S = St k (ASpec k c) (AStatus k c)

  module _ (P : Conditions → Type 0) where
    Keeps-generate_service_config :
        (vars : StringMap) (memcached : Memcached)
        → Keeps (On k P) (generate_service_config k c vars memcached)
    unfolding generate_service_config
    Keeps-generate_service_config vars memcached =
        search (keeps_rules, Keeps-ask k P, Keeps-the_object k P) depth 24

    Keeps-create_hash_of_input_hashes :
        (vars : StringMap) → Keeps (On k P) (create_hash_of_input_hashes k c vars)
    unfolding create_hash_of_input_hashes
    Keeps-create_hash_of_input_hashes vars = Keeps-hash k c.services P _ _ vars

  module _ (l : ConditionsLaws k.conditions) (Q : Conditions → Type 0) where
    Ensures-not_read :
        {A : Type 0} (P : Conditions → Type 0) (t : CondType) (waiting error : Format)
        → (kind name : String) (e : k.Error)
        → Ensures
            (On k P)
            (not_read k c t waiting error kind name e)
            (λ (_ : A). On k P)
            (IfDone k Q)
    unfolding not_read
    Ensures-not_read P t waiting error kind name e =
        Ensures-if (k.is_not_found e) _ _
          (λ h.
            Ensures-bind (λ _ _. Unit) _ _ _
              (Ensures-marks_false k _ l _ _ _ _ _ (λ _. Unit) λ cs cs' p q. tt)
              λ _. Ensures-exit _ λ s p. failed k Q _ refl s)
          λ h.
            Ensures-bind (λ _ _. Unit) _ _ _
              (Ensures-marks_false k _ l _ _ _ _ _ (λ _. Unit) λ cs cs' p q. tt)
              λ _. Ensures-exit _ λ s p. failed k Q _ refl s

    Ensures-require_ready :
        (P : Conditions → Type 0) (t : CondType) (waiting : Format) (kind name : String)
        → (is_ready : Bool)
        → Ensures
            (On k P)
            (require_ready k c t waiting kind name is_ready)
            (λ _. On k P)
            (IfDone k Q)
    unfolding require_ready
    Ensures-require_ready P t waiting kind name is_ready =
        Ensures-if is_ready (pure tt) _ (λ h. Ensures-pure tt λ s p. p)
          λ h.
            Ensures-bind (λ _ _. Unit) _ _ _
              (Ensures-marks_false k _ l _ _ _ _ _ (λ _. Unit) λ cs cs' p q. tt)
              λ _. Ensures-exit _ λ s p. failed k Q _ refl s

    module _ (ts : List CondType) where
      Ensures-reconcile_memcached :
          Ensures
            (On k (AllTrue k ts))
            (reconcile_memcached k c)
            (λ _. On k (AllTrue k (memcached_ready ∷ ts)))
            (IfDone k Q)
      unfolding reconcile_memcached
      Ensures-reconcile_memcached = Ensures-bind _ _ _ _ (Ensures-the_object k _) λ o.
          Ensures-bind _ _ _ _ (Ensures-ask k _ _) λ found.
            Ensures-bind (λ _. On k (AllTrue k ts)) _ _ _
              (Ensures-check found _ (λ a s h. h) λ e. Ensures-not_read _ _ _ _ _ _ e)
              λ memcached. Ensures-bind _ _ _ _ (Ensures-require_ready _ _ _ _ _ _) λ _.
                Ensures-bind _ _ _ _ (Ensures-one_more k l ts _ _)
                  λ _. Ensures-pure memcached λ s h. h

      Ensures-reconcile_heat :
          Ensures
            (On k (AllTrue k ts))
            (reconcile_heat k c)
            (λ _. On k (AllTrue k (heat_ready ∷ ts)))
            (IfDone k Q)
      unfolding reconcile_heat
      Ensures-reconcile_heat = Ensures-bind _ _ _ _ (Ensures-the_object k _) λ o.
          Ensures-bind _ _ _ _ (Ensures-ask k _ _) λ found.
            Ensures-bind (λ _. On k (AllTrue k ts)) _ _ _
              (Ensures-check found _ (λ a s h. h) λ e. Ensures-not_read _ _ _ _ _ _ e)
              λ heat.
                Ensures-bind _ _ _ _ (Ensures-require_ready _ _ _ _ _ _)
                  λ _. Ensures-one_more k l ts _ _

      Keeps-get_secret :
          outside input_ready ts ≡ true
          → (name : String) (vars : StringMap)
          → Keeps (On k (AllTrue k ts)) (get_secret k c name vars)
      unfolding get_secret
      Keeps-get_secret n name vars = Keeps-secret k c.services l ts n name vars

  abbrev T : Ret k.Error → S → Type 0
  T = IfDone k (AllTrue k inputs_types)

  abbrev Inputs : Conditions → Type 0
  Inputs = AllTrue k inputs_types

  module _ (l : ConditionsLaws k.conditions) where
    -- the configuration and the hash, after all that has to be waited for
    Ensures-configured :
        (vars : StringMap) (memcached : Memcached)
        → Ensures (On k Inputs) (reconcile_config k c vars memcached) (λ _. On k Inputs) T
    unfolding reconcile_config
    Ensures-configured vars memcached = Ensures-bind _ _ _ _ (Ensures-the_object k _) λ q.
        Ensures-bind _ _ _ _ (Ensures-set_status k _ _) λ _.
          Ensures-bind _ _ _ _
            (Ensures-call-Keeps _ (Keeps-generate_service_config Inputs vars memcached))
            λ generated.
              Ensures-bind _ _ _ _ (Ensures-check_error _ _ λ e _. Ensures-config_error k _ _ l _ e)
                λ _.
                  Ensures-bind _ _ _ _
                    (Ensures-call-Keeps _ (Keeps-create_hash_of_input_hashes Inputs _))
                    λ hashed.
                      Ensures-bind (λ _. On k Inputs) _ _ _ (Ensures-hashed k _ _ l hashed)
                        λ answer. Ensures-bind _ _ _ _ (Ensures-exit_if _ _ λ s h p _. p) λ _.
                          Ensures-bind _ _ _ _ (Ensures-set_status k _ _)
                            λ _. Ensures-pure _ λ s h. h

    Ensures-reconcile_inputs :
        Ensures
          (On k (AllTrue k (rabbit_mq_transport_url_ready ∷ service_config_ready ∷ [])))
          (reconcile_inputs k c)
          (λ _. On k Inputs)
          T
    unfolding reconcile_inputs type_eq
    Ensures-reconcile_inputs =
        let ts : List CondType = rabbit_mq_transport_url_ready ∷ service_config_ready ∷ [] in
        Ensures-bind _ _ _ _ (Ensures-the_object k _) λ o.
          Ensures-bind _ _ _ _ (Ensures-call-Keeps _ (Keeps-get_secret l Inputs ts refl _ _))
            λ first. Ensures-bind _ _ _ _ (Ensures-stop_on_error k _ _ first) λ vars1.
              Ensures-bind _ _ _ _ (Ensures-reconcile_memcached l _ ts) λ memcached.
                Ensures-bind _ _ _ _ (Ensures-reconcile_heat l _ (memcached_ready ∷ ts)) λ _.
                  Ensures-bind _ _ _ _ (Ensures-the_object k _) λ p.
                    Ensures-bind _ _ _ _
                      (Ensures-call-Keeps _ (Keeps-get_secret l Inputs inputs_types refl _ _))
                      λ second.
                        Ensures-bind _ _ _ _ (Ensures-stop_on_error k _ _ second)
                          λ vars2. Ensures-configured vars2 memcached

  module _ (l : ConditionsLaws k.conditions)
      (m : MirrorsKeystone k c.services keystone_service_ready) (e : MirrorsEndpoint k c l) where
    Ensures-reconcile_init :
        (ts : List CondType) (labels : StringMap)
        → outside keystone_service_ready ts ≡ true
        → let Q = AllTrue k (db_sync_ready ∷ db_ready ∷ ts) in
          Ensures (On k (AllTrue k ts)) (reconcile_init k c labels) (IfDone k Q) (IfDone k Q)
    unfolding reconcile_init
    Ensures-reconcile_init ts labels n =
        Ensures-bind _ _ _ _ (Ensures-call _ _ (Ensures-reconcile_init_aodh k c l m ts n labels))
          λ answer.
            Ensures-bind _ _ _ _ (Ensures-stop_unless_done_if k _ _ answer)
              λ _. Ensures-exit _ λ s p _. p

    Ensures-reconcile_service :
        (order : List EndpointType) (hash : String)
        → let Q = AllTrue k (service_types inputs_types) in
          Ensures (On k Inputs) (reconcile_service k c order hash) (IfDone k Q) (IfDone k Q)
    unfolding reconcile_service stop_if_pending type_eq
    Ensures-reconcile_service order hash =
        Ensures-bind _ _ _ _ (Ensures-call _ _ (Ensures-reconcile_init inputs_types _ refl))
          λ started. Ensures-bind _ _ _ _ (Ensures-stop_if_pending k _ _ started) λ _.
            Ensures-bind _ _ _ _
              (Ensures-call _ _ (
                Ensures-reconcile_normal_aodh k c l e (db_sync_ready ∷ db_ready ∷ inputs_types) refl
                  order hash))
              λ ended.
                Ensures-bind _ _ _ _ (Ensures-stop_if_pending k _ _ ended)
                  λ _. Ensures-exit _ λ s p _. p

    -- Where the rest of the reconciliation, after the inputs, returns no error and asks for no other
    -- pass, the database, its job and the services of Aodh are shown as ready, and what the inputs
    -- made true still is, if the conditions that come with the Keystone service and the Keystone
    -- endpoint are mirrors of their own conditions.
    pub reconcile_service-AllTrue :
        (order : List EndpointType) (hash : String) (s : S)
        → AllTrue k inputs_types s.instance.conditions
        → (reconcile_service k c order hash s).0 ≡ return (ret done none)
        → AllTrue k
            (service_types inputs_types)
            (reconcile_service k c order hash s).1.instance.conditions
    reconcile_service-AllTrue order hash s p h =
        subst
          (λ r.
            Ends (IfDone k (AllTrue k (service_types inputs_types)))
              (IfDone k (AllTrue k (service_types inputs_types))) r
              (reconcile_service k c order hash s).1)
          h ((Ensures-reconcile_service order hash).at s p) refl

    Ensures-reconcile_normal :
        (order : List EndpointType) → Ensures (On k λ _. Unit) (reconcile_normal k c order) T T
    unfolding reconcile_normal reconcile_transport_url
    Ensures-reconcile_normal order =
        Ensures-bind _ _ _ _ (Ensures-reconcile_rbac k c.services l _) λ _.
          Ensures-bind _ _ _ _ (Ensures-one_more k l [] _ _) λ _.
            Ensures-bind _ _ _ _
              (Ensures-transport_url k c.services l _ (service_config_ready ∷ []) _ _ _)
              λ _. Ensures-bind _ _ _ _ (Ensures-reconcile_inputs l) λ hash.
                Ensures-weaken _ (λ r s h q. (h q).1.1.1) (λ r s h q. (h q).1.1.1)
                  (Ensures-reconcile_service order hash)

    -- Where the reconciliation of an Autoscaling returns no error and asks for no other pass, Heat,
    -- memcached, the transport URL and the configuration are shown as ready, in whichever order the
    -- endpoints are exposed, if the conditions that come with the Keystone service and the Keystone
    -- endpoint are mirrors of their own conditions. This covers the pass that ends early because the
    -- hash of the inputs changed.
    pub reconcile_normal-AllTrue :
        (order : List EndpointType) (s : S)
        → (reconcile_normal k c order s).0 ≡ return (ret done none)
        → AllTrue k inputs_types (reconcile_normal k c order s).1.instance.conditions
    reconcile_normal-AllTrue order s h =
        subst (λ r. Ends T T r (reconcile_normal k c order s).1) h
          ((Ensures-reconcile_normal order).at s tt) refl
