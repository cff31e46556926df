-- ===== src/Autoscaling/Normal/Input/Steps.antt =====
-- The steps of the reconciliation of an Autoscaling leave an `InputReady` that is not true so.
use ceilometer_operator.Prelude.{[], ◌∷◌, String, refl, List, StringMap}
use ceilometer_operator.Go.Laws.{Keeps, Keeps-bind, Keeps-if, keeps_rules}
use ceilometer_operator.Conditions.{
  ConditionsLaws, type_eq, keystone_service_ready, keystone_endpoint_ready,
}
use ceilometer_operator.Cluster.{Cluster}
use ceilometer_operator.Cluster.Marks.{On, Keeps-the_object, Keeps-set_status, Keeps-ask_bind}
use ceilometer_operator.Services.Children.Kept.{MirrorsKeystone}
use ceilometer_operator.Autoscaling.Calls.{Calls, EndpointType, Memcached}
use ceilometer_operator.Autoscaling.Config
use ceilometer_operator.Autoscaling.Aodh
use ceilometer_operator.Autoscaling.Aodh.Expose
use ceilometer_operator.Autoscaling.Aodh.Expose.Exposed.{MirrorsEndpoint}
use ceilometer_operator.Autoscaling.Normal
use ceilometer_operator.Autoscaling.Normal.Input.{Keeps-mirror, Keeps-prepare}
use ceilometer_operator.Autoscaling.Normal.Input.Kept.{
  P, SetsRbac, blocked_rules, Keeps-stop_unless_done, Keeps-reconcile_rbac,
  Keeps-reconcile_transport_url, Keeps-get_secret, Keeps-config_error, Keeps-stop_on_error,
  Keeps-reconcile_stateful_set, Keeps-reconcile_keystone_service, Keeps-reconcile_delete,
}

module _ (k : Cluster) (c : Calls k) (l : ConditionsLaws k.conditions) where
  Keeps-reconcile_memcached : Keeps (On k (P k c l)) (Normal.reconcile_memcached k c)
  unfolding ceilometer_operator.Autoscaling.Normal.reconcile_memcached
      ceilometer_operator.Autoscaling.Normal.not_read
      ceilometer_operator.Autoscaling.Normal.require_ready type_eq
  Keeps-reconcile_memcached = search blocked_rules depth 24

  Keeps-reconcile_heat : Keeps (On k (P k c l)) (Normal.reconcile_heat k c)
  unfolding ceilometer_operator.Autoscaling.Normal.reconcile_heat
      ceilometer_operator.Autoscaling.Normal.not_read
      ceilometer_operator.Autoscaling.Normal.require_ready type_eq
  Keeps-reconcile_heat = search blocked_rules depth 24

  Keeps-generate_service_config :
      (vars : StringMap) (memcached : Memcached)
      → Keeps (On k (P k c l)) (Config.generate_service_config k c vars memcached)
  unfolding ceilometer_operator.Autoscaling.Config.generate_service_config
  Keeps-generate_service_config vars memcached = search blocked_rules depth 24

  Keeps-create_hash_of_input_hashes :
      (vars : StringMap) → Keeps (On k (P k c l)) (Config.create_hash_of_input_hashes k c vars)
  unfolding ceilometer_operator.Autoscaling.Config.create_hash_of_input_hashes
      ceilometer_operator.Services.Inputs.create_hash_of_input_hashes
  Keeps-create_hash_of_input_hashes vars = search blocked_rules depth 24

  Keeps-reconcile_config :
      (vars : StringMap) (memcached : Memcached)
      → Keeps (On k (P k c l)) (Normal.reconcile_config k c vars memcached)
  unfolding ceilometer_operator.Autoscaling.Normal.reconcile_config
  Keeps-reconcile_config vars memcached =
      search
        (
          blocked_rules,
          Keeps-generate_service_config,
          Keeps-create_hash_of_input_hashes,
          Keeps-config_error k c l,
        )
        depth 24

  Keeps-reconcile_inputs : Keeps (On k (P k c l)) (Normal.reconcile_inputs k c)
  unfolding ceilometer_operator.Autoscaling.Normal.reconcile_inputs
      ceilometer_operator.Autoscaling.Config.get_secret
  Keeps-reconcile_inputs =
      search
        (
          blocked_rules,
          Keeps-get_secret k c l,
          Keeps-stop_on_error k c l,
          Keeps-reconcile_memcached,
          Keeps-reconcile_heat,
          Keeps-reconcile_config,
        )
        depth 24

  module _ (m : MirrorsKeystone k c.services keystone_service_ready) where
    Keeps-reconcile_keystone :
        (labels : StringMap) → Keeps (On k (P k c l)) (Aodh.reconcile_keystone k c labels)
    unfolding ceilometer_operator.Autoscaling.Aodh.reconcile_keystone
    Keeps-reconcile_keystone labels =
        search (blocked_rules, Keeps-reconcile_keystone_service k c l m)

    Keeps-reconcile_init_aodh :
        (labels : StringMap) → Keeps (On k (P k c l)) (Aodh.reconcile_init_aodh k c labels)
    unfolding ceilometer_operator.Autoscaling.Aodh.reconcile_init_aodh
        ceilometer_operator.Autoscaling.Aodh.require_secret
        ceilometer_operator.Autoscaling.Aodh.reconcile_database
        ceilometer_operator.Autoscaling.Aodh.reconcile_db_sync
        ceilometer_operator.Autoscaling.Aodh.awaits
        ceilometer_operator.Autoscaling.Aodh.database_failed type_eq
    Keeps-reconcile_init_aodh labels = search (blocked_rules, Keeps-reconcile_keystone) depth 32

  Keeps-expose :
      (order : List EndpointType) (endpoints : StringMap)
      → Keeps (On k (P k c l)) (Expose.expose k c order endpoints)
  unfolding ceilometer_operator.Autoscaling.Aodh.Expose.expose
      ceilometer_operator.Autoscaling.Aodh.Expose.expose_endpoint
      ceilometer_operator.Autoscaling.Aodh.Expose.not_exposed type_eq
  Keeps-expose [] endpoints = search blocked_rules
  Keeps-expose (t ∷ order) endpoints = search (blocked_rules, Keeps-expose order) depth 24

  module _ (e : MirrorsEndpoint k c l) where
    Keeps-reconcile_endpoint :
        (endpoints : StringMap) → Keeps (On k (P k c l)) (Expose.reconcile_endpoint k c endpoints)
    unfolding ceilometer_operator.Autoscaling.Aodh.Expose.reconcile_endpoint type_eq
    Keeps-reconcile_endpoint endpoints = Keeps-bind _ _ (Keeps-the_object k _) λ o.
        Keeps-ask_bind k _ _ _ λ w. Keeps-bind _ _ (search keeps_rules) λ _.
          Keeps-bind _ _
            (Keeps-mirror k l keystone_endpoint_ready _ (e endpoints o.meta.namespace w) refl)
            λ _. search keeps_rules

    Keeps-reconcile_normal_aodh :
        (order : List EndpointType) (hash : String)
        → Keeps (On k (P k c l)) (Expose.reconcile_normal_aodh k c order hash)
    unfolding ceilometer_operator.Autoscaling.Aodh.Expose.reconcile_normal_aodh type_eq
    Keeps-reconcile_normal_aodh order hash =
        search
          (
            blocked_rules,
            Keeps-reconcile_stateful_set k c l,
            Keeps-expose,
            Keeps-reconcile_endpoint,
          )
          depth 24

  module _ (m : MirrorsKeystone k c.services keystone_service_ready)
      (e : MirrorsEndpoint k c l) where
    Keeps-reconcile_service :
        (order : List EndpointType) (hash : String)
        → Keeps (On k (P k c l)) (Normal.reconcile_service k c order hash)
    unfolding ceilometer_operator.Autoscaling.Normal.reconcile_service
        ceilometer_operator.Autoscaling.Normal.reconcile_init
        ceilometer_operator.Autoscaling.Normal.stop_if_pending
    Keeps-reconcile_service order hash =
        search
          (
            blocked_rules,
            Keeps-reconcile_init_aodh m,
            Keeps-reconcile_normal_aodh e,
            Keeps-stop_unless_done k c l,
          )
          depth 24

    Keeps-reconcile_normal :
        SetsRbac k c l
        → (order : List EndpointType) → Keeps (On k (P k c l)) (Normal.reconcile_normal k c order)
    unfolding ceilometer_operator.Autoscaling.Normal.reconcile_normal
        ceilometer_operator.Autoscaling.Normal.reconcile_transport_url type_eq
    Keeps-reconcile_normal r order =
        search
          (
            blocked_rules,
            Keeps-reconcile_rbac k c l r,
            Keeps-reconcile_transport_url k c l,
            Keeps-reconcile_inputs,
            Keeps-reconcile_service,
          )
          depth 24

    -- The whole body of `Reconcile`, deletions included.
    pub Keeps-body :
        SetsRbac k c l
        → (order : List EndpointType) → Keeps (On k (P k c l)) (Normal.body k c order)
    unfolding ceilometer_operator.Autoscaling.Normal.body
    Keeps-body r order = Keeps-bind _ _ (Keeps-prepare k l _) λ _.
        Keeps-bind _ _ (Keeps-set_status k (P k c l) _) λ _.
          Keeps-bind _ _ (Keeps-the_object k _) λ o.
            Keeps-if o.meta.deleting _ _ (Keeps-reconcile_delete k c l)
              (Keeps-reconcile_normal r order)
