-- ===== src/Autoscaling/Aodh/Expose.antt =====
-- `reconcileNormalAodh`: the stateful set of Aodh, its two services and its Keystone endpoint.
pub mod Exposed
use ceilometer_operator.Prelude.{
  [], String, append, Option, none, some, List, ◌∷◌, StringMap, put, is_some, if◌then◌else◌,
}
use ceilometer_operator.Go.{◌>>◌, ◌>>=◌, exit, exit_if, pure, check, check_error}
use ceilometer_operator.Conditions.{
  lib, expose_service_ready, error_reason, requested_reason, severity_info, severity_warning,
}
use ceilometer_operator.Object.{Ret, ret, done, pending}
use ceilometer_operator.Cluster.{
  Cluster, ask, the_object, set_status, set_spec, marks_true, marks_false, sets,
}
use ceilometer_operator.Services.Children.{reconcile_stateful_set}
use ceilometer_operator.Autoscaling.Pods.{service_name, aodh_api_port, aodh_stateful_set}
use ceilometer_operator.Autoscaling.Calls.{
  Calls, EndpointType, endpoint_public, ServiceType, cluster_ip, load_balancer, other_service_type,
  ASpec, Do, Fn,
}

module _ (k : Cluster) (c : Calls k) where
  open c.services use {app_selector, merge_string_maps}

  abbrev service_labels : StringMap
  service_labels = (app_selector, service_name) ∷ []

  -- the override with labels and annotations that are not nil
  unfoldable pub filled : c.RoutedOverrideSpec → c.RoutedOverrideSpec
  filled r = if c.embedded_is_nil r then c.with_empty_embedded r else r

  -- the override that is used: that of the spec, after it was filled, or an empty one
  unfoldable pub chosen : Option c.RoutedOverrideSpec → c.RoutedOverrideSpec
  unfolding filled
  chosen none = filled c.empty_override
  chosen (some r) = r

  -- The override of the spec is a pointer: what is filled in stays in the spec.
  unfoldable pub fill_override : ASpec k c → ASpec k c
  unfolding filled
  fill_override spec = record spec {
    aodh = record spec.aodh { override_service = kept spec.aodh.override_service };
  }
    where
      kept : Option c.RoutedOverrideSpec → Option c.RoutedOverrideSpec
      kept none = none
      kept (some r) = some (filled r)

  abbrev ingress_create : String → c.Service → c.Service
  ingress_create = λ value. c.add_annotation ((c.annotation_ingress_create_key, value) ∷ [])

  -- a host name for a load balancer
  unfoldable pub with_hostname : ServiceType → c.Service → c.Service
  with_hostname load_balancer s =
      c.add_annotation ((c.annotation_hostname_key, c.get_service_hostname s) ∷ []) s
  with_hostname cluster_ip s = s
  with_hostname other_service_type s = s

  -- An ingress is created for the public endpoint of a service inside of the cluster.
  unfoldable pub annotated : EndpointType → ServiceType → c.Service → c.Service
  unfolding with_hostname
  annotated endpoint_public cluster_ip s = ingress_create "true" s
  annotated _ _ s = let s' = ingress_create "false" s in with_hostname (c.get_service_type s') s'

  -- `if err != nil`, of a service
  unfoldable pub not_exposed : {A : Type 0} → Ret k.Error → k.Error → Do k c A
  not_exposed r e = do
    marks_false k expose_service_ready error_reason severity_warning
        (lib "ExposeServiceReadyErrorMessage") (k.error_text e ∷ [])
    exit r

  -- One endpoint: its service, and the address of it.
  unfoldable pub expose_endpoint : EndpointType → Do k c String
  unfolding fill_override chosen annotated not_exposed
  expose_endpoint t = do
    set_spec k fill_override
    o ← the_object k
    let override = chosen o.spec.aodh.override_service
    let key : StringMap = (c.annotation_endpoint_key, c.endpoint_text t) ∷ []
    service ←
        check
          (c.new_service
            (record {
              name = append service_name (append "-" (c.endpoint_text t));
              namespace = o.meta.namespace;
              labels = merge_string_maps service_labels key;
              selector = service_labels;
              port = aodh_api_port;
            })
            override)
          (λ e. not_exposed (ret done (some e)) e)
    let keyed = c.add_annotation key service
    patched ← ask k (c.service_create_or_patch (annotated t (c.get_service_type keyed) keyed))
    check_error patched.0.error (λ e. not_exposed patched.0 e)
    (if pending patched.0.result
        then (do
          marks_false k expose_service_ready requested_reason severity_info
              (lib "ExposeServiceReadyRunningMessage") []
          exit (ret patched.0.result none))
        else pure tt)
    check (c.get_api_endpoint patched.1 override) (λ e. exit (ret done (some e)))

  -- The loop over the endpoints, in the order in which the map yields them.
  unfoldable pub expose : List EndpointType → StringMap → Do k c StringMap
  unfolding expose_endpoint
  expose [] endpoints = pure endpoints
  expose (t ∷ ts) endpoints = do
    url ← expose_endpoint t
    expose ts (put (c.endpoint_text t) url endpoints)

  -- The Keystone endpoint, and the mirror of its conditions.
  unfoldable pub reconcile_endpoint : StringMap → Do k c Unit
  reconcile_endpoint endpoints = do
    o ← the_object k
    patched ←
        ask k (
          c.keystone_endpoint_create_or_patch service_name endpoints o.meta.namespace
            service_labels)
    exit_if (is_some patched.0.error) patched.0
    sets k patched.1
    exit_if (pending patched.0.result) (ret patched.0.result none)

  -- `reconcileNormalAodh`; `order` is the order of the two endpoints.
  unfoldable pub reconcile_normal_aodh : List EndpointType → String → Fn k c
  unfolding expose reconcile_endpoint
  reconcile_normal_aodh order hash = do
    reconcile_stateful_set k c.services
        (λ m spec. aodh_stateful_set k c.services m spec hash service_labels)
        (λ n t. record t { ready_count = n })
        (λ spec t. record t { networks = spec.aodh.network_attachment_definitions })
    endpoints ← expose order []
    marks_true k expose_service_ready (lib "ExposeServiceReadyMessage")
    set_status k (λ t. record t { api_endpoints = endpoints })
    reconcile_endpoint endpoints
    exit (ret done none)
