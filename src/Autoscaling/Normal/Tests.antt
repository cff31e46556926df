-- ===== src/Autoscaling/Normal/Tests.antt =====
-- An Autoscaling on a cluster where every call succeeds, and its deletion.
use ceilometer_operator.Prelude.{
  [], String, ◌≡◌, ◌≢◌, ◌⊎◌, ◌∙◌, inl, inr, refl, true, false, none, some, List, ◌∷◌, StringMap,
  arith,
}
use ceilometer_operator.Go.{return, ok, err}
use ceilometer_operator.Conditions.{
  keystone_service_ready, keystone_endpoint_ready, lib, init_reason, type_eq, status_at,
  condition_true, ready, input_ready, set_false, error_reason, severity_warning,
}
use ceilometer_operator.Conditions.Simple.{Conds, api, laws}
use ceilometer_operator.Object.{Object, State, done, ret}
use ceilometer_operator.Spec.Autoscaling.{AutoscalingSpec, AutoscalingStatus}
use ceilometer_operator.Cluster.{Obj}
use ceilometer_operator.Cluster.Success.{AllTrue}
use ceilometer_operator.Services.Children.Kept.{MirrorsKeystone}
use ceilometer_operator.Autoscaling.Calls.{
  Calls, EndpointType, endpoint_internal, endpoint_public, cluster_ip,
}
use ceilometer_operator.Autoscaling.Aodh.Expose.Exposed.{MirrorsEndpoint}
use ceilometer_operator.Autoscaling.Aodh.Delete.{AllReleased}
use ceilometer_operator.Autoscaling.Config.{with_prometheus}
use ceilometer_operator.Autoscaling.Config.Prometheus.{with_prometheus_lem}
use ceilometer_operator.Autoscaling.Normal.{reconcile_normal, reconcile_service, reconcile_delete}
use ceilometer_operator.Autoscaling.Normal.Success.{
  inputs_types, service_types, reconcile_service-AllTrue, reconcile_normal-AllTrue,
}
use ceilometer_operator.Autoscaling.Normal.Input.{CopyKeepsInput}
use ceilometer_operator.Autoscaling.Normal.Passes.{Passes, one, more, written, Passes-not_ready}
use ceilometer_operator.Autoscaling.Normal.Delete.{reconcile_delete-AllReleased}
use ceilometer_operator.Tests.Services.{services}
use ceilometer_operator.Tests.Specs.{autoscaling_spec}
use ceilometer_operator.Tests.World.{cluster, without, meta_of, empty_conditions}

abbrev pub endpoint_name : EndpointType → String
endpoint_name endpoint_internal = "internal"
endpoint_name endpoint_public = "public"

abbrev pub calls : Calls cluster
calls = record {
  services = services;
  RoutedOverrideSpec = Unit;
  empty_override = tt;
  embedded_is_nil = λ r. true;
  with_empty_embedded = λ r. r;
  frame = record {
    get = λ w. (err "not found", w);
    new_helper = λ o. none;
    patch_instance = λ before after w. (none, w);
  };
  kind = λ m. "Autoscaling";
  Database = String;
  get_database_by_name = λ name w. (ok name, w);
  delete_finalizer = λ db w. (none, w);
  new_database = λ spec. spec.name;
  create_or_patch_db_by_name = λ db name w. ((ret done none, db), w);
  wait_for_db_created = λ db w. ((ret done none, db), w);
  get_database_hostname = λ db. "openstack.openstack.svc";
  do_job = λ job type preserve before w.
      (record { answer = ret done none; has_changed = true; hash = "hash of the job" }, w);
  get_memcached = λ name namespace w. (
    ok (record {
      name = name;
      is_ready = true;
      server_list = "memcached-0:11211" ∷ [];
      server_list_with_inet = "inet:[memcached-0]:11211" ∷ [];
    }),
    w,
  );
  get_heat = λ name namespace w. (ok (record { name = name; is_ready = true }), w);
  Service = String;
  new_service = λ details override. ok details.name;
  add_annotation = λ annotation service. service;
  get_service_type = λ service. cluster_ip;
  get_service_hostname = λ service. service;
  service_create_or_patch = λ service w. ((ret done none, service), w);
  get_api_endpoint = λ service override. ok service;
  endpoint_text = endpoint_name;
  annotation_endpoint_key = "endpoint";
  annotation_ingress_create_key = "ingress";
  annotation_hostname_key = "hostname";
  KeystoneEndpoint = Unit;
  get_keystone_endpoint = λ name namespace w. (err "not found", w);
  held_endpoint = record {
    meta = λ x. meta_of "aodh" [];
    with_meta = λ m x. x;
    update = λ x w. (none, w);
  };
  keystone_endpoint_create_or_patch = λ name endpoints namespace labels w. (
    (ret done none, some (api.unknown_condition keystone_endpoint_ready init_reason (lib ""))),
    w,
  );
}

abbrev pub autoscaling :
    State (List String) (Obj cluster (AutoscalingSpec Unit) (AutoscalingStatus StringMap))
autoscaling = record {
  world = [];
  instance = record {
    meta = meta_of "autoscaling" ("openstack.org/telemetry" ∷ []);
    spec = autoscaling_spec;
    status = record {
      ready_count = 0;
      hash = ("input", "hash of the inputs") ∷ [];
      networks = [];
      transport_url_secret = "";
      database_hostname = "";
      prometheus_host = "";
      prometheus_port = 0;
      api_endpoints = [];
    };
    conditions = empty_conditions;
  };
}

abbrev order : List EndpointType
order = endpoint_public ∷ endpoint_internal ∷ []

mirrors_keystone : MirrorsKeystone cluster services keystone_service_ready
mirrors_keystone spec namespace labels w x h = ground (arith)

mirrors_endpoint : MirrorsEndpoint cluster calls laws
mirrors_endpoint endpoints namespace w x h = ground (arith)

reconcile_normal_returns :
    (reconcile_normal cluster calls order autoscaling).0 ≡ return (ret done none)
unfolding ceilometer_operator.Autoscaling.Normal.reconcile_normal ceilometer_operator.Go.◌>>=◌
    ceilometer_operator.Services.Inputs.reconcile_rbac ceilometer_operator.Cluster.the_object
    ceilometer_operator.Cluster.ask ceilometer_operator.Cluster.change
    ceilometer_operator.Cluster.stop_unless_done ceilometer_operator.Object.pending
    ceilometer_operator.Cluster.marks_true
    ceilometer_operator.Services.Inputs.reconcile_transport_url ceilometer_operator.Go.check_error
    ceilometer_operator.Cluster.set_status ceilometer_operator.Autoscaling.Config.get_secret
    ceilometer_operator.Services.Inputs.get_secret ceilometer_operator.Go.deref
    ceilometer_operator.Services.Inputs.stop_on_error ceilometer_operator.Go.check
    ceilometer_operator.Autoscaling.Config.generate_service_config
    ceilometer_operator.Autoscaling.Aodh.Expose.annotated
    ceilometer_operator.Autoscaling.Aodh.Expose.chosen
    ceilometer_operator.Autoscaling.Aodh.Expose.expose
    ceilometer_operator.Autoscaling.Aodh.Expose.expose_endpoint
    ceilometer_operator.Autoscaling.Aodh.Expose.fill_override
    ceilometer_operator.Autoscaling.Aodh.Expose.filled
    ceilometer_operator.Autoscaling.Aodh.Expose.reconcile_endpoint
    ceilometer_operator.Autoscaling.Aodh.Expose.reconcile_normal_aodh
    ceilometer_operator.Autoscaling.Aodh.awaits
    ceilometer_operator.Autoscaling.Aodh.reconcile_database
    ceilometer_operator.Autoscaling.Aodh.reconcile_db_sync
    ceilometer_operator.Autoscaling.Aodh.reconcile_init_aodh
    ceilometer_operator.Autoscaling.Aodh.reconcile_keystone
    ceilometer_operator.Autoscaling.Aodh.require_secret
    ceilometer_operator.Autoscaling.Config.create_hash_of_input_hashes
    ceilometer_operator.Autoscaling.Config.with_prometheus
    ceilometer_operator.Autoscaling.Normal.reconcile_config
    ceilometer_operator.Autoscaling.Normal.reconcile_heat
    ceilometer_operator.Autoscaling.Normal.reconcile_init
    ceilometer_operator.Autoscaling.Normal.reconcile_inputs
    ceilometer_operator.Autoscaling.Normal.reconcile_memcached
    ceilometer_operator.Autoscaling.Normal.reconcile_service
    ceilometer_operator.Autoscaling.Normal.reconcile_transport_url
    ceilometer_operator.Autoscaling.Normal.require_ready
    ceilometer_operator.Autoscaling.Normal.stop_if_pending
    ceilometer_operator.Autoscaling.Pods.aodh_stateful_set ceilometer_operator.Cluster.set_spec
    ceilometer_operator.Cluster.sets ceilometer_operator.Go.call ceilometer_operator.Go.exit
    ceilometer_operator.Go.exit_if ceilometer_operator.Go.pure ceilometer_operator.Prelude.put
    ceilometer_operator.Services.Children.reconcile_keystone_service
    ceilometer_operator.Services.Children.reconcile_stateful_set
    ceilometer_operator.Services.Inputs.create_hash_of_input_hashes
    ceilometer_operator.Services.Inputs.rbac_conditions_set
    ceilometer_operator.Services.Inputs.transport_url_create_or_update
    ceilometer_operator.Prelude.lookup
reconcile_normal_returns = refl

reconcile_normal-AllTrue_example :
    AllTrue cluster inputs_types
      (reconcile_normal cluster calls order autoscaling).1.instance.conditions
reconcile_normal-AllTrue_example =
    reconcile_normal-AllTrue cluster calls laws mirrors_keystone mirrors_endpoint order autoscaling
      reconcile_normal_returns

reconcile_delete-AllReleased_example :
    let (r, s') = reconcile_delete cluster calls autoscaling in
    ((r ≡ return (ret done none))
      × (s'.instance.meta.finalizers
          ≡ without "openstack.org/telemetry" ("openstack.org/telemetry" ∷ []))
      × AllReleased cluster calls autoscaling)
    ⊎ ((e : String) × (r ≡ return (ret done (some e))) × (s'.instance ≡ autoscaling.instance))
reconcile_delete-AllReleased_example = reconcile_delete-AllReleased cluster calls autoscaling

-- a state where the inputs are shown as ready
abbrev with_inputs :
    State (List String) (Obj cluster (AutoscalingSpec Unit) (AutoscalingStatus StringMap))
with_inputs = record autoscaling {
  instance = record autoscaling.instance {
    conditions = record { nil = false; at = λ t. some (api.true_condition t (lib "ReadyMessage")) };
  };
}

reconcile_service_returns :
    (reconcile_service cluster calls order "hash" with_inputs).0 ≡ return (ret done none)
unfolding ceilometer_operator.Autoscaling.Normal.reconcile_normal ceilometer_operator.Go.◌>>=◌
    ceilometer_operator.Services.Inputs.reconcile_rbac ceilometer_operator.Cluster.the_object
    ceilometer_operator.Cluster.ask ceilometer_operator.Cluster.change
    ceilometer_operator.Cluster.stop_unless_done ceilometer_operator.Object.pending
    ceilometer_operator.Cluster.marks_true
    ceilometer_operator.Services.Inputs.reconcile_transport_url ceilometer_operator.Go.check_error
    ceilometer_operator.Cluster.set_status ceilometer_operator.Autoscaling.Config.get_secret
    ceilometer_operator.Services.Inputs.get_secret ceilometer_operator.Go.deref
    ceilometer_operator.Services.Inputs.stop_on_error ceilometer_operator.Go.check
    ceilometer_operator.Autoscaling.Config.generate_service_config
    ceilometer_operator.Autoscaling.Aodh.Expose.annotated
    ceilometer_operator.Autoscaling.Aodh.Expose.chosen
    ceilometer_operator.Autoscaling.Aodh.Expose.expose
    ceilometer_operator.Autoscaling.Aodh.Expose.expose_endpoint
    ceilometer_operator.Autoscaling.Aodh.Expose.fill_override
    ceilometer_operator.Autoscaling.Aodh.Expose.filled
    ceilometer_operator.Autoscaling.Aodh.Expose.reconcile_endpoint
    ceilometer_operator.Autoscaling.Aodh.Expose.reconcile_normal_aodh
    ceilometer_operator.Autoscaling.Aodh.awaits
    ceilometer_operator.Autoscaling.Aodh.reconcile_database
    ceilometer_operator.Autoscaling.Aodh.reconcile_db_sync
    ceilometer_operator.Autoscaling.Aodh.reconcile_init_aodh
    ceilometer_operator.Autoscaling.Aodh.reconcile_keystone
    ceilometer_operator.Autoscaling.Aodh.require_secret
    ceilometer_operator.Autoscaling.Config.create_hash_of_input_hashes
    ceilometer_operator.Autoscaling.Config.with_prometheus
    ceilometer_operator.Autoscaling.Normal.reconcile_config
    ceilometer_operator.Autoscaling.Normal.reconcile_heat
    ceilometer_operator.Autoscaling.Normal.reconcile_init
    ceilometer_operator.Autoscaling.Normal.reconcile_inputs
    ceilometer_operator.Autoscaling.Normal.reconcile_memcached
    ceilometer_operator.Autoscaling.Normal.reconcile_service
    ceilometer_operator.Autoscaling.Normal.reconcile_transport_url
    ceilometer_operator.Autoscaling.Normal.require_ready
    ceilometer_operator.Autoscaling.Normal.stop_if_pending
    ceilometer_operator.Autoscaling.Pods.aodh_stateful_set ceilometer_operator.Cluster.set_spec
    ceilometer_operator.Cluster.sets ceilometer_operator.Go.call ceilometer_operator.Go.exit
    ceilometer_operator.Go.exit_if ceilometer_operator.Go.pure ceilometer_operator.Prelude.put
    ceilometer_operator.Services.Children.reconcile_keystone_service
    ceilometer_operator.Services.Children.reconcile_stateful_set
    ceilometer_operator.Services.Inputs.create_hash_of_input_hashes
    ceilometer_operator.Services.Inputs.rbac_conditions_set
    ceilometer_operator.Services.Inputs.transport_url_create_or_update
    ceilometer_operator.Prelude.lookup
reconcile_service_returns = refl

reconcile_service-AllTrue_example :
    AllTrue cluster
      (service_types inputs_types)
      (reconcile_service cluster calls order "hash" with_inputs).1.instance.conditions
unfolding ceilometer_operator.Conditions.status_at ceilometer_operator.Conditions.Simple.get_cond
reconcile_service-AllTrue_example =
    reconcile_service-AllTrue cluster calls laws mirrors_keystone mirrors_endpoint order "hash"
      with_inputs (refl, (refl, (refl, (refl, tt)))) reconcile_service_returns

-- `InputReady` is false, and no other condition is there.
abbrev blocked : Object (AutoscalingSpec Unit) (AutoscalingStatus StringMap) Conds
blocked = record autoscaling.instance {
  conditions =
      set_false api input_ready error_reason severity_warning (lib "InputReadyErrorMessage") []
        empty_conditions;
}

copy_keeps : CopyKeepsInput cluster
unfolding type_eq
copy_keeps x cs (inl e) = laws.get-set x cs input_ready ∙ rw e refl
copy_keeps x cs (inr (inl e)) = laws.get-set x cs input_ready ∙ rw e refl
copy_keeps x cs (inr (inr e)) = laws.get-set x cs input_ready ∙ rw e refl

abbrev after_pass : Object (AutoscalingSpec Unit) (AutoscalingStatus StringMap) Conds
after_pass = written cluster calls [] order blocked

run_twice : Passes cluster calls blocked (written cluster calls [] order after_pass)
run_twice =
    more {p = after_pass} (one ([], order, blocked, refl, refl)) ([], order, after_pass, refl, refl)

Passes-not_ready_example :
    status_at api (written cluster calls [] order after_pass).conditions ready ≢ some condition_true
unfolding type_eq set_false ceilometer_operator.Conditions.Simple.get_cond
    ceilometer_operator.Conditions.Simple.set_cond
Passes-not_ready_example =
    Passes-not_ready cluster calls laws mirrors_keystone mirrors_endpoint
      (record { roles = λ n m w. tt; copy_keeps = copy_keeps }) blocked
      (written cluster calls [] order after_pass) run_twice (_, refl, λ e. cc)

with_prometheus_lem_example :
    let t' =
      with_prometheus cluster calls autoscaling.instance.meta autoscaling_spec
        autoscaling.instance.status in
    (t'.prometheus_host ≢ "")
    × (t'.prometheus_port ≢ 0)
    × ((t'.prometheus_host ≡ autoscaling_spec.prometheus_host)
        ⊎ (autoscaling_spec.prometheus_host ≡ ""))
    × ((t'.prometheus_port ≡ autoscaling_spec.prometheus_port)
        ⊎ (autoscaling_spec.prometheus_port ≡ 0))
with_prometheus_lem_example =
    with_prometheus_lem cluster calls autoscaling.instance.meta autoscaling_spec
      autoscaling.instance.status
