-- ===== src/Ceilometer/Normal/Tests.antt =====
-- A Ceilometer on a cluster where every call succeeds, and its deletion.
mod Healthy
mod Followed
use ceilometer_operator.Prelude.{
  [], String, ◌≡◌, ◌⊎◌, refl, none, some, List, ◌∷◌, StringMap, arith,
}
use ceilometer_operator.Go.{return, ok, err}
use ceilometer_operator.Conditions.Simple.{laws}
use ceilometer_operator.Object.{Object, State, done, ret}
use ceilometer_operator.Spec.Ceilometer.{CeilometerSpec, CeilometerStatus}
use ceilometer_operator.Cluster.{Cluster, Obj}
use ceilometer_operator.Ceilometer.Calls.{Calls}
use ceilometer_operator.Ceilometer.Pods.{service_name}
use ceilometer_operator.Ceilometer.Normal.{held_service, reconcile_normal, reconcile_delete}
use ceilometer_operator.Ceilometer.Normal.Kept.{MirrorsKeystone, Both}
use ceilometer_operator.Ceilometer.Normal.Success.{reconcile_normal-Both}
use ceilometer_operator.Ceilometer.Normal.Delete.{reconcile_delete_lem}
use ceilometer_operator.Services.Release.Released.{Released}
use ceilometer_operator.Tests.Services.{services}
use ceilometer_operator.Tests.World.{cluster, without, meta_of, empty_conditions}

abbrev pub calls : Calls cluster
calls = record {
  frame = record {
    get = λ w. (err "not found", w);
    new_helper = λ o. none;
    patch_instance = λ before after w. (none, w);
  };
  services = services;
  service_set_controller_reference = λ owner s. (none, s);
  service_create_or_update = λ name namespace f w.
      (f (record { labels = []; selector = []; protocol = ""; port = 0; target_port = 0 }), w);
}

abbrev pub ceilometer :
    State (List String) (Obj cluster CeilometerSpec (CeilometerStatus StringMap))
ceilometer = record {
  world = [];
  instance = record {
    meta = meta_of "ceilometer" ("openstack.org/telemetry" ∷ []);
    spec = record {
      rabbit_mq_cluster_name = "rabbitmq";
      password_selectors = record {
        service = "CeilometerPassword";
        aodh_service = "";
        database = "";
      };
      service_user = "ceilometer";
      secret = "osp-secret";
      custom_service_config = "";
      default_config_overwrite = [];
      network_attachment_definitions = [];
      central_image = "central";
      notification_image = "notification";
      sg_core_image = "sg-core";
      compute_image = "compute";
      ipmi_image = "ipmi";
      node_exporter_image = "node-exporter";
    };
    status = record {
      ready_count = 0;
      hash = ("input", "hash of the inputs") ∷ [];
      transport_url_secret = "";
      networks = [];
    };
    conditions = empty_conditions;
  };
}

mirrors_keystone : MirrorsKeystone cluster calls
mirrors_keystone spec namespace labels w x h = ground (arith)

reconcile_normal_returns : (reconcile_normal cluster calls ceilometer).0 ≡ return (ret done none)
unfolding reconcile_normal ceilometer_operator.Go.◌>>=◌ ceilometer_operator.Go.check_error
    ceilometer_operator.Go.check ceilometer_operator.Go.exit ceilometer_operator.Go.exit_if
    ceilometer_operator.Go.pure ceilometer_operator.Go.call ceilometer_operator.Go.deref
    ceilometer_operator.Cluster.the_object ceilometer_operator.Cluster.ask
    ceilometer_operator.Cluster.marks_true ceilometer_operator.Cluster.marks_false
    ceilometer_operator.Cluster.change ceilometer_operator.Cluster.set_status
    ceilometer_operator.Cluster.sets ceilometer_operator.Cluster.stop_unless_done
    ceilometer_operator.Services.Inputs.reconcile_rbac
    ceilometer_operator.Services.Inputs.rbac_conditions_set
    ceilometer_operator.Ceilometer.Normal.reconcile_transport_url
    ceilometer_operator.Services.Inputs.reconcile_transport_url
    ceilometer_operator.Ceilometer.Normal.reconcile_inputs
    ceilometer_operator.Services.Inputs.stop_on_error
    ceilometer_operator.Ceilometer.Normal.reconcile_init
    ceilometer_operator.Ceilometer.Normal.reconcile_stateful_set
    ceilometer_operator.Services.Children.reconcile_stateful_set
    ceilometer_operator.Services.Children.reconcile_keystone_service
    ceilometer_operator.Ceilometer.Normal.fill_service
    ceilometer_operator.Services.Inputs.get_secret
    ceilometer_operator.Ceilometer.Config.generate_service_config
    ceilometer_operator.Ceilometer.Config.generate_compute_service_config
    ceilometer_operator.Services.Inputs.create_hash_of_input_hashes
    ceilometer_operator.Ceilometer.Config.create_hash_of_input_hashes
    ceilometer_operator.Ceilometer.Pods.stateful_set ceilometer_operator.Object.pending
    ceilometer_operator.Prelude.put ceilometer_operator.Prelude.lookup
reconcile_normal_returns = refl

reconcile_normal-Both_example :
    Both cluster calls (reconcile_normal cluster calls ceilometer).1.instance.conditions
reconcile_normal-Both_example =
    reconcile_normal-Both cluster calls laws mirrors_keystone ceilometer reconcile_normal_returns

reconcile_delete_lem_example :
    let (r, s') = reconcile_delete cluster calls ceilometer in
    ((r ≡ return (ret done none))
      × (s'.instance.meta.finalizers
          ≡ without "openstack.org/telemetry" ("openstack.org/telemetry" ∷ []))
      × Released cluster
          (held_service cluster calls)
          (ok (meta_of service_name ("openstack.org/telemetry" ∷ [])))
          [])
    ⊎ ((e : String) × (r ≡ return (ret done (some e))) × (s'.instance ≡ ceilometer.instance))
reconcile_delete_lem_example = reconcile_delete_lem cluster calls ceilometer
