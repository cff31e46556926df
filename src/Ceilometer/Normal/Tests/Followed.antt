-- ===== src/Ceilometer/Normal/Tests/Followed.antt =====
-- A pass of the Ceilometer controller, then one of the Telemetry controller.
use ceilometer_operator.Prelude.{
  [], ◌≡◌, ◌∙◌, ◌↔◌, refl, sym, ap, Bool, true, none, some, String, StringMap, ◌∷◌,
}
use ceilometer_operator.Go.{return}
use ceilometer_operator.Conditions.{condition_true, ceilometer_ready, status_at}
use ceilometer_operator.Conditions.Simple.{laws}
use ceilometer_operator.Object.{State, done, ret}
use ceilometer_operator.Object.Ready.{SubConditionsTrue}
use ceilometer_operator.Spec.Ceilometer.{CeilometerSpec, CeilometerStatus}
use ceilometer_operator.Spec.Telemetry.{TelemetrySpec, TelemetryStatus}
use ceilometer_operator.Cluster.{Obj}
use ceilometer_operator.Cluster.Reconcile.{closed}
use ceilometer_operator.Cluster.Reconcile.Writes.{reconcile_writes}
use ceilometer_operator.Ceilometer.Calls as CeilometerCalls
use ceilometer_operator.Ceilometer.Normal as Ceilometer
use ceilometer_operator.Telemetry.{reconcile_normal}
use ceilometer_operator.Telemetry.Normal.Follows.{Shared, ceilometer_followed}
use ceilometer_operator.Telemetry.Tests.Deployed.{
  Slots, slots, calls, telemetry, with_ceilometer, with_ceilometer_returns, ceilometer_object,
  put_ceilometer, put_autoscaling, found_in, or_new, child_in-Apart,
}
use ceilometer_operator.Tests.Services.{services_of}
use ceilometer_operator.Tests.World.{meta_of}

abbrev ceilometer_calls : CeilometerCalls.Calls slots
ceilometer_calls = record {
  frame = record {
    get = λ w. (found_in w.ceilometer, w);
    new_helper = λ o. none;
    patch_instance = λ before after w. (none, put_ceilometer (some after) w);
  };
  services = services_of Slots;
  service_set_controller_reference = λ owner s. (none, s);
  service_create_or_update = λ name namespace f w.
      (f (record { labels = []; selector = []; protocol = ""; port = 0; target_port = 0 }), w);
}

abbrev shared : Shared slots calls ceilometer_calls
shared = record {
  stored = λ name namespace w. w.ceilometer;
  patch_stored = λ before after w p d n ns h. (after, refl, refl);
  patch_keeps = λ name namespace f w o keeps p h.
      keeps (or_new ceilometer_object w.ceilometer)
      ∙ ap (λ x. (or_new ceilometer_object x).conditions) p;
  owner_keeps = λ owner o. refl;
  autoscaling_apart = child_in-Apart _ put_autoscaling _ _ λ x w. refl;
}

-- with its finalizer, and the hash of its inputs
abbrev ceilometer : Obj slots CeilometerSpec (CeilometerStatus StringMap)
ceilometer = record ceilometer_object {
  meta = meta_of "ceilometer" ("openstack.org/telemetry" ∷ []);
  status = record ceilometer_object.status { hash = ("input", "hash of the inputs") ∷ [] };
}

abbrev before : Slots
before = put_ceilometer (some ceilometer) telemetry.world

abbrev left : State Slots (Obj slots CeilometerSpec (CeilometerStatus StringMap))
left = (Ceilometer.body slots ceilometer_calls (record { world = before; instance = ceilometer })).1

-- what the body has run to
body_ran :
    (Ceilometer.body slots ceilometer_calls (record { world = before; instance = ceilometer })
      ≡ (return (ret done none), left))
    × (left.instance.meta.name ≡ "ceilometer")
    × (left.instance.meta.namespace ≡ "openstack")
    × (left.world ≡ before)
unfolding ceilometer_operator.Cluster.Reconcile.prepare
    ceilometer_operator.Ceilometer.Normal.init_conditions ceilometer_operator.Cluster.set_meta
    ceilometer_operator.Ceilometer.Normal.body ceilometer_operator.Tests.World.member
    ceilometer_operator.Ceilometer.Normal.reconcile_normal ceilometer_operator.Go.◌>>=◌
    ceilometer_operator.Go.check_error ceilometer_operator.Go.check ceilometer_operator.Go.exit
    ceilometer_operator.Go.exit_if ceilometer_operator.Go.pure ceilometer_operator.Go.call
    ceilometer_operator.Go.deref ceilometer_operator.Cluster.the_object
    ceilometer_operator.Cluster.ask ceilometer_operator.Cluster.marks_true
    ceilometer_operator.Cluster.marks_false ceilometer_operator.Cluster.change
    ceilometer_operator.Cluster.set_status ceilometer_operator.Cluster.sets
    ceilometer_operator.Cluster.stop_unless_done ceilometer_operator.Services.Inputs.reconcile_rbac
    ceilometer_operator.Services.Inputs.rbac_conditions_set
    ceilometer_operator.Ceilometer.Normal.reconcile_transport_url
    ceilometer_operator.Services.Inputs.reconcile_transport_url
    ceilometer_operator.Ceilometer.Normal.reconcile_inputs
    ceilometer_operator.Services.Inputs.stop_on_error
    ceilometer_operator.Ceilometer.Normal.reconcile_init
    ceilometer_operator.Ceilometer.Normal.reconcile_stateful_set
    ceilometer_operator.Services.Children.reconcile_stateful_set
    ceilometer_operator.Services.Children.reconcile_keystone_service
    ceilometer_operator.Ceilometer.Normal.fill_service
    ceilometer_operator.Services.Inputs.get_secret
    ceilometer_operator.Ceilometer.Config.generate_service_config
    ceilometer_operator.Ceilometer.Config.generate_compute_service_config
    ceilometer_operator.Services.Inputs.create_hash_of_input_hashes
    ceilometer_operator.Ceilometer.Config.create_hash_of_input_hashes
    ceilometer_operator.Ceilometer.Pods.stateful_set ceilometer_operator.Object.pending
    ceilometer_operator.Prelude.put ceilometer_operator.Prelude.lookup
body_ran = (refl, refl, refl, refl)

left_written :
    (with_ceilometer (closed slots left.instance)).world
    ≡ (Ceilometer.reconcile slots ceilometer_calls before).1
unfolding ceilometer_operator.Ceilometer.Normal.reconcile
left_written =
    ap (put_ceilometer (some (closed slots left.instance))) (sym body_ran.3)
    ∙ sym (
        ap (λ x. x.1)
          (reconcile_writes slots ceilometer_calls.frame (Ceilometer.body slots ceilometer_calls)
            laws true before before ceilometer (ret done none) left refl refl body_ran.0).0)

abbrev afterwards :
    State Slots (Obj slots (TelemetrySpec Unit Bool String) (TelemetryStatus StringMap))
afterwards = with_ceilometer (closed slots left.instance)

ceilometer_followed_example :
    (status_at slots.conditions
        (reconcile_normal slots calls afterwards).1.instance.conditions
        ceilometer_ready
      ≡ some condition_true)
    ↔ SubConditionsTrue slots.conditions left.instance.conditions
ceilometer_followed_example =
    ceilometer_followed slots laws calls ceilometer_calls shared before before ceilometer
      (ret done none) left afterwards refl refl body_ran.0 refl
      (ap (λ (w : Slots). w.ceilometer) body_ran.3) refl body_ran.1 body_ran.2 refl refl
      left_written refl (with_ceilometer_returns (closed slots left.instance))
