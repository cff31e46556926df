-- ===== src/Ceilometer/Normal/Tests/Healthy.antt =====
-- A Ceilometer with the conditions of a new one, on a cluster whose children are ready.
use ceilometer_operator.Prelude.{[], refl, true, none, StringMap}
use ceilometer_operator.Go.{ok}
use ceilometer_operator.Conditions.Simple.{laws}
use ceilometer_operator.Cluster.{Obj}
use ceilometer_operator.Cluster.Reconcile.Settles.{Settled}
use ceilometer_operator.Services.Healthy.Written.{Written}
use ceilometer_operator.Spec.Ceilometer.{CeilometerSpec, CeilometerStatus}
use ceilometer_operator.Ceilometer.Calls.{Calls}
use ceilometer_operator.Ceilometer.Normal.{body}
use ceilometer_operator.Ceilometer.Normal.Healthy.{after_roles, all_types, AllHealthy}
use ceilometer_operator.Ceilometer.Normal.Written.{reconcile-Written}
use ceilometer_operator.Ceilometer.Normal.Tests.{calls, ceilometer}
use ceilometer_operator.Tests.Healthy.{
  ready_services, AnyState, ready_services-Healthy, unknown_conditions,
  unknown_conditions-RolesThere, unknown_conditions-Waiting,
}
use ceilometer_operator.Tests.World.{cluster}

abbrev awaiting : Obj cluster CeilometerSpec (CeilometerStatus StringMap)
awaiting = record ceilometer.instance { conditions = unknown_conditions all_types }

abbrev ready_calls : Calls cluster
ready_calls = record {
  frame = record {
    get = λ w. (ok awaiting, w);
    new_helper = λ o. none;
    patch_instance = λ before after w. (none, w);
  };
  services = ready_services;
  service_set_controller_reference = λ owner s. (none, s);
  service_create_or_update = calls.service_create_or_update;
}

ready_calls-AllHealthy : AllHealthy cluster ready_calls AnyState
ready_calls-AllHealthy = record {
  services = ready_services-Healthy;
  service_owner = λ m o. refl;
  service = λ name namespace f w e g. (e _, tt);
}

awaiting-Settled : Settled cluster awaiting
unfolding ceilometer_operator.Tests.World.member
awaiting-Settled = record { finalizers = λ d. refl; conditions = refl }

reconcile-Written_example :
    Written cluster ready_services AnyState
      (λ t. t.hash)
      awaiting.status.hash
      ready_calls.frame
      true
      (body cluster ready_calls)
      awaiting
      []
      []
reconcile-Written_example =
    reconcile-Written cluster ready_calls AnyState ready_calls-AllHealthy laws [] [] awaiting refl
      refl awaiting-Settled refl tt (unknown_conditions-RolesThere after_roles)
      (unknown_conditions-Waiting all_types)
