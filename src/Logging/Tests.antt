-- ===== src/Logging/Tests.antt =====
-- A Logging on a cluster where every call succeeds.
use ceilometer_operator.Prelude.{[], String, ◌≡◌, refl, true, none, some, List, ◌∷◌, StringMap}
use ceilometer_operator.Go.{return, ok, err}
use ceilometer_operator.Conditions.{input_ready}
use ceilometer_operator.Conditions.Simple.{laws}
use ceilometer_operator.Object.{State, done, ret}
use ceilometer_operator.Spec.Logging.{LoggingSpec, LoggingStatus}
use ceilometer_operator.Cluster.{Obj}
use ceilometer_operator.Cluster.Success.{AllTrue}
use ceilometer_operator.Logging.{Calls, reconcile_normal, body}
use ceilometer_operator.Logging.Success.{reconcile_normal-Inputs}
use ceilometer_operator.Cluster.Reconcile.Settles.{Settled}
use ceilometer_operator.Services.Healthy.Written.{Written}
use ceilometer_operator.Logging.Healthy.{after_roles, all_types, AllHealthy, body-Written}
use ceilometer_operator.Tests.Healthy.{
  ready_services, AnyState, ready_services-Healthy, unknown_conditions,
  unknown_conditions-RolesThere, unknown_conditions-Waiting,
}
use ceilometer_operator.Tests.Services.{services}
use ceilometer_operator.Tests.World.{cluster, meta_of, empty_conditions}

abbrev calls : Calls cluster
calls = record {
  services = services;
  frame = record {
    get = λ w. (err "not found", w);
    new_helper = λ o. none;
    patch_instance = λ before after w. (none, w);
  };
  get_secret_data = λ name namespace w. (ok (λ key. some "certificate"), w);
  service_create_or_update = λ name namespace f w. (none, w);
}

abbrev logging : State (List String) (Obj cluster LoggingSpec (LoggingStatus StringMap))
logging = record {
  world = [];
  instance = record {
    meta = meta_of "logging" ("openstack.org/telemetry" ∷ []);
    spec = record {
      network = "internalapi";
      ip_addr = "172.17.0.80";
      port = 10514;
      target_port = 10514;
      clo_namespace = "openshift-logging";
      rsyslog_retries = 100;
      rsyslog_queue_type = "linkedList";
      rsyslog_queue_size = 10000;
    };
    status = record { hash = ("input", "hash of the inputs") ∷ [] };
    conditions = empty_conditions;
  };
}

reconcile_normal_returns : (reconcile_normal cluster calls logging).0 ≡ return (ret done none)
unfolding reconcile_normal ceilometer_operator.Go.◌>>=◌
    ceilometer_operator.Services.Inputs.reconcile_rbac ceilometer_operator.Cluster.the_object
    ceilometer_operator.Cluster.ask ceilometer_operator.Cluster.change
    ceilometer_operator.Cluster.stop_unless_done ceilometer_operator.Object.pending
    ceilometer_operator.Cluster.marks_true ceilometer_operator.Go.check_error
    ceilometer_operator.Services.Inputs.create_hash_of_input_hashes ceilometer_operator.Go.check
    ceilometer_operator.Prelude.lookup ceilometer_operator.Go.exit_if
    ceilometer_operator.Cluster.set_status
reconcile_normal_returns = refl

reconcile_normal-Inputs_example :
    AllTrue cluster
      (input_ready ∷ [])
      (reconcile_normal cluster calls logging).1.instance.conditions
reconcile_normal-Inputs_example =
    reconcile_normal-Inputs cluster calls laws logging reconcile_normal_returns

-- All conditions that a pass sets are there, and unknown.
abbrev awaiting : Obj cluster LoggingSpec (LoggingStatus StringMap)
awaiting = record logging.instance { conditions = unknown_conditions all_types }

-- The certificate is missing.
abbrev ready_calls : Calls cluster
ready_calls = record {
  services = ready_services;
  frame = record {
    get = λ w. (ok awaiting, w);
    new_helper = λ o. none;
    patch_instance = λ before after w. (none, w);
  };
  get_secret_data = λ name namespace w. (err "not found", w);
  service_create_or_update = λ name namespace f w. (none, w);
}

ready_calls-AllHealthy : AllHealthy cluster ready_calls AnyState
ready_calls-AllHealthy = record {
  services = ready_services-Healthy;
  secret_data = λ name namespace w g. tt;
  service = λ name namespace f w g. (refl, tt);
}

awaiting-Settled : Settled cluster awaiting
unfolding ceilometer_operator.Tests.World.member
awaiting-Settled = record { finalizers = λ d. refl; conditions = refl }

body-Written_example :
    Written cluster ready_services AnyState
      (λ t. t.hash)
      awaiting.status.hash
      ready_calls.frame
      true
      (body cluster ready_calls)
      awaiting
      []
      []
body-Written_example =
    body-Written cluster ready_calls AnyState ready_calls-AllHealthy laws [] [] awaiting refl refl
      awaiting-Settled refl tt (unknown_conditions-RolesThere after_roles)
      (unknown_conditions-Waiting all_types)
