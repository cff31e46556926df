-- ===== src/Lib.antt =====
-- The OpenStack ceilometer operator: controllers for Kubernetes that deploy the telemetry services.
--
-- A Telemetry object has a section for each of three components. The Telemetry controller turns each
-- section into an object of its own kind (Ceilometer, Autoscaling, MetricStorage) and shows in its
-- status whether those are ready; the controllers of these kinds create the roles, secrets, pods and
-- monitoring objects. A defaulting webhook fills in the spec of each object before it is stored.
-- Controllers interact through the objects in the cluster alone.
--
-- The parts, and the files that model them:
--   Go                 functions that mutate state, return early or panic, as a monad; Go/Laws and
--                      Go/Ensures have the rules for invariants and for postconditions, Go/Total for
--                      postconditions that rule a panic out
--   Conditions         the conditions of a status (api/v1beta1/conditions.go); the condition package of
--                      lib-common is the interface ConditionsApi with ConditionsLaws, and
--                      Conditions/Simple is an instance of it for the examples
--   Object             metadata, objects and results, and the closing function that every Reconcile
--                      defers: update_ready
--   Cluster            the state of the cluster and the calls of the Kubernetes API, as a parameter;
--                      Cluster/Reconcile is the frame of every Reconcile (reading the object, the
--                      helper, the finalizer, the first conditions, the deferred patch), with
--                      Cluster/Reconcile/Errors about the errors that it returns; Cluster/Marks
--                      has rules for the statements that all controllers use, Cluster/Success for
--                      passes that are done, and Cluster/Waiting for passes in which all calls succeed
--   Spec               the specs and statuses (api/v1beta1/*_types.go); Spec/Defaults is Default and
--                      SetupDefaults of each kind (api/v1beta1/*_webhook.go)
--   Telemetry          controllers/telemetry_controller.go: reconcileNormal, ensureDeleted and one
--                      function for each section; Telemetry/Normal/Follows composes it with the
--                      controller for Ceilometer
--   Workload, Services  the types of pods, and the calls of other operators' libraries; the steps that
--                      the controllers have alike: Services/Inputs (roles, transport URL, getSecret,
--                      hashes), Services/Children (Keystone service, stateful set) and
--                      Services/Release (finalizers of other objects); Services/Healthy is a cluster
--                      on which every call succeeds
--   Ceilometer         controllers/ceilometer_controller.go and pkg/ceilometer: Pods is StatefulSet with
--                      its volumes, Config the secrets, configurations and hashes, Normal the
--                      reconciliation, its init and the deletion
--   Autoscaling        controllers/autoscaling_controller.go, controllers/aodh_controller.go and
--                      pkg/autoscaling: Pods is AodhStatefulSet with its volumes, DbSyncJob and
--                      Prometheus, Config the configuration, Aodh the deletion and the initialization of
--                      Aodh, Aodh/Expose its pods, services and endpoints, Normal the reconciliation
--   Logging            controllers/logging_controller.go and pkg/logging
--   Requests           the functions that map a change of an object to the objects that are reconciled:
--                      transportURLSecretFn, memcachedFn and nodeSetWatchFn
--   MetricStorage      controllers/metricstorage_controller.go and pkg/metricstorage: Watches is
--                      ensureWatches, Targets getNodeExporterTargets with the addresses of nodes, Domain
--                      isValidDomain with the grammar of its expression, Objects the monitoring objects,
--                      Normal the reconciliation
--   Manager            main.go: the scheme, the set-up of controllers, webhooks and probes, and the start
--                      of the manager; Manager/Controllers is SetupWithManager of each controller
--   Tests              a concrete cluster and objects; Telemetry/Tests, Ceilometer/Normal/Tests,
--                      Autoscaling/Normal/Tests, Logging/Tests, MetricStorage/Normal/Tests,
--                      Requests/Tests and Manager/Tests run the program on it
--
-- A reconciler is a function on the state of the cluster and the object in memory. A call of the API
-- may change the cluster in any way and may fail; it is an argument of the model, and what a theorem
-- relies on is a hypothesis. Go errors are values of an unknown type; a nil pointer that is followed
-- is a panic. Loops are structural recursion over lists, so no fuel is needed, and the loop over a Go
-- map runs over a list in an order that nothing is assumed of, which is an argument for the
-- endpoints of Aodh. Ports and durations are natural
-- numbers; no arithmetic of the program can overflow.
--
-- Not modelled: the loggers, validating webhooks (they return nil), the copies of objects that are
-- generated (objects are values here), YAML and templates.
pub mod Prelude
pub mod Go
pub mod Conditions
pub mod Object
pub mod Spec
pub mod Cluster
pub mod Telemetry
pub mod Workload
pub mod Services
pub mod Ceilometer
pub mod Autoscaling
pub mod Logging
pub mod Manager
pub mod MetricStorage
pub mod Requests
pub mod Tests
