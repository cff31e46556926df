-- ===== src/Autoscaling/Calls.antt =====
-- The calls of the Autoscaling controller, and the types of its statements.
use ceilometer_operator.Prelude.{ℕ, String, Bool, Option, List, StringMap}
use ceilometer_operator.Go.{Result}
use ceilometer_operator.Conditions.{Condition}
use ceilometer_operator.Object.{Meta, Ret}
use ceilometer_operator.Spec.Autoscaling.{AutoscalingSpec, AutoscalingStatus}
use ceilometer_operator.Cluster.{Cluster, Stmt, Handler}
use ceilometer_operator.Cluster.Reconcile.{Frame}
use ceilometer_operator.Services.{Services}
use ceilometer_operator.Services.Release.{Held}
use ceilometer_operator.Autoscaling.Pods.{Job}

-- service.Endpoint
pub data EndpointType : Type 0 where
  endpoint_internal endpoint_public : EndpointType

-- corev1.ServiceType, those that the controller compares with
pub data ServiceType : Type 0 where
  cluster_ip load_balancer other_service_type : ServiceType

-- the arguments of mariadbv1.NewDatabaseWithNamespace
pub record DatabaseSpec : Type 0 where
  pub database_name : String
  pub database_user : String
  pub secret : String
  pub labels : StringMap
  pub name : String
  pub namespace : String

-- service.GenericServiceDetails; the name and the protocol of the port are its own and TCP.
pub record ServiceDetails : Type 0 where
  pub name : String
  pub namespace : String
  pub labels : StringMap
  pub selector : StringMap
  pub port : ℕ

-- memcachedv1.Memcached, as the controller reads it
pub record Memcached : Type 0 where
  pub name : String
  pub is_ready : Bool
  pub server_list : List String
  pub server_list_with_inet : List String

-- heatv1.Heat, as the controller reads it
pub record Heat : Type 0 where
  pub name : String
  pub is_ready : Bool

-- What `job.DoJob` leaves: its result, whether the job changed, and its hash.
pub record JobRun (Error : Type 0) : Type 0 where
  pub answer : Ret Error
  pub has_changed : Bool
  pub hash : String

pub record Calls (k : Cluster) : Type 1 where
  pub services : Services k
  -- service.RoutedOverrideSpec: the empty one, and the test and reset of its labels and annotations
  pub RoutedOverrideSpec : Type 0
  pub empty_override : RoutedOverrideSpec
  pub embedded_is_nil : RoutedOverrideSpec → Bool
  pub with_empty_embedded : RoutedOverrideSpec → RoutedOverrideSpec
  pub frame : Frame k (AutoscalingSpec RoutedOverrideSpec) (AutoscalingStatus k.HashMap)
  -- the `Kind` of an object that was read
  pub kind : Meta → String
  -- mariadbv1.Database
  pub Database : Type 0
  pub get_database_by_name : String → k.World → Result k.Error Database × k.World
  pub delete_finalizer : Database → k.World → Option k.Error × k.World
  pub new_database : DatabaseSpec → Database
  pub create_or_patch_db_by_name : Database → String → k.World → (Ret k.Error × Database) × k.World
  pub wait_for_db_created : Database → k.World → (Ret k.Error × Database) × k.World
  pub get_database_hostname : Database → String
  -- job.NewJob(definition, type, preserve, 5s, hash before).DoJob
  pub do_job : Job → String → Bool → String → k.World → JobRun k.Error × k.World
  -- the client's Get
  pub get_memcached : String → String → k.World → Result k.Error Memcached × k.World
  pub get_heat : String → String → k.World → Result k.Error Heat × k.World
  -- service.NewService of a generic service, with a timeout of 5, and what is done with it
  pub Service : Type 0
  pub new_service : ServiceDetails → RoutedOverrideSpec → Result k.Error Service
  pub add_annotation : StringMap → Service → Service
  pub get_service_type : Service → ServiceType
  pub get_service_hostname : Service → String
  pub service_create_or_patch : Service → k.World → (Ret k.Error × Service) × k.World
  -- GetAPIEndpoint with the `EndpointURL` of the override, no protocol and no path
  pub get_api_endpoint : Service → RoutedOverrideSpec → Result k.Error String
  -- the constants of lib-common for endpoints and annotations
  pub endpoint_text : EndpointType → String
  pub annotation_endpoint_key : String
  pub annotation_ingress_create_key : String
  pub annotation_hostname_key : String
  -- keystonev1.KeystoneEndpoint: `service name, endpoints, namespace, labels` of the new one, and the
  -- mirror of the conditions of the endpoint that `CreateOrPatch` leaves
  pub KeystoneEndpoint : Type 0
  pub get_keystone_endpoint : String → String → k.World → Result k.Error KeystoneEndpoint × k.World
  pub held_endpoint : Held k KeystoneEndpoint
  pub keystone_endpoint_create_or_patch :
      String → StringMap → String → StringMap → k.World → (Ret k.Error × Option Condition) × k.World

module _ (k : Cluster) (c : Calls k) where
  abbrev pub ASpec : Type 0
  ASpec = AutoscalingSpec c.RoutedOverrideSpec

  abbrev pub AStatus : Type 0
  AStatus = AutoscalingStatus k.HashMap

  -- statements of a function that returns `(ctrl.Result, error)`
  abbrev pub Do : Type 0 → Type 0
  Do A = Stmt k ASpec AStatus (Ret k.Error) A

  abbrev pub Fn : Type 0
  Fn = Handler k ASpec AStatus
