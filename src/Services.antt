-- ===== src/Services.antt =====
-- What the controllers for Ceilometer and Autoscaling take from the libraries of the other
-- operators, beside the cluster: secrets, templates, Keystone, RabbitMQ, roles and hashes.
pub mod Inputs
pub mod Release
pub mod Children
pub mod Healthy
use ceilometer_operator.Prelude.{ℕ, String, Bool, Option, List, StringMap}
use ceilometer_operator.Go.{Result}
use ceilometer_operator.Conditions.{Condition}
use ceilometer_operator.Object.{Meta, Ret}
use ceilometer_operator.Workload.{StatefulSet}
use ceilometer_operator.Cluster.{Cluster}

-- rbacv1.PolicyRule
pub record PolicyRule : Type 0 where
  pub api_groups : List String
  pub resource_names : List String
  pub resources : List String
  pub verbs : List String

-- corev1.Secret: the values of missing keys are empty.
pub record Secret : Type 0 where
  pub name : String
  pub data_of : String → String

-- What `secret.GetSecret` returns: a pointer, a hash and an error.
pub record SecretRead (Error : Type 0) : Type 0 where
  pub secret : Option Secret
  pub hash : String
  pub error : Option Error

pub data TemplateType : Type 0 where
  template_type_scripts template_type_config : TemplateType

-- util.Template
pub record Template : Type 0 where
  pub name : String
  pub namespace : String
  pub type : TemplateType
  pub instance_type : String
  pub additional_template : StringMap
  pub custom_data : StringMap
  pub config_options : StringMap
  pub labels : StringMap

-- keystonev1.KeystoneServiceSpec
pub record KeystoneServiceSpec : Type 0 where
  pub service_type : String
  pub service_name : String
  pub service_description : String
  pub enabled : Bool
  pub service_user : String
  pub secret : String
  pub password_selector : String

-- The libraries. Strings are names, then namespaces, as the functions take them.
pub record Services (k : Cluster) : Type 1 where
  -- common.AppSelector, common.CustomServiceConfigFileName and common.InputHashName
  pub app_selector : String
  pub custom_service_config_file_name : String
  pub input_hash_name : String
  -- rabbitmqv1.TransportURL
  pub TransportUrl : Type 0
  pub set_rabbitmq_cluster_name : String → TransportUrl → TransportUrl
  pub secret_name : TransportUrl → String
  pub transport_url_set_controller_reference : Meta → TransportUrl → Option k.Error × TransportUrl
  -- controllerutil.CreateOrUpdate with its mutating function, and the object that it leaves
  pub transport_url_create_or_update :
      String
      → String
      → (TransportUrl → Option k.Error × TransportUrl)
      → k.World
      → (Option k.Error × TransportUrl) × k.World
  -- common_rbac.ReconcileRbac: namespace, resource name and rules; the conditions are those that it
  -- passes to `RbacConditionsSet`, in order
  pub reconcile_rbac :
      String → String → List PolicyRule → k.World → (Ret k.Error × List Condition) × k.World
  pub get_secret : String → String → k.World → SecretRead k.Error × k.World
  -- keystonev1.GetKeystoneAPI, and `GetEndpoint` of what it found
  pub KeystoneApi : Type 0
  pub get_keystone_api : String → k.World → Result k.Error KeystoneApi × k.World
  pub get_endpoint : KeystoneApi → String → Result k.Error String
  -- secret.EnsureSecrets, and the map of hashes that it extends
  pub ensure_secrets :
      Meta → List Template → StringMap → k.World → (Option k.Error × StringMap) × k.World
  -- labels.GetLabels with labels.GetGroupLabel
  pub get_labels : Meta → String → StringMap
  -- util.ObjectHash of env.MergeEnvs
  pub object_hash : StringMap → Result k.Error String
  -- keystonev1.GetKeystoneServiceWithName
  pub KeystoneService : Type 0
  pub get_keystone_service : String → String → k.World → Result k.Error KeystoneService × k.World
  pub keystone_service_meta : KeystoneService → Meta
  pub with_meta : Meta → KeystoneService → KeystoneService
  pub update_keystone_service : KeystoneService → k.World → Option k.Error × k.World
  -- NewKeystoneService(spec, namespace, labels, 10).CreateOrPatch, and the mirror of the conditions
  -- of the service that it leaves
  pub keystone_service_create_or_patch :
      KeystoneServiceSpec
      → String
      → StringMap
      → k.World
      → (Ret k.Error × Option Condition) × k.World
  -- how a template prints a number
  pub number_text : ℕ → String
  -- annotations.GetNADAnnotation and util.MergeStringMaps
  pub get_nad_annotation : String → List String → Result k.Error StringMap
  pub merge_string_maps : StringMap → StringMap → StringMap
  -- statefulset.NewStatefulSet(definition, 5s).CreateOrPatch, and the ready replicas of the set
  pub stateful_set_create_or_patch : StatefulSet → k.World → (Ret k.Error × ℕ) × k.World
  -- controllerutil.SetControllerReference on the definition
  pub stateful_set_set_controller_reference : Meta → StatefulSet → Option k.Error
