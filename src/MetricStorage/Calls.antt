-- ===== src/MetricStorage/Calls.antt =====
-- The calls of the MetricStorage controller, and the types of other projects that it fills in.
use ceilometer_operator.Prelude.{ℕ, String, Bool, Option, List, StringMap}
use ceilometer_operator.Go.{Result}
use ceilometer_operator.Object.{Meta, Ret}
use ceilometer_operator.Spec.MetricStorage.{MetricStorageSpec}
use ceilometer_operator.Cluster.{Cluster, Stmt, Handler}
use ceilometer_operator.Cluster.Reconcile.{Frame}

-- corev1.PersistentVolumeClaimSpec
pub record Pvc (LabelSelector Quantity : Type 0) : Type 0 where
  pub selector : Option LabelSelector
  pub storage_class_name : Option String
  pub storage : Quantity

-- the fields of obov1.MonitoringStackSpec that the operator sets
pub record StackSpec (LabelSelector Quantity : Type 0) : Type 0 where
  pub alertmanager_disabled : Bool
  pub replicas : ℕ
  pub persistent_volume_claim : Option (Pvc LabelSelector Quantity)
  pub retention : String
  pub match_labels : StringMap

-- a condition of a obov1.MonitoringStack
pub record StackCondition : Type 0 where
  pub status : String
  pub reason : String
  pub message : String

-- obov1.MonitoringStack
pub record StackObject (Custom : Type 0) : Type 0 where
  pub spec : Custom
  pub labels : StringMap
  pub conditions : List StackCondition

-- monv1.ServiceMonitor: the interval, the labels that are dropped and the selector of its endpoint
pub record MonitorObject : Type 0 where
  pub labels : StringMap
  pub interval : String
  pub dropped_labels : List String
  pub selector : StringMap

-- the ScrapeConfig, which is unstructured
pub record ScrapeObject : Type 0 where
  pub labels : StringMap
  pub scrape_interval : String
  pub targets : List String

-- dataplanev1.NodeSection
pub record Node : Type 0 where
  pub host_name : String
  pub ansible_host : String

-- dataplanev1.OpenStackDataPlaneNodeSet; the map of nodes stands in the order of its iteration.
pub record NodeSet : Type 0 where
  pub services : List String
  pub nodes : List (String × Node)

-- a reservation of an infranetworkv1.IPSet
pub record Reservation : Type 0 where
  pub network : String
  pub address : String

pub record Calls (k : Cluster) : Type 1 where
  pub LabelSelector : Type 0
  pub Quantity : Type 0
  pub MonitoringStackSpec : Type 0
  pub frame : Frame k (MetricStorageSpec LabelSelector MonitoringStackSpec) Unit
  -- common.AppSelector
  pub app_selector : String
  -- reflect.DeepEqual with an empty selector, or with an empty stack
  pub selector_is_empty : LabelSelector → Bool
  pub stack_is_empty : MonitoringStackSpec → Bool
  -- the stack with these fields
  pub stack_of : StackSpec LabelSelector Quantity → MonitoringStackSpec
  -- resource.ParseQuantity
  pub parse_quantity : String → Result k.Error Quantity
  -- net.ParseIP(s) != nil
  pub is_ip : String → Bool
  -- fmt's `%s:%d`
  pub host_and_port : String → ℕ → String
  -- `r.Watching`, which lives in the process: read, and written
  pub watching : k.World → List String
  pub set_watching : List String → k.World → k.World
  -- r.Client.Get of a custom resource definition, and r.Controller.Watch of its kind
  pub get_definition : String → k.World → Option k.Error × k.World
  pub controller_watch : String → k.World → Option k.Error × k.World
  -- controllerutil.CreateOrPatch by name and namespace, with SetControllerReference on each kind
  pub stack_reference :
      Meta → StackObject MonitoringStackSpec → Option k.Error × StackObject MonitoringStackSpec
  pub stack_create_or_patch :
      String
      → String
      → (StackObject MonitoringStackSpec → Option k.Error × StackObject MonitoringStackSpec)
      → k.World
      → (Option k.Error × StackObject MonitoringStackSpec) × k.World
  pub monitor_reference : Meta → MonitorObject → Option k.Error × MonitorObject
  pub monitor_create_or_patch :
      String
      → String
      → (MonitorObject → Option k.Error × MonitorObject)
      → k.World
      → (Option k.Error × MonitorObject) × k.World
  -- the mutating function of the scrape configuration reads the cluster itself
  pub scrape_reference : Meta → ScrapeObject → Option k.Error × ScrapeObject
  pub scrape_create_or_patch :
      String
      → String
      → (ScrapeObject → k.World → (Option k.Error × ScrapeObject) × k.World)
      → k.World
      → (Option k.Error × ScrapeObject) × k.World
  -- lists in a namespace; of the IP sets only whether there is one is read
  pub list_ip_sets : String → k.World → Result k.Error (List String) × k.World
  pub list_node_sets : String → k.World → Result k.Error (List NodeSet) × k.World
  -- the reservations of an IP set, by name and namespace
  pub get_ip_set : String → String → k.World → Result k.Error (List Reservation) × k.World
  -- the networks of the services of an OpenStackDataPlaneService
  pub get_data_plane_service : String → String → k.World → Result k.Error (List String) × k.World

module _ (k : Cluster) (c : Calls k) where
  abbrev pub MSpec : Type 0
  MSpec = MetricStorageSpec c.LabelSelector c.MonitoringStackSpec

  abbrev pub Do : Type 0 → Type 0
  Do A = Stmt k MSpec Unit (Ret k.Error) A

  abbrev pub Fn : Type 0
  Fn = Handler k MSpec Unit
