-- ===== src/MetricStorage/Normal/Tests.antt =====
-- A metric storage with a custom stack, on a cluster where everything can be watched.
use ceilometer_operator.Prelude.{
  [], ◌≤◌, String, ◌≡◌, ◌↔◌, ◌⊎◌, refl, Bool, true, false, Option, none, some, List, ◌∷◌, str_eq,
  map, append, arith,
}
use ceilometer_operator.Go.{return, ok, err}
use ceilometer_operator.Conditions.Simple.{laws}
use ceilometer_operator.Object.{State, done, ret}
use ceilometer_operator.Spec.MetricStorage.{MonitoringStack, MetricStorageSpec}
use ceilometer_operator.Cluster.{Cluster, Obj}
use ceilometer_operator.MetricStorage.Calls.{Node, NodeSet, Calls}
use ceilometer_operator.MetricStorage.Domain.{codes, is_valid_domain}
use ceilometer_operator.MetricStorage.Domain.Grammar.{IsDomain, is_valid_domain_iff}
use ceilometer_operator.MetricStorage.Objects.{service_monitor, scrape_config}
use ceilometer_operator.MetricStorage.Objects.Interval.{service_monitor-scrape_config}
use ceilometer_operator.MetricStorage.Watches.{is_watched, ensure_watches}
use ceilometer_operator.MetricStorage.Watches.Once.{
  WatchingLaws, count, ensure_watches_iff, ensure_watches_once,
}
use ceilometer_operator.MetricStorage.Targets.{
  get_address_from_ansible_host, get_node_exporter_targets,
}
use ceilometer_operator.MetricStorage.Targets.Listed.{
  ReadLaws, monitored, until_blank, address_in, target, get_node_exporter_targets_lem,
}
use ceilometer_operator.MetricStorage.Targets.Bounds.{
  length, monitored_nodes, length-get_node_exporter_targets,
}
use ceilometer_operator.MetricStorage.Targets.Address.{usable, get_address_from_ansible_host_lem}
use ceilometer_operator.MetricStorage.Normal.{reconcile_normal}
use ceilometer_operator.MetricStorage.Normal.Success.{Shown, reconcile_normal-Shown}
use ceilometer_operator.Tests.World.{cluster, meta_of, empty_conditions}

abbrev node : String → Node
node address = record { host_name = "compute-0.example.com"; ansible_host = address }

abbrev node_sets : List NodeSet
node_sets =
    record {
      services = "telemetry" ∷ [];
      nodes = ("a", node "192.168.122.100") ∷ ("b", node "") ∷ ("c", node "192.168.122.101") ∷ [];
    }
    ∷ []

-- the state of the cluster is the list of the kinds that are watched
abbrev calls : Calls cluster
calls = record {
  LabelSelector = Bool;
  Quantity = String;
  MonitoringStackSpec = String;
  frame = record {
    get = λ w. (err "not found", w);
    new_helper = λ o. none;
    patch_instance = λ before after w. (none, w);
  };
  app_selector = "service";
  selector_is_empty = λ b. b;
  stack_is_empty = λ s. str_eq s "";
  stack_of = λ s. s.retention;
  parse_quantity = λ s. ok s;
  is_ip = λ s. str_eq s "192.168.122.100";
  host_and_port = λ host port. append host ":9100";
  watching = λ w. w;
  set_watching = λ names w. names;
  get_definition = λ name w. (none, w);
  controller_watch = λ name w. (none, w);
  stack_reference = λ owner o. (none, o);
  stack_create_or_patch =
      λ name namespace f w. (f (record { spec = ""; labels = []; conditions = [] }), w);
  monitor_reference = λ owner o. (none, o);
  monitor_create_or_patch = λ name namespace f w.
      (f (record { labels = []; interval = ""; dropped_labels = []; selector = [] }), w);
  scrape_reference = λ owner o. (none, o);
  scrape_create_or_patch =
      λ name namespace f w. f (record { labels = []; scrape_interval = ""; targets = [] }) w;
  list_ip_sets = λ namespace w. (ok [], w);
  list_node_sets = λ namespace w. (ok node_sets, w);
  get_ip_set = λ name namespace w. (err "not found", w);
  get_data_plane_service = λ name namespace w. (err "not found", w);
}

abbrev watching_laws : WatchingLaws cluster calls
watching_laws = record {
  watching-set = λ names w. refl;
  watching-definition = λ name w. refl;
  watching-watch = λ name w. refl;
}

abbrev read_laws : ReadLaws cluster calls
read_laws = record {
  ip_set_reads = λ name namespace w. refl;
  service_reads = λ name namespace w. refl;
}

ensure_watches_iff_example :
    ((ensure_watches cluster calls "b" ("a" ∷ [])).0 ≡ none)
    ↔ (is_watched "b" (ensure_watches cluster calls "b" ("a" ∷ [])).1 ≡ true)
ensure_watches_iff_example = ensure_watches_iff cluster calls watching_laws "b" ("a" ∷ [])

once : count "a" ("a" ∷ []) ≤ 1
unfolding count
once = omega arith

ensure_watches_once_example : count "a" (ensure_watches cluster calls "b" ("a" ∷ [])).1 ≤ 1
ensure_watches_once_example =
    ensure_watches_once cluster calls watching_laws "b" ("a" ∷ []) "a" once

get_node_exporter_targets_lem_example : get_node_exporter_targets cluster calls "openstack" [] ≡ (
  ok (
      map
        (target cluster calls)
        (until_blank (map (address_in cluster calls false "openstack" []) (monitored node_sets)))),
  [],
)
get_node_exporter_targets_lem_example =
    get_node_exporter_targets_lem cluster calls read_laws "openstack" [] [] [] [] node_sets refl
      refl

abbrev found_targets : List String
found_targets =
    map (target cluster calls)
      (until_blank (map (address_in cluster calls false "openstack" []) (monitored node_sets)))

length-get_node_exporter_targets_example : length found_targets ≤ monitored_nodes node_sets
length-get_node_exporter_targets_example =
    length-get_node_exporter_targets cluster calls "openstack" [] [] [] [] (ok []) node_sets
      found_targets refl refl
      (get_node_exporter_targets_lem cluster calls read_laws "openstack" [] [] [] [] node_sets refl
        refl)

is_valid_domain_iff_example :
    (is_valid_domain "compute-0.example.com" ≡ true) ↔ IsDomain (codes "compute-0.example.com")
is_valid_domain_iff_example = is_valid_domain_iff "compute-0.example.com"

get_address_from_ansible_host_lem_example :
    let address = get_address_from_ansible_host cluster calls (node "") in
    ((address ≡ "") × (usable cluster calls "" ≡ true))
    ⊎ ((address ≡ "compute-0.example.com")
        × (usable cluster calls "" ≡ false)
        × (is_valid_domain "compute-0.example.com" ≡ true))
    ⊎ ((address ≡ "")
        × (usable cluster calls "" ≡ false)
        × (is_valid_domain "compute-0.example.com" ≡ false))
get_address_from_ansible_host_lem_example =
    get_address_from_ansible_host_lem cluster calls (node "")

abbrev no_stack : Option (MonitoringStack Bool)
no_stack = none

service_monitor-scrape_config_example :
    let interval = (service_monitor no_stack [] []).interval in
    (interval ≡ (scrape_config no_stack [] []).scrape_interval)
    × (str_eq interval "" ≡ false)
    × (interval ≡ "30s")
service_monitor-scrape_config_example = service_monitor-scrape_config no_stack [] [] [] []

abbrev metric_storage : State (List String) (Obj cluster (MetricStorageSpec Bool String) Unit)
metric_storage = record {
  world = [];
  instance = record {
    meta = meta_of "metric-storage" [];
    spec = record { monitoring_stack = none; custom_monitoring_stack = some "stack" };
    status = tt;
    conditions = empty_conditions;
  };
}

reconcile_normal_returns :
    reconcile_normal cluster calls metric_storage
    ≡ (return (ret done none), (reconcile_normal cluster calls metric_storage).1)
unfolding reconcile_normal ceilometer_operator.Go.◌>>=◌ ceilometer_operator.Go.check_error
    ceilometer_operator.Go.exit ceilometer_operator.Go.pure ceilometer_operator.Cluster.the_object
    ceilometer_operator.Cluster.ask ceilometer_operator.Cluster.marks_true
    ceilometer_operator.Cluster.marks_false ceilometer_operator.Cluster.change
    ceilometer_operator.MetricStorage.Normal.reconcile_stack
    ceilometer_operator.MetricStorage.Normal.watch ceilometer_operator.MetricStorage.Normal.fail
    ceilometer_operator.MetricStorage.Normal.fill_stack
    ceilometer_operator.MetricStorage.Normal.show_stack
    ceilometer_operator.MetricStorage.Normal.show_first
    ceilometer_operator.MetricStorage.Normal.first_not_true
    ceilometer_operator.MetricStorage.Normal.reconcile_monitor
    ceilometer_operator.MetricStorage.Normal.fill_monitor
    ceilometer_operator.MetricStorage.Normal.reconcile_scrape
    ceilometer_operator.MetricStorage.Normal.fill_scrape
    ceilometer_operator.MetricStorage.Normal.filled_scrape
    ceilometer_operator.MetricStorage.Normal.stack_fields ensure_watches is_watched
    get_node_exporter_targets ceilometer_operator.Conditions.mark_true
    ceilometer_operator.Conditions.set_false
reconcile_normal_returns = refl

reconcile_normal-Shown_example :
    Shown cluster calls laws (reconcile_normal cluster calls metric_storage).1.instance.conditions
reconcile_normal-Shown_example =
    reconcile_normal-Shown cluster calls laws metric_storage
      (reconcile_normal cluster calls metric_storage).1 refl reconcile_normal_returns
