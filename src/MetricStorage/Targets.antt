-- ===== src/MetricStorage/Targets.antt =====
-- `getNodeExporterTargets` and the functions that find the address of a node.
pub mod Listed
pub mod Bounds
pub mod Address
use ceilometer_operator.Prelude.{
  [], String, Bool, true, false, Option, none, some, List, ◌∷◌, ◌++◌, ◌||◌, not, if◌then◌else◌,
  str_eq,
}
use ceilometer_operator.Go.{Result, ok, err}
use ceilometer_operator.Cluster.{Cluster}
use ceilometer_operator.MetricStorage.Calls.{Node, NodeSet, Reservation, Calls}
use ceilometer_operator.MetricStorage.Domain.{is_valid_domain}
use ceilometer_operator.MetricStorage.Objects.{default_node_exporter_port}

-- the loop over the services of a node set, and that over the networks of a service
pub has : String → List String → Bool
has name [] = false
has name (x ∷ xs) = str_eq x name || has name xs

-- the loops over the reservations and the networks: the first reservation on one of the networks
reserved : List Reservation → List String → Option String
reserved [] networks = none
reserved (r ∷ rs) networks = if has r.network networks then some r.address else reserved rs networks

abbrev pub is_empty : {A : Type 0} → List A → Bool
is_empty [] = true
is_empty (x ∷ xs) = false

module _ (k : Cluster) (c : Calls k) where
  -- `getAddressFromAnsibleHost`; an empty address says that there is none.
  pub get_address_from_ansible_host : Node → String
  get_address_from_ansible_host n =
      if c.is_ip n.ansible_host
      then n.ansible_host
      else if is_valid_domain n.ansible_host
      then n.ansible_host
      else if is_valid_domain n.host_name
      then n.host_name
      else ""

  -- the reservations of a node's IP set, and the networks of the telemetry service, if it is there
  address_of_ip_set :
      Node → Result k.Error (List Reservation) → Result k.Error (List String) → String
  address_of_ip_set n (err e) service = if is_valid_domain n.host_name then n.host_name else ""
  address_of_ip_set n (ok rs) (err e) = get_address_from_ansible_host n
  address_of_ip_set n (ok rs) (ok networks) = elim (reserved rs networks) [
    | some address ↦ address
    | none ↦ get_address_from_ansible_host n
  ]

  -- `getAddressFromIPSet`: the service is read first, then the IP set.
  pub get_address_from_ip_set : String → String → Node → k.World → String × k.World
  unfolding address_of_ip_set
  get_address_from_ip_set name namespace n w =
      let (service, w1) = c.get_data_plane_service "telemetry" namespace w in
      let (ip_set, w2) = c.get_ip_set name namespace w1 in (address_of_ip_set n ip_set service, w2)

  -- the address of a node in the loop of `getNodeExporterTargets`
  pub node_address : Bool → String → String × Node → k.World → String × k.World
  node_address ip_sets namespace (name, n) w =
      if ip_sets
      then get_address_from_ip_set name namespace n w
      else if not (str_eq n.ansible_host "")
      then (get_address_from_ansible_host n, w)
      else ("", w)

  -- The targets of the nodes of one set; the flag is false if a node had no address, which ends the
  -- function.
  pub node_targets : Bool → String → List (String × Node) → k.World → (List String × Bool) × k.World
  node_targets ip_sets namespace [] w = (([], true), w)
  node_targets ip_sets namespace (n ∷ ns) w =
      let (address, w1) = node_address ip_sets namespace n w in
      let ((rest, complete), w2) = node_targets ip_sets namespace ns w1 in
      if str_eq address ""
      then (([], false), w1)
      else ((c.host_and_port address default_node_exporter_port ∷ rest, complete), w2)

  pub set_targets : Bool → String → List NodeSet → k.World → List String × k.World
  set_targets ip_sets namespace [] w = ([], w)
  set_targets ip_sets namespace (s ∷ ss) w =
      let ((own, complete), w1) = node_targets ip_sets namespace s.nodes w in
      let skipped = set_targets ip_sets namespace ss w in
      let after = set_targets ip_sets namespace ss w1 in
      if not (has "telemetry" s.services)
      then skipped
      else if complete
      then (own ++ after.0, after.1)
      else (own, w1)

  -- the node sets were listed
  from_node_sets :
      String
      → Bool
      → Result k.Error (List NodeSet) × k.World
      → Result k.Error (List String) × k.World
  from_node_sets namespace ip_sets (err e, w) = (err e, w)
  from_node_sets namespace ip_sets (ok sets, w) =
      let (targets, w') = set_targets ip_sets namespace sets w in (ok targets, w')

  -- the IP sets were listed
  from_ip_sets :
      String → Result k.Error (List String) × k.World → Result k.Error (List String) × k.World
  unfolding from_node_sets
  from_ip_sets namespace (err e, w) = (err e, w)
  from_ip_sets namespace (ok ip_sets, w) =
      from_node_sets namespace (not (is_empty ip_sets)) (c.list_node_sets namespace w)

  -- `getNodeExporterTargets`
  unfoldable pub get_node_exporter_targets :
      String → k.World → Result k.Error (List String) × k.World
  unfolding from_ip_sets
  get_node_exporter_targets namespace w = from_ip_sets namespace (c.list_ip_sets namespace w)
