-- ===== src/MetricStorage/Targets/Listed.antt =====
-- `getNodeExporterTargets` against a description of its result: the addresses of the nodes of the
-- node sets with the telemetry service, up to the first node without one.
use mathlib.Core.List.{map-append}
use ceilometer_operator.Prelude.{
  [], String, ◌≡◌, ◌∙◌, refl, Bool, true, false, List, ◌∷◌, ◌++◌, map, str_eq, arith, if◌then◌else◌,
  not, Bool-cases, inl, inr,
}
use ceilometer_operator.Go.{ok}
use ceilometer_operator.Cluster.{Cluster}
use ceilometer_operator.MetricStorage.Calls.{Node, NodeSet, Calls}
use ceilometer_operator.MetricStorage.Objects.{default_node_exporter_port}
use ceilometer_operator.MetricStorage.Targets.{
  has, is_empty, node_address, get_address_from_ip_set, node_targets, set_targets, from_node_sets,
  from_ip_sets, get_node_exporter_targets,
}

-- The calls that only read leave the cluster as it is.
pub record ReadLaws (k : Cluster) (c : Calls k) : Type 0 where
  pub ip_set_reads : (name namespace : String) (w : k.World) → (c.get_ip_set name namespace w).1 ≡ w
  pub service_reads :
      (name namespace : String) (w : k.World) → (c.get_data_plane_service name namespace w).1 ≡ w

-- the nodes whose metrics are scraped, in the order of the sets
pub monitored : List NodeSet → List (String × Node)
monitored [] = []
monitored (s ∷ ss) = if has "telemetry" s.services then s.nodes ++ monitored ss else monitored ss

-- the texts before the first blank one
pub until_blank : List String → List String
until_blank [] = []
until_blank (x ∷ xs) = if str_eq x "" then [] else x ∷ until_blank xs

no_blank : List String → Bool
no_blank [] = true
no_blank (x ∷ xs) = if str_eq x "" then false else no_blank xs

until_blank-append :
    (xs ys : List String)
    → until_blank (xs ++ ys)
      ≡ (if no_blank xs then until_blank xs ++ until_blank ys else until_blank xs)
unfolding until_blank no_blank
until_blank-append [] ys = refl
until_blank-append (x ∷ xs) ys = ground (arith, until_blank-append xs ys)

module _ (k : Cluster) (c : Calls k) where
  -- the address that a node has in a state of the cluster
  abbrev pub address_in : Bool → String → k.World → String × Node → String
  address_in ip_sets namespace w n = (node_address k c ip_sets namespace n w).0

  abbrev pub target : String → String
  target address = c.host_and_port address default_node_exporter_port

  module _ (l : ReadLaws k c) (ip_sets : Bool) (namespace : String) (w : k.World) where
    node_reads : (b : Bool) (n : String × Node) → (node_address k c b namespace n w).1 ≡ w
    unfolding node_address get_address_from_ip_set
    node_reads true (name, n) =
        l.ip_set_reads name namespace (c.get_data_plane_service "telemetry" namespace w).1
        ∙ l.service_reads "telemetry" namespace w
    node_reads false (name, n) = elim (Bool-cases (str_eq n.ansible_host "")) [
      | inl e ↦ rw e refl
      | inr e ↦ rw e refl
    ]

    address_reads : (n : String × Node) → (node_address k c ip_sets namespace n w).1 ≡ w
    address_reads n = node_reads ip_sets n

    node_targets_lem :
        (ns : List (String × Node))
        → let addresses = map (address_in ip_sets namespace w) ns in
          node_targets k c ip_sets namespace ns w
          ≡ ((map target (until_blank addresses), no_blank addresses), w)
    unfolding node_targets until_blank no_blank
    node_targets_lem [] = refl
    node_targets_lem (n ∷ ns) =
        rw address_reads (elim (Bool-cases (str_eq (address_in ip_sets namespace w n) "")) [
          | inl e ↦ rw e refl
          | inr e ↦ rw (e, node_targets_lem ns) refl
        ])

    set_targets_lem :
        (ss : List NodeSet)
        → set_targets k c ip_sets namespace ss w
          ≡ (map target (until_blank (map (address_in ip_sets namespace w) (monitored ss))), w)
    unfolding set_targets monitored until_blank
    set_targets_lem [] = refl
    set_targets_lem (s ∷ ss) = elim (Bool-cases (has "telemetry" s.services)) [
      | inl e ↦
          rw (e, node_targets_lem, map-append, until_blank-append)
            (elim (Bool-cases (no_blank (map (address_in ip_sets namespace w) s.nodes))) [
              | inl f ↦ rw (f, set_targets_lem ss, map-append) refl
              | inr f ↦ rw f refl
            ])
      | inr e ↦ rw e (set_targets_lem ss)
    ]

  -- Where the sets can be listed, and only reads happen in between, `getNodeExporterTargets` returns
  -- the addresses, with the port of the node exporter, of the nodes that stand before the first node
  -- without an address; of the sets it reads those with the telemetry service, in their order, and
  -- the addresses are those of the IP sets if there is any IP set in the namespace.
  pub get_node_exporter_targets_lem :
      (l : ReadLaws k c) (namespace : String) (w w1 w2 : k.World)
      → (ip_sets : List String) (sets : List NodeSet)
      → c.list_ip_sets namespace w ≡ (ok ip_sets, w1)
      → c.list_node_sets namespace w1 ≡ (ok sets, w2)
      → get_node_exporter_targets k c namespace w ≡ (
        ok (
            map target (
              until_blank
                (map (address_in (not (is_empty ip_sets)) namespace w2) (monitored sets)))),
        w2,
      )
  unfolding get_node_exporter_targets from_ip_sets from_node_sets
  get_node_exporter_targets_lem l namespace w w1 w2 ip_sets sets p q =
      rw (p, q, set_targets_lem l) refl
