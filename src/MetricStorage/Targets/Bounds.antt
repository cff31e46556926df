-- ===== src/MetricStorage/Targets/Bounds.antt =====
-- How many targets `getNodeExporterTargets` returns.
use ceilometer_operator.Prelude.{
  [], String, ◌≡◌, subst, Bool, List, ◌∷◌, ◌++◌, str_eq, arith, if◌then◌else◌, not, ℕ, ◌+◌, ◌≤◌,
  Bool-cases, inl, inr,
}
use ceilometer_operator.Go.{Result, ok, err}
use ceilometer_operator.Cluster.{Cluster}
use ceilometer_operator.MetricStorage.Calls.{Node, NodeSet, Calls}
use ceilometer_operator.MetricStorage.Targets.{
  has, is_empty, node_address, node_targets, set_targets, from_node_sets, from_ip_sets,
  get_node_exporter_targets,
}

pub length {ℓ} : {A : Type ℓ} → List A → ℕ
length [] = 0
length (x ∷ xs) = 1 + length xs

-- the number of nodes in the node sets that run the telemetry service
pub monitored_nodes : List NodeSet → ℕ
monitored_nodes [] = 0
monitored_nodes (s ∷ ss) =
    if has "telemetry" s.services then length s.nodes + monitored_nodes ss else monitored_nodes ss

length-append {ℓ} : {A : Type ℓ} (xs ys : List A) → length (xs ++ ys) ≡ length xs + length ys
unfolding length
length-append [] ys = omega arith
length-append (x ∷ xs) ys = rw (length-append xs ys) (omega arith)

module _ (k : Cluster) (c : Calls k) (ip_sets : Bool) (namespace : String) where
  length-node_targets :
      (ns : List (String × Node)) (w : k.World)
      → length (node_targets k c ip_sets namespace ns w).0.0 ≤ length ns
  unfolding node_targets length
  length-node_targets [] w = omega arith
  length-node_targets (n ∷ ns) w =
      let shorter = length-node_targets ns (node_address k c ip_sets namespace n w).1 in
      elim (Bool-cases (str_eq (node_address k c ip_sets namespace n w).0 "")) [
        | inl e ↦ rw e (omega arith)
        | inr e ↦ rw e (omega arith)
      ]

  length-set_targets :
      (ss : List NodeSet) (w : k.World)
      → length (set_targets k c ip_sets namespace ss w).0 ≤ monitored_nodes ss
  unfolding set_targets length monitored_nodes
  length-set_targets [] w = omega arith
  length-set_targets (s ∷ ss) w =
      let w1 = (node_targets k c ip_sets namespace s.nodes w).1 in
      let own = length-node_targets s.nodes w in
      elim (Bool-cases (has "telemetry" s.services)) [
        | inl t ↦ elim (Bool-cases (node_targets k c ip_sets namespace s.nodes w).0.1) [
          | inl e ↦ let after = length-set_targets ss w1 in rw (t, e, length-append) (omega arith)
          | inr e ↦ rw (t, e) (omega arith)
        ]
        | inr t ↦ rw t (length-set_targets ss w)
      ]

module _ (k : Cluster) (c : Calls k) where
  -- However the calls behave, `getNodeExporterTargets` returns no more targets than there are nodes
  -- in the listed node sets that run the telemetry service.
  pub length-get_node_exporter_targets :
      (namespace : String) (w w1 w2 w3 : k.World)
      → (ip_sets : Result k.Error (List String)) (sets : List NodeSet) (targets : List String)
      → c.list_ip_sets namespace w ≡ (ip_sets, w1)
      → c.list_node_sets namespace w1 ≡ (ok sets, w2)
      → get_node_exporter_targets k c namespace w ≡ (ok targets, w3)
      → length targets ≤ monitored_nodes sets
  unfolding get_node_exporter_targets from_ip_sets from_node_sets
  length-get_node_exporter_targets namespace w w1 w2 w3 (err e) sets targets p q h =
      absurd (err_ok (rw p at h))
    where
      err_ok : ◌≡◌ {A = Result k.Error (List String) × k.World} (err e, w1) (ok targets, w3) → ⊥
      err_ok g = cc
  length-get_node_exporter_targets namespace w w1 w2 w3 (ok ip_sets) sets targets p q h =
      subst (λ (ts : List String). length ts ≤ monitored_nodes sets) (same (rw (p, q) at h))
        (length-set_targets k c (not (is_empty ip_sets)) namespace sets w2)
    where
      same :
          {ts : List String} {v : k.World}
          → ◌≡◌ {A = Result k.Error (List String) × k.World} (ok ts, v) (ok targets, w3)
          → ts ≡ targets
      same g = cc
