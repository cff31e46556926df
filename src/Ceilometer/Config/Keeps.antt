-- ===== src/Ceilometer/Config/Keeps.antt =====
-- The configuration of Ceilometer leaves all conditions alone.
use ceilometer_operator.Prelude.{StringMap}
use ceilometer_operator.Go.Laws.{Keeps, keeps_rules}
use ceilometer_operator.Cluster.{Cluster}
use ceilometer_operator.Cluster.Marks.{On, Keeps-ask, Keeps-the_object}
use ceilometer_operator.Services.Inputs.Success.{Keeps-create_hash_of_input_hashes as Keeps-hash}
use ceilometer_operator.Ceilometer.Calls.{Calls}
use ceilometer_operator.Ceilometer.Config.{
  common_parameters, generate_service_config, generate_compute_service_config,
  create_hash_of_input_hashes,
}

module _ (k : Cluster) (c : Calls k) (P : k.conditions.Conditions → Type 0) where
  Keeps-common_parameters : (vars : StringMap) → Keeps (On k P) (common_parameters k c vars)
  unfolding common_parameters
  Keeps-common_parameters vars = search (keeps_rules, Keeps-ask k P, Keeps-the_object k P) depth 16

  pub Keeps-generate_service_config :
      (vars : StringMap) → Keeps (On k P) (generate_service_config k c vars)
  unfolding generate_service_config
  Keeps-generate_service_config vars =
      search (keeps_rules, Keeps-ask k P, Keeps-the_object k P, Keeps-common_parameters)

  pub Keeps-generate_compute_service_config :
      (vars : StringMap) → Keeps (On k P) (generate_compute_service_config k c vars)
  unfolding generate_compute_service_config
  Keeps-generate_compute_service_config vars =
      search (keeps_rules, Keeps-ask k P, Keeps-the_object k P, Keeps-common_parameters)

  pub Keeps-create_hash_of_input_hashes :
      (vars : StringMap) → Keeps (On k P) (create_hash_of_input_hashes k c vars)
  unfolding create_hash_of_input_hashes
  Keeps-create_hash_of_input_hashes vars = Keeps-hash k c.services P _ _ vars
