-- ===== src/Ceilometer/Config/Healthy.antt =====
-- Where every call succeeds, both configurations of Ceilometer are generated and hashed.
use ceilometer_operator.Prelude.{◌≡◌, refl, Option, none, List, StringMap}
use ceilometer_operator.Go.{ok}
use ceilometer_operator.Go.Total.{
  Total, Total-bind, Total-pure, Total-exit, Total-check_bind, Total-deref_bind,
}
use ceilometer_operator.Conditions.{CondType}
use ceilometer_operator.Spec.Ceilometer.{CeilometerSpec}
use ceilometer_operator.Cluster.{Cluster}
use ceilometer_operator.Cluster.Marks.{St}
use ceilometer_operator.Cluster.Waiting.{Fine, Total-ask_bind, Total-the_object}
use ceilometer_operator.Services.Healthy.{Healthy, Read}
use ceilometer_operator.Services.Healthy.Hash.{
  AfterHash, Total-create_hash_of_input_hashes as Total-hash,
}
use ceilometer_operator.Services.Inputs.{Hashed}
use ceilometer_operator.Ceilometer.Calls.{Calls, CStatus}
use ceilometer_operator.Ceilometer.Config.{
  common_parameters, generate_service_config, generate_compute_service_config,
  create_hash_of_input_hashes,
}

module _ (k : Cluster) (c : Calls k) (Good : k.World → Type 0) (h : Healthy k c.services Good)
    (old : k.HashMap) (us : List CondType) where
  -- the hashes of before
  abbrev Same : CStatus k → Type 0
  Same t = t.hash ≡ old

  abbrev P : St k CeilometerSpec (CStatus k) → Type 0
  P = Fine k Good Same us

  -- what a function that generates a configuration has returned
  abbrev pub Generated : Option k.Error × StringMap → St k CeilometerSpec (CStatus k) → Type 0
  Generated r s = (r.0 ≡ none) × Fine k Good Same us s

  Total-common_parameters :
      (vars : StringMap) → Total P (common_parameters k c vars) (λ _. P) Generated
  unfolding common_parameters
  Total-common_parameters vars = Total-bind _ _ _ _ (Total-the_object k Good Same _) λ o.
      Total-ask_bind k Good Same (λ r. (a : c.services.KeystoneApi) × (r ≡ ok a)) _ _ _ _
        (h.keystone_api _)
        λ found e. Total-check_bind _ _ _ _ e λ api.
          Total-check_bind _ _ _ _ (h.endpoint api "internal") λ url.
            Total-ask_bind k Good Same (Read k c.services) _ _ _ _ (h.secret _ _) λ transport t.
              Total-ask_bind k Good Same (Read k c.services) _ _ _ _ (h.secret _ _) λ password p.
                Total-deref_bind _ _ _ t.1 λ transport_secret.
                  Total-deref_bind _ _ _ p.1 λ password_secret. Total-pure _ λ s q. q

  pub Total-generate_service_config :
      (vars : StringMap) → Total P (generate_service_config k c vars) Generated Generated
  unfolding generate_service_config
  Total-generate_service_config vars = Total-bind _ _ _ _ (Total-the_object k Good Same _) λ o.
      Total-bind _ _ _ _ (Total-common_parameters vars) λ parameters.
        Total-ask_bind k Good Same (λ r. r.0 ≡ none) _ _ _ _ (h.ensured _ _ vars)
          λ ensured e. Total-exit _ λ s q. (e, q)

  pub Total-generate_compute_service_config :
      (vars : StringMap) → Total P (generate_compute_service_config k c vars) Generated Generated
  unfolding generate_compute_service_config
  Total-generate_compute_service_config vars =
      Total-bind _ _ _ _ (Total-the_object k Good Same _) λ o.
        Total-bind _ _ _ _ (Total-common_parameters vars) λ parameters.
          Total-ask_bind k Good Same (λ r. r.0 ≡ none) _ _ _ _ (h.ensured _ _ vars)
            λ ensured e. Total-exit _ λ s q. (e, q)

  abbrev pub Hashes : Hashed k → St k CeilometerSpec (CStatus k) → Type 0
  Hashes = AfterHash k c.services Good old (λ t. t.hash) us

  pub Total-create_hash_of_input_hashes :
      (vars : StringMap) → Total P (create_hash_of_input_hashes k c vars) Hashes Hashes
  unfolding create_hash_of_input_hashes
  Total-create_hash_of_input_hashes vars =
      Total-hash k c.services Good h old (λ t. t.hash) _ (λ m t. refl) vars us
