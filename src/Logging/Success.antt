-- ===== src/Logging/Success.antt =====
-- What the reconciliation of a Logging leaves behind, where it is done and where it fails.
use ceilometer_operator.Prelude.{[], ◌∷◌, ◌≡◌, refl, subst, none, StringMap}
use ceilometer_operator.Go.{return}
use ceilometer_operator.Go.Laws.{Keeps, keeps_rules}
use ceilometer_operator.Go.Ensures.{
  Ends, Ensures, Ensures-bind, Ensures-exit, Ensures-check_error, Ensures-call-Keeps,
  Ensures-exit_if,
}
use ceilometer_operator.Conditions.{ConditionsLaws, input_ready}
use ceilometer_operator.Object.{Ret, ret, done}
use ceilometer_operator.Spec.Logging.{LoggingSpec}
use ceilometer_operator.Cluster.{Cluster}
use ceilometer_operator.Cluster.Marks.{
  St, On, Keeps-ask, Keeps-the_object, Ensures-ask, Ensures-the_object, Ensures-set_status,
}
use ceilometer_operator.Cluster.Success.{AllTrue, IfDone, failed, Ensures-one_more}
use ceilometer_operator.Services.Inputs.Success.{
  Ensures-config_error, Ensures-hashed, Ensures-reconcile_rbac,
  Keeps-create_hash_of_input_hashes as Keeps-hash,
}
use ceilometer_operator.Logging.{
  Calls, LStatus, retrieve_openshift_ca, generate_compute_service_config,
  create_hash_of_input_hashes, reconcile_service, reconcile_normal,
}

module _ (k : Cluster) (c : Calls k) where
  open k.conditions use {Conditions}

  abbrev pub S : Type 0
  S = St k LoggingSpec (LStatus k)

  module _ (P : Conditions → Type 0) where
    Keeps-generate_compute_service_config :
        (vars : StringMap) → Keeps (On k P) (generate_compute_service_config k c vars)
    unfolding generate_compute_service_config retrieve_openshift_ca
    Keeps-generate_compute_service_config vars =
        search (keeps_rules, Keeps-ask k P, Keeps-the_object k P) depth 16

    Keeps-create_hash_of_input_hashes :
        (vars : StringMap) → Keeps (On k P) (create_hash_of_input_hashes k c vars)
    unfolding create_hash_of_input_hashes
    Keeps-create_hash_of_input_hashes vars = Keeps-hash k c.services P _ _ vars

  abbrev Inputs : Conditions → Type 0
  Inputs = AllTrue k (input_ready ∷ [])

  abbrev T : Ret k.Error → S → Type 0
  T = IfDone k Inputs

  module _ (l : ConditionsLaws k.conditions) where
    Ensures-reconcile_service :
        (P : Conditions → Type 0) → Ensures (On k P) (reconcile_service k c) (λ _. On k P) T
    unfolding reconcile_service
    Ensures-reconcile_service P = Ensures-bind _ _ _ _ (Ensures-the_object k _) λ o.
        Ensures-bind _ _ _ _ (Ensures-ask k _ _)
          λ error. Ensures-check_error _ _ λ e h. Ensures-exit _ λ s p. failed k Inputs _ refl s

    Ensures-reconcile_normal : Ensures (On k λ _. Unit) (reconcile_normal k c) T T
    unfolding reconcile_normal
    Ensures-reconcile_normal = Ensures-bind _ _ _ _ (Ensures-reconcile_rbac k c.services l _) λ _.
        Ensures-bind _ _ _ _ (Ensures-one_more k l [] _ _) λ _.
          Ensures-bind _ _ _ _
            (Ensures-call-Keeps _ (Keeps-generate_compute_service_config Inputs _))
            λ generated.
              Ensures-bind _ _ _ _ (Ensures-check_error _ _ λ e _. Ensures-config_error k _ _ l _ e)
                λ _.
                  Ensures-bind _ _ _ _
                    (Ensures-call-Keeps _ (Keeps-create_hash_of_input_hashes Inputs _))
                    λ hashed.
                      Ensures-bind (λ _. On k Inputs) _ _ _ (Ensures-hashed k _ _ l hashed)
                        λ answer. Ensures-bind _ _ _ _ (Ensures-exit_if _ _ λ s h p _. p) λ _.
                          Ensures-bind _ _ _ _ (Ensures-set_status k _ _) λ _.
                            Ensures-bind _ _ _ _ (Ensures-one_more k l (input_ready ∷ []) _ _) λ _.
                              Ensures-bind _ _ _ _ (Ensures-reconcile_service _)
                                λ _. Ensures-exit _ λ s p _. p.1

    -- Where the reconciliation of a Logging returns no error and asks for no other pass, its inputs
    -- are shown as ready. This covers the pass that ends early because the hash of the inputs changed.
    pub reconcile_normal-Inputs :
        (s : S)
        → (reconcile_normal k c s).0 ≡ return (ret done none)
        → AllTrue k (input_ready ∷ []) (reconcile_normal k c s).1.instance.conditions
    reconcile_normal-Inputs s h =
        subst (λ r. Ends T T r (reconcile_normal k c s).1) h (Ensures-reconcile_normal.at s tt) refl
