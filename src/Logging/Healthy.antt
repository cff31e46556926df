-- ===== src/Logging/Healthy.antt =====
-- The reconciliation of a Logging on a cluster where every call succeeds.
use ceilometer_operator.Prelude.{
  [], ◌∷◌, ◌≡◌, inl, refl, true, false, none, List, String, StringMap, Option,
}
use ceilometer_operator.Go.{◌>>=◌, ok}
use ceilometer_operator.Go.Total.{
  Total, Total-bind, Total-pure, Total-exit, Total-check_error, Total-call_bind, Total-given,
}
use ceilometer_operator.Conditions.{
  CondType, ConditionsLaws, input_ready, service_config_ready, service_account_ready, role_ready,
  role_binding_ready,
}
use ceilometer_operator.Object.{Ret}
use ceilometer_operator.Spec.Logging.{LoggingSpec}
use ceilometer_operator.Cluster.{Cluster, Obj, the_object, set_status}
use ceilometer_operator.Cluster.Reconcile.Settles.{Settled, prepare-Settled}
use ceilometer_operator.Cluster.Waiting.{
  Waiting, Any, Fine, Total-ask_bind, Total-the_object, Total-set_status, Total-marks_true,
}
use ceilometer_operator.Services.Inputs.{Hashed}
use ceilometer_operator.Services.Healthy.{Healthy, RolesThere}
use ceilometer_operator.Services.Healthy.Steps.{Begun, Total-reconcile_rbac}
use ceilometer_operator.Services.Healthy.Hash.{
  AfterHash, Outcome, Total-hashed_bind, Total-create_hash_of_input_hashes as Total-hash,
}
use ceilometer_operator.Services.Healthy.Written.{with_hash_map, Written, Outcome-Written}
use ceilometer_operator.Logging.{
  Calls, LStatus, LoadBalancer, retrieve_openshift_ca, generate_compute_service_config,
  create_hash_of_input_hashes, reconcile_service, reconcile_normal, init_conditions, body,
}
use ceilometer_operator.Logging.Success.{S}

-- The conditions that a pass makes true after those of the roles, in order.
abbrev pub after_roles : List CondType
after_roles = input_ready ∷ service_config_ready ∷ []

-- All conditions that a pass makes true.
abbrev pub all_types : List CondType
all_types = service_account_ready ∷ role_ready ∷ role_binding_ready ∷ after_roles

module _ (k : Cluster) (c : Calls k) (Good : k.World → Type 0) where
  -- The shared calls and that for the service succeed; the certificate may be missing.
  pub record AllHealthy : Type 0 where
    pub services : Healthy k c.services Good
    pub secret_data :
        (name namespace : String) (w : k.World)
        → Good w
        → Good (c.get_secret_data name namespace w).1
    pub service :
        (name namespace : String) (f : LoadBalancer → LoadBalancer) (w : k.World)
        → Good w
        → let r = c.service_create_or_update name namespace f w in (r.0 ≡ none) × Good r.1

  module _ (h : AllHealthy) (l : ConditionsLaws k.conditions) (old : k.HashMap) where
    -- the hashes of before
    abbrev Same : LStatus k → Type 0
    Same t = t.hash ≡ old

    abbrev Done : Ret k.Error → S k c → Type 0
    Done = Outcome k c.services Good old (λ t. t.hash)

    abbrev P : S k c → Type 0
    P = Fine k Good Same (service_config_ready ∷ [])

    abbrev Generated : Option k.Error × StringMap → S k c → Type 0
    Generated r s = (r.0 ≡ none) × Fine k Good Same (service_config_ready ∷ []) s

    Total-retrieve_openshift_ca :
        {R : Type 0} {T : R → S k c → Type 0} → Total P (retrieve_openshift_ca k c) (λ _. P) T
    unfolding retrieve_openshift_ca
    Total-retrieve_openshift_ca =
        Total-ask_bind k Good Same (λ _. Unit) _ _ _ _
          (λ w g. (tt, h.secret_data "signing-key" "openshift-service-ca" w g))
          λ found _. Total-pure _ λ s p. p

    Total-generate_compute_service_config :
        (vars : StringMap) → Total P (generate_compute_service_config k c vars) Generated Generated
    unfolding generate_compute_service_config
    Total-generate_compute_service_config vars =
        Total-bind _ _ _ _ (Total-the_object k Good Same _) λ o.
          Total-bind _ _ _ _ Total-retrieve_openshift_ca λ certificate.
            Total-ask_bind k Good Same (λ r. r.0 ≡ none) _ _ _ _ (h.services.ensured _ _ vars)
              λ ensured e. Total-exit _ λ s q. (e, q)

    abbrev Hashes : Hashed k → S k c → Type 0
    Hashes = AfterHash k c.services Good old (λ t. t.hash) (service_config_ready ∷ [])

    Total-create_hash_of_input_hashes :
        (vars : StringMap) → Total P (create_hash_of_input_hashes k c vars) Hashes Hashes
    unfolding create_hash_of_input_hashes
    Total-create_hash_of_input_hashes vars =
        Total-hash k c.services Good h.services old (λ t. t.hash) _ (λ m t. refl) vars _

    Total-reconcile_service :
        Total (Fine k Good Any []) (reconcile_service k c) (λ _. Fine k Good Any []) Done
    unfolding reconcile_service
    Total-reconcile_service = Total-bind _ _ _ _ (Total-the_object k Good Any _) λ o.
        Total-ask_bind k Good Any (λ e. e ≡ none) _ _ _ _ (h.service _ _ _)
          λ error e. Total-check_error _ _ e

    Total-reconcile_normal :
        Total (Begun k Good Same after_roles) (reconcile_normal k c) (λ _ _. ⊥) Done
    unfolding reconcile_normal
    Total-reconcile_normal =
        Total-bind _ _ _ _ (Total-reconcile_rbac k c.services Good h.services l Same _) λ _.
          Total-bind _ _ _ _ (Total-marks_true k Good Same l _ _ _) λ _.
            Total-call_bind _ _ _ _ (Total-generate_compute_service_config _) λ generated.
              Total-given _ λ e. Total-bind _ _ _ _ (Total-check_error _ _ e) λ _.
                Total-call_bind _ _ _ _ (Total-create_hash_of_input_hashes _) λ hashed.
                  Total-hashed_bind k c.services Good old _ _ hashed _ _ λ hash.
                    Total-bind _ _ _ _ (Total-set_status k Good Any _ _ λ t p. tt) λ _.
                      Total-bind _ _ _ _ (Total-marks_true k Good Any l _ _ _) λ _.
                        Total-bind _ _ _ _ Total-reconcile_service
                          λ _. Total-exit _ λ s p. (refl, inl p)

  -- the statuses with a map for the hashes
  abbrev pub mapped : LStatus k → LStatus k
  mapped = with_hash_map k (λ t. t.hash) (λ hash t. record t { hash = hash })

  abbrev with_map : S k c → S k c
  with_map s = record s { instance = record s.instance { status = mapped s.instance.status } }

  -- The body of a pass over an object that is settled and not deleted is `reconcileNormal`.
  body-Settled :
      (s : S k c)
      → Settled k s.instance
      → s.instance.meta.deleting ≡ false
      → body k c s ≡ reconcile_normal k c (with_map s)
  unfolding body ◌>>=◌ the_object set_status
  body-Settled s t d = rw (prepare-Settled k (init_conditions k c) s t, d) refl

  -- A pass of `Reconcile` over a Logging, on a cluster where every call succeeds and stays so, though
  -- the certificate of OpenShift may be missing: it returns no error and asks for no other pass, but
  -- for the error of the patch, and what it writes is the object as its body left it with `Ready`
  -- true, unless the hash of the inputs differs from that which the object had and has replaced it.
  -- The object can be read, and the helper made; it has its finalizer and conditions, and is not
  -- deleted; the conditions of the roles are there, and no condition is other than true but `Ready`
  -- and those that the pass sets.
  pub body-Written :
      AllHealthy
      → ConditionsLaws k.conditions
      → (w w1 : k.World) (o : Obj k LoggingSpec (LStatus k)) → c.frame.get w ≡ (ok o, w1)
      → c.frame.new_helper o ≡ none
      → Settled k o
      → o.meta.deleting ≡ false
      → Good w1
      → RolesThere k o.conditions
      → Waiting k all_types o.conditions
      → Written k c.services Good
          (λ t. t.hash)
          (mapped o.status).hash
          c.frame
          true
          (body k c)
          o
          w
          w1
  body-Written h l w w1 o g n t d good there waits =
      let start : S k c = record { world = w1; instance = o } in
      Outcome-Written k c.services Good _ _ l c.frame true (body k c) w w1 o _ g n
        (body-Settled start t d)
        ((Total-reconcile_normal h l _).at (with_map start) (good, refl, (there, waits)))
