-- ===== src/Services/Inputs/Success.antt =====
-- What the shared steps leave true of the conditions: the invariants they keep, and what holds after
-- each of them where the pass goes on.
use ceilometer_operator.Prelude.{
  [], ◌∷◌, String, ◌≡◌, refl, true, none, some, List, StringMap, is_some, str_eq, if◌then◌else◌,
}
use ceilometer_operator.Go.{◌>>◌, exit, pure, check}
use ceilometer_operator.Go.Laws.{Keeps, keeps_rules}
use ceilometer_operator.Go.Ensures.{
  Ensures, Ensures-bind, Ensures-exit, Ensures-pure, Ensures-check_error, Ensures-if, Ensures-check,
}
use ceilometer_operator.Conditions.{
  CondType, ConditionsLaws, Reason, Severity, Format, input_ready, rabbit_mq_transport_url_ready,
  lib, requested_reason, severity_info,
}
use ceilometer_operator.Object.{Ret, ret, done, after, seconds}
use ceilometer_operator.Cluster.{Cluster, marks_false}
use ceilometer_operator.Cluster.Marks.{
  On, Keeps-ask, Keeps-the_object, Keeps-set_status, Ensures-ask, Ensures-the_object,
  Ensures-set_status, Ensures-change, Ensures-marks_false,
}
use ceilometer_operator.Cluster.Success.{
  AllTrue, outside, IfDone, failed, later, Ensures-stop_unless_done, Ensures-one_more,
  AllTrue-marks_false,
}
use ceilometer_operator.Services.{Services}
use ceilometer_operator.Services.Inputs.{
  Hashed, reconcile_rbac, stop_on_error, config_error, get_secret, create_hash_of_input_hashes,
  transport_url_create_or_update, reconcile_transport_url,
}

module _ (k : Cluster) where
  open k.conditions use {Conditions}

  module _ {Spec Status : Type 0} (P Q : Conditions → Type 0) where
    pub Ensures-stop_on_error :
        {A : Type 0} (p : Ret k.Error × A)
        → Ensures
            (On k {Spec = Spec} {Status = Status} P)
            (stop_on_error k p)
            (λ (_ : A). On k P)
            (IfDone k Q)
    unfolding stop_on_error
    Ensures-stop_on_error (r, a) =
        Ensures-if (is_some r.error) (exit r) (pure a) (λ h. Ensures-exit r λ s p. failed k Q r h s)
          λ h. Ensures-pure a λ s p. p

    -- A configuration that failed ends the pass with an error.
    pub Ensures-config_error :
        (l : ConditionsLaws k.conditions) (N : Conditions → Type 0) (e : k.Error)
        → Ensures
            (On k {Spec = Spec} {Status = Status} P)
            (config_error k e)
            (λ _. On k N)
            (IfDone k Q)
    unfolding config_error
    Ensures-config_error l N e =
        Ensures-bind (λ _ _. Unit) _ _ _
          (Ensures-marks_false k P l _ _ _ _ _ (λ _. Unit) λ cs cs' p h. tt)
          λ _. Ensures-exit _ λ s h. failed k Q _ refl s

    -- A hash that could not be computed does the same.
    pub Ensures-hashed :
        (l : ConditionsLaws k.conditions) (hashed : Hashed k)
        → Ensures
            (On k {Spec = Spec} {Status = Status} P)
            (check hashed (λ e. do config_error k e; exit (ret done (some e))))
            (λ _. On k P)
            (IfDone k Q)
    Ensures-hashed l hashed =
        Ensures-check hashed _ (λ a s h. h)
          λ e.
            Ensures-bind (λ _ _. Unit) _ _ _ (Ensures-config_error l (λ _. Unit) e)
              λ _. Ensures-exit _ λ s h. failed k Q _ refl s

module _ (k : Cluster) (v : Services k) {Spec Status : Type 0} where
  open k.conditions use {Conditions}

  module _ (P : Conditions → Type 0) where
    pub Keeps-create_hash_of_input_hashes :
        (hash_of : Status → k.HashMap) (with_hash : k.HashMap → Status → Status) (vars : StringMap)
        → Keeps (On k {Spec = Spec} P) (create_hash_of_input_hashes k v hash_of with_hash vars)
    unfolding create_hash_of_input_hashes
    Keeps-create_hash_of_input_hashes hash_of with_hash vars =
        search (keeps_rules, Keeps-the_object k P, Keeps-set_status k P)

  module _ (l : ConditionsLaws k.conditions) (ts : List CondType) where
    input_not_ready :
        {R : Type 0}
        → outside input_ready ts ≡ true
        → (r : Reason) (v : Severity) (f : Format) (a : List String)
        → Keeps
            (On k (AllTrue k ts))
            (marks_false k {Spec = Spec} {Status = Status} {R = R} input_ready r v f a)
    input_not_ready n r v f a = AllTrue-marks_false k l ts input_ready r v f a n

    -- A secret that cannot be read is shown as missing input, and says nothing of another condition.
    pub Keeps-get_secret :
        outside input_ready ts ≡ true
        → (name : String) (vars : StringMap)
        → Keeps (On k (AllTrue k ts)) (get_secret k v {Spec = Spec} {Status = Status} name vars)
    unfolding get_secret
    Keeps-get_secret n name vars =
        let P = AllTrue k ts in
        search (keeps_rules, Keeps-ask k P, Keeps-the_object k P, input_not_ready n) depth 16

  module _ (l : ConditionsLaws k.conditions) (Q : Conditions → Type 0) where
    pub Ensures-reconcile_rbac :
        Ensures
          (On k {Spec = Spec} {Status = Status} λ _. Unit)
          (reconcile_rbac k v)
          (λ _. On k λ _. Unit)
          (IfDone k Q)
    unfolding reconcile_rbac
    Ensures-reconcile_rbac = Ensures-bind _ _ _ _ (Ensures-the_object k _) λ o.
        Ensures-bind _ _ _ _ (Ensures-ask k _ _) λ result.
          Ensures-bind _ _ _ _ (Ensures-change k _ (λ _. Unit) _ λ cs p. tt)
            λ _. Ensures-stop_unless_done k _ Q _

  module _ (l : ConditionsLaws k.conditions) (Q : Conditions → Type 0) (ts : List CondType) where
    secret_requested :
        (secret : String)
        → Ensures
            (On k (AllTrue k ts))
            (if str_eq secret ""
              then (do
                marks_false k rabbit_mq_transport_url_ready requested_reason severity_info
                    (lib "RabbitMqTransportURLReadyRunningMessage")
                    []
                exit (ret (after (seconds 10)) none))
              else pure tt)
            (λ _. On k {Spec = Spec} {Status = Status} (AllTrue k ts))
            (IfDone k Q)
    secret_requested secret =
        Ensures-if (str_eq secret "") _ (pure tt)
          (λ h.
            Ensures-bind (λ _ _. Unit) _ _ _
              (Ensures-marks_false k _ l _ _ _ _ _ (λ _. Unit) λ cs cs' p q. tt)
              λ _. Ensures-exit _ λ s q. later k Q s)
          λ h. Ensures-pure tt λ s q. q

    -- The pass goes on only if the transport URL is shown as ready.
    pub Ensures-reconcile_transport_url :
        (name : String) (rabbit : Spec → String) (with_secret : String → Status → Status)
        → Ensures
            (On k (AllTrue k ts))
            (reconcile_transport_url k v name rabbit with_secret)
            (λ _. On k (AllTrue k (rabbit_mq_transport_url_ready ∷ ts)))
            (IfDone k Q)
    unfolding reconcile_transport_url transport_url_create_or_update
    Ensures-reconcile_transport_url name rabbit with_secret =
        Ensures-bind _ _ _ _ (Ensures-bind _ _ _ _ (Ensures-the_object k _) λ o. Ensures-ask k _ _)
          λ created.
            Ensures-bind _ _ _ _
              (Ensures-check_error _ _ λ e _.
                Ensures-bind (λ _ _. Unit) _ _ _
                  (Ensures-marks_false k _ l _ _ _ _ _ (λ _. Unit) λ cs cs' p h. tt)
                  λ _. Ensures-exit _ λ s h. failed k Q _ refl s)
              λ _.
                Ensures-bind _ _ _ _ (Ensures-set_status k _ _)
                  λ _. Ensures-bind _ _ _ _ (secret_requested _) λ _. Ensures-one_more k l ts _ _
