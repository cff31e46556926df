-- ===== src/Services/Children/Kept.antt =====
-- The two children change no condition but their own.
use ceilometer_operator.Prelude.{ℕ, String, ◌≡◌, refl, true, some, List, StringMap, ltb}
use ceilometer_operator.Go.{Result, pure}
use ceilometer_operator.Go.Ensures.{
  Ensures, Ensures-bind, Ensures-exit_if, Ensures-check, Ensures-check_error, Ensures-exit,
  Ensures-pure, Ensures-if,
}
use ceilometer_operator.Conditions.{CondType, Condition, ConditionsLaws}
use ceilometer_operator.Object.{Meta, pending}
use ceilometer_operator.Workload.{StatefulSet}
use ceilometer_operator.Cluster.{Cluster}
use ceilometer_operator.Cluster.Marks.{
  On, Ensures-the_object, Ensures-ask_bind, Ensures-ask, Ensures-set_status, Ensures-marks_false,
}
use ceilometer_operator.Cluster.Success.{
  AllTrue, outside, IfDone, failed, unfinished, Ensures-sets, Ensures-marks_still,
}
use ceilometer_operator.Services.{Services, KeystoneServiceSpec}
use ceilometer_operator.Services.Children.{reconcile_keystone_service, reconcile_stateful_set}

module _ (k : Cluster) (v : Services k) where
  -- The condition that comes with the Keystone service has this type, as a mirror of its conditions
  -- as that type has.
  abbrev pub MirrorsKeystone : CondType → Type 0
  MirrorsKeystone t =
      (spec : KeystoneServiceSpec) (namespace : String) (labels : StringMap) (w : k.World)
      → (x : Condition) → (v.keystone_service_create_or_patch spec namespace labels w).0.1 ≡ some x
      → x.type ≡ t

  module _ {Spec Status : Type 0} (l : ConditionsLaws k.conditions) (ts : List CondType) where
    -- A pass that goes on after the Keystone service has the same true conditions.
    pub Ensures-reconcile_keystone_service :
        (t : CondType)
        → MirrorsKeystone t
        → outside t ts ≡ true
        → (Q : k.conditions.Conditions → Type 0) (spec : KeystoneServiceSpec) (labels : StringMap)
        → Ensures
            (On k (AllTrue k ts))
            (reconcile_keystone_service k v {Spec = Spec} {Status = Status} spec labels)
            (λ _. On k (AllTrue k ts))
            (IfDone k Q)
    unfolding reconcile_keystone_service
    Ensures-reconcile_keystone_service t m n Q spec labels =
        Ensures-bind _ _ _ _ (Ensures-the_object k _) λ o. Ensures-ask_bind k _ _ _ λ w.
          Ensures-bind _ _ _ _ (Ensures-exit_if _ _ λ s h p. failed k Q _ h s) λ _.
            Ensures-bind _ _ _ _ (Ensures-sets k l ts t _ (m spec o.meta.namespace labels w) n)
              λ _. Ensures-exit_if _ _ λ s h p. unfinished k Q _ h s

    -- The stateful set ends the pass with an error or a wait, or changes no other condition.
    pub Ensures-reconcile_stateful_set :
        (Q : k.conditions.Conditions → Type 0)
        → (define : Meta → Spec → Result k.Error StatefulSet) (with_count : ℕ → Status → Status)
        → (with_networks : Spec → Status → Status)
        → Ensures
            (On k (AllTrue k ts))
            (reconcile_stateful_set k v define with_count with_networks)
            (λ _. On k (AllTrue k ts))
            (IfDone k Q)
    unfolding reconcile_stateful_set
    Ensures-reconcile_stateful_set Q define with_count with_networks =
        Ensures-bind _ _ _ _ (Ensures-the_object k _) λ o.
          Ensures-bind (λ _. On k (AllTrue k ts)) _ _ _
            (Ensures-check _ _ (λ a s h. h) λ e. Ensures-exit _ λ s h. failed k Q _ refl s)
            λ definition. Ensures-bind _ _ _ _ (Ensures-ask k _ _) λ patched.
              Ensures-bind _ _ _ _
                (Ensures-check_error _ _ λ e h.
                  Ensures-bind (λ _ _. Unit) _ _ _
                    (Ensures-marks_false k _ l _ _ _ _ _ (λ _. Unit) λ cs cs' p q. tt)
                    λ _. Ensures-exit _ λ s p. failed k Q _ (rw h refl) s)
                λ _.
                  Ensures-bind (λ _. On k (AllTrue k ts)) _ _ _
                    (Ensures-if (pending patched.0.result) _ (pure tt)
                      (λ h.
                        Ensures-bind (λ _ _. Unit) _ _ _
                          (Ensures-marks_false k _ l _ _ _ _ _ (λ _. Unit) λ cs cs' p q. tt)
                          λ _. Ensures-exit _ λ s p. unfinished k Q _ h s)
                      λ h. Ensures-pure tt λ s p. p)
                    λ _.
                      Ensures-bind _ _ _ _
                        (Ensures-check_error _ _ λ e h. Ensures-exit _ λ s p. failed k Q _ refl s)
                        λ _. Ensures-bind _ _ _ _ (Ensures-set_status k _ _) λ _.
                          Ensures-bind (λ _. On k (AllTrue k ts)) _ _ _
                            (Ensures-if (ltb 0 patched.1) _ (pure tt)
                              (λ h. Ensures-marks_still k l ts _ _) λ h. Ensures-pure tt λ s p. p)
                            λ _. Ensures-set_status k _ _
