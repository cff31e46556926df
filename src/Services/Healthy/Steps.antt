-- ===== src/Services/Healthy/Steps.antt =====
-- On such a cluster the steps that the controllers share succeed.
use ceilometer_operator.Prelude.{
  [], ℕ, String, ◌≡◌, ◌∙◌, sym, ap, subst, refl, Bool, true, false, none, some, List, ◌∷◌,
  StringMap, Option, is_some,
}
use ceilometer_operator.Go.{Result, ok}
use ceilometer_operator.Go.Total.{
  Total, Total-bind, Total-pure, Total-exit, Total-check_error, Total-check_bind, Total-deref_bind,
  Total-if_false, Total-if_true, Total-given, Total-exit_if_not,
}
use ceilometer_operator.Conditions.{
  CondType, Condition, condition_true, type_eq, ConditionsLaws, service_account_ready, role_ready,
  role_binding_ready, rabbit_mq_transport_url_ready, keystone_service_ready, deployment_ready,
}
use ceilometer_operator.Object.{Meta, Ret, ret, done, pending}
use ceilometer_operator.Workload.{StatefulSet}
use ceilometer_operator.Cluster.{Cluster, change}
use ceilometer_operator.Cluster.Marks.{St}
use ceilometer_operator.Cluster.Waiting.{
  Waiting, Waiting-set, FineOn, Fine, Total-ask, Total-ask_bind, Total-the_object, Total-set_status,
  Total-marks_true, Total-sets, Total-stop_unless_done,
}
use ceilometer_operator.Services.{Services, KeystoneServiceSpec}
use ceilometer_operator.Services.Inputs.{
  rbac_conditions_set, reconcile_rbac, stop_on_error, get_secret, transport_url_create_or_update,
  reconcile_transport_url,
}
use ceilometer_operator.Services.Children.{reconcile_keystone_service, reconcile_stateful_set}
use ceilometer_operator.Services.Healthy.{Healthy, Created, Patched, HasReplica, Read, RolesThere}

module _ (k : Cluster) where
  no_error : (r : Ret k.Error) → r ≡ ret done none → is_some r.error ≡ false
  no_error r e = ap (λ (x : Ret k.Error). is_some x.error) e

  not_pending : (r : Ret k.Error) → r ≡ ret done none → pending r.result ≡ false
  unfolding pending
  not_pending r e = ap (λ (x : Ret k.Error). pending x.result) e

module _ (k : Cluster) (Good : k.World → Type 0) {Spec Status : Type 0}
    (Known : Status → Type 0) where
  -- The state that a pass starts with, apart from what is waited for.
  abbrev pub Begun : List CondType → St k Spec Status → Type 0
  Begun us = FineOn k Good Known λ cs.
      RolesThere k cs × Waiting k (service_account_ready ∷ role_ready ∷ role_binding_ready ∷ us) cs

module _ (k : Cluster) (v : Services k) (Good : k.World → Type 0) (h : Healthy k v Good)
    (l : ConditionsLaws k.conditions) where
  open k.conditions use {Conditions, get, set, set_on_copy}

  set-there :
      (x : Condition) (cs : Conditions) (t : CondType)
      → (y : Condition) × (get cs t ≡ some y)
      → (y : Condition) × (get (set (some x) cs) t ≡ some y)
  set-there x cs t (y, e) = by_type (type_eq x.type t) refl
    where
      by_type :
          (b : Bool) → type_eq x.type t ≡ b → (z : Condition) × (get (set (some x) cs) t ≡ some z)
      by_type true q = (x, l.get-set x cs t ∙ rw q refl)
      by_type false q = (y, l.get-set x cs t ∙ rw q refl ∙ e)

  -- a condition that is reported and there
  reported :
      (x : Condition) (t : CondType) (us : List CondType) (cs : Conditions)
      → x.type ≡ t
      → x.status ≡ condition_true
      → (y : Condition) × (get cs t ≡ some y)
      → Waiting k (t ∷ us) cs
      → (set_on_copy (some x) cs ≡ set (some x) cs) × Waiting k us (set (some x) cs)
  reported x t us cs q p (y, e) w = (
    l.set_on_copy_present x y cs (ap (get cs) q ∙ e),
    Waiting-set k l x us cs p (subst (λ (u : CondType). Waiting k (u ∷ us) cs) (sym q) w),
  )

  roles_set :
      (us : List CondType) (cs : Conditions)
      → RolesThere k cs
      → Waiting k (service_account_ready ∷ role_ready ∷ role_binding_ready ∷ us) cs
      → Waiting k us (rbac_conditions_set k (h.account ∷ h.role ∷ h.binding ∷ []) cs)
  unfolding rbac_conditions_set
  roles_set us cs (a, r, b) w =
      let (e1, w1) =
        reported h.account _ (role_ready ∷ role_binding_ready ∷ us) cs h.account_type h.account_true
          a w in
      let cs1 = set (some h.account) cs in
      let r1 = set-there h.account cs role_ready r in
      let b1 = set-there h.account cs role_binding_ready b in
      let (e2, w2) =
        reported h.role _ (role_binding_ready ∷ us) cs1 h.role_type h.role_true r1 w1 in
      let cs2 = set (some h.role) cs1 in
      let b2 = set-there h.role cs1 role_binding_ready b1 in
      let (e3, w3) = reported h.binding _ us cs2 h.binding_type h.binding_true b2 w2 in
      subst (Waiting k us)
        (sym (
          ap (λ x. set_on_copy (some h.binding) (set_on_copy (some h.role) x)) e1
          ∙ ap (set_on_copy (some h.binding)) e2
          ∙ e3))
        w3

  module _ {Spec Status : Type 0} (Known : Status → Type 0) where
    reports :
        {T : Ret k.Error → St k Spec Status → Type 0} (us : List CondType)
        → (a : Ret k.Error × List Condition)
        → a ≡ (ret done none, h.account ∷ h.role ∷ h.binding ∷ [])
        → Total
            (Begun k Good Known us)
            (change k (rbac_conditions_set k a.1))
            (λ _. Fine k Good Known us)
            T
    unfolding change
    reports us a e = record {
      at = λ s p. (
        p.0,
        p.1,
        subst (λ xs. Waiting k us (rbac_conditions_set k xs s.instance.conditions))
            (ap (λ x. x.1) (sym e)) (roles_set us s.instance.conditions p.2.0 p.2.1),
      );
    }

    module _ {T : Ret k.Error → St k Spec Status → Type 0} where
      pub Total-reconcile_rbac :
          (us : List CondType)
          → Total (Begun k Good Known us) (reconcile_rbac k v) (λ _. Fine k Good Known us) T
      unfolding reconcile_rbac
      Total-reconcile_rbac us = Total-bind _ _ _ _ (Total-the_object k Good Known _) λ o.
          Total-ask_bind k Good Known
            (λ a. a ≡ (ret done none, h.account ∷ h.role ∷ h.binding ∷ [])) _ _ _ _ (h.rbac _ _ _)
            λ a e.
              Total-bind _ _ _ _ (reports us a e)
                λ _. Total-stop_unless_done k Good Known _ _ (ap (λ x. x.0) e)

      pub Total-reconcile_transport_url :
          (name : String) (rabbit : Spec → String) (with_secret : String → Status → Status)
          → (us : List CondType)
          → ((secret : String) (t : Status) → Known t → Known (with_secret secret t))
          → Total
              (Fine k Good Known (rabbit_mq_transport_url_ready ∷ us))
              (reconcile_transport_url k v name rabbit with_secret)
              (λ _. Fine k Good Known us)
              T
      unfolding reconcile_transport_url transport_url_create_or_update
      Total-reconcile_transport_url name rabbit with_secret us keeps =
          Total-bind (λ created. at_created created) _ _ _
            (Total-bind _ _ _ _ (Total-the_object k Good Known _) λ o.
              Total-ask k Good Known (Created k v) _ _ (λ w.
                h.transport_url name o.meta.namespace _ w
                  λ url. h.url_owner o.meta (v.set_rabbitmq_cluster_name (rabbit o.spec) url)))
            λ created. Total-given _ λ c. Total-bind _ _ _ _ (Total-check_error _ _ c.0) λ _.
              Total-bind _ _ _ _ (Total-set_status k Good Known _ _ (keeps _)) λ _.
                Total-bind _ _ _ _ (Total-if_false _ _ _ c.1 (Total-pure _ λ s p. p))
                  λ _. Total-marks_true k Good Known l _ _ _
        where
          at_created : Option k.Error × v.TransportUrl → St k Spec Status → Type 0
          at_created created s =
              Created k v created × Fine k Good Known (rabbit_mq_transport_url_ready ∷ us) s

      -- after a call of `getSecret` that has succeeded
      pub Total-stop_on_error :
          {A : Type 0} (us : List CondType) (r : Ret k.Error × A)
          → r.0 ≡ ret done none
          → Total (Fine k Good Known us) (stop_on_error k r) (λ _. Fine k Good Known us) T
      unfolding stop_on_error
      Total-stop_on_error us r e =
          Total-if_false _ _ _ (ap (λ x. is_some x.error) e) (Total-pure _ λ s p. p)

      pub Total-reconcile_keystone_service :
          (spec : KeystoneServiceSpec) (labels : StringMap) (us : List CondType)
          → Total
              (Fine k Good Known (keystone_service_ready ∷ us))
              (reconcile_keystone_service k v spec labels)
              (λ _. Fine k Good Known us)
              T
      unfolding reconcile_keystone_service
      Total-reconcile_keystone_service spec labels us =
          Total-bind _ _ _ _ (Total-the_object k Good Known _) λ o.
            Total-ask_bind k Good Known (Patched k v) _ _ _ _ (h.keystone_service spec _ labels)
              λ patched e. Total-bind _ _ _ _ (Total-exit_if_not _ _ (no_error k _ e.0)) λ _.
                Total-bind _ _ _ _ (Total-sets k Good Known l _ _ _ (e.1.0, e.1.1, e.1.2, e.1.3))
                  λ _. Total-exit_if_not _ _ (not_pending k _ e.0)

      pub Total-reconcile_stateful_set :
          (define : Meta → Spec → Result k.Error StatefulSet) (with_count : ℕ → Status → Status)
          → (with_networks : Spec → Status → Status) (us : List CondType)
          → ((m : Meta) (spec : Spec) → (d : StatefulSet) × (define m spec ≡ ok d))
          → ((count : ℕ) (t : Status) → Known t → Known (with_count count t))
          → ((spec : Spec) (t : Status) → Known t → Known (with_networks spec t))
          → Total
              (Fine k Good Known (deployment_ready ∷ us))
              (reconcile_stateful_set k v define with_count with_networks)
              (λ _. Fine k Good Known us)
              T
      unfolding reconcile_stateful_set
      Total-reconcile_stateful_set define with_count with_networks us d keeps_count keeps_networks =
          Total-bind _ _ _ _ (Total-the_object k Good Known _) λ o.
            Total-check_bind _ _ _ _ (d o.meta o.spec) λ definition.
              Total-ask_bind k Good Known (HasReplica k v) _ _ _ _ (h.stateful_set definition)
                λ patched e.
                  Total-bind _ _ _ _ (Total-check_error _ _ (ap (λ (x : Ret k.Error). x.error) e.0))
                    λ _.
                      Total-bind _ _ _ _
                        (Total-if_false _ _ _ (not_pending k _ e.0) (Total-pure _ λ s p. p))
                        λ _.
                          Total-bind _ _ _ _
                            (Total-check_error _ _ (h.stateful_set_owner o.meta definition))
                            λ _.
                              Total-bind _ _ _ _ (Total-set_status k Good Known _ _ (keeps_count _))
                                λ _.
                                  Total-bind _ _ _ _
                                    (Total-if_true _ _ _ e.1
                                      (Total-marks_true k Good Known l _ _ _))
                                    λ _. Total-set_status k Good Known _ _ (keeps_networks o.spec)

    pub Total-get_secret :
        (name : String) (vars : StringMap) (us : List CondType)
        → let M = λ (r : Ret k.Error × StringMap) (s : St k Spec Status).
          (r.0 ≡ ret done none) × Fine k Good Known us s in
          Total (Fine k Good Known us) (get_secret k v name vars) M M
    unfolding get_secret
    Total-get_secret name vars us = Total-bind _ _ _ _ (Total-the_object k Good Known _) λ o.
        Total-ask_bind k Good Known (Read k v) _ _ _ _ (h.secret name _) λ read e.
          Total-bind _ _ _ _ (Total-check_error _ _ e.0)
            λ _. Total-deref_bind _ _ _ (e.1.0, e.1.1) λ secret. Total-exit _ λ s p. (refl, p)
