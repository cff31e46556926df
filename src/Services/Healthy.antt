-- ===== src/Services/Healthy.antt =====
-- A cluster on which the calls of the controllers succeed, as hypotheses.
pub mod Steps
pub mod Hash
pub mod Written
use ceilometer_operator.Prelude.{
  [], ℕ, String, ◌≡◌, true, false, none, some, List, ◌∷◌, StringMap, str_eq, ltb, Option,
}
use ceilometer_operator.Go.{ok}
use ceilometer_operator.Conditions.{
  Condition, condition_true, service_account_ready, role_ready, role_binding_ready,
  keystone_service_ready,
}
use ceilometer_operator.Object.{Meta, Ret, ret, done}
use ceilometer_operator.Workload.{StatefulSet}
use ceilometer_operator.Cluster.{Cluster}
use ceilometer_operator.Services.{
  Services, SecretRead, PolicyRule, Secret, Template, KeystoneServiceSpec,
}

module _ (k : Cluster) where
  -- The three conditions of the roles are there, as those of a new object are.
  abbrev pub RolesThere : k.conditions.Conditions → Type 0
  RolesThere cs =
      ((y : Condition) × (k.conditions.get cs service_account_ready ≡ some y))
      × ((y : Condition) × (k.conditions.get cs role_ready ≡ some y))
      × ((y : Condition) × (k.conditions.get cs role_binding_ready ≡ some y))

module _ (k : Cluster) (v : Services k) where
  -- Answers that are not errors.
  abbrev pub Created : Option k.Error × v.TransportUrl → Type 0
  Created created = (created.0 ≡ none) × (str_eq (v.secret_name created.1) "" ≡ false)

  abbrev pub Patched : Ret k.Error × Option Condition → Type 0
  Patched patched =
      (patched.0 ≡ ret done none)
      × ((x : Condition) × (patched.1 ≡ some x)
          × (x.type ≡ keystone_service_ready)
          × (x.status ≡ condition_true))

  abbrev pub HasReplica : Ret k.Error × ℕ → Type 0
  HasReplica patched = (patched.0 ≡ ret done none) × (ltb 0 patched.1 ≡ true)

  abbrev pub Read : SecretRead k.Error → Type 0
  Read read = (read.error ≡ none) × ((x : Secret) × (read.secret ≡ some x))

-- `Good` says of a state of the cluster that all is there which the calls need; the calls keep it.
pub record Healthy (k : Cluster) (v : Services k) (Good : k.World → Type 0) : Type 0 where
  -- the conditions that a call for the roles reports, which are true
  pub account : Condition
  pub role : Condition
  pub binding : Condition
  pub account_type : account.type ≡ service_account_ready
  pub role_type : role.type ≡ role_ready
  pub binding_type : binding.type ≡ role_binding_ready
  pub account_true : account.status ≡ condition_true
  pub role_true : role.status ≡ condition_true
  pub binding_true : binding.status ≡ condition_true
  pub rbac :
      (namespace name : String) (rules : List PolicyRule) (w : k.World)
      → Good w
      → ((v.reconcile_rbac namespace name rules w).0
          ≡ (ret done none, account ∷ role ∷ binding ∷ []))
        × Good (v.reconcile_rbac namespace name rules w).1
  pub url_owner :
      (m : Meta) (url : v.TransportUrl) → (v.transport_url_set_controller_reference m url).0 ≡ none
  pub transport_url :
      (name namespace : String) (f : v.TransportUrl → Option k.Error × v.TransportUrl) (w : k.World)
      → ((url : v.TransportUrl) → (f url).0 ≡ none)
      → Good w
      → let r = v.transport_url_create_or_update name namespace f w in Created k v r.0 × Good r.1
  pub secret :
      (name namespace : String) (w : k.World)
      → Good w
      → let r = v.get_secret name namespace w in Read k v r.0 × Good r.1
  pub keystone_api :
      (namespace : String) (w : k.World)
      → Good w
      → let r = v.get_keystone_api namespace w in
        ((api : v.KeystoneApi) × (r.0 ≡ ok api)) × Good r.1
  pub endpoint :
      (api : v.KeystoneApi) (name : String) → (url : String) × (v.get_endpoint api name ≡ ok url)
  pub ensured :
      (m : Meta) (templates : List Template) (vars : StringMap) (w : k.World)
      → Good w
      → let r = v.ensure_secrets m templates vars w in (r.0.0 ≡ none) × Good r.1
  pub hashed : (vars : StringMap) → (hash : String) × (v.object_hash vars ≡ ok hash)
  pub keystone_service :
      (spec : KeystoneServiceSpec) (namespace : String) (labels : StringMap) (w : k.World)
      → Good w
      → let r = v.keystone_service_create_or_patch spec namespace labels w in
        Patched k v r.0 × Good r.1
  pub annotation :
      (namespace : String) (networks : List String)
      → (a : StringMap) × (v.get_nad_annotation namespace networks ≡ ok a)
  -- the stateful set has a replica that is ready
  pub stateful_set :
      (definition : StatefulSet) (w : k.World)
      → Good w
      → let r = v.stateful_set_create_or_patch definition w in HasReplica k v r.0 × Good r.1
  pub stateful_set_owner :
      (m : Meta) (definition : StatefulSet)
      → v.stateful_set_set_controller_reference m definition ≡ none
