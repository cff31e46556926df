-- ===== src/Conditions.antt =====
-- The conditions of an object's status: the types, texts and messages of api/v1beta1/conditions.go,
-- and the condition package of lib-common, which is not in the repository, as an interface.
pub mod Simple
pub mod Laws
use ceilometer_operator.Prelude.{
  [], String, ◌≡◌, ◌≢◌, ◌↔◌, Bool, true, false, Option, none, some, List, ◌∷◌, if◌then◌else◌,
}

-- The condition types that the operator uses, those of lib-common first.
pub data CondType : Type 0 where
  ready input_ready service_config_ready deployment_ready service_account_ready role_ready
        role_binding_ready keystone_service_ready keystone_endpoint_ready memcached_ready db_ready
        db_sync_ready rabbit_mq_transport_url_ready expose_service_ready :
      CondType
  ceilometer_ready autoscaling_ready metric_storage_ready heat_ready monitoring_stack_ready
        service_monitor_ready scrape_config_ready node_set_ready :
      CondType

pub CondType-discrete : Discrete CondType
CondType-discrete = hlevel

-- Equality of two condition types.
unfoldable pub type_eq : CondType → CondType → Bool
unfolding CondType-discrete
type_eq t u = elim (CondType-discrete t u) [ yes p ↦ true | no p ↦ false ]

pub data Status : Type 0 where
  condition_true condition_false condition_unknown : Status

pub data Severity : Type 0 where
  severity_none severity_info severity_warning severity_error : Severity

pub data Reason : Type 0 where
  ready_reason init_reason error_reason requested_reason : Reason
  reason : String → Reason

-- A message format: a constant of lib-common by its name, or a text of this repository.
pub data Format : Type 0 where
  lib text : String → Format

pub record Condition : Type 0 where
  pub type : CondType
  pub status : Status
  pub reason : Reason
  pub severity : Severity
  pub message : String

-- The condition of a type in a list, the first if there are several.
pub find : CondType → List Condition → Option Condition
find t [] = none
find t (c ∷ cs) = if type_eq c.type t then some c else find t cs

-- `condition.Conditions` of lib-common with the functions that the operator calls, and what it
-- relies on of each. A pointer to a condition may be nil. The time of the last transition is left
-- out.
pub record ConditionsApi : Type 1 where
  pub Conditions : Type 0
  pub nil : Conditions
  pub empty : Conditions
  pub is_nil : Conditions → Bool
  pub get : Conditions → CondType → Option Condition
  pub set : Option Condition → Conditions → Conditions
  -- what an object shows after `Set` ran on a copy of its conditions, which shares the array
  pub set_on_copy : Option Condition → Conditions → Conditions
  pub remove : CondType → Conditions → Conditions
  pub init : List Condition → Conditions → Conditions
  pub all_sub_condition_is_true : Conditions → Bool
  pub is_true : Conditions → CondType → Bool
  pub mirror : CondType → Conditions → Option Condition
  pub true_condition : CondType → Format → Condition
  pub false_condition : CondType → Reason → Severity → Format → List String → Condition
  pub unknown_condition : CondType → Reason → Format → Condition

-- What the functions are documented to do.
pub record ConditionsLaws (c : ConditionsApi) : Type 0 where
  pub is_nil-nil : c.is_nil c.nil ≡ true
  pub get_of_is_nil : (cs : c.Conditions) → c.is_nil cs ≡ true → (t : CondType) → c.get cs t ≡ none
  pub get-set :
      (x : Condition) (cs : c.Conditions) (t : CondType)
      → c.get (c.set (some x) cs) t ≡ (if type_eq x.type t then some x else c.get cs t)
  pub set-none : (cs : c.Conditions) → c.set none cs ≡ cs
  pub is_nil-set : (x : Condition) (cs : c.Conditions) → c.is_nil (c.set (some x) cs) ≡ false
  -- a condition that is there is overwritten in the shared array
  pub set_on_copy_present :
      (x y : Condition) (cs : c.Conditions)
      → c.get cs x.type ≡ some y
      → c.set_on_copy (some x) cs ≡ c.set (some x) cs
  pub get-remove :
      (u : CondType) (cs : c.Conditions) (t : CondType)
      → c.get (c.remove u cs) t ≡ (if type_eq u t then none else c.get cs t)
  -- every condition but `ready` is true
  pub all_sub_iff :
      (cs : c.Conditions)
      → (c.all_sub_condition_is_true cs ≡ true) ↔ (
          (t : CondType) (x : Condition)
          → type_eq t ready ≡ false
          → c.get cs t ≡ some x
          → x.status ≡ condition_true)
  pub is_true_iff :
      (cs : c.Conditions) (t : CondType)
      → (c.is_true cs t ≡ true)
        ↔ ((x : Condition) × (c.get cs t ≡ some x) × (x.status ≡ condition_true))
  pub mirror_type :
      (t : CondType) (cs : c.Conditions) (x : Condition) → c.mirror t cs ≡ some x → x.type ≡ t
  -- a group of conditions that are not true goes before those that are
  pub mirror_worst :
      (t : CondType) (cs : c.Conditions) (x : Condition)
      → c.all_sub_condition_is_true cs ≡ false
      → c.mirror t cs ≡ some x
      → x.status ≢ condition_true
  pub get-init_ready :
      (l : List Condition)
      → (x : Condition) × (c.get (c.init l c.empty) ready ≡ some x) × (x.status ≡ condition_unknown)
  pub get-init :
      (l : List Condition) (t : CondType)
      → type_eq t ready ≡ false
      → c.get (c.init l c.empty) t ≡ find t l
  pub is_nil-init : (l : List Condition) → c.is_nil (c.init l c.empty) ≡ false
  pub true_type : (t : CondType) (f : Format) → (c.true_condition t f).type ≡ t
  pub true_status : (t : CondType) (f : Format) → (c.true_condition t f).status ≡ condition_true
  pub false_type :
      (t : CondType) (r : Reason) (v : Severity) (f : Format) (a : List String)
      → (c.false_condition t r v f a).type ≡ t
  pub false_status :
      (t : CondType) (r : Reason) (v : Severity) (f : Format) (a : List String)
      → (c.false_condition t r v f a).status ≡ condition_false
  pub unknown_type : (t : CondType) (r : Reason) (f : Format) → (c.unknown_condition t r f).type ≡ t
  pub unknown_status :
      (t : CondType) (r : Reason) (f : Format)
      → (c.unknown_condition t r f).status ≡ condition_unknown

abbrev pub status_of : Option Condition → Option Status
status_of none = none
status_of (some x) = some x.status

module _ (c : ConditionsApi) where
  -- the status of the condition of a type, if there is one
  unfoldable pub status_at : c.Conditions → CondType → Option Status
  status_at cs t = status_of (c.get cs t)

  -- `MarkTrue`, documented as `Set(TrueCondition(…))`
  unfoldable pub mark_true : CondType → Format → c.Conditions → c.Conditions
  mark_true t f cs = c.set (some (c.true_condition t f)) cs

  -- `Set(FalseCondition(…))`, and `MarkFalse`, documented as that
  unfoldable pub set_false :
      CondType → Reason → Severity → Format → List String → c.Conditions → c.Conditions
  set_false t r v f a cs = c.set (some (c.false_condition t r v f a)) cs

  unfoldable pub mark_unknown : CondType → Reason → Format → c.Conditions → c.Conditions
  mark_unknown t r f cs = c.set (some (c.unknown_condition t r f)) cs
