-- ===== src/Tests/Healthy.antt =====
-- A cluster on which the shared calls succeed, and the conditions of a new object.
use ceilometer_operator.Prelude.{
  [], ◌∷◌, ◌≡◌, refl, inr, true, false, Bool, none, some, List, String, Option, if◌then◌else◌,
}
use ceilometer_operator.Conditions.{
  CondType, Condition, lib, init_reason, service_account_ready, role_ready, role_binding_ready,
  keystone_service_ready, type_eq,
}
use ceilometer_operator.Conditions.Simple.{api, Conds}
use ceilometer_operator.Object.{done, ret}
use ceilometer_operator.Cluster.Waiting.{Waiting, listed}
use ceilometer_operator.Services.{Services}
use ceilometer_operator.Services.Healthy.{Healthy, RolesThere}
use ceilometer_operator.Tests.Services.{services, secret}
use ceilometer_operator.Tests.World.{cluster}

abbrev true_one : CondType → Condition
true_one t = api.true_condition t (lib "")

abbrev pub ready_services : Services cluster
ready_services = record services {
  secret_name = λ url. "rabbitmq-secret";
  reconcile_rbac = λ namespace name rules w. (
    (
      ret done none,
      true_one service_account_ready ∷ true_one role_ready ∷ true_one role_binding_ready ∷ [],
    ),
    w,
  );
  keystone_service_create_or_patch =
      λ spec namespace labels w. ((ret done none, some (true_one keystone_service_ready)), w);
}

abbrev pub AnyState : List String → Type 0
AnyState w = Unit

pub ready_services-Healthy : Healthy cluster ready_services AnyState
ready_services-Healthy = record {
  account = true_one service_account_ready;
  role = true_one role_ready;
  binding = true_one role_binding_ready;
  account_type = refl;
  role_type = refl;
  binding_type = refl;
  account_true = refl;
  role_true = refl;
  binding_true = refl;
  rbac = λ namespace name rules w g. (refl, tt);
  url_owner = λ m url. refl;
  transport_url = λ name namespace f w e g. ((e "", refl), tt);
  secret = λ name namespace w g. ((refl, (secret, refl)), tt);
  keystone_api = λ namespace w g. ((tt, refl), tt);
  endpoint = λ a name. ("http://keystone", refl);
  ensured = λ m templates vars w g. (refl, tt);
  hashed = λ vars. ("hash of the inputs", refl);
  keystone_service = λ spec namespace labels w g.
      ((refl, (true_one keystone_service_ready, refl, refl, refl)), tt);
  annotation = λ namespace networks. ([], refl);
  stateful_set = λ definition w g. ((refl, refl), tt);
  stateful_set_owner = λ m definition. refl;
}

-- The conditions of these types are there, and unknown.
abbrev pub unknown_conditions : List CondType → Conds
unknown_conditions us = record {
  nil = false;
  at = λ t. if listed t us then some (api.unknown_condition t init_reason (lib "")) else none;
}

pub unknown_conditions-RolesThere :
    (us : List CondType)
    → RolesThere cluster
        (unknown_conditions (service_account_ready ∷ role_ready ∷ role_binding_ready ∷ us))
unfolding ceilometer_operator.Conditions.Simple.get_cond type_eq
unknown_conditions-RolesThere us = ((_, refl), (_, refl), (_, refl))

pub unknown_conditions-Waiting : (us : List CondType) → Waiting cluster us (unknown_conditions us)
unfolding ceilometer_operator.Conditions.Simple.get_cond
unknown_conditions-Waiting us = record {
  true_or_listed = λ t x n g. inr (by_test t x (listed t us) g);
}
  where
    by_test :
        (t : CondType) (x : Condition) (b : Bool)
        → ◌≡◌ {A = Option Condition}
            (if b then some (api.unknown_condition t init_reason (lib "")) else none)
            (some x)
        → b ≡ true
    by_test t x true g = refl
    by_test t x false g = cc
