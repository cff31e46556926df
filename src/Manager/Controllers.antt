-- ===== src/Manager/Controllers.antt =====
-- `SetupWithManager` of the five controllers and `SetupWebhookWithManager` of the four webhooks:
-- what they ask of the manager.
use ceilometer_operator.Prelude.{[], List, ◌∷◌}

-- The kinds of objects of the repository and of other projects.
pub data Kind : Type 0 where
  telemetry ceilometer autoscaling metric_storage logging : Kind
  keystone_service keystone_endpoint stateful_set config_map service secret service_account : Kind
  role role_binding transport_url maria_db_database memcached : Kind

-- The functions that map an object that changed to the objects that are reconciled.
pub data MapFn : Type 0 where
  transport_url_secret_fn memcached_fn : MapFn

-- What a builder of a controller collects: the kind that is reconciled, the kinds of which it owns
-- objects, and the kinds that it watches by a function.
pub record Builder : Type 0 where
  pub reconciled : Kind
  pub owns : List Kind
  pub watches : List (Kind × MapFn)

-- ctrl.NewControllerManagedBy(mgr).For(kind)
abbrev for_kind : Kind → Builder
for_kind kind = record { reconciled = kind; owns = []; watches = [] }

pub telemetry_builder : Builder
telemetry_builder = record (for_kind Kind.telemetry) {
  owns = Kind.ceilometer ∷ Kind.autoscaling ∷ Kind.metric_storage ∷ [];
}

pub ceilometer_builder : Builder
ceilometer_builder = record (for_kind Kind.ceilometer) {
  owns =
      Kind.keystone_service ∷ Kind.stateful_set ∷ Kind.config_map ∷ Kind.service
      ∷ Kind.transport_url ∷ Kind.service_account ∷ Kind.role ∷ Kind.role_binding ∷ [];
  watches = (Kind.secret, MapFn.transport_url_secret_fn) ∷ [];
}

pub autoscaling_builder : Builder
autoscaling_builder = record (for_kind Kind.autoscaling) {
  owns =
      Kind.stateful_set ∷ Kind.config_map ∷ Kind.service ∷ Kind.secret ∷ Kind.service_account
      ∷ Kind.keystone_service ∷ Kind.keystone_endpoint ∷ Kind.maria_db_database ∷ Kind.transport_url
      ∷ Kind.role ∷ Kind.role_binding ∷ [];
  watches =
      (Kind.secret, MapFn.transport_url_secret_fn) ∷ (Kind.memcached, MapFn.memcached_fn) ∷ [];
}

pub logging_builder : Builder
logging_builder = record (for_kind Kind.logging) { owns = Kind.secret ∷ [] }

-- The other kinds are watched once their definitions are there (`ensureWatches`).
pub metric_storage_builder : Builder
metric_storage_builder = for_kind Kind.metric_storage
