-- ===== src/Tests/Services.antt =====
-- The libraries that the controllers share, where every call succeeds.
use ceilometer_operator.Prelude.{[], String, List, none, some, ◌∷◌}
use ceilometer_operator.Go.{ok}
use ceilometer_operator.Conditions.{keystone_service_ready, lib, init_reason}
use ceilometer_operator.Conditions.Simple.{api}
use ceilometer_operator.Object.{Meta, done, ret}
use ceilometer_operator.Services.{Services, Secret}
use ceilometer_operator.Tests.World.{cluster, cluster_of, meta_of}

abbrev pub secret : Secret
secret = record { name = "osp-secret"; data_of = λ key. "12345678" }

abbrev pub services_of : (World : Type 0) → Services (cluster_of World)
services_of World = record {
  app_selector = "service";
  custom_service_config_file_name = "custom.conf";
  input_hash_name = "input";
  TransportUrl = String;
  set_rabbitmq_cluster_name = λ name url. name;
  secret_name = λ url. url;
  transport_url_set_controller_reference = λ owner url. (none, url);
  transport_url_create_or_update = λ name namespace f w. (f "", w);
  reconcile_rbac = λ namespace name rules w. ((ret done none, []), w);
  get_secret =
      λ name namespace w. (record { secret = some secret; hash = "hash"; error = none }, w);
  KeystoneApi = Unit;
  get_keystone_api = λ namespace w. (ok tt, w);
  get_endpoint = λ a name. ok "http://keystone";
  ensure_secrets = λ owner templates vars w. ((none, vars), w);
  get_labels = λ m name. [];
  object_hash = λ vars. ok "hash of the inputs";
  KeystoneService = Meta;
  get_keystone_service =
      λ name namespace w. (ok (meta_of name ("openstack.org/telemetry" ∷ [])), w);
  keystone_service_meta = λ m. m;
  with_meta = λ m service. m;
  update_keystone_service = λ service w. (none, w);
  keystone_service_create_or_patch = λ spec namespace labels w. (
    (ret done none, some (api.unknown_condition keystone_service_ready init_reason (lib ""))),
    w,
  );
  number_text = λ n. "0";
  get_nad_annotation = λ namespace networks. ok [];
  merge_string_maps = λ a b. a;
  stateful_set_create_or_patch = λ definition w. ((ret done none, 1), w);
  stateful_set_set_controller_reference = λ owner definition. none;
}

abbrev pub services : Services cluster
services = services_of (List String)
