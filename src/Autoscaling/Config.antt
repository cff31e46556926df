-- ===== src/Autoscaling/Config.antt =====
-- The configuration of Aodh: the address of Prometheus, the templates and the hash of all inputs.
pub mod Prometheus
use ceilometer_operator.Prelude.{
  [], ◌==◌, String, append, Option, some, List, ◌∷◌, StringMap, put_all, str_eq, if◌then◌else◌, ℕ,
}
use ceilometer_operator.Go.{◌>>◌, ◌>>=◌, exit, check, check_error, deref}
use ceilometer_operator.Cluster.{Stmt, Cluster, ask, the_object}
use ceilometer_operator.Object.{Meta, Ret}
use ceilometer_operator.Services.{Template, template_type_scripts, template_type_config}
use ceilometer_operator.Services.Inputs.{Hashed}
use ceilometer_operator.Services.Inputs
use ceilometer_operator.Autoscaling.Pods.{service_name, database_name}
use ceilometer_operator.Autoscaling.Calls.{Calls, ASpec, AStatus, Memcached}

-- metricstorage.DefaultServiceName and metricstorage.DefaultPrometheusPort
abbrev default_service_name : String
default_service_name = "metric-storage"

abbrev default_prometheus_port : ℕ
default_prometheus_port = 9090

-- strings.Join
unfoldable pub join : List String → String → String
join [] separator = ""
join (x ∷ []) separator = x
join (x ∷ y ∷ xs) separator = append x (append separator (join (y ∷ xs) separator))

module _ (k : Cluster) (c : Calls k) where
  open c.services use {get_keystone_api, get_endpoint, ensure_secrets, get_labels, number_text}

  -- The host and the port of Prometheus go to the status: those of the spec, or the defaults.
  unfoldable pub with_prometheus : Meta → ASpec k c → AStatus k c → AStatus k c
  with_prometheus m spec t = record t {
    prometheus_host =
        if str_eq spec.prometheus_host ""
        then append default_service_name (append "-prometheus." (append m.namespace ".svc"))
        else spec.prometheus_host;
    prometheus_port =
        if spec.prometheus_port == 0 then default_prometheus_port else spec.prometheus_port;
  }

  -- A function that returns an error, with the variables that it extends.
  abbrev Extends : Type 0
  Extends =
      Stmt k (ASpec k c) (AStatus k c) (Option k.Error × StringMap) (Option k.Error × StringMap)

  abbrev scripts : Meta → Template
  scripts m = record {
    name = append service_name "-scripts";
    namespace = m.namespace;
    type = template_type_scripts;
    instance_type = c.kind m;
    additional_template = ("common.sh", "/common/common.sh") ∷ [];
    custom_data = [];
    config_options = [];
    labels = get_labels m service_name;
  }

  abbrev config_data : Meta → ASpec k c → StringMap → Template
  config_data m spec options = record {
    name = append service_name "-config-data";
    namespace = m.namespace;
    type = template_type_config;
    instance_type = c.kind m;
    additional_template = [];
    custom_data =
        put_all spec.aodh.default_config_overwrite
          ((c.services.custom_service_config_file_name, spec.aodh.custom_service_config) ∷ []);
    config_options = options;
    labels = get_labels m service_name;
  }

  -- the address of the database
  database_connection : String → String → String → String
  database_connection user password hostname = append "mysql+pymysql://" (
      append user
        (append ":" (append password (append "@" (append hostname (append "/" database_name))))))

  -- `generateServiceConfig`
  unfoldable pub generate_service_config : StringMap → Memcached → Extends
  unfolding database_connection
  generate_service_config vars memcached = do
    o ← the_object k
    found ← ask k (get_keystone_api o.meta.namespace)
    api ← check found (λ e. exit (some e, vars))
    url ← check (get_endpoint api "internal") (λ e. exit (some e, vars))
    osp ← ask k (c.services.get_secret o.spec.aodh.secret o.meta.namespace)
    check_error osp.error (λ e. exit (some e, vars))
    transport ← ask k (c.services.get_secret o.status.transport_url_secret o.meta.namespace)
    check_error transport.error (λ e. exit (some e, vars))
    osp_secret ← deref osp.secret
    transport_secret ← deref transport.secret
    let parameters : StringMap =
        ("AodhUser", o.spec.aodh.service_user)
        ∷ ("AodhPassword", osp_secret.data_of o.spec.aodh.password_selectors.aodh_service)
        ∷ ("KeystoneInternalURL", url)
        ∷ ("TransportURL", transport_secret.data_of "transport_url")
        ∷ ("PrometheusHost", o.status.prometheus_host)
        ∷ ("PrometheusPort", number_text o.status.prometheus_port)
        ∷ ("MemcachedServers", join memcached.server_list ",")
        ∷ ("MemcachedServersWithInet", join memcached.server_list_with_inet ",")
        ∷ (
          "DatabaseConnection",
          database_connection o.spec.aodh.database_user
              (osp_secret.data_of o.spec.aodh.password_selectors.database)
              o.status.database_hostname,
        )
        ∷ []
    ensured ←
        ask k
          (ensure_secrets o.meta (scripts o.meta ∷ config_data o.meta o.spec parameters ∷ []) vars)
    exit ensured

  -- `createHashOfInputHashes`
  unfoldable pub create_hash_of_input_hashes :
      StringMap → Stmt k (ASpec k c) (AStatus k c) (Hashed k) (Hashed k)
  create_hash_of_input_hashes =
      Inputs.create_hash_of_input_hashes k c.services (λ t. t.hash)
        λ hash t. record t { hash = hash }

  -- `getSecret`
  unfoldable pub get_secret :
      String
      → StringMap
      → Stmt k (ASpec k c) (AStatus k c) (Ret k.Error × StringMap) (Ret k.Error × StringMap)
  get_secret = Inputs.get_secret k c.services
