-- ===== src/Ceilometer/Config.antt =====
-- The configuration of Ceilometer: secrets, templates and the hash of all inputs.
pub mod Keeps
pub mod Healthy
use ceilometer_operator.Prelude.{[], String, append, Option, some, ◌∷◌, StringMap, put, put_all}
use ceilometer_operator.Go.{◌>>◌, ◌>>=◌, exit, pure, check, deref}
use ceilometer_operator.Object.{Meta}
use ceilometer_operator.Spec.Ceilometer.{CeilometerSpec}
use ceilometer_operator.Cluster.{Cluster, Stmt, ask, the_object}
use ceilometer_operator.Services.{Template, template_type_scripts, template_type_config}
use ceilometer_operator.Services.Inputs.{Hashed, create_hash_of_input_hashes as hash_of_inputs}
use ceilometer_operator.Ceilometer.Pods.{service_name, compute_service_name}
use ceilometer_operator.Ceilometer.Calls.{Calls, CStatus}

module _ (k : Cluster) (c : Calls k) where
  open c.services use {get_keystone_api, get_endpoint, ensure_secrets, get_labels, object_hash}

  -- A function that returns an error, with the variables that it extends.
  abbrev Extends : Type 0
  Extends =
      Stmt k CeilometerSpec (CStatus k) (Option k.Error × StringMap) (Option k.Error × StringMap)

  abbrev scripts : Meta → String → String → Template
  scripts m service instance_type = record {
    name = append service "-scripts";
    namespace = m.namespace;
    type = template_type_scripts;
    instance_type = instance_type;
    additional_template = ("common.sh", "/common/common.sh") ∷ [];
    custom_data = [];
    config_options = [];
    labels = get_labels m service;
  }

  abbrev config_data : Meta → String → String → CeilometerSpec → StringMap → Template
  config_data m service instance_type spec options = record {
    name = append service "-config-data";
    namespace = m.namespace;
    type = template_type_config;
    instance_type = instance_type;
    additional_template = [];
    custom_data =
        put_all spec.default_config_overwrite
          ((c.services.custom_service_config_file_name, spec.custom_service_config) ∷ []);
    config_options = options;
    labels = get_labels m service;
  }

  -- the parameters that both configurations have; a secret that was not read is a nil pointer
  common_parameters :
      StringMap → Stmt k CeilometerSpec (CStatus k) (Option k.Error × StringMap) StringMap
  common_parameters vars = do
    o ← the_object k
    found ← ask k (get_keystone_api o.meta.namespace)
    api ← check found (λ e. exit (some e, vars))
    url ← check (get_endpoint api "internal") (λ e. exit (some e, vars))
    transport ← ask k (c.services.get_secret o.status.transport_url_secret o.meta.namespace)
    password ← ask k (c.services.get_secret o.spec.secret o.meta.namespace)
    transport_secret ← deref transport.secret
    password_secret ← deref password.secret
    pure (
        ("KeystoneInternalURL", url)
        ∷ ("TransportURL", transport_secret.data_of "transport_url")
        ∷ ("CeilometerPassword", password_secret.data_of "CeilometerPassword")
        ∷ [])

  -- `generateServiceConfig`
  unfoldable pub generate_service_config : StringMap → Extends
  unfolding common_parameters
  generate_service_config vars = do
    o ← the_object k
    parameters ← common_parameters vars
    ensured ← ask k (
        ensure_secrets o.meta
          (scripts o.meta service_name "ceilometercentral"
            ∷ config_data o.meta service_name "ceilometercentral" o.spec parameters
            ∷ [])
          vars)
    exit ensured

  -- `generateComputeServiceConfig`
  unfoldable pub generate_compute_service_config : StringMap → Extends
  unfolding common_parameters
  generate_compute_service_config vars = do
    o ← the_object k
    parameters ← common_parameters vars
    ensured ← ask k (
        ensure_secrets o.meta
          (scripts o.meta compute_service_name "ceilometercompute"
            ∷ config_data o.meta compute_service_name "ceilometercompute" o.spec (
                put "ceilometer_compute_image" o.spec.compute_image (
                  put "ceilometer_ipmi_image" o.spec.ipmi_image
                    (put "telemetry_node_exporter_image" o.spec.node_exporter_image parameters)))
            ∷ [])
          vars)
    exit ensured

  -- `createHashOfInputHashes`
  unfoldable pub create_hash_of_input_hashes :
      StringMap → Stmt k CeilometerSpec (CStatus k) (Hashed k) (Hashed k)
  create_hash_of_input_hashes =
      hash_of_inputs k c.services (λ t. t.hash) λ hash t. record t { hash = hash }
