-- ===== src/Manager/Registry.antt =====
-- What the libraries are documented to do with a manager, as hypotheses, and what it has been given
-- when it starts.
use ceilometer_operator.Prelude.{[], ◌≡◌, Bool, true, false, none, List, ◌∷◌, if◌then◌else◌, String}
use ceilometer_operator.Manager.Controllers.{
  Kind, Builder, telemetry_builder, ceilometer_builder, autoscaling_builder, logging_builder,
  metric_storage_builder,
}
use ceilometer_operator.Manager.{SchemePackage, Checker, started_checker, ping, Options, Libraries}

-- What a manager is given.
pub data Part : Type 0 where
  scheme : SchemePackage → Part
  controller : Builder → Part
  webhook : Kind → Part
  healthz readyz : Checker → Part

-- What the libraries are documented to do: a call that succeeds registers its part, and no call
-- takes a part away.
pub record Registry (m : Libraries) : Type 1 where
  pub Has : Part → m.World → Type 0
  pub scheme_has :
      (x : SchemePackage) (w : m.World)
      → (m.add_to_scheme x w).0 ≡ none
      → Has (scheme x) (m.add_to_scheme x w).1
  pub scheme_keeps :
      (x : SchemePackage) (p : Part) (w : m.World) → Has p w → Has p (m.add_to_scheme x w).1
  pub config_keeps : (p : Part) (w : m.World) → Has p w → Has p (m.get_config w).1
  pub manager_keeps :
      (c : m.Config) (o : Options) (p : Part) (w : m.World)
      → Has p w
      → Has p (m.new_manager c o w).1
  pub client_keeps :
      (c : m.Config) (p : Part) (w : m.World) → Has p w → Has p (m.new_for_config c w).1
  pub complete_has :
      (b : Builder) (c : m.Client) (w : m.World)
      → (m.complete b c w).0 ≡ none
      → Has (controller b) (m.complete b c w).1
  pub complete_keeps :
      (b : Builder) (c : m.Client) (p : Part) (w : m.World) → Has p w → Has p (m.complete b c w).1
  pub build_has :
      (b : Builder) (c : m.Client) (w : m.World)
      → (m.build b c w).0 ≡ none
      → Has (controller b) (m.build b c w).1
  pub build_keeps :
      (b : Builder) (c : m.Client) (p : Part) (w : m.World) → Has p w → Has p (m.build b c w).1
  pub tls_keeps :
      (f : List String → List String) (p : Part) (w : m.World)
      → Has p w
      → Has p (m.set_tls_opts f w).1
  pub webhook_has :
      (x : Kind) (w : m.World)
      → (m.complete_webhook x w).0 ≡ none
      → Has (webhook x) (m.complete_webhook x w).1
  pub webhook_keeps :
      (x : Kind) (p : Part) (w : m.World) → Has p w → Has p (m.complete_webhook x w).1
  pub healthz_has :
      (name : String) (c : Checker) (w : m.World)
      → (m.add_healthz_check name c w).0 ≡ none
      → Has (healthz c) (m.add_healthz_check name c w).1
  pub healthz_keeps :
      (name : String) (c : Checker) (p : Part) (w : m.World)
      → Has p w
      → Has p (m.add_healthz_check name c w).1
  pub readyz_has :
      (name : String) (c : Checker) (w : m.World)
      → (m.add_readyz_check name c w).0 ≡ none
      → Has (readyz c) (m.add_readyz_check name c w).1
  pub readyz_keeps :
      (name : String) (c : Checker) (p : Part) (w : m.World)
      → Has p w
      → Has p (m.add_readyz_check name c w).1

-- The parts of a manager that starts, the last first.
abbrev pub checker_for : Bool → Checker
checker_for enabled = if enabled then started_checker else ping

abbrev pub scheme_parts : List Part
scheme_parts =
    scheme SchemePackage.infra_network_v1
    ∷ scheme SchemePackage.dataplane_v1
    ∷ scheme SchemePackage.heat_v1
    ∷ scheme SchemePackage.memcached_v1
    ∷ scheme SchemePackage.mariadb_v1beta1
    ∷ scheme SchemePackage.mon_v1
    ∷ scheme SchemePackage.obo_v1
    ∷ scheme SchemePackage.telemetry_v1beta1
    ∷ scheme SchemePackage.ansibleee_v1
    ∷ scheme SchemePackage.rabbitmq_v1
    ∷ scheme SchemePackage.keystone_v1
    ∷ scheme SchemePackage.client_go
    ∷ []

abbrev pub controller_parts : List Part
controller_parts =
    controller metric_storage_builder
    ∷ controller logging_builder
    ∷ controller autoscaling_builder
    ∷ controller ceilometer_builder
    ∷ controller telemetry_builder
    ∷ scheme_parts

abbrev pub webhook_parts : Bool → List Part
webhook_parts true =
    webhook Kind.metric_storage
    ∷ webhook Kind.autoscaling
    ∷ webhook Kind.ceilometer
    ∷ webhook Kind.telemetry
    ∷ controller_parts
webhook_parts false = controller_parts

abbrev pub all_parts : Bool → List Part
all_parts enabled =
    readyz (checker_for enabled) ∷ healthz (checker_for enabled) ∷ webhook_parts enabled
