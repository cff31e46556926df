-- ===== src/Manager.antt =====
-- main.go: the start of the process, up to the end of the manager.
pub mod Controllers
pub mod Registry
pub mod Steps
pub mod Started
mod Tests
use ceilometer_operator.Prelude.{
  [], ℕ, String, Bool, false, Option, List, ◌∷◌, str_eq, not, if◌then◌else◌,
}
use ceilometer_operator.Go.{◌>>◌, ◌>>=◌, Go, modify, exit, pure, crash, check, check_error, Result}
use ceilometer_operator.Spec.Defaults.{
  CeilometerDefaults, AutoscalingDefaults, TelemetryDefaults, setup_defaults_ceilometer,
  setup_defaults_autoscaling, setup_defaults_telemetry,
}
use ceilometer_operator.Manager.Controllers.{
  Kind, Builder, telemetry_builder, ceilometer_builder, autoscaling_builder, logging_builder,
  metric_storage_builder,
}

-- The packages whose types are added to the scheme.
pub data SchemePackage : Type 0 where
  client_go keystone_v1 rabbitmq_v1 ansibleee_v1 telemetry_v1beta1 obo_v1 mon_v1 : SchemePackage
  mariadb_v1beta1 memcached_v1 heat_v1 dataplane_v1 infra_network_v1 : SchemePackage

-- The flags of the command line.
pub record Flags : Type 0 where
  pub metrics_addr : String
  pub probe_addr : String
  pub enable_leader_election : Bool
  pub enable_http2 : Bool

-- ctrl.Options, with the scheme left out
pub record Options : Type 0 where
  pub metrics_bind_address : String
  pub port : ℕ
  pub health_probe_bind_address : String
  pub leader_election : Bool
  pub leader_election_id : String

-- What answers a probe.
pub data Checker : Type 0 where
  ping started_checker : Checker

-- The libraries and the environment of the process.
pub record Libraries : Type 1 where
  pub World : Type 0
  pub Error : Type 0
  pub Config : Type 0
  pub Client : Type 0
  -- os.Getenv and util.GetEnvVar
  pub getenv : String → String
  pub get_env_var : String → String → String
  pub to_lower : String → String
  -- flag.Parse: from the defaults of the flags
  pub parse_flags : Flags → Flags
  pub add_to_scheme : SchemePackage → World → Option Error × World
  -- ctrl.GetConfigOrDie, whose failure ends the process with the code 1, and config.GetConfig
  pub get_config : World → Result Error Config × World
  pub new_manager : Config → Options → World → Option Error × World
  pub new_for_config : Config → World → Result Error Client × World
  -- `Complete` and `Build` of a builder, with the client of the reconciler
  pub complete : Builder → Client → World → Option Error × World
  pub build : Builder → Client → World → Option Error × World
  -- srv.TLSOpts: what becomes of the protocols of the webhook server
  pub set_tls_opts : (List String → List String) → World → Unit {0} × World
  -- ctrl.NewWebhookManagedBy(mgr).For(kind).Complete()
  pub complete_webhook : Kind → World → Option Error × World
  pub add_healthz_check : String → Checker → World → Option Error × World
  pub add_readyz_check : String → Checker → World → Option Error × World
  -- mgr.Start: it returns when the manager ends
  pub start : World → Option Error × World

-- The variables of the package v1beta1 that the defaulting webhooks read.
pub record Defaults : Type 0 where
  pub telemetry : TelemetryDefaults
  pub ceilometer : CeilometerDefaults
  pub autoscaling : AutoscalingDefaults

-- The state of the process.
pub record Process (m : Libraries) : Type 0 where
  pub world : m.World
  pub defaults : Defaults

-- `disableHTTP2`, of the protocols of a TLS configuration
pub disable_http2 : Bool → List String → List String
disable_http2 enable protocols = if enable then protocols else "http/1.1" ∷ []

module _ (m : Libraries) where
  open m use {World, Error, Client}

  -- statements of `main`, which may end the process with a code
  abbrev pub Main : Type 0 → Type 0
  Main A = Go (Process m) ℕ A

  module _ {A : Type 0} where
    -- a call of a library
    pub does : (World → A × World) → Main A
    does f p = let (a, w) = f p.world in (pure {R = ℕ} a (record p { world = w }))

  -- `os.Exit(1)` after an error
  pub must : Option Error → Main Unit
  must e = check_error e (λ _. exit 1)

  pub must_do : (World → Option Error × World) → Main Unit
  must_do f = do error ← does f; must error

  -- `utilruntime.Must`, which panics
  pub add_all_to_scheme : List SchemePackage → Main Unit
  add_all_to_scheme [] = pure tt
  add_all_to_scheme (x ∷ xs) = do
    (do error ← does (m.add_to_scheme x); check_error error (λ _. crash))
    add_all_to_scheme xs

  -- `init`
  pub init : Main Unit
  init = add_all_to_scheme (
      client_go ∷ keystone_v1 ∷ rabbitmq_v1 ∷ ansibleee_v1 ∷ telemetry_v1beta1 ∷ obo_v1 ∷ mon_v1
      ∷ mariadb_v1beta1 ∷ memcached_v1 ∷ heat_v1 ∷ dataplane_v1 ∷ infra_network_v1 ∷ [])

  abbrev default_flags : Flags
  default_flags = record {
    metrics_addr = ":8083";
    probe_addr = ":8084";
    enable_leader_election = false;
    enable_http2 = false;
  }

  pub manager_options : Flags → Options
  manager_options flags = record {
    metrics_bind_address = flags.metrics_addr;
    port = 9443;
    health_probe_bind_address = flags.probe_addr;
    leader_election = flags.enable_leader_election;
    leader_election_id = "fa1814a2.openstack.org";
  }

  -- The `SetupWithManager` calls.
  pub setup_controllers : Client → Main Unit
  setup_controllers client = do
    must_do (m.complete telemetry_builder client)
    must_do (m.complete ceilometer_builder client)
    must_do (m.complete autoscaling_builder client)
    must_do (m.complete logging_builder client)
    must_do (m.build metric_storage_builder client)

  -- `SetupDefaultsTelemetry`, `SetupDefaultsCeilometer` and `SetupDefaultsAutoscaling`
  pub setup_defaults : Main Unit
  setup_defaults = modify λ p. record p {
    defaults = record {
      telemetry = setup_defaults_telemetry m.get_env_var;
      ceilometer = setup_defaults_ceilometer m.get_env_var;
      autoscaling = setup_defaults_autoscaling m.get_env_var;
    };
  }

  pub webhooks_enabled : Bool
  webhooks_enabled = not (str_eq (m.to_lower (m.getenv "ENABLE_WEBHOOKS")) "false")

  -- The webhooks, and what answers the probes.
  pub setup_webhooks : Flags → Main Checker
  setup_webhooks flags =
      if webhooks_enabled
      then (do
        does (m.set_tls_opts (disable_http2 flags.enable_http2))
        must_do (m.complete_webhook Kind.telemetry)
        must_do (m.complete_webhook Kind.ceilometer)
        must_do (m.complete_webhook Kind.autoscaling)
        must_do (m.complete_webhook Kind.metric_storage)
        pure started_checker)
      else pure ping

  -- `main`; its end is the code 0.
  pub main : Main ℕ
  main = do
    let flags = m.parse_flags default_flags
    found ← does m.get_config
    config ← check found (λ _. exit 1)
    must_do (m.new_manager config (manager_options flags))
    again ← does m.get_config
    cfg ← check again (λ _. exit 1)
    created ← does (m.new_for_config cfg)
    client ← check created (λ _. exit 1)
    setup_controllers client
    setup_defaults
    checker ← setup_webhooks flags
    must_do (m.add_healthz_check "healthz" checker)
    must_do (m.add_readyz_check "readyz" checker)
    must_do m.start
    pure 0

  -- The process: the packages are initialized, then `main` runs.
  pub process : Main ℕ
  process = do init; main
