-- ===== src/Manager/Tests.antt =====
-- A process whose manager is the list of what it has been given, with the webhooks disabled.
use ceilometer_operator.Prelude.{[], String, none, List, ◌∷◌}
use ceilometer_operator.Go.{ok}
use ceilometer_operator.Spec.Defaults.{
  setup_defaults_ceilometer, setup_defaults_autoscaling, setup_defaults_telemetry,
}
use ceilometer_operator.Manager.{Libraries, Process}
use ceilometer_operator.Manager.Registry.{
  Part, scheme, controller, webhook, healthz, readyz, Registry,
}
use ceilometer_operator.Manager.Started.{Started}

data In (p : Part) : List Part → Type 0 where
  here : {w : List Part} → In p (p ∷ w)
  there : {q : Part} {w : List Part} → In p w → In p (q ∷ w)

abbrev libraries : Libraries
libraries = record {
  World = List Part;
  Error = String;
  Config = Unit {0};
  Client = Unit {0};
  getenv = λ name. "False";
  get_env_var = λ name fallback. fallback;
  to_lower = λ text. "false";
  parse_flags = λ flags. flags;
  add_to_scheme = λ x w. (none, scheme x ∷ w);
  get_config = λ w. (ok tt, w);
  new_manager = λ c o w. (none, w);
  new_for_config = λ c w. (ok tt, w);
  complete = λ b c w. (none, controller b ∷ w);
  build = λ b c w. (none, controller b ∷ w);
  set_tls_opts = λ f w. (tt, w);
  complete_webhook = λ x w. (none, webhook x ∷ w);
  add_healthz_check = λ name c w. (none, healthz c ∷ w);
  add_readyz_check = λ name c w. (none, readyz c ∷ w);
  start = λ w. (none, w);
}

abbrev fresh : Process libraries
fresh = record {
  world = [];
  defaults = record {
    telemetry = setup_defaults_telemetry (λ name fallback. "");
    ceilometer = setup_defaults_ceilometer (λ name fallback. "");
    autoscaling = setup_defaults_autoscaling (λ name fallback. "");
  };
}
