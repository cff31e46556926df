-- ===== src/Manager/Started.antt =====
-- If the process ends without an error, then its manager started with all that it needs.
use ceilometer_operator.Prelude.{[], ℕ, ◌≡◌, none, List, ◌∷◌}
use ceilometer_operator.Go.{◌>>◌, pure}
use ceilometer_operator.Go.Ensures.{Ensures}
use ceilometer_operator.Spec.Defaults.{
  setup_defaults_ceilometer, setup_defaults_autoscaling, setup_defaults_telemetry,
}
use ceilometer_operator.Manager.{
  SchemePackage, Checker, Defaults, Libraries, Process, Main, must_do, webhooks_enabled,
}
use ceilometer_operator.Manager.Registry.{Part, scheme, Registry, all_parts}
use ceilometer_operator.Manager.Steps.{HasAll}

-- the parts that the packages give, onto those that are there
scheme_onto : List SchemePackage → List Part → List Part
scheme_onto [] ps = ps
scheme_onto (x ∷ xs) ps = scheme_onto xs (scheme x ∷ ps)

module _ (m : Libraries) (r : Registry m) where
  -- The defaults of the webhooks, once they are set.
  abbrev defaults_of_env : Defaults
  defaults_of_env = record {
    telemetry = setup_defaults_telemetry m.get_env_var;
    ceilometer = setup_defaults_ceilometer m.get_env_var;
    autoscaling = setup_defaults_autoscaling m.get_env_var;
  }

  -- A manager that has started, and ended without an error.
  pub record Started (s : Process m) : Type 0 where
    pub started_in : m.World
    pub parts : HasAll m r started_in (all_parts (webhooks_enabled m))
    pub ended : m.start started_in ≡ (none, s.world)
    pub defaults : s.defaults ≡ defaults_of_env

  -- the statements of `main` after the webhooks
  abbrev rest_of_main : Checker → Main m ℕ
  rest_of_main c = do
    must_do m (m.add_healthz_check "healthz" c)
    must_do m (m.add_readyz_check "readyz" c)
    must_do m m.start
    pure 0
