-- ===== src/Spec/Defaults/Images.antt =====
-- The image defaults, as the process sets them up from its environment: what a webhook fills in, and
-- where the webhook of a Telemetry differs from those of its components.
use ceilometer_operator.Prelude.{
  String, ◌≡◌, ◌≢◌, ◌⊎◌, inl, inr, refl, Bool-cases, arith, eq_iff, if◌then◌else◌, str_eq,
}
use ceilometer_operator.Spec.Ceilometer.{CeilometerSpec}
use ceilometer_operator.Spec.Telemetry.{TelemetrySpec}
use ceilometer_operator.Spec.Defaults.{
  or_default, default_ceilometer, default_autoscaling, default_telemetry, setup_defaults_ceilometer,
  setup_defaults_autoscaling, setup_defaults_telemetry, ceilometer_central_image,
  ceilometer_notification_image, ceilometer_sg_core_image, ceilometer_compute_image,
  ceilometer_ipmi_image, node_exporter_image,
}

module _ {Override Selector Custom : Type 0} (env : String → String → String) where
  -- In one environment, the webhook of a Telemetry fills in its Ceilometer section and its Autoscaling
  -- section as the webhooks of those kinds do, but for the image of the node exporter, which it takes
  -- from a variable of its own if it is blank; and it leaves its metric storage section alone.
  pub default_telemetry-sections :
      (s : TelemetrySpec Override Selector Custom)
      → default_telemetry (setup_defaults_telemetry env) s ≡ record {
        autoscaling = record {
          enabled = s.autoscaling.enabled;
          template = default_autoscaling (setup_defaults_autoscaling env) s.autoscaling.template;
        };
        ceilometer = record {
          enabled = s.ceilometer.enabled;
          template =
              record (default_ceilometer (setup_defaults_ceilometer env) s.ceilometer.template) {
                node_exporter_image =
                    if str_eq s.ceilometer.template.node_exporter_image ""
                    then env "RELATED_IMAGE_TELEMETRY_NODE_EXPORTER_IMAGE_URL_DEFAULT"
                        node_exporter_image
                    else s.ceilometer.template.node_exporter_image;
              };
        };
        metric_storage = s.metric_storage;
      }
  unfolding default_telemetry default_autoscaling default_ceilometer setup_defaults_telemetry
      setup_defaults_autoscaling setup_defaults_ceilometer
  default_telemetry-sections s = refl

-- an image that was given is kept, and one that was blank is the default
abbrev pub Filled : String → String → String → Type 0
Filled old value new = ((old ≡ "") × (new ≡ value)) ⊎ ((old ≢ "") × (new ≡ old))

or_default-Filled : (a v : String) → Filled a v (or_default a v)
or_default-Filled a v = elim (Bool-cases (str_eq a "")) [
  | inl e ↦ inl ((eq_iff a "").0 e, rw e refl)
  | inr e ↦ inr (λ q. cc (e, (eq_iff a "").1 q), rw e refl)
]

-- The images of a Ceilometer that its webhook defaults, as `SetupDefaultsCeilometer` sets it up: five
-- images are kept if they were given, and are otherwise that of their own environment variable or
-- their fall-back; and the image of the node exporter stays what it was, blank if it was blank,
-- whatever the environment holds.
pub default_ceilometer-setup :
    (env : String → String → String) (s : CeilometerSpec)
    → let t = default_ceilometer (setup_defaults_ceilometer env) s in
      Filled s.central_image
        (env "RELATED_IMAGE_CEILOMETER_CENTRAL_IMAGE_URL_DEFAULT" ceilometer_central_image)
        t.central_image
      × Filled s.notification_image
          (env "RELATED_IMAGE_CEILOMETER_NOTIFICATION_IMAGE_URL_DEFAULT"
            ceilometer_notification_image)
          t.notification_image
      × Filled s.sg_core_image
          (env "RELATED_IMAGE_CEILOMETER_SGCORE_IMAGE_URL_DEFAULT" ceilometer_sg_core_image)
          t.sg_core_image
      × Filled s.compute_image
          (env "RELATED_IMAGE_CEILOMETER_COMPUTE_IMAGE_URL_DEFAULT" ceilometer_compute_image)
          t.compute_image
      × Filled s.ipmi_image
          (env "RELATED_IMAGE_CEILOMETER_IPMI_IMAGE_URL_DEFAULT" ceilometer_ipmi_image)
          t.ipmi_image
      × (t.node_exporter_image ≡ s.node_exporter_image)
unfolding default_ceilometer setup_defaults_ceilometer
default_ceilometer-setup env s = (
  or_default-Filled s.central_image _,
  or_default-Filled s.notification_image _,
  or_default-Filled s.sg_core_image _,
  or_default-Filled s.compute_image _,
  or_default-Filled s.ipmi_image _,
  blank s.node_exporter_image,
)
  where
    blank : (a : String) → or_default a "" ≡ a
    blank a = ground (arith, eq_iff a "")
