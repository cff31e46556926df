-- ===== src/Autoscaling/Config/Prometheus.antt =====
-- The address of Prometheus in the status of an Autoscaling.
use text.Mathlib.TextLemmas.{append-eq-nil_iff}
use ceilometer_operator.Prelude.{
  String, append, ◌≡◌, ◌≢◌, ◌⊎◌, inl, inr, refl, str_eq, eq_iff, Bool-cases, arith,
}
use ceilometer_operator.Object.{Meta}
use ceilometer_operator.Cluster.{Cluster}
use ceilometer_operator.Autoscaling.Calls.{Calls, ASpec, AStatus}
use ceilometer_operator.Autoscaling.Config.{with_prometheus}

not_blank : (x : String) → append "metric-storage" x ≢ ""
not_blank x e = cc ((append-eq-nil_iff.0 e).0)

module _ (k : Cluster) (c : Calls k) (m : Meta) (spec : ASpec k c) (t : AStatus k c) where
  -- The status gets a host that is not blank and a port that is not 0, and each is that of the spec
  -- unless the spec leaves it blank, or 0.
  pub with_prometheus_lem :
      let t' = with_prometheus k c m spec t in
      (t'.prometheus_host ≢ "")
      × (t'.prometheus_port ≢ 0)
      × ((t'.prometheus_host ≡ spec.prometheus_host) ⊎ (spec.prometheus_host ≡ ""))
      × ((t'.prometheus_port ≡ spec.prometheus_port) ⊎ (spec.prometheus_port ≡ 0))
  unfolding with_prometheus
  with_prometheus_lem = (
    elim (Bool-cases (str_eq spec.prometheus_host "")) [
      | inl h ↦ rw h (not_blank _)
      | inr h ↦ rw h (λ e. cc (h, (eq_iff _ _).1 e))
    ],
    ground (arith),
    elim (Bool-cases (str_eq spec.prometheus_host "")) [
      | inl h ↦ inr ((eq_iff _ _).0 h)
      | inr h ↦ inl (rw h refl)
    ],
    ground (arith),
  )
