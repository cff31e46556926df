-- ===== src/Spec/Defaults/Stack.antt =====
-- The defaults of a metric storage: what a defaulted spec guarantees to the reconciler.
use mathlib.Core.Option
use ceilometer_operator.Prelude.{
  ap, String, ◌≡◌, refl, if◌then◌else◌, str_eq, true, false, Bool-cases, inl, inr, Option, none,
  some, is_some, ◌||◌, ◌&&◌,
}
use ceilometer_operator.Spec.MetricStorage.{
  PersistentStorage, Storage, MonitoringStack, MetricStorageSpec,
}
use ceilometer_operator.Spec.Defaults.{
  or_default, default_persistent, default_storage, default_stack, chosen_stack,
  default_metric_storage,
}

-- What `Default` leaves in a monitoring stack: no blank option, and a volume size if it is needed.
pub record IsComplete {Selector : Type 0} (m : MonitoringStack Selector) : Type 0 where
  pub interval : str_eq m.scrape_interval "" ≡ false
  pub strategy : str_eq m.storage.strategy "" ≡ false
  pub retention : str_eq m.storage.retention "" ≡ false
  pub request :
      str_eq m.storage.strategy "persistent" && str_eq m.storage.persistent.pvc_storage_request ""
      ≡ false

or_default-blank : (a v : String) → str_eq v "" ≡ false → str_eq (or_default a v) "" ≡ false
or_default-blank a v h = elim (Bool-cases (str_eq a "")) [ inl e ↦ rw e h | inr e ↦ rw e e ]

module _ {Selector : Type 0} where
  sized :
      (strategy : String) (p : PersistentStorage Selector)
      → str_eq strategy "persistent"
          && str_eq
              (if str_eq strategy "persistent" then default_persistent p else p).pvc_storage_request
              ""
        ≡ false
  unfolding default_persistent
  sized strategy p = elim (Bool-cases (str_eq strategy "persistent")) [
    | inl e ↦ rw e (or_default-blank p.pvc_storage_request "20G" refl)
    | inr e ↦ rw e refl
  ]

  default_stack-IsComplete : (m : MonitoringStack Selector) → IsComplete (default_stack m)
  unfolding default_stack
  default_stack-IsComplete m = record {
    interval = or_default-blank m.scrape_interval "30s" refl;
    strategy = or_default-blank m.storage.strategy "persistent" refl;
    retention = or_default-blank m.storage.retention "24h" refl;
    request = sized (or_default m.storage.strategy "persistent") m.storage.persistent;
  }

  default_storage_complete :
      (s : Storage Selector)
      → str_eq s.strategy "" ≡ false
      → str_eq s.retention "" ≡ false
      → str_eq s.strategy "persistent" && str_eq s.persistent.pvc_storage_request "" ≡ false
      → default_storage s ≡ s
  unfolding default_storage
  default_storage_complete s a b c = elim (Bool-cases (str_eq s.strategy "persistent")) [
    | inl e ↦ rw (a, b, e, rw e at c) refl
    | inr e ↦ rw (a, b, e) refl
  ]

  -- A complete stack is left as it is.
  default_stack_complete : (m : MonitoringStack Selector) → IsComplete m → default_stack m ≡ m
  unfolding default_stack
  default_stack_complete m h =
      rw (h.interval, default_storage_complete m.storage h.strategy h.retention h.request) refl

abbrev CompleteOrNone : {Selector : Type 0} → Option (MonitoringStack Selector) → Type 0
CompleteOrNone none = Unit
CompleteOrNone (some m) = IsComplete m

-- Something is deployed, and a stack of the operator's own is complete.
abbrev pub IsDeployable : {Selector Custom : Type 0} → MetricStorageSpec Selector Custom → Type 0
IsDeployable s =
    (is_some s.monitoring_stack || is_some s.custom_monitoring_stack ≡ true)
    × CompleteOrNone s.monitoring_stack

module _ {Selector : Type 0} where
  defaulted : (o : Option (MonitoringStack Selector)) → CompleteOrNone (Option.map default_stack o)
  defaulted none = tt
  defaulted (some m) = default_stack-IsComplete m

module _ {Selector Custom : Type 0} (no_selector : Selector) where
  some_stack :
      (m : Option (MonitoringStack Selector)) (c : Option Custom)
      → is_some (Option.map default_stack (chosen_stack no_selector m c)) || is_some c ≡ true
  some_stack none none = refl
  some_stack none (some c) = refl
  some_stack (some m) _ = refl

  -- After `Default` the spec has a stack, the operator's own or a custom one. In one of the operator's
  -- own the interval, the strategy and the retention are not blank, and neither is the size of the
  -- volume if the strategy is persistent; of a custom one nothing is said.
  pub default_metric_storage-IsDeployable :
      (s : MetricStorageSpec Selector Custom) → IsDeployable (default_metric_storage no_selector s)
  unfolding default_metric_storage
  default_metric_storage-IsDeployable s = (
    some_stack s.monitoring_stack s.custom_monitoring_stack,
    defaulted (chosen_stack no_selector s.monitoring_stack s.custom_monitoring_stack),
  )

  -- A spec that is deployable is left as it is, so a second run of the webhook changes nothing.
  pub default_metric_storage_keep :
      (s : MetricStorageSpec Selector Custom)
      → IsDeployable s
      → default_metric_storage no_selector s ≡ s
  unfolding default_metric_storage
  default_metric_storage_keep s h =
      ap (λ (o : Option (MonitoringStack Selector)). record s { monitoring_stack = o })
        (keep s.monitoring_stack s.custom_monitoring_stack h.0 h.1)
    where
      keep :
          (m : Option (MonitoringStack Selector)) (c : Option Custom)
          → is_some m || is_some c ≡ true
          → CompleteOrNone m
          → Option.map default_stack (chosen_stack no_selector m c) ≡ m
      keep none none e k = cc
      keep none (some c) e k = refl
      keep (some m) _ e k = ap some (default_stack_complete m k)
