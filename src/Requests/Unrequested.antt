-- ===== src/Requests/Unrequested.antt =====
-- The secret of the transport URL of Aodh, and the name that the Telemetry controller gives to an
-- Autoscaling.
use ceilometer_operator.Prelude.{
  [], String, append, ◌≡◌, inl, inr, refl, List, ◌∷◌, str_eq, Bool-cases,
}
use ceilometer_operator.Go.{Result, ok}
use ceilometer_operator.Object.{Meta, OwnerReference}
use ceilometer_operator.Spec.Autoscaling.{AutoscalingSpec}
use ceilometer_operator.Autoscaling.Pods.{service_name as aodh_service_name}
use ceilometer_operator.Requests.{
  Item, requests_for, owners_requests, transport_url_secret_fn, autoscaling_transport_url_secret_fn,
}

-- the owners have this name
abbrev pub OwnersNamed : String → List OwnerReference → Type 0
OwnersNamed name [] = Unit
OwnersNamed name (owner ∷ owners) = (owner.name ≡ name) × OwnersNamed name owners

module _ {Override : Type 0} where
  -- the listed objects have this name
  abbrev pub AllNamed : String → List (Item (AutoscalingSpec Override)) → Type 0
  AllNamed name [] = Unit
  AllNamed name (x ∷ xs) = (x.meta.name ≡ name) × AllNamed name xs

  none_requested :
      (namespace : String) (xs : List (Item (AutoscalingSpec Override)))
      → AllNamed "autoscaling" xs
      → requests_for (λ x. str_eq "aodh-transport" (append x.meta.name "-transport")) namespace xs
        ≡ []
  unfolding requests_for
  none_requested namespace [] h = refl
  none_requested namespace (x ∷ xs) (n, h) = rw (n, none_requested namespace xs h) refl

  none_used :
      (namespace : String) (owners : List OwnerReference)
      → (xs : List (Item (AutoscalingSpec Override))) → OwnersNamed "aodh-transport" owners
      → AllNamed "autoscaling" xs
      → owners_requests namespace owners xs ≡ []
  unfolding owners_requests
  none_used namespace [] xs q h = refl
  none_used namespace (owner ∷ owners) xs (n, q) h =
      elim (Bool-cases (str_eq owner.kind "TransportURL")) [
        | inl k ↦ rw (k, n, none_requested namespace xs h, none_used namespace owners xs q h) refl
        | inr k ↦ rw (k, none_used namespace owners xs q h) refl
      ]

module _ {Override Error : Type 0}
    (list : String → Result Error (List (Item (AutoscalingSpec Override)))) where
  -- The secret of the transport URL that the Autoscaling controller creates, `aodh-transport`,
  -- requests no Autoscaling that is named as the Telemetry controller names it.
  pub autoscaling_transport_url_secret_fn-none :
      (o : Meta) (xs : List (Item (AutoscalingSpec Override)))
      → list o.namespace ≡ ok xs
      → OwnersNamed (append aodh_service_name "-transport") o.owner_references
      → AllNamed "autoscaling" xs
      → autoscaling_transport_url_secret_fn list o ≡ []
  unfolding autoscaling_transport_url_secret_fn transport_url_secret_fn
  autoscaling_transport_url_secret_fn-none o xs p q h =
      rw p (none_used o.namespace o.owner_references xs q h)
