-- ===== src/Requests/Tests.antt =====
-- The secret of a transport URL and a memcached, in a namespace with one object.
use mathlib.Core.List.{Memᴰ}
use ceilometer_operator.Prelude.{[], String, ◌≡◌, ◌↔◌, refl, List, ◌∷◌}
use ceilometer_operator.Go.{Result, ok}
use ceilometer_operator.Object.{Meta, OwnerReference}
use ceilometer_operator.Spec.Ceilometer.{CeilometerSpec}
use ceilometer_operator.Spec.Autoscaling.{AutoscalingSpec}
use ceilometer_operator.Requests.{
  Request, Item, request, transport_url_secret_fn, memcached_fn,
  autoscaling_transport_url_secret_fn,
}
use ceilometer_operator.Requests.Listed.{OwnedBy, transport_url_secret_fn_iff, memcached_fn_iff}
use ceilometer_operator.Requests.Unrequested.{autoscaling_transport_url_secret_fn-none}
use ceilometer_operator.Tests.Specs.{ceilometer_spec, autoscaling_spec}
use ceilometer_operator.Tests.World.{meta_of}

abbrev ceilometers : List (Item CeilometerSpec)
ceilometers = record { meta = meta_of "ceilometer" []; spec = ceilometer_spec } ∷ []

abbrev list_ceilometers : String → Result String (List (Item CeilometerSpec))
list_ceilometers namespace = ok ceilometers

abbrev autoscalings : List (Item (AutoscalingSpec Unit))
autoscalings = record { meta = meta_of "autoscaling" []; spec = autoscaling_spec } ∷ []

abbrev list_autoscalings : String → Result String (List (Item (AutoscalingSpec Unit)))
list_autoscalings namespace = ok autoscalings

abbrev secret_of : String → Meta
secret_of owner = record (meta_of "rabbitmq-transport-url" []) {
  owner_references = record { kind = "TransportURL"; name = owner } ∷ [];
}

abbrev wanted : Request
wanted = record { namespace = "openstack"; name = "ceilometer" }

transport_url_secret_fn_iff_example :
    Memᴰ wanted (transport_url_secret_fn list_ceilometers (secret_of "ceilometer-transport")) ↔ (
      (owner : OwnerReference) × (x : Item CeilometerSpec) × Memᴰ owner
        (secret_of "ceilometer-transport").owner_references
      × Memᴰ x ceilometers
      × OwnedBy owner x
      × (wanted ≡ request "openstack" x))
transport_url_secret_fn_iff_example =
    transport_url_secret_fn_iff list_ceilometers (secret_of "ceilometer-transport") ceilometers refl
      wanted

memcached_fn_iff_example : Memᴰ wanted (memcached_fn list_autoscalings (meta_of "memcached" [])) ↔ (
    (x : Item (AutoscalingSpec Unit)) × Memᴰ x autoscalings
    × ("memcached" ≡ x.spec.aodh.memcached_instance)
    × (wanted ≡ request "openstack" x))
memcached_fn_iff_example =
    memcached_fn_iff list_autoscalings (meta_of "memcached" []) autoscalings refl wanted

autoscaling_transport_url_secret_fn-none_example :
    autoscaling_transport_url_secret_fn list_autoscalings (secret_of "aodh-transport") ≡ []
autoscaling_transport_url_secret_fn-none_example =
    autoscaling_transport_url_secret_fn-none list_autoscalings (secret_of "aodh-transport")
      autoscalings refl (refl, tt) (refl, tt)
