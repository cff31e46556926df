-- ===== src/Requests.antt =====
-- The functions of controllers/*_controller.go that map a change of an object to the objects that are
-- reconciled again: the secret of a transport URL, a memcached, and a node set.
pub mod Listed
pub mod Unrequested
mod Tests
use ceilometer_operator.Prelude.{
  [], String, append, Bool, true, List, ◌∷◌, ◌++◌, str_eq, if◌then◌else◌,
}
use ceilometer_operator.Go.{Result, ok, err}
use ceilometer_operator.Object.{Meta, OwnerReference}
use ceilometer_operator.Spec.Autoscaling.{AutoscalingSpec}

-- reconcile.Request
pub record Request : Type 0 where
  pub namespace : String
  pub name : String

-- An object as `List` returns it, with its spec.
pub record Item (Spec : Type 0) : Type 0 where
  pub meta : Meta
  pub spec : Spec

module _ {Spec : Type 0} where
  abbrev pub request : String → Item Spec → Request
  request namespace x = record { namespace = namespace; name = x.meta.name }

  -- the loop over the listed objects, with the test of its body
  unfoldable pub requests_for : (Item Spec → Bool) → String → List (Item Spec) → List Request
  requests_for test namespace [] = []
  requests_for test namespace (x ∷ xs) =
      let rest = requests_for test namespace xs in
      if test x then request namespace x ∷ rest else rest

  -- the loop over the owners
  unfoldable pub owners_requests : String → List OwnerReference → List (Item Spec) → List Request
  unfolding requests_for
  owners_requests namespace [] xs = []
  owners_requests namespace (owner ∷ owners) xs =
      let rest = owners_requests namespace owners xs in
      (if str_eq owner.kind "TransportURL"
        then requests_for (λ x. str_eq owner.name (append x.meta.name "-transport")) namespace xs
        else [])
      ++ rest

  module _ {Error : Type 0} (list : String → Result Error (List (Item Spec))) (o : Meta) where
    -- `if err := r.Client.List(…); err != nil { return nil }`, in the namespace of the object
    abbrev when_listed :
        Result Error (List (Item Spec)) → (List (Item Spec) → List Request) → List Request
    when_listed (err e) f = []
    when_listed (ok xs) f = f xs

    -- `transportURLSecretFn`, for the secret `o`; the controllers for Ceilometer and Autoscaling have
    -- it alike.
    unfoldable pub transport_url_secret_fn : List Request
    unfolding owners_requests
    transport_url_secret_fn =
        when_listed (list o.namespace) (owners_requests o.namespace o.owner_references)

    -- `nodeSetWatchFn`, for the node set `o`
    unfoldable pub node_set_watch_fn : List Request
    unfolding requests_for
    node_set_watch_fn = when_listed (list o.namespace) (requests_for (λ _. true) o.namespace)

module _ {Override Error : Type 0}
    (list : String → Result Error (List (Item (AutoscalingSpec Override)))) where
  -- `transportURLSecretFn` of the Autoscaling controller
  unfoldable pub autoscaling_transport_url_secret_fn : Meta → List Request
  autoscaling_transport_url_secret_fn = transport_url_secret_fn list

  -- `memcachedFn`, for the memcached `o`
  unfoldable pub memcached_fn : Meta → List Request
  unfolding requests_for
  memcached_fn o =
      when_listed list o (list o.namespace)
        (requests_for (λ x. str_eq o.name x.spec.aodh.memcached_instance) o.namespace)
