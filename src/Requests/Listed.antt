-- ===== src/Requests/Listed.antt =====
-- Which objects the watch functions request: exactly those that use the object that changed.
use mathlib.Core.List.{Memᴰ}
use mathlib.Core.List.Memᴰ.{not-nil, append_cases, append_left, append_right}
use ceilometer_operator.Prelude.{
  [], String, append, ◌≡◌, ◌↔◌, ◌⊎◌, inl, inr, refl, Bool, true, false, List, ◌∷◌, str_eq, eq_iff,
  sym, ap, ◌∙◌, Bool-cases, if◌then◌else◌,
}
use ceilometer_operator.Go.{Result, ok}
use ceilometer_operator.Object.{Meta, OwnerReference}
use ceilometer_operator.Spec.Autoscaling.{AutoscalingSpec}
use ceilometer_operator.Requests.{
  Request, Item, request, requests_for, owners_requests, transport_url_secret_fn, memcached_fn,
}

module _ {Spec : Type 0} where
  -- a listed object that passes a test, with this request
  abbrev Requested : (Item Spec → Bool) → String → List (Item Spec) → Request → Type 0
  Requested test namespace xs r =
      (x : Item Spec) × Memᴰ x xs × (test x ≡ true) × (r ≡ request namespace x)

  requested :
      (test : Item Spec → Bool) (namespace : String) (xs : List (Item Spec)) (r : Request)
      → Memᴰ r (requests_for test namespace xs)
      → Requested test namespace xs r
  unfolding requests_for
  requested test namespace [] r m = absurd (not-nil m)
  requested test namespace (x ∷ xs) r m = elim (Bool-cases (test x)) [
    | inl e ↦ first e (requested test namespace xs r) (rw e at m)
    | inr e ↦ later (requested test namespace xs r (rw e at m))
  ]
    where
      later : Requested test namespace xs r → Requested test namespace (x ∷ xs) r
      later (y, d, t, q) = (y, Memᴰ.tail d, t, q)

      first :
          test x ≡ true
          → (Memᴰ r (requests_for test namespace xs) → Requested test namespace xs r)
          → Memᴰ r (request namespace x ∷ requests_for test namespace xs)
          → Requested test namespace (x ∷ xs) r
      first e rest (Memᴰ.head q) = (x, Memᴰ.head refl, e, q)
      first e rest (Memᴰ.tail d) = later (rest d)

  is_requested :
      (test : Item Spec → Bool) (namespace : String) (xs : List (Item Spec)) (x : Item Spec)
      → Memᴰ x xs
      → test x ≡ true
      → Memᴰ (request namespace x) (requests_for test namespace xs)
  unfolding requests_for
  is_requested test namespace [] x d e = absurd (not-nil d)
  is_requested test namespace (y ∷ xs) x (Memᴰ.head q) e = rw (sym q, e) (Memᴰ.head refl)
  is_requested test namespace (y ∷ xs) x (Memᴰ.tail d) e = elim (Bool-cases (test y)) [
    | inl h ↦ rw h (Memᴰ.tail (is_requested test namespace xs x d e))
    | inr h ↦ rw h (is_requested test namespace xs x d e)
  ]

  -- an owner that is a transport URL of a listed object
  abbrev pub OwnedBy : OwnerReference → Item Spec → Type 0
  OwnedBy owner x = (owner.kind ≡ "TransportURL") × (owner.name ≡ append x.meta.name "-transport")

  abbrev Used : String → List OwnerReference → List (Item Spec) → Request → Type 0
  Used namespace owners xs r =
      (owner : OwnerReference) × (x : Item Spec) × Memᴰ owner owners
      × Memᴰ x xs
      × OwnedBy owner x
      × (r ≡ request namespace x)

  used :
      (namespace : String) (owners : List OwnerReference) (xs : List (Item Spec)) (r : Request)
      → Memᴰ r (owners_requests namespace owners xs)
      → Used namespace owners xs r
  unfolding owners_requests
  used namespace [] xs r m = absurd (not-nil m)
  used namespace (owner ∷ owners) xs r m = elim (append_cases _ m) [
    | inl d ↦ here (Bool-cases (str_eq owner.kind "TransportURL")) d
    | inr d ↦ let (o, x, a, b, h, q) = used namespace owners xs r d in (o, x, Memᴰ.tail a, b, h, q)
  ]
    where
      here :
          (str_eq owner.kind "TransportURL" ≡ true) ⊎ (str_eq owner.kind "TransportURL" ≡ false)
          → Memᴰ r (
              if str_eq owner.kind "TransportURL"
              then requests_for
                  (λ x. str_eq owner.name (append x.meta.name "-transport"))
                  namespace
                  xs
              else [])
          → Used namespace (owner ∷ owners) xs r
      here (inl k) d =
          let (x, b, t, q) = requested _ namespace xs r (rw k at d) in
          (owner, x, Memᴰ.head refl, b, ((eq_iff _ _).0 k, (eq_iff _ _).0 t), q)
      here (inr k) d = absurd (not-nil (rw k at d))

  is_used :
      (namespace : String) (owners : List OwnerReference) (xs : List (Item Spec))
      → (owner : OwnerReference) (x : Item Spec) → Memᴰ owner owners
      → Memᴰ x xs
      → OwnedBy owner x
      → Memᴰ (request namespace x) (owners_requests namespace owners xs)
  unfolding owners_requests
  is_used namespace [] xs owner x m b h = absurd (not-nil m)
  is_used namespace (o ∷ owners) xs owner x (Memᴰ.head q) b (kind, name) = append_left _ by_owner
    where
      by_owner : Memᴰ (request namespace x) (
          if str_eq o.kind "TransportURL"
          then requests_for (λ y. str_eq o.name (append y.meta.name "-transport")) namespace xs
          else [])
      by_owner = rw ((eq_iff _ _).1 (ap (λ (z : OwnerReference). z.kind) (sym q) ∙ kind)) (
          is_requested _ namespace xs x b
            ((eq_iff _ _).1 (ap (λ (z : OwnerReference). z.name) (sym q) ∙ name)))
  is_used namespace (o ∷ owners) xs owner x (Memᴰ.tail m) b h =
      append_right _ (is_used namespace owners xs owner x m b h)

module _ {Spec Error : Type 0} (list : String → Result Error (List (Item Spec))) (o : Meta)
    (xs : List (Item Spec)) (p : list o.namespace ≡ ok xs) where
  -- A secret requests an object exactly if one of its owners is a transport URL that is named after
  -- a listed object, if the objects of its namespace can be listed.
  pub transport_url_secret_fn_iff :
      (r : Request)
      → Memᴰ r (transport_url_secret_fn list o) ↔ (
          (owner : OwnerReference) × (x : Item Spec) × Memᴰ owner o.owner_references
          × Memᴰ x xs
          × OwnedBy owner x
          × (r ≡ request o.namespace x))
  unfolding transport_url_secret_fn
  transport_url_secret_fn_iff r = rw p (
    used o.namespace o.owner_references xs r,
    λ u. rw u.5 (is_used o.namespace o.owner_references xs u.0 u.1 u.2 u.3 u.4),
  )

module _ {Override Error : Type 0}
    (list : String → Result Error (List (Item (AutoscalingSpec Override)))) (o : Meta)
    (xs : List (Item (AutoscalingSpec Override))) (p : list o.namespace ≡ ok xs) where
  -- A memcached requests an Autoscaling exactly if it is listed in its namespace and names it.
  pub memcached_fn_iff :
      (r : Request)
      → Memᴰ r (memcached_fn list o) ↔ (
          (x : Item (AutoscalingSpec Override)) × Memᴰ x xs
          × (o.name ≡ x.spec.aodh.memcached_instance)
          × (r ≡ request o.namespace x))
  unfolding memcached_fn
  memcached_fn_iff r = rw p (
    λ m.
        let (x, d, t, q) =
          requested (λ x. str_eq o.name x.spec.aodh.memcached_instance) o.namespace xs r m in
        (x, d, (eq_iff _ _).0 t, q),
    λ u. rw u.3 (
        is_requested (λ x. str_eq o.name x.spec.aodh.memcached_instance) o.namespace xs u.0 u.1
          ((eq_iff _ _).1 u.2)),
  )
