-- ===== src/Services/Release/Released.antt =====
-- What is known of the object after its finalizer was taken.
use ceilometer_operator.Prelude.{
  String, ◌≡◌, ◌⊎◌, inl, inr, refl, Bool, true, false, Option, none, some, List, Bool-cases,
}
use ceilometer_operator.Go.{Flow, next, return, Result, ok, err, ◌>>=◌, exit, exit_if, pure}
use ceilometer_operator.Object.{State, Ret, ret, done}
use ceilometer_operator.Cluster.{Cluster, Obj, ask}
use ceilometer_operator.Services.Release.{Held, tolerated, take_finalizer, release}

module _ (k : Cluster) where
  -- A statement of a deletion: it goes on, and something is known, or it ends with an error; it
  -- does not change the object in memory.
  abbrev pub Passed :
      {Spec Status : Type 0}
      → Flow (Ret k.Error) Unit × State k.World (Obj k Spec Status)
      → State k.World (Obj k Spec Status)
      → Type 0
      → Type 0
  Passed p s Done =
      ((p.0 ≡ next tt) × Done × (p.1.instance ≡ s.instance))
      ⊎ ((e : k.Error) × (p.0 ≡ return (ret done (some e))) × (p.1.instance ≡ s.instance))

  tolerated_or_not :
      (o : Option k.Error)
      → (tolerated k o ≡ true) ⊎ ((e : k.Error) × (o ≡ some e) × (tolerated k o ≡ false))
  unfolding tolerated
  tolerated_or_not none = inl refl
  tolerated_or_not (some e) = elim (Bool-cases (k.is_not_found e)) [
    | inl h ↦ inl h
    | inr h ↦ inr (e, refl, h)
  ]

  module _ {X : Type 0} (h : Held k X) where
    -- The object does not keep the finalizer: there is nothing to take, or the update of the object
    -- without it succeeded, or found that the object is gone.
    abbrev Taken : X → Bool × List String → k.World → Type 0
    Taken x (false, finalizers) w = Unit
    Taken x (true, finalizers) w =
        tolerated k (h.update (h.with_meta (record (h.meta x) { finalizers = finalizers }) x) w).0
        ≡ true

    -- The same, from what the API answered about the object: it may be gone already.
    abbrev pub Released : Result k.Error X → k.World → Type 0
    Released (err e) w = k.is_not_found e ≡ true
    Released (ok x) w = Taken x (k.remove_finalizer (h.meta x).finalizers k.finalizer) w

    module _ {Spec Status : Type 0} where
      take_finalizer_lem :
          (x : X) (r : Bool × List String) (s : State k.World (Obj k Spec Status))
          → Passed (take_finalizer k h x r s) s (Taken x r s.world)
      unfolding take_finalizer ◌>>=◌ ask exit_if
      take_finalizer_lem x (false, finalizers) s = inl (refl, tt, refl)
      take_finalizer_lem x (true, finalizers) s =
          elim (tolerated_or_not
            (h.update (h.with_meta (record (h.meta x) { finalizers = finalizers }) x) s.world).0) [
              | inl q ↦ inl (rw q refl, q, rw q refl)
              | inr (e, p, q) ↦ inr (e, rw (q, p) refl, rw q refl)
            ]

      pub release_lem :
          (found : Result k.Error X) (s : State k.World (Obj k Spec Status))
          → Passed (release k h found s) s (Released found s.world)
      unfolding release exit pure
      release_lem (err e) s = elim (Bool-cases (k.is_not_found e)) [
        | inl q ↦ inl (rw q refl, q, rw q refl)
        | inr q ↦ inr (e, rw q refl, rw q refl)
      ]
      release_lem (ok x) s = take_finalizer_lem x _ s
