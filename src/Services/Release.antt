-- ===== src/Services/Release.antt =====
-- The part of `reconcileDelete` that takes the operator's finalizer from an object of another
-- operator: a Keystone service or a Keystone endpoint.
pub mod Released
use ceilometer_operator.Prelude.{
  String, Bool, true, false, Option, none, some, List, not, if◌then◌else◌,
}
use ceilometer_operator.Go.{◌>>◌, ◌>>=◌, Result, ok, err, exit, exit_if, pure}
use ceilometer_operator.Object.{Meta, Ret, ret, done}
use ceilometer_operator.Cluster.{Cluster, Stmt, ask}

-- A kind of object whose metadata the operator changes: `update` is `r.Update`.
pub record Held (k : Cluster) (X : Type 0) : Type 0 where
  pub meta : X → Meta
  pub with_meta : Meta → X → X
  pub update : X → k.World → Option k.Error × k.World

module _ (k : Cluster) where
  -- an update that did not fail, or failed because the object is gone
  unfoldable pub tolerated : Option k.Error → Bool
  tolerated none = true
  tolerated (some e) = k.is_not_found e

  module _ {X Spec Status : Type 0} (h : Held k X) where
    -- `controllerutil.RemoveFinalizer` of the object, and the update of it
    unfoldable pub take_finalizer : X → Bool × List String → Stmt k Spec Status (Ret k.Error) Unit
    unfolding tolerated
    take_finalizer x (false, finalizers) = pure tt
    take_finalizer x (true, finalizers) = do
      error ← ask k (h.update (h.with_meta (record (h.meta x) { finalizers = finalizers }) x))
      exit_if (not (tolerated error)) (ret done error)

    -- What follows the question for the object, which may be gone.
    unfoldable pub release : Result k.Error X → Stmt k Spec Status (Ret k.Error) Unit
    unfolding take_finalizer
    release (err e) = if k.is_not_found e then pure tt else exit (ret done (some e))
    release (ok x) = take_finalizer x (k.remove_finalizer (h.meta x).finalizers k.finalizer)
