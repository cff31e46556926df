-- ===== src/Cluster/Reconcile.antt =====
-- The frame of the five `Reconcile` functions: the object is read, the body works on it, and the
-- deferred function updates `Ready` and writes the object back, however the body ends.
pub mod Writes
pub mod Errors
pub mod NewObject
pub mod Settles
use ceilometer_operator.Prelude.{Bool, true, Option, none, some, List, if◌then◌else◌, not, ◌&&◌}
use ceilometer_operator.Go.{
  ◌>>◌, ◌>>=◌, Flow, next, return, panic, Result, ok, err, exit, pure, exit_if,
}
use ceilometer_operator.Conditions.{Condition}
use ceilometer_operator.Object.{State, done, Ret, ret, update_ready}
use ceilometer_operator.Cluster.{Cluster, Obj, Stmt, Handler, the_object, set_meta, change}

-- The calls that a `Reconcile` makes around its body.
pub record Frame (k : Cluster) (Spec Status : Type 0) : Type 0 where
  -- r.Client.Get
  pub get : k.World → Result k.Error (Obj k Spec Status) × k.World
  -- helper.NewHelper
  pub new_helper : Obj k Spec Status → Option k.Error
  -- helper.PatchInstance, with the object as it was read and as it is now
  pub patch_instance : Obj k Spec Status → Obj k Spec Status → k.World → Option k.Error × k.World

-- `_err = err` if the patch failed: only a function with a named result does it.
abbrev pub override : {Error : Type 0} → Bool → Ret Error → Option Error → Ret Error
override true r (some e) = ret r.result (some e)
override _ r _ = r

abbrev outcome :
    {Error : Type 0} → Bool → Flow (Ret Error) (Ret Error) → Option Error → Option (Ret Error)
outcome named (next r) e = some (override named r e)
outcome named (return r) e = some (override named r e)
outcome named panic e = none

module _ (k : Cluster) {Spec Status : Type 0} where
  -- The object that the deferred function writes.
  unfoldable pub closed : Obj k Spec Status → Obj k Spec Status
  closed o = record o { conditions = update_ready k.conditions o.conditions }

  -- The deferred function, after the body.
  unfoldable pub deferred :
      (named : Bool) (f : Frame k Spec Status) (before : Obj k Spec Status)
      → Flow (Ret k.Error) (Ret k.Error) × State k.World (Obj k Spec Status)
      → Option (Ret k.Error) × k.World
  unfolding closed
  deferred named f before (r, s) =
      let (e, w) = f.patch_instance before (closed s.instance) s.world in (outcome named r e, w)

  -- The rest of `Reconcile` after the helper was made, or was not.
  pub with_helper :
      (named : Bool) (f : Frame k Spec Status)
      → Handler k Spec Status
      → Obj k Spec Status
      → k.World
      → Option k.Error
      → Option (Ret k.Error) × k.World
  unfolding deferred
  with_helper named f body o w (some e) = (some (ret done (some e)), w)
  with_helper named f body o w none = deferred named f o (body (record { world = w; instance = o }))

  -- The rest of `Reconcile` after the object was asked for.
  pub with_object :
      (named : Bool) (f : Frame k Spec Status)
      → Handler k Spec Status
      → Result k.Error (Obj k Spec Status) × k.World
      → Option (Ret k.Error) × k.World
  unfolding with_helper
  with_object named f body (err e, w) =
      (some (if k.is_not_found e then ret done none else ret done (some e)), w)
  with_object named f body (ok o, w) = with_helper named f body o w (f.new_helper o)

  -- `Reconcile`; no result means a panic. `named` says whether the error is a named result.
  unfoldable pub reconcile :
      (named : Bool) (f : Frame k Spec Status)
      → Handler k Spec Status
      → k.World
      → Option (Ret k.Error) × k.World
  unfolding with_object
  reconcile named f body w = with_object named f body (f.get w)

  -- The first statements of every body: the finalizer, and the conditions of a new object. Each
  -- returns where it has written something.
  unfoldable pub prepare : List Condition → Stmt k Spec Status (Ret k.Error) Unit
  prepare conditions = do
    o ← the_object k
    let (added, finalizers) = k.add_finalizer o.meta.finalizers k.finalizer
    (if o.meta.deleting then pure tt else set_meta k (λ m. record m { finalizers = finalizers }))
    exit_if (not o.meta.deleting && added) (ret done none)
    (if k.conditions.is_nil o.conditions
        then (do
          change k (λ _. k.conditions.init conditions k.conditions.empty)
          exit (ret done none))
        else pure tt)
