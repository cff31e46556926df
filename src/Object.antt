-- ===== src/Object.antt =====
-- What the five kinds of object of api/v1beta1 share: metadata, a spec, a status with conditions,
-- and the closing function that every `Reconcile` defers (controllers/*_controller.go).
pub mod Ready
use ceilometer_operator.Prelude.{
  ℕ, String, Bool, false, Option, List, if◌then◌else◌, ◌==◌, ◌*◌, not, ◌||◌,
}
use ceilometer_operator.Conditions.{ready, lib, init_reason, ConditionsApi, mark_true, mark_unknown}

-- metav1.OwnerReference
pub record OwnerReference : Type 0 where
  pub kind : String
  pub name : String

-- metav1.ObjectMeta, as far as the operator reads it; `deleting` is a deletion timestamp that is set.
pub record Meta : Type 0 where
  pub name : String
  pub namespace : String
  pub deleting : Bool
  pub finalizers : List String
  pub owner_references : List OwnerReference

-- An object: `conditions` is `Status.Conditions`, `status` the rest of the status.
pub record Object (Spec Status Conds : Type 0) : Type 0 where
  pub meta : Meta
  pub spec : Spec
  pub status : Status
  pub conditions : Conds

-- The state of a reconciler: the cluster, and the object in memory.
pub record State (World Obj : Type 0) : Type 0 where
  pub world : World
  pub instance : Obj

-- ctrl.Result; `requeue_after` is in nanoseconds.
pub record CtrlResult : Type 0 where
  pub requeue : Bool
  pub requeue_after : ℕ

-- `ctrl.Result{}`
abbrev pub done : CtrlResult
done = record { requeue = false; requeue_after = 0 }

-- `r != ctrl.Result{}`
unfoldable pub pending : CtrlResult → Bool
pending r = r.requeue || not (r.requeue_after == 0)

abbrev pub seconds : ℕ → ℕ
seconds n = n * 1000000000

-- `ctrl.Result{RequeueAfter: …}`
abbrev pub after : ℕ → CtrlResult
after n = record { requeue = false; requeue_after = n }

-- What a reconciler returns: `(ctrl.Result, error)`.
pub record Ret (Error : Type 0) : Type 0 where
  pub result : CtrlResult
  pub error : Option Error

abbrev pub ret : {Error : Type 0} → CtrlResult → Option Error → Ret Error
ret r e = record { result = r; error = e }

module _ (c : ConditionsApi) where
  -- The conditions after the deferred function.
  pub update_ready : c.Conditions → c.Conditions
  update_ready cs =
      if c.all_sub_condition_is_true cs
      then mark_true c ready (lib "ReadyMessage") cs
      else let cs' = mark_unknown c ready init_reason (lib "ReadyInitMessage") cs in
        c.set (c.mirror ready cs') cs'
