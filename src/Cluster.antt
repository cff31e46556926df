-- ===== src/Cluster.antt =====
-- What the controllers take from outside of the repository: errors, finalizers, and the Kubernetes
-- API behind a state of the cluster, with the statements that every controller is made of.
pub mod Reconcile
pub mod Marks
pub mod Success
pub mod Waiting
use ceilometer_operator.Prelude.{String, Bool, Option, none, some, List, if◌then◌else◌}
use ceilometer_operator.Go.{Go, next, exit, pure}
use ceilometer_operator.Conditions.{
  CondType, Condition, Reason, Severity, Format, ConditionsApi, mark_true, set_false,
}
use ceilometer_operator.Object.{Meta, Object, State, CtrlResult, pending, Ret, ret}

-- The libraries: `World` is the state of the cluster, which any call may change.
pub record Cluster : Type 1 where
  pub conditions : ConditionsApi
  pub World : Type 0
  pub Error : Type 0
  -- k8s_errors.IsNotFound, and the `Error` method
  pub is_not_found : Error → Bool
  pub error_text : Error → String
  -- fmt.Errorf, after formatting
  pub errorf : String → Error
  -- fmt.Errorf with `%w`: the format, its other arguments, and the error that is wrapped
  pub errorf_wrapping : String → List String → Error → Error
  -- helper.GetFinalizer
  pub finalizer : String
  -- controllerutil.AddFinalizer and RemoveFinalizer: whether the list changed, and the list
  pub add_finalizer : List String → String → Bool × List String
  pub remove_finalizer : List String → String → Bool × List String
  -- status hashes: a map that may be nil
  pub HashMap : Type 0
  pub hash_is_nil : HashMap → Bool
  pub empty_hash : HashMap
  pub hash_get : HashMap → String → String
  pub hash_put : HashMap → String → String → HashMap
  -- util.SetHash: the map and whether the hash of the type changed
  pub set_hash : HashMap → String → String → HashMap × Bool

module _ (k : Cluster) where
  open k use {World, Error, conditions}

  -- an object of a kind, with its status
  abbrev pub Obj : Type 0 → Type 0 → Type 0
  Obj Spec Status = Object Spec Status conditions.Conditions

-- Statements of a function that returns an `R`, with an object of a kind in memory.
abbrev pub Stmt : (k : Cluster) → Type 0 → Type 0 → Type 0 → Type 0 → Type 0
Stmt k Spec Status R A = Go (State k.World (Obj k Spec Status)) R A

-- A function that returns `(ctrl.Result, error)`.
abbrev pub Handler : (k : Cluster) → Type 0 → Type 0 → Type 0
Handler k Spec Status = Stmt k Spec Status (Ret k.Error) (Ret k.Error)

module _ (k : Cluster) {Spec Status R A : Type 0} where
  -- A call of the API: it may change the cluster.
  unfoldable pub ask : (k.World → A × k.World) → Stmt k Spec Status R A
  ask f s = let (a, w) = f s.world in (next a, record s { world = w })

module _ (k : Cluster) {Spec Status R : Type 0} where
  unfoldable pub the_object : Stmt k Spec Status R (Obj k Spec Status)
  the_object s = (next s.instance, s)

  unfoldable pub set_status : (Status → Status) → Stmt k Spec Status R Unit
  set_status f s =
      (next tt, record s { instance = record s.instance { status = f s.instance.status } })

  unfoldable pub set_spec : (Spec → Spec) → Stmt k Spec Status R Unit
  set_spec f s = (next tt, record s { instance = record s.instance { spec = f s.instance.spec } })

  unfoldable pub set_meta : (Meta → Meta) → Stmt k Spec Status R Unit
  set_meta f s = (next tt, record s { instance = record s.instance { meta = f s.instance.meta } })

  -- a change of `instance.Status.Conditions`
  unfoldable pub change :
      (k.conditions.Conditions → k.conditions.Conditions) → Stmt k Spec Status R Unit
  change f s =
      (next tt, record s { instance = record s.instance { conditions = f s.instance.conditions } })

  -- `instance.Status.Conditions.MarkTrue(…)`
  unfoldable pub marks_true : CondType → Format → Stmt k Spec Status R Unit
  marks_true t f = change (mark_true k.conditions t f)

  -- `instance.Status.Conditions.Set(condition.FalseCondition(…))`
  unfoldable pub marks_false :
      CondType → Reason → Severity → Format → List String → Stmt k Spec Status R Unit
  marks_false t r v f a = change (set_false k.conditions t r v f a)

  -- `if c != nil { instance.Status.Conditions.Set(c) }`
  unfoldable pub sets : Option Condition → Stmt k Spec Status R Unit
  sets none s = (next tt, s)
  sets (some x) s = change (k.conditions.set (some x)) s

module _ (k : Cluster) {S : Type 0} where
  abbrev pub stop_by : CtrlResult → Option k.Error → Go S (Ret k.Error) Unit
  stop_by result (some e) = exit (ret result (some e))
  stop_by result none = if pending result then exit (ret result none) else pure tt

  -- `if err != nil { return result, err } else if result != (ctrl.Result{}) { return result, nil }`
  unfoldable pub stop_unless_done : Ret k.Error → Go S (Ret k.Error) Unit
  stop_unless_done r = stop_by r.result r.error
