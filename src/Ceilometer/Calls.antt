-- ===== src/Ceilometer/Calls.antt =====
-- The calls of the Ceilometer controller, and the types of its statements.
use ceilometer_operator.Prelude.{ℕ, String, Option, StringMap}
use ceilometer_operator.Object.{Meta, Ret}
use ceilometer_operator.Spec.Ceilometer.{CeilometerSpec, CeilometerStatus}
use ceilometer_operator.Cluster.{Cluster, Stmt, Handler}
use ceilometer_operator.Cluster.Reconcile.{Frame}
use ceilometer_operator.Services.{Services}

-- corev1.Service, as the function `Service` of pkg/ceilometer fills it in
pub record ServiceObject : Type 0 where
  pub labels : StringMap
  pub selector : StringMap
  pub protocol : String
  pub port : ℕ
  pub target_port : ℕ

pub record Calls (k : Cluster) : Type 1 where
  pub frame : Frame k CeilometerSpec (CeilometerStatus k.HashMap)
  pub services : Services k
  -- controllerutil.CreateOrUpdate of a service; the mutating function sets the owner last
  pub service_set_controller_reference : Meta → ServiceObject → Option k.Error × ServiceObject
  pub service_create_or_update :
      String
      → String
      → (ServiceObject → Option k.Error × ServiceObject)
      → k.World
      → (Option k.Error × ServiceObject) × k.World

module _ (k : Cluster) where
  abbrev pub CStatus : Type 0
  CStatus = CeilometerStatus k.HashMap

  -- statements of a function that returns `(ctrl.Result, error)`
  abbrev pub Do : Type 0 → Type 0
  Do A = Stmt k CeilometerSpec CStatus (Ret k.Error) A

  abbrev pub Fn : Type 0
  Fn = Handler k CeilometerSpec CStatus
