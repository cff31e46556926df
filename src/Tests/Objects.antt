-- ===== src/Tests/Objects.antt =====
-- The closing function, the frame of `Reconcile` and the defaults, on small objects.
use ceilometer_operator.Prelude.{
  [], String, ◌≡◌, ◌↔◌, ◌⊎◌, refl, false, none, some, List, ◌∷◌, Bool-cases, inl, inr,
  if◌then◌else◌,
}
use ceilometer_operator.Go.{next, return, ok, err}
use ceilometer_operator.Conditions.{
  ready, input_ready, type_eq, condition_true, status_at, error_reason, severity_warning, lib,
  set_false, init_reason, Condition,
}
use ceilometer_operator.Conditions.Simple.{api, laws}
use ceilometer_operator.Object.{State, done, ret, update_ready}
use ceilometer_operator.Object.Ready.{SubConditionsTrue, update_ready_iff, get-update_ready}
use ceilometer_operator.Cluster.{Obj, Handler}
use ceilometer_operator.Cluster.Reconcile.{Frame, closed, reconcile, prepare}
use ceilometer_operator.Cluster.Reconcile.Errors.{Gone, WellWritten, reconcile_no_error_iff}
use ceilometer_operator.Cluster.Reconcile.NewObject.{new_object_ready}
use ceilometer_operator.Cluster.Reconcile.Settles.{prepare_settles}
use ceilometer_operator.Tests.World.{cluster, member, meta_of, no_conditions, empty_conditions}

abbrev Plain : Type 0
Plain = Obj cluster String String

abbrev fresh : Plain
fresh = record {
  meta = meta_of "telemetry" [];
  spec = "spec";
  status = "status";
  conditions = no_conditions;
}

abbrev finalized : Plain
finalized = record fresh { meta = meta_of "telemetry" ("openstack.org/telemetry" ∷ []) }

abbrev read_before : State (List String) Plain
read_before = record { world = []; instance = fresh }

abbrev read_again : State (List String) Plain
read_again = record { world = []; instance = finalized }

-- The object is there as long as the state holds its name, and a patch of it is logged.
abbrev frame : Frame cluster String String
frame = record {
  get = λ w. if member "telemetry" w then (ok finalized, w) else (err "not found", w);
  new_helper = λ o. none;
  patch_instance = λ before after w. (some "conflict", "patched" ∷ w);
}

abbrev body : Handler cluster String String
body s = (
  return (ret done none),
  record s {
    instance = record s.instance {
      conditions =
          set_false api input_ready error_reason severity_warning (lib "InputReadyErrorMessage") []
            s.instance.conditions;
    };
  },
)

update_ready_iff_example :
    (status_at api (update_ready api empty_conditions) ready ≡ some condition_true)
    ↔ SubConditionsTrue api empty_conditions
update_ready_iff_example = update_ready_iff api laws empty_conditions

abbrev failing : api.Conditions
failing =
    set_false api input_ready error_reason severity_warning (lib "InputReadyErrorMessage") []
      empty_conditions

get-update_ready_example :
    api.get (update_ready api failing) input_ready ≡ api.get failing input_ready
unfolding type_eq
get-update_ready_example = get-update_ready api laws failing input_ready refl

reconcile_no_error_iff_example :
    let (answer, w2) = reconcile cluster false frame body ("telemetry" ∷ []) in
    (answer ≡ some (ret done none)) ↔ (
      (Gone cluster frame body (frame.get ("telemetry" ∷ [])) w2 × (done ≡ done))
      ⊎ WellWritten cluster frame body false (frame.get ("telemetry" ∷ [])) done w2)
reconcile_no_error_iff_example =
    reconcile_no_error_iff cluster frame body false ("telemetry" ∷ []) done

abbrev awaited : List Condition
awaited = api.unknown_condition input_ready init_reason (lib "InputReadyInitMessage") ∷ []

new_object_ready_example :
    ((prepare cluster awaited read_before).0 ≡ return (ret done none))
    × ((closed cluster (prepare cluster awaited read_before).1.instance).meta ≡ record fresh.meta {
      finalizers = (cluster.add_finalizer fresh.meta.finalizers cluster.finalizer).1;
    })
    × (status_at api
          (closed cluster (prepare cluster awaited read_before).1.instance).conditions
          ready
        ≡ (if type_eq ready ready then some condition_true else none))
    × (api.is_nil (closed cluster (prepare cluster awaited read_before).1.instance).conditions
        ≡ false)
unfolding member
new_object_ready_example = new_object_ready cluster read_before awaited laws refl refl refl ready

-- A finalizer that was added to a list is found in it.
add_twice :
    (fs : List String)
    → let added = (cluster.add_finalizer fs cluster.finalizer).1 in
      cluster.add_finalizer added cluster.finalizer ≡ (false, added)
unfolding member
add_twice fs = elim (Bool-cases (member cluster.finalizer fs)) [
  | inl h ↦ rw (h, h) refl
  | inr h ↦ rw h refl
]

prepare_settles_example :
    let written = closed cluster (prepare cluster awaited read_before).1.instance in
    prepare cluster awaited (record { world = []; instance = written })
    ≡ (next tt, record { world = []; instance = written })
prepare_settles_example = prepare_settles cluster awaited laws add_twice read_before []
