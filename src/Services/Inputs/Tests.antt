-- ===== src/Services/Inputs/Tests.antt =====
-- A secret that is there, read for an object without conditions.
use ceilometer_operator.Prelude.{[], String, none, some, List}
use ceilometer_operator.Conditions.Simple.{laws}
use ceilometer_operator.Object.{State}
use ceilometer_operator.Cluster.{Obj}
use ceilometer_operator.Services.Inputs.{get_secret}
use ceilometer_operator.Services.Inputs.Secrets.{Answered, get_secret-Answered}
use ceilometer_operator.Tests.Services.{services, secret}
use ceilometer_operator.Tests.World.{cluster, meta_of, empty_conditions}

abbrev plain : State (List String) (Obj cluster String String)
plain = record {
  world = [];
  instance = record {
    meta = meta_of "ceilometer" [];
    spec = "spec";
    status = "status";
    conditions = empty_conditions;
  };
}

get_secret-Answered_example :
    Answered cluster "osp-secret" [] plain
      (get_secret cluster services "osp-secret" [] plain)
      "hash"
      none
      (some secret)
get_secret-Answered_example = get_secret-Answered cluster services laws "osp-secret" [] plain
