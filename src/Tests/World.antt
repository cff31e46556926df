-- ===== src/Tests/World.antt =====
-- Clusters with texts as errors, and one whose state is a list of names.
use ceilometer_operator.Prelude.{
  [], String, Bool, true, false, List, ◌∷◌, StringMap, put, lookup, if◌then◌else◌, str_eq, not,
  ◌||◌,
}
use ceilometer_operator.Conditions.Simple.{api, Conds, nothing}
use ceilometer_operator.Object.{Meta}
use ceilometer_operator.Cluster.{Cluster}

unfoldable pub member : String → List String → Bool
member x [] = false
member x (y ∷ ys) = str_eq y x || member x ys

pub without : String → List String → List String
without x [] = []
without x (y ∷ ys) = if str_eq y x then ys else y ∷ without x ys

abbrev pub cluster_of : Type 0 → Cluster
cluster_of World = record {
  conditions = api;
  World = World;
  Error = String;
  is_not_found = λ e. str_eq e "not found";
  error_text = λ e. e;
  errorf = λ t. t;
  errorf_wrapping = λ f a e. e;
  finalizer = "openstack.org/telemetry";
  add_finalizer = λ l f. if member f l then (false, l) else (true, f ∷ l);
  remove_finalizer = λ l f. (member f l, without f l);
  HashMap = StringMap;
  hash_is_nil = λ m. false;
  empty_hash = [];
  hash_get = λ m key. lookup key m;
  hash_put = λ m key v. put key v m;
  set_hash = λ m key v. (put key v m, not (str_eq (lookup key m) v));
}

abbrev pub cluster : Cluster
cluster = cluster_of (List String)

abbrev pub meta_of : String → List String → Meta
meta_of name finalizers = record {
  name = name;
  namespace = "openstack";
  deleting = false;
  finalizers = finalizers;
  owner_references = [];
}

abbrev pub no_conditions : Conds
no_conditions = record { nil = true; at = nothing }

abbrev pub empty_conditions : Conds
empty_conditions = record { nil = false; at = nothing }
