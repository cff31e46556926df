-- ===== src/Conditions/Simple.antt =====
-- Conditions as a function of their type: an instance of the interface, for the examples.
use ceilometer_operator.Prelude.{
  [], zero, suc, ◌⊎◌, ℕ, ◌≡◌, ◌≢◌, ◌↔◌, refl, Bool, true, false, Option, none, some, List, ◌∷◌,
  ◌&&◌, arith, if◌then◌else◌, Bool-cases, inl, inr, not,
}
use mathlib.Core.List.{Memᴰ}
use mathlib.Core.Bool.{false≢true}
use ceilometer_operator.Conditions.{
  CondType, Condition, Reason, Format, condition_true, condition_false, condition_unknown,
  severity_none, ready_reason, init_reason, ready, lib, find, type_eq, ConditionsApi,
  ConditionsLaws,
}
use ceilometer_operator.Conditions.Laws.{type_eq_refl}

-- The nil slice is told apart from the empty one, and has no condition.
pub record Conds : Type 0 where
  pub nil : Bool
  pub at : CondType → Option Condition

abbrev pub nothing : CondType → Option Condition
nothing t = none

unfoldable pub get_cond : Conds → CondType → Option Condition
get_cond c t = if c.nil then none else c.at t

unfoldable pub set_cond : Option Condition → Conds → Conds
unfolding get_cond
set_cond none c = c
set_cond (some x) c = record {
  nil = false;
  at = λ t. if type_eq x.type t then some x else get_cond c t;
}

pub remove_cond : CondType → Conds → Conds
unfolding get_cond
remove_cond u c = record { nil = c.nil; at = λ t. if type_eq u t then none else get_cond c t }

abbrev pub unknown : CondType → Reason → Format → Condition
unknown t r f = record {
  type = t;
  status = condition_unknown;
  reason = r;
  severity = severity_none;
  message = "";
}

pub init_cond : List Condition → Conds → Conds
unfolding find
init_cond l c = record {
  nil = false;
  at = λ t.
      if type_eq t ready
      then some (unknown ready init_reason (lib "ReadyInitMessage"))
      else find t l;
}

abbrev all_types : List CondType
all_types =
    CondType.input_ready ∷ CondType.service_config_ready ∷ CondType.deployment_ready
    ∷ CondType.service_account_ready ∷ CondType.role_ready ∷ CondType.role_binding_ready
    ∷ CondType.keystone_service_ready ∷ CondType.keystone_endpoint_ready ∷ CondType.memcached_ready
    ∷ CondType.db_ready ∷ CondType.db_sync_ready ∷ CondType.rabbit_mq_transport_url_ready
    ∷ CondType.expose_service_ready ∷ CondType.ceilometer_ready ∷ CondType.autoscaling_ready
    ∷ CondType.metric_storage_ready ∷ CondType.heat_ready ∷ CondType.monitoring_stack_ready
    ∷ CondType.service_monitor_ready ∷ CondType.scrape_config_ready ∷ CondType.node_set_ready ∷ []

is_bad : Option Condition → Bool
is_bad none = false
is_bad (some x) = elim x.status [ condition_true ↦ false | _ ↦ true ]

-- the first condition that is not true
first_bad : Conds → List CondType → Option Condition
unfolding is_bad get_cond
first_bad c [] = none
first_bad c (t ∷ ts) = if is_bad (get_cond c t) then get_cond c t else first_bad c ts

pub all_sub : Conds → Bool
unfolding first_bad
all_sub c = elim (first_bad c all_types) [ none ↦ true | some x ↦ false ]

retype : CondType → Option Condition → Option Condition
retype t none = none
retype t (some x) = some (record x { type = t })

-- the first bad condition, or else the one of type `ready`
pub mirror_cond : CondType → Conds → Option Condition
unfolding first_bad retype
mirror_cond t c =
    retype t (elim (first_bad c all_types) [ none ↦ get_cond c ready | some x ↦ some x ])

is_some_true : Option Condition → Bool
is_some_true none = false
is_some_true (some x) = elim x.status [ condition_true ↦ true | _ ↦ false ]

unfoldable pub is_true_cond : Conds → CondType → Bool
unfolding is_some_true
is_true_cond c t = is_some_true (get_cond c t)

abbrev pub api : ConditionsApi
api = record {
  Conditions = Conds;
  nil = record { nil = true; at = nothing };
  empty = record { nil = false; at = nothing };
  is_nil = λ c. c.nil;
  get = get_cond;
  set = set_cond;
  set_on_copy = set_cond;
  remove = remove_cond;
  init = init_cond;
  all_sub_condition_is_true = all_sub;
  is_true = is_true_cond;
  mirror = mirror_cond;
  true_condition = λ t f. record {
    type = t;
    status = condition_true;
    reason = ready_reason;
    severity = severity_none;
    message = "";
  };
  false_condition = λ t r v f a. record {
    type = t;
    status = condition_false;
    reason = r;
    severity = v;
    message = "";
  };
  unknown_condition = unknown;
}

-- a condition that is there and not true is found
first_bad-none :
    (c : Conds) (ts : List CondType)
    → first_bad c ts ≡ none
    → (t : CondType) → Memᴰ t ts
    → is_bad (get_cond c t) ≡ false
unfolding first_bad
first_bad-none c [] h u m = elim m [ ]
first_bad-none c (t ∷ ts) h u (Memᴰ.head e) = rw e (ground arith)
first_bad-none c (t ∷ ts) h u (Memᴰ.tail m) = first_bad-none c ts (ground arith) u m

first_bad_is_bad :
    (c : Conds) (ts : List CondType) (x : Condition)
    → first_bad c ts ≡ some x
    → x.status ≢ condition_true
unfolding first_bad
first_bad_is_bad c [] x h = cc
first_bad_is_bad c (t ∷ ts) x h = ground (arith, first_bad_is_bad c ts x)

first_bad_of_bad :
    (c : Conds) (ts : List CondType) (x : Condition)
    → first_bad c ts ≡ some x
    → (t : CondType) × (get_cond c t ≡ some x) × Memᴰ t ts
unfolding first_bad
first_bad_of_bad c [] x h = cc
first_bad_of_bad c (t ∷ ts) x h = elim (Bool-cases (is_bad (get_cond c t))) [
  | inl e ↦ (t, ground arith, Memᴰ.head refl)
  | inr e ↦ let (u, p, q) = first_bad_of_bad c ts x (ground arith) in (u, p, Memᴰ.tail q)
]

none_ready : List CondType → Bool
none_ready [] = true
none_ready (t ∷ ts) = not (type_eq t ready) && none_ready ts

none_ready-mem :
    (ts : List CondType)
    → none_ready ts ≡ true
    → (t : CondType) → Memᴰ t ts
    → type_eq t ready ≡ false
unfolding none_ready
none_ready-mem [] h u m = elim m [ ]
none_ready-mem (t ∷ ts) h u (Memᴰ.head e) = rw e (ground arith)
none_ready-mem (t ∷ ts) h u (Memᴰ.tail m) = none_ready-mem ts (ground arith) u m

all_types_lem : none_ready all_types ≡ true
unfolding none_ready type_eq
all_types_lem = refl

-- the place of each type in the list
place : CondType → ℕ
place ready = 0
place CondType.input_ready = 0
place CondType.service_config_ready = 1
place CondType.deployment_ready = 2
place CondType.service_account_ready = 3
place CondType.role_ready = 4
place CondType.role_binding_ready = 5
place CondType.keystone_service_ready = 6
place CondType.keystone_endpoint_ready = 7
place CondType.memcached_ready = 8
place CondType.db_ready = 9
place CondType.db_sync_ready = 10
place CondType.rabbit_mq_transport_url_ready = 11
place CondType.expose_service_ready = 12
place CondType.ceilometer_ready = 13
place CondType.autoscaling_ready = 14
place CondType.metric_storage_ready = 15
place CondType.heat_ready = 16
place CondType.monitoring_stack_ready = 17
place CondType.service_monitor_ready = 18
place CondType.scrape_config_ready = 19
place CondType.node_set_ready = 20

get_elem? : List CondType → ℕ → Option CondType
get_elem? [] i = none
get_elem? (t ∷ ts) zero = some t
get_elem? (t ∷ ts) (suc i) = get_elem? ts i

mem_of_get_elem? : (ts : List CondType) (i : ℕ) (t : CondType) → get_elem? ts i ≡ some t → Memᴰ t ts
unfolding get_elem?
mem_of_get_elem? [] i t h = cc
mem_of_get_elem? (u ∷ ts) zero t h = Memᴰ.head (cc)
mem_of_get_elem? (u ∷ ts) (suc i) t h = Memᴰ.tail (mem_of_get_elem? ts i t h)

get_elem?-place : (t : CondType) → type_eq t ready ≡ false → get_elem? all_types (place t) ≡ some t
unfolding get_elem? place type_eq
get_elem?-place ready h = cc
get_elem?-place _ h = refl

mem_all_types : (t : CondType) → type_eq t ready ≡ false → Memᴰ t all_types
mem_all_types t h = mem_of_get_elem? all_types (place t) t (get_elem?-place t h)

good_status : (x : Condition) → is_bad (some x) ≡ false → x.status ≡ condition_true
unfolding is_bad
good_status x h = ground arith

all_sub_iff :
    (c : Conds)
    → (all_sub c ≡ true) ↔ (
        (t : CondType) (x : Condition)
        → type_eq t ready ≡ false
        → get_cond c t ≡ some x
        → x.status ≡ condition_true)
unfolding all_sub
all_sub_iff c = elim (find_bad) [
  | inl e ↦ (
    λ _ t x n g. good_status x (rw g at (first_bad-none c all_types e t (mem_all_types t n))),
    λ _. rw (e, all_sub) refl,
  )
  | inr (x, e) ↦ (
    λ h. absurd (false≢true (rw (e, all_sub) at h)),
    λ h.
        let (t, g, m) = first_bad_of_bad c all_types x e in
        absurd
          (first_bad_is_bad c all_types x e (h t x (none_ready-mem all_types all_types_lem t m) g)),
  )
]
  where
    find_bad : (first_bad c all_types ≡ none) ⊎ ((x : Condition) × (first_bad c all_types ≡ some x))
    find_bad =
        elim (first_bad c all_types) as (λ o. (o ≡ none) ⊎ ((x : Condition) × (o ≡ some x))) [
          | none ↦ inl refl
          | some x ↦ inr (x, refl)
        ]

mirror-type : (t : CondType) (c : Conds) (x : Condition) → mirror_cond t c ≡ some x → x.type ≡ t
unfolding mirror_cond
mirror-type t c x h = ground arith

mirror-worst :
    (t : CondType) (c : Conds) (x : Condition)
    → all_sub c ≡ false
    → mirror_cond t c ≡ some x
    → x.status ≢ condition_true
unfolding all_sub mirror_cond
mirror-worst t c x e h = worst (first_bad c all_types) refl e h
  where
    worst :
        (o : Option Condition)
        → first_bad c all_types ≡ o
        → (elim o [ none ↦ true | some y ↦ false ]) ≡ false
        → retype t (elim o [ none ↦ get_cond c ready | some y ↦ some y ]) ≡ some x
        → x.status ≢ condition_true
    worst none p q r = cc
    worst (some y) p q r = let bad = first_bad_is_bad c all_types y p in λ w. bad (ground arith)

is_true_iff :
    (o : Option Condition)
    → (is_some_true o ≡ true) ↔ ((x : Condition) × (o ≡ some x) × (x.status ≡ condition_true))
unfolding is_some_true
is_true_iff none = (λ h. cc, λ h. cc (h.1))
is_true_iff (some x) = (λ h. (x, refl, ground arith), λ (y, p, q). ground arith)

pub laws : ConditionsLaws api
unfolding get_cond set_cond remove_cond init_cond is_true_cond
laws = record {
  is_nil-nil = refl;
  get_of_is_nil = λ c e t. rw e refl;
  get-set = λ x c t. refl;
  set-none = λ c. refl;
  is_nil-set = λ x c. refl;
  set_on_copy_present = λ x y c e. refl;
  get-remove = λ u c t. ground arith;
  all_sub_iff = all_sub_iff;
  is_true_iff = λ c t. is_true_iff (get_cond c t);
  mirror_type = mirror-type;
  mirror_worst = mirror-worst;
  get-init_ready =
      λ l. (unknown ready init_reason (lib "ReadyInitMessage"), rw type_eq_refl refl, refl);
  get-init = λ l t e. rw e refl;
  is_nil-init = λ l. refl;
  true_type = λ t f. refl;
  true_status = λ t f. refl;
  false_type = λ t r v f a. refl;
  false_status = λ t r v f a. refl;
  unknown_type = λ t r f. refl;
  unknown_status = λ t r f. refl;
}
