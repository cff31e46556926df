-- ===== src/Autoscaling/Normal/Input.antt =====
-- `InputReady` of an Autoscaling: a secret that was missing once is never shown as found.
pub mod Kept
pub mod Steps
use ceilometer_operator.Prelude.{
  [], ◌∷◌, String, ◌≡◌, ◌≢◌, ◌⊎◌, inl, inr, refl, false, Option, none, some, List, Bool-cases, ◌∙◌,
  sym,
}
use ceilometer_operator.Go.{◌>>=◌, exit, exit_if, pure}
use ceilometer_operator.Go.Laws.{Keeps}
use ceilometer_operator.Conditions.{
  CondType, Condition, Reason, Severity, Format, ConditionsLaws, type_eq, status_at, condition_true,
  set_false, mark_true, input_ready, ready, service_account_ready, role_ready, role_binding_ready,
}
use ceilometer_operator.Conditions.Laws.{type_eq-eq, type_eq_refl}
use ceilometer_operator.Object.{update_ready}
use ceilometer_operator.Object.Ready.{update_ready_iff, get-update_ready}
use ceilometer_operator.Cluster.{
  Cluster, the_object, set_meta, change, marks_true, marks_false, sets,
}
use ceilometer_operator.Cluster.Reconcile.{prepare}
use ceilometer_operator.Cluster.Marks.{On, Keeps-change}
use ceilometer_operator.Services.Inputs.{rbac_conditions_set}

module _ (k : Cluster) where
  open k.conditions use {Conditions, get, set, set_on_copy}

  -- `InputReady` is there and not true.
  abbrev pub Blocked : Conditions → Type 0
  Blocked cs = (x : Condition) × (get cs input_ready ≡ some x) × (x.status ≢ condition_true)

  -- the type of a condition of the roles
  abbrev pub RbacType : CondType → Type 0
  RbacType t = (t ≡ service_account_ready) ⊎ ((t ≡ role_ready) ⊎ (t ≡ role_binding_ready))

  abbrev pub AllRbac : List Condition → Type 0
  AllRbac [] = Unit
  AllRbac (x ∷ xs) = RbacType x.type × AllRbac xs

  -- `RbacConditionsSet` works on a copy of the object: what the object shows of `InputReady` stays,
  -- whether the condition of a role is there, and is overwritten in the array, or is appended.
  abbrev pub CopyKeepsInput : Type 0
  CopyKeepsInput =
      (x : Condition) (cs : Conditions)
      → RbacType x.type
      → get (set_on_copy (some x) cs) input_ready ≡ get cs input_ready

  module _ (l : ConditionsLaws k.conditions) where
    Blocked-set :
        (x : Condition) (cs : Conditions)
        → (x.type ≡ input_ready → x.status ≢ condition_true)
        → Blocked cs
        → Blocked (set (some x) cs)
    Blocked-set x cs h (y, p, q) = elim (Bool-cases (type_eq x.type input_ready)) [
      | inl e ↦ (x, rw (l.get-set, e) refl, h (type_eq-eq _ _ e))
      | inr e ↦ (y, rw (l.get-set, e) p, q)
    ]

    Blocked-mark_true :
        (t : CondType) (f : Format) (cs : Conditions)
        → type_eq t input_ready ≡ false
        → Blocked cs
        → Blocked (mark_true k.conditions t f cs)
    unfolding mark_true
    Blocked-mark_true t f cs n h =
        Blocked-set _ cs (λ e _. cc (n, type_eq_refl input_ready, l.true_type t f, e)) h

    Blocked-set_false :
        (t : CondType) (r : Reason) (v : Severity) (f : Format) (a : List String) (cs : Conditions)
        → Blocked cs
        → Blocked (set_false k.conditions t r v f a cs)
    unfolding set_false
    Blocked-set_false t r v f a cs h = Blocked-set _ cs (λ e q. cc (l.false_status t r v f a, q)) h

    pub Blocked-update_ready :
        (cs : Conditions) → Blocked cs → Blocked (update_ready k.conditions cs)
    unfolding type_eq
    Blocked-update_ready cs (x, u, v) =
        (x, get-update_ready k.conditions l cs input_ready refl ∙ u, v)

    -- An object with a condition that is not true is not ready after the deferred function.
    pub Blocked-not_ready :
        (cs : Conditions)
        → Blocked cs
        → status_at k.conditions (update_ready k.conditions cs) ready ≢ some condition_true
    unfolding type_eq
    Blocked-not_ready cs (x, u, v) e =
        v ((update_ready_iff k.conditions l cs).0 e input_ready x refl u)

    pub Blocked-rbac :
        CopyKeepsInput
        → (xs : List Condition) (cs : Conditions) → AllRbac xs
        → Blocked cs
        → Blocked (rbac_conditions_set k xs cs)
    unfolding rbac_conditions_set
    Blocked-rbac kept [] cs h b = b
    Blocked-rbac kept (x ∷ xs) cs (r, h) (y, p, q) =
        Blocked-rbac kept xs _ h (y, kept x cs r ∙ p, q)

    Blocked-not_nil : (cs : Conditions) → Blocked cs → k.conditions.is_nil cs ≡ false
    Blocked-not_nil cs b = elim (Bool-cases (k.conditions.is_nil cs)) [
      | inl e ↦ absurd (none≢some (sym (l.get_of_is_nil cs e input_ready) ∙ b.1))
      | inr e ↦ e
    ]
      where
        none≢some : {x : Condition} → none ≡ some x → ⊥
        none≢some e = cc

  module _ {Spec Status R : Type 0} (l : ConditionsLaws k.conditions) where
    pub Keeps-mark :
        (t : CondType) (f : Format)
        → type_eq t input_ready ≡ false
        → Keeps (On k Blocked) (marks_true k {Spec = Spec} {Status = Status} {R = R} t f)
    unfolding marks_true
    Keeps-mark t f n = Keeps-change k Blocked _ λ cs b. Blocked-mark_true l t f cs n b

    pub Keeps-unmark :
        (t : CondType) (r : Reason) (v : Severity) (f : Format) (a : List String)
        → Keeps (On k Blocked) (marks_false k {Spec = Spec} {Status = Status} {R = R} t r v f a)
    unfolding marks_false
    Keeps-unmark t r v f a = Keeps-change k Blocked _ λ cs b. Blocked-set_false l t r v f a cs b

    pub Keeps-mirror :
        (t : CondType) (o : Option Condition)
        → ((x : Condition) → o ≡ some x → x.type ≡ t)
        → type_eq t input_ready ≡ false
        → Keeps (On k Blocked) (sets k {Spec = Spec} {Status = Status} {R = R} o)
    unfolding sets change
    Keeps-mirror t none i n = record { at = λ s b. b }
    Keeps-mirror t (some x) i n = record {
      at = λ s b. Blocked-set l x _ (λ e _. cc (n, type_eq_refl input_ready, i x refl, e)) b;
    }

  module _ {Spec Status : Type 0} (l : ConditionsLaws k.conditions) where
    pub Keeps-prepare :
        (conditions : List Condition)
        → Keeps (On k Blocked) (prepare k {Spec = Spec} {Status = Status} conditions)
    unfolding prepare ◌>>=◌ the_object set_meta change exit_if exit pure
    Keeps-prepare conditions = record {
      at = λ s b. elim (Bool-cases s.instance.meta.deleting) [
        | inl d ↦ rw (d, Blocked-not_nil l _ b) b
        | inr d ↦ elim (Bool-cases (k.add_finalizer s.instance.meta.finalizers k.finalizer).0) [
          | inl a ↦ rw (d, a) b
          | inr a ↦ rw (d, a, Blocked-not_nil l _ b) b
        ]
      ];
    }
