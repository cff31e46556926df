-- ===== src/Cluster/Marks.antt =====
-- Postconditions of the statements that every controller is made of, where what holds before and
-- after is about the conditions of the object in memory.
use ceilometer_operator.Prelude.{
  ◌≡◌, refl, String, Bool, true, false, Option, none, some, List, if◌then◌else◌,
}
use ceilometer_operator.Go.{◌>>=◌}
use ceilometer_operator.Go.Laws.{Keeps}
use ceilometer_operator.Go.Ensures.{Ensures}
use ceilometer_operator.Conditions.{
  CondType, Reason, Severity, Format, Status, Condition, condition_true, type_eq, ConditionsLaws,
  status_at,
}
use ceilometer_operator.Conditions.Laws.{type_eq_refl, status_at-mark_true, status_at-set_false}
use ceilometer_operator.Object.{Meta, State}
use ceilometer_operator.Cluster.{
  Cluster, Obj, Stmt, ask, the_object, set_status, set_spec, set_meta, change, marks_true,
  marks_false, sets,
}

module _ (k : Cluster) where
  open k.conditions use {Conditions}

  abbrev pub St : Type 0 → Type 0 → Type 0
  St Spec Status = State k.World (Obj k Spec Status)

  or_true :
      (b : Bool) (o : Option Status)
      → o ≡ some condition_true
      → (if b then some condition_true else o) ≡ some condition_true
  or_true true o q = refl
  or_true false o q = q

  -- a predicate on conditions, of a state
  abbrev pub On : {Spec Status : Type 0} → (Conditions → Type 0) → St Spec Status → Type 0
  On P s = P s.instance.conditions

  -- a condition that is true
  abbrev pub True : CondType → Conditions → Type 0
  True t cs = status_at k.conditions cs t ≡ some condition_true

  module _ {Spec Status R : Type 0} {T : R → St Spec Status → Type 0}
      (P : Conditions → Type 0) where
    pub Ensures-ask :
        {A : Type 0} (f : k.World → A × k.World) → Ensures (On P) (ask k f) (λ (_ : A). On P) T
    unfolding ask
    Ensures-ask f = record { at = λ s h. h }

    -- an answer of the API, of which something is known
    pub Ensures-ask_bind :
        {A B : Type 0} {N : B → St Spec Status → Type 0}
        → (f : k.World → A × k.World) (g : A → Stmt k Spec Status R B)
        → ((w : k.World) → Ensures (On P) (g (f w).0) N T)
        → Ensures (On P) (ask k f >>= g) N T
    unfolding ask ◌>>=◌
    Ensures-ask_bind f g h = record { at = λ s p. (h s.world).at _ p }

    pub Ensures-the_object : Ensures (On P) (the_object k) (λ _. On P) T
    unfolding the_object
    Ensures-the_object = record { at = λ s h. h }

    pub Ensures-set_status : (f : Status → Status) → Ensures (On P) (set_status k f) (λ _. On P) T
    unfolding set_status
    Ensures-set_status f = record { at = λ s h. h }

    pub Ensures-set_spec : (f : Spec → Spec) → Ensures (On P) (set_spec k f) (λ _. On P) T
    unfolding set_spec
    Ensures-set_spec f = record { at = λ s h. h }

    pub Ensures-change :
        (Q : Conditions → Type 0) (f : Conditions → Conditions)
        → ((cs : Conditions) → P cs → Q (f cs))
        → Ensures (On P) (change k f) (λ _. On Q) T
    unfolding change
    Ensures-change Q f h = record { at = λ s p. h s.instance.conditions p }

    -- A condition is marked true: it is true afterwards, and so is what was true before.
    pub Ensures-marks_true :
        (l : ConditionsLaws k.conditions) (Q : Conditions → Type 0) (t : CondType) (f : Format)
        → ((cs cs' : Conditions)
            → P cs
            → True t cs'
            → ((u : CondType) → True u cs → True u cs')
            → Q cs')
        → Ensures (On P) (marks_true k t f) (λ _. On Q) T
    unfolding marks_true
    Ensures-marks_true l Q t f h = Ensures-change Q _ λ cs p.
        h cs _ p (rw (status_at-mark_true k.conditions l, type_eq_refl) refl)
          λ u q. rw (status_at-mark_true k.conditions l) (or_true (type_eq t u) _ q)

    pub Ensures-marks_false :
        (l : ConditionsLaws k.conditions) (t : CondType) (r : Reason) (v : Severity) (f : Format)
        → (a : List String) (Q : Conditions → Type 0)
        → ((cs cs' : Conditions)
            → P cs
            → ((u : CondType) → type_eq t u ≡ false → True u cs → True u cs')
            → Q cs')
        → Ensures (On P) (marks_false k t r v f a) (λ _. On Q) T
    unfolding marks_false
    Ensures-marks_false l t r v f a Q h =
        Ensures-change Q _ λ cs p. h cs _ p λ u n q. rw (status_at-set_false k.conditions l, n) q

  module _ {Spec Status R : Type 0} (P : Conditions → Type 0) where
    pub Keeps-ask :
        {A : Type 0} (f : k.World → A × k.World)
        → Keeps (On P) (ask k {Spec = Spec} {Status = Status} {R = R} f)
    unfolding ask
    Keeps-ask f = record { at = λ s h. h }

    pub Keeps-the_object : Keeps (On P) (the_object k {Spec = Spec} {Status = Status} {R = R})
    unfolding the_object
    Keeps-the_object = record { at = λ s h. h }

    pub Keeps-set_status :
        (f : Status → Status)
        → Keeps (On P) (set_status k {Spec = Spec} {Status = Status} {R = R} f)
    unfolding set_status
    Keeps-set_status f = record { at = λ s h. h }

    pub Keeps-set_spec :
        (f : Spec → Spec) → Keeps (On P) (set_spec k {Spec = Spec} {Status = Status} {R = R} f)
    unfolding set_spec
    Keeps-set_spec f = record { at = λ s h. h }

    pub Keeps-marks_false :
        (l : ConditionsLaws k.conditions) (t : CondType) (r : Reason) (v : Severity) (f : Format)
        → (a : List String)
        → ((cs cs' : Conditions)
            → P cs
            → ((u : CondType) → type_eq t u ≡ false → True u cs → True u cs')
            → P cs')
        → Keeps (On P) (marks_false k {Spec = Spec} {Status = Status} {R = R} t r v f a)
    unfolding marks_false change
    Keeps-marks_false l t r v f a h = record {
      at = λ s p. h s.instance.conditions _ p λ u n q. rw (status_at-set_false k.conditions l, n) q;
    }

    pub Keeps-set_meta :
        (f : Meta → Meta) → Keeps (On P) (set_meta k {Spec = Spec} {Status = Status} {R = R} f)
    unfolding set_meta
    Keeps-set_meta f = record { at = λ s h. h }

    pub Keeps-change :
        (f : Conditions → Conditions)
        → ((cs : Conditions) → P cs → P (f cs))
        → Keeps (On P) (change k {Spec = Spec} {Status = Status} {R = R} f)
    unfolding change
    Keeps-change f h = record { at = λ s p. h s.instance.conditions p }

    -- an answer of the API, of which something is known
    pub Keeps-ask_bind :
        {A B : Type 0} (f : k.World → A × k.World) (g : A → Stmt k Spec Status R B)
        → ((w : k.World) → Keeps (On P) (g (f w).0))
        → Keeps (On P) (ask k f >>= g)
    unfolding ask ◌>>=◌
    Keeps-ask_bind f g h = record { at = λ s p. (h s.world).at _ p }

    pub Keeps-marks_true :
        (l : ConditionsLaws k.conditions) (t : CondType) (f : Format)
        → ((cs cs' : Conditions) → P cs → ((u : CondType) → True u cs → True u cs') → P cs')
        → Keeps (On P) (marks_true k {Spec = Spec} {Status = Status} {R = R} t f)
    unfolding marks_true change
    Keeps-marks_true l t f h = record {
      at = λ s p.
          h s.instance.conditions _ p
            λ u q. rw (status_at-mark_true k.conditions l) (or_true (type_eq t u) _ q);
    }

    pub Keeps-sets :
        (l : ConditionsLaws k.conditions) (t : CondType) (o : Option Condition)
        → ((x : Condition) → o ≡ some x → x.type ≡ t)
        → ((cs cs' : Conditions)
            → P cs
            → ((u : CondType) → type_eq t u ≡ false → True u cs → True u cs')
            → P cs')
        → Keeps (On P) (sets k {Spec = Spec} {Status = Status} {R = R} o)
    unfolding sets change status_at
    Keeps-sets l t none i h = record { at = λ s p. p }
    Keeps-sets l t (some x) i h = record {
      at = λ s p. h s.instance.conditions _ p λ u n q. rw (l.get-set, i x refl, n) q;
    }
