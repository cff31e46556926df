-- ===== src/Cluster/Waiting.antt =====
-- Which conditions of an object are not true yet, and how the statements of a pass that succeeds
-- shorten that list.
use ceilometer_operator.Prelude.{
  [], ◌∷◌, ◌≡◌, ◌⊎◌, inl, inr, refl, sym, ◌∙◌, subst, Bool, true, false, Option, none, some, List,
  ◌||◌,
}
use ceilometer_operator.Go.{pure, ◌>>=◌}
use ceilometer_operator.Go.Total.{Total, Total-bind, Total-given}
use ceilometer_operator.Conditions.{
  CondType, Condition, Format, condition_true, type_eq, ready, ConditionsLaws, mark_true,
}
use ceilometer_operator.Object.{Ret, ret, done, pending}
use ceilometer_operator.Cluster.{
  Cluster, Stmt, ask, the_object, set_status, change, marks_true, sets, stop_unless_done,
}
use ceilometer_operator.Cluster.Marks.{St}

-- a type that is in a list
abbrev pub listed : CondType → List CondType → Bool
listed t [] = false
listed t (u ∷ us) = type_eq u t || listed t us

-- nothing is known of a status
abbrev pub Any : {A : Type 0} → A → Type 0
Any x = Unit

module _ (k : Cluster) where
  open k.conditions use {Conditions, get, set}

  -- A condition that is not true is `Ready` or of one of these types.
  pub record Waiting (us : List CondType) (cs : Conditions) : Type 0 where
    pub true_or_listed :
        (t : CondType) (x : Condition)
        → type_eq t ready ≡ false
        → get cs t ≡ some x
        → (x.status ≡ condition_true) ⊎ (listed t us ≡ true)

  module _ (l : ConditionsLaws k.conditions) where
    -- A condition that is set to true is waited for no longer.
    pub Waiting-set :
        (x : Condition) (us : List CondType) (cs : Conditions)
        → x.status ≡ condition_true
        → Waiting (x.type ∷ us) cs
        → Waiting us (set (some x) cs)
    Waiting-set x us cs p h = record {
      true_or_listed = λ t y n g. each t y n g (type_eq x.type t) refl;
    }
      where
        same : (y : Condition) → some x ≡ some y → y.status ≡ condition_true
        same y e = cc (e, p)

        each :
            (t : CondType) (y : Condition)
            → type_eq t ready ≡ false
            → get (set (some x) cs) t ≡ some y
            → (b : Bool) → type_eq x.type t ≡ b
            → (y.status ≡ condition_true) ⊎ (listed t us ≡ true)
        each t y n g true e = inl (same y (sym (l.get-set x cs t ∙ rw e refl) ∙ g))
        each t y n g false e =
            elim (h.true_or_listed t y n (sym (l.get-set x cs t ∙ rw e refl) ∙ g)) [
              | inl q ↦ inl q
              | inr q ↦ inr (rw e at q)
            ]

    pub Waiting-mark_true :
        (t : CondType) (f : Format) (us : List CondType) (cs : Conditions)
        → Waiting (t ∷ us) cs
        → Waiting us (mark_true k.conditions t f cs)
    unfolding mark_true
    Waiting-mark_true t f us cs h =
        Waiting-set _ us cs (l.true_status t f)
          (subst (λ (u : CondType). Waiting (u ∷ us) cs) (sym (l.true_type t f)) h)

  -- A state of the cluster in which all goes well, what is known of the status of the object, and
  -- what is waited for in the object.
  module _ (Good : k.World → Type 0) {Spec Status : Type 0} (Known : Status → Type 0) where
    abbrev pub FineOn : (Conditions → Type 0) → St k Spec Status → Type 0
    FineOn Q s = Good s.world × Known s.instance.status × Q s.instance.conditions

    abbrev pub Fine : List CondType → St k Spec Status → Type 0
    Fine us = FineOn (Waiting us)

    module _ {R : Type 0} {T : R → St k Spec Status → Type 0} where
      -- An answer of the API, of which `F` is known.
      pub Total-ask :
          {A : Type 0} (F : A → Type 0) (Q : Conditions → Type 0) (f : k.World → A × k.World)
          → ((w : k.World) → Good w → F (f w).0 × Good (f w).1)
          → Total (FineOn Q) (ask k f) (λ a s. F a × FineOn Q s) T
      unfolding ask
      Total-ask F Q f h = record {
        at = λ s p. let (a, good) = h s.world p.0 in (a, (good, p.1, p.2));
      }

      pub Total-ask_bind :
          {A B : Type 0} (F : A → Type 0) (Q : Conditions → Type 0)
          (N : B → St k Spec Status → Type 0)
          → (f : k.World → A × k.World) (g : A → Stmt k Spec Status R B)
          → ((w : k.World) → Good w → F (f w).0 × Good (f w).1)
          → ((a : A) → F a → Total (FineOn Q) (g a) N T)
          → Total (FineOn Q) (ask k f >>= g) N T
      Total-ask_bind F Q N f g h next_ok =
          Total-bind _ _ _ _ (Total-ask F Q f h) λ a. Total-given _ (next_ok a)

      pub Total-the_object : (P : St k Spec Status → Type 0) → Total P (the_object k) (λ _. P) T
      unfolding the_object
      Total-the_object P = record { at = λ s p. p }

      -- what is known of the status is known of that of the object that is read
      pub Total-the_object_known :
          (Q : Conditions → Type 0)
          → Total (FineOn Q) (the_object k) (λ o s. Known o.status × FineOn Q s) T
      unfolding the_object
      Total-the_object_known Q = record { at = λ s p. (p.1, p) }

      pub Total-set_status :
          (us : List CondType) (f : Status → Status)
          → ((t : Status) → Known t → Known (f t))
          → Total (Fine us) (set_status k f) (λ _. Fine us) T
      unfolding set_status
      Total-set_status us f h = record {
        at = λ s (good, known, waits). (good, h s.instance.status known, waits);
      }

      pub Total-marks_true :
          (l : ConditionsLaws k.conditions) (t : CondType) (f : Format) (us : List CondType)
          → Total (Fine (t ∷ us)) (marks_true k t f) (λ _. Fine us) T
      unfolding marks_true change
      Total-marks_true l t f us = record {
        at = λ s p. (p.0, p.1, Waiting-mark_true l t f us s.instance.conditions p.2);
      }

      -- The condition of another object is true.
      pub Total-sets :
          (l : ConditionsLaws k.conditions) (t : CondType) (o : Option Condition)
          (us : List CondType)
          → (x : Condition) × (o ≡ some x) × (x.type ≡ t) × (x.status ≡ condition_true)
          → Total (Fine (t ∷ us)) (sets k o) (λ _. Fine us) T
      unfolding sets change
      Total-sets l t o us (x, e, q, p) =
          subst (λ (y : Option Condition). Total (Fine (t ∷ us)) (sets k y) (λ _. Fine us) T)
            (sym e)
            (record {
              at = λ s h. (
                h.0,
                h.1,
                Waiting-set l x us s.instance.conditions p
                    (subst (λ (u : CondType). Waiting (u ∷ us) s.instance.conditions) (sym q) h.2),
              );
            })

    -- `ctrl.Result{}` and no error let a pass go on.
    pub Total-stop_unless_done :
        {T : Ret k.Error → St k Spec Status → Type 0} (P : St k Spec Status → Type 0)
        → (r : Ret k.Error) → r ≡ ret done none
        → Total P (stop_unless_done k r) (λ _. P) T
    unfolding stop_unless_done pending pure
    Total-stop_unless_done {T} P r e =
        subst (λ (x : Ret k.Error). Total P (stop_unless_done k x) (λ _. P) T) (sym e)
          (record { at = λ s p. p })
