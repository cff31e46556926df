-- ===== src/Cluster/Success.antt =====
-- Postconditions of a pass that is done: it returned no error and asked for no other pass.
use mathlib.Core.Bool.{false≢true}
use ceilometer_operator.Prelude.{
  [], ◌∷◌, String, ◌≡◌, refl, ap, Bool, true, false, Option, none, some, List, is_some, arith, sym,
  ◌∙◌, not, ◌&&◌,
}
use ceilometer_operator.Go.{◌>>◌, pure, exit_if}
use ceilometer_operator.Go.Laws.{Keeps}
use ceilometer_operator.Go.Ensures.{
  Ensures, Ensures-exit, Ensures-pure, Ensures-if, Ensures-bind, Ensures-exit_unless,
}
use ceilometer_operator.Conditions.{
  CondType, Condition, Reason, Severity, Format, type_eq, ConditionsLaws,
}
use ceilometer_operator.Object.{CtrlResult, pending, Ret, ret, done, after, seconds}
use ceilometer_operator.Cluster.{
  Cluster, change, marks_true, marks_false, sets, stop_by, stop_unless_done,
}
use ceilometer_operator.Cluster.Marks.{
  St, On, True, Ensures-marks_true, Keeps-marks_true, Keeps-marks_false, Keeps-sets,
}

-- a type that is not in a list
abbrev pub outside : CondType → List CondType → Bool
outside t [] = true
outside t (u ∷ us) = not (type_eq t u) && outside t us

module _ (k : Cluster) where
  open k.conditions use {Conditions}

  -- The conditions of these types are true.
  abbrev pub AllTrue : List CondType → Conditions → Type 0
  AllTrue [] cs = Unit
  AllTrue (t ∷ ts) cs = True k t cs × AllTrue ts cs

  AllTrue-same :
      (ts : List CondType) (cs cs' : Conditions)
      → ((u : CondType) → True k u cs → True k u cs')
      → AllTrue ts cs
      → AllTrue ts cs'
  AllTrue-same [] cs cs' h p = tt
  AllTrue-same (t ∷ ts) cs cs' h p = (h t p.0, AllTrue-same ts cs cs' h p.1)

  false_of_not : (b : Bool) → not b ≡ true → b ≡ false
  false_of_not true h = cc
  false_of_not false h = refl

  both_true : (a b : Bool) → (a && b) ≡ true → (a ≡ true) × (b ≡ true)
  both_true true true h = (refl, refl)
  both_true true false h = cc
  both_true false b h = cc

  AllTrue-others :
      (t : CondType) (ts : List CondType) (cs cs' : Conditions)
      → outside t ts ≡ true
      → ((u : CondType) → type_eq t u ≡ false → True k u cs → True k u cs')
      → AllTrue ts cs
      → AllTrue ts cs'
  AllTrue-others t [] cs cs' n h p = tt
  AllTrue-others t (u ∷ us) cs cs' n h p =
      let (here, there) = both_true (not (type_eq t u)) (outside t us) n in
      (h u (false_of_not (type_eq t u) here) p.0, AllTrue-others t us cs cs' there h p.1)

  is_done : (r : CtrlResult) → pending r ≡ false → r ≡ done
  unfolding pending
  is_done r h = ground (arith)

  none_left : (o : Option k.Error) → is_some o ≡ false → o ≡ none
  none_left none h = refl
  none_left (some e) h = cc

  module _ {Spec Status : Type 0} where
    -- what holds after a pass that is done
    abbrev pub IfDone : (Conditions → Type 0) → Ret k.Error → St k Spec Status → Type 0
    IfDone Q r s = r ≡ ret done none → On k Q s

    pub failed :
        (Q : Conditions → Type 0) (r : Ret k.Error)
        → is_some r.error ≡ true
        → (s : St k Spec Status) → IfDone Q r s
    failed Q r h s e = absurd (contra (r.error) h (ap (λ (q : Ret k.Error). q.error) e))
      where
        contra : (o : Option k.Error) → is_some o ≡ true → o ≡ none → ⊥
        contra none h q = cc
        contra (some e) h q = cc

    pub later :
        (Q : Conditions → Type 0) (s : St k Spec Status)
        → IfDone Q (ret (after (seconds 10)) none) s
    later Q s e = absurd (not_now (ap (λ (r : Ret k.Error). r.result.requeue_after) e))
      where
        not_now : seconds 10 ≡ 0 → ⊥
        not_now h = omega (arith, h)

    pub unfinished :
        (Q : Conditions → Type 0) (r : CtrlResult)
        → pending r ≡ true
        → (s : St k Spec Status) → IfDone Q (ret r none) s
    unfolding pending
    unfinished Q r h s e =
        absurd (false≢true (sym (ap (λ (q : Ret k.Error). pending q.result) e) ∙ h))

    pub Ensures-stop_unless_done :
        (P Q : Conditions → Type 0) (r : Ret k.Error)
        → Ensures
            (On k {Spec = Spec} {Status = Status} P)
            (stop_unless_done k r)
            (λ _. On k P)
            (IfDone Q)
    unfolding stop_unless_done
    Ensures-stop_unless_done P Q r = by_error r.result r.error
      where
        by_error :
            (result : CtrlResult) (o : Option k.Error)
            → Ensures
                (On k {Spec = Spec} {Status = Status} P)
                (stop_by k result o)
                (λ _. On k P)
                (IfDone Q)
        by_error result (some e) = Ensures-exit _ λ s p. failed Q _ refl s
        by_error result none =
            Ensures-if (pending result) _ (pure tt)
              (λ h. Ensures-exit _ λ s p. unfinished Q result h s) λ h. Ensures-pure tt λ s p. p

    -- A called function ended with `r`, and the pass goes on: then `r` says that it is done.
    pub Ensures-stop_unless_done_if :
        (P Q : Conditions → Type 0) (r : Ret k.Error)
        → Ensures (IfDone P r) (stop_unless_done k r) (λ _. On k P) (IfDone Q)
    unfolding stop_unless_done
    Ensures-stop_unless_done_if P Q r = by_error r.result r.error
      where
        by_error :
            (result : CtrlResult) (o : Option k.Error)
            → Ensures (IfDone P (ret result o)) (stop_by k result o) (λ _. On k P) (IfDone Q)
        by_error result (some e) = Ensures-exit _ λ s p. failed Q _ refl s
        by_error result none =
            Ensures-if (pending result) _ (pure tt)
              (λ h. Ensures-exit _ λ s p. unfinished Q result h s)
              λ h. Ensures-pure tt λ s p. p (rw (is_done result h) refl)

    -- The same, where the result is looked at before the error.
    pub Ensures-stop_if_pending :
        (P Q : Conditions → Type 0) (r : Ret k.Error)
        → Ensures
            (IfDone P r)
            (do exit_if (pending r.result) (ret r.result none); exit_if (is_some r.error) r)
            (λ _. On k P)
            (IfDone Q)
    Ensures-stop_if_pending P Q r =
        Ensures-bind (λ _ s. (pending r.result ≡ false) × IfDone P r s) _ _ _
          (Ensures-exit_unless _ _ _ (λ s h p. unfinished Q r.result h s) λ s h p. (h, p))
          λ _.
            Ensures-exit_unless _ _ _ (λ s h p. failed Q r h s)
              λ s h p. p.1 (rw (is_done r.result p.0, none_left r.error h) refl)

  module _ {Spec Status R : Type 0} {T : R → St k Spec Status → Type 0}
      (l : ConditionsLaws k.conditions) (ts : List CondType) where
    -- The conditions that are true stay so, with one more.
    pub Ensures-one_more :
        (t : CondType) (f : Format)
        → Ensures (On k (AllTrue ts)) (marks_true k t f) (λ _. On k (AllTrue (t ∷ ts))) T
    Ensures-one_more t f =
        Ensures-marks_true k _ l (AllTrue (t ∷ ts)) t f
          λ cs cs' p q h. (q, AllTrue-same ts cs cs' h p)

    -- The conditions that are true stay so.
    pub Ensures-marks_still :
        (t : CondType) (f : Format)
        → Ensures (On k (AllTrue ts)) (marks_true k t f) (λ _. On k (AllTrue ts)) T
    Ensures-marks_still t f =
        Ensures-marks_true k _ l (AllTrue ts) t f λ cs cs' p q h. AllTrue-same ts cs cs' h p

  module _ {Spec Status R : Type 0} (l : ConditionsLaws k.conditions) (ts : List CondType) where
    pub AllTrue-marks_true :
        (t : CondType) (f : Format)
        → Keeps (On k (AllTrue ts)) (marks_true k {Spec = Spec} {Status = Status} {R = R} t f)
    AllTrue-marks_true t f =
        Keeps-marks_true k (AllTrue ts) l t f λ cs cs' p h. AllTrue-same ts cs cs' h p

    pub AllTrue-marks_false :
        (t : CondType) (r : Reason) (v : Severity) (f : Format) (a : List String)
        → outside t ts ≡ true
        → Keeps
            (On k (AllTrue ts))
            (marks_false k {Spec = Spec} {Status = Status} {R = R} t r v f a)
    AllTrue-marks_false t r v f a n =
        Keeps-marks_false k (AllTrue ts) l t r v f a λ cs cs' p h. AllTrue-others t ts cs cs' n h p

    pub AllTrue-sets :
        (t : CondType) (o : Option Condition)
        → ((x : Condition) → o ≡ some x → x.type ≡ t)
        → outside t ts ≡ true
        → Keeps (On k (AllTrue ts)) (sets k {Spec = Spec} {Status = Status} {R = R} o)
    AllTrue-sets t o i n =
        Keeps-sets k (AllTrue ts) l t o i λ cs cs' p h. AllTrue-others t ts cs cs' n h p

  module _ {Spec Status R : Type 0} {T : R → St k Spec Status → Type 0}
      (l : ConditionsLaws k.conditions) (ts : List CondType) where
    -- The condition of another object is shown, if there is one.
    pub Ensures-sets :
        (t : CondType) (o : Option Condition)
        → ((x : Condition) → o ≡ some x → x.type ≡ t)
        → outside t ts ≡ true
        → Ensures (On k (AllTrue ts)) (sets k o) (λ _. On k (AllTrue ts)) T
    unfolding sets change
    Ensures-sets t none i n = record { at = λ s p. p }
    Ensures-sets t (some x) i n = record { at = (AllTrue-sets {R = R} l ts t (some x) i n).at }
