-- ===== src/Object/Ready.antt =====
-- The deferred function: what it makes of the conditions.
use ceilometer_operator.Prelude.{
  ◌≡◌, ◌≢◌, ◌↔◌, inl, inr, refl, sym, ◌∙◌, false, Option, none, some, if◌then◌else◌, Bool-cases,
}
use mathlib.Core.Bool.{false≢true}
use ceilometer_operator.Conditions.{
  CondType, Condition, ready, lib, init_reason, condition_true, condition_unknown, type_eq,
  ConditionsApi, ConditionsLaws, status_at, mark_true, mark_unknown,
}
use ceilometer_operator.Conditions.Laws.{
  type_eq_refl, type_eq-eq, get-mark_true, get-mark_unknown, status_at-mark_true,
  status_at-mark_unknown,
}
use ceilometer_operator.Object.{update_ready}

module _ (c : ConditionsApi) where
  -- every condition but `ready` is true
  abbrev pub SubConditionsTrue : c.Conditions → Type 0
  SubConditionsTrue cs =
      (t : CondType) (x : Condition)
      → type_eq t ready ≡ false
      → c.get cs t ≡ some x
      → x.status ≡ condition_true

type_eq_comm : (t u : CondType) → type_eq t u ≡ type_eq u t
type_eq_comm t u = elim (Bool-cases (type_eq t u)) [
  | inl e ↦ rw (type_eq-eq t u e) refl
  | inr e ↦ elim (Bool-cases (type_eq u t)) [
    | inl f ↦ rw (type_eq-eq u t f) refl
    | inr f ↦ cc (e, f)
  ]
]

module _ (c : ConditionsApi) (l : ConditionsLaws c) (cs : c.Conditions) where
  all_sub-mark_unknown :
      c.all_sub_condition_is_true cs ≡ false
      → c.all_sub_condition_is_true (mark_unknown c ready init_reason (lib "ReadyInitMessage") cs)
        ≡ false
  all_sub-mark_unknown h = elim (Bool-cases (c.all_sub_condition_is_true marked)) [
    | inr e ↦ e
    | inl e ↦ absurd (
        false≢true (
          sym h
          ∙ (l.all_sub_iff cs).1
              (λ t x n g. (l.all_sub_iff marked).0 e t x n (get_marked t n ∙ g))))
  ]
    where
      marked : c.Conditions
      marked = mark_unknown c ready init_reason (lib "ReadyInitMessage") cs

      get_marked : (t : CondType) → type_eq t ready ≡ false → c.get marked t ≡ c.get cs t
      get_marked t n =
          get-mark_unknown c l ready init_reason (lib "ReadyInitMessage") cs t
          ∙ (rw (type_eq_comm ready t, n) refl)

  -- the condition that `mirror` finds, if it finds one, is put in
  status-mirror :
      (cs' : c.Conditions) (o : Option Condition)
      → c.mirror ready cs' ≡ o
      → c.all_sub_condition_is_true cs' ≡ false
      → status_at c cs' ready ≢ some condition_true
      → status_at c (c.set o cs') ready ≢ some condition_true
  unfolding status_at
  status-mirror cs' none p a n = rw l.set-none n
  status-mirror cs' (some x) p a n =
      rw (l.get-set, l.mirror_type ready cs' x p, type_eq_refl)
        (λ e. l.mirror_worst ready cs' x a p (cc))

  -- The deferred function makes `Ready` true exactly if every other condition is true.
  pub update_ready_iff :
      (status_at c (update_ready c cs) ready ≡ some condition_true) ↔ SubConditionsTrue c cs
  unfolding update_ready
  update_ready_iff = elim (Bool-cases (c.all_sub_condition_is_true cs)) [
    | inl e ↦ (
      λ _. (l.all_sub_iff cs).0 e,
      λ _.
          rw e (status_at-mark_true c l ready (lib "ReadyMessage") cs ready ∙ rw type_eq_refl refl),
    )
    | inr e ↦ (
      λ h. absurd (not_true e (rw e at h)),
      λ h. absurd (false≢true (sym e ∙ (l.all_sub_iff cs).1 h)),
    )
  ]
    where
      marked : c.Conditions
      marked = mark_unknown c ready init_reason (lib "ReadyInitMessage") cs

      unknown : status_at c marked ready ≡ some condition_unknown
      unknown =
          status_at-mark_unknown c l ready init_reason (lib "ReadyInitMessage") cs ready
          ∙ rw type_eq_refl refl

      not_true :
          c.all_sub_condition_is_true cs ≡ false
          → status_at c (c.set (c.mirror ready marked) marked) ready ≢ some condition_true
      not_true e =
          status-mirror marked (c.mirror ready marked) refl (all_sub-mark_unknown e)
            (λ h. cc (unknown, h))

  -- The deferred function keeps every condition but `Ready` as it was.
  pub get-update_ready :
      (t : CondType) → type_eq t ready ≡ false → c.get (update_ready c cs) t ≡ c.get cs t
  unfolding update_ready
  get-update_ready t n = elim (Bool-cases (c.all_sub_condition_is_true cs)) [
    | inl e ↦ rw e (get-mark_true c l ready (lib "ReadyMessage") cs t ∙ keep _)
    | inr e ↦ rw e (
        get-set_mirror (c.mirror ready marked) refl
        ∙ get-mark_unknown c l ready init_reason (lib "ReadyInitMessage") cs t
        ∙ keep _)
  ]
    where
      marked : c.Conditions
      marked = mark_unknown c ready init_reason (lib "ReadyInitMessage") cs

      keep : (x : Option Condition) → (if type_eq ready t then x else c.get cs t) ≡ c.get cs t
      keep x = rw (type_eq_comm ready t, n) refl

      get-set_mirror :
          (o : Option Condition)
          → c.mirror ready marked ≡ o
          → c.get (c.set o marked) t ≡ c.get marked t
      get-set_mirror none p = rw l.set-none refl
      get-set_mirror (some x) p =
          rw (l.get-set, l.mirror_type ready marked x p, type_eq_comm ready t, n) refl

  -- Conditions that were nil are nil no longer.
  pub is_nil-update_ready : c.is_nil (update_ready c cs) ≡ false
  unfolding update_ready mark_true mark_unknown
  is_nil-update_ready = elim (Bool-cases (c.all_sub_condition_is_true cs)) [
    | inl e ↦ rw (e, l.is_nil-set) refl
    | inr e ↦ rw e (after_set _ (l.is_nil-set _ cs))
  ]
    where
      after_set :
          {cs' : c.Conditions} (o : Option Condition)
          → c.is_nil cs' ≡ false
          → c.is_nil (c.set o cs') ≡ false
      after_set none n = rw l.set-none n
      after_set (some x) n = l.is_nil-set x _
