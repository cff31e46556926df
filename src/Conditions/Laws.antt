-- ===== src/Conditions/Laws.antt =====
-- What the marking functions do to the status of each condition.
use ceilometer_operator.Prelude.{String, ◌≡◌, refl, true, false, some, List, arith, if◌then◌else◌}
use ceilometer_operator.Conditions.{
  CondType, CondType-discrete, Severity, Reason, Format, condition_true, condition_false,
  condition_unknown, type_eq, ConditionsApi, ConditionsLaws, status_at, mark_true, set_false,
  mark_unknown,
}

pub type_eq_refl : (t : CondType) → type_eq t t ≡ true
unfolding type_eq
type_eq_refl t =
    elim (CondType-discrete t t) as (λ d. elim d [ yes p ↦ true | no p ↦ false ] ≡ true) [
      | yes p ↦ refl
      | no n ↦ absurd (n refl)
    ]

pub type_eq-eq : (t u : CondType) → type_eq t u ≡ true → t ≡ u
unfolding type_eq
type_eq-eq t u =
    elim (CondType-discrete t u) as (λ d. elim d [ yes p ↦ true | no p ↦ false ] ≡ true → t ≡ u) [
      | yes p ↦ λ _. p
      | no n ↦ λ e. cc
    ]

module _ (c : ConditionsApi) (l : ConditionsLaws c) where
  pub get-mark_true :
      (t : CondType) (f : Format) (cs : c.Conditions) (u : CondType)
      → c.get (mark_true c t f cs) u
        ≡ (if type_eq t u then some (c.true_condition t f) else c.get cs u)
  unfolding mark_true
  get-mark_true t f cs u = rw (l.get-set, l.true_type)

  pub get-set_false :
      (t : CondType) (r : Reason) (v : Severity) (f : Format) (a : List String)
      → (cs : c.Conditions) (u : CondType)
      → c.get (set_false c t r v f a cs) u
        ≡ (if type_eq t u then some (c.false_condition t r v f a) else c.get cs u)
  unfolding set_false
  get-set_false t r v f a cs u = rw (l.get-set, l.false_type)

  pub get-mark_unknown :
      (t : CondType) (r : Reason) (f : Format) (cs : c.Conditions) (u : CondType)
      → c.get (mark_unknown c t r f cs) u
        ≡ (if type_eq t u then some (c.unknown_condition t r f) else c.get cs u)
  unfolding mark_unknown
  get-mark_unknown t r f cs u = rw (l.get-set, l.unknown_type)

  pub status_at-mark_true :
      (t : CondType) (f : Format) (cs : c.Conditions) (u : CondType)
      → status_at c (mark_true c t f cs) u
        ≡ (if type_eq t u then some condition_true else status_at c cs u)
  unfolding status_at
  status_at-mark_true t f cs u = rw get-mark_true (ground (arith, l.true_status t f))

  pub status_at-set_false :
      (t : CondType) (r : Reason) (v : Severity) (f : Format) (a : List String)
      → (cs : c.Conditions) (u : CondType)
      → status_at c (set_false c t r v f a cs) u
        ≡ (if type_eq t u then some condition_false else status_at c cs u)
  unfolding status_at
  status_at-set_false t r v f a cs u = rw get-set_false (ground (arith, l.false_status t r v f a))

  pub status_at-mark_unknown :
      (t : CondType) (r : Reason) (f : Format) (cs : c.Conditions) (u : CondType)
      → status_at c (mark_unknown c t r f cs) u
        ≡ (if type_eq t u then some condition_unknown else status_at c cs u)
  unfolding status_at
  status_at-mark_unknown t r f cs u = rw get-mark_unknown (ground (arith, l.unknown_status t r f))
