-- ===== src/Go/Laws.antt =====
-- Invariants of Go functions, one rule for each way to build one. An invariant holds whether the
-- function goes on, returns or panics.
use ceilometer_operator.Prelude.{Bool, true, false, Option, none, some, if◌then◌else◌}
use ceilometer_operator.Go.{
  Flow, next, return, panic, Go, continue, pure, exit, crash, gets, call, ◌>>=◌, exit_if, Result,
  ok, err, check, check_error, deref,
}

-- `m` keeps `P`, however it ends
pub record Keeps {ℓ} {S R A : Type ℓ} (P : S → Type ℓ) (m : Go S R A) : Type ℓ where
  pub at : (before : S) → P before → P (m before).1

module _ {ℓ} {S R A : Type ℓ} {P : S → Type ℓ} where
  pub Keeps-pure : (value : A) → Keeps P (pure {R = R} value)
  unfolding pure
  Keeps-pure value = record { at = λ s h. h }

  pub Keeps-exit : (r : R) → Keeps P (exit {A = A} r)
  unfolding exit
  Keeps-exit r = record { at = λ s h. h }

  pub Keeps-crash : Keeps P (crash {R = R} {A = A})
  unfolding crash
  Keeps-crash = record { at = λ s h. h }

  pub Keeps-gets : (read : S → A) → Keeps P (gets {R = R} read)
  unfolding gets
  Keeps-gets read = record { at = λ before holds. holds }

  pub Keeps-if : (b : Bool) (m n : Go S R A) → Keeps P m → Keeps P n → Keeps P (if b then m else n)
  Keeps-if true m n km kn = km
  Keeps-if false m n km kn = kn

  pub Keeps-check :
      {E : Type ℓ} (r : Result E A) (f : E → Go S R A)
      → ((e : E) → Keeps P (f e))
      → Keeps P (check r f)
  unfolding check pure
  Keeps-check (ok a) f kf = record { at = λ s h. h }
  Keeps-check (err e) f kf = kf e

module _ {ℓ} {S R E : Type ℓ} {P : S → Type ℓ} where
  pub Keeps-check_error :
      (o : Option E) (f : E → Go S R (Unit {ℓ}))
      → ((e : E) → Keeps P (f e))
      → Keeps P (check_error o f)
  unfolding check_error
  Keeps-check_error none f kf = Keeps-pure tt
  Keeps-check_error (some e) f kf = kf e

  pub Keeps-deref : (o : Option E) → Keeps P (deref {R = R} o)
  unfolding deref
  Keeps-deref none = Keeps-crash
  Keeps-deref (some a) = Keeps-pure a

module _ {ℓ} {S R Q : Type ℓ} {P : S → Type ℓ} where
  pub Keeps-call : (m : Go S R R) → Keeps P m → Keeps P (call {Q = Q} m)
  unfolding call
  Keeps-call m km = record { at = km.at }

module _ {ℓ} {S R : Type ℓ} {P : S → Type ℓ} where
  pub Keeps-exit_if : (b : Bool) (r : R) → Keeps P (exit_if b r)
  unfolding exit_if
  Keeps-exit_if true r = Keeps-exit r
  Keeps-exit_if false r = Keeps-pure tt

module _ {ℓ} {S R A B : Type ℓ} {P : S → Type ℓ} where
  -- what follows a statement that has ended in one of the three ways
  continue-Keeps :
      (end : Flow R A) (rest : A → Go S R B) (now : S)
      → ((value : A) → Keeps P (rest value))
      → P now
      → P (continue end rest now).1
  continue-Keeps (next value) rest now each holds = (each value).at now holds
  continue-Keeps (return r) rest now each holds = holds
  continue-Keeps panic rest now each holds = holds

  pub Keeps-bind :
      (first : Go S R A) (rest : A → Go S R B)
      → Keeps P first
      → ((value : A) → Keeps P (rest value))
      → Keeps P (first >>= rest)
  unfolding ◌>>=◌
  Keeps-bind first rest here each = record {
    at = λ before holds.
        continue-Keeps (first before).0 rest (first before).1 each (here.at before holds);
  }

pub ruleset keeps_rules = (
  Keeps-pure, Keeps-exit, Keeps-crash, Keeps-gets, Keeps-if, Keeps-check, Keeps-call, Keeps-exit_if,
  Keeps-bind, Keeps-check_error, Keeps-deref,
)
