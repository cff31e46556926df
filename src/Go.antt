-- ===== src/Go.antt =====
-- The Go functions of the operator as a monad: a function mutates the state that it is given, and
-- goes on, returns early or panics. What was written before an early return stays written.
pub mod Laws
pub mod Ensures
pub mod Total
use ceilometer_operator.Prelude.{Bool, Option, none, some, if◌then◌else◌}

-- How a statement ends: control goes on with a value, the function returns, or it panics.
pub data Flow {ℓ} (R A : Type ℓ) : Type ℓ where
  next : A → Flow R A
  return : R → Flow R A
  panic : Flow R A

-- Statements of a function that returns an `R`.
abbrev pub Go {ℓ} : Type ℓ → Type ℓ → Type ℓ → Type ℓ
Go S R A = S → Flow R A × S

module _ {ℓ} {S R A : Type ℓ} where
  unfoldable pub pure : A → Go S R A
  pure a s = (next a, s)

  -- `return r`
  unfoldable pub exit : R → Go S R A
  exit r s = (return r, s)

  -- a nil dereference
  unfoldable pub crash : Go S R A
  crash s = (panic, s)

  unfoldable pub gets : (S → A) → Go S R A
  gets f s = (next (f s), s)

  -- a call that changes the state and yields a value
  unfoldable pub act : (S → A × S) → Go S R A
  act f s = let (a, s') = f s in (next a, s')

abbrev resume {ℓ} : {R Q : Type ℓ} → Flow R R → Flow Q R
resume (next r) = next r
resume (return r) = next r
resume panic = panic

module _ {ℓ} {S R Q : Type ℓ} where
  -- the call of a function whose body is `m`
  unfoldable pub call : Go S R R → Go S Q R
  call m s = let (r, s') = m s in (resume r, s')

module _ {ℓ} {S R A B : Type ℓ} where
  abbrev pub continue : Flow R A → (A → Go S R B) → Go S R B
  continue (next a) f s = f a s
  continue (return r) f s = (return r, s)
  continue panic f s = (panic, s)

  infixl 10 ◌>>=◌ ◌>>◌
  -- opening this opens the other statements too
  unfoldable pub ◌>>=◌ : Go S R A → (A → Go S R B) → Go S R B
  unfolding pure exit crash gets act call
  ◌>>=◌ first rest before = let (end, after) = first before in continue end rest after

  abbrev pub ◌>>◌ : Go S R A → Go S R B → Go S R B
  m >> n = m >>= λ _. n

module _ {ℓ} {S R : Type ℓ} where
  -- `if b { return r }`
  unfoldable pub exit_if : Bool → R → Go S R (Unit {ℓ})
  unfolding exit pure
  exit_if b r = if b then exit r else pure tt

  unfoldable pub modify : (S → S) → Go S R (Unit {ℓ})
  modify f s = (next tt, f s)

-- A Go pair `(value, error)`: the value is read only where the error is nil.
pub data Result {ℓ} (E A : Type ℓ) : Type ℓ where
  ok : A → Result E A
  err : E → Result E A

module _ {ℓ} {S R E A : Type ℓ} where
  -- `if err != nil { … }`, with the value otherwise
  unfoldable pub check : Result E A → (E → Go S R A) → Go S R A
  unfolding pure
  check (ok a) handler = pure a
  check (err e) handler = handler e

module _ {ℓ} {S R E : Type ℓ} where
  -- `if err != nil { … }`, of an error alone
  unfoldable pub check_error : Option E → (E → Go S R (Unit {ℓ})) → Go S R (Unit {ℓ})
  check_error none handler = pure tt
  check_error (some e) handler = handler e

  -- a pointer that is followed
  unfoldable pub deref : Option E → Go S R E
  deref none = crash
  deref (some a) = pure a
