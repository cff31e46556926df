-- ===== src/Go/Ensures.antt =====
-- Postconditions of Go functions, one rule for each way to build one. A postcondition has a part for
-- a function that goes on and a part for one that returns; a panic promises nothing.
use ceilometer_operator.Prelude.{◌≡◌, refl, Bool, true, false, Option, none, some, if◌then◌else◌}
use ceilometer_operator.Go.Laws.{Keeps}
use ceilometer_operator.Go.{
  Flow, next, return, panic, Go, continue, resume, pure, exit, call, ◌>>=◌, exit_if, Result, ok,
  err, check, check_error,
}

abbrev pub Ends {ℓ} : {S R A : Type ℓ} → (A → S → Type ℓ) → (R → S → Type ℓ) → Flow R A → S → Type ℓ
Ends N T (next a) s = N a s
Ends N T (return r) s = T r s
Ends N T panic s = Unit

-- From a state where `P` holds, `m` goes on with `N` or returns with `T`.
pub record Ensures {ℓ} {S R A : Type ℓ} (P : S → Type ℓ) (m : Go S R A) (N : A → S → Type ℓ)
    (T : R → S → Type ℓ) : Type ℓ where
  pub at : (s : S) → P s → Ends N T (m s).0 (m s).1

module _ {ℓ} {S R A : Type ℓ} {P : S → Type ℓ} {N : A → S → Type ℓ} {T : R → S → Type ℓ} where
  pub Ensures-pure : (a : A) → ((s : S) → P s → N a s) → Ensures P (pure a) N T
  unfolding pure
  Ensures-pure a h = record { at = h }

  pub Ensures-exit : (r : R) → ((s : S) → P s → T r s) → Ensures P (exit r) N T
  unfolding exit
  Ensures-exit r h = record { at = h }

  pub Ensures-if :
      (b : Bool) (m n : Go S R A)
      → (b ≡ true → Ensures P m N T)
      → (b ≡ false → Ensures P n N T)
      → Ensures P (if b then m else n) N T
  Ensures-if true m n km kn = km refl
  Ensures-if false m n km kn = kn refl

  pub Ensures-check :
      {E : Type ℓ} (r : Result E A) (f : E → Go S R A)
      → ((a : A) → (s : S) → P s → N a s)
      → ((e : E) → Ensures P (f e) N T)
      → Ensures P (check r f) N T
  unfolding check pure
  Ensures-check (ok a) f ka kf = record { at = λ s h. ka a s h }
  Ensures-check (err e) f ka kf = kf e

module _ {ℓ} {S R A B : Type ℓ} {P : S → Type ℓ} {T : R → S → Type ℓ} where
  pub Ensures-bind :
      (M : A → S → Type ℓ) (N : B → S → Type ℓ) (m : Go S R A) (f : A → Go S R B)
      → Ensures P m M T
      → ((a : A) → Ensures (M a) (f a) N T)
      → Ensures P (m >>= f) N T
  unfolding ◌>>=◌
  Ensures-bind M N m f km kf = record { at = λ s h. let (r, s') = m s in after r s' (km.at s h) }
    where
      after : (r : Flow R A) (s : S) → Ends M T r s → Ends N T (continue r f s).0 (continue r f s).1
      after (next a) s h = (kf a).at s h
      after (return r) s h = h
      after panic s h = tt

module _ {ℓ} {S R E : Type ℓ} {P : S → Type ℓ} {T : R → S → Type ℓ} where
  pub Ensures-check_error :
      (o : Option E) (f : E → Go S R (Unit {ℓ}))
      → ((e : E) → o ≡ some e → Ensures P (f e) (λ _. P) T)
      → Ensures P (check_error o f) (λ _. P) T
  unfolding check_error pure
  Ensures-check_error none f kf = record { at = λ s h. h }
  Ensures-check_error (some e) f kf = kf e refl

module _ {ℓ} {S R : Type ℓ} {P : S → Type ℓ} {T : R → S → Type ℓ} where
  -- a called function that keeps what holds before
  pub Ensures-call-Keeps : {Q : Type ℓ} (m : Go S Q Q) → Keeps P m → Ensures P (call m) (λ _. P) T
  unfolding call
  Ensures-call-Keeps {Q} m km = record { at = λ s h. ends (m s).0 (m s).1 (km.at s h) }
    where
      ends : (r : Flow Q Q) (s : S) → P s → Ends (λ (_ : Q). P) T (resume r) s
      ends (next a) s h = h
      ends (return a) s h = h
      ends panic s h = tt

  -- a called function, whose postcondition does not tell a value from a return
  pub Ensures-call :
      {Q : Type ℓ} (m : Go S Q Q) (M : Q → S → Type ℓ) → Ensures P m M M → Ensures P (call m) M T
  unfolding call
  Ensures-call {Q} m M km = record { at = λ s h. ends (m s).0 (m s).1 (km.at s h) }
    where
      ends : (r : Flow Q Q) (s : S) → Ends M M r s → Ends M T (resume r) s
      ends (next a) s h = h
      ends (return a) s h = h
      ends panic s h = tt

  pub Ensures-exit_if :
      (b : Bool) (r : R) → ((s : S) → b ≡ true → P s → T r s) → Ensures P (exit_if b r) (λ _. P) T
  unfolding exit_if exit pure
  Ensures-exit_if true r h = record { at = λ s p. h s refl p }
  Ensures-exit_if false r h = record { at = λ s p. p }

  -- the same, where the test says something of the states that go on
  pub Ensures-exit_unless :
      (b : Bool) (r : R) (N : S → Type ℓ)
      → ((s : S) → b ≡ true → P s → T r s)
      → ((s : S) → b ≡ false → P s → N s)
      → Ensures P (exit_if b r) (λ _. N) T
  unfolding exit_if exit pure
  Ensures-exit_unless true r N h n = record { at = λ s p. h s refl p }
  Ensures-exit_unless false r N h n = record { at = λ s p. n s refl p }

module _ {ℓ} {S R A : Type ℓ} {P : S → Type ℓ} {T : R → S → Type ℓ} where
  -- what is kept however a statement ends
  pub Ensures-Keeps :
      (m : Go S R A) → ((r : R) (s : S) → P s → T r s) → Keeps P m → Ensures P m (λ _. P) T
  Ensures-Keeps m t km = record { at = λ s h. ends (m s).0 (m s).1 (km.at s h) }
    where
      ends : (r : Flow R A) (s : S) → P s → Ends (λ (_ : A). P) T r s
      ends (next a) s h = h
      ends (return r) s h = t r s h
      ends panic s h = tt

module _ {ℓ} {S R A : Type ℓ} {P : S → Type ℓ} {N M : A → S → Type ℓ} {T U : R → S → Type ℓ} where
  -- a weaker postcondition
  pub Ensures-weaken :
      (m : Go S R A)
      → ((a : A) (s : S) → N a s → M a s)
      → ((r : R) (s : S) → T r s → U r s)
      → Ensures P m N T
      → Ensures P m M U
  Ensures-weaken m f g h = record { at = λ s p. ends (m s).0 (m s).1 (h.at s p) }
    where
      ends : (r : Flow R A) (s : S) → Ends N T r s → Ends M U r s
      ends (next a) s q = f a s q
      ends (return r) s q = g r s q
      ends panic s q = tt
