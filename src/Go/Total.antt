-- ===== src/Go/Total.antt =====
-- Total postconditions: as in Go/Ensures, but a panic is ruled out. The rules are for statements of
-- which it is known that they succeed.
use mathlib.Core.Bool.{false≢true}
use ceilometer_operator.Prelude.{
  ◌≡◌, ◌∙◌, refl, sym, subst, Bool, true, false, Option, none, some, if◌then◌else◌,
}
use ceilometer_operator.Go.{
  Flow, next, return, panic, Go, continue, pure, exit, call, ◌>>=◌, exit_if, Result, ok, check,
  check_error, deref,
}

abbrev pub Comes : {S R A : Type 0} → (A → S → Type 0) → (R → S → Type 0) → Flow R A → S → Type 0
Comes N T (next a) s = N a s
Comes N T (return r) s = T r s
Comes N T panic s = ⊥

-- From a state where `P` holds, `m` goes on with `N` or returns with `T`, and does not panic.
pub record Total {S R A : Type 0} (P : S → Type 0) (m : Go S R A) (N : A → S → Type 0)
    (T : R → S → Type 0) : Type 0 where
  pub at : (s : S) → P s → Comes N T (m s).0 (m s).1

module _ {S R A : Type 0} {P : S → Type 0} {N : A → S → Type 0} {T : R → S → Type 0} where
  pub Total-pure : (a : A) → ((s : S) → P s → N a s) → Total P (pure a) N T
  unfolding pure
  Total-pure a h = record { at = h }

  pub Total-exit : (r : R) → ((s : S) → P s → T r s) → Total P (exit r) N T
  unfolding exit
  Total-exit r h = record { at = h }

  -- what is known of a value when a statement starts
  pub Total-given : {F : Type 0} (m : Go S R A) → (F → Total P m N T) → Total (λ s. F × P s) m N T
  Total-given m h = record { at = λ s p. (h p.0).at s p.1 }

module _ {S R A B : Type 0} {P : S → Type 0} {T : R → S → Type 0} where
  pub Total-bind :
      (M : A → S → Type 0) (N : B → S → Type 0) (m : Go S R A) (f : A → Go S R B)
      → Total P m M T
      → ((a : A) → Total (M a) (f a) N T)
      → Total P (m >>= f) N T
  unfolding ◌>>=◌
  Total-bind M N m f km kf = record { at = λ s h. let (r, s') = m s in after r s' (km.at s h) }
    where
      after :
          (r : Flow R A) (s : S) → Comes M T r s → Comes N T (continue r f s).0 (continue r f s).1
      after (next a) s h = (kf a).at s h
      after (return r) s h = h
      after panic s h = h

  -- a pointer that is not nil
  pub Total-deref_bind :
      (N : B → S → Type 0) (o : Option A) (f : A → Go S R B)
      → (a : A) × (o ≡ some a)
      → ((a : A) → Total P (f a) N T)
      → Total P (deref o >>= f) N T
  unfolding deref pure ◌>>=◌
  Total-deref_bind N o f (a, e) h =
      subst (λ (x : Option A). Total P (deref x >>= f) N T) (sym e) (record { at = (h a).at })

  -- an answer that is not an error
  pub Total-check_bind :
      {E : Type 0} (N : B → S → Type 0) (r : Result E A) (handler : E → Go S R A) (f : A → Go S R B)
      → (a : A) × (r ≡ ok a)
      → ((a : A) → Total P (f a) N T)
      → Total P (check r handler >>= f) N T
  unfolding check pure ◌>>=◌
  Total-check_bind {E} N r handler f (a, e) h =
      subst (λ (x : Result E A). Total P (check x handler >>= f) N T) (sym e)
        (record { at = (h a).at })

module _ {S R B : Type 0} {P : S → Type 0} {T : R → S → Type 0} where
  -- a called function, of which it is known what it returns
  pub Total-call_bind :
      {Q : Type 0} (M : Q → S → Type 0) (N : B → S → Type 0) (m : Go S Q Q) (f : Q → Go S R B)
      → Total P m (λ r s. M r s) M
      → ((r : Q) → Total (M r) (f r) N T)
      → Total P (call m >>= f) N T
  unfolding call ◌>>=◌
  Total-call_bind {Q} M N m f km kf = record {
    at = λ s h. let (r, s') = m s in after r s' (km.at s h);
  }
    where
      after :
          (r : Flow Q Q) (s : S)
          → Comes M M r s
          → let t = continue {R = R} (ceilometer_operator.Go.resume r) f s in Comes N T t.0 t.1
      after (next a) s h = (kf a).at s h
      after (return a) s h = (kf a).at s h
      after panic s h = absurd h

module _ {S R : Type 0} {P : S → Type 0} {T : R → S → Type 0} where
  pub Total-check_error :
      {E : Type 0} (o : Option E) (handler : E → Go S R Unit)
      → o ≡ none
      → Total P (check_error o handler) (λ _. P) T
  unfolding check_error pure
  Total-check_error {E} o handler e =
      subst (λ (x : Option E). Total P (check_error x handler) (λ _. P) T) (sym e)
        (record { at = λ s h. h })

  pub Total-if_false :
      {A : Type 0} {N : A → S → Type 0} (b : Bool) (m n : Go S R A)
      → b ≡ false
      → Total P n N T
      → Total P (if b then m else n) N T
  Total-if_false true m n e h = cc
  Total-if_false false m n e h = h

  pub Total-if_true :
      {A : Type 0} {N : A → S → Type 0} (b : Bool) (m n : Go S R A)
      → b ≡ true
      → Total P m N T
      → Total P (if b then m else n) N T
  Total-if_true true m n e h = h
  Total-if_true false m n e h = cc

  pub Total-exit_if :
      (b : Bool) (r : R) (N : S → Type 0)
      → ((s : S) → b ≡ true → P s → T r s)
      → ((s : S) → b ≡ false → P s → N s)
      → Total P (exit_if b r) (λ _. N) T
  unfolding exit_if exit pure
  Total-exit_if true r N h n = record { at = λ s p. h s refl p }
  Total-exit_if false r N h n = record { at = λ s p. n s refl p }

  pub Total-exit_if_not : (b : Bool) (r : R) → b ≡ false → Total P (exit_if b r) (λ _. P) T
  Total-exit_if_not b r e =
      Total-exit_if b r P (λ s t p. absurd (false≢true (sym e ∙ t))) λ s f p. p
