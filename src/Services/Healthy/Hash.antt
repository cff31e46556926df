-- ===== src/Services/Healthy/Hash.antt =====
-- On such a cluster the inputs are hashed, and a hash that differs from the last replaces it.
use mathlib.Core.Bool.{false≢true}
use ceilometer_operator.Prelude.{
  [], String, ◌≡◌, ◌∙◌, ◌⊎◌, inr, none, sym, ap, subst, refl, Bool, true, false, List, StringMap,
  if◌then◌else◌,
}
use ceilometer_operator.Go.{◌>>=◌, ok, pure, check, exit_if}
use ceilometer_operator.Go.Total.{
  Comes, Total, Total-bind, Total-pure, Total-exit, Total-check_bind, Total-given, Total-exit_if,
}
use ceilometer_operator.Conditions.{CondType}
use ceilometer_operator.Object.{Ret, ret, done}
use ceilometer_operator.Cluster.{Cluster, Stmt, set_status}
use ceilometer_operator.Cluster.Marks.{St}
use ceilometer_operator.Cluster.Waiting.{Any, Fine, Total-the_object_known}
use ceilometer_operator.Services.{Services}
use ceilometer_operator.Services.Inputs.{create_hash_of_input_hashes, Hashed}
use ceilometer_operator.Services.Healthy.{Healthy}

module _ (k : Cluster) (v : Services k) (Good : k.World → Type 0) where
  module _ {Spec Status : Type 0} where
    -- The hashes in the status are those of before with one that has just been replaced, by a hash
    -- that differs from the last.
    abbrev pub Changed : k.HashMap → (Status → k.HashMap) → St k Spec Status → Type 0
    Changed old hash_of s =
        (hash : String) × (k.set_hash old v.input_hash_name hash
          ≡ (hash_of s.instance.status, true))

    abbrev pub AfterHash :
        k.HashMap → (Status → k.HashMap) → List CondType → Hashed k → St k Spec Status → Type 0
    AfterHash old hash_of us r s =
        (answer : String × Bool) × (r ≡ ok answer)
        × (answer.1 ≡ true → Changed old hash_of s)
        × Fine k Good Any us s

    -- the hash is no error
    Total-hashed :
        {T : Ret k.Error → St k Spec Status → Type 0} (old : k.HashMap)
        (hash_of : Status → k.HashMap)
        → (us : List CondType) (r : Hashed k)
        → (handler : k.Error → Stmt k Spec Status (Ret k.Error) (String × Bool))
        → Total
            (AfterHash old hash_of us r)
            (check r handler)
            (λ answer s. (answer.1 ≡ true → Changed old hash_of s) × Fine k Good Any us s)
            T
    unfolding check pure
    Total-hashed {T} old hash_of us r handler = record {
      at = λ s (answer, e, c, f).
          subst
            (λ (x : Hashed k).
              Comes (λ a t. (a.1 ≡ true → Changed old hash_of t) × Fine k Good Any us t) T
                (check x handler s).0 (check x handler s).1)
            (sym e) (c, f);
    }

    -- A pass that has ended well: all that was waited for is true, or the hash of the inputs is new.
    abbrev pub Outcome : k.HashMap → (Status → k.HashMap) → Ret k.Error → St k Spec Status → Type 0
    Outcome old hash_of r s =
        (r ≡ ret done none) × (Fine k Good Any [] s ⊎ (Changed old hash_of s × Good s.world))

    -- the answer is followed, and the pass ends if the hash is new
    pub Total-hashed_bind :
        {B : Type 0} {N : B → St k Spec Status → Type 0} (old : k.HashMap)
        → (hash_of : Status → k.HashMap) (us : List CondType) (r : Hashed k)
        → (handler : k.Error → Stmt k Spec Status (Ret k.Error) (String × Bool))
        → (rest : String → Stmt k Spec Status (Ret k.Error) B)
        → ((hash : String) → Total (Fine k Good Any us) (rest hash) N (Outcome old hash_of))
        → Total
            (AfterHash old hash_of us r)
            (check r handler >>= λ answer. exit_if answer.1 (ret done none) >>= λ _. rest answer.0)
            N
            (Outcome old hash_of)
    Total-hashed_bind old hash_of us r handler rest h =
        Total-bind _ _ _ _ (Total-hashed old hash_of us r handler) λ answer.
          Total-bind _ _ _ _
            (Total-exit_if _ _ (Fine k Good Any us) (λ s e p. (refl, inr (p.0 e, p.1.0)))
              λ s e p. p.1)
            λ _. h answer.0

  module _ (h : Healthy k v Good) {Spec Status : Type 0} where
    pub Total-create_hash_of_input_hashes :
        (old : k.HashMap) (hash_of : Status → k.HashMap) (with_hash : k.HashMap → Status → Status)
        → ((m : k.HashMap) (t : Status) → hash_of (with_hash m t) ≡ m)
        → (vars : StringMap) (us : List CondType)
        → Total
            (Fine k Good (λ t. hash_of t ≡ old) us)
            (create_hash_of_input_hashes k v {Spec = Spec} hash_of with_hash vars)
            (AfterHash {Spec = Spec} old hash_of us)
            (AfterHash {Spec = Spec} old hash_of us)
    unfolding create_hash_of_input_hashes set_status
    Total-create_hash_of_input_hashes old hash_of with_hash same vars us =
        Total-check_bind _ _ _ _ (h.hashed vars) λ hash.
          Total-bind _ _ _ _ (Total-the_object_known k Good (λ t. hash_of t ≡ old) _) λ o.
            Total-given _ λ same_hash.
              Total-bind _ _ _ _
                (stores hash (k.set_hash (hash_of o.status) v.input_hash_name hash)
                  (ap (λ m. k.set_hash m v.input_hash_name hash) (sym same_hash)))
                λ _. Total-exit _ λ s p. (_, refl, p.0, p.1)
      where
        stores :
            (hash : String) (r : k.HashMap × Bool)
            → k.set_hash old v.input_hash_name hash ≡ r
            → Total
                (Fine k Good (λ t. hash_of t ≡ old) us)
                (if r.1 then set_status k (with_hash r.0) else pure tt)
                (λ _ s. (r.1 ≡ true → Changed old hash_of s) × Fine k Good Any us s)
                (AfterHash {Spec = Spec} old hash_of us)
        stores hash (m, true) e = record {
          at = λ s p. (
            λ _. (hash, e ∙ ap (λ x. (x, true)) (sym (same m s.instance.status))),
            (p.0, tt, p.2),
          );
        }
        stores hash (m, false) e = Total-pure _ λ s p. (λ q. absurd (false≢true q), (p.0, tt, p.2))
