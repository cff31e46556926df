-- ===== src/Services/Inputs/Secrets.antt =====
-- `getSecret` on each of its branches.
use ceilometer_operator.Prelude.{
  ◌≡◌, refl, String, append, Option, none, some, StringMap, put, ◌∙◌, Option-cases, Bool-cases, inl,
  inr, if◌then◌else◌,
}
use ceilometer_operator.Go.{Flow, return, panic, ◌>>=◌, exit, check_error, deref}
use ceilometer_operator.Conditions.{ConditionsLaws, input_ready, condition_false, status_at}
use ceilometer_operator.Conditions.Laws.{status_at-set_false, type_eq_refl}
use ceilometer_operator.Object.{State, Ret, ret, done, after, seconds}
use ceilometer_operator.Cluster.{Cluster, Obj, ask, the_object, marks_false, change}
use ceilometer_operator.Services.{Services, Secret}
use ceilometer_operator.Services.Inputs.{get_secret}

-- what an error of the read is turned into
abbrev pub secret_error : (k : Cluster) → String → k.Error → Ret k.Error
secret_error k name e =
    if k.is_not_found e
    then ret (after (seconds 10)) (some (k.errorf (append "secret " (append name " not found"))))
    else ret done (some e)

module _ (k : Cluster) {Spec Status : Type 0} where
  -- Where the read failed: the error, the variables as they were, and `InputReady` false. Where it
  -- did not: the hash of the secret under its own name, and the object as it was. A secret that is
  -- missing without an error is a panic.
  abbrev pub Answered :
      String
      → StringMap
      → State k.World (Obj k Spec Status)
      → Flow (Ret k.Error × StringMap) (Ret k.Error × StringMap) × State k.World (Obj k Spec Status)
      → String
      → Option k.Error
      → Option Secret
      → Type 0
  Answered name vars s p h (some e) x =
      (p.0 ≡ return (secret_error k name e, vars))
      × (status_at k.conditions p.1.instance.conditions input_ready ≡ some condition_false)
  Answered name vars s p h none (some x) =
      (p.0 ≡ return (ret done none, put (append "secret-" x.name) h vars))
      × (p.1.instance ≡ s.instance)
  Answered name vars s p h none none = (p.0 ≡ panic) × (p.1.instance ≡ s.instance)

module _ (k : Cluster) (v : Services k) (l : ConditionsLaws k.conditions)
    {Spec Status : Type 0} where
  -- `getSecret`, on each answer of the API. A secret that is not there is an error that asks for
  -- another pass after ten seconds, and any other error is returned as it is; the condition
  -- `InputReady` is false then, and the variables are as they were. A secret that is there adds its
  -- hash to the variables under its name, and leaves the object as it was.
  pub get_secret-Answered :
      (name : String) (vars : StringMap) (s : State k.World (Obj k Spec Status))
      → let read = (v.get_secret name s.instance.meta.namespace s.world).0 in
        Answered k name vars s (get_secret k v name vars s) read.hash read.error read.secret
  unfolding get_secret ◌>>=◌ the_object ask check_error deref marks_false change exit
  get_secret-Answered name vars s =
      let read = (v.get_secret name s.instance.meta.namespace s.world).0 in
      elim (Option-cases read.error) [
        | inr (e, p) ↦ elim (Bool-cases (k.is_not_found e)) [
          | inl h ↦
              rw (p, h)
                (refl, status_at-set_false k.conditions l _ _ _ _ _ _ _ ∙ rw type_eq_refl refl)
          | inr h ↦
              rw (p, h)
                (refl, status_at-set_false k.conditions l _ _ _ _ _ _ _ ∙ rw type_eq_refl refl)
        ]
        | inl p ↦ elim (Option-cases read.secret) [
          | inr (x, q) ↦ rw (p, q) (refl, refl)
          | inl q ↦ rw (p, q) (refl, refl)
        ]
      ]
