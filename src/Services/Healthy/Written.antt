-- ===== src/Services/Healthy/Written.antt =====
-- What a pass of `Reconcile` does on such a cluster, of a controller that hashes its inputs.
use mathlib.Core.Bool.{false≢true}
use ceilometer_operator.Prelude.{◌≡◌, ◌∙◌, ◌⊎◌, inl, inr, ap, Bool, none, some, if◌then◌else◌}
use ceilometer_operator.Go.{Flow, next, return, panic, ok}
use ceilometer_operator.Go.Total.{Comes}
use ceilometer_operator.Conditions.{ConditionsLaws, ready, condition_true, status_at}
use ceilometer_operator.Object.{Ret, ret, done}
use ceilometer_operator.Object.Ready.{update_ready_iff}
use ceilometer_operator.Cluster.{Cluster, Obj, Handler}
use ceilometer_operator.Cluster.Marks.{St}
use ceilometer_operator.Cluster.Reconcile.{Frame, override, closed, reconcile}
use ceilometer_operator.Cluster.Reconcile.Writes.{reconcile_writes}
use ceilometer_operator.Services.{Services}
use ceilometer_operator.Services.Healthy.Hash.{Changed, Outcome}

module _ (k : Cluster) {Status : Type 0} where
  -- the status, with a map for the hashes
  abbrev pub with_hash_map : (Status → k.HashMap) → (k.HashMap → Status → Status) → Status → Status
  with_hash_map hash_of with_hash t =
      if k.hash_is_nil (hash_of t) then with_hash k.empty_hash t else t

module _ (k : Cluster) {Spec Status : Type 0} where
  -- `Ready`, as the deferred function leaves it
  abbrev pub IsReady : St k Spec Status → Type 0
  IsReady s = status_at k.conditions (closed k s.instance).conditions ready ≡ some condition_true

module _ (k : Cluster) (v : Services k) (Good : k.World → Type 0) {Spec Status : Type 0}
    (hash_of : Status → k.HashMap) (old : k.HashMap) where
  -- What a pass over an object that is read has done: the body has run and returned no error, the
  -- object as it left it is written, and `Ready` is true in it unless the body has replaced the hash
  -- of the inputs among those of before.
  pub record Written (f : Frame k Spec Status) (named : Bool) (body : Handler k Spec Status)
      (o : Obj k Spec Status) (w w1 : k.World) : Type 0 where
    pub left : St k Spec Status
    pub good : Good left.world
    pub ran : body (record { world = w1; instance = o }) ≡ (return (ret done none), left)
    pub pass :
        let (e, w2) = f.patch_instance o (closed k left.instance) left.world in
        reconcile k named f body w ≡ (some (override named (ret done none) e), w2)
    pub shows : IsReady k left ⊎ Changed k v Good old hash_of left

  module _ (l : ConditionsLaws k.conditions) where
    ended :
        (r : Flow (Ret k.Error) (Ret k.Error)) (t : St k Spec Status)
        → Comes (λ _ _. ⊥) (Outcome k v Good old hash_of) r t
        → (r ≡ return (ret done none))
          × Good t.world
          × (IsReady k t ⊎ Changed k v Good old hash_of t)
    unfolding closed
    ended (next a) t p = absurd p
    ended (return a) t (e, inl p) = (
      ap return e,
      p.0,
      inl (
          (update_ready_iff k.conditions l t.instance.conditions).1 λ u x n q.
            elim (p.2.true_or_listed u x n q) [ inl d ↦ d | inr d ↦ absurd (false≢true d) ]),
    )
    ended (return a) t (e, inr p) = (ap return e, p.1, inr p.0)
    ended panic t p = absurd p

    -- a pass over an object that is read, with the statements that its body comes to
    pub Outcome-Written :
        (f : Frame k Spec Status) (named : Bool) (body : Handler k Spec Status)
        → (w w1 : k.World) (o : Obj k Spec Status)
          (m : Flow (Ret k.Error) (Ret k.Error) × St k Spec Status)
        → f.get w ≡ (ok o, w1)
        → f.new_helper o ≡ none
        → body (record { world = w1; instance = o }) ≡ m
        → Comes (λ _ _. ⊥) (Outcome k v Good old hash_of) m.0 m.1
        → Written f named body o w w1
    Outcome-Written f named body w w1 o m g n b c =
        let (r, left_good, shown) = ended m.0 m.1 c in
        let ran = b ∙ ap (λ x. (x, m.1)) r in
        record {
          left = m.1;
          good = left_good;
          ran = ran;
          pass = (reconcile_writes k f body l named w w1 o (ret done none) _ g n ran).0;
          shows = shown;
        }
